-- ===== src/Recog/Intel.antt =====
-- libcpuid/recog_intel.c: the processors of Intel.
pub mod Table
pub mod Features
pub mod Cache
pub mod Topology
pub mod Sgx
pub mod Identify
