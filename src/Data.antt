-- ===== src/Data.antt =====
-- The types of libcpuid/libcpuid.h and libcpuid/libcpuid_internal.h.
pub mod Feature
pub mod Kinds
pub mod Raw
pub mod CpuId
