-- ===== src/Detect.antt =====
-- libcpuid/cpuid_main.c: from raw data to a description of the processor.
pub mod Vendor
pub mod Instances
pub mod Features
pub mod Basic
pub mod Topology
pub mod Caches
pub mod Ident
pub mod System
