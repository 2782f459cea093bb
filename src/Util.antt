-- ===== src/Util.antt =====
-- libcpuid/libcpuid_util.c.
pub mod Ctype
pub mod Pattern
pub mod Text
pub mod Order
pub mod Affinity
pub mod Codename
pub mod CpuList
pub mod Features
pub mod Level
pub mod Cache
pub mod Cores
