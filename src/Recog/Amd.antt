-- ===== src/Recog/Amd.antt =====
-- libcpuid/recog_amd.c: the processors of AMD and Hygon.
pub mod Table
pub mod Features
pub mod Decode
pub mod Identify
