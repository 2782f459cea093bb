-- ===== src/Recog/Centaur.antt =====
-- libcpuid/recog_centaur.c: the processors of VIA and Zhaoxin.
pub mod Table
pub mod Identify
