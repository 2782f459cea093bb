-- ===== src/Recog.antt =====
-- The recognition of the processors of single vendors: libcpuid/recog_intel.c, libcpuid/recog_amd.c,
-- libcpuid/recog_centaur.c and libcpuid/recog_arm.c.
pub mod Outcome
pub mod Hidden
pub mod Intel
pub mod Amd
pub mod Centaur
pub mod Arm
