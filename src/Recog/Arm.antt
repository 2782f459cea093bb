-- ===== src/Recog/Arm.antt =====
-- The recognition of ARM processors: libcpuid/recog_arm.c.
pub mod Id
pub mod Parts
pub mod Registers
pub mod FeaturesMap
pub mod Status
pub mod Level
pub mod Features
pub mod Identify
