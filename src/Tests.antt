-- ===== src/Tests.antt =====
-- Runs of the modelled functions on concrete data, and concrete instances of what is proved of them.
pub mod Util
pub mod Text
pub mod Detect
pub mod Topology
pub mod Recog
pub mod Arm
pub mod System
