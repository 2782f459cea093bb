-- ===== src/Data/Feature/Defs.antt =====
-- The type of a feature: an enumerator of `cpu_feature_t` (libcpuid/libcpuid.h), by its value.
use libcpuid.Base.{ℕ}

abbrev pub CpuFeature : Type 0
CpuFeature = ℕ
