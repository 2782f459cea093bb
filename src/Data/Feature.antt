-- ===== src/Data/Feature.antt =====
-- `cpu_feature_t` of libcpuid/libcpuid.h: the features of processors, each constant with the
-- value that the enumeration gives it. The value is the feature's index in `flags`.
mod Defs
mod Early
mod Late
mod ArmPart1
mod ArmPart2
mod ArmPart3
mod ArmPart4
pub use Defs.*
pub use Early.*
pub use Late.*
pub use ArmPart1.*
pub use ArmPart2.*
pub use ArmPart3.*
pub use ArmPart4.*
