-- ===== src/Recog/Arm/Id.antt =====
-- The rows of the tables of libcpuid/recog_arm.c by which an ARM processor is named.
use libcpuid.Base.{ℕ, List}
use libcpuid.Data.Kinds.{CpuVendor}

-- `arm_id_part`.
pub record ArmIdPart : Type 0 where
  pub id : ℕ
  pub name : List ℕ
  pub codename : List ℕ
  pub technology : List ℕ

-- `arm_hw_impl`.
pub record ArmHwImpl : Type 0 where
  pub id : ℕ
  pub vendor : CpuVendor
  pub parts : List ArmIdPart
  pub name : List ℕ

abbrev pub part : ℕ → List ℕ → List ℕ → List ℕ → ArmIdPart
part id name codename technology = record {
  id = id;
  name = name;
  codename = codename;
  technology = technology;
}

abbrev pub implementer : ℕ → CpuVendor → List ArmIdPart → List ℕ → ArmHwImpl
implementer id vendor parts name = record { id = id; vendor = vendor; parts = parts; name = name }
