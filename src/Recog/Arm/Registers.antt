-- ===== src/Recog/Arm/Registers.antt =====
-- `arm_feature_field_t` and `arm_feature_map_t` of libcpuid/recog_arm.c: the fields of the ID registers
-- by which an ARM processor announces a feature.
use libcpuid.Base.{ℕ, List, Option, none, some}
use libcpuid.Data.Feature.{CpuFeature}
use libcpuid.Data.Kinds.{CpuFeatureLevel}
use libcpuid.Data.Raw.{RawData, reg}

-- The pointers into `cpu_raw_data_t` that the table holds.
pub data Aarch32Reg : Type 0 where
  id_dfr id_isar id_mmfr id_pfr : ℕ → Aarch32Reg

pub data Aarch64Reg : Type 0 where
  id_aa64dfr id_aa64fpfr id_aa64isar id_aa64mmfr : ℕ → Aarch64Reg
  id_aa64pfr id_aa64smfr id_aa64zfr : ℕ → Aarch64Reg

-- What they point to.
abbrev pub aarch32_value : RawData → Aarch32Reg → ℕ
aarch32_value raw (id_dfr i) = reg raw.arm_id_dfr i
aarch32_value raw (id_isar i) = reg raw.arm_id_isar i
aarch32_value raw (id_mmfr i) = reg raw.arm_id_mmfr i
aarch32_value raw (id_pfr i) = reg raw.arm_id_pfr i

abbrev pub aarch64_value : RawData → Aarch64Reg → ℕ
aarch64_value raw (id_aa64dfr i) = reg raw.arm_id_aa64dfr i
aarch64_value raw (id_aa64fpfr i) = reg raw.arm_id_aa64fpfr i
aarch64_value raw (id_aa64isar i) = reg raw.arm_id_aa64isar i
aarch64_value raw (id_aa64mmfr i) = reg raw.arm_id_aa64mmfr i
aarch64_value raw (id_aa64pfr i) = reg raw.arm_id_aa64pfr i
aarch64_value raw (id_aa64smfr i) = reg raw.arm_id_aa64smfr i
aarch64_value raw (id_aa64zfr i) = reg raw.arm_id_aa64zfr i

-- `arm_feature_field_t`; `none` is NULL.
pub record ArmFeatureField : Type 0 where
  pub aarch32_reg : Option Aarch32Reg
  pub aarch64_reg : Option Aarch64Reg
  pub highbit : ℕ
  pub lowbit : ℕ
  pub value : ℕ

-- An entry of `features_map`, with its index. The fields are those in front of the sentinel.
pub record ArmFeatureMap : Type 0 where
  pub feature : CpuFeature
  pub ver_optional : CpuFeatureLevel
  pub ver_mandatory : CpuFeatureLevel
  pub fields : List ArmFeatureField

abbrev pub entry :
    CpuFeature → CpuFeatureLevel → CpuFeatureLevel → List ArmFeatureField → ArmFeatureMap
entry feature ver_optional ver_mandatory fields = record {
  feature = feature;
  ver_optional = ver_optional;
  ver_mandatory = ver_mandatory;
  fields = fields;
}

-- A field of one of the two kinds of registers, and of both.
abbrev pub aarch32 : Aarch32Reg → ℕ → ℕ → ℕ → ArmFeatureField
aarch32 r highbit lowbit value = record {
  aarch32_reg = some r;
  aarch64_reg = none;
  highbit = highbit;
  lowbit = lowbit;
  value = value;
}

abbrev pub aarch64 : Aarch64Reg → ℕ → ℕ → ℕ → ArmFeatureField
aarch64 r highbit lowbit value = record {
  aarch32_reg = none;
  aarch64_reg = some r;
  highbit = highbit;
  lowbit = lowbit;
  value = value;
}

abbrev pub either_reg : Aarch32Reg → Aarch64Reg → ℕ → ℕ → ℕ → ArmFeatureField
either_reg r s highbit lowbit value = record {
  aarch32_reg = some r;
  aarch64_reg = some s;
  highbit = highbit;
  lowbit = lowbit;
  value = value;
}
