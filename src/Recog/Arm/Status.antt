-- ===== src/Recog/Arm/Status.antt =====
-- `set_feature_status` and `match_arm_features` of libcpuid/recog_arm.c: a feature of an ARM processor,
-- and how many features of each level of the architecture there are.
pub mod Counts
pub mod Laws
pub mod Announces
use libcpuid.Base.{
  ℕ, ◌+◌, Bool, true, false, ◌||◌, List, [], ◌∷◌, Option, none, some, ◌==◌, if◌then◌else◌,
  extracts_bits, u8,
}
use libcpuid.Data.Feature.{CpuFeature}
use libcpuid.Data.Kinds.{CpuFeatureLevel, level_value, level_eq}
use libcpuid.Data.Raw.{RawData}
use libcpuid.Data.CpuId.{CpuId, set_flag}
use libcpuid.Recog.Arm.Registers.{ArmFeatureField, ArmFeatureMap, aarch32_value, aarch64_value}

-- `arm_arch_feature_t`.
pub record ArmArchFeature : Type 0 where
  pub optional : ℕ
  pub mandatory : ℕ

-- An array with an element for each level.
abbrev pub LevelCounts : Type 0
LevelCounts = CpuFeatureLevel → ArmArchFeature

-- `arm_arch_extension_t`.
pub record ArmArchExtension : Type 0 where
  pub present : LevelCounts
  pub total : LevelCounts

-- `data` and `ext_status`, which the functions change.
pub record ArmStatus : Type 0 where
  pub id : CpuId
  pub ext_status : ArmArchExtension

abbrev pub no_counts : LevelCounts
no_counts level = record { optional = 0; mandatory = 0 }

-- `level >= 0`.
unfoldable pub is_known : CpuFeatureLevel → Bool
is_known level = elim (level_value level) [ none ↦ false | some v ↦ true ]

-- `counts[from].optional++` and `counts[from].mandatory++`, in eight bits, if there is such a level.
unfoldable pub count_optional : CpuFeatureLevel → LevelCounts → LevelCounts
count_optional from counts level =
    if is_known from
    then (if level_eq level from
        then record (counts level) { optional = u8 ((counts level).optional + 1) }
        else counts level)
    else counts level

unfoldable pub count_mandatory : CpuFeatureLevel → LevelCounts → LevelCounts
count_mandatory from counts level =
    if is_known from
    then (if level_eq level from
        then record (counts level) { mandatory = u8 ((counts level).mandatory + 1) }
        else counts level)
    else counts level

unfoldable pub set_feature_status :
    Bool → CpuFeature → CpuFeatureLevel → CpuFeatureLevel → ArmStatus → ArmStatus
set_feature_status is_present feature optional_from mandatory_from status =
    let ext = status.ext_status in
    let total = count_mandatory mandatory_from (count_optional optional_from ext.total) in
    let present =
      if is_known optional_from
      then count_mandatory mandatory_from (count_optional optional_from ext.present)
      else ext.present in
    if is_present
    then record {
      id = record status.id { flags = set_flag feature true status.id.flags };
      ext_status = record { present = present; total = total };
    }
    else record { id = status.id; ext_status = record { present = ext.present; total = total } }

-- The register of a field; `none` is the `break`.
unfoldable pub reg_value : Bool → RawData → ArmFeatureField → Option ℕ
reg_value is_aarch64 raw field =
    if is_aarch64
    then elim field.aarch64_reg [ none ↦ none | some r ↦ some (aarch64_value raw r) ]
    else elim field.aarch32_reg [ none ↦ none | some r ↦ some (aarch32_value raw r) ]

unfoldable pub field_is_present : ℕ → ArmFeatureField → Bool
field_is_present value field = extracts_bits value field.highbit field.lowbit == field.value

-- The loop over the fields.
unfoldable pub any_field : Bool → RawData → List ArmFeatureField → Bool → Bool
any_field is_aarch64 raw [] feature_is_present = feature_is_present
any_field is_aarch64 raw (field ∷ fields) feature_is_present =
    elim (reg_value is_aarch64 raw field) [
      | none ↦ feature_is_present
      | some value ↦
          any_field is_aarch64 raw fields (feature_is_present || field_is_present value field)
    ]

unfoldable pub match_arm_features : Bool → RawData → ArmFeatureMap → ArmStatus → ArmStatus
match_arm_features is_aarch64 raw feature_map status =
    set_feature_status (any_field is_aarch64 raw feature_map.fields false) feature_map.feature
      feature_map.ver_optional feature_map.ver_mandatory status
