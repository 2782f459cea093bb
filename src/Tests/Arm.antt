-- ===== src/Tests/Arm.antt =====
-- ARM processors on concrete registers.
use libcpuid.Base.{[], ◌∷◌, ◌⊎◌, true, ◌||◌, ◌≡◌, refl, arith, codes}
use libcpuid.Data.Feature
use libcpuid.Data.Kinds.{level_unknown, arm, general, u_performance}
use libcpuid.Data.Raw.{RawData, raw_data_t_constructor}
use libcpuid.Data.CpuId.{cpu_id_t_constructor}
use libcpuid.Recog.Arm.Id.{ArmIdPart, ArmHwImpl, part, implementer}
use libcpuid.Recog.Arm.Parts.{arm_part}
use libcpuid.Recog.Arm.FeaturesMap.{features_map}
use libcpuid.Recog.Arm.Status.Laws.{IsWithin}
use libcpuid.Util.Pattern.{
  match_pattern, match_from, match_at, xmatch_entry, match_here, xmatch_class, bracket_end,
  in_class,
}
use libcpuid.Util.Ctype.{tolower}
use libcpuid.Recog.Arm.Status.{
  set_feature_status, match_arm_features, any_field, reg_value, field_is_present,
}
use libcpuid.Recog.Arm.Features.{
  is_aarch64_mode, load_arm_features, load_arm_feature_mte4, load_mte4, load_arm_feature_mpam,
  load_arm_feature_pauth, match_table, load_thumb_jazelle,
}
use libcpuid.Recog.Arm.Features.Bounds.{start}
use libcpuid.Recog.Arm.Features.Tally.{IsTallied, load_arm_features-IsTallied}
use libcpuid.Recog.Arm.Features.Laws.{
  arm_announced, load_arm_features-announced, load_arm_features-hidden,
}
use libcpuid.Recog.Arm.Level.{architecture_arm_v8a, architecture_arm_v9a, profile_level}
use libcpuid.Recog.Arm.Level.Laws.{Reaches}
use libcpuid.Recog.Arm.Identify.{cpuid_identify_arm, name_purpose}
use libcpuid.Recog.Arm.Identify.Laws.{IsPart, cpuid_identify_arm-IsPart, cpuid_identify_arm-Reaches}

-- A Cortex-A72, whose MIDR is 410FD083h, without ID registers.
abbrev a72_raw : RawData
a72_raw = record raw_data_t_constructor { arm_midr = 1091555459 }

abbrev a72_part : ArmIdPart
a72_part = part 3336 (codes "Cortex-A72") (codes "Maia") (codes "28-16 nm")

abbrev holdings : ArmHwImpl
holdings = implementer 65 arm arm_part (codes "ARM")

cpuid_identify_arm-IsPart_example :
    IsPart a72_raw holdings a72_part (cpuid_identify_arm a72_raw cpu_id_t_constructor)
cpuid_identify_arm-IsPart_example =
    cpuid_identify_arm-IsPart a72_raw cpu_id_t_constructor 0 38 holdings a72_part refl refl refl
      refl (omega arith)

cpuid_identify_arm-Reaches_example :
    Reaches a72_raw level_unknown architecture_arm_v8a
      (cpuid_identify_arm a72_raw cpu_id_t_constructor).feature_level
    ⊎ Reaches a72_raw level_unknown architecture_arm_v9a
        (cpuid_identify_arm a72_raw cpu_id_t_constructor).feature_level
unfolding profile_level raw_data_t_constructor
cpuid_identify_arm-Reaches_example =
    cpuid_identify_arm-Reaches a72_raw cpu_id_t_constructor refl refl

-- ID_AA64MMFR1_EL1 with PAN, which makes the mode AArch64 by ID_AA64PFR0_EL1.
abbrev pan_raw : RawData
pan_raw = record a72_raw { arm_id_aa64mmfr = 1 ∷ 1048576 ∷ 0 ∷ 0 ∷ 0 ∷ [] }

load_arm_features-announced_example :
    (load_arm_features pan_raw (start cpu_id_t_constructor)).id.flags Feature.pan ≡ (
      arm_announced (is_aarch64_mode pan_raw) pan_raw features_map Feature.pan
      || (start cpu_id_t_constructor).id.flags Feature.pan)
load_arm_features-announced_example =
    load_arm_features-announced pan_raw (start cpu_id_t_constructor) Feature.pan refl

pan_is_set : (load_arm_features pan_raw (start cpu_id_t_constructor)).id.flags Feature.pan ≡ true
unfolding load_arm_features is_aarch64_mode load_arm_feature_mte4 load_mte4 set_feature_status
    raw_data_t_constructor load_arm_feature_mpam load_arm_feature_pauth match_table
    match_arm_features any_field reg_value field_is_present load_thumb_jazelle cpu_id_t_constructor
pan_is_set = refl

-- The same by ID_MMFR3 in AArch32.
abbrev pan32_raw : RawData
pan32_raw = record a72_raw { arm_id_mmfr = 0 ∷ 0 ∷ 0 ∷ 65536 ∷ 0 ∷ 0 ∷ [] }

load_arm_features-hidden_example :
    (load_arm_features pan32_raw (start cpu_id_t_constructor)).id.flags Feature.pan
    ≡ (start cpu_id_t_constructor).id.flags Feature.pan
unfolding is_aarch64_mode raw_data_t_constructor
load_arm_features-hidden_example =
    load_arm_features-hidden pan32_raw (start cpu_id_t_constructor) Feature.pan refl refl

load_arm_features-IsTallied_example :
    IsTallied a72_raw cpu_id_t_constructor (load_arm_features a72_raw (start cpu_id_t_constructor))
    × IsWithin 254 (load_arm_features a72_raw (start cpu_id_t_constructor))
load_arm_features-IsTallied_example = load_arm_features-IsTallied a72_raw cpu_id_t_constructor

-- The sets of the patterns leave out the digit 4.
x4_is_general :
    (name_purpose (codes "Cortex-X3") ≡ u_performance)
    × (name_purpose (codes "Cortex-X4") ≡ general)
unfolding name_purpose match_pattern match_from match_at xmatch_entry tolower match_here
    xmatch_class bracket_end in_class
x4_is_general = (refl, refl)
