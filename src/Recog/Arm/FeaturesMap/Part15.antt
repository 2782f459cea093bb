-- ===== src/Recog/Arm/FeaturesMap/Part15.antt =====
-- `features_map` of `load_arm_features` (libcpuid/recog_arm.c), part 15 of 15.
use libcpuid.Base.{List, [], ◌∷◌}
use libcpuid.Data.Feature
use libcpuid.Data.Kinds.{arm_v9_2_a, arm_v9_4_a, arm_v9_5_a, level_unknown}
use libcpuid.Recog.Arm.Registers.{
  ArmFeatureMap, entry, aarch64, id_aa64dfr, id_aa64isar, id_aa64smfr,
}

abbrev pub features_map_part15 : List ArmFeatureMap
features_map_part15 =
    entry Feature.ssve_fp8fma arm_v9_2_a level_unknown (aarch64 (id_aa64smfr 0) 30 30 1 ∷ [])
    ∷ entry Feature.step2 arm_v9_4_a arm_v9_5_a (aarch64 (id_aa64dfr 2) 3 0 1 ∷ [])
    ∷ entry Feature.tlbiw arm_v9_4_a level_unknown (aarch64 (id_aa64isar 3) 11 8 1 ∷ [])
    ∷ []
