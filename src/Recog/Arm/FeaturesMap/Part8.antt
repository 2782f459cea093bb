-- ===== src/Recog/Arm/FeaturesMap/Part8.antt =====
-- `features_map` of `load_arm_features` (libcpuid/recog_arm.c), part 8 of 15.
use libcpuid.Base.{List, [], ◌∷◌}
use libcpuid.Data.Feature
use libcpuid.Data.Kinds.{arm_v8_0_a, arm_v8_2_a, arm_v8_5_a, arm_v8_6_a, level_unknown}
use libcpuid.Recog.Arm.Registers.{
  ArmFeatureMap, entry, aarch32, aarch64, id_dfr, id_isar, id_pfr, id_aa64dfr, id_aa64isar,
  id_aa64mmfr, id_aa64pfr, id_aa64zfr,
}

abbrev pub features_map_part8 : List ArmFeatureMap
features_map_part8 =
    entry Feature.aa32bf16 arm_v8_2_a level_unknown (aarch32 (id_isar 6) 23 20 1 ∷ [])
    ∷ entry Feature.amuv1p1 arm_v8_5_a level_unknown
        (aarch64 (id_aa64pfr 0) 47 44 2 ∷ aarch32 (id_pfr 0) 23 20 2 ∷ [])
    ∷ entry Feature.bf16 arm_v8_2_a arm_v8_6_a
        (aarch64 (id_aa64isar 1) 47 44 1 ∷ aarch64 (id_aa64zfr 0) 23 20 1 ∷ [])
    ∷ entry Feature.dgh arm_v8_0_a level_unknown (aarch64 (id_aa64isar 1) 51 48 1 ∷ [])
    ∷ entry Feature.ecv arm_v8_5_a arm_v8_6_a
        (aarch64 (id_aa64mmfr 0) 63 60 1 ∷ aarch64 (id_aa64mmfr 0) 63 60 2 ∷ [])
    ∷ entry Feature.fgt arm_v8_5_a level_unknown (aarch64 (id_aa64mmfr 0) 59 56 1 ∷ [])
    ∷ entry Feature.hpmn0 arm_v8_5_a level_unknown
        (aarch64 (id_aa64dfr 0) 63 60 1 ∷ aarch32 (id_dfr 0) 7 4 1 ∷ [])
    ∷ entry Feature.mtpmu arm_v8_5_a level_unknown
        (aarch64 (id_aa64dfr 0) 51 48 1 ∷ aarch32 (id_dfr 1) 3 0 1 ∷ [])
    ∷ entry Feature.pauth2 arm_v8_2_a arm_v8_6_a (
        aarch64 (id_aa64isar 1) 11 8 3
        ∷ aarch64 (id_aa64isar 1) 7 4 3
        ∷ aarch64 (id_aa64isar 2) 15 12 3
        ∷ [])
    ∷ entry Feature.twed arm_v8_5_a level_unknown (aarch64 (id_aa64mmfr 1) 35 32 1 ∷ [])
    ∷ entry Feature.afp arm_v8_6_a level_unknown (aarch64 (id_aa64mmfr 1) 47 44 1 ∷ [])
    ∷ entry Feature.ebf16 arm_v8_2_a level_unknown
        (aarch64 (id_aa64isar 1) 47 44 2 ∷ aarch64 (id_aa64zfr 0) 23 20 2 ∷ [])
    ∷ entry Feature.hcx arm_v8_6_a level_unknown (aarch64 (id_aa64mmfr 1) 43 40 1 ∷ [])
    ∷ entry Feature.lpa2 arm_v8_6_a level_unknown
        (aarch64 (id_aa64mmfr 0) 31 28 1 ∷ aarch64 (id_aa64mmfr 0) 23 20 1 ∷ [])
    ∷ entry Feature.ls64 arm_v8_6_a level_unknown (aarch64 (id_aa64isar 1) 63 60 1 ∷ [])
    ∷ entry Feature.ls64_accdata arm_v8_6_a level_unknown (aarch64 (id_aa64isar 1) 63 60 3 ∷ [])
    ∷ entry Feature.ls64_v arm_v8_6_a level_unknown (aarch64 (id_aa64isar 1) 63 60 2 ∷ [])
    ∷ []
