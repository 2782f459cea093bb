-- ===== src/Recog/Arm/FeaturesMap/Part5.antt =====
-- `features_map` of `load_arm_features` (libcpuid/recog_arm.c), part 5 of 15.
use libcpuid.Base.{List, [], ◌∷◌}
use libcpuid.Data.Feature
use libcpuid.Data.Kinds.{arm_v8_2_a, arm_v8_3_a, arm_v8_4_a, level_unknown}
use libcpuid.Recog.Arm.Registers.{
  ArmFeatureMap, entry, aarch32, aarch64, either_reg, id_dfr, id_isar, id_pfr, id_aa64dfr,
  id_aa64isar, id_aa64mmfr, id_aa64pfr,
}

abbrev pub features_map_part5 : List ArmFeatureMap
features_map_part5 =
    entry Feature.constpacfield arm_v8_2_a level_unknown (aarch64 (id_aa64isar 2) 27 24 1 ∷ [])
    ∷ entry Feature.epac arm_v8_2_a level_unknown (
        aarch64 (id_aa64isar 1) 11 8 2
        ∷ aarch64 (id_aa64isar 1) 7 4 2
        ∷ aarch64 (id_aa64isar 2) 15 12 2
        ∷ [])
    ∷ entry Feature.fcma arm_v8_2_a level_unknown
        (aarch64 (id_aa64isar 1) 19 16 1 ∷ aarch32 (id_isar 5) 31 28 1 ∷ [])
    ∷ entry Feature.fpac arm_v8_2_a level_unknown (
        aarch64 (id_aa64isar 1) 11 8 4
        ∷ aarch64 (id_aa64isar 1) 7 4 4
        ∷ aarch64 (id_aa64isar 2) 15 12 4
        ∷ [])
    ∷ entry Feature.fpaccombine arm_v8_2_a level_unknown (
        aarch64 (id_aa64isar 1) 11 8 5
        ∷ aarch64 (id_aa64isar 1) 7 4 5
        ∷ aarch64 (id_aa64isar 2) 15 12 5
        ∷ [])
    ∷ entry Feature.jscvt arm_v8_2_a level_unknown
        (aarch64 (id_aa64isar 1) 15 12 1 ∷ aarch32 (id_isar 6) 3 0 1 ∷ [])
    ∷ entry Feature.lrcpc arm_v8_2_a arm_v8_3_a (aarch64 (id_aa64isar 1) 23 20 1 ∷ [])
    ∷ entry Feature.pacimp arm_v8_2_a level_unknown (aarch64 (id_aa64isar 1) 31 28 1 ∷ [])
    ∷ entry Feature.pacqarma3 arm_v8_2_a level_unknown (aarch64 (id_aa64isar 2) 11 8 1 ∷ [])
    ∷ entry Feature.pacqarma5 arm_v8_2_a level_unknown (aarch64 (id_aa64isar 1) 27 24 1 ∷ [])
    ∷ entry Feature.pauth arm_v8_2_a arm_v8_3_a (
        aarch64 (id_aa64isar 1) 11 8 1
        ∷ aarch64 (id_aa64isar 1) 7 4 1
        ∷ aarch64 (id_aa64isar 2) 15 12 1
        ∷ [])
    ∷ entry Feature.spev1p1 arm_v8_2_a level_unknown (aarch64 (id_aa64dfr 0) 35 32 2 ∷ [])
    ∷ entry Feature.amuv1 arm_v8_3_a level_unknown
        (aarch64 (id_aa64pfr 0) 47 44 1 ∷ aarch32 (id_pfr 0) 23 20 1 ∷ [])
    ∷ entry Feature.bbm arm_v8_3_a arm_v8_4_a (
        aarch64 (id_aa64mmfr 2) 55 52 0
        ∷ aarch64 (id_aa64mmfr 2) 55 52 1
        ∷ aarch64 (id_aa64mmfr 2) 55 52 2
        ∷ [])
    ∷ entry Feature.dit arm_v8_3_a arm_v8_4_a
        (aarch64 (id_aa64pfr 0) 51 48 1 ∷ aarch32 (id_pfr 0) 27 24 1 ∷ [])
    ∷ entry Feature.debugv8p4 arm_v8_3_a arm_v8_4_a
        (either_reg (id_dfr 0) (id_aa64dfr 0) 3 0 9 ∷ [])
    ∷ []
