-- ===== src/Recog/Arm/FeaturesMap/Part9.antt =====
-- `features_map` of `load_arm_features` (libcpuid/recog_arm.c), part 9 of 15.
use libcpuid.Base.{List, [], ◌∷◌}
use libcpuid.Data.Feature
use libcpuid.Data.Kinds.{
  arm_v8_0_a, arm_v8_5_a, arm_v8_6_a, arm_v8_7_a, arm_v8_8_a, arm_v8_9_a, level_unknown,
}
use libcpuid.Recog.Arm.Registers.{
  ArmFeatureMap, entry, aarch32, aarch64, either_reg, id_dfr, id_aa64dfr, id_aa64isar, id_aa64mmfr,
  id_aa64pfr,
}

abbrev pub features_map_part9 : List ArmFeatureMap
features_map_part9 =
    entry Feature.mte3 arm_v8_5_a level_unknown (aarch64 (id_aa64pfr 1) 11 8 3 ∷ [])
    ∷ entry Feature.mte_asym_fault arm_v8_7_a level_unknown (aarch64 (id_aa64pfr 1) 11 8 3 ∷ [])
    ∷ entry Feature.pan3 arm_v8_0_a arm_v8_7_a (aarch64 (id_aa64mmfr 1) 23 20 3 ∷ [])
    ∷ entry Feature.pmuv3p7 arm_v8_6_a level_unknown
        (aarch64 (id_aa64dfr 0) 11 8 7 ∷ aarch32 (id_dfr 0) 27 24 7 ∷ [])
    ∷ entry Feature.rpres arm_v8_6_a level_unknown (aarch64 (id_aa64isar 2) 7 4 1 ∷ [])
    ∷ entry Feature.spev1p2 arm_v8_6_a level_unknown (aarch64 (id_aa64dfr 0) 35 32 3 ∷ [])
    ∷ entry Feature.wfxt arm_v8_6_a arm_v8_7_a (aarch64 (id_aa64isar 2) 3 0 2 ∷ [])
    ∷ entry Feature.xs arm_v8_6_a arm_v8_7_a (aarch64 (id_aa64isar 1) 59 56 1 ∷ [])
    ∷ entry Feature.cmow arm_v8_7_a arm_v8_8_a (aarch64 (id_aa64mmfr 1) 59 56 1 ∷ [])
    ∷ entry Feature.debugv8p8 arm_v8_7_a arm_v8_8_a
        (either_reg (id_dfr 0) (id_aa64dfr 0) 3 0 10 ∷ [])
    ∷ entry Feature.hbc arm_v8_7_a arm_v8_8_a (aarch64 (id_aa64isar 2) 23 20 1 ∷ [])
    ∷ entry Feature.mops arm_v8_7_a arm_v8_8_a (aarch64 (id_aa64isar 2) 19 16 1 ∷ [])
    ∷ entry Feature.nmi arm_v8_7_a arm_v8_8_a (aarch64 (id_aa64pfr 1) 39 36 1 ∷ [])
    ∷ entry Feature.pmuv3p8 arm_v8_7_a level_unknown
        (aarch64 (id_aa64dfr 0) 11 8 8 ∷ aarch32 (id_dfr 0) 27 24 8 ∷ [])
    ∷ entry Feature.sctlr2 arm_v8_0_a arm_v8_9_a (aarch64 (id_aa64mmfr 3) 7 4 1 ∷ [])
    ∷ entry Feature.spev1p3 arm_v8_7_a level_unknown (aarch64 (id_aa64dfr 0) 35 32 4 ∷ [])
    ∷ entry Feature.tcr2 arm_v8_0_a arm_v8_9_a (aarch64 (id_aa64mmfr 3) 3 0 1 ∷ [])
    ∷ entry Feature.tidcp1 arm_v8_7_a arm_v8_8_a (aarch64 (id_aa64mmfr 1) 55 52 1 ∷ [])
    ∷ []
