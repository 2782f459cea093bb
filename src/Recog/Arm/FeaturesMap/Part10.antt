-- ===== src/Recog/Arm/FeaturesMap/Part10.antt =====
-- `features_map` of `load_arm_features` (libcpuid/recog_arm.c), part 10 of 15.
use libcpuid.Base.{List, [], ◌∷◌}
use libcpuid.Data.Feature
use libcpuid.Data.Kinds.{arm_v8_0_a, arm_v8_2_a, arm_v8_7_a, arm_v8_8_a, arm_v8_9_a, level_unknown}
use libcpuid.Recog.Arm.Registers.{
  ArmFeatureMap, entry, aarch64, either_reg, id_dfr, id_isar, id_aa64dfr, id_aa64isar, id_aa64mmfr,
  id_aa64pfr,
}

abbrev pub features_map_part10 : List ArmFeatureMap
features_map_part10 =
    entry Feature.aderr arm_v8_8_a level_unknown
      (aarch64 (id_aa64mmfr 3) 59 56 2 ∷ aarch64 (id_aa64mmfr 3) 55 52 2 ∷ [])
    ∷ entry Feature.aie arm_v8_8_a level_unknown (aarch64 (id_aa64mmfr 3) 27 24 1 ∷ [])
    ∷ entry Feature.anerr arm_v8_8_a level_unknown
        (aarch64 (id_aa64mmfr 3) 47 44 2 ∷ aarch64 (id_aa64mmfr 3) 43 40 2 ∷ [])
    ∷ entry Feature.ats1a arm_v8_8_a level_unknown (aarch64 (id_aa64isar 2) 63 60 1 ∷ [])
    ∷ entry Feature.clrbhb arm_v8_0_a arm_v8_9_a
        (either_reg (id_isar 6) (id_aa64isar 2) 31 28 1 ∷ [])
    ∷ entry Feature.cssc arm_v8_7_a level_unknown (aarch64 (id_aa64isar 2) 55 52 1 ∷ [])
    ∷ entry Feature.debugv8p9 arm_v8_8_a arm_v8_9_a
        (either_reg (id_dfr 0) (id_aa64dfr 0) 3 0 11 ∷ [])
    ∷ entry Feature.doublefault2 arm_v8_8_a level_unknown (aarch64 (id_aa64pfr 1) 59 56 1 ∷ [])
    ∷ entry Feature.ecbhb arm_v8_0_a arm_v8_9_a (aarch64 (id_aa64mmfr 1) 63 60 1 ∷ [])
    ∷ entry Feature.fgt2 arm_v8_8_a level_unknown (aarch64 (id_aa64mmfr 0) 59 56 2 ∷ [])
    ∷ entry Feature.haft arm_v8_7_a level_unknown (aarch64 (id_aa64mmfr 1) 3 0 3 ∷ [])
    ∷ entry Feature.lrcpc3 arm_v8_2_a level_unknown (aarch64 (id_aa64isar 1) 23 20 3 ∷ [])
    ∷ entry Feature.mte_perm arm_v8_7_a level_unknown (aarch64 (id_aa64pfr 2) 3 0 1 ∷ [])
    ∷ entry Feature.mte_store_only arm_v8_7_a level_unknown (aarch64 (id_aa64pfr 2) 7 4 1 ∷ [])
    ∷ entry Feature.mte_tagged_far arm_v8_7_a level_unknown (aarch64 (id_aa64pfr 2) 11 8 1 ∷ [])
    ∷ entry Feature.pfar arm_v8_8_a level_unknown (aarch64 (id_aa64pfr 1) 63 60 1 ∷ [])
    ∷ entry Feature.pmuv3_icntr arm_v8_8_a level_unknown (aarch64 (id_aa64dfr 1) 39 36 1 ∷ [])
    ∷ entry Feature.pmuv3_ss arm_v8_8_a level_unknown (aarch64 (id_aa64dfr 0) 19 16 1 ∷ [])
    ∷ []
