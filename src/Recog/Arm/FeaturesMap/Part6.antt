-- ===== src/Recog/Arm/FeaturesMap/Part6.antt =====
-- `features_map` of `load_arm_features` (libcpuid/recog_arm.c), part 6 of 15.
use libcpuid.Base.{List, [], ◌∷◌}
use libcpuid.Data.Feature
use libcpuid.Data.Kinds.{arm_v8_1_a, arm_v8_2_a, arm_v8_3_a, arm_v8_4_a, arm_v8_5_a, level_unknown}
use libcpuid.Recog.Arm.Registers.{
  ArmFeatureMap, entry, aarch32, aarch64, either_reg, id_dfr, id_isar, id_pfr, id_aa64dfr,
  id_aa64isar, id_aa64mmfr, id_aa64pfr,
}

abbrev pub features_map_part6 : List ArmFeatureMap
features_map_part6 =
    entry Feature.dotprod arm_v8_1_a level_unknown
      (aarch64 (id_aa64isar 0) 47 44 1 ∷ aarch32 (id_isar 6) 7 4 1 ∷ [])
    ∷ entry Feature.doublefault arm_v8_4_a level_unknown (aarch64 (id_aa64pfr 0) 31 28 2 ∷ [])
    ∷ entry Feature.fhm arm_v8_1_a level_unknown
        (aarch64 (id_aa64isar 0) 51 48 1 ∷ aarch32 (id_isar 6) 11 8 1 ∷ [])
    ∷ entry Feature.flagm arm_v8_1_a arm_v8_4_a (aarch64 (id_aa64isar 0) 55 52 1 ∷ [])
    ∷ entry Feature.idst arm_v8_3_a arm_v8_4_a (aarch64 (id_aa64mmfr 2) 39 36 1 ∷ [])
    ∷ entry Feature.lrcpc2 arm_v8_2_a arm_v8_4_a (aarch64 (id_aa64isar 1) 23 20 2 ∷ [])
    ∷ entry Feature.lse2 arm_v8_2_a arm_v8_4_a (aarch64 (id_aa64mmfr 2) 35 32 1 ∷ [])
    ∷ entry Feature.pmuv3p4 arm_v8_3_a level_unknown
        (aarch64 (id_aa64dfr 0) 11 8 5 ∷ aarch32 (id_dfr 0) 27 24 5 ∷ [])
    ∷ entry Feature.rasv1p1 arm_v8_2_a level_unknown
        (either_reg (id_pfr 0) (id_aa64pfr 0) 31 28 2 ∷ [])
    ∷ entry Feature.s2fwb arm_v8_3_a level_unknown (aarch64 (id_aa64mmfr 2) 43 40 1 ∷ [])
    ∷ entry Feature.sel2 arm_v8_3_a level_unknown (aarch64 (id_aa64pfr 0) 39 36 1 ∷ [])
    ∷ entry Feature.tlbios arm_v8_3_a arm_v8_4_a
        (aarch64 (id_aa64isar 0) 59 56 1 ∷ aarch64 (id_aa64isar 0) 59 56 2 ∷ [])
    ∷ entry Feature.tlbirange arm_v8_3_a arm_v8_4_a (aarch64 (id_aa64isar 0) 59 56 2 ∷ [])
    ∷ entry Feature.trf arm_v8_3_a level_unknown
        (aarch64 (id_aa64dfr 0) 43 40 1 ∷ aarch32 (id_dfr 0) 31 28 1 ∷ [])
    ∷ entry Feature.ttl arm_v8_3_a arm_v8_4_a (aarch64 (id_aa64mmfr 2) 51 48 1 ∷ [])
    ∷ entry Feature.ttst arm_v8_3_a level_unknown (aarch64 (id_aa64mmfr 2) 31 28 1 ∷ [])
    ∷ entry Feature.bti arm_v8_4_a arm_v8_5_a (aarch64 (id_aa64pfr 1) 3 0 1 ∷ [])
    ∷ []
