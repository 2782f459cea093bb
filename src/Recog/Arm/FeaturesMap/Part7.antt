-- ===== src/Recog/Arm/FeaturesMap/Part7.antt =====
-- `features_map` of `load_arm_features` (libcpuid/recog_arm.c), part 7 of 15.
use libcpuid.Base.{List, [], ◌∷◌}
use libcpuid.Data.Feature
use libcpuid.Data.Kinds.{arm_v8_0_a, arm_v8_1_a, arm_v8_2_a, arm_v8_4_a, arm_v8_5_a, level_unknown}
use libcpuid.Recog.Arm.Registers.{
  ArmFeatureMap, entry, aarch32, aarch64, either_reg, id_dfr, id_isar, id_mmfr, id_pfr, id_aa64dfr,
  id_aa64isar, id_aa64mmfr, id_aa64pfr,
}

abbrev pub features_map_part7 : List ArmFeatureMap
features_map_part7 =
    entry Feature.csv2 arm_v8_0_a arm_v8_5_a
      (aarch64 (id_aa64pfr 0) 59 56 1 ∷ aarch32 (id_pfr 0) 19 16 1 ∷ [])
    ∷ entry Feature.csv3 arm_v8_0_a arm_v8_5_a (aarch64 (id_aa64pfr 0) 63 60 1 ∷ [])
    ∷ entry Feature.dpb2 arm_v8_1_a arm_v8_5_a (aarch64 (id_aa64isar 1) 3 0 2 ∷ [])
    ∷ entry Feature.e0pd arm_v8_4_a arm_v8_5_a (aarch64 (id_aa64mmfr 2) 63 60 1 ∷ [])
    ∷ entry Feature.evt arm_v8_2_a level_unknown (
        aarch64 (id_aa64mmfr 2) 59 56 1
        ∷ aarch64 (id_aa64mmfr 2) 59 56 2
        ∷ aarch32 (id_mmfr 4) 31 28 1
        ∷ aarch32 (id_mmfr 4) 31 28 2
        ∷ [])
    ∷ entry Feature.exs arm_v8_4_a level_unknown (aarch64 (id_aa64mmfr 0) 47 44 1 ∷ [])
    ∷ entry Feature.frintts arm_v8_4_a level_unknown (aarch64 (id_aa64isar 1) 35 32 1 ∷ [])
    ∷ entry Feature.flagm2 arm_v8_4_a level_unknown (aarch64 (id_aa64isar 0) 55 52 2 ∷ [])
    ∷ entry Feature.mte arm_v8_4_a level_unknown (aarch64 (id_aa64pfr 1) 11 8 1 ∷ [])
    ∷ entry Feature.mte2 arm_v8_4_a level_unknown (aarch64 (id_aa64pfr 1) 11 8 2 ∷ [])
    ∷ entry Feature.pmuv3p5 arm_v8_4_a level_unknown
        (aarch64 (id_aa64dfr 0) 11 8 6 ∷ aarch32 (id_dfr 0) 27 24 6 ∷ [])
    ∷ entry Feature.rng arm_v8_4_a level_unknown (aarch64 (id_aa64isar 0) 63 60 1 ∷ [])
    ∷ entry Feature.rng_trap arm_v8_4_a level_unknown (aarch64 (id_aa64pfr 1) 31 28 1 ∷ [])
    ∷ entry Feature.sb arm_v8_0_a arm_v8_5_a
        (aarch64 (id_aa64isar 1) 39 36 1 ∷ aarch32 (id_isar 6) 15 12 1 ∷ [])
    ∷ entry Feature.specres arm_v8_0_a arm_v8_5_a
        (aarch64 (id_aa64isar 1) 43 40 1 ∷ aarch32 (id_isar 6) 19 16 1 ∷ [])
    ∷ entry Feature.ssbs arm_v8_0_a level_unknown (either_reg (id_pfr 2) (id_aa64pfr 1) 7 4 1 ∷ [])
    ∷ entry Feature.ssbs2 arm_v8_0_a level_unknown (aarch64 (id_aa64pfr 1) 7 4 2 ∷ [])
    ∷ []
