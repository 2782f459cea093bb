-- ===== src/Recog/Arm/FeaturesMap/Part13.antt =====
-- `features_map` of `load_arm_features` (libcpuid/recog_arm.c), part 13 of 15.
use libcpuid.Base.{List, [], ◌∷◌}
use libcpuid.Data.Feature
use libcpuid.Data.Kinds.{arm_v8_0_a, arm_v9_2_a, arm_v9_3_a, arm_v9_4_a, arm_v9_5_a, level_unknown}
use libcpuid.Recog.Arm.Registers.{
  ArmFeatureMap, entry, aarch32, aarch64, id_mmfr, id_aa64dfr, id_aa64isar, id_aa64mmfr,
  id_aa64smfr, id_aa64zfr,
}

abbrev pub features_map_part13 : List ArmFeatureMap
features_map_part13 =
    entry Feature.ite arm_v9_3_a level_unknown (aarch64 (id_aa64dfr 1) 47 44 1 ∷ [])
    ∷ entry Feature.lse128 arm_v9_3_a level_unknown (aarch64 (id_aa64dfr 1) 23 20 3 ∷ [])
    ∷ entry Feature.lva3 arm_v9_3_a level_unknown (aarch64 (id_aa64mmfr 2) 19 16 2 ∷ [])
    ∷ entry Feature.sebep arm_v9_3_a level_unknown (aarch64 (id_aa64dfr 0) 27 24 1 ∷ [])
    ∷ entry Feature.sme2p1 arm_v9_2_a level_unknown (aarch64 (id_aa64smfr 0) 59 56 2 ∷ [])
    ∷ entry Feature.sme_f16f16 arm_v9_2_a level_unknown (aarch64 (id_aa64smfr 0) 42 42 1 ∷ [])
    ∷ entry Feature.sve2p1 arm_v9_2_a level_unknown (aarch64 (id_aa64zfr 0) 3 0 2 ∷ [])
    ∷ entry Feature.sve_b16b16 arm_v9_2_a level_unknown
        (aarch64 (id_aa64smfr 0) 43 43 1 ∷ aarch64 (id_aa64zfr 0) 27 24 1 ∷ [])
    ∷ entry Feature.sysinstr128 arm_v9_3_a level_unknown (aarch64 (id_aa64isar 2) 39 36 1 ∷ [])
    ∷ entry Feature.sysreg128 arm_v9_3_a level_unknown (aarch64 (id_aa64isar 2) 35 32 1 ∷ [])
    ∷ entry Feature.trbe_ext arm_v9_3_a level_unknown (aarch64 (id_aa64dfr 0) 59 56 1 ∷ [])
    ∷ entry Feature.asid2 arm_v9_4_a arm_v9_5_a (aarch64 (id_aa64mmfr 4) 11 8 1 ∷ [])
    ∷ entry Feature.bwe2 arm_v9_4_a level_unknown (aarch64 (id_aa64dfr 2) 7 4 2 ∷ [])
    ∷ entry Feature.cpa arm_v9_4_a arm_v9_5_a (aarch64 (id_aa64isar 3) 3 0 1 ∷ [])
    ∷ entry Feature.cpa2 arm_v9_4_a level_unknown (aarch64 (id_aa64isar 3) 3 0 1 ∷ [])
    ∷ entry Feature.e2h0 arm_v8_0_a level_unknown (aarch64 (id_aa64mmfr 4) 27 24 0 ∷ [])
    ∷ entry Feature.e3dse arm_v9_4_a level_unknown (aarch64 (id_aa64mmfr 4) 39 36 1 ∷ [])
    ∷ entry Feature.ets3 arm_v9_4_a arm_v9_5_a
        (aarch64 (id_aa64mmfr 1) 39 36 3 ∷ aarch32 (id_mmfr 5) 3 0 3 ∷ [])
    ∷ []
