-- ===== src/Recog/Arm/FeaturesMap/Part11.antt =====
-- `features_map` of `load_arm_features` (libcpuid/recog_arm.c), part 11 of 15.
use libcpuid.Base.{List, [], ◌∷◌}
use libcpuid.Data.Feature
use libcpuid.Data.Kinds.{arm_v8_0_a, arm_v8_6_a, arm_v8_8_a, arm_v8_9_a, arm_v9_0_a, level_unknown}
use libcpuid.Recog.Arm.Registers.{
  ArmFeatureMap, entry, aarch32, aarch64, either_reg, id_dfr, id_isar, id_pfr, id_aa64dfr,
  id_aa64isar, id_aa64mmfr, id_aa64pfr, id_aa64zfr,
}

abbrev pub features_map_part11 : List ArmFeatureMap
features_map_part11 =
    entry Feature.pmuv3p9 arm_v8_8_a level_unknown
      (aarch64 (id_aa64dfr 0) 11 8 9 ∷ aarch32 (id_dfr 0) 27 24 9 ∷ [])
    ∷ entry Feature.prfmslc arm_v8_0_a level_unknown (aarch64 (id_aa64isar 2) 43 40 1 ∷ [])
    ∷ entry Feature.rasv2 arm_v8_8_a level_unknown
        (either_reg (id_pfr 0) (id_aa64pfr 0) 31 28 3 ∷ [])
    ∷ entry Feature.rprfm arm_v8_0_a level_unknown (aarch64 (id_aa64isar 2) 51 48 1 ∷ [])
    ∷ entry Feature.s1pie arm_v8_8_a level_unknown (aarch64 (id_aa64mmfr 3) 11 8 1 ∷ [])
    ∷ entry Feature.s1poe arm_v8_8_a level_unknown (aarch64 (id_aa64mmfr 3) 19 16 1 ∷ [])
    ∷ entry Feature.s2pie arm_v8_8_a level_unknown (aarch64 (id_aa64mmfr 3) 15 12 1 ∷ [])
    ∷ entry Feature.s2poe arm_v8_8_a level_unknown (aarch64 (id_aa64mmfr 3) 23 20 1 ∷ [])
    ∷ entry Feature.specres2 arm_v8_0_a arm_v8_9_a
        (aarch64 (id_aa64isar 1) 43 40 2 ∷ aarch32 (id_isar 6) 19 16 2 ∷ [])
    ∷ entry Feature.spe_dpfzs arm_v8_6_a level_unknown (aarch64 (id_aa64dfr 1) 55 52 1 ∷ [])
    ∷ entry Feature.spev1p4 arm_v8_8_a level_unknown (aarch64 (id_aa64dfr 0) 35 32 5 ∷ [])
    ∷ entry Feature.spmu arm_v8_8_a level_unknown (aarch64 (id_aa64dfr 1) 35 32 1 ∷ [])
    ∷ entry Feature.the arm_v8_8_a level_unknown (aarch64 (id_aa64dfr 1) 51 48 1 ∷ [])
    ∷ entry Feature.sve2 arm_v9_0_a level_unknown (aarch64 (id_aa64zfr 0) 3 0 1 ∷ [])
    ∷ entry Feature.sve_aes arm_v9_0_a level_unknown (aarch64 (id_aa64zfr 0) 7 4 1 ∷ [])
    ∷ entry Feature.sve_bitperm arm_v9_0_a level_unknown (aarch64 (id_aa64zfr 0) 19 16 1 ∷ [])
    ∷ entry Feature.sve_pmull128 arm_v9_0_a level_unknown (aarch64 (id_aa64zfr 0) 7 4 2 ∷ [])
    ∷ entry Feature.sve_sha3 arm_v9_0_a level_unknown (aarch64 (id_aa64zfr 0) 35 32 1 ∷ [])
    ∷ []
