-- ===== src/Recog/Arm/FeaturesMap/Part12.antt =====
-- `features_map` of `load_arm_features` (libcpuid/recog_arm.c), part 12 of 15.
use libcpuid.Base.{List, [], ◌∷◌}
use libcpuid.Data.Feature
use libcpuid.Data.Kinds.{arm_v9_0_a, arm_v9_1_a, arm_v9_2_a, arm_v9_3_a, level_unknown}
use libcpuid.Recog.Arm.Registers.{
  ArmFeatureMap, entry, aarch64, id_aa64dfr, id_aa64isar, id_aa64mmfr, id_aa64pfr, id_aa64smfr,
  id_aa64zfr,
}

abbrev pub features_map_part12 : List ArmFeatureMap
features_map_part12 =
    entry Feature.sve_sm4 arm_v9_0_a level_unknown (aarch64 (id_aa64zfr 0) 43 40 1 ∷ [])
    ∷ entry Feature.tme arm_v9_0_a level_unknown (aarch64 (id_aa64isar 0) 27 24 1 ∷ [])
    ∷ entry Feature.trbe arm_v9_0_a level_unknown (aarch64 (id_aa64dfr 0) 47 44 1 ∷ [])
    ∷ entry Feature.brbe arm_v9_1_a level_unknown (aarch64 (id_aa64dfr 0) 55 52 1 ∷ [])
    ∷ entry Feature.rme arm_v9_1_a level_unknown (aarch64 (id_aa64pfr 0) 55 52 1 ∷ [])
    ∷ entry Feature.sme arm_v9_2_a level_unknown (aarch64 (id_aa64pfr 1) 27 24 1 ∷ [])
    ∷ entry Feature.sme_f64f64 arm_v9_2_a level_unknown (aarch64 (id_aa64smfr 0) 48 48 1 ∷ [])
    ∷ entry Feature.sme_fa64 arm_v9_2_a level_unknown (aarch64 (id_aa64smfr 0) 63 63 1 ∷ [])
    ∷ entry Feature.sme_i16i64 arm_v9_2_a level_unknown (aarch64 (id_aa64smfr 0) 55 52 15 ∷ [])
    ∷ entry Feature.brbev1p1 arm_v9_2_a level_unknown (aarch64 (id_aa64dfr 0) 55 52 2 ∷ [])
    ∷ entry Feature.mec arm_v9_2_a level_unknown (aarch64 (id_aa64mmfr 3) 31 28 1 ∷ [])
    ∷ entry Feature.sme2 arm_v9_2_a level_unknown
        (aarch64 (id_aa64smfr 0) 59 56 1 ∷ aarch64 (id_aa64pfr 1) 27 24 2 ∷ [])
    ∷ entry Feature.able arm_v9_3_a level_unknown (aarch64 (id_aa64dfr 1) 43 40 1 ∷ [])
    ∷ entry Feature.bwe arm_v9_3_a level_unknown (aarch64 (id_aa64dfr 1) 43 40 1 ∷ [])
    ∷ entry Feature.d128 arm_v9_3_a level_unknown (aarch64 (id_aa64mmfr 3) 35 32 1 ∷ [])
    ∷ entry Feature.ebep arm_v9_3_a level_unknown (aarch64 (id_aa64dfr 1) 51 48 1 ∷ [])
    ∷ entry Feature.gcs arm_v9_3_a level_unknown (aarch64 (id_aa64pfr 1) 47 44 1 ∷ [])
    ∷ []
