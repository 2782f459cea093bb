-- ===== src/Recog/Arm/FeaturesMap/Part14.antt =====
-- `features_map` of `load_arm_features` (libcpuid/recog_arm.c), part 14 of 15.
use libcpuid.Base.{List, [], ◌∷◌}
use libcpuid.Data.Feature
use libcpuid.Data.Kinds.{arm_v9_2_a, arm_v9_4_a, level_unknown}
use libcpuid.Recog.Arm.Registers.{
  ArmFeatureMap, entry, aarch64, id_aa64dfr, id_aa64fpfr, id_aa64isar, id_aa64mmfr, id_aa64pfr,
  id_aa64smfr,
}

abbrev pub features_map_part14 : List ArmFeatureMap
features_map_part14 =
    entry Feature.faminmax arm_v9_2_a level_unknown (aarch64 (id_aa64isar 3) 7 4 1 ∷ [])
    ∷ entry Feature.fgwte3 arm_v9_4_a level_unknown (aarch64 (id_aa64mmfr 4) 19 16 1 ∷ [])
    ∷ entry Feature.fp8 arm_v9_2_a level_unknown (
        aarch64 (id_aa64fpfr 0) 31 31 1
        ∷ aarch64 (id_aa64fpfr 0) 1 1 1
        ∷ aarch64 (id_aa64fpfr 0) 0 0 1
        ∷ [])
    ∷ entry Feature.fp8dot2 arm_v9_2_a level_unknown (aarch64 (id_aa64fpfr 0) 28 28 1 ∷ [])
    ∷ entry Feature.fp8dot4 arm_v9_2_a level_unknown (aarch64 (id_aa64fpfr 0) 29 29 1 ∷ [])
    ∷ entry Feature.fp8fma arm_v9_2_a level_unknown (aarch64 (id_aa64fpfr 0) 30 30 1 ∷ [])
    ∷ entry Feature.fpmr arm_v9_2_a level_unknown (aarch64 (id_aa64pfr 2) 35 32 1 ∷ [])
    ∷ entry Feature.hacdbs arm_v9_4_a level_unknown (aarch64 (id_aa64mmfr 4) 15 12 1 ∷ [])
    ∷ entry Feature.hdbss arm_v9_4_a level_unknown (aarch64 (id_aa64mmfr 1) 3 0 4 ∷ [])
    ∷ entry Feature.lut arm_v9_2_a level_unknown (aarch64 (id_aa64isar 2) 59 56 1 ∷ [])
    ∷ entry Feature.pauth_lr arm_v9_4_a level_unknown (
        aarch64 (id_aa64isar 1) 7 3 6
        ∷ aarch64 (id_aa64isar 1) 11 8 6
        ∷ aarch64 (id_aa64isar 2) 15 12 6
        ∷ [])
    ∷ entry Feature.rme_gpc2 arm_v9_4_a level_unknown (aarch64 (id_aa64pfr 0) 55 52 2 ∷ [])
    ∷ entry Feature.sme_f8f16 arm_v9_2_a level_unknown (aarch64 (id_aa64smfr 0) 41 41 1 ∷ [])
    ∷ entry Feature.sme_f8f32 arm_v9_2_a level_unknown (aarch64 (id_aa64smfr 0) 40 40 1 ∷ [])
    ∷ entry Feature.sme_lutv2 arm_v9_2_a level_unknown (aarch64 (id_aa64smfr 0) 60 60 1 ∷ [])
    ∷ entry Feature.spmu2 arm_v9_4_a level_unknown (aarch64 (id_aa64dfr 1) 35 32 2 ∷ [])
    ∷ entry Feature.ssve_fp8dot2 arm_v9_2_a level_unknown (aarch64 (id_aa64smfr 0) 28 28 1 ∷ [])
    ∷ entry Feature.ssve_fp8dot4 arm_v9_2_a level_unknown (aarch64 (id_aa64smfr 0) 29 29 1 ∷ [])
    ∷ []
