-- ===== src/Recog/Arm/FeaturesMap/Part4.antt =====
-- `features_map` of `load_arm_features` (libcpuid/recog_arm.c), part 4 of 15.
use libcpuid.Base.{List, [], ◌∷◌}
use libcpuid.Data.Feature
use libcpuid.Data.Kinds.{arm_v8_0_a, arm_v8_1_a, arm_v8_2_a, arm_v8_6_a, level_unknown}
use libcpuid.Recog.Arm.Registers.{
  ArmFeatureMap, entry, aarch32, aarch64, either_reg, id_mmfr, id_pfr, id_aa64dfr, id_aa64isar,
  id_aa64mmfr, id_aa64pfr, id_aa64zfr,
}

abbrev pub features_map_part4 : List ArmFeatureMap
features_map_part4 =
    entry Feature.i8mm arm_v8_1_a arm_v8_6_a
      (aarch64 (id_aa64isar 1) 55 52 1 ∷ aarch64 (id_aa64zfr 0) 47 44 1 ∷ [])
    ∷ entry Feature.iesb arm_v8_1_a level_unknown (aarch64 (id_aa64mmfr 2) 15 12 1 ∷ [])
    ∷ entry Feature.lpa arm_v8_1_a level_unknown (aarch64 (id_aa64mmfr 0) 3 0 6 ∷ [])
    ∷ entry Feature.lsmaoc arm_v8_1_a level_unknown
        (aarch64 (id_aa64mmfr 2) 11 8 1 ∷ aarch32 (id_mmfr 4) 23 20 1 ∷ [])
    ∷ entry Feature.lva arm_v8_1_a level_unknown (aarch64 (id_aa64mmfr 2) 19 16 1 ∷ [])
    ∷ entry Feature.pan2 arm_v8_1_a arm_v8_2_a
        (aarch64 (id_aa64mmfr 1) 23 20 2 ∷ aarch32 (id_mmfr 3) 19 16 2 ∷ [])
    ∷ entry Feature.ras arm_v8_0_a arm_v8_2_a (either_reg (id_pfr 0) (id_aa64pfr 0) 31 28 1 ∷ [])
    ∷ entry Feature.sha3 arm_v8_1_a level_unknown (aarch64 (id_aa64isar 0) 35 32 1 ∷ [])
    ∷ entry Feature.sha512 arm_v8_1_a level_unknown (aarch64 (id_aa64isar 0) 15 12 2 ∷ [])
    ∷ entry Feature.sm3 arm_v8_1_a level_unknown (aarch64 (id_aa64isar 0) 39 36 1 ∷ [])
    ∷ entry Feature.sm4 arm_v8_1_a level_unknown (aarch64 (id_aa64isar 0) 43 40 1 ∷ [])
    ∷ entry Feature.spe arm_v8_1_a level_unknown (aarch64 (id_aa64dfr 0) 35 32 1 ∷ [])
    ∷ entry Feature.sve arm_v8_2_a level_unknown (aarch64 (id_aa64pfr 0) 35 32 1 ∷ [])
    ∷ entry Feature.ttcnp arm_v8_1_a arm_v8_2_a
        (aarch64 (id_aa64mmfr 2) 3 0 1 ∷ aarch32 (id_mmfr 4) 15 12 1 ∷ [])
    ∷ entry Feature.uao arm_v8_1_a arm_v8_2_a (aarch64 (id_aa64mmfr 2) 7 4 1 ∷ [])
    ∷ entry Feature.xnx arm_v8_1_a level_unknown
        (aarch64 (id_aa64mmfr 1) 31 28 1 ∷ aarch32 (id_mmfr 4) 11 8 1 ∷ [])
    ∷ entry Feature.ccidx arm_v8_2_a level_unknown
        (aarch64 (id_aa64mmfr 2) 23 20 1 ∷ aarch32 (id_mmfr 4) 27 24 1 ∷ [])
    ∷ []
