-- ===== src/Recog/Arm/FeaturesMap/Part3.antt =====
-- `features_map` of `load_arm_features` (libcpuid/recog_arm.c), part 3 of 15.
use libcpuid.Base.{List, [], ◌∷◌}
use libcpuid.Data.Feature
use libcpuid.Data.Kinds.{arm_v8_0_a, arm_v8_1_a, arm_v8_2_a, level_unknown}
use libcpuid.Recog.Arm.Registers.{
  ArmFeatureMap, entry, aarch32, aarch64, either_reg, id_dfr, id_isar, id_mmfr, id_aa64dfr,
  id_aa64isar, id_aa64mmfr, id_aa64pfr, id_aa64zfr,
}

abbrev pub features_map_part3 : List ArmFeatureMap
features_map_part3 =
    entry Feature.hafdbs arm_v8_0_a level_unknown
      (aarch64 (id_aa64mmfr 1) 3 0 1 ∷ aarch64 (id_aa64mmfr 1) 3 0 2 ∷ [])
    ∷ entry Feature.hpds arm_v8_0_a arm_v8_1_a (aarch64 (id_aa64mmfr 1) 15 12 1 ∷ [])
    ∷ entry Feature.lor arm_v8_0_a arm_v8_1_a (aarch64 (id_aa64mmfr 1) 19 16 1 ∷ [])
    ∷ entry Feature.lse arm_v8_0_a arm_v8_1_a (aarch64 (id_aa64isar 0) 23 20 2 ∷ [])
    ∷ entry Feature.pan arm_v8_0_a arm_v8_1_a
        (aarch64 (id_aa64mmfr 1) 23 20 1 ∷ aarch32 (id_mmfr 3) 19 16 1 ∷ [])
    ∷ entry Feature.pmuv3p1 arm_v8_1_a level_unknown
        (aarch64 (id_aa64dfr 0) 11 8 4 ∷ aarch32 (id_dfr 0) 27 24 4 ∷ [])
    ∷ entry Feature.rdm arm_v8_0_a level_unknown
        (aarch64 (id_aa64isar 0) 31 28 1 ∷ aarch32 (id_isar 5) 27 24 1 ∷ [])
    ∷ entry Feature.vhe arm_v8_0_a level_unknown
        (aarch64 (id_aa64mmfr 1) 11 8 1 ∷ either_reg (id_dfr 0) (id_aa64dfr 0) 3 0 7 ∷ [])
    ∷ entry Feature.vmid16 arm_v8_0_a level_unknown (aarch64 (id_aa64mmfr 1) 7 4 2 ∷ [])
    ∷ entry Feature.aa32hpd arm_v8_1_a level_unknown (aarch32 (id_mmfr 4) 19 16 1 ∷ [])
    ∷ entry Feature.aa32i8mm arm_v8_1_a level_unknown (aarch32 (id_isar 6) 27 24 1 ∷ [])
    ∷ entry Feature.dpb arm_v8_1_a arm_v8_2_a (aarch64 (id_aa64isar 1) 3 0 1 ∷ [])
    ∷ entry Feature.debugv8p2 arm_v8_1_a arm_v8_2_a
        (either_reg (id_dfr 0) (id_aa64dfr 0) 3 0 8 ∷ [])
    ∷ entry Feature.f32mm arm_v8_2_a level_unknown (aarch64 (id_aa64zfr 0) 55 52 1 ∷ [])
    ∷ entry Feature.f64mm arm_v8_2_a level_unknown (aarch64 (id_aa64zfr 0) 59 56 1 ∷ [])
    ∷ entry Feature.fp16 arm_v8_2_a level_unknown
        (aarch64 (id_aa64pfr 0) 23 20 1 ∷ aarch64 (id_aa64pfr 0) 19 16 1 ∷ [])
    ∷ entry Feature.hpds2 arm_v8_1_a level_unknown
        (aarch64 (id_aa64mmfr 1) 15 12 2 ∷ aarch32 (id_mmfr 4) 19 16 2 ∷ [])
    ∷ []
