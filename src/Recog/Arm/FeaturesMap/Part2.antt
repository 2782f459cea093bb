-- ===== src/Recog/Arm/FeaturesMap/Part2.antt =====
-- `features_map` of `load_arm_features` (libcpuid/recog_arm.c), part 2 of 15.
use libcpuid.Base.{List, [], ◌∷◌}
use libcpuid.Data.Feature
use libcpuid.Data.Kinds.{arm_v8_0_a, arm_v8_1_a, arm_v8_8_a, level_unknown}
use libcpuid.Recog.Arm.Registers.{
  ArmFeatureMap, entry, aarch32, aarch64, either_reg, id_dfr, id_isar, id_mmfr, id_aa64dfr,
  id_aa64isar, id_aa64mmfr, id_aa64pfr,
}

abbrev pub features_map_part2 : List ArmFeatureMap
features_map_part2 =
    entry Feature.asid16 arm_v8_0_a level_unknown (aarch64 (id_aa64mmfr 0) 7 4 2 ∷ [])
    ∷ entry Feature.advsimd arm_v8_0_a level_unknown
        (aarch64 (id_aa64pfr 0) 23 20 0 ∷ aarch64 (id_aa64pfr 0) 23 20 1 ∷ [])
    ∷ entry Feature.crc32 arm_v8_0_a arm_v8_1_a
        (either_reg (id_isar 5) (id_aa64isar 0) 19 16 1 ∷ [])
    ∷ entry Feature.csv2_1p1 arm_v8_0_a level_unknown (aarch64 (id_aa64pfr 1) 35 32 1 ∷ [])
    ∷ entry Feature.csv2_1p2 arm_v8_0_a level_unknown (aarch64 (id_aa64pfr 1) 35 32 2 ∷ [])
    ∷ entry Feature.csv2_2 arm_v8_0_a level_unknown (aarch64 (id_aa64pfr 0) 59 56 2 ∷ [])
    ∷ entry Feature.csv2_3 arm_v8_0_a level_unknown (aarch64 (id_aa64pfr 0) 59 56 3 ∷ [])
    ∷ entry Feature.doublelock arm_v8_0_a level_unknown (aarch64 (id_aa64dfr 0) 39 36 0 ∷ [])
    ∷ entry Feature.ets2 arm_v8_0_a arm_v8_8_a
        (aarch64 (id_aa64mmfr 1) 39 36 2 ∷ aarch32 (id_mmfr 5) 3 0 2 ∷ [])
    ∷ entry Feature.fp arm_v8_0_a level_unknown (aarch64 (id_aa64pfr 0) 19 16 0 ∷ [])
    ∷ entry Feature.mixedend arm_v8_0_a level_unknown (aarch64 (id_aa64mmfr 0) 11 8 1 ∷ [])
    ∷ entry Feature.mixedendel0 arm_v8_0_a level_unknown (aarch64 (id_aa64mmfr 0) 19 16 1 ∷ [])
    ∷ entry Feature.pmull arm_v8_0_a level_unknown (aarch64 (id_aa64isar 0) 7 4 2 ∷ [])
    ∷ entry Feature.pmuv3 arm_v8_0_a level_unknown
        (aarch64 (id_aa64dfr 0) 11 8 1 ∷ aarch32 (id_dfr 0) 27 24 3 ∷ [])
    ∷ entry Feature.sha1 arm_v8_0_a level_unknown (aarch64 (id_aa64isar 0) 11 8 1 ∷ [])
    ∷ entry Feature.sha256 arm_v8_0_a level_unknown (aarch64 (id_aa64isar 0) 15 12 1 ∷ [])
    ∷ entry Feature.ntlbpa arm_v8_0_a level_unknown
        (aarch64 (id_aa64mmfr 1) 51 48 1 ∷ aarch32 (id_mmfr 5) 7 4 1 ∷ [])
    ∷ []
