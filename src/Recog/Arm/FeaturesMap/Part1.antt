-- ===== src/Recog/Arm/FeaturesMap/Part1.antt =====
-- `features_map` of `load_arm_features` (libcpuid/recog_arm.c), part 1 of 15.
use libcpuid.Base.{List, [], ◌∷◌}
use libcpuid.Data.Feature
use libcpuid.Data.Kinds.{arm_v6, arm_v7_a, level_unknown}
use libcpuid.Recog.Arm.Registers.{ArmFeatureMap, entry, aarch32, id_dfr, id_isar, id_mmfr, id_pfr}

abbrev pub features_map_part1 : List ArmFeatureMap
features_map_part1 =
    entry Feature.swap level_unknown level_unknown (aarch32 (id_isar 0) 3 0 1 ∷ [])
    ∷ entry Feature.thumb level_unknown level_unknown (aarch32 (id_pfr 0) 7 4 1 ∷ [])
    ∷ entry Feature.advmultu level_unknown level_unknown
        (aarch32 (id_isar 2) 23 20 1 ∷ aarch32 (id_isar 2) 23 20 2 ∷ [])
    ∷ entry Feature.advmults level_unknown level_unknown (
        aarch32 (id_isar 2) 19 16 1
        ∷ aarch32 (id_isar 2) 19 16 2
        ∷ aarch32 (id_isar 2) 19 16 3
        ∷ [])
    ∷ entry Feature.jazelle level_unknown level_unknown
        (aarch32 (id_pfr 0) 11 8 1 ∷ aarch32 (id_pfr 0) 11 8 2 ∷ [])
    ∷ entry Feature.debugv6 arm_v6 level_unknown (aarch32 (id_dfr 0) 3 0 2 ∷ [])
    ∷ entry Feature.debugv6p1 arm_v6 level_unknown (aarch32 (id_dfr 0) 3 0 3 ∷ [])
    ∷ entry Feature.thumb2 arm_v6 level_unknown (aarch32 (id_pfr 0) 7 4 3 ∷ [])
    ∷ entry Feature.debugv7 arm_v7_a level_unknown (aarch32 (id_dfr 0) 3 0 4 ∷ [])
    ∷ entry Feature.debugv7p1 arm_v7_a level_unknown (aarch32 (id_dfr 0) 3 0 5 ∷ [])
    ∷ entry Feature.thumbee arm_v7_a level_unknown (aarch32 (id_pfr 0) 15 12 1 ∷ [])
    ∷ entry Feature.divide arm_v7_a level_unknown
        (aarch32 (id_isar 0) 27 24 1 ∷ aarch32 (id_isar 0) 27 24 2 ∷ [])
    ∷ entry Feature.lpae arm_v7_a level_unknown (aarch32 (id_mmfr 0) 3 0 5 ∷ [])
    ∷ entry Feature.pmuv1 arm_v7_a level_unknown (aarch32 (id_dfr 0) 31 28 1 ∷ [])
    ∷ entry Feature.pmuv2 arm_v7_a level_unknown (aarch32 (id_dfr 0) 31 28 2 ∷ [])
    ∷ []
