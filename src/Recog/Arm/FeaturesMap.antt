-- ===== src/Recog/Arm/FeaturesMap.antt =====
-- `features_map` of `load_arm_features` in libcpuid/recog_arm.c: the entries that the source initialises, in
-- the order of their features, in which the loop goes through the array. The other entries are zero
-- and skipped.
mod Part1
mod Part2
mod Part3
mod Part4
mod Part5
mod Part6
mod Part7
mod Part8
mod Part9
mod Part10
mod Part11
mod Part12
mod Part13
mod Part14
mod Part15
use libcpuid.Base.{List, [], ◌++◌, ◌∷◌}
use libcpuid.Data.Feature
use libcpuid.Data.Kinds.{arm_v8_0_a, level_unknown}
use libcpuid.Recog.Arm.Registers.{ArmFeatureMap, entry, aarch64, id_aa64isar}
use Part1.{features_map_part1}
use Part2.{features_map_part2}
use Part3.{features_map_part3}
use Part4.{features_map_part4}
use Part5.{features_map_part5}
use Part6.{features_map_part6}
use Part7.{features_map_part7}
use Part8.{features_map_part8}
use Part9.{features_map_part9}
use Part10.{features_map_part10}
use Part11.{features_map_part11}
use Part12.{features_map_part12}
use Part13.{features_map_part13}
use Part14.{features_map_part14}
use Part15.{features_map_part15}

abbrev pub aes_entry : ArmFeatureMap
aes_entry = entry Feature.aes arm_v8_0_a level_unknown (aarch64 (id_aa64isar 0) 7 4 1 ∷ [])

abbrev pub features_map : List ArmFeatureMap
features_map =
    aes_entry
    ∷ (features_map_part1
        ++ (features_map_part2
            ++ (features_map_part3
                ++ (features_map_part4
                    ++ (features_map_part5
                        ++ (features_map_part6
                            ++ (features_map_part7
                                ++ (features_map_part8
                                    ++ (features_map_part9
                                        ++ (features_map_part10
                                            ++ (features_map_part11
                                                ++ (features_map_part12
                                                    ++ (features_map_part13
                                                        ++ (features_map_part14
                                                            ++ (features_map_part15)))))))))))))))
