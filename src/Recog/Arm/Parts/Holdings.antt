-- ===== src/Recog/Arm/Parts/Holdings.antt =====
-- `arm_part` of libcpuid/recog_arm.c: the parts of ARM itself, by their numbers.
use libcpuid.Base.{List, [], ◌∷◌, codes}
use libcpuid.Util.Codename.{unkn_str}
use libcpuid.Recog.Arm.Id.{ArmIdPart, part}

abbrev pub arm_part : List ArmIdPart
arm_part =
    part 2064 (codes "ARM810") unkn_str unkn_str
    ∷ part 2336 (codes "ARM920") unkn_str unkn_str
    ∷ part 2338 (codes "ARM922") unkn_str unkn_str
    ∷ part 2342 (codes "ARM926") unkn_str unkn_str
    ∷ part 2368 (codes "ARM940") unkn_str unkn_str
    ∷ part 2374 (codes "ARM946") unkn_str unkn_str
    ∷ part 2406 (codes "ARM966") unkn_str unkn_str
    ∷ part 2592 (codes "ARM1020") unkn_str unkn_str
    ∷ part 2594 (codes "ARM1022") unkn_str unkn_str
    ∷ part 2598 (codes "ARM1026") unkn_str unkn_str
    ∷ part 2818 (codes "ARM11 MPCore") unkn_str unkn_str
    ∷ part 2870 (codes "ARM1136") unkn_str unkn_str
    ∷ part 2902 (codes "ARM1156") unkn_str unkn_str
    ∷ part 2934 (codes "ARM1176") unkn_str unkn_str
    ∷ part 3077 (codes "Cortex-A5") (codes "Sparrow") (codes "40-28 nm")
    ∷ part 3079 (codes "Cortex-A7") (codes "Kingfisher") (codes "40-28 nm")
    ∷ part 3080 (codes "Cortex-A8") (codes "Tiger") (codes "65-45 nm")
    ∷ part 3081 (codes "Cortex-A9") (codes "Falcon") (codes "65-28 nm")
    ∷ part 3085 (codes "Cortex-A17") (codes "Owl") (codes "28 nm")
    ∷ part 3087 (codes "Cortex-A15") (codes "Eagle") (codes "32-20 nm")
    ∷ part 3086 (codes "Cortex-A17") (codes "Owl") (codes "28 nm")
    ∷ part 3092 (codes "Cortex-R4") unkn_str unkn_str
    ∷ part 3093 (codes "Cortex-R5") unkn_str unkn_str
    ∷ part 3095 (codes "Cortex-R7") unkn_str unkn_str
    ∷ part 3096 (codes "Cortex-R8") unkn_str unkn_str
    ∷ part 3104 (codes "Cortex-M0") (codes "Swift") unkn_str
    ∷ part 3105 (codes "Cortex-M1") (codes "Proteus") unkn_str
    ∷ part 3107 (codes "Cortex-M3") (codes "Sandcat") unkn_str
    ∷ part 3108 (codes "Cortex-M4") (codes "Merlin") unkn_str
    ∷ part 3111 (codes "Cortex-M7") (codes "Pelican") unkn_str
    ∷ part 3168 (codes "Cortex-M0+") (codes "Flycatcher") unkn_str
    ∷ part 3329 (codes "Cortex-A32") (codes "Minerva") (codes "28 nm")
    ∷ part 3330 (codes "Cortex-A34") (codes "Metis") unkn_str
    ∷ part 3331 (codes "Cortex-A53") (codes "Apollo") (codes "28-10 nm")
    ∷ part 3332 (codes "Cortex-A35") (codes "Mercury") (codes "28-10 nm")
    ∷ part 3333 (codes "Cortex-A55") (codes "Ananke") (codes "28-5 nm")
    ∷ part 3334 (codes "Cortex-A65") (codes "Helios") unkn_str
    ∷ part 3335 (codes "Cortex-A57") (codes "Atlas") (codes "28-14 nm")
    ∷ part 3336 (codes "Cortex-A72") (codes "Maia") (codes "28-16 nm")
    ∷ part 3337 (codes "Cortex-A73") (codes "Artemis") (codes "28-10 nm")
    ∷ part 3338 (codes "Cortex-A75") (codes "Prometheus") (codes "28-10 nm")
    ∷ part 3339 (codes "Cortex-A76") (codes "Enyo") (codes "10-7 nm")
    ∷ part 3340 (codes "Neoverse-N1") (codes "Ares") (codes "7 nm")
    ∷ part 3341 (codes "Cortex-A77") (codes "Deimos") (codes "7 nm")
    ∷ part 3342 (codes "Cortex-A76AE") (codes "Enyo-AE") unkn_str
    ∷ part 3347 (codes "Cortex-R52") unkn_str unkn_str
    ∷ part 3349 (codes "Cortex-R82") unkn_str unkn_str
    ∷ part 3350 (codes "Cortex-R52+") unkn_str unkn_str
    ∷ part 3360 (codes "Cortex-M23") (codes "Grebe") unkn_str
    ∷ part 3361 (codes "Cortex-M33") (codes "Teal") unkn_str
    ∷ part 3362 (codes "Cortex-M55") (codes "Yamin") unkn_str
    ∷ part 3363 (codes "Cortex-M85") unkn_str unkn_str
    ∷ part 3392 (codes "Neoverse-V1") (codes "Zeus") (codes "7 nm")
    ∷ part 3393 (codes "Cortex-A78") (codes "Hercules") (codes "5 nm")
    ∷ part 3394 (codes "Cortex-A78AE") (codes "Hercules-AE") unkn_str
    ∷ part 3395 (codes "Cortex-A65AE") (codes "Helios-AE") unkn_str
    ∷ part 3396 (codes "Cortex-X1") (codes "Hera") (codes "10-5 nm")
    ∷ part 3398 (codes "Cortex-A510") (codes "Klein") (codes "7-5 nm")
    ∷ part 3399 (codes "Cortex-A710") (codes "Matterhorn") (codes "7-5 nm")
    ∷ part 3400 (codes "Cortex-X2") (codes "Matterhorn ELP") unkn_str
    ∷ part 3401 (codes "Neoverse-N2") (codes "Perseus") (codes "5 nm")
    ∷ part 3402 (codes "Neoverse-E1") (codes "Helios") unkn_str
    ∷ part 3403 (codes "Cortex-A78C") (codes "Hercules-C") (codes "5 nm")
    ∷ part 3404 (codes "Cortex-X1C") (codes "Hera-C") unkn_str
    ∷ part 3405 (codes "Cortex-A715") (codes "Makalu") (codes "7-5 nm")
    ∷ part 3406 (codes "Cortex-X3") (codes "Makalu ELP") unkn_str
    ∷ part 3407 (codes "Neoverse-V2") (codes "Demeter") unkn_str
    ∷ part 3456 (codes "Cortex-A520") (codes "Hayes") (codes "3 nm")
    ∷ part 3457 (codes "Cortex-A720") (codes "Hunter") (codes "3 nm")
    ∷ part 3458 (codes "Cortex-X4") (codes "Hunter ELP") unkn_str
    ∷ part 3459 (codes "Neoverse-V3AE") (codes "Autonome") unkn_str
    ∷ part 3460 (codes "Neoverse-V3") (codes "Poseidon") unkn_str
    ∷ part 3461 (codes "Cortex-X925") (codes "Blackhawk") (codes "3 nm")
    ∷ part 3463 (codes "Cortex-A725") (codes "Chaberton") (codes "3 nm")
    ∷ part 3464 (codes "Cortex-A520AE") (codes "Hayes-AE") (codes "3 nm")
    ∷ part 3465 (codes "Cortex-A720AE") (codes "Hunter-AE") (codes "3 nm")
    ∷ part 3470 (codes "Neoverse-N3") (codes "Hermes") (codes "5 nm")
    ∷ part 3471 (codes "Cortex-A320") (codes "IoT & AI") unkn_str
    ∷ []
