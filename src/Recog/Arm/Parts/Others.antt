-- ===== src/Recog/Arm/Parts/Others.antt =====
-- The tables of the parts of the other implementers in libcpuid/recog_arm.c.
use libcpuid.Base.{List, [], ◌∷◌, codes}
use libcpuid.Util.Codename.{unkn_str}
use libcpuid.Recog.Arm.Id.{ArmIdPart, part}

abbrev pub brcm_part : List ArmIdPart
brcm_part =
    part 15 (codes "Brahma-B15") unkn_str unkn_str
    ∷ part 256 (codes "Brahma-B53") unkn_str unkn_str
    ∷ part 1302 (codes "ThunderX2") unkn_str unkn_str
    ∷ []

abbrev pub dec_part : List ArmIdPart
dec_part =
    part 2576 (codes "SA110") unkn_str unkn_str ∷ part 2577 (codes "SA1100") unkn_str unkn_str ∷ []

abbrev pub cavium_part : List ArmIdPart
cavium_part =
    part 160 (codes "ThunderX") unkn_str unkn_str
    ∷ part 161 (codes "ThunderX-88XX") unkn_str unkn_str
    ∷ part 162 (codes "ThunderX-81XX") unkn_str unkn_str
    ∷ part 163 (codes "ThunderX-83XX") unkn_str unkn_str
    ∷ part 175 (codes "ThunderX2-99xx") unkn_str unkn_str
    ∷ part 176 (codes "OcteonTX2") unkn_str unkn_str
    ∷ part 177 (codes "OcteonTX2-98XX") unkn_str unkn_str
    ∷ part 178 (codes "OcteonTX2-96XX") unkn_str unkn_str
    ∷ part 179 (codes "OcteonTX2-95XX") unkn_str unkn_str
    ∷ part 180 (codes "OcteonTX2-95XXN") unkn_str unkn_str
    ∷ part 181 (codes "OcteonTX2-95XXMM") unkn_str unkn_str
    ∷ part 182 (codes "OcteonTX2-95XXO") unkn_str unkn_str
    ∷ part 184 (codes "ThunderX3-T110") unkn_str unkn_str
    ∷ []

abbrev pub apm_part : List ArmIdPart
apm_part = part 0 (codes "X-Gene") unkn_str unkn_str ∷ []

abbrev pub qcom_part : List ArmIdPart
qcom_part =
    part 1 (codes "Oryon") unkn_str unkn_str
    ∷ part 15 (codes "Scorpion") unkn_str (codes "65-45 nm")
    ∷ part 45 (codes "Scorpion") unkn_str (codes "65-45 nm")
    ∷ part 77 (codes "Krait") unkn_str (codes "28 nm")
    ∷ part 111 (codes "Krait") unkn_str (codes "28 nm")
    ∷ part 513 (codes "Kryo") unkn_str (codes "14 nm")
    ∷ part 517 (codes "Kryo") unkn_str (codes "14 nm")
    ∷ part 529 (codes "Kryo") unkn_str (codes "14 nm")
    ∷ part 2048 (codes "Falkor-V1/Kryo") unkn_str unkn_str
    ∷ part 2049 (codes "Kryo-V2") unkn_str (codes "14-6 nm")
    ∷ part 2050 (codes "Kryo-3XX-Gold") unkn_str (codes "10 nm")
    ∷ part 2051 (codes "Kryo-3XX-Silver") unkn_str (codes "10 nm")
    ∷ part 2052 (codes "Kryo-4XX-Gold") unkn_str (codes "11-7 nm")
    ∷ part 2053 (codes "Kryo-4XX-Silver") unkn_str (codes "8-7 nm")
    ∷ part 3072 (codes "Falkor") unkn_str (codes "10 nm")
    ∷ part 3073 (codes "Saphira") unkn_str (codes "8-7 nm")
    ∷ []

abbrev pub samsung_part : List ArmIdPart
samsung_part =
    part 1 (codes "Exynos M1") unkn_str (codes "14 nm")
    ∷ part 2 (codes "Exynos M3") unkn_str (codes "10 nm")
    ∷ part 3 (codes "Exynos M4") unkn_str (codes "8 nm")
    ∷ part 4 (codes "Exynos M5") unkn_str (codes "7 nm")
    ∷ []

abbrev pub nvidia_part : List ArmIdPart
nvidia_part =
    part 0 (codes "Denver") unkn_str (codes "28 nm")
    ∷ part 3 (codes "Denver 2") unkn_str (codes "16 nm")
    ∷ part 4 (codes "Carmel") unkn_str (codes "12 nm")
    ∷ []

abbrev pub marvell_part : List ArmIdPart
marvell_part =
    part 305 (codes "Feroceon-88FR131") unkn_str unkn_str
    ∷ part 1409 (codes "PJ4/PJ4b") unkn_str unkn_str
    ∷ part 1412 (codes "PJ4B-MP") unkn_str unkn_str
    ∷ []

abbrev pub apple_part : List ArmIdPart
apple_part =
    part 0 (codes "A6") (codes "Swift") (codes "32 nm")
    ∷ part 1 (codes "A7") (codes "Cyclone") (codes "28 nm")
    ∷ part 2 (codes "A8") (codes "Typhoon") (codes "20 nm")
    ∷ part 3 (codes "A8X") (codes "Typhoon") (codes "20 nm")
    ∷ part 4 (codes "A9") (codes "Twister") (codes "16 nm")
    ∷ part 5 (codes "A9X") (codes "Twister") (codes "16 nm")
    ∷ part 6 (codes "A10 Fusion") (codes "Zephyr") (codes "16 nm")
    ∷ part 7 (codes "A10 Fusion") (codes "Hurricane") (codes "16 nm")
    ∷ part 8 (codes "A11 Bionic") (codes "Monsoon") (codes "10 nm")
    ∷ part 9 (codes "A11 Bionic") (codes "Mistral") (codes "10 nm")
    ∷ part 11 (codes "A12") (codes "Vortex") (codes "TSMC N7")
    ∷ part 12 (codes "A12") (codes "Tempest") (codes "TSMC N7")
    ∷ part 15 (codes "M9") (codes "Tempest") (codes "TSMC N7")
    ∷ part 16 (codes "A12X Bionic") (codes "Vortex") (codes "TSMC N7")
    ∷ part 17 (codes "A12X Bionic") (codes "Tempest") (codes "TSMC N7")
    ∷ part 18 (codes "A13 Bionic") (codes "Lightning") (codes "TSMC N7P")
    ∷ part 19 (codes "A13 Bionic") (codes "Thunder") (codes "TSMC N7P")
    ∷ part 32 (codes "A14") (codes "Icestorm") (codes "TSMC N5")
    ∷ part 33 (codes "A14") (codes "Firestorm") (codes "TSMC N5")
    ∷ part 34 (codes "M1") (codes "Icestorm") (codes "TSMC N5")
    ∷ part 35 (codes "M1") (codes "Firestorm") (codes "TSMC N5")
    ∷ part 36 (codes "M1 Pro") (codes "Icestorm") (codes "TSMC N5")
    ∷ part 37 (codes "M1 Pro") (codes "Firestorm") (codes "TSMC N5")
    ∷ part 38 (codes "M10") (codes "Thunder") (codes "TSMC N7P")
    ∷ part 40 (codes "M1 Max") (codes "Icestorm") (codes "TSMC N5")
    ∷ part 41 (codes "M1 Max") (codes "Firestorm") (codes "TSMC N5")
    ∷ part 48 (codes "A15") (codes "Blizzard") (codes "TSMC N5P")
    ∷ part 49 (codes "A15") (codes "Avalanche") (codes "TSMC N5P")
    ∷ part 50 (codes "M2") (codes "Blizzard") (codes "TSMC N5P")
    ∷ part 51 (codes "M2") (codes "Avalanche") (codes "TSMC N5P")
    ∷ part 52 (codes "M2 Pro") (codes "Blizzard") (codes "TSMC N5P")
    ∷ part 53 (codes "M2 Pro") (codes "Avalanche") (codes "TSMC N5P")
    ∷ part 54 (codes "A16") (codes "Sawtooth") (codes "TSMC N4P")
    ∷ part 55 (codes "A16") (codes "Everest") (codes "TSMC N4P")
    ∷ part 56 (codes "M2 Max") (codes "Blizzard") (codes "TSMC N5P")
    ∷ part 57 (codes "M2 Max") (codes "Avalanche") (codes "TSMC N5P")
    ∷ []

abbrev pub faraday_part : List ArmIdPart
faraday_part =
    part 1318 (codes "FA526") unkn_str unkn_str ∷ part 1574 (codes "FA626") unkn_str unkn_str ∷ []

abbrev pub intel_part : List ArmIdPart
intel_part =
    part 512 (codes "i80200") unkn_str unkn_str
    ∷ part 528 (codes "PXA250A") unkn_str unkn_str
    ∷ part 530 (codes "PXA210A") unkn_str unkn_str
    ∷ part 578 (codes "i80321-400") unkn_str unkn_str
    ∷ part 579 (codes "i80321-600") unkn_str unkn_str
    ∷ part 656 (codes "PXA250B/PXA26x") unkn_str unkn_str
    ∷ part 658 (codes "PXA210B") unkn_str unkn_str
    ∷ part 706 (codes "i80321-400-B0") unkn_str unkn_str
    ∷ part 707 (codes "i80321-600-B0") unkn_str unkn_str
    ∷ part 720 (codes "PXA250C/PXA255/PXA26x") unkn_str unkn_str
    ∷ part 722 (codes "PXA210C") unkn_str unkn_str
    ∷ part 1041 (codes "PXA27x") unkn_str unkn_str
    ∷ part 1052 (codes "IPX425-533") unkn_str unkn_str
    ∷ part 1053 (codes "IPX425-400") unkn_str unkn_str
    ∷ part 1055 (codes "IPX425-266") unkn_str unkn_str
    ∷ part 1666 (codes "PXA32x") unkn_str unkn_str
    ∷ part 1667 (codes "PXA930/PXA935") unkn_str unkn_str
    ∷ part 1672 (codes "PXA30x") unkn_str unkn_str
    ∷ part 1673 (codes "PXA31x") unkn_str unkn_str
    ∷ part 2833 (codes "SA1110") unkn_str unkn_str
    ∷ part 3090 (codes "IPX1200") unkn_str unkn_str
    ∷ []

abbrev pub fujitsu_part : List ArmIdPart
fujitsu_part =
    part 1 (codes "A64FX") unkn_str (codes "7 nm")
    ∷ part 3 (codes "MONAKA") unkn_str (codes "2 nm")
    ∷ []

abbrev pub hisi_part : List ArmIdPart
hisi_part =
    part 3329 (codes "TaiShan-v110") unkn_str unkn_str
    ∷ part 3330 (codes "TaiShan-v120") unkn_str unkn_str
    ∷ part 3392 (codes "Cortex-A76") unkn_str unkn_str
    ∷ part 3393 (codes "Cortex-A77") unkn_str unkn_str
    ∷ []

abbrev pub ampere_part : List ArmIdPart
ampere_part =
    part 2755 (codes "Ampere-1") unkn_str unkn_str
    ∷ part 2756 (codes "Ampere-1a") unkn_str unkn_str
    ∷ []

abbrev pub ft_part : List ArmIdPart
ft_part =
    part 771 (codes "FTC310") unkn_str unkn_str
    ∷ part 1632 (codes "FTC660") unkn_str unkn_str
    ∷ part 1633 (codes "FTC661") unkn_str unkn_str
    ∷ part 1634 (codes "FTC662") unkn_str unkn_str
    ∷ part 1635 (codes "FTC663") unkn_str unkn_str
    ∷ part 1636 (codes "FTC664") unkn_str unkn_str
    ∷ part 2146 (codes "FTC862") unkn_str unkn_str
    ∷ []

abbrev pub ms_part : List ArmIdPart
ms_part = part 3401 (codes "Azure-Cobalt-100") unkn_str unkn_str ∷ []
