-- ===== src/Recog/Arm/Parts.antt =====
-- `hw_implementer` of libcpuid/recog_arm.c, and the searches through it and through the tables of
-- parts. All tables end in the source with a row of ID -1, which is the answer of a search that
-- finds nothing; here that row is not in the list.
mod Holdings
mod Others
pub mod Laws
pub use Holdings.*
pub use Others.*
use libcpuid.Base.{ℕ, Bool, List, [], ◌∷◌, codes, ◌==◌, if◌then◌else◌}
use libcpuid.Data.Kinds.{
  CpuVendor, vendor_eq, ampere, apm, apple, arm, broadcom, cavium, dec, faraday, freescale, fujitsu,
  hisilicon, infineon, intel, marvell, microsoft, nvidia, phytium, qualcomm, samsung,
  unknown_vendor,
}
use libcpuid.Util.Codename.{unkn_str}
use libcpuid.Recog.Arm.Id.{ArmIdPart, ArmHwImpl, part, implementer}

abbrev pub unknown_part : List ArmIdPart
unknown_part = []

abbrev pub hw_implementer : List ArmHwImpl
hw_implementer =
    implementer 65 arm arm_part (codes "ARM")
    ∷ implementer 66 broadcom brcm_part (codes "Broadcom")
    ∷ implementer 67 cavium cavium_part (codes "Cavium")
    ∷ implementer 68 dec dec_part (codes "DEC")
    ∷ implementer 70 fujitsu fujitsu_part (codes "FUJITSU")
    ∷ implementer 72 hisilicon hisi_part (codes "HiSilicon")
    ∷ implementer 73 infineon unknown_part (codes "Infineon")
    ∷ implementer 77 freescale unknown_part (codes "Motorola/Freescale")
    ∷ implementer 78 nvidia nvidia_part (codes "NVIDIA")
    ∷ implementer 80 apm apm_part (codes "APM")
    ∷ implementer 81 qualcomm qcom_part (codes "Qualcomm")
    ∷ implementer 83 samsung samsung_part (codes "Samsung")
    ∷ implementer 86 marvell marvell_part (codes "Marvell")
    ∷ implementer 97 apple apple_part (codes "Apple")
    ∷ implementer 102 faraday faraday_part (codes "Faraday")
    ∷ implementer 105 intel intel_part (codes "Intel")
    ∷ implementer 109 microsoft ms_part (codes "Microsoft")
    ∷ implementer 112 phytium ft_part (codes "Phytium")
    ∷ implementer 192 ampere ampere_part (codes "Ampere")
    ∷ []

-- The rows of ID -1.
abbrev pub no_implementer : ArmHwImpl
no_implementer = implementer 0 unknown_vendor unknown_part unkn_str

abbrev pub no_part : ArmIdPart
no_part = part 0 unkn_str unkn_str unkn_str

-- The loop of the two functions that follow, with the condition of its `break`.
unfoldable pub find_implementer : (ArmHwImpl → Bool) → List ArmHwImpl → ArmHwImpl
find_implementer test [] = no_implementer
find_implementer test (i ∷ rest) =
    let later = find_implementer test rest in if test i then i else later

unfoldable pub get_cpu_implementer_from_code : ℕ → ArmHwImpl
get_cpu_implementer_from_code code = find_implementer (λ i. i.id == code) hw_implementer

unfoldable pub get_cpu_implementer_from_vendor : CpuVendor → ArmHwImpl
get_cpu_implementer_from_vendor vendor =
    find_implementer (λ i. vendor_eq i.vendor vendor) hw_implementer

unfoldable pub find_part : ℕ → List ArmIdPart → ArmIdPart
find_part part_num [] = no_part
find_part part_num (p ∷ rest) =
    let later = find_part part_num rest in if p.id == part_num then p else later

unfoldable pub get_cpu_implementer_parts : ArmHwImpl → ℕ → ArmIdPart
get_cpu_implementer_parts hw_impl part_num = find_part part_num hw_impl.parts
