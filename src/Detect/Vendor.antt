-- ===== src/Detect/Vendor.antt =====
-- `cpuid_vendor_identify` of libcpuid/cpuid_main.c: the vendor that leaf 0 names.
pub mod Laws
use libcpuid.Base.{
  ℕ, ◌+◌, ◌*◌, ◌/◌, ◌%◌, ◌^◌, Bool, true, false, List, [], ◌∷◌, ◌++◌, ◌==◌, if◌then◌else◌, codes,
}
use libcpuid.Data.Kinds.{
  CpuVendor, intel, amd, cyrix, nexgen, transmeta, umc, centaur, rise, sis, nsc, hygon,
  unknown_vendor,
}
use libcpuid.Data.Raw.{Regs}
use libcpuid.Util.Ctype.{str_eq}

-- The four bytes of a register in memory, on a little-endian machine.
unfoldable pub bytes_of : ℕ → List ℕ
bytes_of x = x % 256 ∷ x / 2 ^ 8 % 256 ∷ x / 2 ^ 16 % 256 ∷ x / 2 ^ 24 % 256 ∷ []

-- The text in a buffer: what stands before the first NUL.
unfoldable pub c_string : List ℕ → List ℕ
c_string [] = []
c_string (c ∷ s) = let rest = c_string s in if c == 0 then [] else c ∷ rest

pub record VendorRow : Type 0 where
  pub vendor : CpuVendor
  pub match : List ℕ

-- A row that the source leaves out: all zeros, which is VENDOR_INTEL and the empty text.
abbrev pub zero_row : VendorRow
zero_row = record { vendor = intel; match = [] }

abbrev pub vendor_texts : List VendorRow
vendor_texts =
    record { vendor = intel; match = codes "GenuineIntel" }
    ∷ record { vendor = amd; match = codes "AuthenticAMD" }
    ∷ record { vendor = cyrix; match = codes "CyrixInstead" }
    ∷ record { vendor = nexgen; match = codes "NexGenDriven" }
    ∷ record { vendor = transmeta; match = codes "GenuineTMx86" }
    ∷ record { vendor = umc; match = codes "UMC UMC UMC " }
    ∷ record { vendor = centaur; match = codes "CentaurHauls" }
    ∷ record { vendor = rise; match = codes "RiseRiseRise" }
    ∷ record { vendor = sis; match = codes "SiS SiS SiS " }
    ∷ record { vendor = nsc; match = codes "Geode by NSC" }
    ∷ record { vendor = hygon; match = codes "HygonGenuine" }
    ∷ []

-- `matchtable[NUM_CPU_VENDORS]`: eleven rows that are written out, and eighteen that are not.
abbrev pub matchtable : List VendorRow
matchtable =
    vendor_texts
    ++ (zero_row ∷ zero_row ∷ zero_row ∷ zero_row ∷ zero_row ∷ zero_row ∷ zero_row ∷ zero_row
        ∷ zero_row ∷ zero_row ∷ zero_row ∷ zero_row ∷ zero_row ∷ zero_row ∷ zero_row ∷ zero_row
        ∷ zero_row ∷ zero_row ∷ [])

-- The loop over the table.
unfoldable pub find_vendor : List ℕ → List VendorRow → CpuVendor
find_vendor text [] = unknown_vendor
find_vendor text (r ∷ table) = if str_eq text r.match then r.vendor else find_vendor text table

-- The text that the three `memcpy` put together: EBX, EDX, ECX.
unfoldable pub vendor_text : Regs → List ℕ
vendor_text raw_vendor =
    c_string (bytes_of raw_vendor.ebx ++ (bytes_of raw_vendor.edx ++ bytes_of raw_vendor.ecx))

-- The vendor and the text that is stored.
unfoldable pub cpuid_vendor_identify : Regs → CpuVendor × List ℕ
cpuid_vendor_identify raw_vendor =
    (find_vendor (vendor_text raw_vendor) matchtable, vendor_text raw_vendor)
