-- ===== src/Detect/Features.antt =====
-- `load_features_common` of libcpuid/cpuid_main.c: the features of all vendors' processors, and the
-- width of the SSE unit as the family suggests it.
pub mod Laws
use libcpuid.Base.{
  ℕ, ◌+◌, ◌^◌, Bool, true, false, ◌&&◌, not, List, [], ◌∷◌, leb, if◌then◌else◌, ℤ, pos, int_le,
  int_eq,
}
use libcpuid.Data.Feature
use libcpuid.Data.Kinds.{CpuVendor, intel, amd}
use libcpuid.Data.Raw.{RawData, row}
use libcpuid.Data.CpuId.{CpuId, X86Id}
use libcpuid.Util.Features.{FeatureMap, maps, match_features}

abbrev pub matchtable_edx1 : List FeatureMap
matchtable_edx1 =
    maps 0 Feature.fpu
    ∷ maps 1 Feature.vme
    ∷ maps 2 Feature.de
    ∷ maps 3 Feature.pse
    ∷ maps 4 Feature.tsc
    ∷ maps 5 Feature.msr
    ∷ maps 6 Feature.pae
    ∷ maps 7 Feature.mce
    ∷ maps 8 Feature.cx8
    ∷ maps 9 Feature.apic
    ∷ maps 11 Feature.sep
    ∷ maps 12 Feature.mtrr
    ∷ maps 13 Feature.pge
    ∷ maps 14 Feature.mca
    ∷ maps 15 Feature.cmov
    ∷ maps 16 Feature.pat
    ∷ maps 17 Feature.pse36
    ∷ maps 19 Feature.clflush
    ∷ maps 23 Feature.mmx
    ∷ maps 24 Feature.fxsr
    ∷ maps 25 Feature.sse
    ∷ maps 26 Feature.sse2
    ∷ maps 28 Feature.ht
    ∷ []

abbrev pub matchtable_ecx1 : List FeatureMap
matchtable_ecx1 =
    maps 0 Feature.pni
    ∷ maps 1 Feature.pclmul
    ∷ maps 3 Feature.monitor
    ∷ maps 9 Feature.ssse3
    ∷ maps 12 Feature.fma3
    ∷ maps 13 Feature.cx16
    ∷ maps 19 Feature.sse4_1
    ∷ maps 20 Feature.sse4_2
    ∷ maps 21 Feature.x2apic
    ∷ maps 22 Feature.movbe
    ∷ maps 23 Feature.popcnt
    ∷ maps 25 Feature.aes
    ∷ maps 26 Feature.xsave
    ∷ maps 27 Feature.osxsave
    ∷ maps 28 Feature.avx
    ∷ maps 29 Feature.f16c
    ∷ maps 30 Feature.rdrand
    ∷ maps 31 Feature.hypervisor
    ∷ []

abbrev pub matchtable_ebx7 : List FeatureMap
matchtable_ebx7 =
    maps 3 Feature.bmi1
    ∷ maps 5 Feature.avx2
    ∷ maps 8 Feature.bmi2
    ∷ maps 16 Feature.avx512f
    ∷ maps 17 Feature.avx512dq
    ∷ maps 18 Feature.rdseed
    ∷ maps 19 Feature.adx
    ∷ maps 28 Feature.avx512cd
    ∷ maps 29 Feature.sha_ni
    ∷ maps 30 Feature.avx512bw
    ∷ maps 31 Feature.avx512vl
    ∷ []

abbrev pub matchtable_ecx7 : List FeatureMap
matchtable_ecx7 =
    maps 1 Feature.avx512vbmi ∷ maps 6 Feature.avx512vbmi2 ∷ maps 11 Feature.avx512vnni ∷ []

abbrev pub matchtable_edx81 : List FeatureMap
matchtable_edx81 = maps 11 Feature.syscall ∷ maps 27 Feature.rdtscp ∷ maps 29 Feature.lm ∷ []

abbrev pub matchtable_ecx81 : List FeatureMap
matchtable_ecx81 = maps 0 Feature.lahf_lm ∷ maps 5 Feature.abm ∷ []

abbrev pub matchtable_edx87 : List FeatureMap
matchtable_edx87 = maps 8 Feature.constant_tsc ∷ []

-- The four tests on the highest leaf, with the tables read under each of them.
unfoldable pub load_leaf1 : RawData → CpuId → CpuId
load_leaf1 raw id =
    if leb 1 (row raw.basic_cpuid 0).eax
    then match_features matchtable_ecx1 (row raw.basic_cpuid 1).ecx
        (match_features matchtable_edx1 (row raw.basic_cpuid 1).edx id)
    else id

unfoldable pub load_leaf7 : RawData → CpuId → CpuId
load_leaf7 raw id =
    if leb 7 (row raw.basic_cpuid 0).eax
    then match_features matchtable_ecx7 (row raw.basic_cpuid 7).ecx
        (match_features matchtable_ebx7 (row raw.basic_cpuid 7).ebx id)
    else id

unfoldable pub load_leaf81 : RawData → CpuId → CpuId
load_leaf81 raw id =
    if leb (2 ^ 31 + 1) (row raw.ext_cpuid 0).eax
    then match_features matchtable_ecx81 (row raw.ext_cpuid 1).ecx
        (match_features matchtable_edx81 (row raw.ext_cpuid 1).edx id)
    else id

unfoldable pub load_leaf87 : RawData → CpuId → CpuId
load_leaf87 raw id =
    if leb (2 ^ 31 + 7) (row raw.ext_cpuid 0).eax
    then match_features matchtable_edx87 (row raw.ext_cpuid 7).edx id
    else id

-- The guess at the width of the SSE unit, by the vendor; other vendors' stays as it is.
unfoldable pub sse_size_of : CpuVendor → X86Id → ℤ
sse_size_of amd x86 =
    if int_le (pos 16) x86.ext_family && not (int_eq x86.ext_family (pos 17))
    then pos 128
    else pos 64
sse_size_of intel x86 =
    if int_eq x86.family (pos 6) && int_le (pos 15) x86.ext_model then pos 128 else pos 64
sse_size_of _ x86 = x86.sse_size

unfoldable pub guess_sse_size : CpuId → CpuId
guess_sse_size id =
    if id.flags Feature.sse
    then record id { x86 = record id.x86 { sse_size = sse_size_of id.vendor id.x86 } }
    else id

unfoldable pub load_features_common : RawData → CpuId → CpuId
load_features_common raw id =
    guess_sse_size (load_leaf87 raw (load_leaf81 raw (load_leaf7 raw (load_leaf1 raw id))))
