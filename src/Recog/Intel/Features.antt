-- ===== src/Recog/Intel/Features.antt =====
-- `load_intel_features` of libcpuid/recog_intel.c.
pub mod Laws
use libcpuid.Base.{List, [], ◌∷◌, leb, if◌then◌else◌}
use libcpuid.Data.Feature
use libcpuid.Data.Raw.{RawData, row}
use libcpuid.Data.CpuId.{CpuId}
use libcpuid.Util.Features.{FeatureMap, maps, match_features}

abbrev pub matchtable_edx1 : List FeatureMap
matchtable_edx1 =
    maps 18 Feature.pn
    ∷ maps 21 Feature.dts
    ∷ maps 22 Feature.acpi
    ∷ maps 27 Feature.ss
    ∷ maps 29 Feature.tm
    ∷ maps 30 Feature.ia64
    ∷ maps 31 Feature.pbe
    ∷ []

abbrev pub matchtable_ecx1 : List FeatureMap
matchtable_ecx1 =
    maps 2 Feature.dts64
    ∷ maps 4 Feature.ds_cpl
    ∷ maps 5 Feature.vmx
    ∷ maps 6 Feature.smx
    ∷ maps 7 Feature.est
    ∷ maps 8 Feature.tm2
    ∷ maps 10 Feature.cid
    ∷ maps 14 Feature.xtpr
    ∷ maps 15 Feature.pdcm
    ∷ maps 18 Feature.dca
    ∷ []

abbrev pub matchtable_edx81 : List FeatureMap
matchtable_edx81 = maps 20 Feature.xd ∷ []

abbrev pub matchtable_ebx7 : List FeatureMap
matchtable_ebx7 =
    maps 2 Feature.sgx
    ∷ maps 4 Feature.hle
    ∷ maps 11 Feature.rtm
    ∷ maps 26 Feature.avx512pf
    ∷ maps 27 Feature.avx512er
    ∷ []

-- The three tests on the highest leaf, with the tables read under each of them.
unfoldable pub load_leaf1 : RawData → CpuId → CpuId
load_leaf1 raw id =
    if leb 1 (row raw.basic_cpuid 0).eax
    then match_features matchtable_ecx1 (row raw.basic_cpuid 1).ecx
        (match_features matchtable_edx1 (row raw.basic_cpuid 1).edx id)
    else id

unfoldable pub load_leaf81 : RawData → CpuId → CpuId
load_leaf81 raw id =
    if leb 1 (row raw.ext_cpuid 0).eax
    then match_features matchtable_edx81 (row raw.ext_cpuid 1).edx id
    else id

unfoldable pub load_leaf7 : RawData → CpuId → CpuId
load_leaf7 raw id =
    if leb 7 (row raw.basic_cpuid 0).eax
    then match_features matchtable_ebx7 (row raw.basic_cpuid 7).ebx id
    else id

unfoldable pub load_intel_features : RawData → CpuId → CpuId
load_intel_features raw id = load_leaf7 raw (load_leaf81 raw (load_leaf1 raw id))
