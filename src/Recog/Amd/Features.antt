-- ===== src/Recog/Amd/Features.antt =====
-- `load_amd_features` of libcpuid/recog_amd.c.
pub mod Laws
use libcpuid.Base.{ℕ, ◌+◌, ◌^◌, ◌==◌, true, List, [], ◌∷◌, leb, if◌then◌else◌, extracts_bit, ℤ, pos}
use libcpuid.Data.Feature
use libcpuid.Data.Raw.{RawData, row}
use libcpuid.Data.CpuId.{CpuId}
use libcpuid.Util.Features.{FeatureMap, maps, match_features}

abbrev pub matchtable_edx81 : List FeatureMap
matchtable_edx81 =
    maps 20 Feature.nx
    ∷ maps 22 Feature.mmxext
    ∷ maps 25 Feature.fxsr_opt
    ∷ maps 30 Feature.amd_3dnowext
    ∷ maps 31 Feature.amd_3dnow
    ∷ []

abbrev pub matchtable_ecx81 : List FeatureMap
matchtable_ecx81 =
    maps 1 Feature.cmp_legacy
    ∷ maps 2 Feature.svm
    ∷ maps 6 Feature.sse4a
    ∷ maps 7 Feature.misalignsse
    ∷ maps 8 Feature.amd_3dnowprefetch
    ∷ maps 9 Feature.osvw
    ∷ maps 10 Feature.ibs
    ∷ maps 11 Feature.xop
    ∷ maps 12 Feature.skinit
    ∷ maps 13 Feature.wdt
    ∷ maps 16 Feature.fma4
    ∷ maps 21 Feature.tbm
    ∷ []

abbrev pub matchtable_edx87 : List FeatureMap
matchtable_edx87 =
    maps 0 Feature.ts
    ∷ maps 1 Feature.fid
    ∷ maps 2 Feature.vid
    ∷ maps 3 Feature.ttp
    ∷ maps 4 Feature.tm_amd
    ∷ maps 5 Feature.stc
    ∷ maps 6 Feature.stc_100mhzsteps
    ∷ maps 7 Feature.hwpstate
    ∷ maps 9 Feature.cpb
    ∷ maps 10 Feature.aperfmperf
    ∷ maps 11 Feature.pfi
    ∷ maps 12 Feature.pa
    ∷ []

-- The tests on the highest leaf, with the tables read under each of them.
unfoldable pub load_leaf81 : RawData → CpuId → CpuId
load_leaf81 raw id =
    if leb (2 ^ 31 + 1) (row raw.ext_cpuid 0).eax
    then match_features matchtable_ecx81 (row raw.ext_cpuid 1).ecx
        (match_features matchtable_edx81 (row raw.ext_cpuid 1).edx id)
    else id

unfoldable pub load_leaf87 : RawData → CpuId → CpuId
load_leaf87 raw id =
    if leb (2 ^ 31 + 7) (row raw.ext_cpuid 0).eax
    then match_features matchtable_edx87 (row raw.ext_cpuid 7).edx id
    else id

-- The width of the SSE unit, by leaf 8000001Ah.
unfoldable pub sse_size_of : ℕ → ℤ
sse_size_of eax =
    if extracts_bit eax 2 == 1 then pos 256 else if extracts_bit eax 0 == 1 then pos 128 else pos 64

unfoldable pub load_leaf9a : RawData → CpuId → CpuId
load_leaf9a raw id =
    if leb (2 ^ 31 + 26) (row raw.ext_cpuid 0).eax
    then record id {
      sse_size_auth = true;
      x86 = record id.x86 { sse_size = sse_size_of (row raw.ext_cpuid 26).eax };
    }
    else id

unfoldable pub load_amd_features : RawData → CpuId → CpuId
load_amd_features raw id = load_leaf9a raw (load_leaf87 raw (load_leaf81 raw id))
