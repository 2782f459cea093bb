-- ===== src/Recog/Amd/Features/Laws.antt =====
-- Which features `load_amd_features` finds.
use libcpuid.Base.{◌+◌, ◌^◌, Bool, ◌&&◌, ◌||◌, ◌≡◌, ◌∙◌, arith, leb}
use libcpuid.Data.Feature.{CpuFeature}
use libcpuid.Data.Raw.{RawData, row}
use libcpuid.Data.CpuId.{CpuId}
use libcpuid.Util.Features.Laws.{announced, flags-both, flags-load}
use libcpuid.Recog.Amd.Features.{
  matchtable_edx81, matchtable_ecx81, matchtable_edx87, load_leaf81, load_leaf87, load_leaf9a,
  load_amd_features,
}

-- A table that is read under one of the tests announces the feature.
abbrev leaf81_has : RawData → CpuFeature → Bool
leaf81_has raw f =
    leb (2 ^ 31 + 1) (row raw.ext_cpuid 0).eax
    && (announced matchtable_edx81 (row raw.ext_cpuid 1).edx f
        || announced matchtable_ecx81 (row raw.ext_cpuid 1).ecx f)

abbrev leaf87_has : RawData → CpuFeature → Bool
leaf87_has raw f =
    leb (2 ^ 31 + 7) (row raw.ext_cpuid 0).eax
    && announced matchtable_edx87 (row raw.ext_cpuid 7).edx f

abbrev pub is_amd_only : RawData → CpuFeature → Bool
is_amd_only raw f = leaf81_has raw f || leaf87_has raw f

collect : (a b e : Bool) → (b || (a || e)) ≡ ((a || b) || e)
collect a b e = ground arith

load_leaf9a_flags :
    (raw : RawData) (id : CpuId) (f : CpuFeature) → (load_leaf9a raw id).flags f ≡ id.flags f
unfolding load_leaf9a
load_leaf9a_flags raw id f = ground arith

-- After `load_amd_features` a flag is set exactly if it was set before or a table announces it whose
-- leaf the processor has.
pub load_amd_features-announced :
    (raw : RawData) (id : CpuId) (f : CpuFeature)
    → (load_amd_features raw id).flags f ≡ (is_amd_only raw f || id.flags f)
unfolding load_amd_features load_leaf81 load_leaf87
load_amd_features-announced raw id f =
    load_leaf9a_flags raw (load_leaf87 raw (load_leaf81 raw id)) f
    ∙ (flags-load (leb (2 ^ 31 + 7) (row raw.ext_cpuid 0).eax) matchtable_edx87
          (row raw.ext_cpuid 7).edx (load_leaf81 raw id) f
        ∙ rw
            (flags-both (leb (2 ^ 31 + 1) (row raw.ext_cpuid 0).eax) matchtable_edx81
              matchtable_ecx81 (row raw.ext_cpuid 1).edx (row raw.ext_cpuid 1).ecx id f)
            (collect (leaf81_has raw f) (leaf87_has raw f) (id.flags f)))
