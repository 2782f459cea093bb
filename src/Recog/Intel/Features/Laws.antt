-- ===== src/Recog/Intel/Features/Laws.antt =====
-- Which features `load_intel_features` finds.
use libcpuid.Base.{Bool, ◌&&◌, ◌||◌, ◌≡◌, ◌∙◌, arith, leb}
use libcpuid.Data.Feature.{CpuFeature}
use libcpuid.Data.Raw.{RawData, row}
use libcpuid.Data.CpuId.{CpuId}
use libcpuid.Util.Features.Laws.{announced, flags-both, flags-load}
use libcpuid.Recog.Intel.Features.{
  matchtable_edx1, matchtable_ecx1, matchtable_edx81, matchtable_ebx7, load_leaf1, load_leaf7,
  load_leaf81, load_intel_features,
}

-- A table that is read under one of the tests announces the feature.
abbrev leaf1_has : RawData → CpuFeature → Bool
leaf1_has raw f =
    leb 1 (row raw.basic_cpuid 0).eax
    && (announced matchtable_edx1 (row raw.basic_cpuid 1).edx f
        || announced matchtable_ecx1 (row raw.basic_cpuid 1).ecx f)

abbrev leaf81_has : RawData → CpuFeature → Bool
leaf81_has raw f =
    leb 1 (row raw.ext_cpuid 0).eax && announced matchtable_edx81 (row raw.ext_cpuid 1).edx f

abbrev leaf7_has : RawData → CpuFeature → Bool
leaf7_has raw f =
    leb 7 (row raw.basic_cpuid 0).eax && announced matchtable_ebx7 (row raw.basic_cpuid 7).ebx f

abbrev pub is_intel_only : RawData → CpuFeature → Bool
is_intel_only raw f = leaf1_has raw f || leaf81_has raw f || leaf7_has raw f

collect : (a b c e : Bool) → (c || (b || (a || e))) ≡ ((a || b || c) || e)
collect a b c e = ground arith

-- After `load_intel_features` a flag is set exactly if it was set before or a table announces it whose
-- leaf the processor has.
pub load_intel_features-announced :
    (raw : RawData) (id : CpuId) (f : CpuFeature)
    → (load_intel_features raw id).flags f ≡ (is_intel_only raw f || id.flags f)
unfolding load_intel_features load_leaf1 load_leaf7 load_leaf81
load_intel_features-announced raw id f =
    flags-load (leb 7 (row raw.basic_cpuid 0).eax) matchtable_ebx7 (row raw.basic_cpuid 7).ebx
      (load_leaf81 raw (load_leaf1 raw id)) f
    ∙ rw
        (
          flags-load (leb 1 (row raw.ext_cpuid 0).eax) matchtable_edx81 (row raw.ext_cpuid 1).edx
              (load_leaf1 raw id) f,
          flags-both (leb 1 (row raw.basic_cpuid 0).eax) matchtable_edx1 matchtable_ecx1
              (row raw.basic_cpuid 1).edx (row raw.basic_cpuid 1).ecx id f,
        )
        (collect (leaf1_has raw f) (leaf81_has raw f) (leaf7_has raw f) (id.flags f))
