-- ===== src/Detect/Features/Laws.antt =====
-- Which features `load_features_common` finds.
use libcpuid.Base.{
  ◌+◌, ◌^◌, Bool, ◌&&◌, ◌||◌, ◌≡◌, refl, ap, inl, inr, Bool-cases, ℤ, ◌∙◌, arith, leb,
}
use libcpuid.Data.Feature
use libcpuid.Data.Feature.{CpuFeature}
use libcpuid.Data.Raw.{RawData, row}
use libcpuid.Data.CpuId.{CpuId}
use libcpuid.Util.Features.{match_features}
use libcpuid.Util.Features.Laws.{announced, flags-both, flags-load}
use libcpuid.Detect.Features.{
  matchtable_edx1, matchtable_ecx1, matchtable_ebx7, matchtable_ecx7, matchtable_edx81,
  matchtable_ecx81, matchtable_edx87, load_leaf1, load_leaf7, load_leaf81, load_leaf87,
  guess_sse_size, sse_size_of, load_features_common,
}

-- A table that is read under one of the tests announces the feature.
abbrev leaf1_has : RawData → CpuFeature → Bool
leaf1_has raw f =
    leb 1 (row raw.basic_cpuid 0).eax
    && (announced matchtable_edx1 (row raw.basic_cpuid 1).edx f
        || announced matchtable_ecx1 (row raw.basic_cpuid 1).ecx f)

abbrev leaf7_has : RawData → CpuFeature → Bool
leaf7_has raw f =
    leb 7 (row raw.basic_cpuid 0).eax
    && (announced matchtable_ebx7 (row raw.basic_cpuid 7).ebx f
        || announced matchtable_ecx7 (row raw.basic_cpuid 7).ecx f)

abbrev leaf81_has : RawData → CpuFeature → Bool
leaf81_has raw f =
    leb (2 ^ 31 + 1) (row raw.ext_cpuid 0).eax
    && (announced matchtable_edx81 (row raw.ext_cpuid 1).edx f
        || announced matchtable_ecx81 (row raw.ext_cpuid 1).ecx f)

abbrev leaf87_has : RawData → CpuFeature → Bool
leaf87_has raw f =
    leb (2 ^ 31 + 7) (row raw.ext_cpuid 0).eax
    && announced matchtable_edx87 (row raw.ext_cpuid 7).edx f

abbrev pub is_common : RawData → CpuFeature → Bool
is_common raw f = leaf1_has raw f || leaf7_has raw f || leaf81_has raw f || leaf87_has raw f

-- The order in which the tests are made does not matter.
collect : (a b c d e : Bool) → (d || (c || (b || (a || e)))) ≡ ((a || b || c || d) || e)
collect a b c d e = ground arith

load_leaves_flags :
    (raw : RawData) (id : CpuId) (f : CpuFeature)
    → (load_leaf87 raw (load_leaf81 raw (load_leaf7 raw (load_leaf1 raw id)))).flags f
      ≡ (is_common raw f || id.flags f)
unfolding load_leaf1 load_leaf7 load_leaf81 load_leaf87
load_leaves_flags raw id f =
    flags-load (leb (2 ^ 31 + 7) (row raw.ext_cpuid 0).eax) matchtable_edx87
      (row raw.ext_cpuid 7).edx (load_leaf81 raw (load_leaf7 raw (load_leaf1 raw id))) f
    ∙ rw
        (
          flags-both (leb (2 ^ 31 + 1) (row raw.ext_cpuid 0).eax) matchtable_edx81 matchtable_ecx81
              (row raw.ext_cpuid 1).edx (row raw.ext_cpuid 1).ecx
              (load_leaf7 raw (load_leaf1 raw id)) f,
          flags-both (leb 7 (row raw.basic_cpuid 0).eax) matchtable_ebx7 matchtable_ecx7
              (row raw.basic_cpuid 7).ebx (row raw.basic_cpuid 7).ecx (load_leaf1 raw id) f,
          flags-both (leb 1 (row raw.basic_cpuid 0).eax) matchtable_edx1 matchtable_ecx1
              (row raw.basic_cpuid 1).edx (row raw.basic_cpuid 1).ecx id f,
        )
        (collect (leaf1_has raw f) (leaf7_has raw f) (leaf81_has raw f) (leaf87_has raw f)
          (id.flags f))

guess_sse_size_flags : (id : CpuId) (f : CpuFeature) → (guess_sse_size id).flags f ≡ id.flags f
unfolding guess_sse_size
guess_sse_size_flags id f = ground arith

-- After `load_features_common` a flag is set exactly if it was set before or a table announces it whose
-- leaf the processor has.
pub load_features_common-announced :
    (raw : RawData) (id : CpuId) (f : CpuFeature)
    → (load_features_common raw id).flags f ≡ (is_common raw f || id.flags f)
unfolding load_features_common
load_features_common-announced raw id f =
    guess_sse_size_flags (load_leaf87 raw (load_leaf81 raw (load_leaf7 raw (load_leaf1 raw id)))) f
    ∙ load_leaves_flags raw id f

-- The tables change the flags alone.
OnlyFlags : CpuId → CpuId → Type 0
OnlyFlags before after = record after { flags = before.flags } ≡ before

leaf1_only : (raw : RawData) (id : CpuId) → OnlyFlags id (load_leaf1 raw id)
unfolding load_leaf1 match_features OnlyFlags
leaf1_only raw id = elim (Bool-cases (leb 1 (row raw.basic_cpuid 0).eax)) [
  | inl h ↦ rw h refl
  | inr h ↦ rw h refl
]

leaf7_only : (raw : RawData) (id : CpuId) → OnlyFlags id (load_leaf7 raw id)
unfolding load_leaf7 match_features OnlyFlags
leaf7_only raw id = elim (Bool-cases (leb 7 (row raw.basic_cpuid 0).eax)) [
  | inl h ↦ rw h refl
  | inr h ↦ rw h refl
]

leaf81_only : (raw : RawData) (id : CpuId) → OnlyFlags id (load_leaf81 raw id)
unfolding load_leaf81 match_features OnlyFlags
leaf81_only raw id = elim (Bool-cases (leb (2 ^ 31 + 1) (row raw.ext_cpuid 0).eax)) [
  | inl h ↦ rw h refl
  | inr h ↦ rw h refl
]

leaf87_only : (raw : RawData) (id : CpuId) → OnlyFlags id (load_leaf87 raw id)
unfolding load_leaf87 match_features OnlyFlags
leaf87_only raw id = elim (Bool-cases (leb (2 ^ 31 + 7) (row raw.ext_cpuid 0).eax)) [
  | inl h ↦ rw h refl
  | inr h ↦ rw h refl
]

OnlyFlags-trans : (a b c : CpuId) → OnlyFlags a b → OnlyFlags b c → OnlyFlags a c
unfolding OnlyFlags
OnlyFlags-trans a b c h k = ap (λ (d : CpuId). record d { flags = a.flags }) k ∙ h

leaves_only :
    (raw : RawData) (id : CpuId)
    → OnlyFlags id (load_leaf87 raw (load_leaf81 raw (load_leaf7 raw (load_leaf1 raw id))))
leaves_only raw id =
    let one = load_leaf1 raw id in
    let two = load_leaf7 raw one in
    let three = load_leaf81 raw two in
    OnlyFlags-trans id three _
      (OnlyFlags-trans id two three
        (OnlyFlags-trans id one two (leaf1_only raw id) (leaf7_only raw one)) (leaf81_only raw two))
      (leaf87_only raw three)

guess_sse_size_keeps :
    (id : CpuId)
    → (n : ℤ) × (record (guess_sse_size id) { flags = id.flags }
        ≡ record id { x86 = record id.x86 { sse_size = n } })
unfolding guess_sse_size
guess_sse_size_keeps id = elim (Bool-cases (id.flags Feature.sse)) [
  | inl h ↦ (sse_size_of id.vendor id.x86, rw h refl)
  | inr h ↦ (id.x86.sse_size, rw h refl)
]

-- Only the flags and the width of the SSE unit change.
pub load_features_common_keeps :
    (raw : RawData) (id : CpuId)
    → (n : ℤ) × (record (load_features_common raw id) { flags = id.flags }
        ≡ record id { x86 = record id.x86 { sse_size = n } })
unfolding load_features_common OnlyFlags
load_features_common_keeps raw id =
    let loaded = load_leaf87 raw (load_leaf81 raw (load_leaf7 raw (load_leaf1 raw id))) in
    let (n, same) = guess_sse_size_keeps loaded in
    (
      n,
      ap (λ (d : CpuId). record d { flags = id.flags }) same
          ∙ ap (λ (d : CpuId). record d { x86 = record d.x86 { sse_size = n } })
              (leaves_only raw id),
    )
