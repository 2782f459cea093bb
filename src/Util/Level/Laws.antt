-- ===== src/Util/Level/Laws.antt =====
-- How the level that `decode_architecture_version_x86` stores depends on the features.
use libcpuid.Base.{
  Bool, true, false, ◌&&◌, not, List, [], ◌∷◌, ◌≡◌, ◌⊎◌, inl, inr, subst, refl, sym, ◌∙◌, arith,
  if◌then◌else◌,
}
use libcpuid.Data.Feature
use libcpuid.Data.Feature.{CpuFeature}
use libcpuid.Data.Kinds.{CpuFeatureLevel, x86_64_v1, x86_64_v2, x86_64_v3, x86_64_v4, level_unknown}
use libcpuid.Data.CpuId.{CpuId, Flags}
use libcpuid.Util.Level.{
  FeatureRow, architecture_matchtable_x86_64, check_features, features_level,
  decode_architecture_version_x86, architecture_x86_64_v1, architecture_x86_64_v2,
  architecture_x86_64_v3, architecture_x86_64_v4,
}

-- All features of a list are there.
unfoldable pub all_present : Flags → List CpuFeature → Bool
all_present flags [] = true
all_present flags (f ∷ fs) = flags f && all_present flags fs

-- The level that the tables mean: the last of the rows whose features are all there, counted from the
-- first row on without a gap.
abbrev pub intended_level : Flags → List FeatureRow → CpuFeatureLevel → CpuFeatureLevel
intended_level flags [] level = level
intended_level flags (r ∷ table) level =
    if all_present flags r.features then intended_level flags table r.level else level

-- The level that is found looks at one feature of each row, the last.
abbrev pub level_by_last : Flags → CpuFeatureLevel
level_by_last flags =
    if not (flags Feature.sse2)
    then level_unknown
    else if not (flags Feature.ssse3)
    then x86_64_v1
    else if not (flags Feature.osxsave)
    then x86_64_v2
    else if not (flags Feature.avx512vl)
    then x86_64_v3
    else x86_64_v4

-- On a 64-bit processor the stored level depends on one feature of each row, the last one: SSE2,
-- SSSE3, OSXSAVE and AVX512VL. The other features of a row do not count.
pub decode_architecture_version_x86-by_last :
    (old : Bool) (id : CpuId)
    → id.flags Feature.lm ≡ true
    → (decode_architecture_version_x86 old id).feature_level ≡ level_by_last id.flags
unfolding decode_architecture_version_x86 features_level check_features
decode_architecture_version_x86-by_last old id lm = ground arith

-- The features of a row come together: where the last is there, so are the others.
pub record ComeTogether (flags : Flags) : Type 0 where
  pub v1 : flags Feature.sse2 ≡ true → all_present flags architecture_x86_64_v1 ≡ true
  pub v2 : flags Feature.ssse3 ≡ true → all_present flags architecture_x86_64_v2 ≡ true
  pub v3 : flags Feature.osxsave ≡ true → all_present flags architecture_x86_64_v3 ≡ true
  pub v4 : flags Feature.avx512vl ≡ true → all_present flags architecture_x86_64_v4 ≡ true

last_is_needed :
    (flags : Flags)
    → (all_present flags architecture_x86_64_v1 ≡ true → flags Feature.sse2 ≡ true)
      × (all_present flags architecture_x86_64_v2 ≡ true → flags Feature.ssse3 ≡ true)
      × (all_present flags architecture_x86_64_v3 ≡ true → flags Feature.osxsave ≡ true)
      × (all_present flags architecture_x86_64_v4 ≡ true → flags Feature.avx512vl ≡ true)
unfolding all_present
last_is_needed flags = (ground arith, ground arith, ground arith, ground arith)

both_ways : (a b : Bool) → (a ≡ true → b ≡ true) → (b ≡ true → a ≡ true) → a ≡ b
both_ways true b f g = sym (f refl)
both_ways false true f g = g refl
both_ways false false f g = refl

ladder :
    (b1 b2 b3 b4 : Bool)
    → (if not b1
        then level_unknown
        else if not b2
        then x86_64_v1
        else if not b3
        then x86_64_v2
        else if not b4
        then x86_64_v3
        else x86_64_v4)
      ≡ (if b1
          then (if b2
              then (if b3 then (if b4 then x86_64_v4 else x86_64_v3) else x86_64_v2)
              else x86_64_v1)
          else level_unknown)
ladder b1 b2 b3 b4 = ground arith

-- On a 64-bit processor whose features come together row by row, the stored level is the last one
-- whose features, and those of all levels before it, are all there.
pub decode_architecture_version_x86-intended :
    (old : Bool) (id : CpuId)
    → id.flags Feature.lm ≡ true
    → ComeTogether id.flags
    → (decode_architecture_version_x86 old id).feature_level
      ≡ intended_level id.flags architecture_matchtable_x86_64 level_unknown
decode_architecture_version_x86-intended old id lm t =
    let needed = last_is_needed id.flags in
    decode_architecture_version_x86-by_last old id lm
    ∙ rw
        (
          both_ways _ _ needed.0 t.v1,
          both_ways _ _ needed.1 t.v2,
          both_ways _ _ needed.2 t.v3,
          both_ways _ _ needed.3 t.v4,
        )
        (ladder (id.flags Feature.sse2) (id.flags Feature.ssse3) (id.flags Feature.osxsave)
          (id.flags Feature.avx512vl))

-- One of the levels from x86-64-v1 on.
abbrev pub IsV1OrAbove : CpuFeatureLevel → Type 0
IsV1OrAbove level =
    (level ≡ x86_64_v1) ⊎ ((level ≡ x86_64_v2) ⊎ ((level ≡ x86_64_v3) ⊎ (level ≡ x86_64_v4)))

above_v1 :
    (b2 b3 b4 : Bool)
    → IsV1OrAbove (
        if not b2
        then x86_64_v1
        else if not b3
        then x86_64_v2
        else if not b4
        then x86_64_v3
        else x86_64_v4)
above_v1 false b3 b4 = inl refl
above_v1 true false b4 = inr (inl refl)
above_v1 true true false = inr (inr (inl refl))
above_v1 true true true = inr (inr (inr refl))

-- On a 64-bit processor that announces SSE2, but lacks another feature of the first level, the stored
-- level is one from x86-64-v1 on, where the tables mean no level at all.
pub decode_architecture_version_x86-too_high :
    (old : Bool) (id : CpuId)
    → id.flags Feature.lm ≡ true
    → id.flags Feature.sse2 ≡ true
    → all_present id.flags architecture_x86_64_v1 ≡ false
    → IsV1OrAbove (decode_architecture_version_x86 old id).feature_level
      × (intended_level id.flags architecture_matchtable_x86_64 level_unknown ≡ level_unknown)
decode_architecture_version_x86-too_high old id lm sse2 lacks = (
  subst (λ level. IsV1OrAbove level) (sym (decode_architecture_version_x86-by_last old id lm))
      (rw sse2
        (above_v1 (id.flags Feature.ssse3) (id.flags Feature.osxsave) (id.flags Feature.avx512vl))),
  rw lacks,
)
