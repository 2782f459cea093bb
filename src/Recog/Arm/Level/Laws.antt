-- ===== src/Recog/Arm/Level/Laws.antt =====
-- The level that `decode_arm_architecture_version_by_cpuid` chooses from the features.
use libcpuid.Base.{
  ℕ, ◌<◌, Bool, true, false, List, [], ◌∷◌, ◌≡◌, ◌⊎◌, refl, sym, subst, ◌&&◌, arith, get_elem?,
  some, ltb, Bool-cases, inl, inr,
}
use libcpuid.Data.Kinds
use libcpuid.Data.Kinds.{CpuFeatureLevel, level_unknown}
use libcpuid.Data.Raw.{RawData}
use libcpuid.Data.CpuId.{CpuId}
use libcpuid.Recog.Arm.Registers.{ArmFeatureMap}
use libcpuid.Recog.Arm.FeaturesMap.{features_map}
use libcpuid.Recog.Arm.Status.{is_known}
use libcpuid.Recog.Arm.Status.Announces.{announces}
use libcpuid.Recog.Arm.Status.Laws.{Lacks}
use libcpuid.Recog.Arm.Features.{is_aarch64_mode, load_arm_features}
use libcpuid.Recog.Arm.Features.Bounds.{start, load_arm_features-Lacks}
use libcpuid.Recog.Arm.Level.{
  architecture_arm_v8a, architecture_arm_v9a, lacks_mandatory, has_no_feature, last_compliant,
  has_some, extension_level,
}

-- The processor announces every feature that `features_map` makes mandatory from the level.
abbrev pub Supports : RawData → CpuFeatureLevel → Type 0
Supports raw level =
    (k : ℕ) (m : ArmFeatureMap)
    → get_elem? features_map k ≡ some m
    → m.ver_mandatory ≡ level
    → announces (is_aarch64_mode raw) raw m.fields ≡ true

-- `last` is `start`, or a level of the list that is supported like all levels in front of it.
pub data Reaches (raw : RawData)
    : CpuFeatureLevel → List CpuFeatureLevel → CpuFeatureLevel → Type 0 where
  here : {start : CpuFeatureLevel} {levels : List CpuFeatureLevel} → Reaches raw start levels start
  next :
      {start level last : CpuFeatureLevel} {levels : List CpuFeatureLevel}
      → Supports raw level
      → Reaches raw level levels last
      → Reaches raw start (level ∷ levels) last

-- All levels of a list are levels.
abbrev all_known : List CpuFeatureLevel → Bool
all_known [] = true
all_known (l ∷ levels) = is_known l && all_known levels

known_head :
    (l : CpuFeatureLevel) (levels : List CpuFeatureLevel)
    → all_known (l ∷ levels) ≡ true
    → is_known l ≡ true
known_head l levels h = ground arith

known_tail :
    (l : CpuFeatureLevel) (levels : List CpuFeatureLevel)
    → all_known (l ∷ levels) ≡ true
    → all_known levels ≡ true
known_tail l levels h = ground arith

less_than : (a b : ℕ) → a < b → ltb a b ≡ false → ⊥
less_than a b h k = ground arith

complete-Supports :
    (raw : RawData) (id : CpuId) (level : CpuFeatureLevel)
    → is_known level ≡ true
    → lacks_mandatory (load_arm_features raw (start id)).ext_status level ≡ false
    → Supports raw level
unfolding lacks_mandatory
complete-Supports raw id level known whole k m at e =
    elim (Bool-cases (announces (is_aarch64_mode raw) raw m.fields)) [
      | inl there ↦ there
      | inr gone ↦ absurd (
          less_than _ _
            (subst (λ l. Lacks l (load_arm_features raw (start id))) e
              (load_arm_features-Lacks raw id k m at (subst (λ l. is_known l ≡ true) (sym e) known)
                gone))
            whole)
    ]

last_compliant-Reaches :
    (raw : RawData) (id : CpuId) (levels : List CpuFeatureLevel) (l : CpuFeatureLevel)
    → all_known levels ≡ true
    → Reaches raw l levels (last_compliant (load_arm_features raw (start id)).ext_status levels l)
unfolding last_compliant
last_compliant-Reaches raw id [] l known = here
last_compliant-Reaches raw id (level ∷ levels) l known =
    let ext = (load_arm_features raw (start id)).ext_status in
    elim (Bool-cases (lacks_mandatory ext level)) [
      | inl k ↦ rw k here
      | inr k ↦ elim (Bool-cases (has_no_feature ext level)) [
        | inl e ↦ rw (k, e) here
        | inr e ↦
            rw (k, e)
              (next (complete-Supports raw id level (known_head level levels known) k)
                (last_compliant-Reaches raw id levels level (known_tail level levels known)))
      ]
    ]

known8 : all_known architecture_arm_v8a ≡ true
unfolding is_known
known8 = refl

known9 : all_known architecture_arm_v9a ≡ true
unfolding is_known
known9 = refl

-- Of two architectures the levels of one are gone through, or of none.
pub extension_level-Reaches :
    (raw : RawData) (id : CpuId)
    → Reaches raw level_unknown architecture_arm_v8a
        (extension_level (load_arm_features raw (start id)).ext_status)
      ⊎ Reaches raw level_unknown architecture_arm_v9a
          (extension_level (load_arm_features raw (start id)).ext_status)
unfolding extension_level
extension_level-Reaches raw id =
    let ext = (load_arm_features raw (start id)).ext_status in
    elim (Bool-cases (has_some ext Kinds.arm_v9_0_a)) [
      | inl n ↦ rw n (inr (last_compliant-Reaches raw id architecture_arm_v9a level_unknown known9))
      | inr n ↦ elim (Bool-cases (has_some ext Kinds.arm_v8_0_a)) [
        | inl e ↦
            rw (n, e)
              (inl (last_compliant-Reaches raw id architecture_arm_v8a level_unknown known8))
        | inr e ↦ rw (n, e) (inl here)
      ]
    ]
