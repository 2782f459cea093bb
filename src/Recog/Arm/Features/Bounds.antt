-- ===== src/Recog/Arm/Features/Bounds.antt =====
-- The counters of the levels after `load_arm_features`: a level lacks a
-- mandatory feature if one that `features_map` lists is not announced.
use libcpuid.Base.{
  ℕ, zero, suc, Bool, true, false, not, ◌&&◌, ◌||◌, List, [], ◌∷◌, ◌≡◌, refl, subst, arith, length,
  get_elem?, Option, none, some, ◌==◌, if◌then◌else◌, some-injective, none-ne-some,
}
use libcpuid.Data.Feature
use libcpuid.Data.Feature.{CpuFeature}
use libcpuid.Data.Kinds.{CpuFeatureLevel, value_eq, level_value, level_eq, i386}
use libcpuid.Data.Raw.{RawData}
use libcpuid.Data.CpuId.{CpuId}
use libcpuid.Recog.Arm.Registers.{ArmFeatureMap}
use libcpuid.Recog.Arm.FeaturesMap.{features_map}
use libcpuid.Recog.Arm.Status.{ArmStatus, no_counts, is_known}
use libcpuid.Recog.Arm.Status.Announces.{announces}
use libcpuid.Recog.Arm.Status.Laws.{IsWithin, Lacks}
use libcpuid.Recog.Arm.Features.{
  is_aarch64_mode, load_arm_feature_pauth, load_arm_feature_mpam, load_mte_fields, load_mte4,
  load_arm_feature_mte4, load_thumb_jazelle, load_arm_features,
}
use libcpuid.Recog.Arm.Features.Calls.{
  Calls, done, call, append-Calls, widen-Calls, any_feature, match_table-Calls, match_table-Lacks,
  Calls-IsWithin, Calls-Lacks,
}

-- The features that `load_arm_features` also sets outside the table.
abbrev pub special_features : List CpuFeature
special_features =
    Feature.thumb ∷ Feature.jazelle ∷ Feature.pauth ∷ Feature.mpam ∷ Feature.mpamv0p1
    ∷ Feature.mpamv1p1 ∷ Feature.mte_async ∷ Feature.mte_canonical_tags
    ∷ Feature.mte_no_address_tags ∷ Feature.mte4 ∷ []

abbrev pub is_one_of : List CpuFeature → CpuFeature → Bool
is_one_of [] f = false
is_one_of (g ∷ gs) f = g == f || is_one_of gs f

abbrev pub is_special : CpuFeature → Bool
is_special f = is_one_of special_features f

-- A sequence of calls under a test.
if-Calls :
    {may : CpuFeature → Bool} {n : ℕ} {s t : ArmStatus} (b : Bool)
    → Calls may n s t
    → Calls may n s (if b then t else s)
if-Calls true c = c
if-Calls false c = done

pub load_thumb_jazelle-Calls : (s : ArmStatus) → Calls is_special 2 s (load_thumb_jazelle s)
unfolding load_thumb_jazelle
load_thumb_jazelle-Calls s = call _ _ _ _ refl (call _ _ _ _ refl done)

load_arm_feature_pauth-Calls : (s : ArmStatus) → Calls is_special 1 s (load_arm_feature_pauth s)
unfolding load_arm_feature_pauth
load_arm_feature_pauth-Calls s = call _ _ _ _ refl done

load_arm_feature_mpam-Calls :
    (raw : RawData) (s : ArmStatus) → Calls is_special 3 s (load_arm_feature_mpam raw s)
unfolding load_arm_feature_mpam
load_arm_feature_mpam-Calls raw s =
    if-Calls _ (call _ _ _ _ refl (call _ _ _ _ refl (call _ _ _ _ refl done)))

load_arm_feature_mte4-Calls :
    (raw : RawData) (s : ArmStatus) → Calls is_special 4 s (load_arm_feature_mte4 raw s)
unfolding load_arm_feature_mte4 load_mte_fields load_mte4
load_arm_feature_mte4-Calls raw s =
    append-Calls {n = 3} {k = 1}
      (if-Calls _ (call _ _ _ _ refl (call _ _ _ _ refl (call _ _ _ _ refl done))))
      (call _ _ _ _ refl done)

-- What follows the table.
pub behind_table-Calls :
    (raw : RawData) (s : ArmStatus)
    → Calls is_special 8 s
        (load_arm_feature_mte4 raw (load_arm_feature_mpam raw (load_arm_feature_pauth s)))
behind_table-Calls raw s = append-Calls {n = 1} {k = 7} (load_arm_feature_pauth-Calls s) (
    append-Calls {n = 3} {k = 4} (load_arm_feature_mpam-Calls raw (load_arm_feature_pauth s))
      (load_arm_feature_mte4-Calls raw _))

pub length-features_map : length features_map ≡ 244
length-features_map = refl

pub load_arm_features-Calls :
    (raw : RawData) (s : ArmStatus) → Calls any_feature 254 s (load_arm_features raw s)
unfolding load_arm_features
load_arm_features-Calls raw s =
    append-Calls {n = 2} {k = 252} (widen-Calls (load_thumb_jazelle-Calls s)) (
      append-Calls {n = 244} {k = 8}
        (match_table-Calls (is_aarch64_mode raw) raw features_map (load_thumb_jazelle s))
        (widen-Calls (behind_table-Calls raw _)))

-- `ext_status` as `cpuid_identify_arm` clears it.
abbrev pub start : CpuId → ArmStatus
start id = record { id = id; ext_status = record { present = no_counts; total = no_counts } }

pub start-IsWithin : (id : CpuId) → IsWithin 0 (start id)
start-IsWithin id = record {
  optional = λ l. omega arith;
  mandatory = λ l. omega arith;
  optional_bound = λ l. omega arith;
  mandatory_bound = λ l. omega arith;
}

-- Whatever the processor, load_arm_features on cleared counters ends with counters of at most 254, and no
-- level has more features present than it has in total.
pub load_arm_features-IsWithin :
    (raw : RawData) (id : CpuId) → IsWithin 254 (load_arm_features raw (start id))
load_arm_features-IsWithin raw id =
    Calls-IsWithin 254 0 (omega arith) (load_arm_features-Calls raw (start id)) (start-IsWithin id)

value_eq_refl : (o : Option ℕ) → value_eq o o ≡ true
value_eq_refl none = refl
value_eq_refl (some v) = ground arith

level_eq_refl : (l : CpuFeatureLevel) → level_eq l l ≡ true
level_eq_refl l = value_eq_refl (level_value l)

-- No entry of the table has the level 0 that would leave it out.
abbrev pub all_used : List ArmFeatureMap → Bool
all_used [] = true
all_used (m ∷ table) = not (level_eq m.ver_optional i386) && all_used table

all_used_sound :
    (table : List ArmFeatureMap) (k : ℕ) (m : ArmFeatureMap)
    → all_used table ≡ true
    → get_elem? table k ≡ some m
    → level_eq m.ver_optional i386 ≡ false
all_used_sound [] k m h at = absurd (none-ne-some _ at)
all_used_sound (m' ∷ table) zero m h at =
    subst (λ x. level_eq x.ver_optional i386 ≡ false) (some-injective _ _ at) (ground (arith, h))
all_used_sound (m' ∷ table) (suc k) m h at = all_used_sound table k m (ground (arith, h)) at

pub features_map_used : all_used features_map ≡ true
features_map_used = refl

pub load_arm_features-Lacks :
    (raw : RawData) (id : CpuId) (k : ℕ) (m : ArmFeatureMap)
    → get_elem? features_map k ≡ some m
    → is_known m.ver_mandatory ≡ true
    → announces (is_aarch64_mode raw) raw m.fields ≡ false
    → Lacks m.ver_mandatory (load_arm_features raw (start id))
unfolding load_arm_features
load_arm_features-Lacks raw id k m at known absent =
    let s = load_thumb_jazelle (start id) in
    let w =
      Calls-IsWithin 2 0 (omega arith) (load_thumb_jazelle-Calls (start id)) (start-IsWithin id) in
    let mode = is_aarch64_mode raw in
    Calls-Lacks 8 246 m.ver_mandatory (omega arith) (behind_table-Calls raw _)
      (Calls-IsWithin 244 2 (omega arith) (match_table-Calls mode raw features_map s) w)
      (match_table-Lacks mode raw features_map k 2 m s at
        (all_used_sound features_map k m features_map_used at)
        (rw (known, level_eq_refl m.ver_mandatory) refl) absent (omega (arith, length-features_map))
        w)
