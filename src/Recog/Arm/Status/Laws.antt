-- ===== src/Recog/Arm/Status/Laws.antt =====
-- What one call of `set_feature_status` does to the flags and to what is present of a level.
use libcpuid.Base.{
  ℕ, suc, ◌+◌, ◌≤◌, ◌<◌, Bool, true, false, ◌||◌, ◌&&◌, ◌≡◌, refl, ◌∙◌, arith, ◌==◌, if◌then◌else◌,
  u8,
}
use libcpuid.Data.Feature.{CpuFeature}
use libcpuid.Data.Kinds.{CpuFeatureLevel}
use libcpuid.Recog.Arm.Status.{ArmStatus, is_known, set_feature_status}
use libcpuid.Recog.Arm.Status.Counts.{
  hits, present_optional, present_mandatory, total_optional, total_mandatory,
}

-- A feature's flag is set if the feature is present, no flag is cleared, and nothing but the flags of
-- the processor changes.
pub flags-set_feature_status :
    (present : Bool) (f : CpuFeature) (o m : CpuFeatureLevel) (status : ArmStatus) (g : CpuFeature)
    → (set_feature_status present f o m status).id.flags g
      ≡ ((present && f == g) || status.id.flags g)
unfolding set_feature_status
flags-set_feature_status true f o m status g = ground arith
flags-set_feature_status false f o m status g = refl

pub rest-set_feature_status :
    (present : Bool) (f : CpuFeature) (o m : CpuFeatureLevel) (status : ArmStatus)
    → record (set_feature_status present f o m status).id { flags = status.id.flags } ≡ status.id
unfolding set_feature_status
rest-set_feature_status true f o m status = refl
rest-set_feature_status false f o m status = refl

-- What is present of a level is at most what there is, and that is at most `n`.
pub record IsWithin (n : ℕ) (status : ArmStatus) : Type 0 where
  pub optional :
      (l : CpuFeatureLevel)
      → (status.ext_status.present l).optional ≤ (status.ext_status.total l).optional
  pub mandatory :
      (l : CpuFeatureLevel)
      → (status.ext_status.present l).mandatory ≤ (status.ext_status.total l).mandatory
  pub optional_bound : (l : CpuFeatureLevel) → (status.ext_status.total l).optional ≤ n
  pub mandatory_bound : (l : CpuFeatureLevel) → (status.ext_status.total l).mandatory ≤ n

-- One more of `a` and `b`, of which only the first may be held back.
step_le :
    (p q : Bool) (a b n a' b' : ℕ)
    → a ≤ b
    → b ≤ n
    → n < 255
    → a' ≡ (if p && q then u8 (a + 1) else a)
    → b' ≡ (if q then u8 (b + 1) else b)
    → (a' ≤ b') × (b' ≤ suc n)
step_le p q a b n a' b' h k lt e f = ground (arith, h, k, lt, e, f)

and_turn : (a b c : Bool) → (a && (b && c)) ≡ ((a && b) && c)
and_turn a b c = ground arith

-- The counters do not wrap on the next call.
pub set_feature_status-IsWithin :
    (n : ℕ) (p : Bool) (f : CpuFeature) (o m : CpuFeatureLevel) (s : ArmStatus)
    → n < 255
    → IsWithin n s
    → IsWithin (suc n) (set_feature_status p f o m s)
set_feature_status-IsWithin n p f o m s lt w = record {
  optional = λ l. (opt l).0;
  mandatory = λ l. (mand l).0;
  optional_bound = λ l. (opt l).1;
  mandatory_bound = λ l. (mand l).1;
}
  where
    after : ArmStatus
    after = set_feature_status p f o m s

    opt :
        (l : CpuFeatureLevel)
        → ((after.ext_status.present l).optional ≤ (after.ext_status.total l).optional)
          × ((after.ext_status.total l).optional ≤ suc n)
    opt l =
        step_le p (hits o l) _ _ n _ _ (w.optional l) (w.optional_bound l) lt
          (present_optional p f o m s l) (total_optional p f o m s l)

    mand :
        (l : CpuFeatureLevel)
        → ((after.ext_status.present l).mandatory ≤ (after.ext_status.total l).mandatory)
          × ((after.ext_status.total l).mandatory ≤ suc n)
    mand l =
        step_le (p && is_known o) (hits m l) _ _ n _ _ (w.mandatory l) (w.mandatory_bound l) lt
          (present_mandatory p f o m s l ∙ rw (and_turn p (is_known o) (hits m l)) refl)
          (total_mandatory p f o m s l)

-- A level of which a mandatory feature is missing.
abbrev pub Lacks : CpuFeatureLevel → ArmStatus → Type 0
Lacks l s = (s.ext_status.present l).mandatory < (s.ext_status.total l).mandatory

-- It keeps missing.
step_lt :
    (p q : Bool) (a b a' b' : ℕ)
    → a < b
    → b < 255
    → a' ≡ (if p && q then u8 (a + 1) else a)
    → b' ≡ (if q then u8 (b + 1) else b)
    → a' < b'
step_lt p q a b a' b' h k e f = ground (arith, h, k, e, f)

pub set_feature_status-Lacks :
    (n : ℕ) (p : Bool) (f : CpuFeature) (o m : CpuFeatureLevel) (s : ArmStatus)
    (l : CpuFeatureLevel)
    → n < 255
    → IsWithin n s
    → Lacks l s
    → Lacks l (set_feature_status p f o m s)
set_feature_status-Lacks n p f o m s l lt w h =
    step_lt (p && is_known o) (hits m l) _ _ _ _ h (omega (arith, w.mandatory_bound l))
      (present_mandatory p f o m s l ∙ rw (and_turn p (is_known o) (hits m l)) refl)
      (total_mandatory p f o m s l)

-- A feature that is mandatory from a level and is not there leaves the level without it.
step_absent :
    (a b n a' b' : ℕ) (h : Bool)
    → a ≤ b
    → b ≤ n
    → n < 255
    → h ≡ true
    → a' ≡ a
    → b' ≡ (if h then u8 (b + 1) else b)
    → a' < b'
step_absent a b n a' b' h le k lt t e f = ground (arith, le, k, lt, t, e, f)

pub absent-Lacks :
    (n : ℕ) (f : CpuFeature) (o m : CpuFeatureLevel) (s : ArmStatus)
    → n < 255
    → IsWithin n s
    → hits m m ≡ true
    → Lacks m (set_feature_status false f o m s)
absent-Lacks n f o m s lt w known =
    step_absent _ _ n _ _ (hits m m) (w.mandatory m) (w.mandatory_bound m) lt known
      (present_mandatory false f o m s m) (total_mandatory false f o m s m)
