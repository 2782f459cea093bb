-- ===== src/Recog/Arm/Status/Counts.antt =====
-- The counters of a level after one call of `set_feature_status`.
use libcpuid.Base.{
  ◌+◌, Bool, true, false, ◌&&◌, ◌≡◌, inl, inr, refl, ◌∙◌, if◌then◌else◌, u8, Bool-cases,
}
use libcpuid.Data.Feature.{CpuFeature}
use libcpuid.Data.Kinds.{CpuFeatureLevel, level_eq}
use libcpuid.Recog.Arm.Status.{
  LevelCounts, ArmStatus, is_known, count_optional, count_mandatory, set_feature_status,
}

-- The two counters of a level, where the other one and the levels beside it stay.
abbrev pub hits : CpuFeatureLevel → CpuFeatureLevel → Bool
hits from l = is_known from && level_eq l from

optional-count_optional :
    (from : CpuFeatureLevel) (c : LevelCounts) (l : CpuFeatureLevel)
    → (count_optional from c l).optional
      ≡ (if hits from l then u8 ((c l).optional + 1) else (c l).optional)
unfolding count_optional
optional-count_optional from c l = elim (Bool-cases (is_known from)) [
  | inl k ↦ elim (Bool-cases (level_eq l from)) [ inl e ↦ rw (k, e) refl | inr e ↦ rw (k, e) refl ]
  | inr k ↦ rw k refl
]

mandatory-count_optional :
    (from : CpuFeatureLevel) (c : LevelCounts) (l : CpuFeatureLevel)
    → (count_optional from c l).mandatory ≡ (c l).mandatory
unfolding count_optional
mandatory-count_optional from c l = elim (Bool-cases (is_known from)) [
  | inl k ↦ elim (Bool-cases (level_eq l from)) [ inl e ↦ rw (k, e) refl | inr e ↦ rw (k, e) refl ]
  | inr k ↦ rw k refl
]

mandatory-count_mandatory :
    (from : CpuFeatureLevel) (c : LevelCounts) (l : CpuFeatureLevel)
    → (count_mandatory from c l).mandatory
      ≡ (if hits from l then u8 ((c l).mandatory + 1) else (c l).mandatory)
unfolding count_mandatory
mandatory-count_mandatory from c l = elim (Bool-cases (is_known from)) [
  | inl k ↦ elim (Bool-cases (level_eq l from)) [ inl e ↦ rw (k, e) refl | inr e ↦ rw (k, e) refl ]
  | inr k ↦ rw k refl
]

optional-count_mandatory :
    (from : CpuFeatureLevel) (c : LevelCounts) (l : CpuFeatureLevel)
    → (count_mandatory from c l).optional ≡ (c l).optional
unfolding count_mandatory
optional-count_mandatory from c l = elim (Bool-cases (is_known from)) [
  | inl k ↦ elim (Bool-cases (level_eq l from)) [ inl e ↦ rw (k, e) refl | inr e ↦ rw (k, e) refl ]
  | inr k ↦ rw k refl
]

-- Both counts of a level after both steps.
optional-both :
    (o m : CpuFeatureLevel) (c : LevelCounts) (l : CpuFeatureLevel)
    → (count_mandatory m (count_optional o c) l).optional
      ≡ (if hits o l then u8 ((c l).optional + 1) else (c l).optional)
optional-both o m c l =
    optional-count_mandatory m (count_optional o c) l ∙ optional-count_optional o c l

mandatory-both :
    (o m : CpuFeatureLevel) (c : LevelCounts) (l : CpuFeatureLevel)
    → (count_mandatory m (count_optional o c) l).mandatory
      ≡ (if hits m l then u8 ((c l).mandatory + 1) else (c l).mandatory)
mandatory-both o m c l =
    mandatory-count_mandatory m (count_optional o c) l ∙ rw (mandatory-count_optional o c l) refl

-- The counters of a status after the call.
pub present_optional :
    (p : Bool) (f : CpuFeature) (o m : CpuFeatureLevel) (s : ArmStatus) (l : CpuFeatureLevel)
    → ((set_feature_status p f o m s).ext_status.present l).optional ≡ (
        if p && hits o l
        then u8 ((s.ext_status.present l).optional + 1)
        else (s.ext_status.present l).optional)
unfolding set_feature_status
present_optional true f o m s l = elim (Bool-cases (is_known o)) [
  | inl k ↦ rw k (optional-both o m s.ext_status.present l ∙ rw k refl)
  | inr k ↦ rw k refl
]
present_optional false f o m s l = refl

pub present_mandatory :
    (p : Bool) (f : CpuFeature) (o m : CpuFeatureLevel) (s : ArmStatus) (l : CpuFeatureLevel)
    → ((set_feature_status p f o m s).ext_status.present l).mandatory ≡ (
        if p && (is_known o && hits m l)
        then u8 ((s.ext_status.present l).mandatory + 1)
        else (s.ext_status.present l).mandatory)
unfolding set_feature_status
present_mandatory true f o m s l = elim (Bool-cases (is_known o)) [
  | inl k ↦ rw k (mandatory-both o m s.ext_status.present l)
  | inr k ↦ rw k refl
]
present_mandatory false f o m s l = refl

pub total_optional :
    (p : Bool) (f : CpuFeature) (o m : CpuFeatureLevel) (s : ArmStatus) (l : CpuFeatureLevel)
    → ((set_feature_status p f o m s).ext_status.total l).optional ≡ (
        if hits o l
        then u8 ((s.ext_status.total l).optional + 1)
        else (s.ext_status.total l).optional)
unfolding set_feature_status
total_optional true f o m s l = optional-both o m s.ext_status.total l
total_optional false f o m s l = optional-both o m s.ext_status.total l

pub total_mandatory :
    (p : Bool) (f : CpuFeature) (o m : CpuFeatureLevel) (s : ArmStatus) (l : CpuFeatureLevel)
    → ((set_feature_status p f o m s).ext_status.total l).mandatory ≡ (
        if hits m l
        then u8 ((s.ext_status.total l).mandatory + 1)
        else (s.ext_status.total l).mandatory)
unfolding set_feature_status
total_mandatory true f o m s l = mandatory-both o m s.ext_status.total l
total_mandatory false f o m s l = mandatory-both o m s.ext_status.total l
