-- ===== src/Recog/Arm/Status/Announces.antt =====
-- Whether the fields of an entry announce its feature, which is what `match_arm_features` records.
use libcpuid.Base.{
  Bool, false, ◌||◌, List, [], ◌∷◌, none, some, ◌≡◌, inl, inr, refl, ◌∙◌, arith, Option-cases,
}
use libcpuid.Data.Raw.{RawData}
use libcpuid.Recog.Arm.Registers.{ArmFeatureField, ArmFeatureMap}
use libcpuid.Recog.Arm.Status.{
  ArmStatus, set_feature_status, reg_value, field_is_present, any_field, match_arm_features,
}

-- Whether the fields of an entry announce its feature: one of those matches that stand in front of the
-- first one without a register of the processor's kind.
abbrev pub announces : Bool → RawData → List ArmFeatureField → Bool
announces is_aarch64 raw [] = false
announces is_aarch64 raw (field ∷ fields) = elim (reg_value is_aarch64 raw field) [
  | none ↦ false
  | some value ↦ field_is_present value field || announces is_aarch64 raw fields
]

or_turn : (a b c : Bool) → ((a || b) || c) ≡ (a || (b || c))
or_turn a b c = ground arith

or_false : (a : Bool) → a ≡ (a || false)
or_false a = ground arith

any_field-announces :
    (is_aarch64 : Bool) (raw : RawData) (fields : List ArmFeatureField) (present : Bool)
    → any_field is_aarch64 raw fields present ≡ (present || announces is_aarch64 raw fields)
unfolding any_field
any_field-announces a raw [] present = or_false present
any_field-announces a raw (field ∷ fields) present = elim (Option-cases (reg_value a raw field)) [
  | inl e ↦ rw (e, any_field, announces) (or_false present)
  | inr (v, e) ↦
      rw (e, any_field, announces)
        (any_field-announces a raw fields (present || field_is_present v field)
          ∙ or_turn present (field_is_present v field) (announces a raw fields))
]

pub match_arm_features-announces :
    (is_aarch64 : Bool) (raw : RawData) (m : ArmFeatureMap) (status : ArmStatus)
    → match_arm_features is_aarch64 raw m status
      ≡ set_feature_status
          (announces is_aarch64 raw m.fields)
          m.feature
          m.ver_optional
          m.ver_mandatory
          status
unfolding match_arm_features
match_arm_features-announces a raw m status = rw (any_field-announces a raw m.fields false) refl
