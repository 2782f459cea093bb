-- ===== src/Recog/Arm/Features/Laws.antt =====
-- Which flags `load_arm_features` sets, and which of them never in AArch32.
use libcpuid.Base.{
  Bool, true, false, not, ◌&&◌, ◌||◌, List, [], ◌∷◌, ◌≡◌, refl, ap, sym, ◌∙◌, arith, ◌==◌, ==_iff,
  Bool-cases, inl, inr, if◌then◌else◌,
}
use libcpuid.Data.Feature
use libcpuid.Data.Feature.{CpuFeature}
use libcpuid.Data.Kinds.{level_eq, i386}
use libcpuid.Data.Raw.{RawData}
use libcpuid.Recog.Arm.Registers.{ArmFeatureMap}
use libcpuid.Recog.Arm.FeaturesMap.{features_map}
use libcpuid.Recog.Arm.Status.{ArmStatus, match_arm_features, reg_value}
use libcpuid.Recog.Arm.Status.Announces.{announces, match_arm_features-announces}
use libcpuid.Recog.Arm.Status.Laws.{flags-set_feature_status}
use libcpuid.Recog.Arm.Features.Calls.{Calls-flags}
use libcpuid.Recog.Arm.Features.Bounds.{
  is_special, is_one_of, all_used, features_map_used, load_thumb_jazelle-Calls, behind_table-Calls,
}
use libcpuid.Recog.Arm.Features.{
  is_aarch64_mode, load_thumb_jazelle, match_table, load_arm_features,
}

-- Some entry of the table is for the feature and its fields announce it.
abbrev pub arm_announced : Bool → RawData → List ArmFeatureMap → CpuFeature → Bool
arm_announced is_aarch64 raw [] f = false
arm_announced is_aarch64 raw (m ∷ table) f =
    (m.feature == f && announces is_aarch64 raw m.fields) || arm_announced is_aarch64 raw table f

flags_step : (p e a s r t : Bool) → t ≡ (a || r) → r ≡ ((p && e) || s) → t ≡ (((e && p) || a) || s)
flags_step p e a s r t h k = ground (arith, h, k)

used_head :
    (m : ArmFeatureMap) (table : List ArmFeatureMap)
    → all_used (m ∷ table) ≡ true
    → level_eq m.ver_optional i386 ≡ false
used_head m table h = ground (arith, h)

used_tail :
    (m : ArmFeatureMap) (table : List ArmFeatureMap)
    → all_used (m ∷ table) ≡ true
    → all_used table ≡ true
used_tail m table h = ground (arith, h)

match_table-flags :
    (is_aarch64 : Bool) (raw : RawData) (table : List ArmFeatureMap) (s : ArmStatus)
    (f : CpuFeature)
    → all_used table ≡ true
    → (match_table is_aarch64 raw table s).id.flags f
      ≡ (arm_announced is_aarch64 raw table f || s.id.flags f)
unfolding match_table
match_table-flags a raw [] s f h = refl
match_table-flags a raw (m ∷ table) s f h =
    let after = if level_eq m.ver_optional i386 then s else match_arm_features a raw m s in
    let step : after.id.flags f ≡ ((announces a raw m.fields && m.feature == f) || s.id.flags f) =
      rw (used_head m table h) (
        ap (λ (x : ArmStatus). x.id.flags f) (match_arm_features-announces a raw m s)
        ∙ flags-set_feature_status (announces a raw m.fields) m.feature m.ver_optional
            m.ver_mandatory s f) in
    flags_step (announces a raw m.fields) (m.feature == f) (arm_announced a raw table f)
      (s.id.flags f) (after.id.flags f) _
      (match_table-flags a raw table after f (used_tail m table h)) step

-- After `load_arm_features` the flag of a feature that only the table sets is set exactly if it was set
-- before or the table announces it in the mode of the processor.
pub load_arm_features-announced :
    (raw : RawData) (s : ArmStatus) (f : CpuFeature)
    → is_special f ≡ false
    → (load_arm_features raw s).id.flags f
      ≡ (arm_announced (is_aarch64_mode raw) raw features_map f || s.id.flags f)
unfolding load_arm_features
load_arm_features-announced raw s f h =
    let mode = is_aarch64_mode raw in
    Calls-flags 8 f h (behind_table-Calls raw _)
    ∙ (match_table-flags mode raw features_map (load_thumb_jazelle s) f features_map_used
        ∙ ap (λ b. arm_announced mode raw features_map f || b)
            (Calls-flags 2 f h (load_thumb_jazelle-Calls s)))

-- The features whose AArch32 field stands in `features_map` behind one of AArch64 only.
abbrev pub hidden_features : List CpuFeature
hidden_features =
    Feature.ets2 ∷ Feature.pmuv3 ∷ Feature.ntlbpa ∷ Feature.pan ∷ Feature.pmuv3p1 ∷ Feature.rdm
    ∷ Feature.vhe ∷ Feature.hpds2 ∷ Feature.lsmaoc ∷ Feature.pan2 ∷ Feature.ttcnp ∷ Feature.xnx
    ∷ Feature.ccidx ∷ Feature.fcma ∷ Feature.jscvt ∷ Feature.amuv1 ∷ Feature.dit ∷ Feature.dotprod
    ∷ Feature.fhm ∷ Feature.pmuv3p4 ∷ Feature.trf ∷ Feature.csv2 ∷ Feature.evt ∷ Feature.pmuv3p5
    ∷ Feature.sb ∷ Feature.specres ∷ Feature.amuv1p1 ∷ Feature.hpmn0 ∷ Feature.mtpmu
    ∷ Feature.pmuv3p7 ∷ Feature.pmuv3p8 ∷ Feature.pmuv3p9 ∷ Feature.specres2 ∷ Feature.ets3 ∷ []

abbrev every : (CpuFeature → Bool) → List CpuFeature → Bool
every p [] = true
every p (g ∷ gs) = p g && every p gs

every_sound :
    (p : CpuFeature → Bool) (gs : List CpuFeature) (f : CpuFeature)
    → every p gs ≡ true
    → is_one_of gs f ≡ true
    → p f ≡ true
every_sound p [] f h one = absurd (ground (arith, one))
every_sound p (g ∷ gs) f h one = elim (Bool-cases (g == f)) [
  | inl e ↦ ap p (sym ((==_iff g f).0 e)) ∙ ground (arith, h)
  | inr e ↦ every_sound p gs f (ground (arith, h)) (ground (arith, e, one))
]

-- Such a feature is neither announced in AArch32 nor set outside the table.
abbrev silent : RawData → CpuFeature → Bool
silent raw f = not (is_special f) && not (arm_announced false raw features_map f)

hidden_silent : (raw : RawData) → every (silent raw) hidden_features ≡ true
unfolding reg_value
hidden_silent raw = refl

silent_first : (a b : Bool) → (not a && not b) ≡ true → a ≡ false
silent_first a b h = ground (arith, h)

silent_second : (a b c : Bool) → (not a && not b) ≡ true → (b || c) ≡ c
silent_second a b c h = ground (arith, h)

-- On a processor in AArch32 mode `load_arm_features` leaves the flags of the 34 hidden features as they were,
-- whatever its AArch32 ID registers hold.
pub load_arm_features-hidden :
    (raw : RawData) (s : ArmStatus) (f : CpuFeature)
    → is_aarch64_mode raw ≡ false
    → is_one_of hidden_features f ≡ true
    → (load_arm_features raw s).id.flags f ≡ s.id.flags f
load_arm_features-hidden raw s f mode one =
    let quiet = every_sound (silent raw) hidden_features f (hidden_silent raw) one in
    load_arm_features-announced raw s f (silent_first _ _ quiet)
    ∙ rw mode
        (silent_second (is_special f) (arm_announced false raw features_map f) (s.id.flags f) quiet)
