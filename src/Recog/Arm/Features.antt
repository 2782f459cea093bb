-- ===== src/Recog/Arm/Features.antt =====
-- `load_arm_features` of libcpuid/recog_arm.c and the functions that it calls for the features that do
-- not follow the scheme of the ID registers.
pub mod Calls
pub mod Bounds
pub mod Tally
pub mod Laws
use libcpuid.Base.{
  ℕ, Bool, true, false, ◌&&◌, ◌||◌, not, List, [], ◌∷◌, leb, ◌==◌, if◌then◌else◌, extracts_bits,
}
use libcpuid.Data.Feature
use libcpuid.Data.Kinds
use libcpuid.Data.Kinds.{CpuFeatureLevel, level_eq, level_unknown}
use libcpuid.Data.Raw.{RawData, reg}
use libcpuid.Recog.Arm.Registers.{ArmFeatureMap}
use libcpuid.Recog.Arm.FeaturesMap.{features_map}
use libcpuid.Recog.Arm.Status.{ArmStatus, set_feature_status, match_arm_features}

unfoldable pub is_aarch64_mode : RawData → Bool
is_aarch64_mode raw =
    not (reg raw.arm_id_aa64afr 0 == 0)
    || not (reg raw.arm_id_aa64dfr 0 == 0)
    || not (reg raw.arm_id_aa64isar 0 == 0)
    || not (reg raw.arm_id_aa64mmfr 0 == 0)
    || not (reg raw.arm_id_aa64pfr 0 == 0)

unfoldable pub load_arm_feature_pauth : ArmStatus → ArmStatus
load_arm_feature_pauth status =
    let flags = status.id.flags in
    set_feature_status (flags Feature.pacimp || flags Feature.pacqarma3 || flags Feature.pacqarma5)
      Feature.pauth Kinds.arm_v8_2_a Kinds.arm_v8_3_a status

unfoldable pub load_arm_feature_mpam : RawData → ArmStatus → ArmStatus
load_arm_feature_mpam raw status =
    let mpam = extracts_bits (reg raw.arm_id_aa64pfr 0) 43 40 in
    let mpam_frac = extracts_bits (reg raw.arm_id_aa64pfr 1) 19 16 in
    if not (mpam == 0) || not (mpam_frac == 0)
    then set_feature_status (mpam == 1 && mpam_frac == 1) Feature.mpamv1p1 Kinds.arm_v8_5_a
        level_unknown
        (set_feature_status (mpam == 0 && mpam_frac == 1) Feature.mpamv0p1 Kinds.arm_v8_5_a
          level_unknown
          (set_feature_status true Feature.mpam Kinds.arm_v8_2_a level_unknown status))
    else status

-- The three features that depend on `ID_AA64PFR1_EL1.MTE`.
unfoldable pub load_mte_fields : RawData → ArmStatus → ArmStatus
load_mte_fields raw status =
    let mte_frac = extracts_bits (reg raw.arm_id_aa64pfr 1) 43 40 in
    let mtex = extracts_bits (reg raw.arm_id_aa64pfr 1) 55 52 in
    set_feature_status (mtex == 1) Feature.mte_no_address_tags Kinds.arm_v8_7_a level_unknown (
      set_feature_status (mtex == 1) Feature.mte_canonical_tags Kinds.arm_v8_7_a level_unknown (
        set_feature_status (mte_frac == 0) Feature.mte_async Kinds.arm_v8_5_a level_unknown status))

-- MTE4, of the flags that are set by then.
unfoldable pub load_mte4 : ArmStatus → ArmStatus
load_mte4 status =
    let flags = status.id.flags in
    set_feature_status
      (flags Feature.mte_canonical_tags
        && flags Feature.mte_no_address_tags
        && flags Feature.mte_tagged_far
        && flags Feature.mte_store_only)
      Feature.mte4 Kinds.arm_v8_7_a level_unknown status

unfoldable pub load_arm_feature_mte4 : RawData → ArmStatus → ArmStatus
load_arm_feature_mte4 raw status = load_mte4 (
    if leb 2 (extracts_bits (reg raw.arm_id_aa64pfr 1) 11 8)
    then load_mte_fields raw status
    else status)

-- The features that the level of the architecture implies.
unfoldable pub load_thumb_jazelle : ArmStatus → ArmStatus
load_thumb_jazelle status =
    let level = status.id.feature_level in
    let with_thumb =
      set_feature_status
        (level_eq level Kinds.arm_v4t
          || level_eq level Kinds.arm_v5t
          || level_eq level Kinds.arm_v5te
          || level_eq level Kinds.arm_v5tej)
        Feature.thumb level_unknown level_unknown status in
    set_feature_status (level_eq with_thumb.id.feature_level Kinds.arm_v5tej) Feature.jazelle
      level_unknown level_unknown with_thumb

-- The loop over `features_map`; an entry whose `ver_optional` is 0 is skipped.
unfoldable pub match_table : Bool → RawData → List ArmFeatureMap → ArmStatus → ArmStatus
match_table is_aarch64 raw [] status = status
match_table is_aarch64 raw (m ∷ table) status = match_table is_aarch64 raw table (
    if level_eq m.ver_optional Kinds.i386
    then status
    else match_arm_features is_aarch64 raw m status)

unfoldable pub load_arm_features : RawData → ArmStatus → ArmStatus
load_arm_features raw status = load_arm_feature_mte4 raw (
    load_arm_feature_mpam raw (
      load_arm_feature_pauth
        (match_table (is_aarch64_mode raw) raw features_map (load_thumb_jazelle status))))
