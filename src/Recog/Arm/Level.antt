-- ===== src/Recog/Arm/Level.antt =====
-- `decode_arm_architecture_version_by_midr` and `decode_arm_architecture_version_by_cpuid` of
-- libcpuid/recog_arm.c: the level of the ARM architecture.
pub mod Laws
use libcpuid.Base.{
  ℕ, Bool, true, false, ◌&&◌, ◌||◌, not, List, [], ◌∷◌, Option, none, some, ltb, ◌==◌,
  if◌then◌else◌, extracts_bits,
}
use libcpuid.Data.Kinds
use libcpuid.Data.Kinds.{CpuFeatureLevel, level_unknown}
use libcpuid.Data.Raw.{RawData, reg}
use libcpuid.Data.CpuId.{CpuId}
use libcpuid.Recog.Arm.Status.{ArmArchExtension, ArmStatus, is_known}

-- A row of `architecture_matchtable`.
pub record ArchitectureRow : Type 0 where
  pub raw_value : ℕ
  pub enum_value : CpuFeatureLevel

abbrev maps : ℕ → CpuFeatureLevel → ArchitectureRow
maps raw_value enum_value = record { raw_value = raw_value; enum_value = enum_value }

abbrev pub architecture_matchtable : List ArchitectureRow
architecture_matchtable =
    maps 0 level_unknown
    ∷ maps 1 Kinds.arm_v4
    ∷ maps 2 Kinds.arm_v4t
    ∷ maps 3 Kinds.arm_v5
    ∷ maps 4 Kinds.arm_v5t
    ∷ maps 5 Kinds.arm_v5te
    ∷ maps 6 Kinds.arm_v5tej
    ∷ maps 7 Kinds.arm_v6
    ∷ maps 8 level_unknown
    ∷ maps 9 level_unknown
    ∷ maps 10 level_unknown
    ∷ maps 11 level_unknown
    ∷ maps 12 Kinds.arm_v6_m
    ∷ maps 13 level_unknown
    ∷ maps 14 level_unknown
    ∷ []

-- The search; `none` is the `return false` behind it.
unfoldable pub find_architecture : ℕ → List ArchitectureRow → Option CpuFeatureLevel
find_architecture architecture [] = none
find_architecture architecture (r ∷ rows) =
    let later = find_architecture architecture rows in
    if architecture == r.raw_value then some r.enum_value else later

unfoldable pub decode_arm_architecture_version_by_midr : RawData → CpuId → Bool × CpuId
decode_arm_architecture_version_by_midr raw id =
    elim (find_architecture (extracts_bits raw.arm_midr 19 16) architecture_matchtable) [
      | none ↦ (false, id)
      | some level ↦ (true, record id { feature_level = level })
    ]

-- The tests in front of the label `found`.
unfoldable pub profile_level : RawData → CpuFeatureLevel
profile_level raw =
    let copdbg = extracts_bits (reg raw.arm_id_dfr 0) 3 0 in
    let simd = extracts_bits (reg raw.arm_id_isar 3) 7 4 in
    let psr_m = extracts_bits (reg raw.arm_id_isar 4) 27 24 in
    let vmsa = extracts_bits (reg raw.arm_id_mmfr 0) 3 0 in
    let pmsa = extracts_bits (reg raw.arm_id_mmfr 0) 7 4 in
    let ras = extracts_bits (reg raw.arm_id_pfr 0) 31 28 in
    let mprogmod = extracts_bits (reg raw.arm_id_pfr 1) 11 8 in
    if copdbg == 2 || copdbg == 3
    then (if psr_m == 1 then Kinds.arm_v6_m else Kinds.arm_v6)
    else if copdbg == 4 || copdbg == 5
    then (if psr_m == 1
        then (if simd == 3 then Kinds.arm_v7e_m else Kinds.arm_v7_m)
        else if not (vmsa == 0)
        then Kinds.arm_v7_a
        else if not (pmsa == 0)
        then Kinds.arm_v7_r
        else level_unknown)
    else if psr_m == 1 && mprogmod == 2
    then (if ras == 2 then Kinds.arm_v8_1_m else Kinds.arm_v8_0_m)
    else if not (pmsa == 0)
    then Kinds.arm_v8_0_r
    else level_unknown

abbrev pub architecture_arm_v8a : List CpuFeatureLevel
architecture_arm_v8a =
    Kinds.arm_v8_0_a ∷ Kinds.arm_v8_1_a ∷ Kinds.arm_v8_2_a ∷ Kinds.arm_v8_3_a ∷ Kinds.arm_v8_4_a
    ∷ Kinds.arm_v8_5_a ∷ Kinds.arm_v8_6_a ∷ Kinds.arm_v8_7_a ∷ Kinds.arm_v8_8_a ∷ Kinds.arm_v8_9_a
    ∷ []

abbrev pub architecture_arm_v9a : List CpuFeatureLevel
architecture_arm_v9a =
    Kinds.arm_v9_0_a ∷ Kinds.arm_v9_1_a ∷ Kinds.arm_v9_2_a ∷ Kinds.arm_v9_3_a ∷ Kinds.arm_v9_4_a
    ∷ []

-- The conditions of the two `break`s of the loop.
unfoldable pub lacks_mandatory : ArmArchExtension → CpuFeatureLevel → Bool
lacks_mandatory ext_status level =
    ltb (ext_status.present level).mandatory (ext_status.total level).mandatory

unfoldable pub has_no_feature : ArmArchExtension → CpuFeatureLevel → Bool
has_no_feature ext_status level =
    (ext_status.total level).mandatory == 0 && (ext_status.present level).optional == 0

unfoldable pub last_compliant :
    ArmArchExtension → List CpuFeatureLevel → CpuFeatureLevel → CpuFeatureLevel
last_compliant ext_status [] feature_level = feature_level
last_compliant ext_status (level ∷ levels) feature_level =
    let rest = last_compliant ext_status levels level in
    if lacks_mandatory ext_status level
    then feature_level
    else if has_no_feature ext_status level
    then feature_level
    else rest

-- Whether a feature of the level is there.
unfoldable pub has_some : ArmArchExtension → CpuFeatureLevel → Bool
has_some ext_status level =
    ltb 0 (ext_status.present level).optional || ltb 0 (ext_status.present level).mandatory

-- The choice between the two architectures, and the loop.
unfoldable pub extension_level : ArmArchExtension → CpuFeatureLevel
extension_level ext_status =
    if has_some ext_status Kinds.arm_v9_0_a
    then last_compliant ext_status architecture_arm_v9a level_unknown
    else if has_some ext_status Kinds.arm_v8_0_a
    then last_compliant ext_status architecture_arm_v8a level_unknown
    else level_unknown

unfoldable pub decode_arm_architecture_version_by_cpuid : RawData → ArmStatus → CpuId
decode_arm_architecture_version_by_cpuid raw status =
    let level = profile_level raw in
    record status.id {
      feature_level = if is_known level then level else extension_level status.ext_status;
    }
