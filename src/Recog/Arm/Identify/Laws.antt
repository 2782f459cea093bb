-- ===== src/Recog/Arm/Identify/Laws.antt =====
-- What `cpuid_identify_arm` stores.
use libcpuid.Base.{
  ℕ, ◌+◌, ◌*◌, ◌^◌, ◌<◌, Bool, true, false, Option, none, some, ◌≡◌, ◌⊎◌, inl, inr, refl, ap, ◌∙◌,
  arith, get_elem?, take, Option-cases, if◌then◌else◌, extracts_bits,
}
use libcpuid.Data.Kinds.{CpuFeatureLevel, level_unknown}
use libcpuid.Data.Raw.{RawData}
use libcpuid.Data.CpuId.{CpuId}
use libcpuid.Recog.Arm.Id.{ArmIdPart, ArmHwImpl}
use libcpuid.Recog.Arm.Parts.{
  hw_implementer, get_cpu_implementer_from_code, get_cpu_implementer_parts,
}
use libcpuid.Recog.Arm.Parts.Laws.{get_cpu_implementer_from_code-at, get_cpu_implementer_parts-at}
use libcpuid.Recog.Arm.Status.{is_known}
use libcpuid.Recog.Arm.Features.{load_arm_features}
use libcpuid.Recog.Arm.Features.Calls.{Calls-rest}
use libcpuid.Recog.Arm.Features.Bounds.{start, load_arm_features-Calls}
use libcpuid.Recog.Arm.Level.{
  architecture_matchtable, find_architecture, decode_arm_architecture_version_by_midr,
  profile_level, architecture_arm_v8a, architecture_arm_v9a,
  decode_arm_architecture_version_by_cpuid,
}
use libcpuid.Recog.Arm.Level.Laws.{Reaches, extension_level-Reaches}
use libcpuid.Recog.Arm.Identify.{
  midr_implementer, midr_part_num, id_part, name_purpose, cpuid_identify_purpose_arm, name_arm,
  cpuid_identify_arm,
}

-- A processor, but for its flags and its level.
abbrev pub but_level : CpuId → CpuId
but_level id = record id { flags = λ f. false; feature_level = level_unknown }

abbrev midr_level : RawData → Option CpuFeatureLevel
midr_level raw = find_architecture (extracts_bits raw.arm_midr 19 16) architecture_matchtable

loaded_rest :
    (raw : RawData) (id : CpuId) → but_level (load_arm_features raw (start id)).id ≡ but_level id
loaded_rest raw id = ap but_level (Calls-rest 254 (load_arm_features-Calls raw (start id)))

by_midr-some :
    (raw : RawData) (id : CpuId) (l : CpuFeatureLevel)
    → midr_level raw ≡ some l
    → decode_arm_architecture_version_by_midr raw id ≡ (true, record id { feature_level = l })
unfolding decode_arm_architecture_version_by_midr
by_midr-some raw id l e = rw (e, decode_arm_architecture_version_by_midr) refl

by_midr-none :
    (raw : RawData) (id : CpuId)
    → midr_level raw ≡ none
    → decode_arm_architecture_version_by_midr raw id ≡ (false, id)
unfolding decode_arm_architecture_version_by_midr
by_midr-none raw id e = rw (e, decode_arm_architecture_version_by_midr) refl

-- The end of `cpuid_identify_arm`, for the result of the first decoder.
abbrev finish : RawData → Bool × CpuId → CpuId
finish raw (explicit, named) =
    let status = load_arm_features raw (start named) in
    if explicit then status.id else decode_arm_architecture_version_by_cpuid raw status

identify-finish :
    (raw : RawData) (id : CpuId)
    → cpuid_identify_arm raw id
      ≡ finish raw (decode_arm_architecture_version_by_midr raw (name_arm raw id))
unfolding cpuid_identify_arm
identify-finish raw id = refl

identify-midr :
    (raw : RawData) (id : CpuId) (l : CpuFeatureLevel)
    → midr_level raw ≡ some l
    → cpuid_identify_arm raw id
      ≡ (load_arm_features raw (start (record (name_arm raw id) { feature_level = l }))).id
identify-midr raw id l e =
    identify-finish raw id ∙ ap (finish raw) (by_midr-some raw (name_arm raw id) l e)

identify-cpuid :
    (raw : RawData) (id : CpuId)
    → midr_level raw ≡ none
    → cpuid_identify_arm raw id
      ≡ decode_arm_architecture_version_by_cpuid raw
          (load_arm_features raw (start (name_arm raw id)))
identify-cpuid raw id e =
    identify-finish raw id ∙ ap (finish raw) (by_midr-none raw (name_arm raw id) e)

-- The features and the level do not touch what `name_arm` stores.
pub identify-name_arm :
    (raw : RawData) (id : CpuId)
    → but_level (cpuid_identify_arm raw id) ≡ but_level (name_arm raw id)
unfolding decode_arm_architecture_version_by_cpuid
identify-name_arm raw id = elim (Option-cases (midr_level raw)) [
  | inl e ↦ ap but_level (identify-cpuid raw id e) ∙ (loaded_rest raw (name_arm raw id))
  | inr (l, e) ↦
      ap but_level (identify-midr raw id l e)
      ∙ loaded_rest raw (record (name_arm raw id) { feature_level = l })
]

-- The texts and numbers of the part `p` of the implementer `i`.
pub record IsPart (raw : RawData) (i : ArmHwImpl) (p : ArmIdPart) (id : CpuId) : Type 0 where
  pub vendor : id.vendor ≡ i.vendor
  pub vendor_str : id.vendor_str ≡ take 15 i.name
  pub brand_str : id.brand_str ≡ take 63 p.name
  pub cpu_codename : id.cpu_codename ≡ take 63 p.codename
  pub technology_node : id.technology_node ≡ take 15 p.technology
  pub purpose : id.purpose ≡ name_purpose p.name
  pub midr :
      id.arm.implementer * 2 ^ 24
        + id.arm.variant * 2 ^ 20
        + extracts_bits raw.arm_midr 19 16 * 2 ^ 16
        + id.arm.part_num * 2 ^ 4
        + id.arm.revision
      ≡ raw.arm_midr

name_arm-IsPart :
    (raw : RawData) (id : CpuId) (k j : ℕ) (i : ArmHwImpl) (p : ArmIdPart)
    → get_elem? hw_implementer k ≡ some i
    → get_elem? i.parts j ≡ some p
    → midr_implementer raw ≡ i.id
    → midr_part_num raw ≡ p.id
    → raw.arm_midr < 2 ^ 32
    → IsPart raw i p (name_arm raw id)
unfolding name_arm cpuid_identify_purpose_arm
name_arm-IsPart raw id k j i p at in_parts code number word =
    let impl : get_cpu_implementer_from_code (midr_implementer raw) ≡ i =
      ap get_cpu_implementer_from_code code ∙ get_cpu_implementer_from_code-at k i at in
    let part : id_part raw ≡ p =
      ap (λ c. get_cpu_implementer_parts c (midr_part_num raw)) impl
      ∙ (ap (get_cpu_implementer_parts i) number
          ∙ get_cpu_implementer_parts-at k i j p at in_parts) in
    record {
      vendor = ap (λ (c : ArmHwImpl). c.vendor) impl;
      vendor_str = ap (λ (c : ArmHwImpl). take 15 c.name) impl;
      brand_str = ap (λ (q : ArmIdPart). take 63 q.name) part;
      cpu_codename = ap (λ (q : ArmIdPart). take 63 q.codename) part;
      technology_node = ap (λ (q : ArmIdPart). take 15 q.technology) part;
      purpose = ap (λ (q : ArmIdPart). name_purpose q.name) part;
      midr = omega arith;
    }

-- For every row of hw_implementer and every part in its table: on a processor whose MIDR, of 32 bits,
-- has the numbers of the two, cpuid_identify_arm stores their vendor, name, codename and technology,
-- cut to the sizes of the arrays, the purpose that the name stands for, and the fields of MIDR without
-- loss.
pub cpuid_identify_arm-IsPart :
    (raw : RawData) (id : CpuId) (k j : ℕ) (i : ArmHwImpl) (p : ArmIdPart)
    → get_elem? hw_implementer k ≡ some i
    → get_elem? i.parts j ≡ some p
    → midr_implementer raw ≡ i.id
    → midr_part_num raw ≡ p.id
    → raw.arm_midr < 2 ^ 32
    → IsPart raw i p (cpuid_identify_arm raw id)
cpuid_identify_arm-IsPart raw id k j i p at in_parts code number word =
    let same = identify-name_arm raw id in
    let n = name_arm-IsPart raw id k j i p at in_parts code number word in
    record {
      vendor = ap (λ (d : CpuId). d.vendor) same ∙ n.vendor;
      vendor_str = ap (λ (d : CpuId). d.vendor_str) same ∙ n.vendor_str;
      brand_str = ap (λ (d : CpuId). d.brand_str) same ∙ n.brand_str;
      cpu_codename = ap (λ (d : CpuId). d.cpu_codename) same ∙ n.cpu_codename;
      technology_node = ap (λ (d : CpuId). d.technology_node) same ∙ n.technology_node;
      purpose = ap (λ (d : CpuId). d.purpose) same ∙ n.purpose;
      midr =
          ap
            (λ (d : CpuId).
              d.arm.implementer * 2 ^ 24
              + d.arm.variant * 2 ^ 20
              + extracts_bits raw.arm_midr 19 16 * 2 ^ 16
              + d.arm.part_num * 2 ^ 4
              + d.arm.revision)
            same
          ∙ n.midr;
    }

-- Where MIDR leaves the architecture to the ID registers and these show no profile of ARMv6, ARMv7,
-- M or R, the level that cpuid_identify_arm stores is unknown, or one of the Armv8-A or Armv9-A
-- levels such that the processor announces all features that features_map makes mandatory from it or
-- from a level in front of it.
pub cpuid_identify_arm-Reaches :
    (raw : RawData) (id : CpuId)
    → extracts_bits raw.arm_midr 19 16 ≡ 15
    → profile_level raw ≡ level_unknown
    → Reaches raw level_unknown architecture_arm_v8a (cpuid_identify_arm raw id).feature_level
      ⊎ Reaches raw level_unknown architecture_arm_v9a (cpuid_identify_arm raw id).feature_level
unfolding decode_arm_architecture_version_by_cpuid is_known
cpuid_identify_arm-Reaches raw id scheme profile =
    let by : midr_level raw ≡ none = unfold find_architecture in (rw scheme refl) in
    rw (identify-cpuid raw id by, profile) (extension_level-Reaches raw (name_arm raw id))
