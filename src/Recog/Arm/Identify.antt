-- ===== src/Recog/Arm/Identify.antt =====
-- `cpuid_identify_arm`, `cpuid_get_list_arm` and `cpuid_identify_purpose_arm` of libcpuid/recog_arm.c.
pub mod Laws
use libcpuid.Base.{
  ℕ, ◌-◌, Bool, ◌||◌, List, [], ◌∷◌, ltb, ◌==◌, if◌then◌else◌, extracts_bits, u8, u16, codes, take,
  length, map,
}
use libcpuid.Data.Kinds.{
  CpuVendor, CpuPurpose, general, performance, efficiency, u_performance, CpuError, ok, no_mem,
}
use libcpuid.Data.Raw.{RawData}
use libcpuid.Data.CpuId.{CpuId, ArmId}
use libcpuid.Util.Pattern.{match_pattern}
use libcpuid.Util.CpuList
use libcpuid.Util.CpuList.{collect, listed}
use libcpuid.Recog.Arm.Id.{ArmIdPart}
use libcpuid.Recog.Arm.Parts.{
  get_cpu_implementer_from_code, get_cpu_implementer_from_vendor, get_cpu_implementer_parts,
}
use libcpuid.Recog.Arm.Status.{ArmStatus, no_counts}
use libcpuid.Recog.Arm.Level.{
  decode_arm_architecture_version_by_midr, decode_arm_architecture_version_by_cpuid,
}
use libcpuid.Recog.Arm.Features.{load_arm_features}

abbrev pub midr_implementer : RawData → ℕ
midr_implementer raw = extracts_bits raw.arm_midr 31 24

abbrev pub midr_part_num : RawData → ℕ
midr_part_num raw = extracts_bits raw.arm_midr 15 4

-- The row that names the processor.
abbrev pub id_part : RawData → ArmIdPart
id_part raw =
    get_cpu_implementer_parts (get_cpu_implementer_from_code (midr_implementer raw))
      (midr_part_num raw)

-- `match_pattern` as a condition.
abbrev pub matches : List ℕ → List ℕ → Bool
matches name pattern = ltb 0 (match_pattern name pattern)

-- The patterns of `cpuid_identify_purpose_arm`, on the name of the part.
unfoldable pub name_purpose : List ℕ → CpuPurpose
name_purpose name =
    if matches name (codes "Cortex-X[012356789]")
    then u_performance
    else if matches name (codes "Cortex-A[67][012356789]")
        || matches name (codes "Cortex-A[5][6789]")
    then performance
    else if matches name (codes "Cortex-A[5][012345]")
        || matches name (codes "Cortex-A[3][0123456789]")
    then efficiency
    else general

unfoldable pub cpuid_identify_purpose_arm : RawData → CpuPurpose
cpuid_identify_purpose_arm raw = name_purpose (id_part raw).name

-- `snprintf(dest, size, "%s", s)`.
abbrev pub snprintf : ℕ → List ℕ → List ℕ
snprintf size s = take (size - 1) s

abbrev pub vendor_str_max : ℕ
vendor_str_max = 16

abbrev pub brand_str_max : ℕ
brand_str_max = 64

abbrev pub codename_str_max : ℕ
codename_str_max = 64

abbrev pub technology_str_max : ℕ
technology_str_max = 16

-- The fields of MIDR, the purpose, and the texts of the tables.
unfoldable pub name_arm : RawData → CpuId → CpuId
name_arm raw id =
    let hw_impl = get_cpu_implementer_from_code (midr_implementer raw) in
    let part = id_part raw in
    record id {
      arm = record {
        implementer = midr_implementer raw;
        variant = extracts_bits raw.arm_midr 23 20;
        part_num = midr_part_num raw;
        revision = extracts_bits raw.arm_midr 3 0;
      };
      purpose = cpuid_identify_purpose_arm raw;
      vendor = hw_impl.vendor;
      vendor_str = snprintf vendor_str_max hw_impl.name;
      brand_str = snprintf brand_str_max part.name;
      cpu_codename = snprintf codename_str_max part.codename;
      technology_node = snprintf technology_str_max part.technology;
    }

unfoldable pub cpuid_identify_arm : RawData → CpuId → CpuId
cpuid_identify_arm raw id =
    let (explicit, named) = decode_arm_architecture_version_by_midr raw (name_arm raw id) in
    let status =
      load_arm_features raw
        (record { id = named; ext_status = record { present = no_counts; total = no_counts } }) in
    if explicit then status.id else decode_arm_architecture_version_by_cpuid raw status

-- The list of names, to which the parts of the vendor are added, and the error that is set.
-- `realloc_ok` says whether the array can grow, and `alloc n` whether the `n`-th name can be copied.
unfoldable pub cpuid_get_list_arm :
    Bool → (ℕ → Bool) → CpuVendor → List (List ℕ) → List (List ℕ) × CpuError
cpuid_get_list_arm realloc_ok alloc vendor names =
    let parts = (get_cpu_implementer_from_vendor vendor).parts in
    if length parts == 0
    then (names, ok)
    else if realloc_ok
    then elim (collect alloc names (map (λ (p : ArmIdPart). p.name) parts)) [
      | listed all ↦ (all, ok)
      | CpuList.no_mem ↦ ([], no_mem)
    ]
    else (names, no_mem)
