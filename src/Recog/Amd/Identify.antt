-- ===== src/Recog/Amd/Identify.antt =====
-- `cpuid_identify_amd` and `cpuid_get_list_amd` of libcpuid/recog_amd.c.
pub mod Laws
use libcpuid.Base.{
  ℕ, Bool, not, ◌&&◌, List, Option, none, some, ◌==◌, if◌then◌else◌, extracts_bit, extracts_bits,
  map,
}
use libcpuid.Data.Raw.{RawData, row, max_sub_level}
use libcpuid.Data.CpuId.{CpuId}
use libcpuid.Util.Cache.{Decoded, decode_deterministic_cache_info_x86}
use libcpuid.Util.Codename.{MatchEntry}
use libcpuid.Util.CpuList.{ListResult, generic_get_cpu_list}
use libcpuid.Util.Level.{decode_architecture_version_x86}
use libcpuid.Recog.Amd.Table.{cpudb_amd}
use libcpuid.Recog.Amd.Features.{load_amd_features}
use libcpuid.Recog.Amd.Decode.{
  decode_amd_cache_info, decode_amd_number_of_cores, cpuid_identify_purpose_amd,
}
use libcpuid.Recog.Outcome.{Outcome, with_id, name_by, followed}

-- The condition for the deterministic cache parameters.
unfoldable pub has_topology_extensions : RawData → Bool
has_topology_extensions raw =
    extracts_bit (row raw.ext_cpuid 1).ecx 22 == 1
    && not (extracts_bits (row raw.amd_fn8000001dh 0).eax 4 0 == 0)

-- The caches.
unfoldable pub amd_caches : RawData → Decoded → Option Decoded
amd_caches raw d =
    if has_topology_extensions raw
    then decode_deterministic_cache_info_x86 raw.amd_fn8000001dh max_sub_level d
    else some (with_id d (decode_amd_cache_info raw d.id))

-- The counts, the level and the purpose.
unfoldable pub amd_counts : Bool → RawData → CpuId → Option CpuId
amd_counts old raw id = followed (cpuid_identify_purpose_amd raw) (λ purpose.
    some (record (decode_architecture_version_x86 old (decode_amd_number_of_cores raw id)) {
      purpose = purpose;
    }))

-- `none` is an access outside an array.
unfoldable pub cpuid_identify_amd : Bool → RawData → Decoded → Option Outcome
cpuid_identify_amd old raw d =
    followed (amd_caches raw (with_id d (load_amd_features raw d.id)))
      (λ d. followed (amd_counts old raw d.id) (λ id. name_by cpudb_amd (with_id d id)))

unfoldable pub cpuid_get_list_amd : Bool → (ℕ → Bool) → ListResult
cpuid_get_list_amd malloc_ok alloc =
    generic_get_cpu_list malloc_ok alloc (map (λ (e : MatchEntry). e.name) cpudb_amd)
