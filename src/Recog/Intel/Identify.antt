-- ===== src/Recog/Intel/Identify.antt =====
-- `cpuid_identify_intel` and `cpuid_get_list_intel` of libcpuid/recog_intel.c.
pub mod Laws
use libcpuid.Base.{ℕ, Bool, Option, some, leb, ltb, if◌then◌else◌, map}
use libcpuid.Data.Feature
use libcpuid.Data.Raw.{Regs, RawData, row, max_intelfn4_level}
use libcpuid.Data.CpuId.{CpuId}
use libcpuid.Util.Cache.{Decoded, decode_deterministic_cache_info_x86}
use libcpuid.Util.Codename.{MatchEntry}
use libcpuid.Util.Cores.{decode_number_of_cores_x86}
use libcpuid.Util.CpuList.{ListResult, generic_get_cpu_list}
use libcpuid.Util.Level.{decode_architecture_version_x86}
use libcpuid.Recog.Intel.Table.{cpudb_intel}
use libcpuid.Recog.Intel.Features.{load_intel_features}
use libcpuid.Recog.Intel.Cache.{decode_intel_oldstyle_cache_info}
use libcpuid.Recog.Intel.Topology.{decode_intel_extended_topology, cpuid_identify_purpose_intel}
use libcpuid.Recog.Intel.Sgx.{decode_intel_sgx_features}
use libcpuid.Recog.Outcome.{Outcome, with_id, name_by, followed}

-- The caches: the deterministic way where leaf 4 exists, or else the descriptors of leaf 2.
unfoldable pub intel_caches : RawData → Decoded → Option Decoded
intel_caches raw d =
    let basic = (row raw.basic_cpuid 0).eax in
    if leb 4 basic
    then decode_deterministic_cache_info_x86 raw.intel_fn4 max_intelfn4_level d
    else if leb 2 basic
    then some (with_id d (decode_intel_oldstyle_cache_info raw d.id))
    else some d

-- `(basic < 11) || (decode_intel_extended_topology(raw, data) == 0)`, and the call under it.
unfoldable pub intel_cores : RawData → CpuId → Option CpuId
intel_cores raw id =
    if ltb (row raw.basic_cpuid 0).eax 11
    then some (decode_number_of_cores_x86 raw id)
    else followed (decode_intel_extended_topology raw id)
        (λ result. some (if result.0 then result.1 else decode_number_of_cores_x86 raw result.1))

-- The decoding of SGX, where the processor has it.
unfoldable pub intel_sgx : (ℕ → Regs) → RawData → CpuId → CpuId
intel_sgx exec raw id = if id.flags Feature.sgx then decode_intel_sgx_features exec raw id else id

-- `exec` is `cpu_exec_cpuid_ext` on leaf 12h. `none` is an access outside `cache_mask` or a division by
-- zero.
unfoldable pub cpuid_identify_intel : (ℕ → Regs) → Bool → RawData → Decoded → Option Outcome
cpuid_identify_intel exec old raw d =
    followed (intel_caches raw (with_id d (load_intel_features raw d.id))) (λ d.
      followed (intel_cores raw d.id) (λ id.
        followed
          (name_by cpudb_intel (
            with_id d (record (decode_architecture_version_x86 old id) {
              purpose = cpuid_identify_purpose_intel raw;
            })))
          (λ o. some (record o { decoded = with_id o.decoded (intel_sgx exec raw o.decoded.id) }))))

unfoldable pub cpuid_get_list_intel : Bool → (ℕ → Bool) → ListResult
cpuid_get_list_intel malloc_ok alloc =
    generic_get_cpu_list malloc_ok alloc (map (λ (e : MatchEntry). e.name) cpudb_intel)
