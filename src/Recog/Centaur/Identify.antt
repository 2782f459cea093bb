-- ===== src/Recog/Centaur/Identify.antt =====
-- `cpuid_identify_centaur` and `cpuid_get_list_centaur` of libcpuid/recog_centaur.c.
pub mod Laws
use libcpuid.Base.{ℕ, Bool, Option, some, leb, if◌then◌else◌, map}
use libcpuid.Data.Raw.{RawData, row, max_intelfn4_level}
use libcpuid.Util.Cache.{Decoded, decode_deterministic_cache_info_x86}
use libcpuid.Util.Codename.{MatchEntry}
use libcpuid.Util.Cores.{decode_number_of_cores_x86}
use libcpuid.Util.CpuList.{ListResult, generic_get_cpu_list}
use libcpuid.Util.Level.{decode_architecture_version_x86}
use libcpuid.Recog.Centaur.Table.{cpudb_centaur}
use libcpuid.Recog.Outcome.{Outcome, with_id, name_by, followed}

-- The first argument is the value that `decode_architecture_version_x86` leaves open. `none` is an access
-- outside `cache_mask`.
unfoldable pub cpuid_identify_centaur : Bool → RawData → Decoded → Option Outcome
cpuid_identify_centaur old raw d =
    let cached =
      if leb 4 (row raw.basic_cpuid 0).eax
      then decode_deterministic_cache_info_x86 raw.intel_fn4 max_intelfn4_level d
      else some d in
    followed cached (λ d.
      name_by cpudb_centaur
        (with_id d (decode_architecture_version_x86 old (decode_number_of_cores_x86 raw d.id))))

unfoldable pub cpuid_get_list_centaur : Bool → (ℕ → Bool) → ListResult
cpuid_get_list_centaur malloc_ok alloc =
    generic_get_cpu_list malloc_ok alloc (map (λ (e : MatchEntry). e.name) cpudb_centaur)
