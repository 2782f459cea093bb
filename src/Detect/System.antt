-- ===== src/Detect/System.antt =====
-- `cpu_identify_all` and `cpu_request_core_type` of libcpuid/cpuid_main.c: the logical CPUs of a system
-- grouped by type, and the cores and caches of each type counted.
pub mod Run
pub mod Groups
pub mod Step
pub mod Found
pub mod Laws
pub mod Loop
pub mod Refines
pub mod Partition
pub mod Errors
pub mod Request
pub mod Native
use libcpuid.Base.{
  ℕ, zero, suc, ◌+◌, ◌/◌, ◌%◌, Bool, true, false, ◌&&◌, not, List, [], ◌∷◌, ◌++◌, Option, none,
  some, length, get_or, map, ltb, ◌==◌, if◌then◌else◌, u8, ℤ, pos, negsuc, minus_one, int_eq,
}
use libcpuid.Data.Kinds.{
  CpuPurpose, purpose_eq, CpuError, ok, not_found, is_ok, CacheType, l1i, l1d, l2, l3, l4,
  cache_index,
}
use libcpuid.Data.Raw.{RawData}
use libcpuid.Data.CpuId.{CpuId}
use libcpuid.Util.Affinity.{set_affinity_mask_bit}
use libcpuid.Util.Cache.{Decoded}
use libcpuid.Detect.Instances.{CoreInstances, core_instances_t_constructor, update_core_instances}
use libcpuid.Detect.Caches.{CacheInstances, cache_instances_t_constructor, update_cache_instances}
use libcpuid.Detect.Topology.{Topology, topology_t_constructor}
use libcpuid.Recog.Outcome.{followed}

-- The functions that `cpu_identify_all` calls for a logical CPU: `cpu_ident_purpose`,
-- `cpu_ident_internal`, and `cpu_ident_id` with the number of the CPU. Each of them is `none` where it makes
-- an access outside an array.
pub record Detector : Type 0 where
  pub purpose : RawData → Option CpuPurpose
  pub identify : RawData → Option (CpuError × Decoded)
  pub locate : ℕ → RawData → Option (Bool × Topology)

-- `system->cpu_types[i]` and, of `type_info.data[i]`, what is read: `package_id`, which is set only
-- where the topology is known, and the mask and the counters.
pub record CpuType : Type 0 where
  pub id : CpuId
  pub package_id : ℤ
  pub cache_mask : List ℕ
  pub core_instances : CoreInstances
  pub cache_instances : CacheInstances

-- The variables of the loop.
pub record Scan : Type 0 where
  pub types : List CpuType
  pub caches_all : CacheInstances
  pub is_topology_supported : Bool
  pub cur_package_id : ℤ

-- `system_id_t`.
pub record SystemId : Type 0 where
  pub cpu_types : List CpuId
  pub l1_data_total_instances : ℤ
  pub l1_instruction_total_instances : ℤ
  pub l2_total_instances : ℤ
  pub l3_total_instances : ℤ
  pub l4_total_instances : ℤ

unfoldable pub system_id_t_constructor : SystemId
system_id_t_constructor = record {
  cpu_types = [];
  l1_data_total_instances = minus_one;
  l1_instruction_total_instances = minus_one;
  l2_total_instances = minus_one;
  l3_total_instances = minus_one;
  l4_total_instances = minus_one;
}

-- A result, or the error that is returned, with the types that there are by then.
pub data Progress {ℓ} (A : Type ℓ) : Type ℓ where
  goes_on : A → Progress A
  returns : CpuError → List CpuId → Progress A

-- The condition of both loops of `cpuid_find_index_system_id`.
unfoldable pub is_type : Bool → CpuPurpose → ℤ → CpuType → Bool
is_type is_topology_supported purpose package_id t =
    purpose_eq t.id.purpose purpose
    && (if is_topology_supported then int_eq t.package_id package_id else true)

-- `none` is the -1.
unfoldable pub cpuid_find_index_system_id : Bool → CpuPurpose → ℤ → List CpuType → Option ℕ
cpuid_find_index_system_id sup purpose package_id [] = none
cpuid_find_index_system_id sup purpose package_id (t ∷ types) =
    let rest =
      followed (cpuid_find_index_system_id sup purpose package_id types) (λ i. some (suc i)) in
    if is_type sup purpose package_id t then some 0 else rest

-- `++` on an int32_t.
abbrev pub increment : ℤ → ℤ
increment (pos n) = pos (suc n)
increment (negsuc zero) = pos 0
increment (negsuc (suc n)) = negsuc n

-- A type that is new, as `cpuid_grow_type_info` and the lines behind `cpu_ident_internal` leave it.
unfoldable pub new_type : Bool → ℤ → Decoded → CpuType
new_type with_affinity package_id d = record {
  id = if with_affinity then record d.id { num_logical_cpus = pos 0 } else d.id;
  package_id = package_id;
  cache_mask = d.cache_mask;
  core_instances = core_instances_t_constructor;
  cache_instances = cache_instances_t_constructor;
}

-- `cpuid_grow_system_id` and `cpuid_grow_type_info` to one type more. The number is a uint8_t: behind
-- 255 types, or where memory runs out, the new type is written outside the arrays, which is `none`.
unfoldable pub grow : (ℕ → Bool) → List CpuType → CpuType → Option (List CpuType)
grow alloc types t =
    if not (u8 (length types + 1) == 0) && alloc (length types)
    then some (types ++ (t ∷ []))
    else none

-- The type of the CPU: its index and the types, with a new one if there is none yet.
unfoldable pub find_or_add :
    Detector
    → (ℕ → Bool)
    → Bool
    → CpuPurpose
    → RawData
    → Scan
    → Option (Progress (ℕ × List CpuType))
find_or_add detector alloc with_affinity purpose raw scan =
    elim (cpuid_find_index_system_id scan.is_topology_supported purpose scan.cur_package_id
      scan.types) [
        | some i ↦ some (goes_on (i, scan.types))
        | none ↦ followed (detector.identify raw) (λ (r, d).
            followed
              (grow alloc scan.types (new_type (with_affinity && is_ok r) scan.cur_package_id d))
              (λ types. some (
                if is_ok r
                then goes_on (length scan.types, types)
                else returns r (map (λ (t : CpuType). t.id) types))))
      ]

-- The topology where `cpu_ident_id` is not called; nothing reads it then.
abbrev pub unplaced : ℕ → Bool × Topology
unplaced logical_cpu = (false, topology_t_constructor logical_cpu)

-- `cpu_ident_id`, as long as the topology is supported.
unfoldable pub call_locate : Detector → Bool → ℕ → RawData → Scan → Option (Bool × Topology)
call_locate detector with_affinity logical_cpu raw scan =
    if with_affinity && scan.is_topology_supported
    then detector.locate logical_cpu raw
    else some (unplaced logical_cpu)

-- What is done with its result.
unfoldable pub locate_cpu : Bool → Bool × Topology → Scan → Scan
locate_cpu with_affinity (found, topology) scan =
    if with_affinity && scan.is_topology_supported
    then (if found
        then record scan { cur_package_id = topology.package_id }
        else record scan { is_topology_supported = false })
    else scan

-- The counters of one type for one more CPU.
unfoldable pub count_cpu : Bool → ℕ → Topology → CpuType → Option CpuType
count_cpu is_topology_supported logical_cpu topology t =
    let counted = record t {
      id = record t.id {
        affinity_mask = set_affinity_mask_bit logical_cpu t.id.affinity_mask;
        num_logical_cpus = increment t.id.num_logical_cpus;
      };
    } in
    let placed = followed (update_core_instances topology.core_id t.core_instances) (λ cores.
      followed (update_cache_instances topology t.cache_mask t.cache_instances)
        (λ caches. some (record counted { core_instances = cores; cache_instances = caches }))) in
    if is_topology_supported then placed else some counted

-- At one index.
unfoldable pub count_at : Bool → ℕ → Topology → ℕ → List CpuType → Option (List CpuType)
count_at sup logical_cpu topology index [] = none
count_at sup logical_cpu topology zero (t ∷ types) =
    followed (count_cpu sup logical_cpu topology t) (λ t'. some (t' ∷ types))
count_at sup logical_cpu topology (suc index) (t ∷ types) =
    followed (count_at sup logical_cpu topology index types) (λ types'. some (t ∷ types'))

-- The mask of the caches of the type at an index.
abbrev pub mask_at : ℕ → List CpuType → List ℕ
mask_at index [] = []
mask_at zero (t ∷ types) = t.cache_mask
mask_at (suc index) (t ∷ types) = mask_at index types

unfoldable pub increment_counters : Bool → ℕ → Topology → ℕ × List CpuType → Scan → Option Scan
increment_counters with_affinity logical_cpu topology (index, types) scan =
    let sup = scan.is_topology_supported in
    let all =
      if sup
      then update_cache_instances topology (mask_at index types) scan.caches_all
      else some scan.caches_all in
    if with_affinity
    then followed (count_at sup logical_cpu topology index types) (λ types'.
      followed all (λ caches_all. some (record scan { types = types'; caches_all = caches_all })))
    else some (record scan { types = types })

-- The body of the loop over the logical CPUs.
unfoldable pub identify_cpu :
    Detector → (ℕ → Bool) → Bool → ℕ → RawData → Scan → Option (Progress Scan)
identify_cpu detector alloc with_affinity logical_cpu raw scan =
    followed (detector.purpose raw) (λ purpose.
      followed (call_locate detector with_affinity logical_cpu raw scan) (λ place.
        let located = locate_cpu with_affinity place scan in
        followed (find_or_add detector alloc with_affinity purpose raw located) (λ progress.
          elim progress [
            | goes_on found ↦
                followed (increment_counters with_affinity logical_cpu place.1 found located)
                  (λ scan. some (goes_on scan))
            | returns r types ↦ some (returns r types)
          ])))
