-- ===== src/Detect/Caches.antt =====
-- `update_cache_instances` of libcpuid/cpuid_main.c: how many caches of each level the logical CPUs
-- belong to.
use Prim.Native.Nat.{bit_and}
use libcpuid.Base.{
  ℕ, List, [], ◌∷◌, Option, some, replicate, ◌==◌, if◌then◌else◌, ℤ, minus_one, to_int32,
}
use libcpuid.Data.Kinds.{num_cache_types}
use libcpuid.Detect.Instances.{CoreInstances, core_instances_t_constructor, update_core_instances}
use libcpuid.Detect.Topology.{Topology, to_uint32}
use libcpuid.Recog.Outcome.{followed}

-- `internal_cache_instances_t`: for each level its element of `instances` and its row of `htable`, which
-- have the types and, with CACHES_HTABLE_SIZE, the size of `internal_core_instances_t`.
abbrev pub CacheInstances : Type 0
CacheInstances = List CoreInstances

unfoldable pub cache_instances_t_constructor : CacheInstances
cache_instances_t_constructor = replicate num_cache_types core_instances_t_constructor

-- `topology->cache_id[level]`.
unfoldable pub cache_id : Topology → ℕ → ℤ
cache_id topology cache_mask =
    if cache_mask == 0
    then minus_one
    else to_int32 (bit_and (to_uint32 topology.apic_id) cache_mask)

-- The body of the loop for one level: the slot of the ID is treated as that of a core ID. `none` is an
-- access outside the table.
unfoldable pub update_level : Topology → ℕ → CoreInstances → Option CoreInstances
update_level topology cache_mask caches =
    if cache_mask == 0
    then some caches
    else update_core_instances (cache_id topology cache_mask) caches

unfoldable pub update_cache_instances : Topology → List ℕ → CacheInstances → Option CacheInstances
update_cache_instances topology (mask ∷ masks) (level ∷ levels) =
    followed (update_level topology mask level) (λ level'.
      followed (update_cache_instances topology masks levels) (λ levels'. some (level' ∷ levels')))
update_cache_instances topology [] levels = some levels
update_cache_instances topology (mask ∷ masks) [] = some []
