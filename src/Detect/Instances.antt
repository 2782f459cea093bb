-- ===== src/Detect/Instances.antt =====
-- `update_core_instances` of libcpuid/cpuid_main.c: how many cores the logical CPUs belong to.
pub mod Count
use libcpuid.Base.{
  ℕ, suc, ◌+◌, ◌%◌, Bool, ◌||◌, not, List, Option, none, some, get_or, set, replicate, ◌==◌,
  if◌then◌else◌, u8, u16, u32, ℤ, pos, negsuc, int_eq,
}

-- `internal_core_id_t`.
pub record CoreId : Type 0 where
  pub num_logical_cpu : ℕ
  pub core_id : ℤ

abbrev pub cores_htable_size : ℕ
cores_htable_size = 256

abbrev pub empty_core : CoreId
empty_core = record { num_logical_cpu = 0; core_id = pos 0 }

-- `internal_core_instances_t`.
pub record CoreInstances : Type 0 where
  pub instances : ℕ
  pub htable : List CoreId

unfoldable pub core_instances_t_constructor : CoreInstances
core_instances_t_constructor = record {
  instances = 0;
  htable = replicate cores_htable_size empty_core;
}

-- `topology->core_id % CORES_HTABLE_SIZE` as an index. The remainder of a negative number is negative
-- or 0, and a negative one is no index of the table: `none`.
unfoldable pub core_id_index : ℤ → Option ℕ
core_id_index (pos n) = some (n % cores_htable_size)
core_id_index (negsuc n) = if suc n % cores_htable_size == 0 then some 0 else none

-- The function for an index in the table. On a collision it only warns.
unfoldable pub update_at : ℕ → ℤ → CoreInstances → CoreInstances
update_at index core_id cores =
    let e = get_or cores.htable index empty_core in
    if int_eq e.core_id (pos 0) || int_eq e.core_id core_id
    then record {
      instances = if e.num_logical_cpu == 0 then u8 (cores.instances + 1) else cores.instances;
      htable =
          set cores.htable index
            (record { num_logical_cpu = u16 (e.num_logical_cpu + 1); core_id = core_id });
    }
    else cores

-- `none` is an access outside the table.
unfoldable pub update_core_instances : ℤ → CoreInstances → Option CoreInstances
update_core_instances core_id cores = elim (core_id_index core_id) [
  | none ↦ none
  | some index ↦ some (update_at index core_id cores)
]

-- The calls for the logical CPUs of one type, by the core IDs of their topologies.
unfoldable pub update_all : List ℤ → CoreInstances → Option CoreInstances
update_all List.[] cores = some cores
update_all (List.◌∷◌ id ids) cores = elim (update_core_instances id cores) [
  | none ↦ none
  | some cores' ↦ update_all ids cores'
]
