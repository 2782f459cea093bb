-- ===== src/Detect/System/Step.antt =====
-- One logical CPU more: the type that `cpu_identify_all` counts it for is the group that it joins.
use libcpuid.Base.{
  ℕ, ◌<◌, Bool, true, false, ◌||◌, List, [], ◌∷◌, none, some, ◌≡◌, ◌≢◌, ◌⊎◌, inl, inr, refl, ap,
  ◌∙◌, arith, length, ◌==◌, ℤ, pos, Bool-cases, Option-cases,
}
use libcpuid.Util.Affinity.{get_affinity_mask_bit}
use libcpuid.Util.Affinity.Laws.{IsMask, get-set_affinity_mask_bit}
use libcpuid.Detect.Instances.{CoreInstances, core_id_index, update_at, update_core_instances}
use libcpuid.Detect.Instances.Count.{occurs}
use libcpuid.Detect.Caches.{CacheInstances, cache_id, update_level, update_cache_instances}
use libcpuid.Detect.Topology.{Topology}
use libcpuid.Detect.System.{CpuType, increment, count_cpu}
use libcpuid.Detect.System.Groups.{Group}
use libcpuid.Recog.Outcome.Laws.{followed-some}

-- The IDs of a CPU whose caches have these masks are counted inside the tables.
abbrev pub AllInside : Topology → List ℕ → Type 0
AllInside topology [] = Unit
AllInside topology (mask ∷ masks) =
    ((mask == 0) ≡ true ⊎ (core_id_index (cache_id topology mask) ≢ none))
    × AllInside topology masks

abbrev pub InTables : Topology → List ℕ → Type 0
InTables topology masks = (core_id_index topology.core_id ≢ none) × AllInside topology masks

update_core_instances-some :
    (id : ℤ) (cores : CoreInstances)
    → core_id_index id ≢ none
    → (cores' : CoreInstances) × (update_core_instances id cores ≡ some cores')
unfolding update_core_instances update_at
update_core_instances-some id cores h = elim (Option-cases (core_id_index id)) [
  | inl e ↦ absurd (h e)
  | inr (i, e) ↦ (update_at i id cores, rw (e, update_core_instances) refl)
]

update_level-some :
    (topology : Topology) (mask : ℕ) (caches : CoreInstances)
    → (mask == 0) ≡ true ⊎ (core_id_index (cache_id topology mask) ≢ none)
    → (caches' : CoreInstances) × (update_level topology mask caches ≡ some caches')
unfolding update_level
update_level-some topology mask caches h = elim (Bool-cases (mask == 0)) [
  | inl e ↦ (caches, rw (e, update_level) refl)
  | inr e ↦ elim h [
    | inl z ↦ absurd (ground (arith, z, e))
    | inr inside ↦
        let (caches', run) = update_core_instances-some (cache_id topology mask) caches inside in
        (caches', rw (e, update_level) run)
  ]
]

pub update_cache_instances-some :
    (topology : Topology) (masks : List ℕ) (levels : CacheInstances)
    → AllInside topology masks
    → (levels' : CacheInstances) × (update_cache_instances topology masks levels ≡ some levels')
unfolding update_cache_instances
update_cache_instances-some topology [] levels h = (levels, refl)
update_cache_instances-some topology (mask ∷ masks) [] h = ([], refl)
update_cache_instances-some topology (mask ∷ masks) (level ∷ levels) h =
    let (level', one) = update_level-some topology mask level h.0 in
    let (levels', rest) = update_cache_instances-some topology masks levels h.1 in
    (level' ∷ levels', followed-some _ level' _ _ one (followed-some _ levels' _ _ rest refl))

-- What the masks of the caches are known to satisfy is a parameter.
module _ (Allowed : List ℕ → Type 0) where
  -- A type is a group: its mask holds the members, and their number is stored.
  pub record IsTypeOf (sup : Bool) (t : CpuType) (g : Group) : Type 0 where
    pub purpose : t.id.purpose ≡ g.purpose
    pub package_id : sup ≡ true → t.package_id ≡ g.package_id
    pub mask : IsMask t.id.affinity_mask
    pub bits : (cpu : ℕ) → get_affinity_mask_bit cpu t.id.affinity_mask ≡ occurs cpu g.cpus
    pub number : t.id.num_logical_cpus ≡ pos (length g.cpus)
    pub allowed : Allowed t.cache_mask

  pub data Matches (sup : Bool) : List CpuType → List Group → Type 0 where
    no_types : Matches sup [] []
    one_more :
        {t : CpuType} {g : Group} {types : List CpuType} {groups : List Group}
        → IsTypeOf sup t g
        → 0 < length g.cpus
        → Matches sup types groups
        → Matches sup (t ∷ types) (g ∷ groups)

  abbrev with_cpu : ℕ → Group → Group
  with_cpu cpu g = record g { cpus = cpu ∷ g.cpus }

  pub count_cpu-IsTypeOf :
      (sup : Bool) (cpu : ℕ) (topology : Topology) (t : CpuType) (g : Group)
      → cpu < 65536
      → (sup ≡ true → InTables topology t.cache_mask)
      → IsTypeOf sup t g
      → (t' : CpuType) × (count_cpu sup cpu topology t ≡ some t')
        × ((t'.cache_mask ≡ t.cache_mask) × IsTypeOf sup t' (with_cpu cpu g))
  unfolding count_cpu
  count_cpu-IsTypeOf true cpu topology t g small inside h =
      let (cores, one) =
        update_core_instances-some topology.core_id t.core_instances (inside refl).0 in
      let (caches, rest) =
        update_cache_instances-some topology t.cache_mask t.cache_instances (inside refl).1 in
      let (m, set) = get-set_affinity_mask_bit cpu t.id.affinity_mask small h.mask in
      (
        _,
        followed-some _ cores _ _ one (followed-some _ caches _ _ rest refl),
        (
          refl,
          record {
            purpose = h.purpose;
            package_id = h.package_id;
            mask = m;
            bits = λ c. set c ∙ ap (λ b. cpu == c || b) (h.bits c);
            number = ap increment h.number;
            allowed = h.allowed;
          },
        ),
      )
  count_cpu-IsTypeOf false cpu topology t g small inside h =
      let (m, set) = get-set_affinity_mask_bit cpu t.id.affinity_mask small h.mask in
      (
        _,
        refl,
        (
          refl,
          record {
            purpose = h.purpose;
            package_id = h.package_id;
            mask = m;
            bits = λ c. set c ∙ ap (λ b. cpu == c || b) (h.bits c);
            number = ap increment h.number;
            allowed = h.allowed;
          },
        ),
      )
