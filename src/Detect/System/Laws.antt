-- ===== src/Detect/System/Laws.antt =====
-- The loop of `cpu_identify_all` over the logical CPUs forms the groups.
use libcpuid.Base.{
  ℕ, suc, ◌+◌, ◌<◌, Bool, true, false, List, [], ◌∷◌, ◌++◌, none, some, ◌≡◌, inl, inr, refl, arith,
  length, replicate, ◌==◌, u8, Bool-cases,
}
use libcpuid.Data.Kinds.{CpuPurpose, ok}
use libcpuid.Data.Raw.{RawData}
use libcpuid.Data.CpuId.{mask_setsize}
use libcpuid.Util.Cache.{Decoded}
use libcpuid.Detect.Topology.{Topology}
use libcpuid.Detect.System.{
  Detector, CpuType, Scan, goes_on, cpuid_find_index_system_id, new_type, grow, find_or_add,
  call_locate, locate_cpu, count_at, mask_at, increment_counters, identify_cpu,
}
use libcpuid.Detect.System.Step.{AllInside, InTables, update_cache_instances-some}
use libcpuid.Recog.Outcome.Laws.{followed-some}

-- The CPU with the number `cpu` can be identified: `cpu_ident_internal` succeeds, stores the purpose that
-- `cpu_ident_purpose` finds and leaves the mask empty; and where `cpu_ident_id` locates the CPU, its IDs
-- are counted inside the tables, whatever the caches of its type.
pub record IsGood (d : Detector) (Allowed : List ℕ → Type 0) (cpu : ℕ) (raw : RawData)
    : Type 0 where
  pub decoded : Decoded
  pub identified : d.identify raw ≡ some (ok, decoded)
  pub purpose : d.purpose raw ≡ some decoded.id.purpose
  pub empty : decoded.id.affinity_mask ≡ replicate mask_setsize 0
  pub allowed : Allowed decoded.cache_mask
  pub located : Bool × Topology
  pub place : d.locate cpu raw ≡ some located
  pub inside : (masks : List ℕ) → Allowed masks → located.0 ≡ true → InTables located.1 masks

abbrev pub AllGood : Detector → (List ℕ → Type 0) → ℕ → List RawData → Type 0
AllGood d Allowed cpu [] = Unit
AllGood d Allowed cpu (raw ∷ raws) = IsGood d Allowed cpu raw × AllGood d Allowed (suc cpu) raws

pub find_or_add-hit :
    (d : Detector) (alloc : ℕ → Bool) (p : CpuPurpose) (raw : RawData) (scan : Scan) (i : ℕ)
    → cpuid_find_index_system_id scan.is_topology_supported p scan.cur_package_id scan.types
      ≡ some i
    → find_or_add d alloc true p raw scan ≡ some (goes_on (i, scan.types))
find_or_add-hit d alloc p raw scan i e = unfold find_or_add in (rw (e, find_or_add) refl)

grow-some :
    (alloc : ℕ → Bool) (types : List CpuType) (t : CpuType)
    → ((i : ℕ) → alloc i ≡ true)
    → length types < 255
    → grow alloc types t ≡ some (types ++ (t ∷ []))
unfolding grow
grow-some alloc types t memory few =
    let room : (u8 (length types + 1) == 0) ≡ false = ground arith in
    rw (room, memory (length types)) refl

pub find_or_add-new :
    (d : Detector) (alloc : ℕ → Bool) (p : CpuPurpose) (raw : RawData) (scan : Scan)
    (decoded : Decoded)
    → cpuid_find_index_system_id scan.is_topology_supported p scan.cur_package_id scan.types ≡ none
    → d.identify raw ≡ some (ok, decoded)
    → ((i : ℕ) → alloc i ≡ true)
    → length scan.types < 255
    → find_or_add d alloc true p raw scan
      ≡ some (
          goes_on
            (length scan.types, scan.types ++ (new_type true scan.cur_package_id decoded ∷ [])))
unfolding find_or_add
find_or_add-new d alloc p raw scan decoded e identified memory few =
    rw (e, find_or_add)
      (followed-some _ (ok, decoded) _ _ identified
        (followed-some _ _ _ _ (grow-some alloc scan.types _ memory few) refl))

pub increment_counters-some :
    (cpu : ℕ) (topology : Topology) (i : ℕ) (types types' : List CpuType) (scan : Scan)
    → count_at scan.is_topology_supported cpu topology i types ≡ some types'
    → (scan.is_topology_supported ≡ true → AllInside topology (mask_at i types))
    → (scan' : Scan) × (increment_counters true cpu topology (i, types) scan ≡ some scan')
      × ((scan'.types ≡ types')
          × ((scan'.is_topology_supported ≡ scan.is_topology_supported)
              × (scan'.cur_package_id ≡ scan.cur_package_id)))
unfolding increment_counters
increment_counters-some cpu topology i types types' scan run inside =
    elim (Bool-cases scan.is_topology_supported) [
      | inl e ↦
          let (caches, all) =
            update_cache_instances-some topology (mask_at i types) scan.caches_all (inside e) in
          (
            record scan { types = types'; caches_all = caches },
            followed-some _ types' _ _ run (followed-some _ caches _ _ (rw e all) refl),
            (refl, (refl, refl)),
          )
      | inr e ↦ (
        record scan { types = types' },
        followed-some _ types' _ _ run (followed-some _ scan.caches_all _ _ (rw e refl) refl),
        (refl, (refl, refl)),
      )
    ]

pub identify_cpu-some :
    (d : Detector) (alloc : ℕ → Bool) (cpu : ℕ) (p : CpuPurpose) (top : Bool × Topology)
    (raw : RawData) (scan scan' : Scan) (i : ℕ) (types : List CpuType)
    → d.purpose raw ≡ some p
    → call_locate d true cpu raw scan ≡ some top
    → find_or_add d alloc true p raw (locate_cpu true top scan) ≡ some (goes_on (i, types))
    → increment_counters true cpu top.1 (i, types) (locate_cpu true top scan) ≡ some scan'
    → identify_cpu d alloc true cpu raw scan ≡ some (goes_on scan')
unfolding identify_cpu
identify_cpu-some d alloc cpu p top raw scan scan' i types purpose located found counted =
    followed-some _ p _ _ purpose (
      followed-some _ top _ _ located
        (followed-some _ (goes_on (i, types)) _ _ found (followed-some _ scan' _ _ counted refl)))
