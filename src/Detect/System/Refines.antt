-- ===== src/Detect/System/Refines.antt =====
-- `cpu_identify_all` returns the groups: each CPU is counted once, for the type that it fits.
use libcpuid.Base.{
  ℕ, ◌/◌, ◌%◌, ◌<◌, ◌≤◌, Bool, true, false, ◌&&◌, List, [], ◌∷◌, some, ◌≡◌, inl, inr, refl, sym,
  subst, arith, length, ltb, ◌==◌, ℤ, pos, negsuc, Bool-cases,
}
use libcpuid.Data.Raw.{RawData}
use libcpuid.Data.CpuId.{CpuId}
use libcpuid.Util.Affinity.{get_affinity_mask_bit}
use libcpuid.Detect.Instances.Count.{occurs}
use libcpuid.Detect.System.{Detector, CpuType, Scan, SystemId, goes_on}
use libcpuid.Detect.System.Run.{
  cores_by_divisor, total_type, total_types, total_system, first_scan, total_all, array_of,
  identify_array, answered, all_of, cpu_identify_all,
}
use libcpuid.Detect.System.Groups.{Group, no_groups, group_all}
use libcpuid.Detect.System.Step.{IsTypeOf, Matches, no_types, one_more}
use libcpuid.Detect.System.Laws.{AllGood}
use libcpuid.Detect.System.Loop.{IsRelated, identify_cpus-IsRelated}
use libcpuid.Recog.Outcome.Laws.{followed-some}

-- What is stored of a group of a system with `num_raw` CPUs.
pub record IsGroup (num_raw : ℕ) (id : CpuId) (g : Group) : Type 0 where
  pub purpose : id.purpose ≡ g.purpose
  pub bits : (cpu : ℕ) → get_affinity_mask_bit cpu id.affinity_mask ≡ occurs cpu g.cpus
  pub number : id.num_logical_cpus ≡ pos (length g.cpus)
  pub members : 0 < length g.cpus
  pub total : id.total_logical_cpus ≡ pos num_raw

pub data AreGroups (num_raw : ℕ) : List CpuId → List Group → Type 0 where
  no_more : AreGroups num_raw [] []
  and_group :
      {id : CpuId} {g : Group} {ids : List CpuId} {groups : List Group}
      → IsGroup num_raw id g
      → AreGroups num_raw ids groups
      → AreGroups num_raw (id ∷ ids) (g ∷ groups)

cores_by_divisor-some :
    (cpus : ℕ) (cores : ℤ) → 0 < cpus → (n : ℤ) × (cores_by_divisor (pos cpus) cores ≡ some n)
unfolding cores_by_divisor
cores_by_divisor-some cpus (negsuc c) h = (pos cpus, refl)
cores_by_divisor-some cpus (pos c) h = elim (Bool-cases (ltb 0 c && cpus % c == 0)) [
  | inl e ↦
      let some_cpus : (cpus == 0) ≡ false = ground arith in
      (pos (cpus / (cpus / c)), rw (e, some_cpus) refl)
  | inr e ↦ (pos cpus, rw e refl)
]

module _ (Allowed : List ℕ → Type 0) where
  total_type-IsGroup :
      (sup : Bool) (n : ℕ) (t : CpuType) (g : Group)
      → IsTypeOf Allowed sup t g
      → 0 < length g.cpus
      → (id : CpuId) × (total_type true sup n t ≡ some id) × IsGroup n id g
  unfolding total_type
  total_type-IsGroup true n t g h some_in = (
    _,
    refl,
    record {
      purpose = h.purpose;
      bits = h.bits;
      number = h.number;
      members = some_in;
      total = refl;
    },
  )
  total_type-IsGroup false n t g h some_in =
      let (cores, run) = cores_by_divisor-some (length g.cpus) t.id.num_cores some_in in
      (
        _,
        followed-some _ cores _ _ (rw h.number run) refl,
        record {
          purpose = h.purpose;
          bits = h.bits;
          number = h.number;
          members = some_in;
          total = refl;
        },
      )

  total_types-AreGroups :
      (sup : Bool) (n : ℕ) (types : List CpuType) (groups : List Group)
      → Matches Allowed sup types groups
      → (ids : List CpuId) × (total_types true sup n types ≡ some ids) × AreGroups n ids groups
  unfolding total_types
  total_types-AreGroups sup n [] [] no_types = ([], refl, no_more)
  total_types-AreGroups sup n [] (g ∷ groups) m = elim m [ ]
  total_types-AreGroups sup n (t ∷ types) [] m = elim m [ ]
  total_types-AreGroups sup n (t ∷ types) (g ∷ groups) (one_more h some_in rest) =
      let (id, one, group) = total_type-IsGroup sup n t g h some_in in
      let (ids, others, kept) = total_types-AreGroups sup n types groups rest in
      (
        id ∷ ids,
        followed-some _ id _ _ one (followed-some _ ids _ _ others refl),
        and_group group kept,
      )

  total_system-types : (scan : Scan) (ids : List CpuId) → (total_system scan ids).cpu_types ≡ ids
  unfolding total_system
  total_system-types scan ids = elim (Bool-cases scan.is_topology_supported) [
    | inl e ↦ rw e refl
    | inr e ↦ rw e refl
  ]

  first-IsRelated : IsRelated Allowed first_scan no_groups
  first-IsRelated = record { located = refl; package_id = refl; matches = no_types }

  -- On raw data that the caller gives, read with affinity, of at most 65535 logical CPUs of at most 255
  -- groups that can be identified, with a system to fill and memory for all types, cpu_identify_all
  -- succeeds, and its types are the groups that the CPUs form by purpose and package: each with the
  -- purpose, a mask of its members and no other CPU, their number, which is not 0, and the number of all
  -- CPUs.
  pub cpu_identify_all-AreGroups :
      (d : Detector) (alloc : ℕ → Bool) (raws : List RawData)
      → ((i : ℕ) → alloc i ≡ true)
      → length raws ≤ 65535
      → length (group_all d raws) ≤ 255
      → AllGood d Allowed 0 raws
      → (system : SystemId) × (cpu_identify_all d alloc true (all_of raws)
          ≡ some (answered (goes_on system)))
        × AreGroups (length raws) system.cpu_types (group_all d raws)
  unfolding cpu_identify_all array_of identify_array total_all
  cpu_identify_all-AreGroups d alloc raws memory small few good =
      let (scan, run, r) =
        identify_cpus-IsRelated Allowed d alloc 0 raws first_scan no_groups memory (omega arith)
          good few first-IsRelated in
      let (ids, totals, kept) =
        total_types-AreGroups scan.is_topology_supported (length raws) scan.types _ (
          subst (λ b. Matches Allowed b scan.types (group_all d raws)) (sym r.located) r.matches) in
      (
        total_system scan ids,
        followed-some _ (goes_on (total_system scan ids)) _ _
            (followed-some _ (goes_on scan) _ _ run (followed-some _ ids _ _ totals refl)) refl,
        subst (λ i. AreGroups (length raws) i (group_all d raws))
            (sym (total_system-types scan ids)) kept,
      )
