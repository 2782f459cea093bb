-- ===== src/Detect/System/Partition.antt =====
-- The types that `cpu_identify_all` returns divide the CPUs of the system among them.
use libcpuid.Base.{
  ℕ, ◌+◌, ◌≤◌, true, Bool, List, [], ◌∷◌, some, ◌≡◌, refl, ◌∙◌, arith, length, ltb, if◌then◌else◌,
  ℤ, pos, negsuc,
}
use libcpuid.Data.Raw.{RawData}
use libcpuid.Data.CpuId.{CpuId}
use libcpuid.Util.Affinity.{get_affinity_mask_bit}
use libcpuid.Detect.System.{Detector, SystemId, goes_on}
use libcpuid.Detect.System.Run.{answered, all_of, cpu_identify_all}
use libcpuid.Detect.System.Groups.{
  Group, no_groups, group_all, groups_of, members, groups_of-place_all, members-place_all,
}
use libcpuid.Detect.System.Laws.{AllGood}
use libcpuid.Detect.System.Refines.{AreGroups, no_more, and_group, cpu_identify_all-AreGroups}

-- How many types have a CPU in their mask, and how many CPUs the types have.
abbrev pub types_with : ℕ → List CpuId → ℕ
types_with cpu [] = 0
types_with cpu (id ∷ ids) =
    (if get_affinity_mask_bit cpu id.affinity_mask then 1 else 0) + types_with cpu ids

abbrev pub size : ℤ → ℕ
size (pos n) = n
size (negsuc n) = 0

abbrev pub cpus_of : List CpuId → ℕ
cpus_of [] = 0
cpus_of (id ∷ ids) = size id.num_logical_cpus + cpus_of ids

types_with-groups :
    (n cpu : ℕ) (ids : List CpuId) (groups : List Group)
    → AreGroups n ids groups
    → types_with cpu ids ≡ groups_of cpu groups
types_with-groups n cpu [] [] no_more = refl
types_with-groups n cpu [] (g ∷ groups) m = elim m [ ]
types_with-groups n cpu (id ∷ ids) [] m = elim m [ ]
types_with-groups n cpu (id ∷ ids) (g ∷ groups) (and_group h rest) =
    rw (h.bits cpu, types_with-groups n cpu ids groups rest) refl

cpus_of-groups :
    (n : ℕ) (ids : List CpuId) (groups : List Group)
    → AreGroups n ids groups
    → cpus_of ids ≡ members groups
cpus_of-groups n [] [] no_more = refl
cpus_of-groups n [] (g ∷ groups) m = elim m [ ]
cpus_of-groups n (id ∷ ids) [] m = elim m [ ]
cpus_of-groups n (id ∷ ids) (g ∷ groups) (and_group h rest) =
    rw (h.number, cpus_of-groups n ids groups rest) refl

-- On raw data that the caller gives, read with affinity, of at most 65535 logical CPUs of at most 255
-- groups that can be identified, with a system to fill and memory for all types, cpu_identify_all
-- succeeds; every CPU is in the mask of exactly one type, no number behind the last CPU is in a mask, and
-- the numbers of CPUs of the types add up to that of the system.
pub cpu_identify_all-divides :
    (Allowed : List ℕ → Type 0) (d : Detector) (alloc : ℕ → Bool) (raws : List RawData)
    → ((i : ℕ) → alloc i ≡ true)
    → length raws ≤ 65535
    → length (group_all d raws) ≤ 255
    → AllGood d Allowed 0 raws
    → (system : SystemId) × (cpu_identify_all d alloc true (all_of raws)
        ≡ some (answered (goes_on system)))
      × (((cpu : ℕ) → types_with cpu system.cpu_types ≡ (if ltb cpu (length raws) then 1 else 0))
          × (cpus_of system.cpu_types ≡ length raws))
cpu_identify_all-divides Allowed d alloc raws memory small few good =
    let (system, run, are) =
      cpu_identify_all-AreGroups Allowed d alloc raws memory small few good in
    (
      system,
      run,
      (
        λ cpu.
            types_with-groups (length raws) cpu system.cpu_types (group_all d raws) are
            ∙ ground (arith, groups_of-place_all d 0 raws no_groups (λ other. ground arith) cpu),
        cpus_of-groups (length raws) system.cpu_types (group_all d raws) are
            ∙ omega (arith, members-place_all d 0 raws no_groups),
      ),
    )
