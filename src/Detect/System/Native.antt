-- ===== src/Detect/System/Native.antt =====
-- The functions of libcpuid/cpuid_main.c as the detector of `cpu_identify_all`, and that they can identify
-- every ARM processor.
use libcpuid.Base.{
  ℕ, suc, ◌≤◌, Bool, true, List, [], ◌∷◌, none, some, ◌≡◌, ◌≢◌, inl, inr, refl, ap, sym, ◌∙◌, subst,
  arith, length, replicate, ◌==◌, Bool-cases, extracts_bit, none-ne-some,
}
use libcpuid.Data.Kinds.{arch_arm, ok, num_cache_types}
use libcpuid.Data.Raw.{RawData}
use libcpuid.Data.CpuId.{CpuId, cpu_id_t_constructor}
use libcpuid.Detect.Basic.{cpuid_architecture_identify}
use libcpuid.Detect.Ident.{Host, cleared, cpu_ident_internal, cpu_ident_purpose}
use libcpuid.Detect.Instances.{core_id_index}
use libcpuid.Detect.Topology.{Topology, topology_t_constructor, cpu_ident_id_arm, cpu_ident_id}
use libcpuid.Detect.System.{Detector, SystemId, goes_on}
use libcpuid.Detect.System.Run.{answered, all_of, cpu_identify_all}
use libcpuid.Detect.System.Groups.{group_all}
use libcpuid.Detect.System.Step.{AllInside}
use libcpuid.Detect.System.Laws.{IsGood, AllGood}
use libcpuid.Detect.System.Refines.{AreGroups, cpu_identify_all-AreGroups}
use libcpuid.Recog.Outcome.{with_id, followed}
use libcpuid.Recog.Arm.Identify.{name_arm, cpuid_identify_arm, cpuid_identify_purpose_arm}
use libcpuid.Recog.Arm.Identify.Laws.{identify-name_arm}

-- The error that `cpu_ident_id` sets is always followed by another one.
unfoldable pub native : Host → Detector
native host = record {
  purpose = cpu_ident_purpose;
  identify = cpu_ident_internal host;
  locate = λ cpu raw. followed (cpu_ident_id cpu raw ok) (λ r. some (r.0, r.1.1));
}

-- ARM processors have no cache masks.
abbrev pub NoCaches : List ℕ → Type 0
NoCaches masks = masks ≡ replicate num_cache_types 0

-- A core ID that is found is not negative.
abbrev IsIndex : Bool × Topology → Type 0
IsIndex (found, t) = found ≡ true → core_id_index t.core_id ≢ none

ident_id_arm-IsIndex : (raw : RawData) (t : Topology) → IsIndex (cpu_ident_id_arm raw t)
unfolding cpu_ident_id_arm core_id_index
ident_id_arm-IsIndex raw t = elim (Bool-cases (raw.arm_mpidr == 0)) [
  | inl e ↦ rw e (λ h. absurd (ground (arith, h)))
  | inr e ↦ elim (Bool-cases (extracts_bit raw.arm_mpidr 30 == 1)) [
    | inl u ↦ rw (e, u) (λ h k. absurd (none-ne-some _ (sym k)))
    | inr u ↦ elim (Bool-cases (extracts_bit raw.arm_mpidr 24 == 1)) [
      | inl m ↦ rw (e, u, m) (λ h k. absurd (none-ne-some _ (sym k)))
      | inr m ↦ rw (e, u, m) (λ h k. absurd (none-ne-some _ (sym k)))
    ]
  ]
]

no_caches_inside : (t : Topology) → AllInside t (replicate num_cache_types 0)
no_caches_inside t = (inl refl, (inl refl, (inl refl, (inl refl, (inl refl, tt)))))

ident_arm :
    (host : Host) (raw : RawData)
    → cpuid_architecture_identify raw ≡ arch_arm
    → cpu_ident_internal host raw
      ≡ some (ok, with_id (cleared raw) (cpuid_identify_arm raw (cleared raw).id))
ident_arm host raw e = unfold cpu_ident_internal in (rw (e, cpu_ident_internal) refl)

locate_arm :
    (cpu : ℕ) (raw : RawData)
    → cpuid_architecture_identify raw ≡ arch_arm
    → followed (cpu_ident_id cpu raw ok) (λ r. some (r.0, r.1.1))
      ≡ some (cpu_ident_id_arm raw (topology_t_constructor cpu))
unfolding cpu_ident_id followed
locate_arm cpu raw e = rw (e, cpu_ident_id) refl

purpose_arm :
    (raw : RawData)
    → cpuid_architecture_identify raw ≡ arch_arm
    → cpu_ident_purpose raw ≡ some (cpuid_identify_purpose_arm raw)
unfolding cpu_ident_purpose
purpose_arm raw e = rw (e, cpu_ident_purpose) refl

pub native-IsGood :
    (host : Host) (cpu : ℕ) (raw : RawData)
    → cpuid_architecture_identify raw ≡ arch_arm
    → IsGood (native host) NoCaches cpu raw
unfolding native
native-IsGood host cpu raw e =
    let same = identify-name_arm raw (cleared raw).id in
    record {
      decoded = with_id (cleared raw) (cpuid_identify_arm raw (cleared raw).id);
      identified = ident_arm host raw e;
      purpose =
          purpose_arm raw e
          ∙ ap some (sym (ap (λ (d : CpuId). d.purpose) same ∙ unfold name_arm in refl));
      located = cpu_ident_id_arm raw (topology_t_constructor cpu);
      place = locate_arm cpu raw e;
      empty =
          ap (λ (d : CpuId). d.affinity_mask) same
          ∙ unfold name_arm cleared cpu_id_t_constructor in refl;
      allowed = unfold cleared in refl;
      inside = λ masks none_of found. (
        ident_id_arm-IsIndex raw (topology_t_constructor cpu) found,
        subst (AllInside _) (sym none_of) (no_caches_inside _),
      );
    }

-- All CPUs of a list are ARM processors.
abbrev pub AllArm : List RawData → Type 0
AllArm [] = Unit
AllArm (raw ∷ raws) = (cpuid_architecture_identify raw ≡ arch_arm) × AllArm raws

AllArm-AllGood :
    (host : Host) (cpu : ℕ) (raws : List RawData)
    → AllArm raws
    → AllGood (native host) NoCaches cpu raws
AllArm-AllGood host cpu [] h = h
AllArm-AllGood host cpu (raw ∷ raws) h =
    (native-IsGood host cpu raw h.0, AllArm-AllGood host (suc cpu) raws h.1)

-- On raw data that the caller gives, read with affinity, of ARM processors, of at most 65535 logical CPUs
-- of at most 255 groups, with a system to fill and memory for all types, cpu_identify_all with the
-- functions of cpuid_main.c succeeds, and its types are the groups that the CPUs form by purpose and
-- package.
pub cpu_identify_all-arm :
    (host : Host) (alloc : ℕ → Bool) (raws : List RawData)
    → ((i : ℕ) → alloc i ≡ true)
    → length raws ≤ 65535
    → length (group_all (native host) raws) ≤ 255
    → AllArm raws
    → (system : SystemId) × (cpu_identify_all (native host) alloc true (all_of raws)
        ≡ some (answered (goes_on system)))
      × AreGroups (length raws) system.cpu_types (group_all (native host) raws)
cpu_identify_all-arm host alloc raws memory small few arm =
    cpu_identify_all-AreGroups NoCaches (native host) alloc raws memory small few
      (AllArm-AllGood host 0 raws arm)
