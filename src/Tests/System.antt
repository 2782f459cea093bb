-- ===== src/Tests/System.antt =====
-- Systems of a few CPUs.
use libcpuid.Base.{
  ℕ, Bool, true, false, List, [], ◌∷◌, some, ◌≡◌, ◌⊎◌, inl, inr, refl, subst, arith, ◌==◌,
  replicate, ltb, if◌then◌else◌, get_elem?, pos, sym, none-ne-some,
}
use libcpuid.Data.Kinds.{performance, efficiency, CpuError, ok, cpu_unkn, handle, is_ok, arch_arm}
use libcpuid.Data.Raw.{RawData, raw_data_t_constructor, zero_regs}
use libcpuid.Data.CpuId.{cpu_id_t_constructor, mask_setsize}
use libcpuid.Util.Cache.{Decoded}
use libcpuid.Detect.Basic.{cpuid_architecture_identify}
use libcpuid.Detect.Ident.{Host}
use libcpuid.Detect.Instances.{core_id_index}
use libcpuid.Detect.System.{
  Detector, SystemId, goes_on, returns, call_locate, cpuid_find_index_system_id, new_type, grow,
  find_or_add, locate_cpu, identify_cpu,
}
use libcpuid.Detect.Topology.{Topology}
use libcpuid.Detect.System.Run.{
  identify_cpus, total_all, RawArray, absent, array_of, identify_array, answered, all_of,
  cpu_identify_all, cpu_request_core_type,
}
use libcpuid.Detect.System.Groups.{group_all, no_groups, length-place_all_bound}
use libcpuid.Detect.System.Step.{AllInside}
use libcpuid.Detect.System.Laws.{IsGood}
use libcpuid.Detect.System.Refines.{AreGroups, cpu_identify_all-AreGroups}
use libcpuid.Detect.System.Partition.{types_with, cpus_of, cpu_identify_all-divides}
use libcpuid.Detect.System.Errors.{cpu_identify_all-fails}
use libcpuid.Detect.System.Request.{IsFirst, cpu_request_core_type-IsFirst}
use libcpuid.Detect.System.Native.{native, cpu_identify_all-arm}
use libcpuid.Recog.Outcome.{followed}

-- A CPU with MIDR 1 is one of performance, every other one of efficiency; all are in package 0, and the
-- core is the number of the CPU.
abbrev decoded_of : RawData → Decoded
decoded_of raw = record {
  id = record cpu_id_t_constructor {
    affinity_mask = replicate mask_setsize 0;
    purpose = if raw.arm_midr == 1 then performance else efficiency;
  };
  cache_mask = [];
}

abbrev placed : ℕ → Topology
placed cpu = record {
  apic_id = pos cpu;
  package_id = pos 0;
  core_id = pos cpu;
  smt_id = pos 0;
  logical_cpu = cpu;
}

abbrev hybrid : Detector
hybrid = record {
  purpose = λ raw. some (if raw.arm_midr == 1 then performance else efficiency);
  identify = λ raw. some (ok, decoded_of raw);
  locate = λ cpu raw. some (true, placed cpu);
}

abbrev p_core : RawData
p_core = record raw_data_t_constructor { arm_midr = 1 }

abbrev e_core : RawData
e_core = record raw_data_t_constructor { arm_midr = 2 }

abbrev three : List RawData
three = p_core ∷ e_core ∷ p_core ∷ []

abbrev memory : ℕ → Bool
memory i = true

hybrid-IsGood : (cpu : ℕ) (raw : RawData) → IsGood hybrid (λ masks. masks ≡ []) cpu raw
unfolding core_id_index
hybrid-IsGood cpu raw = record {
  decoded = decoded_of raw;
  identified = refl;
  purpose = refl;
  empty = refl;
  allowed = refl;
  located = (true, placed cpu);
  place = refl;
  inside =
      λ masks e found. (λ h. none-ne-some _ (sym h), subst (AllInside (placed cpu)) (sym e) tt);
}

cpu_identify_all-AreGroups_example :
    (system : SystemId) × (cpu_identify_all hybrid memory true (all_of three)
      ≡ some (answered (goes_on system)))
    × AreGroups 3 system.cpu_types (group_all hybrid three)
cpu_identify_all-AreGroups_example =
    cpu_identify_all-AreGroups (λ masks. masks ≡ []) hybrid memory three (λ i. refl) (omega arith)
      (omega (arith, length-place_all_bound hybrid 0 three no_groups))
      (hybrid-IsGood 0 p_core, (hybrid-IsGood 1 e_core, (hybrid-IsGood 2 p_core, tt)))

cpu_identify_all-divides_example :
    (system : SystemId) × (cpu_identify_all hybrid memory true (all_of three)
      ≡ some (answered (goes_on system)))
    × (((cpu : ℕ) → types_with cpu system.cpu_types ≡ (if ltb cpu 3 then 1 else 0))
        × (cpus_of system.cpu_types ≡ 3))
cpu_identify_all-divides_example =
    cpu_identify_all-divides (λ masks. masks ≡ []) hybrid memory three (λ i. refl) (omega arith)
      (omega (arith, length-place_all_bound hybrid 0 three no_groups))
      (hybrid-IsGood 0 p_core, (hybrid-IsGood 1 e_core, (hybrid-IsGood 2 p_core, tt)))

-- No leaf of x86 and no Intel SGX.
abbrev arm_host : Host
arm_host = record { exec = λ i. zero_regs; old = false; total_cpus = pos 3 }

p_core_arm : cpuid_architecture_identify p_core ≡ arch_arm
unfolding cpuid_architecture_identify raw_data_t_constructor
p_core_arm = refl

e_core_arm : cpuid_architecture_identify e_core ≡ arch_arm
unfolding cpuid_architecture_identify raw_data_t_constructor
e_core_arm = refl

cpu_identify_all-arm_example :
    (system : SystemId) × (cpu_identify_all (native arm_host) memory true (all_of three)
      ≡ some (answered (goes_on system)))
    × AreGroups 3 system.cpu_types (group_all (native arm_host) three)
cpu_identify_all-arm_example =
    cpu_identify_all-arm arm_host memory three (λ i. refl) (omega arith)
      (omega (arith, length-place_all_bound (native arm_host) 0 three no_groups))
      (p_core_arm, (e_core_arm, (p_core_arm, tt)))

-- No CPU is known.
abbrev blind : Detector
blind = record hybrid { identify = λ raw. some (cpu_unkn, decoded_of raw) }

blind_fails :
    cpu_identify_all blind memory true (all_of three)
    ≡ some (answered (returns cpu_unkn ((decoded_of p_core).id ∷ [])))
unfolding cpu_identify_all array_of identify_array identify_cpus identify_cpu call_locate locate_cpu
    find_or_add cpuid_find_index_system_id grow new_type total_all followed
blind_fails = refl

cpu_identify_all-fails_example :
    ((true ≡ false) × (cpu_unkn ≡ handle))
    ⊎ (((array : RawArray) × (all_of three ≡ absent cpu_unkn array) × (is_ok cpu_unkn ≡ false))
        ⊎ ((array : RawArray) × (array_of (all_of three) ≡ inr array)
            × ((k : ℕ) × (raw : RawData) × ((get_elem? array.raw k ≡ some raw)
                  × ((decoded : Decoded) × (blind.identify raw ≡ some (cpu_unkn, decoded))
                      × (is_ok cpu_unkn ≡ false))))))
cpu_identify_all-fails_example =
    cpu_identify_all-fails blind memory true (all_of three) cpu_unkn
      (answered (returns cpu_unkn ((decoded_of p_core).id ∷ []))) blind_fails refl

cpu_request_core_type-IsFirst_example :
    ((r : CpuError) × (array_of (all_of three) ≡ inl r)
      × (cpu_request_core_type hybrid efficiency (all_of three) cpu_id_t_constructor
          ≡ some (r, cpu_id_t_constructor)))
    ⊎ ((array : RawArray) × (array_of (all_of three) ≡ inr array)
        × IsFirst hybrid efficiency array.raw cpu_id_t_constructor
            (cpu_request_core_type hybrid efficiency (all_of three) cpu_id_t_constructor))
cpu_request_core_type-IsFirst_example =
    cpu_request_core_type-IsFirst hybrid efficiency (all_of three) cpu_id_t_constructor
