-- ===== src/Tests/Topology.antt =====
-- The parts of an APIC ID and the signature on concrete data.
use libcpuid.Base.{ℕ, some, ◌||◌, true, false, [], ◌∷◌, ◌≡◌, refl, arith, pos, replicate}
use libcpuid.Data.Feature
use libcpuid.Data.Kinds.{ok, cpu_unkn}
use libcpuid.Data.Raw.{Regs, RawData, row, raw_data_t_constructor, zero_regs}
use libcpuid.Data.CpuId.{cpu_id_t_constructor}
use libcpuid.Detect.Vendor.{cpuid_vendor_identify}
use libcpuid.Detect.Features.{load_features_common}
use libcpuid.Detect.Features.Laws.{is_common, load_features_common-announced}
use libcpuid.Detect.Basic.{is_unknown_vendor, cpuid_basic_identify}
use libcpuid.Detect.Basic.Laws.{IsIdentified, cpuid_basic_identify-IsIdentified}
use libcpuid.Detect.Topology.{
  Topology, topology_t_constructor, is_level, core_shift, store_level, store_levels, enumerate,
}
use libcpuid.Recog.Outcome.{followed}
use libcpuid.Detect.Topology.Laws.{IsTwoLevel, IsDivided, enumerate-IsDivided, enumerate-injective}

-- Two threads in a core, 32 IDs in a package; the APIC ID is 37.
abbrev smt_level : Regs
smt_level = record { eax = 1; ebx = 2; ecx = 256; edx = 37 }

abbrev core_level : Regs
core_level = record { eax = 5; ebx = 16; ecx = 513; edx = 37 }

two_levels : IsTwoLevel smt_level core_level zero_regs
unfolding is_level
two_levels = record {
  is_smt = record { live = refl; type = refl };
  is_core = record { live = refl; type = refl };
  ends = refl;
  in_order = omega arith;
  same_id = refl;
  word = omega arith;
}

enumerate-IsDivided_example :
    (found : Topology) × (enumerate
        (smt_level ∷ core_level ∷ zero_regs ∷ [])
        (topology_t_constructor 0)
      ≡ some (true, found))
    × IsDivided 37 found
enumerate-IsDivided_example =
    enumerate-IsDivided smt_level core_level zero_regs [] (topology_t_constructor 0) two_levels

abbrev found_at : ℕ → Topology
found_at cpu = record {
  apic_id = pos 37;
  package_id = pos 32;
  core_id = pos 4;
  smt_id = pos 1;
  logical_cpu = cpu;
}

finds :
    (cpu : ℕ)
    → enumerate (smt_level ∷ core_level ∷ zero_regs ∷ []) (topology_t_constructor cpu)
      ≡ some (true, found_at cpu)
unfolding enumerate core_shift store_levels store_level is_level topology_t_constructor followed
finds cpu = refl

enumerate-injective_example : core_level.edx ≡ core_level.edx
enumerate-injective_example =
    enumerate-injective smt_level core_level zero_regs smt_level core_level zero_regs [] []
      (topology_t_constructor 0) (topology_t_constructor 1) (found_at 0) (found_at 1) two_levels
      two_levels (finds 0) (finds 1) (record { smt = refl; core = refl; socket = refl })

-- An AMD processor of family 25 with its features in leaf 1.
abbrev amd_raw : RawData
amd_raw = record raw_data_t_constructor {
  basic_cpuid =
      record { eax = 16; ebx = 1752462657; ecx = 1145913699; edx = 1769238117 }
      ∷ record { eax = 10489618; ebx = 1050624; ecx = 2130178571; edx = 395049983 }
      ∷ replicate 30 zero_regs;
}

load_features_common-announced_example :
    (load_features_common amd_raw cpu_id_t_constructor).flags Feature.sse2
    ≡ (is_common amd_raw Feature.sse2 || cpu_id_t_constructor.flags Feature.sse2)
load_features_common-announced_example =
    load_features_common-announced amd_raw cpu_id_t_constructor Feature.sse2

cpuid_basic_identify-IsIdentified_example :
    let (vendor, vendor_str) = cpuid_vendor_identify (row amd_raw.basic_cpuid 0) in
    let named = record cpu_id_t_constructor { vendor = vendor; vendor_str = vendor_str } in
    let (error, after) = cpuid_basic_identify (pos 16) amd_raw cpu_id_t_constructor in
    (is_unknown_vendor vendor ≡ true → (error ≡ cpu_unkn) × (after ≡ named))
    × (is_unknown_vendor vendor ≡ false → (error ≡ ok) × IsIdentified (pos 16) amd_raw named after)
cpuid_basic_identify-IsIdentified_example =
    cpuid_basic_identify-IsIdentified (pos 16) amd_raw cpu_id_t_constructor
