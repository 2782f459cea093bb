-- ===== src/Tests/Recog.antt =====
-- The recognition functions of the vendors on concrete data.
use libcpuid.Base.{
  inr, ℕ, true, false, [], ◌∷◌, none, some, ◌≡◌, ◌≢◌, refl, arith, pos, ◌==◌, ◌++◌, replicate,
}
use libcpuid.Data.Feature
use libcpuid.Data.Raw.{Regs, RawData, row, raw_data_t_constructor, zero_regs}
use libcpuid.Data.CpuId.{CpuId, cpu_id_t_constructor}
use libcpuid.Util.Cache.{Decoded}
use libcpuid.Recog.Outcome.{Outcome, with_id}
use libcpuid.Recog.Outcome.Laws.{IsNamed}
use libcpuid.Recog.Intel.Features.{load_intel_features}
use libcpuid.Recog.Intel.Cache.{decode_intel_oldstyle_cache_info}
use libcpuid.Recog.Intel.Cache.Laws.{IsOldStyle, decode_intel_oldstyle_cache_info-IsOldStyle}
use libcpuid.Recog.Intel.Topology.{decode_intel_extended_topology}
use libcpuid.Recog.Intel.Topology.Laws.{
  CountsOf, HasCounts, decode_intel_extended_topology-HasCounts,
}
use libcpuid.Recog.Intel.Sgx.{cpuid_get_epc, max_epc, decode_intel_sgx_features}
use libcpuid.Recog.Intel.Sgx.Laws.{IsCount, IsSection, decode_intel_sgx_features-IsCount}
use libcpuid.Recog.Intel.Topology.{cpuid_identify_purpose_intel}
use libcpuid.Recog.Intel.Table.{cpudb_intel}
use libcpuid.Recog.Intel.Identify.{intel_caches, intel_cores, intel_sgx, cpuid_identify_intel}
use libcpuid.Recog.Intel.Identify.Laws.{IsRegular, cpuid_identify_intel-IsNamed}
use libcpuid.Recog.Centaur.Table.{cpudb_centaur}
use libcpuid.Recog.Centaur.Identify.{cpuid_identify_centaur}
use libcpuid.Recog.Centaur.Identify.Laws.{HasLeaf4, cpuid_identify_centaur-IsNamed}
use libcpuid.Util.Cache.{is_last}
use libcpuid.Util.Cores.{decode_number_of_cores_x86}
use libcpuid.Util.Level.{decode_architecture_version_x86}
use libcpuid.Base.{leb}
use libcpuid.Recog.Hidden.{cpudb_intel-hidden}
use libcpuid.Util.Codename.{match_cpu_codename}
use libcpuid.Util.Codename.Choice.{IsMatched, match_cpu_codename-IsMatched}
use libcpuid.Recog.Amd.Table.{cpudb_amd}
use libcpuid.Recog.Amd.Features.{load_amd_features}
use libcpuid.Recog.Amd.Decode.{decode_amd_cache_info}
use libcpuid.Recog.Amd.Decode.Caches.{HasCaches, decode_amd_cache_info-HasCaches}
use libcpuid.Recog.Amd.Identify.{amd_caches, amd_counts, cpuid_identify_amd}
use libcpuid.Recog.Amd.Identify.Laws.{cpuid_identify_amd-IsNamed}

-- A row of leaf 4 for a first level data cache of 48 KiB.
abbrev l1_row : Regs
l1_row = record { eax = 469778721; ebx = 46137407; ecx = 63; edx = 0 }

-- Leaves 2 and 4, and a leaf 0Bh with two threads in a core and eight logical CPUs.
abbrev intel_raw : RawData
intel_raw = record raw_data_t_constructor {
  basic_cpuid =
      record { eax = 18; ebx = 0; ecx = 0; edx = 0 }
        ∷ record { eax = 0; ebx = 0; ecx = 256; edx = 4194304 }
        ∷ record { eax = 50462977; ebx = 0; ecx = 0; edx = 206833731 }
        ∷ replicate 15 zero_regs
      ++ (record { eax = 1; ebx = 0; ecx = 0; edx = 9247 } ∷ replicate 13 zero_regs);
  intel_fn4 = l1_row ∷ zero_regs ∷ replicate 6 zero_regs;
  intel_fn11 =
      record { eax = 1; ebx = 2; ecx = 256; edx = 0 }
      ∷ record { eax = 4; ebx = 8; ecx = 513; edx = 0 }
      ∷ zero_regs
      ∷ zero_regs
      ∷ [];
}

decode_intel_oldstyle_cache_info-IsOldStyle_example :
    IsOldStyle
      (row intel_raw.basic_cpuid 2)
      cpu_id_t_constructor
      (decode_intel_oldstyle_cache_info intel_raw cpu_id_t_constructor)
decode_intel_oldstyle_cache_info-IsOldStyle_example =
    decode_intel_oldstyle_cache_info-IsOldStyle intel_raw cpu_id_t_constructor

two_of_eight : CountsOf intel_raw 2 8
two_of_eight = record {
  smt = record { eax = 1; ebx = 2; ecx = 256; edx = 0 };
  core = record { eax = 4; ebx = 8; ecx = 513; edx = 0 };
  third = zero_regs;
  rest = zero_regs ∷ [];
  rows = refl;
  smt_live = refl;
  core_live = refl;
  ends = refl;
  smt_type = refl;
  core_type = refl;
  smt_count = refl;
  core_count = refl;
}

decode_intel_extended_topology-HasCounts_example :
    (◌≢◌ {A = ℕ} 2 0
      → (after : CpuId) × (decode_intel_extended_topology intel_raw cpu_id_t_constructor
          ≡ some (true, after))
        × HasCounts 2 8 after)
    × (◌≡◌ {A = ℕ} 2 0 → decode_intel_extended_topology intel_raw cpu_id_t_constructor ≡ none)
decode_intel_extended_topology-HasCounts_example =
    decode_intel_extended_topology-HasCounts intel_raw cpu_id_t_constructor 2 8 two_of_eight

-- No further section is reported.
abbrev no_more : ℕ → Regs
no_more sub = zero_regs

decode_intel_sgx_features-IsCount_example :
    ((n : ℕ) × ((decode_intel_sgx_features no_more intel_raw
          cpu_id_t_constructor).x86.sgx.num_epc_sections
        ≡ pos n)
      × IsCount (λ i. cpuid_get_epc no_more i intel_raw) 0 max_epc n)
    × ((i : ℕ) → IsSection (cpuid_get_epc no_more i intel_raw))
decode_intel_sgx_features-IsCount_example =
    decode_intel_sgx_features-IsCount no_more intel_raw cpu_id_t_constructor (omega arith)
      (λ e. absurd (omega arith))

-- A level of heterogeneous cores, of which this one is of efficiency.
abbrev mixed_level : Regs
mixed_level = record { eax = 1073741825; ebx = 268435458; ecx = 256; edx = 0 }

-- An AMD processor with 8 cores of 2 threads and the caches of leaves 80000005h and 80000006h.
abbrev amd_raw : RawData
amd_raw = record raw_data_t_constructor {
  basic_cpuid =
      record { eax = 16; ebx = 1752462657; ecx = 1145913699; edx = 1769238117 }
      ∷ record { eax = 10489618; ebx = 1050624; ecx = 2130178571; edx = 395049983 }
      ∷ replicate 30 zero_regs;
  ext_cpuid =
      record { eax = 2147483688; ebx = 0; ecx = 0; edx = 0 }
        ∷ record { eax = 0; ebx = 0; ecx = 70; edx = 1048576 }
        ∷ replicate 3 zero_regs
      ++ (record { eax = 0; ebx = 0; ecx = 537395520; edx = 537395520 }
            ∷ record { eax = 0; ebx = 0; ecx = 33579328; edx = 16814400 }
            ∷ zero_regs
            ∷ record { eax = 0; ebx = 0; ecx = 15; edx = 0 }
            ∷ replicate 21 zero_regs
          ++ (record { eax = 0; ebx = 256; ecx = 0; edx = 0 } ∷ zero_regs ∷ []));
  amd_fn80000026h = mixed_level ∷ replicate 3 zero_regs;
}

abbrev amd_id : CpuId
amd_id = record cpu_id_t_constructor {
  flags = λ f. f == Feature.ht;
  x86 = record cpu_id_t_constructor.x86 {
    family = pos 15;
    ext_family = pos 25;
    ext_model = pos 33;
  };
}

abbrev amd_start : Decoded
amd_start = record { id = amd_id; cache_mask = 0 ∷ 0 ∷ 0 ∷ 0 ∷ 0 ∷ [] }

decode_amd_cache_info-HasCaches_example :
    HasCaches amd_raw amd_id (decode_amd_cache_info amd_raw amd_id)
decode_amd_cache_info-HasCaches_example = decode_amd_cache_info-HasCaches amd_raw amd_id

cpuid_identify_amd-IsNamed_example :
    (cached : Decoded) × (amd_caches amd_raw
        (with_id amd_start (load_amd_features amd_raw amd_start.id))
      ≡ some cached)
    × ((counted : CpuId) × (amd_counts false amd_raw cached.id ≡ some counted)
        × ((o : Outcome) × (cpuid_identify_amd false amd_raw amd_start ≡ some o)
            × IsNamed cpudb_amd counted o))
cpuid_identify_amd-IsNamed_example =
    cpuid_identify_amd-IsNamed false amd_raw amd_start (inr (0, mixed_level, refl, refl)) refl

ends_zero : is_last zero_regs ≡ true
unfolding is_last
ends_zero = refl

regular : IsRegular intel_raw
regular = record {
  caches = l1_row ∷ [];
  ending = zero_regs;
  unused = replicate 6 zero_regs;
  leaf4 = refl;
  ends = ends_zero;
  few = omega arith;
  threads = 2;
  cpus = 8;
  counts = two_of_eight;
  some_thread = λ e. absurd (omega arith);
}

abbrev intel_start : Decoded
intel_start = record { id = cpu_id_t_constructor; cache_mask = 0 ∷ 0 ∷ 0 ∷ 0 ∷ 0 ∷ [] }

cpuid_identify_intel-IsNamed_example :
    (cached : Decoded) × (intel_caches intel_raw
        (with_id intel_start (load_intel_features intel_raw intel_start.id))
      ≡ some cached)
    × ((counted : CpuId) × (intel_cores intel_raw cached.id ≡ some counted)
        × ((o : Outcome) × IsNamed cpudb_intel
              (record (decode_architecture_version_x86 false counted) {
                purpose = cpuid_identify_purpose_intel intel_raw;
              })
              o
            × (cpuid_identify_intel no_more false intel_raw intel_start
                ≡ some (record o {
                  decoded = with_id o.decoded (intel_sgx no_more intel_raw o.decoded.id);
                }))))
cpuid_identify_intel-IsNamed_example =
    cpuid_identify_intel-IsNamed no_more false intel_raw intel_start regular refl

cpuid_identify_centaur-IsNamed_example :
    (cached : Decoded) × HasLeaf4
      (leb 4 (row intel_raw.basic_cpuid 0).eax)
      (l1_row ∷ [])
      intel_start
      cached
    × ((o : Outcome) × (cpuid_identify_centaur false intel_raw intel_start ≡ some o)
        × IsNamed cpudb_centaur
            (decode_architecture_version_x86 false (decode_number_of_cores_x86 intel_raw cached.id))
            o)
cpuid_identify_centaur-IsNamed_example =
    cpuid_identify_centaur-IsNamed false intel_raw intel_start (l1_row ∷ []) zero_regs
      (replicate 6 zero_regs) refl ends_zero (omega arith) refl

abbrev intel_match :
    IsMatched cpudb_intel cpu_id_t_constructor (match_cpu_codename cpudb_intel cpu_id_t_constructor)
intel_match = match_cpu_codename-IsMatched cpudb_intel cpu_id_t_constructor (omega arith)

cpudb_intel-hidden_example : (intel_match.index ≢ 75) × (intel_match.index ≢ 123)
cpudb_intel-hidden_example = cpudb_intel-hidden cpu_id_t_constructor intel_match

abbrev amd_match : IsMatched cpudb_amd amd_id (match_cpu_codename cpudb_amd amd_id)
amd_match = match_cpu_codename-IsMatched cpudb_amd amd_id (omega arith)
