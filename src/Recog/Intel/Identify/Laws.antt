-- ===== src/Recog/Intel/Identify/Laws.antt =====
-- `cpuid_identify_intel` returns, and names the processor.
use libcpuid.Base.{
  ℕ, ◌≤◌, Bool, true, List, ◌∷◌, ◌++◌, some, ◌≡◌, ◌≢◌, refl, arith, length, leb, ltb, Bool-cases,
  inl, inr,
}
use libcpuid.Data.Kinds.{num_cache_types}
use libcpuid.Data.Raw.{Regs, RawData, row, max_intelfn4_level}
use libcpuid.Data.CpuId.{CpuId}
use libcpuid.Util.Cache.{Decoded, is_last}
use libcpuid.Util.Cache.Cut.{decode_deterministic_cache_info_x86-returns}
use libcpuid.Util.Cores.{decode_number_of_cores_x86}
use libcpuid.Util.Level.{decode_architecture_version_x86}
use libcpuid.Recog.Outcome.{Outcome, with_id}
use libcpuid.Recog.Outcome.Laws.{IsNamed, name_by-IsNamed, followed-some}
use libcpuid.Recog.Intel.Table.{cpudb_intel}
use libcpuid.Recog.Intel.Features.{load_intel_features}
use libcpuid.Recog.Intel.Cache.{decode_intel_oldstyle_cache_info}
use libcpuid.Recog.Intel.Topology.{cpuid_identify_purpose_intel}
use libcpuid.Recog.Intel.Topology.Laws.{CountsOf, decode_intel_extended_topology-HasCounts}
use libcpuid.Recog.Intel.Identify.{intel_caches, intel_cores, intel_sgx, cpuid_identify_intel}

-- Leaf 4 describes at most NUM_CACHE_TYPES caches and then ends, and leaf 0Bh counts the CPUs of a core
-- and of the package, the former not as 0.
pub record IsRegular (raw : RawData) : Type 0 where
  pub caches : List Regs
  pub ending : Regs
  pub unused : List Regs
  pub leaf4 : raw.intel_fn4 ≡ caches ++ (ending ∷ unused)
  pub ends : is_last ending ≡ true
  pub few : length caches ≤ num_cache_types
  pub threads : ℕ
  pub cpus : ℕ
  pub counts : CountsOf raw threads cpus
  pub some_thread : threads ≢ 0

intel_caches-some :
    (raw : RawData) (d : Decoded)
    → IsRegular raw
    → length d.cache_mask ≡ num_cache_types
    → (cached : Decoded) × (intel_caches raw d ≡ some cached)
unfolding intel_caches
intel_caches-some raw d h size =
    let (cached, same, decoded) =
      decode_deterministic_cache_info_x86-returns h.caches h.ending h.unused max_intelfn4_level d
        h.ends (omega (arith, h.few)) h.few size in
    elim (Bool-cases (leb 4 (row raw.basic_cpuid 0).eax)) [
      | inl new ↦ (cached, rw (new, h.leaf4) same)
      | inr old ↦ elim (Bool-cases (leb 2 (row raw.basic_cpuid 0).eax)) [
        | inl two ↦ (with_id d (decode_intel_oldstyle_cache_info raw d.id), rw (old, two) refl)
        | inr none_left ↦ (d, rw (old, none_left) refl)
      ]
    ]

intel_cores-some :
    (raw : RawData) (id : CpuId)
    → IsRegular raw
    → (counted : CpuId) × (intel_cores raw id ≡ some counted)
unfolding intel_cores
intel_cores-some raw id h = elim (Bool-cases (ltb (row raw.basic_cpuid 0).eax 11)) [
  | inl old ↦ (decode_number_of_cores_x86 raw id, rw old refl)
  | inr new ↦
      let (after, same, counts) =
        (decode_intel_extended_topology-HasCounts raw id h.threads h.cpus h.counts).0
          h.some_thread in
      (after, rw new (followed-some _ _ _ _ same refl))
]

-- Where leaf 4 describes at most NUM_CACHE_TYPES caches before it ends, and leaf 0Bh counts the CPUs of a
-- core, not as 0, and of the package, `cpuid_identify_intel` returns: it makes no access outside its
-- arrays and no division by zero. It names the processor that its decoders describe by the first entry
-- of `cpudb_intel` with the highest score, stores that score, and decodes SGX last.
pub cpuid_identify_intel-IsNamed :
    (exec : ℕ → Regs) (old : Bool) (raw : RawData) (d : Decoded)
    → IsRegular raw
    → length d.cache_mask ≡ num_cache_types
    → (cached : Decoded) × (intel_caches raw (with_id d (load_intel_features raw d.id))
        ≡ some cached)
      × ((counted : CpuId) × (intel_cores raw cached.id ≡ some counted)
          × ((o : Outcome) × IsNamed cpudb_intel
                (record (decode_architecture_version_x86 old counted) {
                  purpose = cpuid_identify_purpose_intel raw;
                })
                o
              × (cpuid_identify_intel exec old raw d
                  ≡ some (record o {
                    decoded = with_id o.decoded (intel_sgx exec raw o.decoded.id);
                  }))))
unfolding cpuid_identify_intel
cpuid_identify_intel-IsNamed exec old raw d h size =
    let (cached, stored) =
      intel_caches-some raw (with_id d (load_intel_features raw d.id)) h size in
    let (counted, cores) = intel_cores-some raw cached.id h in
    let ready = record (decode_architecture_version_x86 old counted) {
      purpose = cpuid_identify_purpose_intel raw;
    } in
    let (o, named, best) = name_by-IsNamed cpudb_intel (with_id cached ready) (omega arith) in
    (
      cached,
      stored,
      (
        counted,
        cores,
        (
          o,
          best,
          followed-some _ cached _ _ stored
              (followed-some _ counted _ _ cores (followed-some _ o _ _ named refl)),
        ),
      ),
    )
