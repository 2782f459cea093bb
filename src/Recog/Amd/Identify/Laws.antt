-- ===== src/Recog/Amd/Identify/Laws.antt =====
-- `cpuid_identify_amd` returns, and names the processor.
use libcpuid.Base.{
  ℕ, zero, suc, Bool, true, ◌&&◌, ◌||◌, List, [], ◌∷◌, some, ◌≡◌, ◌⊎◌, refl, sym, subst, arith,
  ◌==◌, length, length-take, Bool-cases, inl, inr, get_elem?, extracts_bit, extracts_bits,
  none-ne-some, some-injective,
}
use libcpuid.Data.Kinds.{num_cache_types, CpuPurpose, general}
use libcpuid.Data.Raw.{Regs, RawData, row, max_sub_level}
use libcpuid.Data.CpuId.{CpuId}
use libcpuid.Util.Level.{decode_architecture_version_x86}
use libcpuid.Util.Cache.{Decoded}
use libcpuid.Util.Cache.Table.{decode_deterministic_cache_info_x86-IsDecoded}
use libcpuid.Recog.Outcome.{Outcome, with_id}
use libcpuid.Recog.Outcome.Laws.{IsNamed, name_by-IsNamed, followed-some}
use libcpuid.Recog.Amd.Table.{cpudb_amd}
use libcpuid.Recog.Amd.Features.{load_amd_features}
use libcpuid.Recog.Amd.Decode.{
  core_purpose, decode_amd_cache_info, decode_amd_number_of_cores, find_heterogeneous,
  cpuid_identify_purpose_amd,
}
use libcpuid.Recog.Amd.Identify.{
  has_topology_extensions, amd_caches, amd_counts, cpuid_identify_amd,
}

amd_caches-some :
    (raw : RawData) (d : Decoded)
    → length d.cache_mask ≡ num_cache_types
    → (cached : Decoded) × (amd_caches raw d ≡ some cached)
unfolding amd_caches
amd_caches-some raw d h = elim (Bool-cases (has_topology_extensions raw)) [
  | inl there ↦
      let (cached, same, decoded) =
        decode_deterministic_cache_info_x86-IsDecoded raw.amd_fn8000001dh max_sub_level d
          (omega (arith, length-take max_sub_level raw.amd_fn8000001dh)) h in
      (cached, rw there same)
  | inr missing ↦ (with_id d (decode_amd_cache_info raw d.id), rw missing refl)
]

-- A row of leaf 80000026h at which the loop of `cpuid_identify_purpose_amd` ends: it has no EBX or no
-- ECX, or it is a level of heterogeneous cores.
abbrev pub ends_search : Regs → Bool
ends_search regs =
    (regs.ebx == 0 || regs.ecx == 0)
    || (extracts_bit regs.eax 30 == 1 && extracts_bits regs.ecx 15 8 == 1)

-- The leaf is missing, or one of its rows ends the loop.
abbrev pub EndsSearch : RawData → Type 0
EndsSearch raw =
    ((row raw.amd_fn80000026h 0).eax ≡ 0)
    ⊎ ((k : ℕ) × (regs : Regs) × (get_elem? raw.amd_fn80000026h k ≡ some regs)
        × (ends_search regs ≡ true))

-- The first row ends the loop, or it leaves the result to the others.
find_heterogeneous-first :
    (first : Regs) (rows : List Regs)
    → ends_search first ≡ true ⊎ ((purpose : CpuPurpose) × (find_heterogeneous rows ≡ some purpose))
    → (purpose : CpuPurpose) × (find_heterogeneous (first ∷ rows) ≡ some purpose)
unfolding find_heterogeneous
find_heterogeneous-first first rows h = elim (Bool-cases (first.ebx == 0 || first.ecx == 0)) [
  | inl blank ↦ (general, rw (blank, find_heterogeneous) refl)
  | inr live ↦
      elim (Bool-cases (extracts_bit first.eax 30 == 1 && extracts_bits first.ecx 15 8 == 1)) [
        | inl mixed ↦ (
          core_purpose (extracts_bits first.ebx 31 28),
          rw (live, mixed, find_heterogeneous) refl,
        )
        | inr plain ↦ elim h [
          | inl ends ↦ absurd (ground (arith, rw (live, plain) at ends))
          | inr (purpose, found) ↦ (purpose, rw (live, plain, find_heterogeneous) found)
        ]
      ]
]

find_heterogeneous-some :
    (rows : List Regs) (k : ℕ) (regs : Regs)
    → get_elem? rows k ≡ some regs
    → ends_search regs ≡ true
    → (purpose : CpuPurpose) × (find_heterogeneous rows ≡ some purpose)
find_heterogeneous-some [] k regs at ends = absurd (none-ne-some _ at)
find_heterogeneous-some (first ∷ rows) zero regs at ends =
    find_heterogeneous-first first rows
      (inl (subst (λ r. ends_search r ≡ true) (sym (some-injective _ _ at)) ends))
find_heterogeneous-some (first ∷ rows) (suc k) regs at ends =
    find_heterogeneous-first first rows (inr (find_heterogeneous-some rows k regs at ends))

cpuid_identify_purpose_amd-some :
    (raw : RawData)
    → EndsSearch raw
    → (purpose : CpuPurpose) × (cpuid_identify_purpose_amd raw ≡ some purpose)
unfolding cpuid_identify_purpose_amd
cpuid_identify_purpose_amd-some raw (inl missing) = (general, rw missing refl)
cpuid_identify_purpose_amd-some raw (inr (k, regs, at, ends)) =
    let (purpose, found) = find_heterogeneous-some raw.amd_fn80000026h k regs at ends in
    elim (Bool-cases ((row raw.amd_fn80000026h 0).eax == 0)) [
      | inl missing ↦ (general, rw missing refl)
      | inr there ↦ (purpose, rw there found)
    ]

-- Where leaf 80000026h is missing or one of its rows ends the search for the kind of core, and for a
-- `cache_mask` of its size, `cpuid_identify_amd` returns with no access outside its arrays. It names the
-- processor that its decoders describe by the first entry of `cpudb_amd` with the highest score, and
-- stores that score.
pub cpuid_identify_amd-IsNamed :
    (old : Bool) (raw : RawData) (d : Decoded)
    → EndsSearch raw
    → length d.cache_mask ≡ num_cache_types
    → (cached : Decoded) × (amd_caches raw (with_id d (load_amd_features raw d.id)) ≡ some cached)
      × ((counted : CpuId) × (amd_counts old raw cached.id ≡ some counted)
          × ((o : Outcome) × (cpuid_identify_amd old raw d ≡ some o) × IsNamed cpudb_amd counted o))
unfolding cpuid_identify_amd amd_counts
cpuid_identify_amd-IsNamed old raw d ends h =
    let (cached, stored) = amd_caches-some raw (with_id d (load_amd_features raw d.id)) h in
    let (purpose, found) = cpuid_identify_purpose_amd-some raw ends in
    let counted =
      record (decode_architecture_version_x86 old (decode_amd_number_of_cores raw cached.id)) {
        purpose = purpose;
      } in
    let counts : amd_counts old raw cached.id ≡ some counted =
      followed-some _ purpose _ _ found refl in
    let (o, returned, named) = name_by-IsNamed cpudb_amd (with_id cached counted) (omega arith) in
    (
      cached,
      stored,
      (
        counted,
        counts,
        (o, followed-some _ cached _ _ stored (followed-some _ counted _ _ counts returned), named),
      ),
    )
