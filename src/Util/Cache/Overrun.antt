-- ===== src/Util/Cache/Overrun.antt =====
-- Where the loop over the sub-leaves leaves its array.
use libcpuid.Base.{
  ℕ, ◌+◌, ◌≤◌, ◌<◌, true, false, List, [], ◌∷◌, none, some, ◌≡◌, ◌∙◌, arith, take, length, set, ltb,
  lt→ltb, ltb→lt, Bool-cases, inl, inr,
}
use libcpuid.Data.Kinds.{CacheType, num_cache_types}
use libcpuid.Data.Raw.{Regs}
use libcpuid.Util.Cache.{
  Decoded, is_last, known_type, row_info, row_mask, assign_cache_data, decode_rows,
  decode_deterministic_cache_info_x86,
}

-- The sub-leaf names a cache that is known and is not an empty row.
abbrev pub Names : Regs → CacheType → Type 0
Names regs cache = (is_last regs ≡ false) × (known_type regs ≡ some cache)

decode_rows-names :
    (i : ℕ) (regs : Regs) (rows : List Regs) (d : Decoded) (cache : CacheType)
    → Names regs cache
    → i < num_cache_types
    → decode_rows i (regs ∷ rows) d
      ≡ decode_rows (i + 1) rows (record {
        id = assign_cache_data true cache (row_info regs) d.id;
        cache_mask = set d.cache_mask i (row_mask regs);
      })
unfolding decode_rows
decode_rows-names i regs rows d cache (more, known) h =
    let inside : ltb i num_cache_types ≡ true = lt→ltb _ _ h in rw (more, known, inside)

-- All rows name caches.
abbrev pub AllNames : List Regs → Type 0
AllNames [] = Unit
AllNames (r ∷ rows) = ((c : CacheType) × Names r c) × AllNames rows

decode_rows-overruns :
    (i : ℕ) (rows : List Regs) (d : Decoded)
    → AllNames rows
    → num_cache_types < i + length rows
    → i ≤ num_cache_types
    → decode_rows i rows d ≡ none
decode_rows-overruns i [] d all long low = absurd (omega arith)
decode_rows-overruns i (r ∷ rows) d ((c, names), all) long low =
    elim (Bool-cases (ltb i num_cache_types)) [
      | inl inside ↦
          decode_rows-names i r rows d c names (ltb→lt _ _ inside)
          ∙ decode_rows-overruns (i + 1) rows _ all (omega arith) (omega (arith, ltb→lt _ _ inside))
      | inr outside ↦ unfold decode_rows in rw (names.0, names.1, outside)
    ]

-- Where more than NUM_CACHE_TYPES sub-leaves are read and each of them names a known cache,
-- `decode_deterministic_cache_info_x86` writes behind the end of `cache_mask`.
pub decode_deterministic_cache_info_x86-overruns :
    (cache_regs : List Regs) (subleaf_count : ℕ) (d : Decoded)
    → AllNames (take subleaf_count cache_regs)
    → num_cache_types < length (take subleaf_count cache_regs)
    → decode_deterministic_cache_info_x86 cache_regs subleaf_count d ≡ none
unfolding decode_deterministic_cache_info_x86
decode_deterministic_cache_info_x86-overruns cache_regs subleaf_count d all long =
    decode_rows-overruns 0 (take subleaf_count cache_regs) d all (omega arith) (omega arith)
