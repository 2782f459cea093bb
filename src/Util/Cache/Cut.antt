-- ===== src/Util/Cache/Cut.antt =====
-- The rows behind the first empty one do not count.
use libcpuid.Base.{
  ℕ, zero, suc, ◌+◌, ◌≤◌, ◌<◌, true, List, [], ◌∷◌, ◌++◌, some, ◌≡◌, refl, ap, ◌∙◌, arith, take,
  length, ltb, Bool-cases, Option-cases, inl, inr,
}
use libcpuid.Data.Kinds.{num_cache_types}
use libcpuid.Data.Raw.{Regs}
use libcpuid.Util.Cache.{
  Decoded, is_last, known_type, decode_rows, decode_deterministic_cache_info_x86,
}
use libcpuid.Util.Cache.Table.{IsDecoded, decode_rows-IsDecoded}

decode_rows-cut :
    (i : ℕ) (rows : List Regs) (r : Regs) (more : List Regs) (d : Decoded)
    → is_last r ≡ true
    → decode_rows i (rows ++ (r ∷ more)) d ≡ decode_rows i rows d
unfolding decode_rows
decode_rows-cut i [] r more d h = rw h refl
decode_rows-cut i (s ∷ rows) r more d h = elim (Bool-cases (is_last s)) [
  | inl last ↦ rw last refl
  | inr further ↦ elim (Option-cases (known_type s)) [
    | inl skipped ↦ rw (further, skipped) (decode_rows-cut (i + 1) rows r more d h)
    | inr (c, known) ↦ elim (Bool-cases (ltb i num_cache_types)) [
      | inl inside ↦ rw (further, known, inside) (decode_rows-cut (i + 1) rows r more _ h)
      | inr outside ↦ rw (further, known, outside) refl
    ]
  ]
]

take-short :
    (n : ℕ) (rows : List Regs) (r : Regs) (more : List Regs)
    → length rows < n
    → (rest : List Regs) × (take n (rows ++ (r ∷ more)) ≡ rows ++ (r ∷ rest))
take-short zero rows r more h = elim h [ ]
take-short (suc n) [] r more h = (take n more, refl)
take-short (suc n) (s ∷ rows) r more h =
    let (rest, same) = take-short n rows r more (omega arith) in
    (rest, ap (λ (xs : List Regs). s ∷ xs) same)

-- With at most NUM_CACHE_TYPES rows before an empty one, which is among those that are read,
-- `decode_deterministic_cache_info_x86` stays inside its array. Each cache gets what the last of those
-- rows with its level and type says, and stays as it was if there is none; the mask of a row is stored
-- at the row's own index.
pub decode_deterministic_cache_info_x86-returns :
    (rows : List Regs) (r : Regs) (more : List Regs) (subleaf_count : ℕ) (d : Decoded)
    → is_last r ≡ true
    → length rows < subleaf_count
    → length rows ≤ num_cache_types
    → length d.cache_mask ≡ num_cache_types
    → (d' : Decoded) × (decode_deterministic_cache_info_x86 (rows ++ (r ∷ more)) subleaf_count d
        ≡ some d')
      × IsDecoded 0 rows d d'
unfolding decode_deterministic_cache_info_x86
decode_deterministic_cache_info_x86-returns rows r more subleaf_count d last read short size =
    let (rest, same) = take-short subleaf_count rows r more read in
    let (d', stored, decoded) = decode_rows-IsDecoded 0 rows d (omega arith) size in
    (d', rw same (decode_rows-cut 0 rows r rest d last) ∙ stored, decoded)
