-- ===== src/Util/Cache/Table.antt =====
-- What the loop over the sub-leaves stores.
use libcpuid.Base.{
  ℕ, zero, suc, ◌+◌, ◌≤◌, ◌<◌, true, false, List, [], ◌∷◌, none, some, ◌≡◌, refl, ◌∙◌, arith, take,
  length, get_or, set, length-set, ltb, ◌==◌, if◌then◌else◌, lt→ltb, Bool-cases, Option-cases, inl,
  inr,
}
use libcpuid.Data.Kinds.{CacheType, l1i, l1d, l2, l3, l4, cache_index, num_cache_types}
use libcpuid.Data.Raw.{Regs}
use libcpuid.Data.CpuId.{CpuId, CacheInfo}
use libcpuid.Util.Cache.{
  Decoded, is_last, known_type, row_info, row_mask, assign_cache_data, decode_rows,
  decode_deterministic_cache_info_x86,
}

-- The fields that describe a cache.
abbrev pub info_of : CacheType → CpuId → CacheInfo
info_of l1i id = id.l1_instruction
info_of l1d id = id.l1_data
info_of l2 id = id.l2_level
info_of l3 id = id.l3_level
info_of l4 id = id.l4_level

-- What one known row says of the cache `t`.
unfoldable pub update_info : CacheType → Regs → CacheInfo → CacheInfo
update_info t regs info = elim (known_type regs) [
  | none ↦ info
  | some cache ↦ if cache_index cache == cache_index t then row_info regs else info
]

-- The last row of the cache `t` before the first empty row, or else what was known before.
unfoldable pub described : CacheType → List Regs → CacheInfo → CacheInfo
described t [] info = info
described t (regs ∷ rows) info =
    let rest = described t rows (update_info t regs info) in if is_last regs then info else rest

-- The mask that the rows leave at an index, counted from the first row.
unfoldable pub mask_at : ℕ → List Regs → ℕ → ℕ
mask_at k [] mask = mask
mask_at zero (regs ∷ rows) mask =
    if is_last regs then mask else elim (known_type regs) [ none ↦ mask | some c ↦ row_mask regs ]
mask_at (suc k) (regs ∷ rows) mask =
    let rest = mask_at k rows mask in if is_last regs then mask else rest

pub info_of-assign :
    (t cache : CacheType) (info : CacheInfo) (id : CpuId)
    → info_of t (assign_cache_data true cache info id)
      ≡ (if cache_index cache == cache_index t then info else info_of t id)
unfolding assign_cache_data
info_of-assign t l1i info id =
    elim t
      as (λ t.
        info_of t (record id { l1_instruction = info })
        ≡ (if 0 == cache_index t then info else info_of t id)) [ l1i ↦ refl | _ ↦ refl ]
info_of-assign t l1d info id =
    elim t
      as (λ t.
        info_of t (record id { l1_data = info })
        ≡ (if 1 == cache_index t then info else info_of t id)) [ l1i ↦ refl | _ ↦ refl ]
info_of-assign t l2 info id =
    elim t
      as (λ t.
        info_of t (record id { l2_level = info })
        ≡ (if 2 == cache_index t then info else info_of t id)) [ l1i ↦ refl | _ ↦ refl ]
info_of-assign t l3 info id =
    elim t
      as (λ t.
        info_of t (record id { l3_level = info })
        ≡ (if 3 == cache_index t then info else info_of t id)) [ l1i ↦ refl | _ ↦ refl ]
info_of-assign t l4 info id =
    elim t
      as (λ t.
        info_of t (record id { l4_level = info })
        ≡ (if 4 == cache_index t then info else info_of t id)) [ l1i ↦ refl | _ ↦ refl ]

update_info-none :
    (t : CacheType) (regs : Regs) (info : CacheInfo)
    → known_type regs ≡ none
    → update_info t regs info ≡ info
unfolding update_info
update_info-none t regs info e = rw (e, update_info)

update_info-some :
    (t cache : CacheType) (regs : Regs) (info : CacheInfo)
    → known_type regs ≡ some cache
    → update_info t regs info ≡ (if cache_index cache == cache_index t then row_info regs else info)
unfolding update_info
update_info-some t cache regs info e = rw (e, update_info)

get_or-set :
    (xs : List ℕ) (i j v : ℕ)
    → i < length xs
    → get_or (set xs i v) j 0 ≡ (if i == j then v else get_or xs j 0)
get_or-set [] i j v h = elim h [ ]
get_or-set (x ∷ xs) zero zero v h = refl
get_or-set (x ∷ xs) zero (suc j) v h = ground arith
get_or-set (x ∷ xs) (suc i) zero v h = ground arith
get_or-set (x ∷ xs) (suc i) (suc j) v h = ground (arith, get_or-set xs i j v)

-- `d'` is what the rows from sub-leaf `i` on make of `d`.
pub record IsDecoded (i : ℕ) (rows : List Regs) (d d' : Decoded) : Type 0 where
  pub info : (t : CacheType) → info_of t d'.id ≡ described t rows (info_of t d.id)
  pub masks :
      (k j : ℕ) → j ≡ i + k → get_or d'.cache_mask j 0 ≡ mask_at k rows (get_or d.cache_mask j 0)
  pub kept : (k : ℕ) → k < i → get_or d'.cache_mask k 0 ≡ get_or d.cache_mask k 0
  pub size : length d'.cache_mask ≡ length d.cache_mask

IsDecoded-stop :
    (i : ℕ) (regs : Regs) (rows : List Regs) (d : Decoded)
    → is_last regs ≡ true
    → IsDecoded i (regs ∷ rows) d d
unfolding described mask_at
IsDecoded-stop i regs rows d last = record {
  info = λ t. rw last;
  masks = elim [ zero ↦ λ j e. rw last | suc k ↦ λ j e. rw last ];
  kept = λ k h. refl;
  size = refl;
}

IsDecoded-skip :
    (i : ℕ) (regs : Regs) (rows : List Regs) (d d' : Decoded)
    → is_last regs ≡ false
    → known_type regs ≡ none
    → IsDecoded (i + 1) rows d d'
    → IsDecoded i (regs ∷ rows) d d'
unfolding described mask_at
IsDecoded-skip i regs rows d d' more unknown h = record {
  info = λ t. rw (more, update_info-none t regs (info_of t d.id) unknown) (h.info t);
  masks = elim [
    | zero ↦ λ j e. rw (more, unknown, mask_at) (h.kept j (omega arith))
    | suc k ↦ λ j e. rw more (h.masks k j (omega arith))
  ];
  kept = λ k lt. h.kept k (omega arith);
  size = h.size;
}

IsDecoded-store :
    (i : ℕ) (regs : Regs) (rows : List Regs) (d d' : Decoded) (cache : CacheType)
    → is_last regs ≡ false
    → known_type regs ≡ some cache
    → i < length d.cache_mask
    → IsDecoded
        (i + 1)
        rows
        (record {
          id = assign_cache_data true cache (row_info regs) d.id;
          cache_mask = set d.cache_mask i (row_mask regs);
        })
        d'
    → IsDecoded i (regs ∷ rows) d d'
unfolding described mask_at
IsDecoded-store i regs rows d d' cache more known inside h = record {
  info = λ t.
      rw (more, update_info-some t cache regs (info_of t d.id) known)
        (rw (info_of-assign t cache (row_info regs) d.id) at (h.info t));
  masks = elim [
    | zero ↦
        λ j e. ground (arith, more, known, h.kept j, get_or-set d.cache_mask i j (row_mask regs))
    | suc k ↦ λ j e.
        let apart : (i == j) ≡ false = ground arith in
        rw more (
          rw (get_or-set d.cache_mask i j (row_mask regs) inside, apart) at
            (h.masks k j (omega arith)))
  ];
  kept = λ k lt. ground (arith, h.kept k, get_or-set d.cache_mask i k (row_mask regs));
  size = h.size ∙ length-set d.cache_mask i (row_mask regs);
}

pub decode_rows-IsDecoded :
    (i : ℕ) (rows : List Regs) (d : Decoded)
    → i + length rows ≤ num_cache_types
    → length d.cache_mask ≡ num_cache_types
    → (d' : Decoded) × (decode_rows i rows d ≡ some d') × IsDecoded i rows d d'
unfolding decode_rows
decode_rows-IsDecoded i [] d fits size = (
  d,
  refl,
  record {
    info = λ t. unfold described in refl;
    masks = λ k j e. unfold mask_at in refl;
    kept = λ k h. refl;
    size = refl;
  },
)
decode_rows-IsDecoded i (regs ∷ rows) d fits size = elim (Bool-cases (is_last regs)) [
  | inl last ↦ (d, rw last, IsDecoded-stop i regs rows d last)
  | inr more ↦ elim (Option-cases (known_type regs)) [
    | inl unknown ↦
        let (d', same, h) = decode_rows-IsDecoded (i + 1) rows d (omega arith) size in
        (d', rw (more, unknown) same, IsDecoded-skip i regs rows d d' more unknown h)
    | inr (cache, known) ↦
        let inside : ltb i num_cache_types ≡ true = lt→ltb _ _ (omega arith) in
        let (d', same, h) =
          decode_rows-IsDecoded (i + 1) rows
            (record {
              id = assign_cache_data true cache (row_info regs) d.id;
              cache_mask = set d.cache_mask i (row_mask regs);
            })
            (omega arith) (length-set d.cache_mask i (row_mask regs) ∙ size) in
        (
          d',
          rw (more, known, inside) same,
          IsDecoded-store i regs rows d d' cache more known (omega arith) h,
        )
  ]
]

-- On at most NUM_CACHE_TYPES sub-leaves `decode_deterministic_cache_info_x86` stays inside its array.
-- Each cache gets what the last row of its level and type says, of the rows before the first empty
-- one, and stays as it was if there is none. The mask of a row is stored at the row's own index.
pub decode_deterministic_cache_info_x86-IsDecoded :
    (cache_regs : List Regs) (subleaf_count : ℕ) (d : Decoded)
    → length (take subleaf_count cache_regs) ≤ num_cache_types
    → length d.cache_mask ≡ num_cache_types
    → (d' : Decoded) × (decode_deterministic_cache_info_x86 cache_regs subleaf_count d ≡ some d')
      × IsDecoded 0 (take subleaf_count cache_regs) d d'
unfolding decode_deterministic_cache_info_x86
decode_deterministic_cache_info_x86-IsDecoded cache_regs subleaf_count d fits =
    decode_rows-IsDecoded 0 (take subleaf_count cache_regs) d (omega arith)
