-- ===== src/Detect/Instances/Count.antt =====
-- The number of instances is that of the distinct core IDs, modulo 256.
use mathlib.Core.Path.{fun_ext}
use libcpuid.Base.{
  ℕ, zero, suc, ◌+◌, ◌%◌, ◌≤◌, ◌<◌, Bool, true, false, ◌||◌, not, List, [], ◌∷◌, some, ◌≡◌, ◌⊎◌,
  inl, inr, refl, ap, ◌∙◌, arith, get_or, set, replicate, length, length-set, length-replicate,
  ◌==◌, if◌then◌else◌, u8, u16, ℤ, pos, ==_iff, Bool-cases, map,
}
use libcpuid.Detect.Instances.{
  CoreId, cores_htable_size, empty_core, CoreInstances, core_instances_t_constructor, core_id_index,
  update_at, update_core_instances, update_all,
}

-- Whether `k` is one of the IDs, and how many numbers below `n` are.
abbrev pub occurs : ℕ → List ℕ → Bool
occurs k [] = false
occurs k (i ∷ ids) = i == k || occurs k ids

unfoldable pub count_below : ℕ → (ℕ → Bool) → ℕ
count_below zero p = 0
count_below (suc n) p = (if p n then 1 else 0) + count_below n p

-- Whether `j` is counted once `k` is counted too.
abbrev also : ℕ → (ℕ → Bool) → ℕ → Bool
also k p j = k == j || p j

count_below-above : (n k : ℕ) (p : ℕ → Bool) → n ≤ k → count_below n (also k p) ≡ count_below n p
unfolding count_below
count_below-above zero k p h = refl
count_below-above (suc n) k p h = ground (arith, count_below-above n k p)

-- A number that was not counted adds one; one that was counted already changes nothing.
count_below-add :
    (n k : ℕ) (p : ℕ → Bool)
    → k < n
    → count_below n (also k p) ≡ count_below n p + (if p k then 0 else 1)
unfolding count_below
count_below-add zero k p h = elim h [ ]
count_below-add (suc n) k p h = elim (Bool-cases (k == n)) [
  | inl top ↦
      let e : k ≡ n = (==_iff k n).0 top in
      ground (arith, count_below-above n k p (omega arith), ap p e)
  | inr below ↦ ground (arith, count_below-add n k p (ground arith))
]

-- The table after the IDs `ids`, all below its size: each slot counts the IDs that it was given, in
-- 16 bits, and holds the ID that is its index; the instances are those that occur, in 8 bits.
record IsTable (ids : List ℕ) (cores : CoreInstances) : Type 0 where
  size : length cores.htable ≡ cores_htable_size
  slot :
      (k : ℕ)
      → k < cores_htable_size
      → (((get_or cores.htable k empty_core).num_logical_cpu == 0) ≡ not (occurs k ids))
        × (((get_or cores.htable k empty_core).core_id ≡ pos 0)
            ⊎ ((get_or cores.htable k empty_core).core_id ≡ pos k))
  bound : (k : ℕ) → (get_or cores.htable k empty_core).num_logical_cpu ≤ length ids
  counted : cores.instances ≡ u8 (count_below cores_htable_size (λ k. occurs k ids))

get_or-set :
    (xs : List CoreId) (i j : ℕ) (v : CoreId)
    → i < length xs
    → get_or (set xs i v) j empty_core ≡ (if i == j then v else get_or xs j empty_core)
get_or-set [] i j v h = elim h [ ]
get_or-set (x ∷ xs) zero zero v h = refl
get_or-set (x ∷ xs) zero (suc j) v h = ground arith
get_or-set (x ∷ xs) (suc i) zero v h = ground arith
get_or-set (x ∷ xs) (suc i) (suc j) v h = ground (arith, get_or-set xs i j v)

get_or-replicate : (n k : ℕ) → get_or (replicate n empty_core) k empty_core ≡ empty_core
get_or-replicate zero k = refl
get_or-replicate (suc n) zero = refl
get_or-replicate (suc n) (suc k) = get_or-replicate n k

count_below-none : (n : ℕ) → count_below n (λ k. false) ≡ 0
unfolding count_below
count_below-none zero = refl
count_below-none (suc n) = omega (arith, count_below-none n)

constructor-IsTable : IsTable [] core_instances_t_constructor
unfolding core_instances_t_constructor
constructor-IsTable = record {
  size = length-replicate cores_htable_size empty_core;
  slot = λ k h. rw (get_or-replicate cores_htable_size k) (refl, inl refl);
  bound = λ k. rw (get_or-replicate cores_htable_size k) (omega arith);
  counted = omega (arith, count_below-none 256);
}

-- The state after one more logical CPU of the core `k`, where its slot does not hold another core.
abbrev entry_at : ℕ → CoreInstances → CoreId
entry_at k cores = get_or cores.htable k empty_core

abbrev counted_in : ℕ → CoreInstances → CoreInstances
counted_in k cores = record {
  instances =
      if (entry_at k cores).num_logical_cpu == 0 then u8 (cores.instances + 1) else cores.instances;
  htable =
      set cores.htable k (record {
        num_logical_cpu = u16 ((entry_at k cores).num_logical_cpu + 1);
        core_id = pos k;
      });
}

update_at-hit :
    (k : ℕ) (cores : CoreInstances)
    → ((entry_at k cores).core_id ≡ pos 0) ⊎ ((entry_at k cores).core_id ≡ pos k)
    → update_at k (pos k) cores ≡ counted_in k cores
unfolding update_at
update_at-hit k cores (inl e) = rw e
update_at-hit k cores (inr e) = ground (arith, e)

counted_in-IsTable :
    (ids : List ℕ) (k : ℕ) (cores : CoreInstances)
    → k < cores_htable_size
    → length ids < 65535
    → IsTable ids cores
    → IsTable (k ∷ ids) (counted_in k cores)
counted_in-IsTable ids k cores h few t = record {
  size = length-set cores.htable k v ∙ t.size;
  slot = λ j lt. (
    ground (arith, get_or-set cores.htable k j v, t.slot j lt, t.bound k, t.size),
    ground (arith, get_or-set cores.htable k j v, t.slot j lt, t.size),
  );
  bound = λ j. ground (arith, get_or-set cores.htable k j v, t.bound j, t.bound k, t.size);
  counted = ground (arith, t.slot k h, t.counted, count_below-add 256 k (λ j. occurs j ids));
}
  where
    v : CoreId
    v = record { num_logical_cpu = u16 ((entry_at k cores).num_logical_cpu + 1); core_id = pos k }

-- All IDs are below the size of the table.
abbrev pub AllBelow : ℕ → List ℕ → Type 0
AllBelow n [] = Unit
AllBelow n (i ∷ ids) = (i < n) × AllBelow n ids

-- The IDs that the table has been given, the latest first.
abbrev given : List ℕ → List ℕ → List ℕ
given [] before = before
given (i ∷ ids) before = given ids (i ∷ before)

occurs-given :
    (k : ℕ) (ids before : List ℕ) → occurs k (given ids before) ≡ (occurs k ids || occurs k before)
occurs-given k [] before = refl
occurs-given k (i ∷ ids) before = ground (arith, occurs-given k ids (i ∷ before))

update_all-cons :
    (id : ℤ) (ids : List ℤ) (cores : CoreInstances) {cores' : CoreInstances}
    → update_core_instances id cores ≡ some cores'
    → update_all (id ∷ ids) cores ≡ update_all ids cores'
unfolding update_all
update_all-cons id ids cores h = rw (h, update_all)

update_all-IsTable :
    (ids before : List ℕ) (cores : CoreInstances)
    → AllBelow cores_htable_size ids
    → length ids + length before ≤ 65535
    → IsTable before cores
    → (cores' : CoreInstances) × (update_all (map pos ids) cores ≡ some cores')
      × IsTable (given ids before) cores'
update_all-IsTable [] before cores below few t = (cores, unfold update_all in refl, t)
update_all-IsTable (i ∷ ids) before cores below few t =
    let step : update_core_instances (pos i) cores ≡ some (counted_in i cores) =
      unfold update_core_instances core_id_index in
      (let same : i % cores_htable_size ≡ i = omega arith in
        rw same (ap some (update_at-hit i cores (t.slot i below.0).1))) in
    let (cores', runs, t') =
      update_all-IsTable ids (i ∷ before) (counted_in i cores) below.1 (omega arith)
        (counted_in-IsTable before i cores below.0 (omega arith) t) in
    (cores', update_all-cons (pos i) (map pos ids) cores step ∙ runs, t')

-- For logical CPUs, at most 65535, with core IDs below CORES_HTABLE_SIZE, all calls of
-- `update_core_instances` stay inside the table, and `instances` is the number of distinct core IDs,
-- modulo 256 as it is kept in eight bits.
pub update_core_instances-count :
    (ids : List ℕ)
    → AllBelow cores_htable_size ids
    → length ids ≤ 65535
    → (cores : CoreInstances) × (update_all (map pos ids) core_instances_t_constructor ≡ some cores)
      × (cores.instances ≡ u8 (count_below cores_htable_size (λ k. occurs k ids)))
update_core_instances-count ids below few =
    let (cores, runs, t) =
      update_all-IsTable ids [] core_instances_t_constructor below (omega arith)
        constructor-IsTable in
    let same : (λ (k : ℕ). occurs k (given ids [])) ≡ (λ k. occurs k ids) =
      fun_ext (λ k. occurs-given k ids [] ∙ or-false (occurs k ids)) in
    (cores, runs, t.counted ∙ ap (λ (p : ℕ → Bool). u8 (count_below cores_htable_size p)) same)
  where
    or-false : (b : Bool) → (b || false) ≡ b
    or-false true = refl
    or-false false = refl

count_below-all : (n : ℕ) (p : ℕ → Bool) → ((k : ℕ) → k < n → p k ≡ true) → count_below n p ≡ n
unfolding count_below
count_below-all zero p h = refl
count_below-all (suc n) p h =
    rw (h n (omega arith)) (omega (arith, count_below-all n p (λ k lt. h k (omega arith))))

-- With as many distinct cores as the table has slots, the eight bits of `instances` overflow and 0
-- cores are reported.
pub update_core_instances-wraps :
    (ids : List ℕ)
    → AllBelow cores_htable_size ids
    → length ids ≤ 65535
    → ((k : ℕ) → k < cores_htable_size → occurs k ids ≡ true)
    → (cores : CoreInstances) × (update_all (map pos ids) core_instances_t_constructor ≡ some cores)
      × (cores.instances ≡ 0)
update_core_instances-wraps ids below few full =
    let (cores, runs, counted) = update_core_instances-count ids below few in
    let whole = count_below-all 256 (λ k. occurs k ids) full in
    (cores, runs, omega (arith, counted, whole))
