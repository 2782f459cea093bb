-- ===== src/Util/CpuList/Names.antt =====
-- The list of names has each known name of the table once.
use mathlib.Core.Path.{subst}
use libcpuid.Base.{
  ℕ, Bool, true, false, List, [], ◌∷◌, ◌++◌, ◌≡◌, ◌↔◌, ◌⊎◌, inl, inr, refl, sym, arith, length,
  Bool-cases,
}
use libcpuid.Util.Ctype.{str_eq_iff}
use libcpuid.Util.CpuList.{listed, contains, is_unknown, collect, generic_get_cpu_list}

-- Membership and distinctness by recursion.
abbrev pub Among : List ℕ → List (List ℕ) → Type 0
Among x [] = ⊥
Among x (n ∷ names) = (n ≡ x) ⊎ Among x names

abbrev pub Distinct : List (List ℕ) → Type 0
Distinct [] = Unit
Distinct (n ∷ names) = ¬ Among n names × Distinct names

contains_iff : (names : List (List ℕ)) (x : List ℕ) → (contains names x ≡ true) ↔ Among x names
unfolding contains
contains_iff [] x = ground arith
contains_iff (n ∷ names) x = ground (arith, contains_iff names x, str_eq_iff n x)

Among-append :
    (x y : List ℕ) (names : List (List ℕ)) → Among x (names ++ (y ∷ [])) ↔ (Among x names ⊎ (y ≡ x))
Among-append x y [] = ground arith
Among-append x y (n ∷ names) = ground (arith, Among-append x y names)

Distinct-append :
    (y : List ℕ) (names : List (List ℕ))
    → Distinct names
    → ¬ Among y names
    → Distinct (names ++ (y ∷ []))
Distinct-append y [] d h = (λ a. a, tt)
Distinct-append y (n ∷ names) d h =
    (λ a. apart ((Among-append n y names).0 a), Distinct-append y names d.1 (λ a. h (inr a)))
  where
    apart : Among n names ⊎ (y ≡ n) → ⊥
    apart (inl a) = d.0 a
    apart (inr e) = h (inl (sym e))

-- The names found so far, and those of the rest of the table, each known one once.
record IsCollected (found table result : List (List ℕ)) : Type 0 where
  distinct : Distinct result
  exactly :
      (x : List ℕ) → Among x result ↔ (Among x found ⊎ (Among x table × (is_unknown x ≡ false)))

abbrev Exactly : List (List ℕ) → List (List ℕ) → List (List ℕ) → List ℕ → Type 0
Exactly found table result x =
    Among x result ↔ (Among x found ⊎ (Among x table × (is_unknown x ≡ false)))

skip_unknown :
    (found result : List (List ℕ)) (name : List ℕ) (table : List (List ℕ))
    → is_unknown name ≡ true
    → (x : List ℕ) → Exactly found table result x
    → Exactly found (name ∷ table) result x
skip_unknown found result name table unknown x h = ground arith

skip_old :
    (found result : List (List ℕ)) (name : List ℕ) (table : List (List ℕ))
    → Among name found
    → (x : List ℕ) → Exactly found table result x
    → Exactly found (name ∷ table) result x
skip_old found result name table old x h =
    ground (arith, λ (e : name ≡ x). subst (λ y. Among y found) e old)

add_new :
    (found result : List (List ℕ)) (name : List ℕ) (table : List (List ℕ))
    → is_unknown name ≡ false
    → (x : List ℕ) → Exactly (found ++ (name ∷ [])) table result x
    → Exactly found (name ∷ table) result x
add_new found result name table known x h = ground (arith, Among-append x name found)

collect-IsCollected :
    (alloc : ℕ → Bool) (found table : List (List ℕ))
    → ((n : ℕ) → alloc n ≡ true)
    → Distinct found
    → (result : List (List ℕ)) × (collect alloc found table ≡ listed result)
      × IsCollected found table result
unfolding collect
collect-IsCollected alloc found [] ok d =
    (found, refl, record { distinct = d; exactly = λ x. (inl, ground arith) })
collect-IsCollected alloc found (name ∷ table) ok d = elim (Bool-cases (is_unknown name)) [
  | inl unknown ↦
      let (r, same, h) = collect-IsCollected alloc found table ok d in
      (
        r,
        rw unknown same,
        record {
          distinct = h.distinct;
          exactly = λ x. skip_unknown found r name table unknown x (h.exactly x);
        },
      )
  | inr known ↦ elim (Bool-cases (contains found name)) [
    | inl old ↦
        let (r, same, h) = collect-IsCollected alloc found table ok d in
        (
          r,
          rw (known, old) same,
          record {
            distinct = h.distinct;
            exactly =
                λ x. skip_old found r name table ((contains_iff found name).0 old) x (h.exactly x);
          },
        )
    | inr new ↦
        let fresh : ¬ Among name found = λ a. ground (arith, (contains_iff found name).1 a) in
        let (r, same, h) =
          collect-IsCollected alloc (found ++ (name ∷ [])) table ok
            (Distinct-append name found d fresh) in
        (
          r,
          rw (known, new, ok (length found)) same,
          record {
            distinct = h.distinct;
            exactly = λ x. add_new found r name table known x (h.exactly x);
          },
        )
  ]
]

-- Where every allocation succeeds, `generic_get_cpu_list` lists each name of the table that does not
-- contain "Unknown", and no other, exactly once.
pub generic_get_cpu_list-exactly :
    (alloc : ℕ → Bool) (table : List (List ℕ))
    → ((n : ℕ) → alloc n ≡ true)
    → (names : List (List ℕ)) × (generic_get_cpu_list true alloc table ≡ listed names)
      × Distinct names
      × ((x : List ℕ) → Among x names ↔ (Among x table × (is_unknown x ≡ false)))
unfolding generic_get_cpu_list
generic_get_cpu_list-exactly alloc table ok =
    let (names, same, h) = collect-IsCollected alloc [] table ok tt in
    (names, same, h.distinct, λ x. ground (arith, h.exactly x))
