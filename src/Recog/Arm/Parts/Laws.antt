-- ===== src/Recog/Arm/Parts/Laws.antt =====
-- The searches find every row of the tables.
use libcpuid.Base.{
  ℕ, zero, suc, Bool, true, false, not, ◌&&◌, ◌||◌, List, [], ◌∷◌, some, ◌≡◌, refl, ap, ◌∙◌, subst,
  arith, get_elem?, map, ◌==◌, ==_iff, Bool-cases, inl, inr, none-ne-some, some-injective,
}
use libcpuid.Recog.Arm.Id.{ArmIdPart, ArmHwImpl}
use libcpuid.Recog.Arm.Parts.{
  hw_implementer, find_implementer, get_cpu_implementer_from_code, find_part,
  get_cpu_implementer_parts,
}

abbrev elem : ℕ → List ℕ → Bool
elem n [] = false
elem n (k ∷ ks) = k == n || elem n ks

-- No number stands twice in the list.
abbrev distinct : List ℕ → Bool
distinct [] = true
distinct (n ∷ ns) = not (elem n ns) && distinct ns

elem-map :
    {A : Type 0} (id : A → ℕ) (rows : List A) (k : ℕ) (r : A)
    → get_elem? rows k ≡ some r
    → elem (id r) (map id rows) ≡ true
elem-map id [] k r at = absurd (none-ne-some _ at)
elem-map id (x ∷ rows) zero r at = ground (arith, ap id (some-injective _ _ at))
elem-map id (x ∷ rows) (suc k) r at = ground (arith, elem-map id rows k r at)

distinct_apart :
    {A : Type 0} (id : A → ℕ) (x : A) (rows : List A) (k : ℕ) (r : A)
    → distinct (map id (x ∷ rows)) ≡ true
    → get_elem? rows k ≡ some r
    → (id x == id r) ≡ false
distinct_apart id x rows k r d at = elim (Bool-cases (id x == id r)) [
  | inl e ↦
      let twice : elem (id x) (map id rows) ≡ true =
        ap (λ n. elem n (map id rows)) ((==_iff (id x) (id r)).0 e) ∙ elem-map id rows k r at in
      absurd (ground (arith, d, twice))
  | inr e ↦ e
]

distinct_tail : (n : ℕ) (ns : List ℕ) → distinct (n ∷ ns) ≡ true → distinct ns ≡ true
distinct_tail n ns d = ground (arith, d)

same_number : (n : ℕ) → (n == n) ≡ true
same_number n = ground arith

find_part-at :
    (parts : List ArmIdPart) (k : ℕ) (p : ArmIdPart)
    → distinct (map (λ (p : ArmIdPart). p.id) parts) ≡ true
    → get_elem? parts k ≡ some p
    → find_part p.id parts ≡ p
unfolding find_part
find_part-at [] k p d at = absurd (none-ne-some _ at)
find_part-at (x ∷ parts) zero p d at =
    subst (λ (q : ArmIdPart). find_part q.id (x ∷ parts) ≡ q) (some-injective _ _ at)
      (rw (same_number x.id) refl)
find_part-at (x ∷ parts) (suc k) p d at =
    rw (distinct_apart (λ (p : ArmIdPart). p.id) x parts k p d at)
      (find_part-at parts k p (distinct_tail x.id _ d) at)

find_implementer-at :
    (rows : List ArmHwImpl) (k : ℕ) (i : ArmHwImpl)
    → distinct (map (λ (i : ArmHwImpl). i.id) rows) ≡ true
    → get_elem? rows k ≡ some i
    → find_implementer (λ r. r.id == i.id) rows ≡ i
unfolding find_implementer
find_implementer-at [] k i d at = absurd (none-ne-some _ at)
find_implementer-at (x ∷ rows) zero i d at =
    subst (λ (q : ArmHwImpl). find_implementer (λ r. r.id == q.id) (x ∷ rows) ≡ q)
      (some-injective _ _ at) (rw (same_number x.id) refl)
find_implementer-at (x ∷ rows) (suc k) i d at =
    rw (distinct_apart (λ (i : ArmHwImpl). i.id) x rows k i d at)
      (find_implementer-at rows k i (distinct_tail x.id _ d) at)

implementers_distinct : distinct (map (λ (i : ArmHwImpl). i.id) hw_implementer) ≡ true
implementers_distinct = refl

-- The numbers of the parts of each implementer.
abbrev all_distinct : List ArmHwImpl → Bool
all_distinct [] = true
all_distinct (i ∷ rows) = distinct (map (λ (p : ArmIdPart). p.id) i.parts) && all_distinct rows

all_distinct_at :
    (rows : List ArmHwImpl) (k : ℕ) (i : ArmHwImpl)
    → all_distinct rows ≡ true
    → get_elem? rows k ≡ some i
    → distinct (map (λ (p : ArmIdPart). p.id) i.parts) ≡ true
all_distinct_at [] k i d at = absurd (none-ne-some _ at)
all_distinct_at (x ∷ rows) zero i d at =
    subst (λ (q : ArmHwImpl). distinct (map (λ (p : ArmIdPart). p.id) q.parts) ≡ true)
      (some-injective _ _ at) (ground (arith, d))
all_distinct_at (x ∷ rows) (suc k) i d at = all_distinct_at rows k i (ground (arith, d)) at

parts_distinct : all_distinct hw_implementer ≡ true
parts_distinct = refl

pub get_cpu_implementer_from_code-at :
    (k : ℕ) (i : ArmHwImpl)
    → get_elem? hw_implementer k ≡ some i
    → get_cpu_implementer_from_code i.id ≡ i
unfolding get_cpu_implementer_from_code
get_cpu_implementer_from_code-at k i at =
    find_implementer-at hw_implementer k i implementers_distinct at

pub get_cpu_implementer_parts-at :
    (k : ℕ) (i : ArmHwImpl) (j : ℕ) (p : ArmIdPart)
    → get_elem? hw_implementer k ≡ some i
    → get_elem? i.parts j ≡ some p
    → get_cpu_implementer_parts i p.id ≡ p
unfolding get_cpu_implementer_parts
get_cpu_implementer_parts-at k i j p at in_parts =
    find_part-at i.parts j p (all_distinct_at hw_implementer k i parts_distinct at) in_parts
