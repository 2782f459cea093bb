-- ===== src/Util/Pattern/Entry.antt =====
-- `xmatch_entry` decides whether a character fits the first item of a pattern.
use libcpuid.Base.{
  ℕ, zero, suc, ◌+◌, ◌≤◌, ◌<◌, true, ◌&&◌, List, [], ◌∷◌, ◌++◌, some, ◌≡◌, ◌≢◌, inl, inr, refl, ap,
  ◌∙◌, arith, take, drop, length, ◌==◌, Option-cases, Bool-cases, ==_iff, ◌↔◌,
}
use libcpuid.Util.Ctype.{tolower, isdigit}
use libcpuid.Util.Pattern.{bracket_end, in_class, xmatch_class, xmatch_entry}
use libcpuid.Util.Pattern.Language.{Lacks, Holds, Fits, literal, any, digit, one_of}

-- Where the bracket is found, it closes the set: the set holds no bracket.
bracket_end_splits :
    (q : List ℕ) (j : ℕ)
    → bracket_end q ≡ some j
    → (q ≡ take j q ++ (b']' ∷ drop (suc j) q)) × Lacks b']' (take j q) × (j < length q)
unfolding bracket_end
bracket_end_splits [] j e = cc
bracket_end_splits (x ∷ q) zero e = elim (Bool-cases (x == b']')) [
  | inl close ↦ (ap (λ y. y ∷ q) ((==_iff x b']').0 close), tt, omega arith)
  | inr other ↦ elim (Option-cases (bracket_end q)) [
    | inl unclosed ↦ ground arith
    | inr (k, found) ↦ ground arith
  ]
]
bracket_end_splits (x ∷ q) (suc j) e = elim (Bool-cases (x == b']')) [
  | inl close ↦ ground arith
  | inr other ↦ elim (Option-cases (bracket_end q)) [
    | inl unclosed ↦ ground arith
    | inr (k, found) ↦
        let (splits, lacks, below) = bracket_end_splits q j (ground arith) in
        (ap (◌∷◌ x) splits, (ground arith, lacks), omega arith)
  ]
]

-- A set that holds no bracket is found to end where it does.
bracket_end-append :
    (ms q : List ℕ) → Lacks b']' ms → bracket_end (ms ++ (b']' ∷ q)) ≡ some (length ms)
unfolding bracket_end
bracket_end-append [] q l = refl
bracket_end-append (x ∷ ms) q l = ground (arith, bracket_end-append ms q l.1)

take-append : (xs ys : List ℕ) → take (length xs) (xs ++ ys) ≡ xs
take-append [] ys = refl
take-append (x ∷ xs) ys = ap (◌∷◌ x) (take-append xs ys)

drop-append : (xs : List ℕ) (y : ℕ) (ys : List ℕ) → drop (suc (length xs)) (xs ++ (y ∷ ys)) ≡ ys
drop-append [] y ys = refl
drop-append (x ∷ xs) y ys = drop-append xs y ys

in_class_iff : (c : ℕ) (q : List ℕ) → (in_class c q ≡ true) ↔ Holds c q
unfolding in_class
in_class_iff c [] = ground arith
in_class_iff c (x ∷ q) = ground (arith, in_class_iff c q)

lower_bracket : (c : ℕ) → tolower c ≡ tolower b'[' → c ≡ b'['
unfolding tolower
lower_bracket c h = ground arith

lower_nul : (c : ℕ) → tolower c ≡ tolower 0 → c ≡ 0
unfolding tolower
lower_nul c h = ground arith

drop_past : (j x : ℕ) (q : List ℕ) → drop (j + 2) (x ∷ q) ≡ drop (suc j) q
drop_past j x q = let e : j + 2 ≡ suc (suc j) = omega arith in rw e

xmatch_class_sound :
    (c : ℕ) (q : List ℕ) (d : ℕ)
    → c ≢ b'['
    → xmatch_class c q ≡ some d
    → Fits c (b'[' ∷ q) (drop d (b'[' ∷ q)) × (0 < d) × (d ≤ suc (length q))
unfolding xmatch_class
xmatch_class_sound c q d ne e = elim (Option-cases (bracket_end q)) [
  | inl unclosed ↦ absurd (ground arith)
  | inr (j, found) ↦ elim (Bool-cases (in_class c (take j q))) [
    | inl holds ↦
        let (splits, lacks, below) = bracket_end_splits q j found in
        let width : d ≡ j + 2 = ground arith in
        (
          rw (width, drop_past)
              (one_of (take j q) (ap (◌∷◌ b'[') splits) ne lacks
                ((in_class_iff c (take j q)).0 holds)),
          omega arith,
          omega arith,
        )
    | inr fails ↦ absurd (ground arith)
  ]
]

-- Where `xmatch_entry` uses up `d` characters, the character fits the item and `d` is its width.
pub xmatch_entry_sound :
    (c : ℕ) (p : List ℕ) (d : ℕ)
    → xmatch_entry c p ≡ some d
    → (c ≢ 0) × Fits c p (drop d p) × (0 < d) × (d ≤ length p)
unfolding xmatch_entry
xmatch_entry_sound c [] d e = absurd (ground (arith, lower_nul c))
xmatch_entry_sound c (x ∷ q) d e = elim (Bool-cases (c == 0)) [
  | inl nul ↦ absurd (ground arith)
  | inr text ↦ elim (Bool-cases (tolower c == tolower x)) [
    | inl same ↦ one (ground arith) (literal (ground arith))
    | inr differs ↦ elim (Bool-cases (x == b'.')) [
      | inl dot ↦ one (ground arith) (any (ground arith))
      | inr no_dot ↦ elim (Bool-cases (x == b'#' && isdigit c)) [
        | inl number ↦ one (ground arith) (digit (ground arith) (ground arith))
        | inr other ↦ elim (Bool-cases (x == b'[')) [
          | inl opens ↦
              let x_is : x ≡ b'[' = (==_iff x b'[').0 opens in
              let other_text : c ≢ b'[' = λ c_is. ground arith in
              let class : xmatch_class c q ≡ some d = ground arith in
              let (fits, low, high) = xmatch_class_sound c q d other_text class in
              ((λ nul. ground arith), rw x_is fits, low, high)
          | inr none_of_these ↦ absurd (ground arith)
        ]
      ]
    ]
  ]
]
  where
    one :
        d ≡ 1
        → Fits c (x ∷ q) q
        → (c ≢ 0) × Fits c (x ∷ q) (drop d (x ∷ q)) × (0 < d) × (d ≤ suc (length q))
    one w fits = (ground arith, rw w fits, omega arith, omega arith)

xmatch_class_complete :
    (c : ℕ) (ms q : List ℕ)
    → Lacks b']' ms
    → Holds c ms
    → xmatch_class c (ms ++ (b']' ∷ q)) ≡ some (length ms + 2)
unfolding xmatch_class
xmatch_class_complete c ms q lacks holds =
    ground
      (arith, bracket_end-append ms q lacks, take-append ms (b']' ∷ q), (in_class_iff c ms).1 holds)

-- Every way in which a character fits the first item is found, with the width of that item.
pub xmatch_entry_complete :
    {c : ℕ} {p q : List ℕ}
    → c ≢ 0
    → Fits c p q
    → (d : ℕ) × (xmatch_entry c p ≡ some d) × (drop d p ≡ q)
unfolding xmatch_entry
xmatch_entry_complete ne (literal same) = (1, ground arith, refl)
xmatch_entry_complete {c} ne (any {x} dot) = (1, ground arith, refl)
xmatch_entry_complete {c} ne (digit {x} hash number) = (1, ground arith, refl)
xmatch_entry_complete {c} {p} {q} ne (one_of ms splits other lacks holds) = rw splits (
  length ms + 2,
  ground (arith, lower_bracket c, xmatch_class_complete c ms q lacks holds),
  drop_past (length ms) b'[' (ms ++ (b']' ∷ q)) ∙ drop-append ms b']' q,
)
