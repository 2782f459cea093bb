-- ===== src/Util/Pattern/Language.antt =====
-- What a brand pattern means, with no reference to how libcpuid/libcpuid_util.c reads it.
use libcpuid.Base.{ℕ, true, List, [], ◌∷◌, ◌++◌, ◌≡◌, ◌≢◌, ◌⊎◌}
use libcpuid.Util.Ctype.{tolower, isdigit}

-- No element of the list is `a`.
abbrev pub Lacks : ℕ → List ℕ → Type 0
Lacks a [] = Unit
Lacks a (x ∷ xs) = (x ≢ a) × Lacks a xs

-- Some element of the list is `c`, without regard to case.
abbrev pub Holds : ℕ → List ℕ → Type 0
Holds c [] = ⊥
Holds c (x ∷ xs) = (tolower x ≡ tolower c) ⊎ Holds c xs

-- The character `c` fits the first item of the pattern `p`, and `q` is the pattern behind the item.
-- The text's own `[` is never looked up in a set: it is taken for a literal bracket.
pub data Fits (c : ℕ) : List ℕ → List ℕ → Type 0 where
  literal : {x : ℕ} {q : List ℕ} → tolower c ≡ tolower x → Fits c (x ∷ q) q
  any : {x : ℕ} {q : List ℕ} → x ≡ b'.' → Fits c (x ∷ q) q
  digit : {x : ℕ} {q : List ℕ} → x ≡ b'#' → isdigit c ≡ true → Fits c (x ∷ q) q
  one_of :
      {p q : List ℕ} (members : List ℕ)
      → p ≡ b'[' ∷ (members ++ b']' ∷ q)
      → c ≢ b'['
      → Lacks b']' members
      → Holds c members
      → Fits c p q

-- A front part of the text fits the pattern item by item.
pub data Matches : List ℕ → List ℕ → Type 0 where
  done : {s : List ℕ} → Matches s []
  item : {c : ℕ} {s p q : List ℕ} → c ≢ 0 → Fits c p q → Matches s q → Matches (c ∷ s) p
