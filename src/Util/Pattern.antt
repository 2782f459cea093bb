-- ===== src/Util/Pattern.antt =====
-- `xmatch_entry` and `match_pattern` of libcpuid/libcpuid_util.c: the brand patterns, in which `.`
-- stands for any character, `#` for a digit and `[...]` for one of a set, without regard to case.
pub mod Language
pub mod Entry
pub mod Search
use libcpuid.Base.{
  ℕ, suc, ◌+◌, Bool, true, false, ◌&&◌, List, [], ◌∷◌, Option, none, some, take, drop, ◌==◌,
  if◌then◌else◌,
}
use libcpuid.Util.Ctype.{tolower, isdigit, first, behind}

-- `while (p[j] && p[j] != ']') j++`, on the text behind the bracket: how many it passes, or `none`
-- where the text ends first.
unfoldable pub bracket_end : List ℕ → Option ℕ
bracket_end [] = none
bracket_end (x ∷ q) =
    if x == b']' then some 0 else elim (bracket_end q) [ none ↦ none | some j ↦ some (suc j) ]

-- `for (i = 1; i < j; i++) if (tolower(p[i]) == tolower(c))`.
unfoldable pub in_class : ℕ → List ℕ → Bool
in_class c [] = false
in_class c (x ∷ q) = if tolower x == tolower c then true else in_class c q

-- The case `p[0] == '['`, on the text behind it.
unfoldable pub xmatch_class : ℕ → List ℕ → Option ℕ
xmatch_class c q = elim (bracket_end q) [
  | none ↦ none
  | some j ↦ if in_class c (take j q) then some (j + 2) else none
]

-- How many characters of the pattern the character `c` uses up; `none` is the -1.
unfoldable pub xmatch_entry : ℕ → List ℕ → Option ℕ
xmatch_entry c p =
    if c == 0
    then none
    else if tolower c == tolower (first p)
    then some 1
    else if first p == b'.'
    then some 1
    else if first p == b'#' && isdigit c
    then some 1
    else if first p == b'['
    then xmatch_class c (behind p)
    else none

-- The inner loop, on what is left of both texts, and its test `j == m`.
unfoldable pub match_here : List ℕ → List ℕ → Bool
match_here s [] = true
match_here [] (x ∷ p) = false
match_here (c ∷ s) (x ∷ p) = elim (xmatch_entry c (x ∷ p)) [
  | none ↦ false
  | some dj ↦ match_here s (drop dj (x ∷ p))
]

-- The body of the outer loop at one position.
unfoldable pub match_at : ℕ → List ℕ → List ℕ → Bool
match_at c s p = elim (xmatch_entry c p) [ none ↦ false | some d ↦ match_here (c ∷ s) p ]

unfoldable pub match_from : ℕ → List ℕ → List ℕ → ℕ
match_from i [] p = 0
match_from i (c ∷ s) p =
    let later = match_from (i + 1) s p in if match_at c s p then i + 1 else later

-- One more than the first position at which the whole pattern matches, or 0.
unfoldable pub match_pattern : List ℕ → List ℕ → ℕ
match_pattern s p = match_from 0 s p
