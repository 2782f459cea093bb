-- ===== src/Util/Text.antt =====
-- `remove_substring` and `collapse_spaces` of libcpuid/libcpuid_util.c, which tidy a brand string.
-- Both write into the text that they read; what they write lies before what they have still to
-- read, so that the result is a function of the text.
pub mod Substring
pub mod Spaces
use libcpuid.Base.{
  ℕ, ◌+◌, Bool, true, false, List, [], ◌∷◌, ◌++◌, Option, none, some, take, drop, length,
  if◌then◌else◌,
}
use libcpuid.Util.Ctype.{isspace, strstr}

-- `memmove(pos, pos + len, strlen(pos + len) + 1)`, where the substring occurs.
unfoldable pub remove_substring : List ℕ → List ℕ → List ℕ
remove_substring string substring = elim (strstr string substring) [
  | none ↦ string
  | some pos ↦ take pos string ++ drop (pos + length substring) string
]

-- The loop of `collapse_spaces` with its flag `in_space`: what it writes from here on.
unfoldable pub collapse_from : Bool → List ℕ → List ℕ
collapse_from in_space [] = []
collapse_from in_space (c ∷ string) =
    let rest = collapse_from (isspace c) string in
    if isspace c then (if in_space then rest else b' ' ∷ rest) else c ∷ rest

unfoldable pub collapse_spaces : List ℕ → List ℕ
unfolding collapse_from
collapse_spaces string = collapse_from false string
