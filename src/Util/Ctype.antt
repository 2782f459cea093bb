-- ===== src/Util/Ctype.antt =====
-- The functions of <ctype.h> and <string.h> that libcpuid/libcpuid_util.c uses, in the "C" locale,
-- on texts as lists of bytes without their final NUL. The texts are ASCII: a `char` above 127 is
-- negative on most targets, where these functions are undefined.
use mathlib.Core.Option
use libcpuid.Base.{
  ℕ, suc, ◌+◌, Bool, true, false, ◌&&◌, ◌||◌, List, [], ◌∷◌, leb, ◌==◌, if◌then◌else◌, Option, none,
  some, ◌≡◌, ◌↔◌, arith,
}

unfoldable pub tolower : ℕ → ℕ
tolower c = if leb b'A' c && leb c b'Z' then c + 32 else c

unfoldable pub isdigit : ℕ → Bool
isdigit c = leb b'0' c && leb c b'9'

-- Space, and the control characters from \t to \r.
unfoldable pub isspace : ℕ → Bool
isspace c = c == b' ' || (leb 9 c && leb c 13)

-- `p[0]`, which is the final NUL of an empty text.
abbrev pub first : List ℕ → ℕ
first [] = 0
first (c ∷ cs) = c

-- `p + 1`.
abbrev pub behind : List ℕ → List ℕ
behind [] = []
behind (c ∷ cs) = cs

-- `!strcmp(a, b)`.
unfoldable pub str_eq : List ℕ → List ℕ → Bool
str_eq [] [] = true
str_eq (a ∷ as') (b ∷ bs) = a == b && str_eq as' bs
str_eq _ _ = false

-- Whether `s` begins with `t`.
unfoldable pub starts_with : List ℕ → List ℕ → Bool
starts_with s [] = true
starts_with [] (b ∷ t) = false
starts_with (a ∷ s) (b ∷ t) = a == b && starts_with s t

-- `strstr(s, t)`: the offset of the first occurrence, `none` for NULL.
unfoldable pub strstr : List ℕ → List ℕ → Option ℕ
unfolding starts_with
strstr [] t = if starts_with [] t then some 0 else none
strstr (a ∷ s) t = if starts_with (a ∷ s) t then some 0 else Option.map suc (strstr s t)

pub str_eq_iff : (a b : List ℕ) → (str_eq a b ≡ true) ↔ (a ≡ b)
unfolding str_eq
str_eq_iff (x ∷ a) (y ∷ b) = ground (arith, str_eq_iff a b)
str_eq_iff _ _ = ground arith
