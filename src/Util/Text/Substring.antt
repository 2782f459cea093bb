-- ===== src/Util/Text/Substring.antt =====
-- `strstr` finds the first occurrence, and `remove_substring` takes it out.
use mathlib.Core.Option
use libcpuid.Base.{
  ℕ, zero, suc, ◌+◌, ◌≤◌, ◌<◌, true, false, List, [], ◌∷◌, ◌++◌, Option, none, some, ◌≡◌, ◌⊎◌, inl,
  inr, refl, ap, arith, take, drop, length, length-take, Bool-cases,
}
use libcpuid.Util.Ctype.{starts_with, strstr}
use libcpuid.Util.Text.{remove_substring}

starts_with-splits : (s t : List ℕ) → starts_with s t ≡ true → s ≡ t ++ drop (length t) s
unfolding starts_with
starts_with-splits s [] h = refl
starts_with-splits [] (b ∷ t) h = cc
starts_with-splits (a ∷ s) (b ∷ t) h =
    let same : a ≡ b = ground arith in
    let rest : starts_with s t ≡ true = ground arith in
    rw same (ap (◌∷◌ b) (starts_with-splits s t rest))

-- `s` has `t` at the offset `i`, and at no offset before it.
pub record IsFirstAt (s t : List ℕ) (i : ℕ) : Type 0 where
  pub splits : s ≡ take i s ++ (t ++ drop (i + length t) s)
  pub here : starts_with (drop i s) t ≡ true
  pub earlier : (j : ℕ) → j < i → starts_with (drop j s) t ≡ false

abbrev pub Located : List ℕ → List ℕ → Option ℕ → Type 0
Located s t none = (j : ℕ) → j ≤ length s → starts_with (drop j s) t ≡ false
Located s t (some i) = IsFirstAt s t i

Located-suc :
    (a : ℕ) (s t : List ℕ) (o : Option ℕ)
    → starts_with (a ∷ s) t ≡ false
    → Located s t o
    → Located (a ∷ s) t (Option.map suc o)
Located-suc a s t none no_start h = elim [ zero ↦ λ le. no_start | suc j ↦ λ le. h j (omega arith) ]
Located-suc a s t (some i) no_start h =
    let e : suc i + length t ≡ suc (i + length t) = omega arith in
    record {
      splits = rw e (ap (◌∷◌ a) h.splits);
      here = h.here;
      earlier = elim [ zero ↦ λ lt. no_start | suc j ↦ λ lt. h.earlier j (omega arith) ];
    }

strstr-Located : (s t : List ℕ) → Located s t (strstr s t)
unfolding strstr
strstr-Located [] [] =
    unfold starts_with in
    record { splits = refl; here = refl; earlier = λ j h. absurd (omega arith) }
strstr-Located [] (b ∷ t) =
    unfold starts_with in (elim [ zero ↦ λ le. refl | suc j ↦ λ le. absurd (omega arith) ])
strstr-Located (a ∷ s) t = elim (Bool-cases (starts_with (a ∷ s) t)) [
  | inl start ↦ rw start (at_start start)
  | inr no_start ↦ rw no_start (Located-suc a s t (strstr s t) no_start (strstr-Located s t))
]
  where
    at_start : starts_with (a ∷ s) t ≡ true → IsFirstAt (a ∷ s) t 0
    at_start start =
        let e : 0 + length t ≡ length t = omega arith in
        record {
          splits = rw e (starts_with-splits (a ∷ s) t start);
          here = start;
          earlier = λ j h. absurd (omega arith);
        }

-- `r` is the text `s` less its first occurrence of `t`.
pub record IsRemoved (s t : List ℕ) (r : List ℕ) : Type 0 where
  pub before : List ℕ
  pub after : List ℕ
  pub splits : s ≡ before ++ (t ++ after)
  pub joined : r ≡ before ++ after
  pub first_one : (j : ℕ) → j < length before → starts_with (drop j s) t ≡ false

abbrev pub Removed : List ℕ → List ℕ → List ℕ → Type 0
Removed s t r =
    IsRemoved s t r ⊎ ((r ≡ s) × ((j : ℕ) → j ≤ length s → starts_with (drop j s) t ≡ false))

-- `remove_substring` takes out the first occurrence of the substring and joins what stands before it
-- and behind it; where the substring does not occur, the text stays as it is.
pub remove_substring-Removed : (s t : List ℕ) → Removed s t (remove_substring s t)
unfolding remove_substring
remove_substring-Removed s t = go (strstr s t) (strstr-Located s t)
  where
    go :
        (o : Option ℕ)
        → Located s t o
        → Removed s t (elim o [ none ↦ s | some pos ↦ take pos s ++ drop (pos + length t) s ])
    go none h = inr (refl, h)
    go (some i) h = inl (record {
      before = take i s;
      after = drop (i + length t) s;
      splits = h.splits;
      joined = refl;
      first_one = λ j lt. h.earlier j (omega (arith, length-take i s));
    })
