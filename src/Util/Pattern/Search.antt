-- ===== src/Util/Pattern/Search.antt =====
-- `match_pattern` finds the first place where the whole pattern matches.
use libcpuid.Base.{
  ℕ, zero, suc, ◌+◌, ◌<◌, true, List, [], ◌∷◌, ◌≡◌, ◌≢◌, inl, inr, refl, sym, ap, ◌∙◌, arith, drop,
  length, Option-cases, Bool-cases,
}
use libcpuid.Util.Pattern.{xmatch_entry, match_here, match_at, match_from, match_pattern}
use libcpuid.Util.Pattern.Language.{Matches, done, item}
use libcpuid.Util.Pattern.Entry.{xmatch_entry_sound, xmatch_entry_complete}

match_here_sound : (s p : List ℕ) → match_here s p ≡ true → Matches s p
unfolding match_here
match_here_sound s [] h = done
match_here_sound [] (x ∷ p) h = cc
match_here_sound (c ∷ s) (x ∷ p) h = elim (Option-cases (xmatch_entry c (x ∷ p))) [
  | inl misfit ↦ cc
  | inr (d, fit) ↦
      let (text, fits, low, high) = xmatch_entry_sound c (x ∷ p) d fit in
      item text fits (match_here_sound s (drop d (x ∷ p)) (ground arith))
]

match_here_complete : {s p : List ℕ} → Matches s p → match_here s p ≡ true
unfolding match_here
match_here_complete done = refl
match_here_complete (item {c} {s} {p = []} {q} text fits rest) = refl
match_here_complete (item {c} {s} {p = x ∷ p} {q} text fits rest) =
    let (d, fit, left) = xmatch_entry_complete text fits in
    let later : match_here s (drop d (x ∷ p)) ≡ true = rw left (match_here_complete rest) in
    ground (arith, fit, later)

-- The position `i` is the first one at which the pattern matches.
pub record IsFirstMatch (s p : List ℕ) (i : ℕ) : Type 0 where
  pub inside : i < length s
  pub matches : Matches (drop i s) p
  pub earlier : (j : ℕ) → j < i → ¬ Matches (drop j s) p

-- What `match_pattern` promises of its result `r`.
abbrev pub Found : List ℕ → List ℕ → ℕ → Type 0
Found s p zero = (j : ℕ) → j < length s → ¬ Matches (drop j s) p
Found s p (suc i) = IsFirstMatch s p i

match_at_sound : (c : ℕ) (s p : List ℕ) → match_at c s p ≡ true → Matches (c ∷ s) p
unfolding match_at
match_at_sound c s p h = elim (Option-cases (xmatch_entry c p)) [
  | inl misfit ↦ absurd (ground arith)
  | inr (d, fit) ↦ match_here_sound (c ∷ s) p (ground arith)
]

match_at_complete : {c : ℕ} {s p : List ℕ} → p ≢ [] → Matches (c ∷ s) p → match_at c s p ≡ true
unfolding match_at
match_at_complete ne done = absurd (ne refl)
match_at_complete ne (item text fits rest) =
    let (d, fit, left) = xmatch_entry_complete text fits in
    ground (arith, fit, match_here_complete (item text fits rest))

-- A result with the counter started at `i` instead of 0.
abbrev offset : ℕ → ℕ → ℕ
offset i zero = 0
offset i (suc r) = suc r + i

offset-offset : (i r : ℕ) → offset i (offset 1 r) ≡ offset (i + 1) r
offset-offset i zero = refl
offset-offset i (suc r) = let e : suc r + 1 ≡ suc (suc r) = omega arith in rw e (omega arith)

-- A match found further on is the first one if there is none here.
shift_match :
    (c : ℕ) (s p : List ℕ) (r : ℕ)
    → ¬ Matches (c ∷ s) p
    → Found s p r
    → Found (c ∷ s) p (offset 1 r)
shift_match c s p zero no_match none_later = elim [
  | zero ↦ λ h. no_match
  | suc j ↦ λ h. none_later j (omega arith)
]
shift_match c s p (suc i) no_match found =
    let e : suc i + 1 ≡ suc (suc i) = omega arith in
    rw e (record {
      inside = omega (arith, found.inside);
      matches = found.matches;
      earlier = elim [ zero ↦ λ h. no_match | suc j ↦ λ h. found.earlier j (omega arith) ];
    })

match_from-offset : (i : ℕ) (s p : List ℕ) → match_from i s p ≡ offset i (match_from 0 s p)
unfolding match_from
match_from-offset i [] p = refl
match_from-offset i (c ∷ s) p = elim (Bool-cases (match_at c s p)) [
  | inl here ↦ rw here (omega arith)
  | inr elsewhere ↦ rw elsewhere (
      match_from-offset (i + 1) s p
      ∙ sym (offset-offset i (match_from 0 s p))
      ∙ ap (offset i) (sym (match_from-offset 1 s p)))
]

match_from-first : (s p : List ℕ) → p ≢ [] → Found s p (match_from 0 s p)
unfolding match_from
match_from-first [] p ne = λ j h. elim h [ ]
match_from-first (c ∷ s) p ne = elim (Bool-cases (match_at c s p)) [
  | inl here ↦ rw here (record {
    inside = omega arith;
    matches = match_at_sound c s p here;
    earlier = λ j h. absurd (omega arith);
  })
  | inr elsewhere ↦
      let no_match : ¬ Matches (c ∷ s) p = λ m. ground (arith, match_at_complete ne m) in
      let found = shift_match c s p (match_from 0 s p) no_match (match_from-first s p ne) in
      rw (elsewhere, match_from-offset 1 s p) found
]

-- For a pattern that is not empty, `match_pattern` returns 0 if the pattern matches at no position
-- of the text, and else one more than the first position at which it does.
pub match_pattern-Found : (s p : List ℕ) → p ≢ [] → Found s p (match_pattern s p)
unfolding match_pattern
match_pattern-Found s p ne = match_from-first s p ne
