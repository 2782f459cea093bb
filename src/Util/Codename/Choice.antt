-- ===== src/Util/Codename/Choice.antt =====
-- `match_cpu_codename` chooses the first entry with the highest score.
use libcpuid.Base.{
  ℕ, zero, suc, ◌+◌, ◌≤◌, ◌<◌, true, false, List, [], ◌∷◌, Option, some, ◌≡◌, refl, ap, ◌∙◌, arith,
  ℤ, pos, negsuc, ◌⊎◌, minus_one, int_lt, get_elem?, length, Bool-cases, ltb→lt, inl, inr,
}
use libcpuid.Data.CpuId.{CpuId}
use libcpuid.Util.Codename.{MatchEntry, score, Best, best_from, pick, match_cpu_codename}

-- `entry` stands at `index`, scores `points`, no entry scores more, and none before it as much.
pub record IsBest (id : CpuId) (table : List MatchEntry) (index points : ℕ) : Type 0 where
  pub entry : MatchEntry
  pub stands : get_elem? table index ≡ some entry
  pub scores : score entry id ≡ points
  pub highest : (j : ℕ) (e : MatchEntry) → get_elem? table j ≡ some e → score e id ≤ points
  pub first_one :
      (j : ℕ) (e : MatchEntry) → j < index → get_elem? table j ≡ some e → score e id < points

int_lt_mono : (b : ℤ) (p q : ℕ) → int_lt b (pos p) ≡ true → p ≤ q → int_lt b (pos q) ≡ true
int_lt_mono (pos a) p q h le = ground arith
int_lt_mono (negsuc a) p q h le = refl

int_lt_between : (b : ℤ) (t p : ℕ) → int_lt b (pos t) ≡ false → int_lt b (pos p) ≡ true → t < p
int_lt_between (pos a) t p h k = ground arith
int_lt_between (negsuc a) t p h k = cc

int_lt_below : (b : ℤ) (t p : ℕ) → int_lt b (pos t) ≡ true → int_lt b (pos p) ≡ false → p ≤ t
int_lt_below (pos a) t p h k = ground arith
int_lt_below (negsuc a) t p h k = cc

module _ (id : CpuId) where
  -- No entry of the table beats the score `b`.
  abbrev NoneBeats : List MatchEntry → ℤ → Type 0
  NoneBeats table b =
      (j : ℕ) (e : MatchEntry) → get_elem? table j ≡ some e → int_lt b (pos (score e id)) ≡ false

  -- The loop from index `i` on keeps what it started with, or ends with the best of the table.
  abbrev Outcome : ℕ → List MatchEntry → Best → Best → Type 0
  Outcome i table start result =
      ((result ≡ start) × NoneBeats table start.bestscore)
      ⊎ ((j : ℕ) × (p : ℕ) × IsBest id table j p
          × (int_lt start.bestscore (pos p) ≡ true)
          × (result ≡ record { bestscore = pos p; bestindex = i + j }))

  same_score : (e e' : MatchEntry) → some e ≡ some e' → score e id ≡ score e' id
  same_score e e' h = cc

  le_of_same : (e e' : MatchEntry) → some e ≡ some e' → score e' id ≤ score e id
  le_of_same e e' h = omega (arith, same_score e e' h)

  not_less : (a b : ℕ) → int_lt (pos a) (pos b) ≡ false → b ≤ a
  not_less a b h = ground arith

  NoneBeats-cons :
      (e : MatchEntry) (table : List MatchEntry) (b : ℤ)
      → int_lt b (pos (score e id)) ≡ false
      → NoneBeats table b
      → NoneBeats (e ∷ table) b
  NoneBeats-cons e table b head tail zero e' h = rw (← same_score e e' h) head
  NoneBeats-cons e table b head tail (suc j) e' h = tail j e' h

  -- The new entry stands first and nothing behind it beats it.
  IsBest-here :
      (e : MatchEntry) (table : List MatchEntry)
      → NoneBeats table (pos (score e id))
      → IsBest id (e ∷ table) 0 (score e id)
  IsBest-here e table none_beats = record {
    entry = e;
    stands = refl;
    scores = refl;
    highest = elim [
      | zero ↦ λ e' h. le_of_same e e' h
      | suc j ↦ λ e' h. not_less (score e id) (score e' id) (none_beats j e' h)
    ];
    first_one = λ j e' h. absurd (omega arith);
  }

  IsBest-later :
      (e : MatchEntry) (table : List MatchEntry) (j p : ℕ)
      → score e id < p
      → IsBest id table j p
      → IsBest id (e ∷ table) (suc j) p
  IsBest-later e table j p less h = record {
    entry = h.entry;
    stands = h.stands;
    scores = h.scores;
    highest = elim [
      | zero ↦ λ e' eq. omega (arith, same_score e e' eq)
      | suc k ↦ λ e' eq. h.highest k e' eq
    ];
    first_one = elim [
      | zero ↦ λ e' lt eq. omega (arith, same_score e e' eq)
      | suc k ↦ λ e' lt eq. h.first_one k e' (omega arith) eq
    ];
  }

  best_from-Outcome :
      (i : ℕ) (table : List MatchEntry) (start : Best)
      → Outcome i table start (best_from id i table start)
  unfolding best_from
  best_from-Outcome i [] start = inl (refl, λ j e h. absurd (cc))
  best_from-Outcome i (e ∷ table) start =
      elim (Bool-cases (int_lt start.bestscore (pos (score e id)))) [
        | inl better ↦ rw better (
            taken better (
              best_from-Outcome (i + 1) table
                (record { bestscore = pos (score e id); bestindex = i })))
        | inr worse ↦ rw worse (passed worse (best_from-Outcome (i + 1) table start))
      ]
    where
      taken :
          int_lt start.bestscore (pos (score e id)) ≡ true
          → Outcome
              (i + 1)
              table
              (record { bestscore = pos (score e id); bestindex = i })
              (best_from id (i + 1) table (record { bestscore = pos (score e id); bestindex = i }))
          → Outcome i
              (e ∷ table)
              start
              (best_from id (i + 1) table (record { bestscore = pos (score e id); bestindex = i }))
      taken better (inl (same, none_beats)) =
          let at : i + 0 ≡ i = omega arith in
          inr (0, score e id, IsBest-here e table none_beats, better, rw at same)
      taken better (inr (j, p, best, above, same)) =
          let at : i + suc j ≡ i + 1 + j = omega arith in
          let more : score e id < p = ltb→lt (score e id) p above in
          inr (
            suc j,
            p,
            IsBest-later e table j p more best,
            int_lt_mono start.bestscore (score e id) p better (omega arith),
            rw at same,
          )

      passed :
          int_lt start.bestscore (pos (score e id)) ≡ false
          → Outcome (i + 1) table start (best_from id (i + 1) table start)
          → Outcome i (e ∷ table) start (best_from id (i + 1) table start)
      passed worse (inl (same, none_beats)) =
          inl (same, NoneBeats-cons e table start.bestscore worse none_beats)
      passed worse (inr (j, p, best, above, same)) =
          let at : i + suc j ≡ i + 1 + j = omega arith in
          let more = int_lt_between start.bestscore (score e id) p worse above in
          inr (suc j, p, IsBest-later e table j p more best, above, rw at same)

pick-some :
    (table : List MatchEntry) (id : CpuId) (best : Best) {entry : MatchEntry}
    → get_elem? table best.bestindex ≡ some entry
    → pick table id best
      ≡ some (
        best.bestscore,
        record id { cpu_codename = entry.name; technology_node = entry.technology },
      )
unfolding pick
pick-some table id best h = rw (h, pick)

-- What `match_cpu_codename` promises for a table that is not empty: the score of the best entry, whose
-- names are stored, and nothing else is changed.
pub record IsMatched (table : List MatchEntry) (id : CpuId) (result : Option (ℤ × CpuId))
    : Type 0 where
  pub index : ℕ
  pub points : ℕ
  pub best : IsBest id table index points
  pub returned :
      result
      ≡ some (
        pos points,
        record id { cpu_codename = best.entry.name; technology_node = best.entry.technology },
      )

-- On a table that is not empty, `match_cpu_codename` returns the highest score of any entry and stores
-- the name and technology of the first entry that has it; it changes nothing else.
pub match_cpu_codename-IsMatched :
    (table : List MatchEntry) (id : CpuId)
    → 0 < length table
    → IsMatched table id (match_cpu_codename table id)
unfolding match_cpu_codename
match_cpu_codename-IsMatched [] id h = elim h [ ]
match_cpu_codename-IsMatched (e ∷ table) id h =
    go (best_from-Outcome id 0 (e ∷ table) (record { bestscore = minus_one; bestindex = 0 }))
  where
    go :
        Outcome id 0
          (e ∷ table)
          (record { bestscore = minus_one; bestindex = 0 })
          (best_from id 0 (e ∷ table) (record { bestscore = minus_one; bestindex = 0 }))
        → IsMatched (e ∷ table) id (match_cpu_codename (e ∷ table) id)
    go (inl (same, none_beats)) = absurd (let x = none_beats 0 e refl in cc)
    go (inr (j, p, best, above, same)) =
        let at : 0 + j ≡ j = omega arith in
        record {
          index = j;
          points = p;
          best = best;
          returned =
              ap (pick (e ∷ table) id) same
              ∙ rw at (
                  pick-some (e ∷ table) id (record { bestscore = pos p; bestindex = j })
                    best.stands);
        }
