-- ===== src/Util/Codename/Hidden.antt =====
-- Entries of a table that are never chosen.
use libcpuid.Base.{ℕ, ◌<◌, List, ◌≡◌, ◌≢◌, some, ap, sym, ◌∙◌, arith, get_elem?}
use libcpuid.Data.CpuId.{CpuId}
use libcpuid.Util.Codename.{MatchEntry, score}
use libcpuid.Util.Codename.Choice.{IsBest}

-- An entry that scores what an earlier one does is not the first with the highest score.
pub IsBest-hidden :
    (id : CpuId) (table : List MatchEntry) (i j : ℕ) (early late : MatchEntry) (index points : ℕ)
    → i < j
    → get_elem? table i ≡ some early
    → get_elem? table j ≡ some late
    → score early id ≡ score late id
    → IsBest id table index points
    → index ≢ j
IsBest-hidden id table i j early late index points before at_i at_j same best e =
    let here : some best.entry ≡ some late =
      sym best.stands ∙ (ap (λ k. get_elem? table k) e ∙ at_j) in
    let less : score early id < points = best.first_one i early (omega (arith, e)) at_i in
    absurd (omega (arith, less, same, best.scores, score_of best.entry late here))
  where
    score_of : (a b : MatchEntry) → some a ≡ some b → score a id ≡ score b id
    score_of a b h = cc
