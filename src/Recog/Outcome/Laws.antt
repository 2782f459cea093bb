-- ===== src/Recog/Outcome/Laws.antt =====
-- The codename that a recognition function stores.
use libcpuid.Base.{ℕ, ◌<◌, List, Option, some, ◌≡◌, refl, pos, length}
use libcpuid.Data.CpuId.{CpuId}
use libcpuid.Util.Cache.{Decoded}
use libcpuid.Util.Codename.{MatchEntry}
use libcpuid.Util.Codename.Choice.{IsBest, match_cpu_codename-IsMatched}
use libcpuid.Recog.Outcome.{Outcome, with_id, name_by, followed}

-- The outcome names the best entry of the table for the processor `id`, and is `id` otherwise.
pub record IsNamed (table : List MatchEntry) (id : CpuId) (o : Outcome) : Type 0 where
  pub index : ℕ
  pub points : ℕ
  pub best : IsBest id table index points
  pub score : o.score ≡ pos points
  pub named :
      o.decoded.id
      ≡ record id { cpu_codename = best.entry.name; technology_node = best.entry.technology }

pub followed-some {ℓ ℓ'} :
    {A : Type ℓ} {B : Type ℓ'} (o : Option A) (a : A) (next : A → Option B) (r : Option B)
    → o ≡ some a
    → next a ≡ r
    → followed o next ≡ r
unfolding followed
followed-some o a next r e h = rw e h

pub name_by-IsNamed :
    (table : List MatchEntry) (d : Decoded)
    → 0 < length table
    → (o : Outcome) × (name_by table d ≡ some o) × IsNamed table d.id o
unfolding name_by
name_by-IsNamed table d h =
    let m = match_cpu_codename-IsMatched table d.id h in
    let id = record d.id {
      cpu_codename = m.best.entry.name;
      technology_node = m.best.entry.technology;
    } in
    (
      record { score = pos m.points; decoded = with_id d id },
      followed-some _ _ _ _ m.returned refl,
      record { index = m.index; points = m.points; best = m.best; score = refl; named = refl },
    )
