-- ===== src/Recog/Outcome.antt =====
-- What the recognition functions of the vendors leave, and the steps that they share.
pub mod Laws
use libcpuid.Base.{ℕ, List, Option, none, some, ℤ}
use libcpuid.Data.CpuId.{CpuId}
use libcpuid.Util.Cache.{Decoded}
use libcpuid.Util.Codename.{MatchEntry, match_cpu_codename}

-- `cpu_id_t`, and `score` and `cache_mask` of `internal_id_info_t`.
pub record Outcome : Type 0 where
  pub score : ℤ
  pub decoded : Decoded

-- `data`, with the rest kept.
abbrev pub with_id : Decoded → CpuId → Decoded
with_id d id = record d { id = id }

-- A step that can fail, and what follows it.
unfoldable pub followed {ℓ ℓ'} : {A : Type ℓ} {B : Type ℓ'} → Option A → (A → Option B) → Option B
followed none next = none
followed (some a) next = next a

-- `internal->score = match_cpu_codename(...)`.
unfoldable pub name_by : List MatchEntry → Decoded → Option Outcome
name_by table d =
    followed (match_cpu_codename table d.id)
      (λ result. some (record { score = result.0; decoded = with_id d result.1 }))
