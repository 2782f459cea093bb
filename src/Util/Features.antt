-- ===== src/Util/Features.antt =====
-- `match_features` and `match_all` of libcpuid/libcpuid_util.c.
pub mod Laws
use Prim.Native.Nat.{bit_and}
use libcpuid.Base.{ℕ, Bool, true, List, [], ◌∷◌, has_bit, if◌then◌else◌, ◌==◌}
use libcpuid.Data.Feature.{CpuFeature}
use libcpuid.Data.CpuId.{CpuId, Flags, set_flag}

-- `feature_map_t`.
pub record FeatureMap : Type 0 where
  pub bit : ℕ
  pub feature : CpuFeature

-- A row of a table.
abbrev pub maps : ℕ → CpuFeature → FeatureMap
maps bit feature = record { bit = bit; feature = feature }

-- The loop, on the flags alone.
unfoldable pub match_flags : List FeatureMap → ℕ → Flags → Flags
match_flags [] reg flags = flags
match_flags (m ∷ matchtable) reg flags =
    match_flags matchtable reg (if has_bit reg m.bit then set_flag m.feature true flags else flags)

unfoldable pub match_features : List FeatureMap → ℕ → CpuId → CpuId
match_features matchtable reg id = record id { flags = match_flags matchtable reg id.flags }

-- `match_all`, on 64-bit words.
unfoldable pub match_all : ℕ → ℕ → Bool
match_all bits mask = bit_and bits mask == mask
