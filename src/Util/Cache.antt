-- ===== src/Util/Cache.antt =====
-- `assign_cache_data` and `decode_deterministic_cache_info_x86` of libcpuid/libcpuid_util.c.
pub mod Row
pub mod Table
pub mod Cut
pub mod Overrun
use libcpuid.Base.{
  ℕ, zero, suc, ◌+◌, ◌-◌, ◌*◌, ◌/◌, ◌^◌, Bool, true, false, ◌&&◌, ◌||◌, List, [], ◌∷◌, Option, none,
  some, take, set, ◌==◌, ltb, if◌then◌else◌, extracts_bits, u32, ℤ, pos, negsuc,
}
use libcpuid.Data.Kinds.{CacheType, l1i, l1d, l2, l3, l4, num_cache_types}
use libcpuid.Data.Raw.{Regs}
use libcpuid.Data.CpuId.{CpuId, CacheInfo}
use libcpuid.Util.Order.{get_count_order}

-- `assign_cache_data` with `on` set.
unfoldable pub assign_on : CacheType → CacheInfo → CpuId → CpuId
assign_on l1i info id = record id { l1_instruction = info }
assign_on l1d info id = record id { l1_data = info }
assign_on l2 info id = record id { l2_level = info }
assign_on l3 info id = record id { l3_level = info }
assign_on l4 info id = record id { l4_level = info }

unfoldable pub assign_cache_data : Bool → CacheType → CacheInfo → CpuId → CpuId
unfolding assign_on
assign_cache_data on cache info id = if on then assign_on cache info id else id

abbrev pub cache_level : Regs → ℕ
cache_level regs = extracts_bits regs.eax 7 5

abbrev pub cache_type : Regs → ℕ
cache_type regs = extracts_bits regs.eax 4 0

-- The condition of the `break`.
unfoldable pub is_last : Regs → Bool
is_last regs = cache_level regs == 0 || cache_type regs == 0

-- The combinations of level and type that are known; `none` is the `continue`.
unfoldable pub known_type : Regs → Option CacheType
known_type regs =
    let level = cache_level regs in
    let kind = cache_type regs in
    if level == 1 && kind == 1
    then some l1d
    else if level == 1 && kind == 2
    then some l1i
    else if level == 2 && kind == 3
    then some l2
    else if level == 3 && kind == 3
    then some l3
    else if level == 4 && kind == 3
    then some l4
    else none

abbrev pub num_sharing_cache : Regs → ℕ
num_sharing_cache regs = u32 (extracts_bits regs.eax 25 14 + 1)

abbrev pub ways : Regs → ℕ
ways regs = u32 (extracts_bits regs.ebx 31 22 + 1)

abbrev pub partitions : Regs → ℕ
partitions regs = u32 (extracts_bits regs.ebx 21 12 + 1)

abbrev pub linesize : Regs → ℕ
linesize regs = u32 (extracts_bits regs.ebx 11 0 + 1)

abbrev pub sets : Regs → ℕ
sets regs = u32 (extracts_bits regs.ecx 31 0 + 1)

-- `ways * partitions * linesize * sets / 1024`, in `uint32_t`.
unfoldable pub cache_size : Regs → ℕ
cache_size regs = u32 (u32 (u32 (ways regs * partitions regs) * linesize regs) * sets regs) / 1024

unfoldable pub row_info : Regs → CacheInfo
row_info regs = record {
  cache = pos (cache_size regs);
  assoc = pos (ways regs);
  cacheline = pos (linesize regs);
}

-- `~((1 << index_msb) - 1)`, as the bit pattern of an `int32_t`; -1 is no shift that occurs.
unfoldable pub mask_of_order : ℤ → ℕ
mask_of_order (pos index_msb) = u32 (2 ^ 32 - 2 ^ index_msb)
mask_of_order (negsuc _) = 0

unfoldable pub row_mask : Regs → ℕ
row_mask regs = mask_of_order (get_count_order (num_sharing_cache regs))

-- `cpu_id_t` and `cache_mask[NUM_CACHE_TYPES]`.
pub record Decoded : Type 0 where
  pub id : CpuId
  pub cache_mask : List ℕ

-- The loop from sub-leaf `i` on. `none` is a write to `cache_mask[i]` behind its end.
unfoldable pub decode_rows : ℕ → List Regs → Decoded → Option Decoded
decode_rows i [] d = some d
decode_rows i (regs ∷ rows) d =
    let skipped = decode_rows (i + 1) rows d in
    let stored = λ (cache : CacheType). decode_rows (i + 1) rows (record {
      id = assign_cache_data true cache (row_info regs) d.id;
      cache_mask = set d.cache_mask i (row_mask regs);
    }) in
    if is_last regs then some d else elim (known_type regs) [
      | none ↦ skipped
      | some cache ↦ if ltb i num_cache_types then stored cache else none
    ]

unfoldable pub decode_deterministic_cache_info_x86 : List Regs → ℕ → Decoded → Option Decoded
decode_deterministic_cache_info_x86 cache_regs subleaf_count d =
    decode_rows 0 (take subleaf_count cache_regs) d
