-- ===== src/Util/Order.antt =====
-- `get_count_order` of libcpuid/libcpuid_util.c: the order of the power of two that covers a count.
pub mod Bounds
use libcpuid.Base.{
  ℕ, ◌+◌, ◌-◌, ◌*◌, ◌/◌, ◌^◌, ◌≤◌, ◌<◌, ◌≡◌, refl, arith, u32, ◌==◌, if◌then◌else◌, ℤ, pos,
  minus_one, ltb,
}

-- One step of the search: `if (!(x & mask)) { x <<= k; r -= k; }`, where the mask has the upper
-- `k` bits of the word, so that the test is `x < 2 ^ (32 - k)`.
abbrev pub Probe : Type 0
Probe = ℕ × ℕ

pub shift_if_clear : ℕ → Probe → Probe
shift_if_clear k (x, r) = if ltb x (2 ^ (32 - k)) then (u32 (x * 2 ^ k), r - k) else (x, r)

-- The five steps, from `r = 32`.
pub highest_bit : ℕ → ℕ
highest_bit x =
    (shift_if_clear 1
      (shift_if_clear 2 (shift_if_clear 4 (shift_if_clear 8 (shift_if_clear 16 (x, 32)))))).1

unfoldable pub get_count_order : ℕ → ℤ
unfolding highest_bit shift_if_clear
get_count_order x =
    if x == 0 then minus_one else if x - 1 == 0 then pos 0 else pos (highest_bit (x - 1))
