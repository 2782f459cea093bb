-- ===== src/Base/Words.antt =====
-- Machine words: bit fields of a register as the source's macros and shifts read them.
use Prim.Native.Nat.{ℕ, zero, suc, ◌+◌, ◌-◌, ◌/◌, ◌%◌, ◌^◌, ◌<◌}
use Prim.Native.Char.{code}
use Prim.Native.String.{String}
use mathlib.Core.Path.{◌≡◌}
use mathlib.Core.Bool.{Bool, true, ◌&&◌}
use mathlib.Core.List.{List, [], ◌∷◌}
use native.Mathlib.Omega.{arith}
use libcpuid.Base.Tests.{◌==◌}

-- EXTRACTS_BITS(reg, highbit, lowbit): `(reg >> lowbit) & ((1 << (highbit - lowbit + 1)) - 1)`.
abbrev pub extracts_bits : ℕ → ℕ → ℕ → ℕ
extracts_bits reg highbit lowbit = (reg / 2 ^ lowbit) % 2 ^ (highbit - lowbit + 1)

-- EXTRACTS_BIT(reg, bit): `(reg >> bit) & 0x1`.
abbrev pub extracts_bit : ℕ → ℕ → ℕ
extracts_bit reg bit = (reg / 2 ^ bit) % 2

-- `reg & (1 << bit)` as a condition.
abbrev pub has_bit : ℕ → ℕ → Bool
has_bit reg bit = (reg / 2 ^ bit) % 2 == 1

abbrev pub u8 : ℕ → ℕ
u8 x = x % 2 ^ 8

abbrev pub u16 : ℕ → ℕ
u16 x = x % 2 ^ 16

abbrev pub u32 : ℕ → ℕ
u32 x = x % 2 ^ 32

-- The bytes of an ASCII text literal.
abbrev pub codes : String → List ℕ
codes String.[] = []
codes (String.◌∷◌ c s) = code c ∷ codes s

-- Over a small range, every value is checked by evaluation.
unfoldable pub all_below : ℕ → (ℕ → Bool) → Bool
all_below zero p = true
all_below (suc n) p = p n && all_below n p

pub all_below_sound : (n : ℕ) (p : ℕ → Bool) (x : ℕ) → all_below n p ≡ true → x < n → p x ≡ true
unfolding all_below
all_below_sound zero p x h lt = elim lt [ ]
all_below_sound (suc n) p x h lt = ground (arith, all_below_sound n p x)
