-- ===== src/Detect/Topology/Masks.antt =====
-- Masks that divide a number's bits among them, and what the parts add up to.
use Prim.Native.Nat.{bit_and, bit_xor, digits, bit_and-bitwise, ◌/◌, min}
use libcpuid.Base.{
  ℕ, zero, suc, ◌+◌, ◌-◌, ◌*◌, ◌%◌, ◌^◌, ◌≤◌, ◌<◌, Bool, true, false, ◌&&◌, ◌||◌, ◌≡◌, refl, ap,
  ◌∙◌, arith, ltb, ◌==◌, all_below, all_below_sound,
}
use libcpuid.Detect.Topology.{low_mask, high_mask}

-- One digit more than there are changes nothing.
digits_more :
    (n a b : ℕ) → a ≤ n → digits (λ c. zero) min (suc n) a b ≡ digits (λ c. zero) min n a b
digits_more zero zero b h = refl
digits_more (suc n) zero b h = refl
digits_more zero (suc a) b h = absurd (omega arith)
digits_more (suc n) (suc a) b h = omega (arith, digits_more n (suc a / 2) (b / 2) (omega arith))

digits_spare :
    (k n a b : ℕ) → n ≡ k + a → digits (λ c. zero) min n a b ≡ digits (λ c. zero) min a a b
digits_spare zero n a b e = ap (λ v. digits (λ c. zero) min v a b) (omega (arith, e))
digits_spare (suc k) n a b e =
    let same : n ≡ suc (k + a) = omega arith in
    ap (λ v. digits (λ c. zero) min v a b) same
    ∙ (digits_more (k + a) a b (omega arith) ∙ digits_spare k (k + a) a b refl)

-- The lowest bit and the others.
and_halves : (a b : ℕ) → bit_and a b ≡ bit_and (a / 2) (b / 2) * 2 + min (a % 2) (b % 2)
and_halves zero b =
    let none_left : (c : ℕ) → bit_and 0 c ≡ 0 = bit_and-bitwise 0 in
    omega (arith, none_left b, none_left (b / 2))
and_halves (suc a) b =
    let half = suc a / 2 in
    omega (
      arith,
      bit_and-bitwise (suc a) b,
      bit_and-bitwise half (b / 2),
      digits_spare (a - half) a half (b / 2) (omega arith),
    )

-- Each of the `w` lowest positions is 1 in exactly one of three masks.
abbrev pub shares : ℕ → ℕ → ℕ → ℕ → Bool
shares zero l m h = true
shares (suc w) l m h = (l % 2 + m % 2 + h % 2 == 1) && shares w (l / 2) (m / 2) (h / 2)

shares-lowest : (w l m h : ℕ) → shares (suc w) l m h ≡ true → l % 2 + m % 2 + h % 2 ≡ 1
shares-lowest w l m h ok = ground arith

shares-halves :
    (w l m h : ℕ) → shares (suc w) l m h ≡ true → shares w (l / 2) (m / 2) (h / 2) ≡ true
shares-halves w l m h ok = ground arith

-- Then the parts of a number of that many bits add up to the number.
pub bit_and-parts :
    (w l m h a : ℕ)
    → shares w l m h ≡ true
    → a < 2 ^ w
    → bit_and a l + bit_and a m + bit_and a h ≡ a
bit_and-parts zero l m h zero ok lt =
    omega (arith, bit_and-bitwise 0 l, bit_and-bitwise 0 m, bit_and-bitwise 0 h)
bit_and-parts zero l m h (suc a) ok lt = absurd (omega arith)
bit_and-parts (suc w) l m h a ok lt = omega (
  arith,
  and_halves a l,
  and_halves a m,
  and_halves a h,
  bit_and-parts w (l / 2) (m / 2) (h / 2) (a / 2) (shares-halves w l m h ok) (omega arith),
  shares-lowest w l m h ok,
)

-- The masks of the SMT, core and package parts, for shifts in order.
mask_table :
    all_below 32 (λ s.
      all_below 32
        (λ k. ltb s k || shares 32 (low_mask k) (bit_xor (low_mask s) (low_mask k)) (high_mask s)))
    ≡ true
unfolding all_below
mask_table = refl

or_second : (a b : Bool) → (a || b) ≡ true → a ≡ false → b ≡ true
or_second a b h k = ground arith

not_ltb : (s k : ℕ) → k ≤ s → ltb s k ≡ false
not_ltb s k h = ground arith

pub masks_shares :
    (k s : ℕ)
    → k ≤ s
    → s < 32
    → shares 32 (low_mask k) (bit_xor (low_mask s) (low_mask k)) (high_mask s) ≡ true
masks_shares k s order top =
    let pair : (ltb s k || shares 32 (low_mask k) (bit_xor (low_mask s) (low_mask k)) (high_mask s))
        ≡ true =
      all_below_sound 32
        (λ k. ltb s k || shares 32 (low_mask k) (bit_xor (low_mask s) (low_mask k)) (high_mask s)) k
        (all_below_sound 32
          (λ s. all_below 32 (λ k.
            ltb s k || shares 32 (low_mask k) (bit_xor (low_mask s) (low_mask k)) (high_mask s)))
          s mask_table top)
        (omega arith) in
    or_second _ _ pair (not_ltb s k order)
