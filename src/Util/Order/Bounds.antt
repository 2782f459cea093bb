-- ===== src/Util/Order/Bounds.antt =====
-- `get_count_order` is the logarithm to base 2, rounded up.
use native.Mathlib.Nat.{pow-suc, mul_assoc}
use libcpuid.Base.{
  ℕ, zero, suc, ◌+◌, ◌-◌, ◌*◌, ◌^◌, ◌≤◌, ◌<◌, ◌≡◌, sym, ap, ◌∙◌, ==_iff, negsuc, arith, u32, ◌==◌,
  ℤ, pos, ltb, Bool-cases, inl, inr, ltb→lt,
}
use libcpuid.Util.Order.{Probe, shift_if_clear, highest_bit, get_count_order}

pow-add : (a b : ℕ) → 2 ^ (a + b) ≡ 2 ^ a * 2 ^ b
pow-add zero b = let e : zero + b ≡ b = omega arith in rw e (omega arith)
pow-add (suc a) b =
    let e : suc a + b ≡ suc (a + b) = omega arith in
    rw (e, pow-suc 2 (a + b), pow-suc 2 a, pow-add a b) (omega arith)

pub pow_positive : (k : ℕ) → 0 < 2 ^ k
pow_positive zero = omega arith
pow_positive (suc k) = rw pow-suc (omega (arith, pow_positive k))

times_lt : (a b k : ℕ) → a < b → a * 2 ^ k < b * 2 ^ k
times_lt a b k h = grind (arith, pow_positive k)

times_le : (a b k : ℕ) → a ≤ b → a * 2 ^ k ≤ b * 2 ^ k
times_le a b k h = grind arith

cancel_lt : (a b c : ℕ) → a * c < b * c → a < b
cancel_lt a b c h = grind arith

cancel_le : (a b c : ℕ) → 0 < c → a * c ≤ b * c → a ≤ b
cancel_le a b c p h = grind arith

-- The word is `x` shifted by the bits that `r` has lost, it has a bit at `low` or above, and `r`
-- can still fall by `left`.
record IsProbe (x low left : ℕ) (p : Probe) : Type 0 where
  shifted : p.0 ≡ x * 2 ^ (32 - p.1)
  fits : p.0 < 2 ^ 32
  high : low ≤ p.0
  room : left < p.1
  start : p.1 ≤ 32

shift_more : (x k r : ℕ) → k ≤ r → r ≤ 32 → x * 2 ^ (32 - (r - k)) ≡ x * 2 ^ (32 - r) * 2 ^ k
shift_more x k r h l =
    let e : 32 - (r - k) ≡ (32 - r) + k = omega arith in
    rw e (
      omega (arith, mul_assoc x (2 ^ (32 - r)) (2 ^ k), ap (λ (y : ℕ). x * y) (pow-add (32 - r) k)))

-- A step, at the powers that its shift `k` involves.
shift_if_clear-IsProbe :
    (x k left low : ℕ) (p : Probe)
    → k ≤ 32
    → low * 2 ^ k ≤ 2 ^ (32 - k)
    → IsProbe x low (left + k) p
    → IsProbe x (low * 2 ^ k) left (shift_if_clear k p)
unfolding shift_if_clear
shift_if_clear-IsProbe x k left low (y, r) k_fits step h =
    elim (Bool-cases (ltb y (2 ^ (32 - k)))) [
      | inl clear ↦
          let below : y * 2 ^ k < 2 ^ (32 - k) * 2 ^ k =
            times_lt y (2 ^ (32 - k)) k (ltb→lt _ _ clear) in
          let whole : 2 ^ (32 - k) * 2 ^ k ≡ 2 ^ 32 =
            let e : (32 - k) + k ≡ 32 = omega arith in
            sym (pow-add (32 - k) k) ∙ ap (λ (n : ℕ). 2 ^ n) e in
          let small : y * 2 ^ k < 2 ^ 32 = omega arith in
          let same : u32 (y * 2 ^ k) ≡ y * 2 ^ k = omega arith in
          rw (clear, same)
            (record {
              shifted = omega (
                arith,
                shift_more x k r (omega arith) h.start,
                ap (λ (n : ℕ). n * 2 ^ k) h.shifted,
              );
              fits = small;
              high = times_le low y k h.high;
              room = omega arith;
              start = omega arith;
            })
      | inr set_bit ↦ rw set_bit (record {
        shifted = h.shifted;
        fits = h.fits;
        high = ground (arith, step);
        room = omega arith;
        start = h.start;
      })
    ]

highest_bit-IsProbe :
    (x : ℕ) → 0 < x → x < 2 ^ 32 → (y : ℕ) × IsProbe x (2 ^ 31) 0 (y, highest_bit x)
unfolding highest_bit
highest_bit-IsProbe x positive fits =
    let p0 : IsProbe x 1 31 (x, 32) = record {
      shifted = omega arith;
      fits = fits;
      high = positive;
      room = omega arith;
      start = omega arith;
    } in
    let p1 = shift_if_clear-IsProbe x 16 15 1 _ (omega arith) (omega arith) p0 in
    let p2 = shift_if_clear-IsProbe x 8 7 (2 ^ 16) _ (omega arith) (omega arith) p1 in
    let p3 = shift_if_clear-IsProbe x 4 3 (2 ^ 24) _ (omega arith) (omega arith) p2 in
    let p4 = shift_if_clear-IsProbe x 2 1 (2 ^ 28) _ (omega arith) (omega arith) p3 in
    let p5 = shift_if_clear-IsProbe x 1 0 (2 ^ 30) _ (omega arith) (omega arith) p4 in (_, p5)

highest_bit_bounds :
    (x : ℕ)
    → 0 < x
    → x < 2 ^ 32
    → (2 ^ highest_bit x ≤ 2 * x) × (x < 2 ^ highest_bit x) × (highest_bit x ≤ 32)
highest_bit_bounds x positive fits =
    let (y, p) = highest_bit-IsProbe x positive fits in
    let r = highest_bit x in
    let whole : 2 ^ r * 2 ^ (32 - r) ≡ 2 ^ 32 =
      let e : r + (32 - r) ≡ 32 = omega (arith, p.start) in
      sym (pow-add r (32 - r)) ∙ ap (λ (n : ℕ). 2 ^ n) e in
    (
      cancel_le (2 ^ r) (2 * x) (2 ^ (32 - r)) (pow_positive (32 - r))
          (omega (arith, p.shifted, p.high, mul_assoc 2 x (2 ^ (32 - r)))),
      cancel_lt x (2 ^ r) (2 ^ (32 - r)) (omega (arith, p.shifted, p.fits)),
      p.start,
    )

-- What the order `r` of a count `n` promises.
abbrev pub IsOrder : ℕ → ℤ → Type 0
IsOrder n (pos r) = (n ≤ 2 ^ r) × (2 ^ r < 2 * n) × (r ≤ 32)
IsOrder n (negsuc _) = n ≡ 0

-- For a count of 1 to 2 ^ 32 - 1, `get_count_order` returns the least power of two that is not below
-- the count, as its exponent, and -1 only for 0.
pub get_count_order-IsOrder : (n : ℕ) → n < 2 ^ 32 → IsOrder n (get_count_order n)
unfolding get_count_order
get_count_order-IsOrder n fits = elim (Bool-cases (n == 0)) [
  | inl none_at_all ↦ rw none_at_all ((==_iff n 0).0 none_at_all)
  | inr some_count ↦ elim (Bool-cases (n - 1 == 0)) [
    | inl single ↦ rw (some_count, single) (ground arith)
    | inr several ↦
        rw (some_count, several)
          (ground (arith, highest_bit_bounds (n - 1) (ground arith) (omega arith)))
  ]
]
