-- ===== src/Util/Cache/Row.antt =====
-- What one sub-leaf of the deterministic cache parameters is decoded to.
use libcpuid.Base.{
  ℕ, ◌+◌, ◌*◌, ◌/◌, ◌^◌, ◌≤◌, ◌<◌, ◌≡◌, ap, arith, u32, ℤ, pos, negsuc, extracts_bits,
}
use libcpuid.Data.Raw.{Regs}
use libcpuid.Util.Order.{get_count_order}
use libcpuid.Util.Order.Bounds.{IsOrder, get_count_order-IsOrder, pow_positive}
use libcpuid.Util.Cache.{
  num_sharing_cache, ways, partitions, linesize, sets, cache_size, mask_of_order, row_mask,
}

-- The mask clears the lowest bits of an APIC ID, as many as number the logical CPUs that share the cache.
pub record IsSharingMask (sharing mask : ℕ) : Type 0 where
  pub order : ℕ
  pub is_mask : mask + 2 ^ order ≡ 2 ^ 32
  pub enough : sharing ≤ 2 ^ order
  pub least : 2 ^ order < 2 * sharing

mask_of_order-IsSharingMask :
    (sharing n : ℕ) (r : ℤ)
    → n ≡ sharing
    → 0 < n
    → n ≤ 4096
    → IsOrder n r
    → IsSharingMask sharing (mask_of_order r)
unfolding mask_of_order
mask_of_order-IsSharingMask sharing n (pos r) e low high h = record {
  order = r;
  is_mask = omega (arith, pow_positive r);
  enough = omega arith;
  least = omega arith;
}
mask_of_order-IsSharingMask sharing n (negsuc r) e low high h = absurd (omega arith)

-- A factor may be cut to 32 bits before a product is.
u32-mul : (x y : ℕ) → u32 (u32 x * y) ≡ u32 (x * y)
u32-mul x y =
    let split : x ≡ x / 2 ^ 32 * 2 ^ 32 + u32 x = omega arith in
    omega (arith, ap (λ (t : ℕ). t * y) split)

u32-mul_thrice : (a b c d : ℕ) → u32 (u32 (u32 (a * b) * c) * d) ≡ u32 (a * b * c * d)
u32-mul_thrice a b c d =
    let inner : u32 (u32 (a * b) * c) ≡ u32 (a * b * c) = u32-mul (a * b) c in
    rw inner (u32-mul (a * b * c) d)

-- `row_mask` is a mask for the 1 to 4096 CPUs that share the cache, with the least power of two that
-- covers them; and the size is the product of the four factors in KiB, where that product fits 32 bits.
pub row-IsSharingMask :
    (regs : Regs)
    → IsSharingMask (extracts_bits regs.eax 25 14 + 1) (row_mask regs)
      × (ways regs * partitions regs * linesize regs * sets regs < 2 ^ 32
          → cache_size regs ≡ ways regs * partitions regs * linesize regs * sets regs / 1024)
unfolding row_mask cache_size
row-IsSharingMask regs = (
  mask_of_order-IsSharingMask (extracts_bits regs.eax 25 14 + 1) n (get_count_order n) (omega arith)
      (omega arith) (omega arith) (get_count_order-IsOrder n (omega arith)),
  λ fits.
      rw (u32-mul_thrice (ways regs) (partitions regs) (linesize regs) (sets regs))
        (ap (λ (t : ℕ). t / 1024) (small fits)),
)
  where
    n : ℕ
    n = num_sharing_cache regs

    small :
        ways regs * partitions regs * linesize regs * sets regs < 2 ^ 32
        → u32 (ways regs * partitions regs * linesize regs * sets regs)
          ≡ ways regs * partitions regs * linesize regs * sets regs
    small fits = omega arith
