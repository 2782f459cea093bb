-- ===== src/Util/Affinity.antt =====
-- The affinity masks of libcpuid/libcpuid_util.c: one bit for each logical CPU, in bytes.
pub mod Laws
use Prim.Native.Nat.{bit_and, bit_or}
use libcpuid.Base.{
  ℕ, ◌-◌, ◌/◌, ◌%◌, ◌^◌, Bool, not, List, get_or, set, replicate, take, drop, ◌++◌, ◌==◌, u8,
}
use libcpuid.Data.CpuId.{mask_setsize}

-- `cpu_affinity_mask_t`: `mask_setsize` bytes.
abbrev pub AffinityMask : Type 0
AffinityMask = List ℕ

-- `__MASK_NCPUBITS`.
abbrev pub mask_ncpubits : ℕ
mask_ncpubits = 8

unfoldable pub init_affinity_mask : AffinityMask → AffinityMask
init_affinity_mask mask = replicate mask_setsize 0

-- Both masks have `mask_setsize` bytes, and `memcpy` copies as many.
unfoldable pub copy_affinity_mask : AffinityMask → AffinityMask → AffinityMask
copy_affinity_mask dest src = take mask_setsize src

-- `bits |= 0x1 << k`, stored into a byte.
unfoldable pub set_bit : ℕ → ℕ → ℕ
set_bit byte k = u8 (bit_or byte (2 ^ k))

-- `bits & (0x1 << k)`, as a condition.
unfoldable pub test_bit : ℕ → ℕ → Bool
test_bit byte k = not (bit_and byte (2 ^ k) == 0)

-- `bits &= ~(0x1 << k)`, stored into a byte: of the complement only the lower eight bits count.
unfoldable pub clear_bit : ℕ → ℕ → ℕ
clear_bit byte k = u8 (bit_and byte (255 - 2 ^ k))

unfoldable pub set_affinity_mask_bit : ℕ → AffinityMask → AffinityMask
set_affinity_mask_bit logical_cpu mask =
    let i = logical_cpu / mask_ncpubits in
    set mask i (set_bit (get_or mask i 0) (logical_cpu % mask_ncpubits))

unfoldable pub get_affinity_mask_bit : ℕ → AffinityMask → Bool
get_affinity_mask_bit logical_cpu mask =
    test_bit (get_or mask (logical_cpu / mask_ncpubits) 0) (logical_cpu % mask_ncpubits)

unfoldable pub clear_affinity_mask_bit : ℕ → AffinityMask → AffinityMask
clear_affinity_mask_bit logical_cpu mask =
    let i = logical_cpu / mask_ncpubits in
    set mask i (clear_bit (get_or mask i 0) (logical_cpu % mask_ncpubits))
