-- ===== src/Util/Affinity/Laws.antt =====
-- An affinity mask is a set of logical CPUs.
use libcpuid.Base.{
  ℕ, zero, suc, ◌/◌, ◌%◌, ◌<◌, Bool, true, false, ◌&&◌, ◌||◌, not, List, [], ◌∷◌, ◌≡◌, refl, sym,
  ◌∙◌, arith, get_or, set, length, length-set, replicate, length-replicate, ◌==◌, if◌then◌else◌,
  all_below, all_below_sound,
}
use libcpuid.Data.CpuId.{mask_setsize}
use libcpuid.Util.Affinity.{
  AffinityMask, set_bit, test_bit, clear_bit, init_affinity_mask, set_affinity_mask_bit,
  get_affinity_mask_bit, clear_affinity_mask_bit,
}

abbrev bool_eq : Bool → Bool → Bool
bool_eq true b = b
bool_eq false b = not b

bool_eq_sound : (a b : Bool) → bool_eq a b ≡ true → a ≡ b
bool_eq_sound true true h = refl
bool_eq_sound false false h = refl
bool_eq_sound true false h = sym h
bool_eq_sound false true h = h

-- The laws of one byte, for every byte and every two bits of it.
abbrev set_law : ℕ → ℕ → ℕ → Bool
set_law x k j = bool_eq (test_bit (set_bit x k) j) (k == j || test_bit x j)

abbrev clear_law : ℕ → ℕ → ℕ → Bool
clear_law x k j = bool_eq (test_bit (clear_bit x k) j) (not (k == j) && test_bit x j)

set_table : all_below 8 (λ j. all_below 8 (λ k. all_below 256 (λ x. set_law x k j))) ≡ true
unfolding all_below set_bit test_bit
set_table = refl

clear_table : all_below 8 (λ j. all_below 8 (λ k. all_below 256 (λ x. clear_law x k j))) ≡ true
unfolding all_below clear_bit test_bit
clear_table = refl

test_bit-set_bit :
    (x k j : ℕ) → x < 256 → k < 8 → j < 8 → test_bit (set_bit x k) j ≡ (k == j || test_bit x j)
test_bit-set_bit x k j hx hk hj = bool_eq_sound _ _ (
    all_below_sound 256 (λ x. set_law x k j) x
      (all_below_sound 8 (λ k. all_below 256 (λ x. set_law x k j)) k
        (all_below_sound 8 (λ j. all_below 8 (λ k. all_below 256 (λ x. set_law x k j))) j set_table
          hj)
        hk)
      hx)

test_bit-clear_bit :
    (x k j : ℕ)
    → x < 256
    → k < 8
    → j < 8
    → test_bit (clear_bit x k) j ≡ (not (k == j) && test_bit x j)
test_bit-clear_bit x k j hx hk hj = bool_eq_sound _ _ (
    all_below_sound 256 (λ x. clear_law x k j) x
      (all_below_sound 8 (λ k. all_below 256 (λ x. clear_law x k j)) k
        (all_below_sound 8 (λ j. all_below 8 (λ k. all_below 256 (λ x. clear_law x k j))) j
          clear_table hj)
        hk)
      hx)

-- A mask as the C type has it.
pub record IsMask (mask : AffinityMask) : Type 0 where
  pub size : length mask ≡ mask_setsize
  pub bytes : (i : ℕ) → get_or mask i 0 < 256

get_or-set :
    (xs : List ℕ) (i j v : ℕ)
    → i < length xs
    → get_or (set xs i v) j 0 ≡ (if i == j then v else get_or xs j 0)
get_or-set [] i j v h = elim h [ ]
get_or-set (x ∷ xs) zero zero v h = refl
get_or-set (x ∷ xs) zero (suc j) v h = ground arith
get_or-set (x ∷ xs) (suc i) zero v h = ground arith
get_or-set (x ∷ xs) (suc i) (suc j) v h = ground (arith, get_or-set xs i j v)

-- A CPU's byte and bit determine it.
same_place : (a b : ℕ) → (a == b) ≡ (a / 8 == b / 8 && a % 8 == b % 8)
same_place a b = ground arith

set_bit-lt : (x k : ℕ) → set_bit x k < 256
unfolding set_bit
set_bit-lt x k = omega arith

clear_bit-lt : (x k : ℕ) → clear_bit x k < 256
unfolding clear_bit
clear_bit-lt x k = omega arith

-- A byte of a mask replaced by another byte.
IsMask-set :
    {mask : AffinityMask} (i v : ℕ)
    → i < mask_setsize
    → v < 256
    → IsMask mask
    → IsMask (set mask i v)
IsMask-set {mask} i v h hv m = record {
  size = length-set mask i v ∙ m.size;
  bytes = λ j. ground (arith, get_or-set mask i j v, m.bytes j, m.size);
}

get_or-replicate : (n i : ℕ) → get_or {A = ℕ} (replicate n 0) i 0 ≡ 0
get_or-replicate zero i = refl
get_or-replicate (suc n) zero = refl
get_or-replicate (suc n) (suc i) = get_or-replicate n i

zero_byte : all_below 8 (λ k. not (test_bit 0 k)) ≡ true
unfolding all_below test_bit
zero_byte = refl

test_bit-zero : (k : ℕ) → k < 8 → test_bit 0 k ≡ false
test_bit-zero k h = ground (arith, all_below_sound 8 (λ k. not (test_bit 0 k)) k zero_byte h)

-- After `init_affinity_mask` the mask is well-formed and holds no CPU.
pub init_affinity_mask-empty :
    (mask : AffinityMask)
    → IsMask (init_affinity_mask mask)
      × ((cpu : ℕ) → get_affinity_mask_bit cpu (init_affinity_mask mask) ≡ false)
unfolding init_affinity_mask get_affinity_mask_bit
init_affinity_mask-empty mask = (
  record {
    size = length-replicate {A = ℕ} mask_setsize 0;
    bytes = λ i. omega (arith, get_or-replicate mask_setsize i);
  },
  λ cpu. rw (get_or-replicate mask_setsize (cpu / 8)) (test_bit-zero (cpu % 8) (omega arith)),
)

-- On a well-formed mask and for a CPU below 2 ^ 16, `set_affinity_mask_bit` keeps the mask
-- well-formed and adds that CPU and no other.
pub get-set_affinity_mask_bit :
    (cpu : ℕ) (mask : AffinityMask)
    → cpu < 65536
    → IsMask mask
    → IsMask (set_affinity_mask_bit cpu mask)
      × ((other : ℕ)
          → get_affinity_mask_bit other (set_affinity_mask_bit cpu mask)
            ≡ (cpu == other || get_affinity_mask_bit other mask))
unfolding set_affinity_mask_bit get_affinity_mask_bit
get-set_affinity_mask_bit cpu mask h m = (
  IsMask-set (cpu / 8) _ (omega arith) (set_bit-lt (get_or mask (cpu / 8) 0) (cpu % 8)) m,
  λ other. ground (
    arith,
    m.size,
    m.bytes (cpu / 8),
    same_place cpu other,
    get_or-set mask (cpu / 8) (other / 8) (set_bit (get_or mask (cpu / 8) 0) (cpu % 8)),
    test_bit-set_bit (get_or mask (cpu / 8) 0) (cpu % 8) (other % 8),
  ),
)

-- On a well-formed mask and for a CPU below 2 ^ 16, `clear_affinity_mask_bit` keeps the mask
-- well-formed and takes out that CPU and no other.
pub get-clear_affinity_mask_bit :
    (cpu : ℕ) (mask : AffinityMask)
    → cpu < 65536
    → IsMask mask
    → IsMask (clear_affinity_mask_bit cpu mask)
      × ((other : ℕ)
          → get_affinity_mask_bit other (clear_affinity_mask_bit cpu mask)
            ≡ (not (cpu == other) && get_affinity_mask_bit other mask))
unfolding clear_affinity_mask_bit get_affinity_mask_bit
get-clear_affinity_mask_bit cpu mask h m = (
  IsMask-set (cpu / 8) _ (omega arith) (clear_bit-lt (get_or mask (cpu / 8) 0) (cpu % 8)) m,
  λ other. ground (
    arith,
    m.size,
    m.bytes (cpu / 8),
    same_place cpu other,
    get_or-set mask (cpu / 8) (other / 8) (clear_bit (get_or mask (cpu / 8) 0) (cpu % 8)),
    test_bit-clear_bit (get_or mask (cpu / 8) 0) (cpu % 8) (other % 8),
  ),
)
