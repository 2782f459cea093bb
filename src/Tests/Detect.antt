-- ===== src/Tests/Detect.antt =====
-- The vendor and the core counts on concrete data.
use libcpuid.Base.{
  ℕ, zero, suc, ◌<◌, ◌≤◌, true, List, [], ◌∷◌, ◌≡◌, refl, ap, arith, pos, codes, map, length, some,
  u8,
}
use libcpuid.Data.Raw.{Regs}
use libcpuid.Detect.Vendor.{cpuid_vendor_identify, vendor_texts}
use libcpuid.Detect.Vendor.Laws.{registers, NamedBy, cpuid_vendor_identify-NamedBy}
use libcpuid.Detect.Instances.{
  cores_htable_size, CoreInstances, core_instances_t_constructor, update_all,
}
use libcpuid.Detect.Instances.Count.{occurs, count_below, AllBelow, update_core_instances-count}

abbrev authentic_amd : List ℕ
authentic_amd = codes "AuthenticAMD"

cpuid_vendor_identify-NamedBy_example :
    let (vendor, stored) =
      cpuid_vendor_identify
        (registers 16 b'A' b'u' b't' b'h' b'e' b'n' b't' b'i' b'c' b'A' b'M' b'D') in
    (stored ≡ authentic_amd) × NamedBy authentic_amd vendor vendor_texts
cpuid_vendor_identify-NamedBy_example =
    cpuid_vendor_identify-NamedBy 16 b'A' b'u' b't' b'h' b'e' b'n' b't' b'i' b'c' b'A' b'M' b'D'
      (ground arith)

abbrev no_text : Regs
no_text = record { eax = 0; ebx = 256; ecx = 1; edx = 1 }

-- Two cores with two logical CPUs each.
abbrev two_cores : List ℕ
two_cores = 0 ∷ 0 ∷ 4 ∷ 4 ∷ []

update_core_instances-count_example :
    (cores : CoreInstances) × (update_all (map pos two_cores) core_instances_t_constructor
      ≡ some cores)
    × (cores.instances ≡ u8 (count_below cores_htable_size (λ k. occurs k two_cores)))
update_core_instances-count_example =
    update_core_instances-count two_cores
      (omega arith, (omega arith, (omega arith, (omega arith, tt)))) (omega arith)

-- The IDs below `n`.
abbrev ids_below : ℕ → List ℕ
ids_below zero = []
ids_below (suc n) = n ∷ ids_below n

ids_below-AllBelow : (n m : ℕ) → n ≤ m → AllBelow m (ids_below n)
ids_below-AllBelow zero m h = tt
ids_below-AllBelow (suc n) m h = (omega arith, ids_below-AllBelow n m (omega arith))

occurs-ids_below : (n k : ℕ) → k < n → occurs k (ids_below n) ≡ true
occurs-ids_below zero k h = elim h [ ]
occurs-ids_below (suc n) k h = ground (arith, occurs-ids_below n k)

length-ids_below : (n : ℕ) → length (ids_below n) ≡ n
length-ids_below zero = refl
length-ids_below (suc n) = ap suc (length-ids_below n)

ids_below-short : (n : ℕ) → n ≤ 65535 → length (ids_below n) ≤ 65535
ids_below-short n h = omega (arith, length-ids_below n)
