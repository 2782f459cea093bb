-- ===== src/Util/Cores/Laws.antt =====
-- What `decode_number_of_cores_x86` stores.
use libcpuid.Base.{
  ℕ, zero, suc, ap, sym, leb→le, ==_iff, minus_one, ◌/◌, ◌%◌, ◌^◌, ◌≤◌, ◌<◌, max, Bool, true, false,
  leb, ◌==◌, if◌then◌else◌, ◌≡◌, ◌≢◌, ◌⊎◌, ◌↔◌, inl, inr, refl, arith, Bool-cases, pos, int_lt,
  int_eq,
}
use libcpuid.Data.Feature
use libcpuid.Data.Feature.{CpuFeature}
use libcpuid.Data.Raw.{RawData, row}
use libcpuid.Data.CpuId.{CpuId, Flags, set_flag}
use libcpuid.Util.Cores.{leaf1_logical_cpus, leaf4_cores, at_least_one, decode_number_of_cores_x86}

-- The two fields of the leaves: the logical CPUs in leaf 1, and in leaf 4 the cores less one.
abbrev pub cpu_field : RawData → ℕ
cpu_field raw = (row raw.basic_cpuid 1).ebx / 2 ^ 16 % 2 ^ 8

abbrev pub core_field : RawData → ℕ
core_field raw = (row raw.basic_cpuid 4).eax / 2 ^ 26 % 2 ^ 6

abbrev pub last_leaf : RawData → ℕ
last_leaf raw = (row raw.basic_cpuid 0).eax

-- The logical CPUs of leaf 1, and one where it counts none or is missing.
abbrev pub cpus_at_least_one : RawData → ℕ
cpus_at_least_one raw = if leb 1 (last_leaf raw) then max 1 (cpu_field raw) else 1

-- The counts and the flag HT, by that flag and by what leaf 4 counts; no other flag changes, and nothing
-- but the counts and the flags.
pub record HasCores (raw : RawData) (before after : CpuId) : Type 0 where
  pub single :
      before.flags Feature.ht ≡ false
      → (after.num_cores ≡ pos (cpus_at_least_one raw))
        × (after.num_logical_cpus ≡ pos (cpus_at_least_one raw))
        × (after.flags Feature.ht ≡ false)
  pub several :
      before.flags Feature.ht ≡ true
      → 4 ≤ last_leaf raw
      → 0 < core_field raw
      → (after.num_cores ≡ pos (suc (core_field raw)))
        × (after.num_logical_cpus ≡ pos (cpu_field raw))
        × (after.flags Feature.ht ≡ true)
  pub one_core :
      before.flags Feature.ht ≡ true
      → last_leaf raw < 4 ⊎ (core_field raw ≡ 0)
      → (after.num_cores ≡ pos 1)
        × (after.num_logical_cpus ≡ pos (cpus_at_least_one raw))
        × (after.flags Feature.ht ≡ true ↔ cpus_at_least_one raw ≢ 1)
  pub others : (f : CpuFeature) → f ≢ Feature.ht → after.flags f ≡ before.flags f
  pub rest :
      record after {
        num_cores = before.num_cores;
        num_logical_cpus = before.num_logical_cpus;
        flags = before.flags;
      }
      ≡ before

at_least_one-max : (n : ℕ) → at_least_one (pos n) ≡ pos (max 1 n)
at_least_one-max zero = refl
at_least_one-max (suc n) = ground arith

cpus_of_leaf1 :
    (raw : RawData) → at_least_one (leaf1_logical_cpus raw) ≡ pos (cpus_at_least_one raw)
unfolding leaf1_logical_cpus
cpus_of_leaf1 raw = elim (Bool-cases (leb 1 (last_leaf raw))) [
  | inl there ↦ rw there (at_least_one-max (cpu_field raw))
  | inr missing ↦ rw missing refl
]

leaf4_cores-some :
    (raw : RawData) → 4 ≤ last_leaf raw → leaf4_cores raw ≡ pos (suc (core_field raw))
unfolding leaf4_cores
leaf4_cores-some raw h =
    let one : leb 1 (last_leaf raw) ≡ true = ground (arith, h) in
    let four : leb 4 (last_leaf raw) ≡ true = ground (arith, h) in
    rw (one, four) (ap pos (omega arith))

leaf4_cores-none :
    (raw : RawData)
    → last_leaf raw < 4 ⊎ (core_field raw ≡ 0)
    → int_lt (pos 1) (leaf4_cores raw) ≡ false
leaf4_cores-none raw h = elim (Bool-cases (leb 4 (last_leaf raw))) [
  | inl there ↦ rw (leaf4_cores-some raw (leb→le 4 _ there)) (none_counted (core_field raw) there h)
  | inr missing ↦ unfold leaf4_cores in (rw missing (if_same (leb 1 (last_leaf raw))))
]
  where
    none_counted :
        (c : ℕ)
        → leb 4 (last_leaf raw) ≡ true
        → last_leaf raw < 4 ⊎ (c ≡ 0)
        → int_lt (pos 1) (pos (suc c)) ≡ false
    none_counted c there (inl less) = absurd (ground (arith, there, less))
    none_counted c there (inr zero_field) = rw zero_field refl

    if_same : (b : Bool) → int_lt (pos 1) (if b then minus_one else minus_one) ≡ false
    if_same true = refl
    if_same false = refl

-- The flag where one core is stored.
flag_kept :
    (flags : Flags) (c : ℕ)
    → flags Feature.ht ≡ true
    → ((if int_eq (pos c) (pos 1) then set_flag Feature.ht false flags else flags) Feature.ht
        ≡ true)
      ↔ (c ≢ 1)
flag_kept flags c h = elim (Bool-cases (int_eq (pos c) (pos 1))) [
  | inl e ↦ (λ t. absurd (ground (arith, rw e at t)), λ n. absurd (n (ground (arith, e))))
  | inr e ↦ (λ t k. ground (arith, e, k), λ n. rw e h)
]

other_flag :
    (flags : Flags) (b : Bool) (f : CpuFeature)
    → f ≢ Feature.ht
    → (if b then set_flag Feature.ht false flags else flags) f ≡ flags f
other_flag flags true f h = elim (Bool-cases (Feature.ht == f)) [
  | inl e ↦ absurd (h (sym ((==_iff Feature.ht f).0 e)))
  | inr e ↦ rw e refl
]
other_flag flags false f h = refl

leaf1-some : (raw : RawData) → 1 ≤ last_leaf raw → leaf1_logical_cpus raw ≡ pos (cpu_field raw)
unfolding leaf1_logical_cpus
leaf1-some raw h = let one : leb 1 (last_leaf raw) ≡ true = ground (arith, h) in rw one refl

other_flags :
    (raw : RawData) (id : CpuId) (f : CpuFeature)
    → f ≢ Feature.ht
    → (decode_number_of_cores_x86 raw id).flags f ≡ id.flags f
unfolding decode_number_of_cores_x86
other_flags raw id f h = elim (Bool-cases (id.flags Feature.ht)) [
  | inl e ↦ elim (Bool-cases (int_lt (pos 1) (leaf4_cores raw))) [
    | inl m ↦ rw (e, m) refl
    | inr m ↦ rw (e, m) (other_flag id.flags _ f h)
  ]
  | inr e ↦ rw e refl
]

only_counts :
    (raw : RawData) (id : CpuId)
    → record (decode_number_of_cores_x86 raw id) {
      num_cores = id.num_cores;
      num_logical_cpus = id.num_logical_cpus;
      flags = id.flags;
    }
      ≡ id
unfolding decode_number_of_cores_x86
only_counts raw id = elim (Bool-cases (id.flags Feature.ht)) [
  | inl e ↦ elim (Bool-cases (int_lt (pos 1) (leaf4_cores raw))) [
    | inl m ↦ rw (e, m) refl
    | inr m ↦ rw (e, m) refl
  ]
  | inr e ↦ rw e refl
]

-- `decode_number_of_cores_x86` stores, without the flag HT, the logical CPUs of leaf 1, or one, as both
-- counts. With it, and where leaf 4 counts several cores, it stores these and the logical CPUs of leaf 1.
-- With it and no such cores it stores one core and the logical CPUs of leaf 1, or one, and the flag stays
-- just where that is not one. It changes nothing else.
pub decode_number_of_cores_x86-HasCores :
    (raw : RawData) (id : CpuId) → HasCores raw id (decode_number_of_cores_x86 raw id)
unfolding decode_number_of_cores_x86
decode_number_of_cores_x86-HasCores raw id = record {
  single = λ h. rw h (cpus_of_leaf1 raw, cpus_of_leaf1 raw, h);
  several = λ h l c.
      let more : int_lt (pos 1) (leaf4_cores raw) ≡ true =
        rw (leaf4_cores-some raw l) (ground (arith, c)) in
      rw (h, more) (leaf4_cores-some raw l, leaf1-some raw (omega (arith, l)), h);
  one_core = λ h l.
      rw (h, leaf4_cores-none raw l, cpus_of_leaf1 raw)
        (refl, refl, flag_kept id.flags (cpus_at_least_one raw) h);
  others = λ f h. other_flags raw id f h;
  rest = only_counts raw id;
}
