-- ===== src/Recog/Amd/Decode/Caches.antt =====
-- The caches of AMD processors.
use libcpuid.Base.{
  ℕ, zero, suc, ◌+◌, ◌*◌, ◌%◌, ◌^◌, ◌≤◌, ◌<◌, Bool, true, false, List, [], ◌∷◌, some, length,
  get_elem?, leb, ltb, get_or, if◌then◌else◌, ◌≡◌, refl, arith, extracts_bits, pos, minus_one,
}
use libcpuid.Data.Raw.{RawData, row}
use libcpuid.Data.CpuId.{CpuId, CacheInfo}
use libcpuid.Recog.Amd.Decode.{
  assoc_of, assoc_table, decode_l1, decode_l2_l3, decode_amd_cache_info,
}

get_elem?-get_or : (xs : List ℕ) (k d : ℕ) → k < length xs → get_elem? xs k ≡ some (get_or xs k d)
get_elem?-get_or [] k d h = absurd (omega (arith, h))
get_elem?-get_or (x ∷ xs) zero d h = refl
get_elem?-get_or (x ∷ xs) (suc k) d h = get_elem?-get_or xs k d (omega (arith, h))

-- A first level cache and the register that it is decoded from: line size, tags, ways and KiB.
pub record IsL1Of (reg : ℕ) (info : CacheInfo) : Type 0 where
  pub line : ℕ
  pub tags : ℕ
  pub ways : ℕ
  pub size : ℕ
  pub small : (line < 256) × (tags < 256) × (ways < 256) × (size < 256)
  pub word : reg % 2 ^ 32 ≡ line + tags * 2 ^ 8 + ways * 2 ^ 16 + size * 2 ^ 24
  pub stored : info ≡ record { cache = pos size; assoc = pos ways; cacheline = pos line }

-- A second level cache: the ways are those of their code in the table.
pub record IsL2Of (reg : ℕ) (info : CacheInfo) : Type 0 where
  pub line : ℕ
  pub tags : ℕ
  pub ways_code : ℕ
  pub size : ℕ
  pub small : (line < 256) × (tags < 16) × (ways_code < 16) × (size < 2 ^ 16)
  pub word : reg % 2 ^ 32 ≡ line + tags * 2 ^ 8 + ways_code * 2 ^ 12 + size * 2 ^ 16
  pub ways : ℕ
  pub decoded : get_elem? assoc_table ways_code ≡ some ways
  pub stored : info ≡ record { cache = pos size; assoc = pos ways; cacheline = pos line }

-- A third level cache, counted in blocks of 512 KiB. Without a block only its size is set, to unknown.
pub record IsL3Of (reg : ℕ) (before info : CacheInfo) : Type 0 where
  pub line : ℕ
  pub tags : ℕ
  pub ways_code : ℕ
  pub unused : ℕ
  pub blocks : ℕ
  pub small : (line < 256) × (tags < 16) × (ways_code < 16) × (unused < 4) × (blocks < 2 ^ 14)
  pub word :
      reg % 2 ^ 32 ≡ line + tags * 2 ^ 8 + ways_code * 2 ^ 12 + unused * 2 ^ 16 + blocks * 2 ^ 18
  pub ways : ℕ
  pub decoded : get_elem? assoc_table ways_code ≡ some ways
  pub known :
      0 < blocks
      → info ≡ record { cache = pos (blocks * 512); assoc = pos ways; cacheline = pos line }
  pub unknown : blocks ≡ 0 → info ≡ record before { cache = minus_one }

-- The caches, by the highest extended leaf.
pub record HasCaches (raw : RawData) (before after : CpuId) : Type 0 where
  pub neither : (row raw.ext_cpuid 0).eax < 2 ^ 31 + 5 → after ≡ before
  pub l1 :
      2 ^ 31 + 5 ≤ (row raw.ext_cpuid 0).eax
      → IsL1Of (row raw.ext_cpuid 5).ecx after.l1_data
        × IsL1Of (row raw.ext_cpuid 5).edx after.l1_instruction
  pub only_l1 :
      (row raw.ext_cpuid 0).eax < 2 ^ 31 + 6
      → (after.l2_level ≡ before.l2_level) × (after.l3_level ≡ before.l3_level)
  pub l2_l3 :
      2 ^ 31 + 6 ≤ (row raw.ext_cpuid 0).eax
      → IsL2Of (row raw.ext_cpuid 6).ecx after.l2_level
        × IsL3Of (row raw.ext_cpuid 6).edx before.l3_level after.l3_level
  pub rest :
      record after {
        l1_data = before.l1_data;
        l1_instruction = before.l1_instruction;
        l2_level = before.l2_level;
        l3_level = before.l3_level;
      }
      ≡ before

leb_holds : (a b : ℕ) → a ≤ b → leb a b ≡ true
leb_holds a b h = ground arith

leb_fails : (a b : ℕ) → b < a → leb a b ≡ false
leb_fails a b h = ground arith

l1_info-IsL1Of :
    (reg : ℕ)
    → IsL1Of reg (record {
      cache = pos (extracts_bits reg 31 24);
      assoc = pos (extracts_bits reg 23 16);
      cacheline = pos (extracts_bits reg 7 0);
    })
l1_info-IsL1Of reg = record {
  line = extracts_bits reg 7 0;
  tags = extracts_bits reg 15 8;
  ways = extracts_bits reg 23 16;
  size = extracts_bits reg 31 24;
  small = (omega arith, omega arith, omega arith, omega arith);
  word = omega arith;
  stored = refl;
}

assoc_of-decoded : (reg : ℕ) → get_elem? assoc_table (extracts_bits reg 15 12) ≡ some (assoc_of reg)
assoc_of-decoded reg = get_elem?-get_or assoc_table (extracts_bits reg 15 12) 0 (omega arith)

decode_l2_l3-IsL2Of :
    (raw : RawData) (id : CpuId) → IsL2Of (row raw.ext_cpuid 6).ecx (decode_l2_l3 raw id).l2_level
unfolding decode_l2_l3
decode_l2_l3-IsL2Of raw id =
    let reg = (row raw.ext_cpuid 6).ecx in
    record {
      line = extracts_bits reg 7 0;
      tags = extracts_bits reg 11 8;
      ways_code = extracts_bits reg 15 12;
      size = extracts_bits reg 31 16;
      small = (omega arith, omega arith, omega arith, omega arith);
      word = omega arith;
      ways = assoc_of reg;
      decoded = assoc_of-decoded reg;
      stored = refl;
    }

decode_l2_l3-IsL3Of :
    (raw : RawData) (id : CpuId)
    → IsL3Of (row raw.ext_cpuid 6).edx id.l3_level (decode_l2_l3 raw id).l3_level
unfolding decode_l2_l3
decode_l2_l3-IsL3Of raw id =
    let reg = (row raw.ext_cpuid 6).edx in
    record {
      line = extracts_bits reg 7 0;
      tags = extracts_bits reg 11 8;
      ways_code = extracts_bits reg 15 12;
      unused = extracts_bits reg 17 16;
      blocks = extracts_bits reg 31 18;
      small = (omega arith, omega arith, omega arith, omega arith, omega arith);
      word = omega arith;
      ways = assoc_of reg;
      decoded = assoc_of-decoded reg;
      known = λ h.
          let there : ltb 0 (extracts_bits reg 31 18) ≡ true = ground (arith, h) in rw there refl;
      unknown = λ h.
          let missing : ltb 0 (extracts_bits reg 31 18) ≡ false = ground (arith, h) in
          rw missing refl;
    }

-- What `decode_l2_l3` leaves alone, and what both do.
decode_l1-stored :
    (raw : RawData) (id : CpuId) (b : Bool)
    → let after = if b then decode_l2_l3 raw (decode_l1 raw id) else decode_l1 raw id in
      IsL1Of (row raw.ext_cpuid 5).ecx after.l1_data
      × IsL1Of (row raw.ext_cpuid 5).edx after.l1_instruction
unfolding decode_l1 decode_l2_l3
decode_l1-stored raw id true =
    (l1_info-IsL1Of (row raw.ext_cpuid 5).ecx, l1_info-IsL1Of (row raw.ext_cpuid 5).edx)
decode_l1-stored raw id false =
    (l1_info-IsL1Of (row raw.ext_cpuid 5).ecx, l1_info-IsL1Of (row raw.ext_cpuid 5).edx)

decode_l1-others :
    (raw : RawData) (id : CpuId) (b : Bool)
    → let after = if b then decode_l1 raw id else id in
      (after.l2_level ≡ id.l2_level) × (after.l3_level ≡ id.l3_level)
unfolding decode_l1
decode_l1-others raw id true = (refl, refl)
decode_l1-others raw id false = (refl, refl)

only_caches :
    (raw : RawData) (id : CpuId) (b c : Bool)
    → let first = if b then decode_l1 raw id else id in
      record (if c then decode_l2_l3 raw first else first) {
        l1_data = id.l1_data;
        l1_instruction = id.l1_instruction;
        l2_level = id.l2_level;
        l3_level = id.l3_level;
      }
      ≡ id
unfolding decode_l1 decode_l2_l3
only_caches raw id true true = refl
only_caches raw id true false = refl
only_caches raw id false true = refl
only_caches raw id false false = refl

-- `decode_amd_cache_info` changes nothing below leaf 80000005h. From there on it stores the first level
-- data cache by ECX and the instruction cache by EDX of that leaf, and from leaf 80000006h on the second
-- level by ECX and the third, in blocks of 512 KiB, by EDX, with the associativities of their codes in the
-- table. It changes nothing but these four caches.
pub decode_amd_cache_info-HasCaches :
    (raw : RawData) (id : CpuId) → HasCaches raw id (decode_amd_cache_info raw id)
unfolding decode_amd_cache_info
decode_amd_cache_info-HasCaches raw id =
    let n = (row raw.ext_cpuid 0).eax in
    record {
      neither = λ h. rw (leb_fails (2 ^ 31 + 5) n h, leb_fails (2 ^ 31 + 6) n (omega arith)) refl;
      l1 = λ h. rw (leb_holds (2 ^ 31 + 5) n h) (decode_l1-stored raw id (leb (2 ^ 31 + 6) n));
      only_l1 = λ h. rw (leb_fails (2 ^ 31 + 6) n h) (decode_l1-others raw id (leb (2 ^ 31 + 5) n));
      l2_l3 = λ h.
          rw (leb_holds (2 ^ 31 + 5) n (omega arith), leb_holds (2 ^ 31 + 6) n h)
            (
              decode_l2_l3-IsL2Of raw (decode_l1 raw id),
              unfold decode_l1 in decode_l2_l3-IsL3Of raw (decode_l1 raw id),
            );
      rest = only_caches raw id (leb (2 ^ 31 + 5) n) (leb (2 ^ 31 + 6) n);
    }
