-- ===== src/Recog/Intel/Cache/Laws.antt =====
-- Which cache descriptors count.
use mathlib.Core.Path.{fun_ext}
use libcpuid.Base.{
  ◌⊎◌, ℕ, ◌/◌, ◌%◌, ◌^◌, Bool, true, false, ◌&&◌, ◌||◌, not, List, [], ◌∷◌, ◌==◌, has_bit,
  if◌then◌else◌, ◌≡◌, refl, ap, subst, ◌∙◌, arith, pos, minus_one, int_eq,
}
use libcpuid.Data.Kinds.{CacheType, l1i, l1d, l2, l3, cache_index}
use libcpuid.Data.Raw.{Regs, RawData, row}
use libcpuid.Data.CpuId.{CpuId, CacheInfo, X86Id}
use libcpuid.Util.Cache.{assign_cache_data}
use libcpuid.Util.Cache.Table.{info_of, info_of-assign}
use libcpuid.Recog.Intel.Cache.{
  Descriptors, mark_register, descriptors, OldRow, old_rows, assign_all, overloaded, without_level,
  decode_intel_oldstyle_cache_info,
}

-- The register holds the descriptor: its bit 31 is clear and the descriptor is one of its bytes.
abbrev pub holds : ℕ → ℕ → Bool
holds x d =
    not (has_bit x 31)
    && (x % 256 == d || x / 2 ^ 8 % 256 == d || x / 2 ^ 16 % 256 == d || x / 2 ^ 24 % 256 == d)

mark_register-holds : (x : ℕ) (f : Descriptors) (d : ℕ) → mark_register x f d ≡ (holds x d || f d)
unfolding mark_register
mark_register-holds x f d = ground arith

-- What the rows say of the cache `t`: the last of them that counts and is for `t`.
abbrev pub last_row : CacheType → Descriptors → List OldRow → CacheInfo → CacheInfo
last_row t f [] info = info
last_row t f (r ∷ rows) info =
    last_row t f rows
      (if f r.descriptor && cache_index r.cache == cache_index t then r.info else info)

assign_step :
    (t : CacheType) (on : Bool) (cache : CacheType) (info : CacheInfo) (id : CpuId)
    → info_of t (assign_cache_data on cache info id)
      ≡ (if on && cache_index cache == cache_index t then info else info_of t id)
assign_step t true cache info id = info_of-assign t cache info id
assign_step t false cache info id = unfold assign_cache_data in refl

assign_all-last_row :
    (t : CacheType) (f : Descriptors) (rows : List OldRow) (id : CpuId)
    → info_of t (assign_all f rows id) ≡ last_row t f rows (info_of t id)
unfolding assign_all
assign_all-last_row t f [] id = refl
assign_all-last_row t f (r ∷ rows) id =
    assign_all-last_row t f rows (assign_cache_data (f r.descriptor) r.cache r.info id)
    ∙ ap (λ (info : CacheInfo). last_row t f rows info)
        (assign_step t (f r.descriptor) r.cache r.info id)

-- Some register of leaf 2 holds the descriptor.
abbrev pub announces : Regs → ℕ → Bool
announces leaf2 d =
    holds leaf2.edx d || (holds leaf2.ecx d || (holds leaf2.ebx d || (holds leaf2.eax d || false)))

descriptors-announces : (leaf2 : Regs) (d : ℕ) → descriptors leaf2 d ≡ announces leaf2 d
unfolding descriptors
descriptors-announces leaf2 d =
    rw
      (
        mark_register-holds leaf2.edx
            (mark_register leaf2.ecx
              (mark_register leaf2.ebx (mark_register leaf2.eax (λ d. false))))
            d,
        mark_register-holds leaf2.ecx
            (mark_register leaf2.ebx (mark_register leaf2.eax (λ d. false))) d,
        mark_register-holds leaf2.ebx (mark_register leaf2.eax (λ d. false)) d,
        mark_register-holds leaf2.eax (λ d. false) d,
      )
      refl

-- What the last row that counts says of a cache.
abbrev pub told : CacheType → Regs → CacheInfo → CacheInfo
told t leaf2 info = last_row t (announces leaf2) old_rows info

assign_all-told :
    (t : CacheType) (leaf2 : Regs) (id : CpuId)
    → info_of t (assign_all (descriptors leaf2) old_rows id) ≡ told t leaf2 (info_of t id)
assign_all-told t leaf2 id =
    assign_all-last_row t (descriptors leaf2) old_rows id
    ∙ ap (λ (f : Descriptors). last_row t f old_rows (info_of t id))
        (fun_ext (descriptors-announces leaf2))

assign_x86 :
    (on : Bool) (cache : CacheType) (info : CacheInfo) (id : CpuId)
    → (assign_cache_data on cache info id).x86 ≡ id.x86
unfolding assign_cache_data
assign_x86 on cache info id = ground arith

assign_all-x86 :
    (f : Descriptors) (rows : List OldRow) (id : CpuId) → (assign_all f rows id).x86 ≡ id.x86
unfolding assign_all
assign_all-x86 f [] id = refl
assign_all-x86 f (r ∷ rows) id =
    assign_all-x86 f rows (assign_cache_data (f r.descriptor) r.cache r.info id)
    ∙ assign_x86 (f r.descriptor) r.cache r.info id

-- A Xeon MP, on which 49h is a third level cache.
abbrev pub is_xeon_mp : X86Id → Bool
is_xeon_mp x86 = int_eq x86.family (pos 15) && int_eq x86.model (pos 6)

abbrev pub four_megabytes : CacheInfo
four_megabytes = record { cache = pos 4096; assoc = pos 16; cacheline = pos 64 }

-- What 49h makes of the second and third level, and what 40h does.
pub record IsOverloaded (on xeon_mp : Bool) (l2 l3 l2' l3' : CacheInfo) : Type 0 where
  pub off : on ≡ false → (l2' ≡ l2) × (l3' ≡ l3)
  pub third : on ≡ true → xeon_mp ≡ true → (l2' ≡ l2) × (l3' ≡ four_megabytes)
  pub second : on ≡ true → xeon_mp ≡ false → (l2' ≡ four_megabytes) × (l3' ≡ l3)

pub record IsWithout (on : Bool) (l2 l3 l2' l3' : CacheInfo) : Type 0 where
  pub off : on ≡ false → (l2' ≡ l2) × (l3' ≡ l3)
  pub second :
      on ≡ true
      → int_eq l2.cache minus_one ≡ true
      → (l2' ≡ record l2 { cache = pos 0 }) × (l3' ≡ l3)
  pub third :
      on ≡ true
      → int_eq l2.cache minus_one ≡ false
      → (l2' ≡ l2) × (l3' ≡ record l3 { cache = pos 0 })

overloaded-IsOverloaded :
    (on : Bool) (id : CpuId)
    → IsOverloaded on
        (is_xeon_mp id.x86)
        id.l2_level
        id.l3_level
        (overloaded on id).l2_level
        (overloaded on id).l3_level
unfolding overloaded
overloaded-IsOverloaded on id = record {
  off = λ h. rw h (refl, refl);
  third = λ h x. rw (h, x) (refl, refl);
  second = λ h x. rw (h, x) (refl, refl);
}

without_level-IsWithout :
    (on : Bool) (id : CpuId)
    → IsWithout on id.l2_level id.l3_level
        (without_level on id).l2_level
        (without_level on id).l3_level
unfolding without_level
without_level-IsWithout on id = record {
  off = λ h. rw h (refl, refl);
  second = λ h x. rw (h, x) (refl, refl);
  third = λ h x. rw (h, x) (refl, refl);
}

-- What the two special descriptors, 49h and 40h, leave alone, and what they do.
record IsSpecial (on49 on40 : Bool) (before after : CpuId) : Type 0 where
  data_cache : after.l1_data ≡ before.l1_data
  instructions : after.l1_instruction ≡ before.l1_instruction
  fourth : after.l4_level ≡ before.l4_level
  plain :
      on49 ≡ false
      → on40 ≡ false
      → (after.l2_level ≡ before.l2_level) × (after.l3_level ≡ before.l3_level)
  four_mb :
      on49 ≡ true → on40 ≡ false → after.l2_level.cache ≡ pos 4096 ⊎ after.l3_level.cache ≡ pos 4096
  without : on40 ≡ true → after.l2_level.cache ≡ pos 0 ⊎ after.l3_level.cache ≡ pos 0

special :
    (on49 on40 : Bool) (id : CpuId)
    → IsSpecial on49 on40 id (without_level on40 (overloaded on49 id))
unfolding without_level overloaded
special on49 on40 id = record {
  data_cache = ground arith;
  instructions = ground arith;
  fourth = ground arith;
  plain = λ h k. ground arith;
  four_mb = λ h k. ground arith;
  without = λ k. ground arith;
}

-- The caches after leaf 2 has been decoded.
pub record IsOldStyle (leaf2 : Regs) (before after : CpuId) : Type 0 where
  pub data_cache : after.l1_data ≡ told l1d leaf2 before.l1_data
  pub instructions : after.l1_instruction ≡ told l1i leaf2 before.l1_instruction
  pub plain :
      announces leaf2 73 ≡ false
      → announces leaf2 64 ≡ false
      → (after.l2_level ≡ told l2 leaf2 before.l2_level)
        × (after.l3_level ≡ told l3 leaf2 before.l3_level)
  pub four_mb :
      announces leaf2 73 ≡ true
      → announces leaf2 64 ≡ false
      → after.l2_level.cache ≡ pos 4096 ⊎ after.l3_level.cache ≡ pos 4096
  pub without :
      announces leaf2 64 ≡ true → after.l2_level.cache ≡ pos 0 ⊎ after.l3_level.cache ≡ pos 0
  pub l2_between : CacheInfo
  pub l3_between : CacheInfo
  pub first :
      IsOverloaded
        (announces leaf2 73)
        (is_xeon_mp before.x86)
        (told l2 leaf2 before.l2_level)
        (told l3 leaf2 before.l3_level)
        l2_between
        l3_between
  pub second : IsWithout (announces leaf2 64) l2_between l3_between after.l2_level after.l3_level

-- The step of 49h behind the rows of the table.
first_step :
    (leaf2 : Regs) (id : CpuId)
    → let f = descriptors leaf2 in
      let mid = assign_all f old_rows id in
      IsOverloaded
        (announces leaf2 73)
        (is_xeon_mp id.x86)
        (told l2 leaf2 id.l2_level)
        (told l3 leaf2 id.l3_level)
        (overloaded (f 73) mid).l2_level
        (overloaded (f 73) mid).l3_level
first_step leaf2 id =
    let f = descriptors leaf2 in
    let mid = assign_all f old_rows id in
    let same = descriptors-announces leaf2 73 in
    let xeon = ap (λ (x : X86Id). is_xeon_mp x) (assign_all-x86 f old_rows id) in
    let second_told = assign_all-told l2 leaf2 id in
    let third_told = assign_all-told l3 leaf2 id in
    let h = overloaded-IsOverloaded (f 73) mid in
    record {
      off = λ a. let k = h.off (same ∙ a) in (k.0 ∙ second_told, k.1 ∙ third_told);
      third = λ a x. let k = h.third (same ∙ a) (xeon ∙ x) in (k.0 ∙ second_told, k.1);
      second = λ a x. let k = h.second (same ∙ a) (xeon ∙ x) in (k.0, k.1 ∙ third_told);
    }

-- `decode_intel_oldstyle_cache_info` stores for each first level cache what the last row of its table
-- says whose descriptor a register of leaf 2 with a clear bit 31 holds. It does so for the second and
-- third level where neither 49h nor 40h is announced. Where it is announced, 49h then makes the third level
-- of a Xeon MP, and else the second, one of 4 MB, and 40h after that empties the second level where its
-- size is not known, and else the third.
pub decode_intel_oldstyle_cache_info-IsOldStyle :
    (raw : RawData) (id : CpuId)
    → IsOldStyle (row raw.basic_cpuid 2) id (decode_intel_oldstyle_cache_info raw id)
unfolding decode_intel_oldstyle_cache_info
decode_intel_oldstyle_cache_info-IsOldStyle raw id =
    let leaf2 = row raw.basic_cpuid 2 in
    let f = descriptors leaf2 in
    let same = descriptors-announces leaf2 in
    let mid = assign_all f old_rows id in
    let h = special (f 73) (f 64) mid in
    record {
      data_cache = h.data_cache ∙ assign_all-told l1d leaf2 id;
      instructions = h.instructions ∙ assign_all-told l1i leaf2 id;
      plain = λ a b.
          let kept = h.plain (same 73 ∙ a) (same 64 ∙ b) in
          (kept.0 ∙ assign_all-told l2 leaf2 id, kept.1 ∙ assign_all-told l3 leaf2 id);
      four_mb = λ a b. h.four_mb (same 73 ∙ a) (same 64 ∙ b);
      without = λ b. h.without (same 64 ∙ b);
      l2_between = (overloaded (f 73) mid).l2_level;
      l3_between = (overloaded (f 73) mid).l3_level;
      first = first_step leaf2 id;
      second =
          subst
            (λ on.
              IsWithout on (overloaded (f 73) mid).l2_level (overloaded (f 73) mid).l3_level
                (without_level (f 64) (overloaded (f 73) mid)).l2_level
                (without_level (f 64) (overloaded (f 73) mid)).l3_level)
            (same 64) (without_level-IsWithout (f 64) (overloaded (f 73) mid));
    }
