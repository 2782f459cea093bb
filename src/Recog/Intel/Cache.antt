-- ===== src/Recog/Intel/Cache.antt =====
-- `decode_intel_oldstyle_cache_info` of libcpuid/recog_intel.c: the cache descriptors of leaf 2.
pub mod Laws
use libcpuid.Base.{
  ℕ, ◌/◌, ◌%◌, ◌^◌, Bool, false, ◌&&◌, ◌||◌, List, [], ◌∷◌, ◌==◌, has_bit, if◌then◌else◌, ℤ, pos,
  minus_one, int_eq,
}
use libcpuid.Data.Kinds.{CacheType, l1i, l1d, l2, l3}
use libcpuid.Data.Raw.{Regs, RawData, row}
use libcpuid.Data.CpuId.{CpuId, CacheInfo}
use libcpuid.Util.Cache.{assign_cache_data}

-- `f[256]`: which descriptors are there.
abbrev pub Descriptors : Type 0
Descriptors = ℕ → Bool

-- The body of the loop over the registers; a register with bit 31 set holds no descriptors.
unfoldable pub mark_register : ℕ → Descriptors → Descriptors
mark_register x f = if has_bit x 31 then f else λ d.
    x % 256 == d || x / 2 ^ 8 % 256 == d || x / 2 ^ 16 % 256 == d || x / 2 ^ 24 % 256 == d || f d

unfoldable pub descriptors : Regs → Descriptors
descriptors leaf2 =
    mark_register leaf2.edx
      (mark_register leaf2.ecx (mark_register leaf2.ebx (mark_register leaf2.eax (λ d. false))))

-- The arguments of one call of `assign_cache_data`.
pub record OldRow : Type 0 where
  pub descriptor : ℕ
  pub cache : CacheType
  pub info : CacheInfo

abbrev describes : ℕ → CacheType → ℕ → ℕ → ℤ → OldRow
describes descriptor cache size assoc linesize = record {
  descriptor = descriptor;
  cache = cache;
  info = record { cache = pos size; assoc = pos assoc; cacheline = linesize };
}

-- The calls, in their order. The four rows with no line size are trace caches.
abbrev pub old_rows : List OldRow
old_rows =
    describes 6 l1i 8 4 (pos 32)
    ∷ describes 8 l1i 16 4 (pos 32)
    ∷ describes 10 l1d 8 2 (pos 32)
    ∷ describes 12 l1d 16 4 (pos 32)
    ∷ describes 34 l3 512 4 (pos 64)
    ∷ describes 35 l3 1024 8 (pos 64)
    ∷ describes 37 l3 2048 8 (pos 64)
    ∷ describes 41 l3 4096 8 (pos 64)
    ∷ describes 44 l1d 32 8 (pos 64)
    ∷ describes 48 l1i 32 8 (pos 64)
    ∷ describes 57 l2 128 4 (pos 64)
    ∷ describes 58 l2 192 6 (pos 64)
    ∷ describes 59 l2 128 2 (pos 64)
    ∷ describes 60 l2 256 4 (pos 64)
    ∷ describes 61 l2 384 6 (pos 64)
    ∷ describes 62 l2 512 4 (pos 64)
    ∷ describes 65 l2 128 4 (pos 32)
    ∷ describes 66 l2 256 4 (pos 32)
    ∷ describes 67 l2 512 4 (pos 32)
    ∷ describes 68 l2 1024 4 (pos 32)
    ∷ describes 69 l2 2048 4 (pos 32)
    ∷ describes 70 l3 4096 4 (pos 64)
    ∷ describes 71 l3 8192 8 (pos 64)
    ∷ describes 74 l3 6144 12 (pos 64)
    ∷ describes 75 l3 8192 16 (pos 64)
    ∷ describes 76 l3 12288 12 (pos 64)
    ∷ describes 77 l3 16384 16 (pos 64)
    ∷ describes 78 l2 6144 24 (pos 64)
    ∷ describes 96 l1d 16 8 (pos 64)
    ∷ describes 102 l1d 8 4 (pos 64)
    ∷ describes 103 l1d 16 4 (pos 64)
    ∷ describes 104 l1d 32 4 (pos 64)
    ∷ describes 112 l1i 12 8 minus_one
    ∷ describes 113 l1i 16 8 minus_one
    ∷ describes 114 l1i 32 8 minus_one
    ∷ describes 115 l1i 64 8 minus_one
    ∷ describes 120 l2 1024 4 (pos 64)
    ∷ describes 121 l2 128 8 (pos 64)
    ∷ describes 122 l2 256 8 (pos 64)
    ∷ describes 123 l2 512 8 (pos 64)
    ∷ describes 124 l2 1024 8 (pos 64)
    ∷ describes 125 l2 2048 8 (pos 64)
    ∷ describes 127 l2 512 2 (pos 64)
    ∷ describes 130 l2 256 8 (pos 32)
    ∷ describes 131 l2 512 8 (pos 32)
    ∷ describes 132 l2 1024 8 (pos 32)
    ∷ describes 133 l2 2048 8 (pos 32)
    ∷ describes 134 l2 512 4 (pos 64)
    ∷ describes 135 l2 1024 8 (pos 64)
    ∷ []

unfoldable pub assign_all : Descriptors → List OldRow → CpuId → CpuId
assign_all f [] id = id
assign_all f (r ∷ rows) id =
    assign_all f rows (assign_cache_data (f r.descriptor) r.cache r.info id)

abbrev four_mb : CacheInfo
four_mb = record { cache = pos 4096; assoc = pos 16; cacheline = pos 64 }

-- `if (f[0x49])`: the third level on a Xeon MP, and else the second.
unfoldable pub overloaded : Bool → CpuId → CpuId
overloaded on id =
    if on
    then (if int_eq id.x86.family (pos 15) && int_eq id.x86.model (pos 6)
        then record id { l3_level = four_mb }
        else record id { l2_level = four_mb })
    else id

-- `if (f[0x40])`: no second level, or no third if there is a second.
unfoldable pub without_level : Bool → CpuId → CpuId
without_level on id =
    if on
    then (if int_eq id.l2_level.cache minus_one
        then record id { l2_level = record id.l2_level { cache = pos 0 } }
        else record id { l3_level = record id.l3_level { cache = pos 0 } })
    else id

unfoldable pub decode_intel_oldstyle_cache_info : RawData → CpuId → CpuId
decode_intel_oldstyle_cache_info raw id =
    let f = descriptors (row raw.basic_cpuid 2) in
    without_level (f 64) (overloaded (f 73) (assign_all f old_rows id))
