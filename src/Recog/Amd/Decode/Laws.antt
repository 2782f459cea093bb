-- ===== src/Recog/Amd/Decode/Laws.antt =====
-- The core counts of AMD processors.
use libcpuid.Base.{
  ℕ, suc, ◌+◌, ◌*◌, ◌≤◌, ◌<◌, true, false, ◌&&◌, leb, if◌then◌else◌, ◌≡◌, extracts_bits, ℤ, pos,
  int_le, int_lt,
}
use libcpuid.Data.Feature
use libcpuid.Data.Raw.{RawData, row}
use libcpuid.Data.CpuId.{CpuId}
use libcpuid.Recog.Amd.Decode.{leaf8_cores, leaf1_cpus, per_thread}

-- The threads of a core, as leaf 8000001Eh counts them on newer processors.
abbrev pub threads : RawData → CpuId → ℕ
threads raw id =
    if int_le (pos 23) id.x86.ext_family && leb 30 (row raw.ext_cpuid 0).eax
    then extracts_bits (row raw.ext_cpuid 30).ebx 15 8 + 1
    else 1

-- `c` cores of `t` threads are as many as fit `n`.
pub record FitsIn (c t n : ℕ) : Type 0 where
  pub low : c * t ≤ n
  pub high : n < suc c * t

-- The counts, by the flag HT and the number of cores that leaf 80000008h gives.
pub record IsCounted (raw : RawData) (before after : CpuId) : Type 0 where
  pub single :
      before.flags Feature.ht ≡ false → (after.num_cores ≡ pos 1) × (after.num_logical_cpus ≡ pos 1)
  pub several :
      before.flags Feature.ht ≡ true
      → (n : ℕ) → leaf8_cores raw ≡ pos n
      → 1 < n
      → (c : ℕ) × (after.num_cores ≡ pos c)
        × FitsIn c (threads raw before) n
        × (after.num_logical_cpus ≡ leaf1_cpus raw)
  pub one_core :
      before.flags Feature.ht ≡ true
      → int_lt (pos 1) (leaf8_cores raw) ≡ false
      → (after.num_cores ≡ pos 1) × (int_le (pos 2) after.num_logical_cpus ≡ true)

abbrev stored_cores : (raw : RawData) (id : CpuId) → ℕ → ℤ
stored_cores raw id n =
    if int_le (pos 23) id.x86.ext_family && leb 30 (row raw.ext_cpuid 0).eax
    then per_thread raw (pos n)
    else pos n
