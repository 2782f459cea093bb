-- ===== src/Util/Cores.antt =====
-- `decode_number_of_cores_x86` of libcpuid/libcpuid_util.c.
pub mod Laws
use libcpuid.Base.{
  ℕ, ◌+◌, Bool, true, false, leb, ltb, ◌==◌, if◌then◌else◌, extracts_bits, ℤ, pos, minus_one,
  int_lt, int_le, int_eq,
}
use libcpuid.Data.Feature
use libcpuid.Data.Raw.{RawData, Regs, row}
use libcpuid.Data.CpuId.{CpuId, Flags, set_flag}

-- Bits 23 to 16 of leaf 1, EBX, where that leaf exists; `(x >> 16) & 0xff`.
unfoldable pub leaf1_logical_cpus : RawData → ℤ
leaf1_logical_cpus raw =
    if leb 1 (row raw.basic_cpuid 0).eax
    then pos (extracts_bits (row raw.basic_cpuid 1).ebx 23 16)
    else minus_one

-- `1 + ((x >> 26) & 0x3f)` of leaf 4, EAX, where that leaf exists.
unfoldable pub leaf4_cores : RawData → ℤ
leaf4_cores raw =
    if leb 1 (row raw.basic_cpuid 0).eax
    then (if leb 4 (row raw.basic_cpuid 0).eax
        then pos (1 + extracts_bits (row raw.basic_cpuid 4).eax 31 26)
        else minus_one)
    else minus_one

-- `logical_cpus >= 1 ? logical_cpus : 1`.
abbrev pub at_least_one : ℤ → ℤ
at_least_one n = if int_le (pos 1) n then n else pos 1

unfoldable pub decode_number_of_cores_x86 : RawData → CpuId → CpuId
unfolding leaf1_logical_cpus leaf4_cores
decode_number_of_cores_x86 raw id =
    let logical_cpus = leaf1_logical_cpus raw in
    let num_cores = leaf4_cores raw in
    if id.flags Feature.ht
    then (if int_lt (pos 1) num_cores
        then record id { num_cores = num_cores; num_logical_cpus = logical_cpus }
        else (let n = at_least_one logical_cpus in
            record id {
              num_cores = pos 1;
              num_logical_cpus = n;
              flags = if int_eq n (pos 1) then set_flag Feature.ht false id.flags else id.flags;
            }))
    else (let n = at_least_one logical_cpus in record id { num_cores = n; num_logical_cpus = n })
