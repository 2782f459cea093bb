-- ===== src/Recog/Amd/Decode.antt =====
-- `decode_amd_cache_info`, `decode_amd_number_of_cores` and `cpuid_identify_purpose_amd` of
-- libcpuid/recog_amd.c.
pub mod Laws
pub mod Caches
use libcpuid.Base.{
  ℕ, ◌+◌, ◌*◌, ◌/◌, ◌^◌, Bool, true, false, ◌&&◌, ◌||◌, not, List, [], ◌∷◌, Option, none, some, leb,
  ltb, ◌==◌, get_or, if◌then◌else◌, extracts_bit, extracts_bits, ℤ, pos, minus_one, int_le, int_lt,
}
use libcpuid.Data.Feature
use libcpuid.Data.Kinds.{CpuPurpose, general, performance, efficiency}
use libcpuid.Data.Raw.{Regs, RawData, row}
use libcpuid.Data.CpuId.{CpuId}

abbrev pub assoc_table : List ℕ
assoc_table = 0 ∷ 1 ∷ 2 ∷ 0 ∷ 4 ∷ 0 ∷ 8 ∷ 0 ∷ 16 ∷ 16 ∷ 32 ∷ 48 ∷ 64 ∷ 96 ∷ 128 ∷ 255 ∷ []

-- The index is a field of four bits, inside the table.
abbrev pub assoc_of : ℕ → ℕ
assoc_of reg = get_or assoc_table (extracts_bits reg 15 12) 0

unfoldable pub decode_l1 : RawData → CpuId → CpuId
decode_l1 raw id =
    let ecx = (row raw.ext_cpuid 5).ecx in
    let edx = (row raw.ext_cpuid 5).edx in
    record id {
      l1_data = record {
        cache = pos (extracts_bits ecx 31 24);
        assoc = pos (extracts_bits ecx 23 16);
        cacheline = pos (extracts_bits ecx 7 0);
      };
      l1_instruction = record {
        cache = pos (extracts_bits edx 31 24);
        assoc = pos (extracts_bits edx 23 16);
        cacheline = pos (extracts_bits edx 7 0);
      };
    }

unfoldable pub decode_l2_l3 : RawData → CpuId → CpuId
decode_l2_l3 raw id =
    let ecx = (row raw.ext_cpuid 6).ecx in
    let edx = (row raw.ext_cpuid 6).edx in
    let l3_result = extracts_bits edx 31 18 in
    record id {
      l2_level = record {
        cache = pos (extracts_bits ecx 31 16);
        assoc = pos (assoc_of ecx);
        cacheline = pos (extracts_bits ecx 7 0);
      };
      l3_level =
          if ltb 0 l3_result
          then record {
            cache = pos (l3_result * 512);
            assoc = pos (assoc_of edx);
            cacheline = pos (extracts_bits edx 7 0);
          }
          else record id.l3_level { cache = minus_one };
    }

unfoldable pub decode_amd_cache_info : RawData → CpuId → CpuId
decode_amd_cache_info raw id =
    let n = (row raw.ext_cpuid 0).eax in
    let first = if leb (2 ^ 31 + 5) n then decode_l1 raw id else id in
    if leb (2 ^ 31 + 6) n then decode_l2_l3 raw first else first

-- The number of cores before threads are taken out, and the number of logical CPUs.
unfoldable pub leaf8_cores : RawData → ℤ
leaf8_cores raw =
    if leb 1 (row raw.basic_cpuid 0).eax && leb 8 (row raw.ext_cpuid 0).eax
    then pos (1 + extracts_bits (row raw.ext_cpuid 8).ecx 7 0)
    else minus_one

unfoldable pub leaf1_cpus : RawData → ℤ
leaf1_cpus raw =
    if leb 1 (row raw.basic_cpuid 0).eax
    then pos (extracts_bits (row raw.basic_cpuid 1).ebx 23 16)
    else minus_one

-- `num_cores /= ThreadsPerCore + 1`, on a number of cores above 1.
unfoldable pub per_thread : RawData → ℤ → ℤ
per_thread raw (pos n) = pos (n / (extracts_bits (row raw.ext_cpuid 30).ebx 15 8 + 1))
per_thread raw num_cores = num_cores

unfoldable pub decode_amd_number_of_cores : RawData → CpuId → CpuId
decode_amd_number_of_cores raw id =
    let logical_cpus = leaf1_cpus raw in
    let num_cores = leaf8_cores raw in
    if id.flags Feature.ht
    then (if int_lt (pos 1) num_cores
        then record id {
          num_cores =
              if int_le (pos 23) id.x86.ext_family && leb 30 (row raw.ext_cpuid 0).eax
              then per_thread raw num_cores
              else num_cores;
          num_logical_cpus = logical_cpus;
        }
        else record id {
          num_cores = pos 1;
          num_logical_cpus = if int_le (pos 2) logical_cpus then logical_cpus else pos 2;
        })
    else record id { num_cores = pos 1; num_logical_cpus = pos 1 }

-- The `switch` on the type of the cores at one level.
unfoldable pub core_purpose : ℕ → CpuPurpose
core_purpose core_type =
    if core_type == 0 then performance else if core_type == 1 then efficiency else general

-- The loop over the levels. A row is read before the index is tested, so that without a row that ends the
-- loop the row behind the array is read: `none`.
unfoldable pub find_heterogeneous : List Regs → Option CpuPurpose
find_heterogeneous [] = none
find_heterogeneous (regs ∷ levels) =
    let rest = find_heterogeneous levels in
    if regs.ebx == 0 || regs.ecx == 0
    then some general
    else if extracts_bit regs.eax 30 == 1 && extracts_bits regs.ecx 15 8 == 1
    then some (core_purpose (extracts_bits regs.ebx 31 28))
    else rest

unfoldable pub cpuid_identify_purpose_amd : RawData → Option CpuPurpose
cpuid_identify_purpose_amd raw =
    if (row raw.amd_fn80000026h 0).eax == 0
    then some general
    else find_heterogeneous raw.amd_fn80000026h
