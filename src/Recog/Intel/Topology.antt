-- ===== src/Recog/Intel/Topology.antt =====
-- `decode_intel_extended_topology` and `cpuid_identify_purpose_intel` of libcpuid/recog_intel.c.
pub mod Laws
use libcpuid.Base.{
  ℕ, ◌/◌, Bool, true, false, ◌&&◌, ◌||◌, not, List, [], ◌∷◌, Option, none, some, ◌==◌,
  if◌then◌else◌, extracts_bit, extracts_bits, ℤ, pos, negsuc, minus_one,
}
use libcpuid.Data.Kinds.{CpuPurpose, general, performance, efficiency, lp_efficiency}
use libcpuid.Data.Raw.{Regs, RawData, row}
use libcpuid.Data.CpuId.{CpuId}

-- `num_smt` and `num_core`.
pub record Counts : Type 0 where
  pub num_smt : ℤ
  pub num_core : ℤ

-- The `switch` on the type of one level.
unfoldable pub count_level : Regs → Counts → Counts
count_level regs v =
    let level_type = extracts_bits regs.ecx 15 8 in
    if level_type == 1
    then record { num_smt = pos (extracts_bits regs.ebx 15 0); num_core = v.num_core }
    else if level_type == 2
    then record { num_smt = v.num_smt; num_core = pos (extracts_bits regs.ebx 15 0) }
    else v

-- The loop; it ends with the table or at the first row without EAX or EBX.
unfoldable pub count_levels : List Regs → Counts → Counts
count_levels [] v = v
count_levels (regs ∷ levels) v =
    let rest = count_levels levels (count_level regs v) in
    if not (regs.eax == 0) && not (regs.ebx == 0) then rest else v

-- What is stored where both numbers are known. `none` is a division by zero.
unfoldable pub store_counts : ℕ → ℕ → CpuId → Option CpuId
store_counts num_smt num_core id =
    let num_cores = num_core / num_smt in
    if num_smt == 0
    then none
    else some (record id {
      num_logical_cpus = pos num_core;
      num_cores = pos (if num_cores == 0 then 1 else num_cores);
    })

unfoldable pub store_known : ℤ → ℤ → CpuId → Option (Bool × CpuId)
store_known (pos num_smt) (pos num_core) id = elim (store_counts num_smt num_core id) [
  | none ↦ none
  | some stored ↦ some (true, stored)
]
store_known _ _ id = some (false, id)

unfoldable pub decode_intel_extended_topology : RawData → CpuId → Option (Bool × CpuId)
decode_intel_extended_topology raw id =
    let v = count_levels raw.intel_fn11 (record { num_smt = minus_one; num_core = minus_one }) in
    store_known v.num_smt v.num_core id

unfoldable pub cpuid_identify_purpose_intel : RawData → CpuPurpose
cpuid_identify_purpose_intel raw =
    let core_type = extracts_bits (row raw.basic_cpuid 26).eax 31 24 in
    if extracts_bit (row raw.basic_cpuid 7).edx 15 == 1
    then (if core_type == 32
        then (if extracts_bits (row raw.intel_fn4 3).eax 31 0 == 0
            then lp_efficiency
            else efficiency)
        else if core_type == 64
        then performance
        else general)
    else general
