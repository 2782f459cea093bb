-- ===== src/Detect/Topology.antt =====
-- `cpu_ident_id`, `cpu_ident_id_x86` and `cpu_ident_id_arm` of libcpuid/cpuid_main.c: where in the
-- system a logical CPU stands.
pub mod Masks
pub mod Laws
use Prim.Native.Nat.{bit_and, bit_xor}
use libcpuid.Base.{
  ℕ, ◌-◌, ◌^◌, Bool, true, false, ◌&&◌, ◌||◌, not, List, [], ◌∷◌, Option, none, some, ltb, ◌==◌,
  if◌then◌else◌, extracts_bits, extracts_bit, u32, ℤ, pos, negsuc, minus_one, to_int32,
}
use libcpuid.Data.Kinds.{
  CpuVendor, intel, amd, unknown_vendor, arch_x86, arch_arm, arch_unknown, CpuError, cpu_unkn,
}
use libcpuid.Data.Raw.{Regs, RawData, row}
use libcpuid.Detect.Basic.{cpuid_architecture_identify}
use libcpuid.Detect.Vendor.{cpuid_vendor_identify}
use libcpuid.Recog.Outcome.{followed}

-- `internal_topology_t`, less the cache IDs, which other functions fill.
pub record Topology : Type 0 where
  pub apic_id : ℤ
  pub package_id : ℤ
  pub core_id : ℤ
  pub smt_id : ℤ
  pub logical_cpu : ℕ

unfoldable pub topology_t_constructor : ℕ → Topology
topology_t_constructor logical_cpu = record {
  apic_id = minus_one;
  package_id = minus_one;
  core_id = minus_one;
  smt_id = minus_one;
  logical_cpu = logical_cpu;
}

-- The bit pattern of an `int32_t`.
abbrev pub to_uint32 : ℤ → ℕ
to_uint32 (pos n) = u32 n
to_uint32 (negsuc n) = 2 ^ 32 - 1 - u32 n

-- `~((-1) << shift)` and `(-1) << shift`, as patterns of 32 bits.
abbrev pub low_mask : ℕ → ℕ
low_mask shift = 2 ^ shift - 1

abbrev pub high_mask : ℕ → ℕ
high_mask shift = 2 ^ 32 - 2 ^ shift

-- The condition of both loops, on the row that they are at.
unfoldable pub is_level : Regs → Bool
is_level regs = not (regs.eax == 0) && not (regs.ebx == 0)

-- The first loop: the shift of the last level. The row is read before the index is tested, so that
-- without a row that ends the loop the row behind the array is read: `none`.
unfoldable pub core_shift : List Regs → ℕ → Option ℕ
core_shift [] mask_core_shift = none
core_shift (regs ∷ levels) mask_core_shift =
    let rest = core_shift levels (extracts_bits regs.eax 4 0) in
    if is_level regs then rest else some mask_core_shift

-- The variables of the second loop.
pub record Levels : Type 0 where
  pub level_type : ℕ
  pub smt_mask : ℕ
  pub topology : Topology

-- The body of the second loop.
unfoldable pub store_level : ℕ → Regs → Levels → Levels
store_level mask_core_shift regs v =
    let level_type = extracts_bits regs.ecx 15 8 in
    let smt_mask = low_mask (extracts_bits regs.eax 4 0) in
    let core_mask = bit_xor (low_mask mask_core_shift) v.smt_mask in
    let topology = record v.topology { apic_id = to_int32 regs.edx } in
    if level_type == 1
    then record {
      level_type = level_type;
      smt_mask = smt_mask;
      topology = record topology { smt_id = to_int32 (bit_and regs.edx smt_mask) };
    }
    else if level_type == 2
    then record {
      level_type = level_type;
      smt_mask = v.smt_mask;
      topology = record topology { core_id = to_int32 (bit_and regs.edx core_mask) };
    }
    else record { level_type = level_type; smt_mask = v.smt_mask; topology = topology }

-- The second loop, with the same read.
unfoldable pub store_levels : ℕ → List Regs → Levels → Option Levels
store_levels mask_core_shift [] v = none
store_levels mask_core_shift (regs ∷ levels) v =
    let rest = store_levels mask_core_shift levels (store_level mask_core_shift regs v) in
    if is_level regs then rest else some v

-- The two vendors whose processors enumerate their topology.
unfoldable pub is_apic_id_supported : CpuVendor → Bool
is_apic_id_supported intel = true
is_apic_id_supported amd = true
is_apic_id_supported _ = false

-- Both loops, on `intel_fn11`, and what follows them: whether a level was found, and the topology.
unfoldable pub enumerate : List Regs → Topology → Option (Bool × Topology)
enumerate intel_fn11 topology = followed (core_shift intel_fn11 0) (λ mask_core_shift.
    followed
      (store_levels mask_core_shift intel_fn11
        (record { level_type = 0; smt_mask = 0; topology = topology }))
      (λ v. some (
        ltb 0 v.level_type,
        record v.topology {
          package_id =
              to_int32 (bit_and (to_uint32 v.topology.apic_id) (high_mask mask_core_shift));
        },
      )))

-- `cpuid_set_error` of the `switch`: an unknown vendor is an error, another one is none.
unfoldable pub vendor_error : CpuVendor → CpuError → CpuError
vendor_error unknown_vendor last_error = cpu_unkn
vendor_error _ last_error = last_error

-- The result, the error that was set last, and the topology.
unfoldable pub cpu_ident_id_x86 :
    RawData → CpuError × Topology → Option (Bool × (CpuError × Topology))
cpu_ident_id_x86 raw (last_error, topology) =
    let vendor = (cpuid_vendor_identify (row raw.basic_cpuid 0)).0 in
    let error = vendor_error vendor last_error in
    if not (is_apic_id_supported vendor)
      || ltb (row raw.basic_cpuid 0).eax 11
      || extracts_bits (row raw.basic_cpuid 11).ebx 15 0 == 0
    then some (false, (error, topology))
    else followed (enumerate raw.intel_fn11 topology)
        (λ (found, enumerated). some (found, (error, enumerated)))

unfoldable pub cpu_ident_id_arm : RawData → Topology → Bool × Topology
cpu_ident_id_arm raw topology =
    let mpidr = raw.arm_mpidr in
    let is_uniprocessor = extracts_bit mpidr 30 == 1 in
    let is_mt = extracts_bit mpidr 24 == 1 in
    if mpidr == 0
    then (false, topology)
    else if not is_uniprocessor
    then (if is_mt
        then (
          true,
          record topology {
            smt_id = pos (extracts_bits mpidr 7 0);
            core_id = pos (extracts_bits mpidr 15 8);
            package_id = pos (extracts_bits mpidr 23 16);
          },
        )
        else (
          true,
          record topology {
            smt_id = minus_one;
            core_id = pos (extracts_bits mpidr 7 0);
            package_id = pos (extracts_bits mpidr 15 8);
          },
        ))
    else (true, record topology { smt_id = minus_one; core_id = pos 0; package_id = minus_one })

-- `none` is an access outside an array.
unfoldable pub cpu_ident_id : ℕ → RawData → CpuError → Option (Bool × (CpuError × Topology))
cpu_ident_id logical_cpu raw last_error =
    let topology = topology_t_constructor logical_cpu in
    elim (cpuid_architecture_identify raw) [
      | arch_x86 ↦ cpu_ident_id_x86 raw (last_error, topology)
      | arch_arm ↦
          let (found, mapped) = cpu_ident_id_arm raw topology in some (found, (last_error, mapped))
      | arch_unknown ↦ some (false, (last_error, topology))
    ]
