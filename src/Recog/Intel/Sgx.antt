-- ===== src/Recog/Intel/Sgx.antt =====
-- `cpuid_get_epc` and `decode_intel_sgx_features` of libcpuid/recog_intel.c.
pub mod Laws
use libcpuid.Base.{
  ℕ, suc, ◌+◌, ◌-◌, ◌*◌, ◌/◌, ◌%◌, ◌^◌, zero, Bool, true, false, ◌||◌, ◌==◌, ltb, if◌then◌else◌,
  extracts_bits, has_bit, u32, ℤ, pos, minus_one, List,
}
use libcpuid.Data.Raw.{Regs, RawData, row}
use libcpuid.Data.CpuId.{CpuId, Sgx}

-- `cpu_epc_t`.
pub record Epc : Type 0 where
  pub start_addr : ℕ
  pub length : ℕ

-- `(low & 0xfffff000) | (((uint64_t) (high & 0x000fffff)) << 32)`. The two parts have no bit in common.
abbrev pub join : ℕ → ℕ → ℕ
join low high = u32 low / 2 ^ 12 * 2 ^ 12 + high % 2 ^ 20 * 2 ^ 32

unfoldable pub decode_epc : Regs → Epc
decode_epc regs =
    if extracts_bits regs.eax 3 0 == 1
    then record { start_addr = join regs.eax regs.ebx; length = join regs.ecx regs.edx }
    else record { start_addr = 0; length = 0 }

-- MAX_INTELFN12H_LEVEL - 2 sections are in the raw data. `exec` is `cpu_exec_cpuid_ext` on leaf 12h,
-- by its sub-leaf.
unfoldable pub cpuid_get_epc : (ℕ → Regs) → ℕ → RawData → Epc
cpuid_get_epc exec index raw =
    decode_epc (if ltb index 2 then row raw.intel_fn12h (2 + index) else exec (2 + index))

-- The loop, from section `i` on with `left` sections to go: the first section that is empty, or the
-- bound of the loop.
unfoldable pub count_epc : (ℕ → Epc) → ℕ → ℕ → ℕ
count_epc epc zero i = i
count_epc epc (suc left) i =
    let rest = count_epc epc left (i + 1) in if (epc i).length == 0 then i else rest

abbrev pub max_epc : ℕ
max_epc = 1000000

unfoldable pub decode_sgx : (ℕ → Regs) → RawData → Sgx → Sgx
decode_sgx exec raw sgx =
    let leaf = row raw.basic_cpuid 18 in
    let sub1 = row raw.intel_fn12h 1 in
    let sgx1 = has_bit leaf.eax 0 || sgx.sgx1 in
    let sgx2 = has_bit leaf.eax 1 || sgx.sgx2 in
    record {
      present = (sgx1 || sgx2) || sgx.present;
      sgx1 = sgx1;
      sgx2 = sgx2;
      misc_select = leaf.ebx;
      max_enclave_32bit = leaf.edx % 256;
      max_enclave_64bit = leaf.edx / 2 ^ 8 % 256;
      secs_attributes = sub1.eax + sub1.ebx * 2 ^ 32;
      secs_xfrm = sub1.ecx + sub1.edx * 2 ^ 32;
      num_epc_sections = pos (count_epc (λ i. cpuid_get_epc exec i raw) max_epc 0);
    }

unfoldable pub decode_intel_sgx_features : (ℕ → Regs) → RawData → CpuId → CpuId
decode_intel_sgx_features exec raw id =
    if ltb (row raw.basic_cpuid 0).eax 18 || (row raw.basic_cpuid 18).eax == 0
    then id
    else record id { x86 = record id.x86 { sgx = decode_sgx exec raw id.x86.sgx } }
