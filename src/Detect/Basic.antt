-- ===== src/Detect/Basic.antt =====
-- `cpuid_architecture_identify` and `cpuid_basic_identify` of libcpuid/cpuid_main.c: what all x86
-- processors have in common.
pub mod Brand
pub mod Laws
use libcpuid.Base.{
  ℕ, ◌+◌, ◌*◌, ◌^◌, Bool, true, false, ◌&&◌, ◌||◌, not, List, [], ◌∷◌, ◌++◌, ltb, ◌==◌,
  if◌then◌else◌, extracts_bits, u32, ℤ, pos, int_le, to_int32,
}
use libcpuid.Data.Kinds.{
  CpuVendor, amd, unknown_vendor, CpuArchitecture, arch_x86, arch_arm, arch_unknown, CpuError, ok,
  cpu_unkn,
}
use libcpuid.Data.Raw.{Regs, RawData, row}
use libcpuid.Data.CpuId.{CpuId, X86Id}
use libcpuid.Detect.Features.{load_features_common}
use libcpuid.Detect.Vendor.{bytes_of, c_string, cpuid_vendor_identify}

unfoldable pub cpuid_architecture_identify : RawData → CpuArchitecture
cpuid_architecture_identify raw =
    let leaf0 = row raw.basic_cpuid 0 in
    if not (leaf0.eax == 0) || not (leaf0.ebx == 0) || not (leaf0.ecx == 0) || not (leaf0.edx == 0)
    then arch_x86
    else if not (raw.arm_midr == 0)
    then arch_arm
    else arch_unknown

-- `data->vendor == VENDOR_AMD` and `data->vendor == VENDOR_UNKNOWN`.
abbrev pub is_amd : CpuVendor → Bool
is_amd amd = true
is_amd _ = false

abbrev pub is_unknown_vendor : CpuVendor → Bool
is_unknown_vendor unknown_vendor = true
is_unknown_vendor _ = false

-- The fields of the signature, EAX of leaf 1.
unfoldable pub decode_signature : CpuVendor → ℕ → X86Id → X86Id
decode_signature vendor eax x86 =
    let family = extracts_bits eax 11 8 in
    let model = extracts_bits eax 7 4 in
    let xmodel = extracts_bits eax 19 16 in
    let xfamily = extracts_bits eax 27 20 in
    record x86 {
      family = pos family;
      model = pos model;
      stepping = pos (extracts_bits eax 3 0);
      ext_family = if is_amd vendor && ltb family 15 then pos family else pos (family + xfamily);
      ext_model = pos (model + xmodel * 2 ^ 4);
    }

-- `memcpy` of the four registers of one leaf.
unfoldable pub leaf_bytes : Regs → List ℕ
leaf_bytes regs =
    bytes_of regs.eax ++ (bytes_of regs.ebx ++ (bytes_of regs.ecx ++ bytes_of regs.edx))

-- `while (brandstr[i] == ' ') i++`. The text ends with a NUL, so that the loop ends.
unfoldable pub skip_blanks : List ℕ → List ℕ
skip_blanks [] = []
skip_blanks (c ∷ s) = let rest = skip_blanks s in if c == b' ' then rest else c ∷ s

-- The 48 bytes of three leaves, and the NUL that is stored behind them.
unfoldable pub brand_text : RawData → List ℕ
brand_text raw = c_string (
    skip_blanks (
      leaf_bytes (row raw.ext_cpuid 2)
      ++ (leaf_bytes (row raw.ext_cpuid 3) ++ (leaf_bytes (row raw.ext_cpuid 4) ++ (0 ∷ [])))))

-- What is done behind the check of the vendor. `total_cpus` is what `get_total_cpus` returns.
unfoldable pub identify_known : ℤ → RawData → CpuId → CpuId
identify_known total_cpus raw id =
    let basic = to_int32 (row raw.basic_cpuid 0).eax in
    let ext = to_int32 (u32 ((row raw.ext_cpuid 0).eax + 2 ^ 31)) in
    let x86 =
      if int_le (pos 1) basic
      then decode_signature id.vendor (row raw.basic_cpuid 1).eax id.x86
      else id.x86 in
    let brand_str = if int_le (pos 4) ext then brand_text raw else id.brand_str in
    record (load_features_common raw (record id { x86 = x86; brand_str = brand_str })) {
      total_logical_cpus = total_cpus;
    }

-- The error that is set, and the description.
unfoldable pub cpuid_basic_identify : ℤ → RawData → CpuId → CpuError × CpuId
cpuid_basic_identify total_cpus raw id =
    let (vendor, vendor_str) = cpuid_vendor_identify (row raw.basic_cpuid 0) in
    let named = record id { vendor = vendor; vendor_str = vendor_str } in
    if is_unknown_vendor vendor
    then (cpu_unkn, named)
    else (ok, identify_known total_cpus raw named)
