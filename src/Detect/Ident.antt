-- ===== src/Detect/Ident.antt =====
-- `cpu_ident_internal`, `cpu_ident_purpose` and `cpu_identify` of libcpuid/cpuid_main.c: the recognition
-- of one logical CPU. The deprecated copies of fields are left out.
use libcpuid.Base.{◌⊎◌, inl, inr, ℕ, Bool, Option, some, replicate, if◌then◌else◌, ℤ}
use libcpuid.Data.Kinds.{
  CpuVendor, intel, amd, hygon, centaur, arch_x86, arch_arm, arch_unknown, CpuPurpose, general,
  CpuError, ok, cpu_unkn, is_ok, num_cache_types,
}
use libcpuid.Data.Raw.{Regs, RawData, row}
use libcpuid.Data.CpuId.{CpuId, cpu_id_t_constructor}
use libcpuid.Util.Cache.{Decoded}
use libcpuid.Detect.Vendor.{cpuid_vendor_identify}
use libcpuid.Detect.Basic.{cpuid_architecture_identify, cpuid_basic_identify}
use libcpuid.Recog.Outcome.{with_id, followed}
use libcpuid.Recog.Intel.Identify.{cpuid_identify_intel}
use libcpuid.Recog.Intel.Topology.{cpuid_identify_purpose_intel}
use libcpuid.Recog.Amd.Identify.{cpuid_identify_amd}
use libcpuid.Recog.Amd.Decode.{cpuid_identify_purpose_amd}
use libcpuid.Recog.Centaur.Identify.{cpuid_identify_centaur}
use libcpuid.Recog.Arm.Identify.{cpuid_identify_arm, cpuid_identify_purpose_arm}

-- What the recognition of a CPU takes from outside of the raw data: the sub-leaves of leaf 12h, the value
-- that `decode_architecture_version_x86` leaves open, and the number of CPUs of the system.
pub record Host : Type 0 where
  pub exec : ℕ → Regs
  pub old : Bool
  pub total_cpus : ℤ

-- The error, and `data` with `cache_mask`. The score of `internal_id_info_t` is not read.
abbrev pub Identified : Type 0
Identified = CpuError × Decoded

-- The vendor's function, for the vendor that was found.
unfoldable pub ident_vendor : Host → RawData → CpuVendor → Decoded → Option Decoded
ident_vendor host raw intel d =
    followed (cpuid_identify_intel host.exec host.old raw d) (λ o. some o.decoded)
ident_vendor host raw amd d = followed (cpuid_identify_amd host.old raw d) (λ o. some o.decoded)
ident_vendor host raw hygon d = followed (cpuid_identify_amd host.old raw d) (λ o. some o.decoded)
ident_vendor host raw centaur d =
    followed (cpuid_identify_centaur host.old raw d) (λ o. some o.decoded)
ident_vendor host raw _ d = some d

unfoldable pub ident_x86 : Host → RawData → Decoded → Option Identified
ident_x86 host raw d =
    let (r, id) = cpuid_basic_identify host.total_cpus raw d.id in
    if is_ok r
    then followed (ident_vendor host raw id.vendor (with_id d id)) (λ d. some (ok, d))
    else some (r, with_id d id)

-- `data` and `cache_mask` as they are in front of the `switch`.
unfoldable pub cleared : RawData → Decoded
cleared raw = record {
  id = record cpu_id_t_constructor { architecture = cpuid_architecture_identify raw };
  cache_mask = replicate num_cache_types 0;
}

-- What `cpu_ident_internal` does with the raw data. `none` is an access outside an array or a division by
-- zero.
unfoldable pub cpu_ident_internal : Host → RawData → Option Identified
cpu_ident_internal host raw =
    let d = cleared raw in
    elim (cpuid_architecture_identify raw) [
      | arch_x86 ↦ ident_x86 host raw d
      | arch_arm ↦ some (ok, with_id d (cpuid_identify_arm raw d.id))
      | arch_unknown ↦ some (cpu_unkn, d)
    ]

-- `none` is an access outside an array.
unfoldable pub cpu_ident_purpose : RawData → Option CpuPurpose
cpu_ident_purpose raw = elim (cpuid_architecture_identify raw) [
  | arch_x86 ↦ elim (cpuid_vendor_identify (row raw.basic_cpuid 0)).0 [
    | amd ↦ cpuid_identify_purpose_amd raw
    | intel ↦ some (cpuid_identify_purpose_intel raw)
    | _ ↦ some general
  ]
  | arch_arm ↦ some (cpuid_identify_purpose_arm raw)
  | arch_unknown ↦ some general
]

-- `raw` as the caller gives it, or NULL, and then what `cpuid_get_raw_data` returns and reads.
pub data RawPointer : Type 0 where
  given_raw : RawData → RawPointer
  null_raw : CpuError → RawData → RawPointer

-- The first lines of `cpu_ident_internal`: the raw data, or the error that is returned.
unfoldable raw_of : RawPointer → CpuError ⊎ RawData
raw_of (given_raw raw) = inr raw
raw_of (null_raw r myraw) = if is_ok r then inr myraw else inl r

-- `data` stays as it was where there is no raw data.
unfoldable cpu_identify : Host → RawPointer → CpuId → Option (CpuError × CpuId)
cpu_identify host raw id = elim (raw_of raw) [
  | inl r ↦ some (r, id)
  | inr raw ↦
      followed (cpu_ident_internal host raw) (λ identified. some (identified.0, identified.1.id))
]
