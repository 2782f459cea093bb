-- ===== src/Data/CpuId.antt =====
-- `cpu_id_t` of libcpuid/libcpuid.h, less the deprecated copies, and
-- `cpu_id_t_constructor` of libcpuid/cpuid_main.c.
use libcpuid.Base.{ℕ, Bool, false, List, [], replicate, ◌==◌, if◌then◌else◌, ℤ, pos, minus_one}
use libcpuid.Data.Kinds.{
  CpuVendor, unknown_vendor, CpuArchitecture, arch_unknown, CpuFeatureLevel, level_unknown,
  CpuPurpose, general,
}
use libcpuid.Data.Feature.{CpuFeature}

-- `flags`: one byte for each feature, 0 or 1.
abbrev pub Flags : Type 0
Flags = CpuFeature → Bool

abbrev pub set_flag : CpuFeature → Bool → Flags → Flags
set_flag f v flags g = if f == g then v else flags g

-- `cpu_sgx_t`.
pub record Sgx : Type 0 where
  pub present : Bool
  pub max_enclave_32bit : ℕ
  pub max_enclave_64bit : ℕ
  pub sgx1 : Bool
  pub sgx2 : Bool
  pub num_epc_sections : ℤ
  pub misc_select : ℕ
  pub secs_attributes : ℕ
  pub secs_xfrm : ℕ

-- `x86_id_t`.
pub record X86Id : Type 0 where
  pub family : ℤ
  pub model : ℤ
  pub stepping : ℤ
  pub ext_family : ℤ
  pub ext_model : ℤ
  pub sse_size : ℤ
  pub sgx : Sgx

-- `arm_id_t`.
pub record ArmId : Type 0 where
  pub implementer : ℕ
  pub variant : ℕ
  pub part_num : ℕ
  pub revision : ℕ

-- The three fields that describe one level of cache.
pub record CacheInfo : Type 0 where
  pub cache : ℤ
  pub assoc : ℤ
  pub cacheline : ℤ

-- `x86` and `arm` are members of a union, of which the architecture says the one in use.
pub record CpuId : Type 0 where
  pub architecture : CpuArchitecture
  pub feature_level : CpuFeatureLevel
  pub vendor_str : List ℕ
  pub brand_str : List ℕ
  pub vendor : CpuVendor
  pub flags : Flags
  pub x86 : X86Id
  pub arm : ArmId
  pub num_cores : ℤ
  pub num_logical_cpus : ℤ
  pub total_logical_cpus : ℤ
  pub l1_data : CacheInfo
  pub l1_instruction : CacheInfo
  pub l2_level : CacheInfo
  pub l3_level : CacheInfo
  pub l4_level : CacheInfo
  pub l1_data_instances : ℤ
  pub l1_instruction_instances : ℤ
  pub l2_instances : ℤ
  pub l3_instances : ℤ
  pub l4_instances : ℤ
  pub cpu_codename : List ℕ
  pub technology_node : List ℕ
  pub sse_size_auth : Bool
  pub affinity_mask : List ℕ
  pub purpose : CpuPurpose

-- `__MASK_SETSIZE`: the bytes of a mask with one bit for each value of the 16-bit `logical_cpu_t`.
abbrev pub mask_setsize : ℕ
mask_setsize = 8192

abbrev pub unknown_cache : CacheInfo
unknown_cache = record { cache = minus_one; assoc = minus_one; cacheline = minus_one }

abbrev empty_sgx : Sgx
empty_sgx = record {
  present = false;
  max_enclave_32bit = 0;
  max_enclave_64bit = 0;
  sgx1 = false;
  sgx2 = false;
  num_epc_sections = pos 0;
  misc_select = 0;
  secs_attributes = 0;
  secs_xfrm = 0;
}

unfoldable pub cpu_id_t_constructor : CpuId
cpu_id_t_constructor = record {
  architecture = arch_unknown;
  feature_level = level_unknown;
  vendor_str = [];
  brand_str = [];
  vendor = unknown_vendor;
  flags = λ f. false;
  x86 = record {
    family = pos 0;
    model = pos 0;
    stepping = pos 0;
    ext_family = pos 0;
    ext_model = pos 0;
    sse_size = minus_one;
    sgx = empty_sgx;
  };
  arm = record { implementer = 0; variant = 0; part_num = 0; revision = 0 };
  num_cores = pos 0;
  num_logical_cpus = pos 0;
  total_logical_cpus = pos 0;
  l1_data = unknown_cache;
  l1_instruction = unknown_cache;
  l2_level = unknown_cache;
  l3_level = unknown_cache;
  l4_level = unknown_cache;
  l1_data_instances = minus_one;
  l1_instruction_instances = minus_one;
  l2_instances = minus_one;
  l3_instances = minus_one;
  l4_instances = minus_one;
  cpu_codename = [];
  technology_node = [];
  sse_size_auth = false;
  affinity_mask = replicate mask_setsize 0;
  purpose = general;
}
