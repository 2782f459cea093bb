-- ===== src/Data/Raw.antt =====
-- `cpu_raw_data_t` of libcpuid/libcpuid.h: the registers that CPUID returned, leaf by leaf, and the
-- ID registers of an ARM processor.
use libcpuid.Base.{ℕ, List, length, get_or, replicate, ◌≡◌}

-- One answer of CPUID, `uint32_t[NUM_REGS]`.
pub record Regs : Type 0 where
  pub eax : ℕ
  pub ebx : ℕ
  pub ecx : ℕ
  pub edx : ℕ

abbrev pub zero_regs : Regs
zero_regs = record { eax = 0; ebx = 0; ecx = 0; edx = 0 }

-- Row `i` of a table of registers, for an index inside the table.
abbrev pub row : List Regs → ℕ → Regs
row table i = get_or table i zero_regs

-- Register `i` of an array of ARM registers, for an index inside the array.
abbrev pub reg : List ℕ → ℕ → ℕ
reg registers i = get_or registers i 0

abbrev pub max_cpuid_level : ℕ
max_cpuid_level = 32

abbrev pub max_ext_cpuid_level : ℕ
max_ext_cpuid_level = 32

abbrev pub max_intelfn4_level : ℕ
max_intelfn4_level = 8

-- MAX_INTELFN11_LEVEL, MAX_INTELFN12H_LEVEL, MAX_INTELFN14H_LEVEL, MAX_AMDFN8000001DH_LEVEL and
-- MAX_AMDFN80000026H_LEVEL.
abbrev pub max_sub_level : ℕ
max_sub_level = 4

pub record RawData : Type 0 where
  pub basic_cpuid : List Regs
  pub ext_cpuid : List Regs
  pub intel_fn4 : List Regs
  pub intel_fn11 : List Regs
  pub intel_fn12h : List Regs
  pub intel_fn14h : List Regs
  pub amd_fn8000001dh : List Regs
  pub amd_fn80000026h : List Regs
  pub arm_midr : ℕ
  pub arm_mpidr : ℕ
  pub arm_revidr : ℕ
  pub arm_id_afr : List ℕ
  pub arm_id_dfr : List ℕ
  pub arm_id_isar : List ℕ
  pub arm_id_mmfr : List ℕ
  pub arm_id_pfr : List ℕ
  pub arm_id_aa64afr : List ℕ
  pub arm_id_aa64dfr : List ℕ
  pub arm_id_aa64fpfr : List ℕ
  pub arm_id_aa64isar : List ℕ
  pub arm_id_aa64mmfr : List ℕ
  pub arm_id_aa64pfr : List ℕ
  pub arm_id_aa64smfr : List ℕ
  pub arm_id_aa64zfr : List ℕ

-- The sizes that the C type gives its arrays of x86.
pub record IsSized (raw : RawData) : Type 0 where
  pub basic_size : length raw.basic_cpuid ≡ max_cpuid_level
  pub ext_size : length raw.ext_cpuid ≡ max_ext_cpuid_level
  pub fn4_size : length raw.intel_fn4 ≡ max_intelfn4_level
  pub fn11_size : length raw.intel_fn11 ≡ max_sub_level
  pub fn12h_size : length raw.intel_fn12h ≡ max_sub_level
  pub fn14h_size : length raw.intel_fn14h ≡ max_sub_level
  pub fn1d_size : length raw.amd_fn8000001dh ≡ max_sub_level
  pub fn26_size : length raw.amd_fn80000026h ≡ max_sub_level

-- `raw_data_t_constructor`.
unfoldable pub raw_data_t_constructor : RawData
raw_data_t_constructor = record {
  basic_cpuid = replicate max_cpuid_level zero_regs;
  ext_cpuid = replicate max_ext_cpuid_level zero_regs;
  intel_fn4 = replicate max_intelfn4_level zero_regs;
  intel_fn11 = replicate max_sub_level zero_regs;
  intel_fn12h = replicate max_sub_level zero_regs;
  intel_fn14h = replicate max_sub_level zero_regs;
  amd_fn8000001dh = replicate max_sub_level zero_regs;
  amd_fn80000026h = replicate max_sub_level zero_regs;
  arm_midr = 0;
  arm_mpidr = 0;
  arm_revidr = 0;
  arm_id_afr = replicate 1 0;
  arm_id_dfr = replicate 2 0;
  arm_id_isar = replicate 7 0;
  arm_id_mmfr = replicate 6 0;
  arm_id_pfr = replicate 3 0;
  arm_id_aa64afr = replicate 2 0;
  arm_id_aa64dfr = replicate 3 0;
  arm_id_aa64fpfr = replicate 1 0;
  arm_id_aa64isar = replicate 4 0;
  arm_id_aa64mmfr = replicate 5 0;
  arm_id_aa64pfr = replicate 3 0;
  arm_id_aa64smfr = replicate 1 0;
  arm_id_aa64zfr = replicate 1 0;
}
