-- ===== src/Data/Kinds.antt =====
-- The small enumerations of libcpuid/libcpuid.h and libcpuid/libcpuid_internal.h.
use libcpuid.Base.{ℕ, Bool, true, false, Option, none, some, ◌==◌}

-- Equality of the values of two enumerators, of which -1 is `none`.
abbrev pub value_eq : Option ℕ → Option ℕ → Bool
value_eq none none = true
value_eq none (some w) = false
value_eq (some v) none = false
value_eq (some v) (some w) = v == w

-- `cpu_vendor_t`.
pub data CpuVendor : Type 0 where
  intel amd cyrix nexgen transmeta umc centaur rise sis nsc hygon : CpuVendor
  arm broadcom cavium dec fujitsu hisilicon infineon freescale nvidia : CpuVendor
  apm qualcomm samsung marvell apple faraday microsoft phytium ampere : CpuVendor
  unknown_vendor : CpuVendor

-- The value of an enumerator of `cpu_vendor_t`, by which `==` compares two of them, less
-- VENDOR_UNKNOWN, which is -1.
abbrev pub vendor_value : CpuVendor → Option ℕ
vendor_value unknown_vendor = none
vendor_value intel = some 0
vendor_value amd = some 1
vendor_value cyrix = some 2
vendor_value nexgen = some 3
vendor_value transmeta = some 4
vendor_value umc = some 5
vendor_value centaur = some 6
vendor_value rise = some 7
vendor_value sis = some 8
vendor_value nsc = some 9
vendor_value hygon = some 10
vendor_value arm = some 11
vendor_value broadcom = some 12
vendor_value cavium = some 13
vendor_value dec = some 14
vendor_value fujitsu = some 15
vendor_value hisilicon = some 16
vendor_value infineon = some 17
vendor_value freescale = some 18
vendor_value nvidia = some 19
vendor_value apm = some 20
vendor_value qualcomm = some 21
vendor_value samsung = some 22
vendor_value marvell = some 23
vendor_value apple = some 24
vendor_value faraday = some 25
vendor_value microsoft = some 26
vendor_value phytium = some 27
vendor_value ampere = some 28

abbrev pub vendor_eq : CpuVendor → CpuVendor → Bool
vendor_eq a b = value_eq (vendor_value a) (vendor_value b)

-- `cpu_architecture_t`.
pub data CpuArchitecture : Type 0 where
  arch_x86 arch_arm arch_unknown : CpuArchitecture

-- `cpu_feature_level_t`.
pub data CpuFeatureLevel : Type 0 where
  i386 i486 i586 i686 x86_64_v1 x86_64_v2 x86_64_v3 x86_64_v4 : CpuFeatureLevel
  arm_v1 arm_v2 arm_v3 arm_v4 arm_v4t arm_v5 arm_v5t : CpuFeatureLevel
  arm_v5te arm_v5tej arm_v6 arm_v6_m arm_v7_a arm_v7_m arm_v7_r : CpuFeatureLevel
  arm_v7e_m arm_v8_0_a arm_v8_0_m arm_v8_0_r arm_v8_1_a arm_v8_1_m arm_v8_2_a : CpuFeatureLevel
  arm_v8_3_a arm_v8_4_a arm_v8_5_a arm_v8_6_a arm_v8_7_a arm_v8_8_a arm_v8_9_a : CpuFeatureLevel
  arm_v9_0_a arm_v9_1_a arm_v9_2_a arm_v9_3_a arm_v9_4_a arm_v9_5_a : CpuFeatureLevel
  level_unknown : CpuFeatureLevel

-- The value of an enumerator of `cpu_feature_level_t`, less FEATURE_LEVEL_UNKNOWN, which is -1.
abbrev pub level_value : CpuFeatureLevel → Option ℕ
level_value level_unknown = none
level_value i386 = some 0
level_value i486 = some 1
level_value i586 = some 2
level_value i686 = some 3
level_value x86_64_v1 = some 4
level_value x86_64_v2 = some 5
level_value x86_64_v3 = some 6
level_value x86_64_v4 = some 7
level_value arm_v1 = some 100
level_value arm_v2 = some 101
level_value arm_v3 = some 102
level_value arm_v4 = some 103
level_value arm_v4t = some 104
level_value arm_v5 = some 105
level_value arm_v5t = some 106
level_value arm_v5te = some 107
level_value arm_v5tej = some 108
level_value arm_v6 = some 109
level_value arm_v6_m = some 110
level_value arm_v7_a = some 111
level_value arm_v7_m = some 112
level_value arm_v7_r = some 113
level_value arm_v7e_m = some 114
level_value arm_v8_0_a = some 115
level_value arm_v8_0_m = some 116
level_value arm_v8_0_r = some 117
level_value arm_v8_1_a = some 118
level_value arm_v8_1_m = some 119
level_value arm_v8_2_a = some 120
level_value arm_v8_3_a = some 121
level_value arm_v8_4_a = some 122
level_value arm_v8_5_a = some 123
level_value arm_v8_6_a = some 124
level_value arm_v8_7_a = some 125
level_value arm_v8_8_a = some 126
level_value arm_v8_9_a = some 127
level_value arm_v9_0_a = some 128
level_value arm_v9_1_a = some 129
level_value arm_v9_2_a = some 130
level_value arm_v9_3_a = some 131
level_value arm_v9_4_a = some 132
level_value arm_v9_5_a = some 133

abbrev pub level_eq : CpuFeatureLevel → CpuFeatureLevel → Bool
level_eq a b = value_eq (level_value a) (level_value b)

-- `cpu_purpose_t`.
pub data CpuPurpose : Type 0 where
  general performance efficiency lp_efficiency u_performance : CpuPurpose

-- The value of an enumerator of `cpu_purpose_t`, by which `==` compares two of them.
abbrev pub purpose_value : CpuPurpose → ℕ
purpose_value general = 0
purpose_value performance = 1
purpose_value efficiency = 2
purpose_value lp_efficiency = 3
purpose_value u_performance = 4

abbrev pub purpose_eq : CpuPurpose → CpuPurpose → Bool
purpose_eq p q = purpose_value p == purpose_value q

-- `cache_type_t`, and the value of an enumerator, which is an index below `NUM_CACHE_TYPES`.
pub data CacheType : Type 0 where
  l1i l1d l2 l3 l4 : CacheType

abbrev pub num_cache_types : ℕ
num_cache_types = 5

abbrev pub cache_index : CacheType → ℕ
cache_index l1i = 0
cache_index l1d = 1
cache_index l2 = 2
cache_index l3 = 3
cache_index l4 = 4

-- `cpu_error_t`, the errors that the modelled functions set.
pub data CpuError : Type 0 where
  ok no_cpuid no_mem open_failed badfmt cpu_unkn handle invcnb not_found : CpuError

-- `r == ERR_OK`; every other error is negative.
abbrev pub is_ok : CpuError → Bool
is_ok ok = true
is_ok _ = false
