-- ===== src/Data/Feature/Late.antt =====
-- Enumerators of `cpu_feature_t` (libcpuid/libcpuid.h): the rest of those of x86.
use libcpuid.Data.Feature.Defs.{CpuFeature}

abbrev pub rdtscp : CpuFeature
rdtscp = 60

abbrev pub lm : CpuFeature
lm = 61

abbrev pub lahf_lm : CpuFeature
lahf_lm = 62

abbrev pub cmp_legacy : CpuFeature
cmp_legacy = 63

abbrev pub svm : CpuFeature
svm = 64

abbrev pub abm : CpuFeature
abm = 65

abbrev pub misalignsse : CpuFeature
misalignsse = 66

abbrev pub sse4a : CpuFeature
sse4a = 67

abbrev pub amd_3dnowprefetch : CpuFeature
amd_3dnowprefetch = 68

abbrev pub osvw : CpuFeature
osvw = 69

abbrev pub ibs : CpuFeature
ibs = 70

abbrev pub sse5 : CpuFeature
sse5 = 71

abbrev pub skinit : CpuFeature
skinit = 72

abbrev pub wdt : CpuFeature
wdt = 73

abbrev pub ts : CpuFeature
ts = 74

abbrev pub fid : CpuFeature
fid = 75

abbrev pub vid : CpuFeature
vid = 76

abbrev pub ttp : CpuFeature
ttp = 77

abbrev pub tm_amd : CpuFeature
tm_amd = 78

abbrev pub stc : CpuFeature
stc = 79

abbrev pub stc_100mhzsteps : CpuFeature
stc_100mhzsteps = 80

abbrev pub hwpstate : CpuFeature
hwpstate = 81

abbrev pub constant_tsc : CpuFeature
constant_tsc = 82

abbrev pub xop : CpuFeature
xop = 83

abbrev pub fma3 : CpuFeature
fma3 = 84

abbrev pub fma4 : CpuFeature
fma4 = 85

abbrev pub tbm : CpuFeature
tbm = 86

abbrev pub f16c : CpuFeature
f16c = 87

abbrev pub rdrand : CpuFeature
rdrand = 88

abbrev pub x2apic : CpuFeature
x2apic = 89

abbrev pub cpb : CpuFeature
cpb = 90

abbrev pub aperfmperf : CpuFeature
aperfmperf = 91

abbrev pub pfi : CpuFeature
pfi = 92

abbrev pub pa : CpuFeature
pa = 93

abbrev pub avx2 : CpuFeature
avx2 = 94

abbrev pub bmi1 : CpuFeature
bmi1 = 95

abbrev pub bmi2 : CpuFeature
bmi2 = 96

abbrev pub hle : CpuFeature
hle = 97

abbrev pub rtm : CpuFeature
rtm = 98

abbrev pub avx512f : CpuFeature
avx512f = 99

abbrev pub avx512dq : CpuFeature
avx512dq = 100

abbrev pub avx512pf : CpuFeature
avx512pf = 101

abbrev pub avx512er : CpuFeature
avx512er = 102

abbrev pub avx512cd : CpuFeature
avx512cd = 103

abbrev pub sha_ni : CpuFeature
sha_ni = 104

abbrev pub avx512bw : CpuFeature
avx512bw = 105

abbrev pub avx512vl : CpuFeature
avx512vl = 106

abbrev pub sgx : CpuFeature
sgx = 107

abbrev pub rdseed : CpuFeature
rdseed = 108

abbrev pub adx : CpuFeature
adx = 109

abbrev pub avx512vnni : CpuFeature
avx512vnni = 110

abbrev pub avx512vbmi : CpuFeature
avx512vbmi = 111

abbrev pub avx512vbmi2 : CpuFeature
avx512vbmi2 = 112

abbrev pub hypervisor : CpuFeature
hypervisor = 113
