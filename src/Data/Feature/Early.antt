-- ===== src/Data/Feature/Early.antt =====
-- Enumerators of `cpu_feature_t` (libcpuid/libcpuid.h): from `CPU_FEATURE_FPU` on.
use libcpuid.Data.Feature.Defs.{CpuFeature}

abbrev pub fpu : CpuFeature
fpu = 0

abbrev pub vme : CpuFeature
vme = 1

abbrev pub de : CpuFeature
de = 2

abbrev pub pse : CpuFeature
pse = 3

abbrev pub tsc : CpuFeature
tsc = 4

abbrev pub msr : CpuFeature
msr = 5

abbrev pub pae : CpuFeature
pae = 6

abbrev pub mce : CpuFeature
mce = 7

abbrev pub cx8 : CpuFeature
cx8 = 8

abbrev pub apic : CpuFeature
apic = 9

abbrev pub mtrr : CpuFeature
mtrr = 10

abbrev pub sep : CpuFeature
sep = 11

abbrev pub pge : CpuFeature
pge = 12

abbrev pub mca : CpuFeature
mca = 13

abbrev pub cmov : CpuFeature
cmov = 14

abbrev pub pat : CpuFeature
pat = 15

abbrev pub pse36 : CpuFeature
pse36 = 16

abbrev pub pn : CpuFeature
pn = 17

abbrev pub clflush : CpuFeature
clflush = 18

abbrev pub dts : CpuFeature
dts = 19

abbrev pub acpi : CpuFeature
acpi = 20

abbrev pub mmx : CpuFeature
mmx = 21

abbrev pub fxsr : CpuFeature
fxsr = 22

abbrev pub sse : CpuFeature
sse = 23

abbrev pub sse2 : CpuFeature
sse2 = 24

abbrev pub ss : CpuFeature
ss = 25

abbrev pub ht : CpuFeature
ht = 26

abbrev pub tm : CpuFeature
tm = 27

abbrev pub ia64 : CpuFeature
ia64 = 28

abbrev pub pbe : CpuFeature
pbe = 29

abbrev pub pni : CpuFeature
pni = 30

abbrev pub pclmul : CpuFeature
pclmul = 31

abbrev pub dts64 : CpuFeature
dts64 = 32

abbrev pub monitor : CpuFeature
monitor = 33

abbrev pub ds_cpl : CpuFeature
ds_cpl = 34

abbrev pub vmx : CpuFeature
vmx = 35

abbrev pub smx : CpuFeature
smx = 36

abbrev pub est : CpuFeature
est = 37

abbrev pub tm2 : CpuFeature
tm2 = 38

abbrev pub ssse3 : CpuFeature
ssse3 = 39

abbrev pub cid : CpuFeature
cid = 40

abbrev pub cx16 : CpuFeature
cx16 = 41

abbrev pub xtpr : CpuFeature
xtpr = 42

abbrev pub pdcm : CpuFeature
pdcm = 43

abbrev pub dca : CpuFeature
dca = 44

abbrev pub sse4_1 : CpuFeature
sse4_1 = 45

abbrev pub sse4_2 : CpuFeature
sse4_2 = 46

abbrev pub syscall : CpuFeature
syscall = 47

abbrev pub xd : CpuFeature
xd = 48

abbrev pub movbe : CpuFeature
movbe = 49

abbrev pub popcnt : CpuFeature
popcnt = 50

abbrev pub aes : CpuFeature
aes = 51

abbrev pub xsave : CpuFeature
xsave = 52

abbrev pub osxsave : CpuFeature
osxsave = 53

abbrev pub avx : CpuFeature
avx = 54

abbrev pub mmxext : CpuFeature
mmxext = 55

abbrev pub amd_3dnow : CpuFeature
amd_3dnow = 56

abbrev pub amd_3dnowext : CpuFeature
amd_3dnowext = 57

abbrev pub nx : CpuFeature
nx = 58

abbrev pub fxsr_opt : CpuFeature
fxsr_opt = 59
