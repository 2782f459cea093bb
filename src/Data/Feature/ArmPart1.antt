-- ===== src/Data/Feature/ArmPart1.antt =====
-- Enumerators of `cpu_feature_t` (libcpuid/libcpuid.h): those of ARM, part 1 of 4.
use libcpuid.Data.Feature.Defs.{CpuFeature}

abbrev pub swap : CpuFeature
swap = 114

abbrev pub thumb : CpuFeature
thumb = 115

abbrev pub advmultu : CpuFeature
advmultu = 116

abbrev pub advmults : CpuFeature
advmults = 117

abbrev pub jazelle : CpuFeature
jazelle = 118

abbrev pub debugv6 : CpuFeature
debugv6 = 119

abbrev pub debugv6p1 : CpuFeature
debugv6p1 = 120

abbrev pub thumb2 : CpuFeature
thumb2 = 121

abbrev pub debugv7 : CpuFeature
debugv7 = 122

abbrev pub debugv7p1 : CpuFeature
debugv7p1 = 123

abbrev pub thumbee : CpuFeature
thumbee = 124

abbrev pub divide : CpuFeature
divide = 125

abbrev pub lpae : CpuFeature
lpae = 126

abbrev pub pmuv1 : CpuFeature
pmuv1 = 127

abbrev pub pmuv2 : CpuFeature
pmuv2 = 128

abbrev pub asid16 : CpuFeature
asid16 = 129

abbrev pub advsimd : CpuFeature
advsimd = 130

abbrev pub crc32 : CpuFeature
crc32 = 131

abbrev pub csv2_1p1 : CpuFeature
csv2_1p1 = 132

abbrev pub csv2_1p2 : CpuFeature
csv2_1p2 = 133

abbrev pub csv2_2 : CpuFeature
csv2_2 = 134

abbrev pub csv2_3 : CpuFeature
csv2_3 = 135

abbrev pub doublelock : CpuFeature
doublelock = 136

abbrev pub ets2 : CpuFeature
ets2 = 137

abbrev pub fp : CpuFeature
fp = 138

abbrev pub mixedend : CpuFeature
mixedend = 139

abbrev pub mixedendel0 : CpuFeature
mixedendel0 = 140

abbrev pub pmull : CpuFeature
pmull = 141

abbrev pub pmuv3 : CpuFeature
pmuv3 = 142

abbrev pub sha1 : CpuFeature
sha1 = 143

abbrev pub sha256 : CpuFeature
sha256 = 144

abbrev pub ntlbpa : CpuFeature
ntlbpa = 145

abbrev pub hafdbs : CpuFeature
hafdbs = 146

abbrev pub hpds : CpuFeature
hpds = 147

abbrev pub lor : CpuFeature
lor = 148

abbrev pub lse : CpuFeature
lse = 149

abbrev pub pan : CpuFeature
pan = 150

abbrev pub pmuv3p1 : CpuFeature
pmuv3p1 = 151

abbrev pub rdm : CpuFeature
rdm = 152

abbrev pub vhe : CpuFeature
vhe = 153

abbrev pub vmid16 : CpuFeature
vmid16 = 154

abbrev pub aa32hpd : CpuFeature
aa32hpd = 155

abbrev pub aa32i8mm : CpuFeature
aa32i8mm = 156

abbrev pub dpb : CpuFeature
dpb = 157

abbrev pub debugv8p2 : CpuFeature
debugv8p2 = 158

abbrev pub f32mm : CpuFeature
f32mm = 159

abbrev pub f64mm : CpuFeature
f64mm = 160

abbrev pub fp16 : CpuFeature
fp16 = 161

abbrev pub hpds2 : CpuFeature
hpds2 = 162

abbrev pub i8mm : CpuFeature
i8mm = 163

abbrev pub iesb : CpuFeature
iesb = 164

abbrev pub lpa : CpuFeature
lpa = 165

abbrev pub lsmaoc : CpuFeature
lsmaoc = 166

abbrev pub lva : CpuFeature
lva = 167

abbrev pub pan2 : CpuFeature
pan2 = 168

abbrev pub ras : CpuFeature
ras = 169

abbrev pub sha3 : CpuFeature
sha3 = 170

abbrev pub sha512 : CpuFeature
sha512 = 171

abbrev pub sm3 : CpuFeature
sm3 = 172

abbrev pub sm4 : CpuFeature
sm4 = 173

abbrev pub spe : CpuFeature
spe = 174

abbrev pub sve : CpuFeature
sve = 175

abbrev pub ttcnp : CpuFeature
ttcnp = 176
