-- ===== src/Data/Feature/ArmPart2.antt =====
-- Enumerators of `cpu_feature_t` (libcpuid/libcpuid.h): those of ARM, part 2 of 4.
use libcpuid.Data.Feature.Defs.{CpuFeature}

abbrev pub uao : CpuFeature
uao = 177

abbrev pub xnx : CpuFeature
xnx = 178

abbrev pub ccidx : CpuFeature
ccidx = 179

abbrev pub constpacfield : CpuFeature
constpacfield = 180

abbrev pub epac : CpuFeature
epac = 181

abbrev pub fcma : CpuFeature
fcma = 182

abbrev pub fpac : CpuFeature
fpac = 183

abbrev pub fpaccombine : CpuFeature
fpaccombine = 184

abbrev pub jscvt : CpuFeature
jscvt = 185

abbrev pub lrcpc : CpuFeature
lrcpc = 186

abbrev pub pacimp : CpuFeature
pacimp = 187

abbrev pub pacqarma3 : CpuFeature
pacqarma3 = 188

abbrev pub pacqarma5 : CpuFeature
pacqarma5 = 189

abbrev pub pauth : CpuFeature
pauth = 190

abbrev pub spev1p1 : CpuFeature
spev1p1 = 191

abbrev pub amuv1 : CpuFeature
amuv1 = 192

abbrev pub bbm : CpuFeature
bbm = 193

abbrev pub dit : CpuFeature
dit = 194

abbrev pub debugv8p4 : CpuFeature
debugv8p4 = 195

abbrev pub dotprod : CpuFeature
dotprod = 196

abbrev pub doublefault : CpuFeature
doublefault = 197

abbrev pub fhm : CpuFeature
fhm = 198

abbrev pub flagm : CpuFeature
flagm = 199

abbrev pub idst : CpuFeature
idst = 200

abbrev pub lrcpc2 : CpuFeature
lrcpc2 = 201

abbrev pub lse2 : CpuFeature
lse2 = 202

abbrev pub mpam : CpuFeature
mpam = 203

abbrev pub pmuv3p4 : CpuFeature
pmuv3p4 = 204

abbrev pub rasv1p1 : CpuFeature
rasv1p1 = 205

abbrev pub s2fwb : CpuFeature
s2fwb = 206

abbrev pub sel2 : CpuFeature
sel2 = 207

abbrev pub tlbios : CpuFeature
tlbios = 208

abbrev pub tlbirange : CpuFeature
tlbirange = 209

abbrev pub trf : CpuFeature
trf = 210

abbrev pub ttl : CpuFeature
ttl = 211

abbrev pub ttst : CpuFeature
ttst = 212

abbrev pub bti : CpuFeature
bti = 213

abbrev pub csv2 : CpuFeature
csv2 = 214

abbrev pub csv3 : CpuFeature
csv3 = 215

abbrev pub dpb2 : CpuFeature
dpb2 = 216

abbrev pub e0pd : CpuFeature
e0pd = 217

abbrev pub evt : CpuFeature
evt = 218

abbrev pub exs : CpuFeature
exs = 219

abbrev pub frintts : CpuFeature
frintts = 220

abbrev pub flagm2 : CpuFeature
flagm2 = 221

abbrev pub mte : CpuFeature
mte = 222

abbrev pub mte2 : CpuFeature
mte2 = 223

abbrev pub pmuv3p5 : CpuFeature
pmuv3p5 = 224

abbrev pub rng : CpuFeature
rng = 225

abbrev pub rng_trap : CpuFeature
rng_trap = 226

abbrev pub sb : CpuFeature
sb = 227

abbrev pub specres : CpuFeature
specres = 228

abbrev pub ssbs : CpuFeature
ssbs = 229

abbrev pub ssbs2 : CpuFeature
ssbs2 = 230

abbrev pub aa32bf16 : CpuFeature
aa32bf16 = 231

abbrev pub amuv1p1 : CpuFeature
amuv1p1 = 232

abbrev pub bf16 : CpuFeature
bf16 = 233

abbrev pub dgh : CpuFeature
dgh = 234

abbrev pub ecv : CpuFeature
ecv = 235

abbrev pub fgt : CpuFeature
fgt = 236

abbrev pub hpmn0 : CpuFeature
hpmn0 = 237

abbrev pub mpamv0p1 : CpuFeature
mpamv0p1 = 238

abbrev pub mpamv1p1 : CpuFeature
mpamv1p1 = 239
