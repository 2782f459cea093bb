-- ===== src/Data/Feature/ArmPart3.antt =====
-- Enumerators of `cpu_feature_t` (libcpuid/libcpuid.h): those of ARM, part 3 of 4.
use libcpuid.Data.Feature.Defs.{CpuFeature}

abbrev pub mtpmu : CpuFeature
mtpmu = 240

abbrev pub pauth2 : CpuFeature
pauth2 = 241

abbrev pub twed : CpuFeature
twed = 242

abbrev pub afp : CpuFeature
afp = 243

abbrev pub ebf16 : CpuFeature
ebf16 = 244

abbrev pub hcx : CpuFeature
hcx = 245

abbrev pub lpa2 : CpuFeature
lpa2 = 246

abbrev pub ls64 : CpuFeature
ls64 = 247

abbrev pub ls64_accdata : CpuFeature
ls64_accdata = 248

abbrev pub ls64_v : CpuFeature
ls64_v = 249

abbrev pub mte3 : CpuFeature
mte3 = 250

abbrev pub mte_asym_fault : CpuFeature
mte_asym_fault = 251

abbrev pub pan3 : CpuFeature
pan3 = 252

abbrev pub pmuv3p7 : CpuFeature
pmuv3p7 = 253

abbrev pub rpres : CpuFeature
rpres = 254

abbrev pub spev1p2 : CpuFeature
spev1p2 = 255

abbrev pub wfxt : CpuFeature
wfxt = 256

abbrev pub xs : CpuFeature
xs = 257

abbrev pub cmow : CpuFeature
cmow = 258

abbrev pub debugv8p8 : CpuFeature
debugv8p8 = 259

abbrev pub hbc : CpuFeature
hbc = 260

abbrev pub mops : CpuFeature
mops = 261

abbrev pub nmi : CpuFeature
nmi = 262

abbrev pub pmuv3p8 : CpuFeature
pmuv3p8 = 263

abbrev pub sctlr2 : CpuFeature
sctlr2 = 264

abbrev pub spev1p3 : CpuFeature
spev1p3 = 265

abbrev pub tcr2 : CpuFeature
tcr2 = 266

abbrev pub tidcp1 : CpuFeature
tidcp1 = 267

abbrev pub aderr : CpuFeature
aderr = 268

abbrev pub aie : CpuFeature
aie = 269

abbrev pub anerr : CpuFeature
anerr = 270

abbrev pub ats1a : CpuFeature
ats1a = 271

abbrev pub clrbhb : CpuFeature
clrbhb = 272

abbrev pub cssc : CpuFeature
cssc = 273

abbrev pub debugv8p9 : CpuFeature
debugv8p9 = 274

abbrev pub doublefault2 : CpuFeature
doublefault2 = 275

abbrev pub ecbhb : CpuFeature
ecbhb = 276

abbrev pub fgt2 : CpuFeature
fgt2 = 277

abbrev pub haft : CpuFeature
haft = 278

abbrev pub lrcpc3 : CpuFeature
lrcpc3 = 279

abbrev pub mte4 : CpuFeature
mte4 = 280

abbrev pub mte_async : CpuFeature
mte_async = 281

abbrev pub mte_canonical_tags : CpuFeature
mte_canonical_tags = 282

abbrev pub mte_no_address_tags : CpuFeature
mte_no_address_tags = 283

abbrev pub mte_perm : CpuFeature
mte_perm = 284

abbrev pub mte_store_only : CpuFeature
mte_store_only = 285

abbrev pub mte_tagged_far : CpuFeature
mte_tagged_far = 286

abbrev pub pfar : CpuFeature
pfar = 287

abbrev pub pmuv3_icntr : CpuFeature
pmuv3_icntr = 288

abbrev pub pmuv3_ss : CpuFeature
pmuv3_ss = 289

abbrev pub pmuv3p9 : CpuFeature
pmuv3p9 = 290

abbrev pub prfmslc : CpuFeature
prfmslc = 291

abbrev pub rasv2 : CpuFeature
rasv2 = 292

abbrev pub rprfm : CpuFeature
rprfm = 293

abbrev pub s1pie : CpuFeature
s1pie = 294

abbrev pub s1poe : CpuFeature
s1poe = 295

abbrev pub s2pie : CpuFeature
s2pie = 296

abbrev pub s2poe : CpuFeature
s2poe = 297

abbrev pub specres2 : CpuFeature
specres2 = 298

abbrev pub spe_dpfzs : CpuFeature
spe_dpfzs = 299

abbrev pub spev1p4 : CpuFeature
spev1p4 = 300

abbrev pub spmu : CpuFeature
spmu = 301

abbrev pub the : CpuFeature
the = 302
