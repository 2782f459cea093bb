-- ===== src/Data/Feature/ArmPart4.antt =====
-- Enumerators of `cpu_feature_t` (libcpuid/libcpuid.h): those of ARM, part 4 of 4.
use libcpuid.Data.Feature.Defs.{CpuFeature}

abbrev pub sve2 : CpuFeature
sve2 = 303

abbrev pub sve_aes : CpuFeature
sve_aes = 304

abbrev pub sve_bitperm : CpuFeature
sve_bitperm = 305

abbrev pub sve_pmull128 : CpuFeature
sve_pmull128 = 306

abbrev pub sve_sha3 : CpuFeature
sve_sha3 = 307

abbrev pub sve_sm4 : CpuFeature
sve_sm4 = 308

abbrev pub tme : CpuFeature
tme = 309

abbrev pub trbe : CpuFeature
trbe = 310

abbrev pub brbe : CpuFeature
brbe = 311

abbrev pub rme : CpuFeature
rme = 312

abbrev pub sme : CpuFeature
sme = 313

abbrev pub sme_f64f64 : CpuFeature
sme_f64f64 = 314

abbrev pub sme_fa64 : CpuFeature
sme_fa64 = 315

abbrev pub sme_i16i64 : CpuFeature
sme_i16i64 = 316

abbrev pub brbev1p1 : CpuFeature
brbev1p1 = 317

abbrev pub mec : CpuFeature
mec = 318

abbrev pub sme2 : CpuFeature
sme2 = 319

abbrev pub able : CpuFeature
able = 320

abbrev pub bwe : CpuFeature
bwe = 321

abbrev pub d128 : CpuFeature
d128 = 322

abbrev pub ebep : CpuFeature
ebep = 323

abbrev pub gcs : CpuFeature
gcs = 324

abbrev pub ite : CpuFeature
ite = 325

abbrev pub lse128 : CpuFeature
lse128 = 326

abbrev pub lva3 : CpuFeature
lva3 = 327

abbrev pub sebep : CpuFeature
sebep = 328

abbrev pub sme2p1 : CpuFeature
sme2p1 = 329

abbrev pub sme_f16f16 : CpuFeature
sme_f16f16 = 330

abbrev pub sve2p1 : CpuFeature
sve2p1 = 331

abbrev pub sve_b16b16 : CpuFeature
sve_b16b16 = 332

abbrev pub sysinstr128 : CpuFeature
sysinstr128 = 333

abbrev pub sysreg128 : CpuFeature
sysreg128 = 334

abbrev pub trbe_ext : CpuFeature
trbe_ext = 335

abbrev pub asid2 : CpuFeature
asid2 = 336

abbrev pub bwe2 : CpuFeature
bwe2 = 337

abbrev pub cpa : CpuFeature
cpa = 338

abbrev pub cpa2 : CpuFeature
cpa2 = 339

abbrev pub e2h0 : CpuFeature
e2h0 = 340

abbrev pub e3dse : CpuFeature
e3dse = 341

abbrev pub ets3 : CpuFeature
ets3 = 342

abbrev pub faminmax : CpuFeature
faminmax = 343

abbrev pub fgwte3 : CpuFeature
fgwte3 = 344

abbrev pub fp8 : CpuFeature
fp8 = 345

abbrev pub fp8dot2 : CpuFeature
fp8dot2 = 346

abbrev pub fp8dot4 : CpuFeature
fp8dot4 = 347

abbrev pub fp8fma : CpuFeature
fp8fma = 348

abbrev pub fpmr : CpuFeature
fpmr = 349

abbrev pub hacdbs : CpuFeature
hacdbs = 350

abbrev pub hdbss : CpuFeature
hdbss = 351

abbrev pub lut : CpuFeature
lut = 352

abbrev pub pauth_lr : CpuFeature
pauth_lr = 353

abbrev pub rme_gpc2 : CpuFeature
rme_gpc2 = 354

abbrev pub sme_f8f16 : CpuFeature
sme_f8f16 = 355

abbrev pub sme_f8f32 : CpuFeature
sme_f8f32 = 356

abbrev pub sme_lutv2 : CpuFeature
sme_lutv2 = 357

abbrev pub spmu2 : CpuFeature
spmu2 = 358

abbrev pub ssve_fp8dot2 : CpuFeature
ssve_fp8dot2 = 359

abbrev pub ssve_fp8dot4 : CpuFeature
ssve_fp8dot4 = 360

abbrev pub ssve_fp8fma : CpuFeature
ssve_fp8fma = 361

abbrev pub step2 : CpuFeature
step2 = 362

abbrev pub tlbiw : CpuFeature
tlbiw = 363
