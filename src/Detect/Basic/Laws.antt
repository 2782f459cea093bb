-- ===== src/Detect/Basic/Laws.antt =====
-- What `cpuid_basic_identify` stores.
use mathlib.Core.Path.{subst}
use libcpuid.Base.{
  ℕ, ◌+◌, ◌*◌, ◌/◌, ◌%◌, ◌^◌, ◌<◌, true, false, ◌&&◌, ◌||◌, List, ltb, if◌then◌else◌, extracts_bits,
  u32, ℤ, pos, int_le, to_int32, ◌≡◌, refl, sym, ap, ◌∙◌, arith,
}
use libcpuid.Data.Kinds.{CpuVendor, ok, cpu_unkn}
use libcpuid.Data.Raw.{RawData, row}
use libcpuid.Data.CpuId.{CpuId, X86Id}
use libcpuid.Data.Feature.{CpuFeature}
use libcpuid.Detect.Features.Laws.{
  is_common, load_features_common-announced, load_features_common_keeps,
}
use libcpuid.Detect.Vendor.{cpuid_vendor_identify}
use libcpuid.Detect.Basic.Brand.{IsBrand, brand_text-IsBrand}
use libcpuid.Detect.Basic.{
  is_amd, is_unknown_vendor, decode_signature, brand_text, identify_known, cpuid_basic_identify,
}

-- The fields hold the signature: its lower twelve bits are stepping, model and family, and the extended
-- model and family add the bits above; an AMD processor below family 15 has no extended family.
pub record HoldsSignature (vendor : CpuVendor) (eax : ℕ) (x86 : X86Id) : Type 0 where
  pub stepping : ℕ
  pub family : ℕ
  pub model : ℕ
  pub xmodel : ℕ
  pub xfamily : ℕ
  pub stored : (x86.stepping ≡ pos stepping) × (x86.family ≡ pos family) × (x86.model ≡ pos model)
  pub low : eax % 2 ^ 12 ≡ stepping + model * 2 ^ 4 + family * 2 ^ 8
  pub high : eax / 2 ^ 16 % 2 ^ 12 ≡ xmodel + xfamily * 2 ^ 4
  pub fields : (stepping < 16) × (family < 16) × (model < 16) × (xmodel < 16) × (xfamily < 256)
  pub ext_model : x86.ext_model ≡ pos (xmodel * 2 ^ 4 + model)
  pub ext_family :
      x86.ext_family
      ≡ (if is_amd vendor && ltb family 15 then pos family else pos (family + xfamily))

decode_signature-HoldsSignature :
    (vendor : CpuVendor) (eax : ℕ) (x86 : X86Id)
    → HoldsSignature vendor eax (decode_signature vendor eax x86)
unfolding decode_signature
decode_signature-HoldsSignature vendor eax x86 = record {
  stepping = extracts_bits eax 3 0;
  family = extracts_bits eax 11 8;
  model = extracts_bits eax 7 4;
  xmodel = extracts_bits eax 19 16;
  xfamily = extracts_bits eax 27 20;
  stored = (refl, refl, refl);
  low = omega arith;
  high = omega arith;
  fields = (omega arith, omega arith, omega arith, omega arith, omega arith);
  ext_model = ap pos (omega arith);
  ext_family = refl;
}

-- What is known of the description of a processor whose vendor is known.
pub record IsIdentified (total_cpus : ℤ) (raw : RawData) (before after : CpuId) : Type 0 where
  pub signature :
      int_le (pos 1) (to_int32 (row raw.basic_cpuid 0).eax) ≡ true
      → HoldsSignature before.vendor (row raw.basic_cpuid 1).eax after.x86
  pub brand :
      int_le (pos 4) (to_int32 (u32 ((row raw.ext_cpuid 0).eax + 2 ^ 31))) ≡ true
      → IsBrand raw after.brand_str
  pub no_brand :
      int_le (pos 4) (to_int32 (u32 ((row raw.ext_cpuid 0).eax + 2 ^ 31))) ≡ false
      → after.brand_str ≡ before.brand_str
  pub flags : (f : CpuFeature) → after.flags f ≡ (is_common raw f || before.flags f)
  pub total : after.total_logical_cpus ≡ total_cpus
  pub vendor : after.vendor ≡ before.vendor
  pub vendor_str : after.vendor_str ≡ before.vendor_str
  pub architecture : after.architecture ≡ before.architecture

HoldsSignature-sse_size :
    (vendor : CpuVendor) (eax : ℕ) (n : ℤ) (x86 after : X86Id)
    → after ≡ record x86 { sse_size = n }
    → HoldsSignature vendor eax x86
    → HoldsSignature vendor eax after
HoldsSignature-sse_size vendor eax n x86 after e h =
    subst (λ (x : X86Id). HoldsSignature vendor eax x) (sym e)
      (record {
        stepping = h.stepping;
        family = h.family;
        model = h.model;
        xmodel = h.xmodel;
        xfamily = h.xfamily;
        stored = h.stored;
        low = h.low;
        high = h.high;
        fields = h.fields;
        ext_model = h.ext_model;
        ext_family = h.ext_family;
      })

identify_known-IsIdentified :
    (total_cpus : ℤ) (raw : RawData) (id : CpuId)
    → IsIdentified total_cpus raw id (identify_known total_cpus raw id)
unfolding identify_known
identify_known-IsIdentified total_cpus raw id =
    let basic = int_le (pos 1) (to_int32 (row raw.basic_cpuid 0).eax) in
    let ext = int_le (pos 4) (to_int32 (u32 ((row raw.ext_cpuid 0).eax + 2 ^ 31))) in
    let decoded = decode_signature id.vendor (row raw.basic_cpuid 1).eax id.x86 in
    let before = record id {
      x86 = if basic then decoded else id.x86;
      brand_str = if ext then brand_text raw else id.brand_str;
    } in
    let (n, same) = load_features_common_keeps raw before in
    record {
      signature = λ h.
          HoldsSignature-sse_size id.vendor _ n decoded _
            (ap (λ (d : CpuId). d.x86) same ∙ rw h refl)
            (decode_signature-HoldsSignature id.vendor _ id.x86);
      brand = λ h.
          subst (λ (s : List ℕ). IsBrand raw s)
            (sym (ap (λ (d : CpuId). d.brand_str) same ∙ rw h refl)) (brand_text-IsBrand raw);
      no_brand = λ h. ap (λ (d : CpuId). d.brand_str) same ∙ rw h refl;
      flags = λ f. load_features_common-announced raw before f;
      total = refl;
      vendor = ap (λ (d : CpuId). d.vendor) same;
      vendor_str = ap (λ (d : CpuId). d.vendor_str) same;
      architecture = ap (λ (d : CpuId). d.architecture) same;
    }

-- Whatever leaf 0 says, `cpuid_basic_identify` stores its vendor and the text of it. It sets
-- ERR_CPU_UNKN and stores nothing else where the vendor is unknown. Else it sets ERR_OK, keeps the vendor
-- and its text, and stores the signature's fields without loss, but for the extended family of an AMD
-- processor below family 15, the brand string where the processor has one, which is what stands in the
-- bytes of its leaves between the blanks in front and the first NUL, the features that the tables
-- announce, and the number of CPUs.
pub cpuid_basic_identify-IsIdentified :
    (total_cpus : ℤ) (raw : RawData) (id : CpuId)
    → let (vendor, vendor_str) = cpuid_vendor_identify (row raw.basic_cpuid 0) in
      let named = record id { vendor = vendor; vendor_str = vendor_str } in
      let (error, after) = cpuid_basic_identify total_cpus raw id in
      (is_unknown_vendor vendor ≡ true → (error ≡ cpu_unkn) × (after ≡ named))
      × (is_unknown_vendor vendor ≡ false → (error ≡ ok) × IsIdentified total_cpus raw named after)
unfolding cpuid_basic_identify
cpuid_basic_identify-IsIdentified total_cpus raw id =
    (λ h. rw h (refl, refl), λ h. rw h (refl, identify_known-IsIdentified total_cpus raw _))
