-- ===== src/Detect/Vendor/Laws.antt =====
-- Which texts `cpuid_vendor_identify` knows.
use mathlib.Core.Path.{subst}
use libcpuid.Base.{
  ℕ, ◌+◌, ◌*◌, ◌%◌, ◌^◌, ◌<◌, true, false, List, [], ◌∷◌, ◌≡◌, ◌≢◌, ◌⊎◌, inl, inr, refl, sym, arith,
  Bool-cases,
}
use libcpuid.Data.Kinds.{CpuVendor, intel, unknown_vendor}
use libcpuid.Data.Raw.{Regs}
use libcpuid.Util.Ctype.{str_eq, str_eq_iff}
use libcpuid.Detect.Vendor.{
  VendorRow, bytes_of, c_string, vendor_texts, matchtable, find_vendor, vendor_text,
  cpuid_vendor_identify,
}

-- The registers that hold a text of four bytes in little-endian order.
abbrev pub pack : ℕ → ℕ → ℕ → ℕ → ℕ
pack a b c d = a + b * 2 ^ 8 + c * 2 ^ 16 + d * 2 ^ 24

-- A byte of a text, not the NUL behind it.
abbrev pub IsByte : ℕ → Type 0
IsByte c = (0 < c) × (c < 256)

abbrev pub AllBytes : List ℕ → Type 0
AllBytes [] = Unit
AllBytes (c ∷ s) = IsByte c × AllBytes s

bytes_of-pack :
    (a b c d : ℕ)
    → a < 256
    → b < 256
    → c < 256
    → d < 256
    → bytes_of (pack a b c d) ≡ a ∷ b ∷ c ∷ d ∷ []
unfolding bytes_of
bytes_of-pack a b c d ha hb hc hd = ground arith

c_string_id : (s : List ℕ) → AllBytes s → c_string s ≡ s
unfolding c_string
c_string_id [] h = refl
c_string_id (c ∷ s) h = ground (arith, c_string_id s h.1)

-- The registers into which CPUID puts the number of its last leaf and a text of twelve bytes.
abbrev pub registers : (last a b c d e f g h i j k l : ℕ) → Regs
registers last a b c d e f g h i j k l = record {
  eax = last;
  ebx = pack a b c d;
  ecx = pack i j k l;
  edx = pack e f g h;
}

vendor_text-registers :
    (last a b c d e f g h i j k l : ℕ)
    → AllBytes (a ∷ b ∷ c ∷ d ∷ e ∷ f ∷ g ∷ h ∷ i ∷ j ∷ k ∷ l ∷ [])
    → vendor_text (registers last a b c d e f g h i j k l)
      ≡ a ∷ b ∷ c ∷ d ∷ e ∷ f ∷ g ∷ h ∷ i ∷ j ∷ k ∷ l ∷ []
unfolding vendor_text
vendor_text-registers last a b c d e f g h i j k l bytes =
    rw
      (
        bytes_of-pack a b c d (omega arith) (omega arith) (omega arith) (omega arith),
        bytes_of-pack e f g h (omega arith) (omega arith) (omega arith) (omega arith),
        bytes_of-pack i j k l (omega arith) (omega arith) (omega arith) (omega arith),
      )
      (c_string_id (a ∷ b ∷ c ∷ d ∷ e ∷ f ∷ g ∷ h ∷ i ∷ j ∷ k ∷ l ∷ []) bytes)

-- `v` is the vendor of the first row that has the text, or unknown if none has it.
abbrev pub NamedBy : List ℕ → CpuVendor → List VendorRow → Type 0
NamedBy text v [] = v ≡ unknown_vendor
NamedBy text v (r ∷ table) =
    ((text ≡ r.match) × (v ≡ r.vendor)) ⊎ ((text ≢ r.match) × NamedBy text v table)

find_vendor-hit :
    (text : List ℕ) (r : VendorRow) (table : List VendorRow)
    → str_eq text r.match ≡ true
    → find_vendor text (r ∷ table) ≡ r.vendor
unfolding find_vendor
find_vendor-hit text r table h = rw (h, find_vendor)

find_vendor-miss :
    (text : List ℕ) (r : VendorRow) (table : List VendorRow)
    → str_eq text r.match ≡ false
    → find_vendor text (r ∷ table) ≡ find_vendor text table
unfolding find_vendor
find_vendor-miss text r table h = rw (h, find_vendor)

find_vendor-NamedBy :
    (text : List ℕ) (table : List VendorRow) → NamedBy text (find_vendor text table) table
find_vendor-NamedBy text [] = unfold find_vendor in refl
find_vendor-NamedBy text (r ∷ table) = elim (Bool-cases (str_eq text r.match)) [
  | inl same ↦ inl ((str_eq_iff text r.match).0 same, find_vendor-hit text r table same)
  | inr differs ↦ inr (
    λ e. absurd (ground (arith, (str_eq_iff text r.match).1 e)),
    subst (λ v. NamedBy text v table) (sym (find_vendor-miss text r table differs))
        (find_vendor-NamedBy text table),
  )
]

-- The rows that are not written out do not count for a text that is not empty.
find_vendor-matchtable :
    (c : ℕ) (s : List ℕ) → find_vendor (c ∷ s) matchtable ≡ find_vendor (c ∷ s) vendor_texts
unfolding find_vendor str_eq
find_vendor-matchtable c s = refl

-- Whatever the last leaf, where the registers of leaf 0 hold a text of twelve bytes, none of them NUL, that text is stored, and
-- the vendor is that of the row with the text, or unknown if no row that is written out has it.
pub cpuid_vendor_identify-NamedBy :
    (last a b c d e f g h i j k l : ℕ)
    → let text = a ∷ b ∷ c ∷ d ∷ e ∷ f ∷ g ∷ h ∷ i ∷ j ∷ k ∷ l ∷ [] in
      AllBytes text
      → let (vendor, stored) = cpuid_vendor_identify (registers last a b c d e f g h i j k l) in
        (stored ≡ text) × NamedBy text vendor vendor_texts
unfolding cpuid_vendor_identify
cpuid_vendor_identify-NamedBy last a b c d e f g h i j k l bytes =
    let text = b ∷ c ∷ d ∷ e ∷ f ∷ g ∷ h ∷ i ∷ j ∷ k ∷ l ∷ [] in
    rw (vendor_text-registers last a b c d e f g h i j k l bytes)
      (refl, rw (find_vendor-matchtable a text) (find_vendor-NamedBy (a ∷ text) vendor_texts))

-- Where leaf 0 begins its text with a NUL, `cpuid_vendor_identify` reports Intel: the empty text is
-- that of the rows of the table that are not written out.
pub cpuid_vendor_identify-blank :
    (raw : Regs) → raw.ebx % 256 ≡ 0 → cpuid_vendor_identify raw ≡ (intel, [])
unfolding cpuid_vendor_identify
cpuid_vendor_identify-blank raw nul =
    let blank : vendor_text raw ≡ [] = unfold vendor_text c_string bytes_of in rw nul in
    rw blank (unfold find_vendor str_eq in refl)
