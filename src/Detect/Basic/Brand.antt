-- ===== src/Detect/Basic/Brand.antt =====
-- The brand string that `cpuid_basic_identify` stores.
use libcpuid.Base.{
  ℕ, suc, ◌≤◌, List, [], ◌∷◌, ◌++◌, ◌==◌, ◌≡◌, ◌≢◌, refl, ap, ◌∙◌, arith, length, replicate, ==_iff,
  Bool-cases, inl, inr,
}
use libcpuid.Data.Raw.{RawData, row}
use libcpuid.Detect.Vendor.{bytes_of, c_string}
use libcpuid.Detect.Basic.{leaf_bytes, skip_blanks, brand_text}

-- Text in memory: no NUL, and no blank in front.
abbrev pub NoNul : List ℕ → Type 0
NoNul [] = Unit
NoNul (c ∷ s) = (c ≢ 0) × NoNul s

abbrev pub NoBlankInFront : List ℕ → Type 0
NoBlankInFront [] = Unit
NoBlankInFront (c ∷ s) = c ≢ b' '

c_string-NoNul : (s : List ℕ) → NoNul (c_string s)
unfolding c_string
c_string-NoNul [] = tt
c_string-NoNul (c ∷ s) = ground (arith, c_string-NoNul s)

c_string_length : (s : List ℕ) → length (c_string s) ≤ length s
unfolding c_string
c_string_length [] = omega arith
c_string_length (c ∷ s) = ground (arith, c_string_length s)

skip_blanks_length : (s : List ℕ) → length (skip_blanks s) ≤ length s
unfolding skip_blanks
skip_blanks_length [] = omega arith
skip_blanks_length (c ∷ s) = ground (arith, skip_blanks_length s)

c_string_front : (s : List ℕ) → NoBlankInFront s → NoBlankInFront (c_string s)
unfolding c_string
c_string_front [] h = tt
c_string_front (c ∷ s) h = ground arith

skip_blanks_front : (s : List ℕ) → NoBlankInFront (skip_blanks s)
unfolding skip_blanks
skip_blanks_front [] = tt
skip_blanks_front (c ∷ s) = ground (arith, skip_blanks_front s)

c_string_bound : (s : List ℕ) → length (c_string (s ++ (0 ∷ []))) ≤ length s
unfolding c_string
c_string_bound [] = omega arith
c_string_bound (c ∷ s) = ground (arith, c_string_bound s)

brand_bound : (s : List ℕ) → length (c_string (skip_blanks (s ++ (0 ∷ [])))) ≤ length s
unfolding skip_blanks
brand_bound [] = c_string_bound []
brand_bound (c ∷ s) = elim (Bool-cases (c == b' ')) [
  | inl blank ↦ rw blank (omega (arith, brand_bound s))
  | inr other ↦ rw other (c_string_bound (c ∷ s))
]

-- A text, between the blanks in front of it and its NUL.
c_string-parts :
    (s : List ℕ) → (rest : List ℕ) × (s ++ (0 ∷ []) ≡ c_string (s ++ (0 ∷ [])) ++ (0 ∷ rest))
unfolding c_string
c_string-parts [] = ([], refl)
c_string-parts (c ∷ s) =
    let (rest, same) = c_string-parts s in
    elim (Bool-cases (c == 0)) [
      | inl nul ↦ (s ++ (0 ∷ []), rw nul (ap (λ x. x ∷ s ++ (0 ∷ [])) ((==_iff c 0).0 nul)))
      | inr mark ↦ (rest, rw mark (ap (λ x. c ∷ x) same))
    ]

brand-parts :
    (s : List ℕ)
    → (k : ℕ) × (rest : List ℕ) × (s ++ (0 ∷ [])
        ≡ replicate k b' ' ++ (c_string (skip_blanks (s ++ (0 ∷ []))) ++ (0 ∷ rest)))
unfolding skip_blanks
brand-parts [] = let (rest, same) = c_string-parts [] in (0, rest, same)
brand-parts (c ∷ s) =
    let (k, rest, same) = brand-parts s in
    elim (Bool-cases (c == b' ')) [
      | inl blank ↦ (
        suc k,
        rest,
        rw blank (ap (λ x. x ∷ s ++ (0 ∷ [])) ((==_iff c b' ').0 blank) ∙ ap (λ x. b' ' ∷ x) same),
      )
      | inr mark ↦ let (behind, whole) = c_string-parts (c ∷ s) in (0, behind, rw mark whole)
    ]

-- The 48 bytes of the three leaves of the brand string.
abbrev pub brand_bytes : RawData → List ℕ
brand_bytes raw =
    leaf_bytes (row raw.ext_cpuid 2)
    ++ (leaf_bytes (row raw.ext_cpuid 3) ++ leaf_bytes (row raw.ext_cpuid 4))

-- The brand string of these bytes, behind which a NUL is put: what stands between the blanks in front and
-- the first NUL; at most 48 characters.
pub record IsBrand (raw : RawData) (s : List ℕ) : Type 0 where
  pub short : length s ≤ 48
  pub text : NoNul s
  pub front : NoBlankInFront s
  pub blanks : ℕ
  pub behind : List ℕ
  pub bytes : brand_bytes raw ++ (0 ∷ []) ≡ replicate blanks b' ' ++ (s ++ (0 ∷ behind))

pub brand_text-IsBrand : (raw : RawData) → IsBrand raw (brand_text raw)
unfolding brand_text leaf_bytes bytes_of
brand_text-IsBrand raw = record {
  short = brand_bound (brand_bytes raw);
  text = c_string-NoNul _;
  front = c_string_front _ (skip_blanks_front _);
  blanks = (brand-parts (brand_bytes raw)).0;
  behind = (brand-parts (brand_bytes raw)).1;
  bytes = (brand-parts (brand_bytes raw)).2;
}
