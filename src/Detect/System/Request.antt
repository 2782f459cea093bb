-- ===== src/Detect/System/Request.antt =====
-- The CPU that `cpu_request_core_type` describes.
use libcpuid.Base.{
  ℕ, zero, suc, ◌<◌, true, false, List, [], ◌∷◌, Option, none, some, ◌≡◌, ◌⊎◌, inl, inr, refl, sym,
  subst, arith, length, get_elem?, Bool-cases, Option-cases, sum-cases, some-injective,
  none-ne-some,
}
use libcpuid.Data.Kinds.{CpuPurpose, purpose_eq, CpuError, ok, not_found}
use libcpuid.Data.Raw.{RawData}
use libcpuid.Data.CpuId.{CpuId}
use libcpuid.Detect.System.{Detector}
use libcpuid.Detect.System.Run.{
  RawArray, RawArgument, array_of, request_from, cpu_request_core_type,
}
use libcpuid.Recog.Outcome.{followed}

-- A CPU whose purpose is found and is another one.
abbrev pub HasOther : Detector → CpuPurpose → RawData → Type 0
HasOther d purpose raw =
    (found : CpuPurpose) × (d.purpose raw ≡ some found) × (purpose_eq found purpose ≡ false)

-- None of the first `k` CPUs has the purpose.
abbrev pub NoneBefore : Detector → CpuPurpose → List RawData → ℕ → Type 0
NoneBefore d purpose raws k =
    (j : ℕ) (other : RawData) → j < k → get_elem? raws j ≡ some other → HasOther d purpose other

NoneBefore-cons :
    (d : Detector) (purpose : CpuPurpose) (raw : RawData) (raws : List RawData) (k : ℕ)
    → HasOther d purpose raw
    → NoneBefore d purpose raws k
    → NoneBefore d purpose (raw ∷ raws) (suc k)
NoneBefore-cons d purpose raw raws k e h zero other lt at =
    subst (λ (x : RawData). HasOther d purpose x) (some-injective _ _ at) e
NoneBefore-cons d purpose raw raws k e h (suc j) other lt at = h j other (omega arith) at

-- What the loop returns for the first CPU that is not of another purpose: its description with ERR_OK, or
-- nothing where its purpose is not found.
abbrev pub Described : Detector → CpuPurpose → RawData → Option (CpuError × CpuId) → Type 0
Described d purpose raw result =
    ((found : CpuPurpose) × (d.purpose raw ≡ some found)
      × ((purpose_eq found purpose ≡ true)
          × (result ≡ followed (d.identify raw) (λ identified. some (ok, identified.1.id)))))
    ⊎ ((d.purpose raw ≡ none) × (result ≡ none))

-- What it returns for all CPUs.
abbrev pub IsFirst :
    Detector → CpuPurpose → List RawData → CpuId → Option (CpuError × CpuId) → Type 0
IsFirst d purpose raws id result =
    (NoneBefore d purpose raws (length raws) × (result ≡ some (not_found, id)))
    ⊎ ((k : ℕ) × (raw : RawData) × ((get_elem? raws k ≡ some raw)
          × (NoneBefore d purpose raws k × Described d purpose raw result)))

request_from-skip :
    (d : Detector) (purpose : CpuPurpose) (raw : RawData) (raws : List RawData) (id : CpuId)
    → HasOther d purpose raw
    → request_from d purpose (raw ∷ raws) id ≡ request_from d purpose raws id
unfolding request_from followed
request_from-skip d purpose raw raws id (found, read, other) = rw (read, other, request_from) refl

request_from-IsFirst :
    (d : Detector) (purpose : CpuPurpose) (raws : List RawData) (id : CpuId)
    → IsFirst d purpose raws id (request_from d purpose raws id)
unfolding request_from followed
request_from-IsFirst d purpose [] id = inl (λ j other lt at. absurd (none-ne-some _ at), refl)
request_from-IsFirst d purpose (raw ∷ raws) id =
    let no_earlier : NoneBefore d purpose (raw ∷ raws) 0 =
      λ j other lt at. absurd (ground (arith, lt)) in
    elim (Option-cases (d.purpose raw)) [
      | inl unread ↦
          inr (0, raw, (refl, (no_earlier, inr (unread, rw (unread, request_from) refl))))
      | inr (found, read) ↦ elim (Bool-cases (purpose_eq found purpose)) [
        | inl e ↦
            inr (
              0,
              raw,
              (refl, (no_earlier, inl (found, read, (e, rw (read, e, request_from) refl)))),
            )
        | inr e ↦
            let other : HasOther d purpose raw = (found, read, e) in
            subst (IsFirst d purpose (raw ∷ raws) id)
              (sym (request_from-skip d purpose raw raws id other))
              (later other (request_from d purpose raws id)
                (request_from-IsFirst d purpose raws id))
      ]
    ]
  where
    later :
        HasOther d purpose raw
        → (result : Option (CpuError × CpuId)) → IsFirst d purpose raws id result
        → IsFirst d purpose (raw ∷ raws) id result
    later other result (inl (none_of, run)) =
        inl (NoneBefore-cons d purpose raw raws (length raws) other none_of, run)
    later other result (inr (k, found, (at, (earlier, described)))) =
        inr (suc k, found, (at, (NoneBefore-cons d purpose raw raws k other earlier, described)))

-- Without an array, cpu_request_core_type returns the error of cpuid_get_all_raw_data and leaves the
-- description as it was. Else it describes the first CPU of the purpose with ERR_OK, whatever error
-- cpu_ident_internal gives; where no CPU has the purpose it returns ERR_NOT_FOUND and leaves the description
-- as it was; and where the purpose of a CPU in front of those is read outside an array it does not return.
pub cpu_request_core_type-IsFirst :
    (d : Detector) (purpose : CpuPurpose) (argument : RawArgument) (id : CpuId)
    → ((r : CpuError) × (array_of argument ≡ inl r)
        × (cpu_request_core_type d purpose argument id ≡ some (r, id)))
      ⊎ ((array : RawArray) × (array_of argument ≡ inr array)
          × IsFirst d purpose array.raw id (cpu_request_core_type d purpose argument id))
unfolding cpu_request_core_type
cpu_request_core_type-IsFirst d purpose argument id = elim (sum-cases (array_of argument)) [
  | inl (r, missing) ↦ inl (r, missing, rw (missing, cpu_request_core_type) refl)
  | inr (array, there) ↦ inr (
    array,
    there,
    rw (there, cpu_request_core_type) (request_from-IsFirst d purpose array.raw id),
  )
]
