-- ===== src/Detect/System/Errors.antt =====
-- The errors of `cpu_identify_all`.
use mathlib.Core.Sum.{inl-injective, inl-ne-inr}
use libcpuid.Base.{
  ℕ, suc, ◌&&◌, Bool, true, false, List, [], ◌∷◌, Option, none, some, ◌≡◌, ◌⊎◌, inl, inr, refl, sym,
  ap, ◌∙◌, subst, length, map, get_elem?, if◌then◌else◌, Bool-cases, Option-cases, sum-cases,
  some-injective, none-ne-some,
}
use libcpuid.Data.Kinds.{CpuPurpose, CpuError, handle, is_ok}
use libcpuid.Data.Raw.{RawData}
use libcpuid.Util.Cache.{Decoded}
use libcpuid.Detect.Topology.{Topology}
use libcpuid.Detect.System.{
  Detector, CpuType, Scan, SystemId, Progress, goes_on, returns, cpuid_find_index_system_id,
  new_type, grow, find_or_add, call_locate, locate_cpu, increment_counters, identify_cpu,
}
use libcpuid.Detect.System.Run.{
  identify_cpus, first_scan, total_all, RawArray, RawArgument, given, absent, array_of,
  identify_array, Reply, refused, answered, cpu_identify_all,
}
use libcpuid.Recog.Outcome.{followed}

-- Both steps of a chain that ends with a result.
followed-steps {ℓ ℓ'} :
    {A : Type ℓ} {B : Type ℓ'} (o : Option A) (next : A → Option B) (b : B)
    → followed o next ≡ some b
    → (a : A) × (o ≡ some a) × (next a ≡ some b)
unfolding followed
followed-steps none next b e = absurd (none-ne-some _ e)
followed-steps (some a) next b e = (a, refl, e)

-- What a `Progress` is, as a test that keeps apart its two cases.
abbrev Returned {ℓ} : {A : Type ℓ} → CpuError → Progress A → Type 0
Returned r (goes_on a) = ⊥
Returned r (returns e types) = e ≡ r

-- The error of one CPU.
abbrev FailsWith : Detector → CpuError → RawData → Type 0
FailsWith d r raw = (decoded : Decoded) × (d.identify raw ≡ some (r, decoded)) × (is_ok r ≡ false)

-- The end of `find_or_add`, for the result of `cpu_ident_internal`.
abbrev checked : CpuError → List CpuType → ℕ → Progress (ℕ × List CpuType)
checked r types i =
    if is_ok r then goes_on (i, types) else returns r (map (λ (t : CpuType). t.id) types)

abbrev added : (ℕ → Bool) → Bool → Scan → CpuError × Decoded → Option (Progress (ℕ × List CpuType))
added alloc aff scan (r, decoded) =
    followed (grow alloc scan.types (new_type (aff && is_ok r) scan.cur_package_id decoded))
      (λ types. some (checked r types (length scan.types)))

find_or_add-added :
    (d : Detector) (alloc : ℕ → Bool) (aff : Bool) (p : CpuPurpose) (raw : RawData) (scan : Scan)
    → cpuid_find_index_system_id scan.is_topology_supported p scan.cur_package_id scan.types ≡ none
    → find_or_add d alloc aff p raw scan ≡ followed (d.identify raw) (added alloc aff scan)
find_or_add-added d alloc aff p raw scan e = unfold find_or_add in (rw (e, find_or_add) refl)

find_or_add-known :
    (d : Detector) (alloc : ℕ → Bool) (aff : Bool) (p : CpuPurpose) (raw : RawData) (scan : Scan)
    (i : ℕ)
    → cpuid_find_index_system_id scan.is_topology_supported p scan.cur_package_id scan.types
      ≡ some i
    → find_or_add d alloc aff p raw scan ≡ some (goes_on (i, scan.types))
find_or_add-known d alloc aff p raw scan i e = unfold find_or_add in (rw (e, find_or_add) refl)

checked-fails :
    (r' r : CpuError) (types : List CpuType) (i : ℕ)
    → Returned r (checked r' types i)
    → (r' ≡ r) × (is_ok r' ≡ false)
checked-fails r' r types i failed =
    let by : Bool → Type 0 = λ b.
      Returned {A = ℕ × List CpuType} r
        (if b then goes_on (i, types) else returns r' (map (λ (t : CpuType). t.id) types)) in
    elim (Bool-cases (is_ok r')) [
      | inl e ↦ absurd (subst by e failed)
      | inr e ↦ (subst by e failed, e)
    ]

find_or_add-fails :
    (d : Detector) (alloc : ℕ → Bool) (aff : Bool) (p : CpuPurpose) (raw : RawData) (scan : Scan)
    (r : CpuError) (result : Progress (ℕ × List CpuType))
    → find_or_add d alloc aff p raw scan ≡ some result
    → Returned r result
    → FailsWith d r raw
find_or_add-fails d alloc aff p raw scan r result e failed =
    elim (Option-cases
      (cpuid_find_index_system_id scan.is_topology_supported p scan.cur_package_id scan.types)) [
        | inr (i, found) ↦ absurd (
            subst (Returned r)
              (sym
                (some-injective _ _ (sym (find_or_add-known d alloc aff p raw scan i found) ∙ e)))
              failed)
        | inl new ↦
            let ((r', decoded), identified, rest) =
              followed-steps _ (added alloc aff scan) result
                (sym (find_or_add-added d alloc aff p raw scan new) ∙ e) in
            let (types, grown, last) = followed-steps _ _ result rest in
            let (same, bad) =
              checked-fails r' r types (length scan.types)
                (subst (Returned r) (sym (some-injective _ _ last)) failed) in
            (
              decoded,
              subst (λ x. d.identify raw ≡ some (x, decoded)) same identified,
              subst (λ x. is_ok x ≡ false) same bad,
            )
      ]

-- The end of `identify_cpu`.
abbrev counted : Bool → ℕ → Topology → Scan → Progress (ℕ × List CpuType) → Option (Progress Scan)
counted aff cpu topology scan (goes_on found) =
    followed (increment_counters aff cpu topology found scan) (λ scan. some (goes_on scan))
counted aff cpu topology scan (returns r types) = some (returns r types)

counted-fails :
    (aff : Bool) (cpu : ℕ) (topology : Topology) (scan : Scan) (r : CpuError)
    (progress : Progress (ℕ × List CpuType)) (result : Progress Scan)
    → counted aff cpu topology scan progress ≡ some result
    → Returned r result
    → Returned r progress
counted-fails aff cpu topology scan r (goes_on found) result e failed =
    let (scan', run, last) = followed-steps _ _ result e in
    subst (Returned r) (sym (some-injective _ _ last)) failed
counted-fails aff cpu topology scan r (returns r' types) result e failed =
    subst (Returned r) (sym (some-injective _ _ e)) failed

identify_cpu-fails :
    (d : Detector) (alloc : ℕ → Bool) (aff : Bool) (cpu : ℕ) (raw : RawData) (scan : Scan)
    (r : CpuError) (result : Progress Scan)
    → identify_cpu d alloc aff cpu raw scan ≡ some result
    → Returned r result
    → FailsWith d r raw
identify_cpu-fails d alloc aff cpu raw scan r result e failed =
    let opened : identify_cpu d alloc aff cpu raw scan
        ≡ followed (d.purpose raw) (λ p. followed (call_locate d aff cpu raw scan) (λ place.
          followed (find_or_add d alloc aff p raw (locate_cpu aff place scan))
            (counted aff cpu place.1 (locate_cpu aff place scan)))) =
      unfold identify_cpu in refl in
    let (p, purpose, read) = followed-steps _ _ result (sym opened ∙ e) in
    let (place, located, placed) = followed-steps _ _ result read in
    let (progress, found, rest) = followed-steps _ _ result placed in
    let mid = locate_cpu aff place scan in
    find_or_add-fails d alloc aff p raw mid r progress found
      (counted-fails aff cpu place.1 mid r progress result rest failed)

-- The end of one round of the loop.
abbrev continued :
    Detector → (ℕ → Bool) → Bool → ℕ → List RawData → Progress Scan → Option (Progress Scan)
continued d alloc aff cpu raws (goes_on scan) = identify_cpus d alloc aff (suc cpu) raws scan
continued d alloc aff cpu raws (returns r types) = some (returns r types)

-- Some CPU fails with the error.
abbrev SomeFails : Detector → CpuError → List RawData → Type 0
SomeFails d r raws = (k : ℕ) × (raw : RawData) × ((get_elem? raws k ≡ some raw) × FailsWith d r raw)

identify_cpus-fails :
    (d : Detector) (alloc : ℕ → Bool) (aff : Bool) (cpu : ℕ) (raws : List RawData) (scan : Scan)
    (r : CpuError) (result : Progress Scan)
    → identify_cpus d alloc aff cpu raws scan ≡ some result
    → Returned r result
    → SomeFails d r raws
unfolding identify_cpus
identify_cpus-fails d alloc aff cpu [] scan r result e failed =
    absurd (subst (Returned r) (sym (some-injective _ _ e)) failed)
identify_cpus-fails d alloc aff cpu (raw ∷ raws) scan r result e failed =
    let opened : identify_cpus d alloc aff cpu (raw ∷ raws) scan
        ≡ followed (identify_cpu d alloc aff cpu raw scan) (continued d alloc aff cpu raws) =
      refl in
    let (progress, one, rest) = followed-steps _ _ result (sym opened ∙ e) in
    go progress one rest
      (λ scan' e'. identify_cpus-fails d alloc aff (suc cpu) raws scan' r result e' failed)
  where
    go :
        (progress : Progress Scan)
        → identify_cpu d alloc aff cpu raw scan ≡ some progress
        → continued d alloc aff cpu raws progress ≡ some result
        → ((scan' : Scan)
            → identify_cpus d alloc aff (suc cpu) raws scan' ≡ some result
            → SomeFails d r raws)
        → SomeFails d r (raw ∷ raws)
    go (goes_on scan') one rest later =
        let (k, bad, (at, fails)) = later scan' rest in (suc k, bad, (at, fails))
    go (returns r' types) one rest later = (
      0,
      raw,
      (
        refl,
        identify_cpu-fails d alloc aff cpu raw scan r (returns r' types) one
            (subst (Returned r) (sym (some-injective _ _ rest)) failed),
      ),
    )

identify_array-fails :
    (d : Detector) (alloc : ℕ → Bool) (array : RawArray) (r : CpuError) (result : Progress SystemId)
    → identify_array d alloc array ≡ some result
    → Returned r result
    → SomeFails d r array.raw
unfolding identify_array total_all
identify_array-fails d alloc array r result e failed =
    let (progress, run, rest) =
      followed-steps _ (total_all array.with_affinity (length array.raw)) result e in
    identify_cpus-fails d alloc array.with_affinity 0 array.raw first_scan r progress run
      (go progress rest)
  where
    go :
        (progress : Progress Scan)
        → total_all array.with_affinity (length array.raw) progress ≡ some result
        → Returned r progress
    go (goes_on scan) rest =
        let (ids, run, last) = followed-steps _ _ result rest in
        absurd (subst (Returned r) (sym (some-injective _ _ last)) failed)
    go (returns r' types') rest = subst (Returned r) (sym (some-injective _ _ rest)) failed

-- `cpu_identify_all` has returned an error.
abbrev pub IsError : CpuError → Reply → Type 0
IsError r (refused e) = e ≡ r
IsError r (answered (goes_on system)) = ⊥
IsError r (answered (returns e types)) = e ≡ r

IsError-answered :
    (r : CpuError) (result : Progress SystemId) → IsError r (answered result) → Returned r result
IsError-answered r (goes_on system) h = h
IsError-answered r (returns e types) h = h

array_of-inl :
    (argument : RawArgument) (r : CpuError)
    → array_of argument ≡ inl r
    → (array : RawArray) × (argument ≡ absent r array) × (is_ok r ≡ false)
unfolding array_of
array_of-inl (given array) r e = absurd (inl-ne-inr (sym e))
array_of-inl (absent r' array) r e = elim (Bool-cases (is_ok r')) [
  | inl good ↦ absurd (inl-ne-inr (sym (rw good at e)))
  | inr bad ↦
      let same = inl-injective _ _ (rw bad at e) in
      (array, ap (λ x. absent x array) same, subst (λ x. is_ok x ≡ false) same bad)
]

-- An error that cpu_identify_all returns has one of three causes: there is no `system` to fill, and it is
-- ERR_HANDLE; or the caller gives no array, and it is the error of cpuid_get_all_raw_data; or it is the
-- error, not ERR_OK, with which cpu_ident_internal failed for one of the logical CPUs of the array.
pub cpu_identify_all-fails :
    (d : Detector) (alloc : ℕ → Bool) (has_system : Bool) (argument : RawArgument) (r : CpuError)
    (reply : Reply)
    → cpu_identify_all d alloc has_system argument ≡ some reply
    → IsError r reply
    → ((has_system ≡ false) × (r ≡ handle))
      ⊎ (((array : RawArray) × (argument ≡ absent r array) × (is_ok r ≡ false))
          ⊎ ((array : RawArray) × (array_of argument ≡ inr array)
              × ((k : ℕ) × (raw : RawData) × ((get_elem? array.raw k ≡ some raw)
                    × ((decoded : Decoded) × (d.identify raw ≡ some (r, decoded))
                        × (is_ok r ≡ false))))))
unfolding cpu_identify_all
cpu_identify_all-fails d alloc false argument r reply e failed =
    inl (refl, sym (subst (IsError r) (sym (some-injective _ _ e)) failed))
cpu_identify_all-fails d alloc true argument r reply e failed =
    inr (elim (sum-cases (array_of argument)) [
      | inl (r', none_there) ↦
          let reply_is = some-injective _ _ (rw none_there at e) in
          let same : r' ≡ r = subst (IsError r) (sym reply_is) failed in
          inl (array_of-inl argument r (none_there ∙ ap inl same))
      | inr (array, there) ↦
          let (progress, run, last) = followed-steps _ _ reply (rw there at e) in
          inr (
            array,
            there,
            identify_array-fails d alloc array r progress run (
                IsError-answered r progress
                  (subst (IsError r) (sym (some-injective _ _ last)) failed)),
          )
    ])
