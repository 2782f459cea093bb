-- ===== src/Detect/System/Found.antt =====
-- The type that `cpu_identify_all` finds or adds for a CPU, and the group that the CPU joins.
use libcpuid.Base.{
  ℕ, suc, ◌<◌, Bool, true, false, List, [], ◌∷◌, ◌++◌, Option, none, some, ◌≡◌, inl, inr, refl, ap,
  sym, ◌∙◌, subst, arith, length, ℤ, Bool-cases, some-injective, none-ne-some,
}
use libcpuid.Data.Kinds.{CpuPurpose}
use libcpuid.Detect.Topology.{Topology}
use libcpuid.Detect.System.{
  CpuType, is_type, cpuid_find_index_system_id, count_cpu, count_at, mask_at,
}
use libcpuid.Detect.System.Groups.{Group, is_group, join}
use libcpuid.Recog.Outcome.{followed}
use libcpuid.Recog.Outcome.Laws.{followed-some}
use libcpuid.Detect.System.Step.{
  InTables, IsTypeOf, Matches, no_types, one_more, count_cpu-IsTypeOf,
}

find-first :
    (sup : Bool) (p : CpuPurpose) (k : ℤ) (t : CpuType) (types : List CpuType)
    → is_type sup p k t ≡ true
    → cpuid_find_index_system_id sup p k (t ∷ types) ≡ some 0
unfolding cpuid_find_index_system_id
find-first sup p k t types e = rw e refl

find-later :
    (sup : Bool) (p : CpuPurpose) (k : ℤ) (t : CpuType) (types : List CpuType)
    → is_type sup p k t ≡ false
    → cpuid_find_index_system_id sup p k (t ∷ types)
      ≡ followed (cpuid_find_index_system_id sup p k types) (λ i. some (suc i))
unfolding cpuid_find_index_system_id
find-later sup p k t types e = rw e refl

-- What was found behind the first type, if something was, and if nothing was.
found_later :
    (o : Option ℕ) (i : ℕ)
    → followed o (λ i. some (suc i)) ≡ some i
    → (j : ℕ) × (o ≡ some j) × (suc j ≡ i)
unfolding followed
found_later none i e = absurd (none-ne-some _ e)
found_later (some j) i e = (j, refl, some-injective _ _ e)

none_later : (o : Option ℕ) → followed o (λ i. some (suc i)) ≡ none → o ≡ none
unfolding followed
none_later none e = refl
none_later (some j) e = absurd (none-ne-some _ (sym e))

count_at-first :
    (sup : Bool) (cpu : ℕ) (topology : Topology) (t t' : CpuType) (types : List CpuType)
    → count_cpu sup cpu topology t ≡ some t'
    → count_at sup cpu topology 0 (t ∷ types) ≡ some (t' ∷ types)
unfolding count_at
count_at-first sup cpu topology t t' types e = followed-some _ t' _ _ e refl

count_at-later :
    (sup : Bool) (cpu : ℕ) (topology : Topology) (i : ℕ) (t : CpuType) (types types' : List CpuType)
    → count_at sup cpu topology i types ≡ some types'
    → count_at sup cpu topology (suc i) (t ∷ types) ≡ some (t ∷ types')
unfolding count_at
count_at-later sup cpu topology i t types types' e = followed-some _ types' _ _ e refl

module _ (Allowed : List ℕ → Type 0) where
  -- Both are the same test.
  is_type-is_group :
      (sup : Bool) (p : CpuPurpose) (k : ℤ) (t : CpuType) (g : Group)
      → IsTypeOf Allowed sup t g
      → is_type sup p k t ≡ is_group sup p k g
  unfolding is_type
  is_type-is_group true p k t g h = rw (h.purpose, h.package_id refl) refl
  is_type-is_group false p k t g h = rw h.purpose refl

  -- Where the search finds a type, that type counts the CPU and its group is the one that it joins.
  pub count_at-hit :
      (sup : Bool) (p : CpuPurpose) (k : ℤ) (cpu : ℕ) (topology : Topology) (types : List CpuType)
      (groups : List Group) (i : ℕ)
      → cpu < 65536
      → ((masks : List ℕ) → Allowed masks → sup ≡ true → InTables topology masks)
      → Matches Allowed sup types groups
      → cpuid_find_index_system_id sup p k types ≡ some i
      → (types' : List CpuType) × (count_at sup cpu topology i types ≡ some types')
        × (Matches Allowed sup types' (join sup p k cpu groups) × Allowed (mask_at i types))
  unfolding cpuid_find_index_system_id
  count_at-hit sup p k cpu topology [] [] i small inside no_types found =
      absurd (none-ne-some _ found)
  count_at-hit sup p k cpu topology [] (g ∷ groups) i small inside m found = elim m [ ]
  count_at-hit sup p k cpu topology (t ∷ types) [] i small inside m found = elim m [ ]
  count_at-hit sup p k cpu topology (t ∷ types) (g ∷ groups) i small inside (one_more h n rest)
        found =
      let same = is_type-is_group sup p k t g h in
      elim (Bool-cases (is_group sup p k g)) [
        | inl e ↦
            let first = some-injective _ _ (sym (find-first sup p k t types (same ∙ e)) ∙ found) in
            let (t', run, kept) =
              count_cpu-IsTypeOf Allowed sup cpu topology t g small (inside t.cache_mask h.allowed)
                h in
            (
              t' ∷ types,
              subst (λ i. count_at sup cpu topology i (t ∷ types) ≡ some (t' ∷ types)) first
                  (count_at-first sup cpu topology t t' types run),
              (
                rw (e, join) (one_more kept.1 (omega arith) rest),
                subst (λ i. Allowed (mask_at i (t ∷ types))) first h.allowed,
              ),
            )
        | inr e ↦
            let (j, found', next) =
              found_later _ i (sym (find-later sup p k t types (same ∙ e)) ∙ found) in
            let (types', run, kept) =
              count_at-hit sup p k cpu topology types groups j small inside rest found' in
            (
              t ∷ types',
              subst (λ i. count_at sup cpu topology i (t ∷ types) ≡ some (t ∷ types')) next
                  (count_at-later sup cpu topology j t types types' run),
              (
                rw (e, join) (one_more h n kept.0),
                subst (λ i. Allowed (mask_at i (t ∷ types))) next kept.1,
              ),
            )
      ]

  -- Where the search finds none, a type that is added behind the others counts the CPU, and so does the
  -- group that the CPU founds.
  pub count_at-miss :
      (sup : Bool) (p : CpuPurpose) (k : ℤ) (cpu : ℕ) (topology : Topology) (types : List CpuType)
      (groups : List Group) (t : CpuType)
      → cpu < 65536
      → ((masks : List ℕ) → Allowed masks → sup ≡ true → InTables topology masks)
      → IsTypeOf Allowed sup t (record { purpose = p; package_id = k; cpus = [] })
      → Matches Allowed sup types groups
      → cpuid_find_index_system_id sup p k types ≡ none
      → (types' : List CpuType) × (count_at sup cpu topology (length types) (types ++ (t ∷ []))
          ≡ some types')
        × (Matches Allowed sup types' (join sup p k cpu groups)
            × (Allowed (mask_at (length types) (types ++ (t ∷ [])))
                × (length (join sup p k cpu groups) ≡ suc (length types))))
  count_at-miss sup p k cpu topology [] [] t small inside fresh no_types found =
      let (t', run, kept) =
        count_cpu-IsTypeOf Allowed sup cpu topology t _ small (inside t.cache_mask fresh.allowed)
          fresh in
      (
        t' ∷ [],
        count_at-first sup cpu topology t t' [] run,
        (one_more kept.1 (omega arith) no_types, (fresh.allowed, refl)),
      )
  count_at-miss sup p k cpu topology [] (g ∷ groups) t small inside fresh m found = elim m [ ]
  count_at-miss sup p k cpu topology (u ∷ types) [] t small inside fresh m found = elim m [ ]
  count_at-miss sup p k cpu topology (u ∷ types) (g ∷ groups) t small inside fresh
        (one_more h n rest) found =
      let same = is_type-is_group sup p k u g h in
      elim (Bool-cases (is_group sup p k g)) [
        | inl e ↦ absurd (none-ne-some _ (sym found ∙ find-first sup p k u types (same ∙ e)))
        | inr e ↦
            let found' = none_later _ (sym (find-later sup p k u types (same ∙ e)) ∙ found) in
            let (types', run, kept) =
              count_at-miss sup p k cpu topology types groups t small inside fresh rest found' in
            (
              u ∷ types',
              count_at-later sup cpu topology (length types) u (types ++ (t ∷ [])) types' run,
              (rw (e, join) (one_more h n kept.0), (kept.1.0, rw (e, join) (ap suc kept.1.1))),
            )
      ]
