-- ===== src/Detect/System/Loop.antt =====
-- The state of the loop of `cpu_identify_all` and the groups, for one CPU and for all.
use libcpuid.Base.{
  ℕ, suc, ◌+◌, ◌<◌, ◌≤◌, Bool, true, ◌&&◌, List, [], ◌∷◌, some, ◌≡◌, inl, inr, refl, ap, sym, ◌∙◌,
  subst, arith, length, if◌then◌else◌, ℤ, Bool-cases, Option-cases, some-injective, replicate,
}
use libcpuid.Data.Kinds.{CpuPurpose}
use libcpuid.Data.Raw.{RawData}
use libcpuid.Data.CpuId.{mask_setsize}
use libcpuid.Util.Affinity.{get_affinity_mask_bit, init_affinity_mask}
use libcpuid.Util.Affinity.Laws.{IsMask, init_affinity_mask-empty}
use libcpuid.Util.Cache.{Decoded}
use libcpuid.Detect.Topology.{Topology}
use libcpuid.Detect.System.{
  Detector, CpuType, Scan, goes_on, cpuid_find_index_system_id, new_type, locate_cpu, find_or_add,
  count_at, mask_at, identify_cpu, call_locate, unplaced,
}
use libcpuid.Detect.System.Run.{identify_cpus}
use libcpuid.Detect.System.Groups.{
  Group, Grouping, value_or, purpose_of, seen, place, place_all, length-place_all,
}
use libcpuid.Detect.System.Step.{AllInside, InTables, IsTypeOf, Matches, no_types, one_more}
use libcpuid.Detect.System.Found.{count_at-hit, count_at-miss}
use libcpuid.Detect.System.Laws.{
  IsGood, AllGood, find_or_add-hit, find_or_add-new, increment_counters-some, identify_cpu-some,
}
use libcpuid.Recog.Outcome.Laws.{followed-some}

module _ (Allowed : List ℕ → Type 0) where
  pub record IsRelated (scan : Scan) (g : Grouping) : Type 0 where
    pub located : scan.is_topology_supported ≡ g.located
    pub package_id : scan.cur_package_id ≡ g.package_id
    pub matches : Matches Allowed g.located scan.types g.groups

  -- Without a topology less is asked of a type.
  and_first : (a b : Bool) → (a && b) ≡ true → a ≡ true
  and_first a b h = ground arith

  IsTypeOf-and :
      (sup b : Bool) (t : CpuType) (g : Group)
      → IsTypeOf Allowed sup t g
      → IsTypeOf Allowed (sup && b) t g
  IsTypeOf-and sup b t g h = record {
    purpose = h.purpose;
    package_id = λ e. h.package_id (and_first sup b e);
    mask = h.mask;
    bits = h.bits;
    number = h.number;
    allowed = h.allowed;
  }

  Matches-and :
      (sup b : Bool) (types : List CpuType) (groups : List Group)
      → Matches Allowed sup types groups
      → Matches Allowed (sup && b) types groups
  Matches-and sup b [] [] no_types = no_types
  Matches-and sup b [] (g ∷ groups) m = elim m [ ]
  Matches-and sup b (t ∷ types) [] m = elim m [ ]
  Matches-and sup b (t ∷ types) (g ∷ groups) (one_more h n rest) =
      one_more (IsTypeOf-and sup b t g h) n (Matches-and sup b types groups rest)

  length-Matches :
      (sup : Bool) (types : List CpuType) (groups : List Group)
      → Matches Allowed sup types groups
      → length types ≡ length groups
  length-Matches sup [] [] no_types = refl
  length-Matches sup [] (g ∷ groups) m = elim m [ ]
  length-Matches sup (t ∷ types) [] m = elim m [ ]
  length-Matches sup (t ∷ types) (g ∷ groups) (one_more h n rest) =
      ap suc (length-Matches sup types groups rest)

  -- `cpu_ident_id` updates the two variables as `place` does.
  abbrev located_at : Detector → ℕ → RawData → Grouping → Bool
  located_at d cpu raw g = g.located && (seen d g.located cpu raw).0

  abbrev package_at : Detector → ℕ → RawData → Grouping → ℤ
  package_at d cpu raw g =
      if located_at d cpu raw g then (seen d g.located cpu raw).1.package_id else g.package_id

  abbrev IsLocated : Detector → ℕ → RawData → Scan → Grouping → Scan → Type 0
  IsLocated d cpu raw scan g scan' =
      (scan'.is_topology_supported ≡ located_at d cpu raw g)
      × ((scan'.cur_package_id ≡ package_at d cpu raw g) × (scan'.types ≡ scan.types))

  locate_cpu-IsLocated :
      (d : Detector) (cpu : ℕ) (raw : RawData) (scan : Scan) (g : Grouping)
      → IsRelated scan g
      → IsLocated d cpu raw scan g (locate_cpu true (seen d g.located cpu raw) scan)
  unfolding locate_cpu
  locate_cpu-IsLocated d cpu raw scan g r = elim (Bool-cases g.located) [
    | inl e ↦ elim (Bool-cases (value_or (unplaced cpu) (d.locate cpu raw)).0) [
      | inl f ↦ rw (r.located, e, f) (refl, (refl, refl))
      | inr f ↦ rw (r.located, e, f) (refl, (r.package_id, refl))
    ]
    | inr e ↦ rw (r.located, e) (refl, (r.package_id, refl))
  ]

  -- A new type before it counts its first CPU.
  new_type-IsTypeOf :
      (sup : Bool) (p : CpuPurpose) (k k' : ℤ) (decoded : Decoded)
      → decoded.id.purpose ≡ p
      → decoded.id.affinity_mask ≡ replicate mask_setsize 0
      → Allowed decoded.cache_mask
      → k' ≡ k
      → IsTypeOf Allowed sup
          (new_type true k' decoded)
          (record { purpose = p; package_id = k; cpus = [] })
  unfolding new_type
  new_type-IsTypeOf sup p k k' decoded purpose empty allowed same =
      let (mask, bits) = init_affinity_mask-empty decoded.id.affinity_mask in
      let cleared : init_affinity_mask decoded.id.affinity_mask ≡ decoded.id.affinity_mask =
        unfold init_affinity_mask in (sym empty) in
      record {
        purpose = purpose;
        package_id = λ e. same;
        mask = subst (λ m. IsMask m) cleared mask;
        bits = λ cpu. ap (get_affinity_mask_bit cpu) (sym cleared) ∙ bits cpu;
        number = refl;
        allowed = allowed;
      }

  -- What follows once the type is found or added.
  counted-IsRelated :
      (d : Detector) (alloc : ℕ → Bool) (cpu : ℕ) (raw : RawData) (scan : Scan) (g : Grouping)
      (i : ℕ) (types types' : List CpuType)
      → d.purpose raw ≡ some (purpose_of d raw)
      → call_locate d true cpu raw scan ≡ some (seen d g.located cpu raw)
      → IsLocated d cpu raw scan g (locate_cpu true (seen d g.located cpu raw) scan)
      → (located_at d cpu raw g ≡ true → AllInside (seen d g.located cpu raw).1 (mask_at i types))
      → find_or_add d alloc true
          (purpose_of d raw)
          raw
          (locate_cpu true (seen d g.located cpu raw) scan)
        ≡ some (goes_on (i, types))
      → count_at (located_at d cpu raw g) cpu (seen d g.located cpu raw).1 i types ≡ some types'
      → Matches Allowed (located_at d cpu raw g) types' (place d cpu raw g).groups
      → (scan' : Scan) × (identify_cpu d alloc true cpu raw scan ≡ some (goes_on scan'))
        × IsRelated scan' (place d cpu raw g)
  counted-IsRelated d alloc cpu raw scan g i types types' pur loc (sup, (pack, same)) inside found
        run matches =
      let top = (seen d g.located cpu raw).1 in
      let mid = locate_cpu true (seen d g.located cpu raw) scan in
      let (scan', counted, kept) =
        increment_counters-some cpu top i types types' mid
          (ap (λ b. count_at b cpu top i types) sup ∙ run) (λ e. inside (sym sup ∙ e)) in
      (
        scan',
        identify_cpu-some d alloc cpu (purpose_of d raw) (seen d g.located cpu raw) raw scan scan' i
            types pur loc found counted,
        record {
          located = kept.1.0 ∙ sup;
          package_id = kept.1.1 ∙ pack;
          matches =
              subst (λ ts. Matches Allowed (located_at d cpu raw g) ts (place d cpu raw g).groups)
                (sym kept.0) matches;
        },
      )

  and_second : (a b : Bool) → (a && b) ≡ true → b ≡ true
  and_second a b h = ground arith

  -- What the detector says of a CPU that can be identified.
  purpose_of-some :
      (d : Detector) (cpu : ℕ) (raw : RawData)
      → IsGood d Allowed cpu raw
      → d.purpose raw ≡ some (purpose_of d raw)
  purpose_of-some d cpu raw good = rw good.purpose refl

  call_locate-seen :
      (d : Detector) (cpu : ℕ) (raw : RawData) (scan : Scan) (g : Grouping)
      → IsGood d Allowed cpu raw
      → scan.is_topology_supported ≡ g.located
      → call_locate d true cpu raw scan ≡ some (seen d g.located cpu raw)
  unfolding call_locate
  call_locate-seen d cpu raw scan g good same = elim (Bool-cases g.located) [
    | inl e ↦ rw (same, e, good.place) refl
    | inr e ↦ rw (same, e) refl
  ]

  seen-InTables :
      (d : Detector) (cpu : ℕ) (raw : RawData) (g : Grouping)
      → IsGood d Allowed cpu raw
      → (masks : List ℕ) → Allowed masks
      → located_at d cpu raw g ≡ true
      → InTables (seen d g.located cpu raw).1 masks
  seen-InTables d cpu raw g good masks a e =
      let is_seen : seen d g.located cpu raw ≡ good.located =
        rw (and_first g.located _ e, good.place) refl in
      subst (λ (x : Bool × Topology). InTables x.1 masks) (sym is_seen)
        (good.inside masks a
          (ap (λ (x : Bool × Topology). x.0) (sym is_seen) ∙ and_second g.located _ e))

  -- One CPU.
  pub identify_cpu-IsRelated :
      (d : Detector) (alloc : ℕ → Bool) (cpu : ℕ) (raw : RawData) (scan : Scan) (g : Grouping)
      → ((i : ℕ) → alloc i ≡ true)
      → cpu < 65536
      → IsGood d Allowed cpu raw
      → length (place d cpu raw g).groups ≤ 255
      → IsRelated scan g
      → (scan' : Scan) × (identify_cpu d alloc true cpu raw scan ≡ some (goes_on scan'))
        × IsRelated scan' (place d cpu raw g)
  identify_cpu-IsRelated d alloc cpu raw scan g memory small good few r =
      let mid = locate_cpu true (seen d g.located cpu raw) scan in
      let located = locate_cpu-IsLocated d cpu raw scan g r in
      let at = located_at d cpu raw g in
      let k = package_at d cpu raw g in
      let p = purpose_of d raw in
      let top = (seen d g.located cpu raw).1 in
      let matches : Matches Allowed at mid.types g.groups =
        subst (λ ts. Matches Allowed at ts g.groups) (sym located.1.1)
          (Matches-and g.located (seen d g.located cpu raw).0 scan.types g.groups r.matches) in
      let inside : (masks : List ℕ) → Allowed masks → at ≡ true → InTables top masks =
        seen-InTables d cpu raw g good in
      let pur = purpose_of-some d cpu raw good in
      let loc = call_locate-seen d cpu raw scan g good r.located in
      let same =
        ap (λ b. cpuid_find_index_system_id b p mid.cur_package_id mid.types) located.0
        ∙ ap (λ c. cpuid_find_index_system_id at p c mid.types) located.1.0 in
      elim (Option-cases (cpuid_find_index_system_id at p k mid.types)) [
        | inr (i, found) ↦
            let (types', run, kept) =
              count_at-hit Allowed at p k cpu top mid.types g.groups i small inside matches found in
            counted-IsRelated d alloc cpu raw scan g i mid.types types' pur loc located
              (λ e. (inside _ kept.1 e).1) (find_or_add-hit d alloc p raw mid i (same ∙ found)) run
              kept.0
        | inl found ↦
            let t = new_type true mid.cur_package_id good.decoded in
            let fresh =
              new_type-IsTypeOf at p k mid.cur_package_id good.decoded
                (sym (some-injective _ _ (sym pur ∙ good.purpose))) good.empty good.allowed
                located.1.0 in
            let (types', run, kept) =
              count_at-miss Allowed at p k cpu top mid.types g.groups t small inside fresh matches
                found in
            counted-IsRelated d alloc cpu raw scan g (length mid.types) _ types' pur loc located
              (λ e. (inside _ kept.1.0 e).1)
              (find_or_add-new d alloc p raw mid good.decoded (same ∙ found) good.identified memory
                (omega (arith, few, kept.1.1)))
              run kept.0
      ]

  -- All of them.
  pub identify_cpus-IsRelated :
      (d : Detector) (alloc : ℕ → Bool) (cpu : ℕ) (raws : List RawData) (scan : Scan) (g : Grouping)
      → ((i : ℕ) → alloc i ≡ true)
      → cpu + length raws ≤ 65536
      → AllGood d Allowed cpu raws
      → length (place_all d cpu raws g).groups ≤ 255
      → IsRelated scan g
      → (scan' : Scan) × (identify_cpus d alloc true cpu raws scan ≡ some (goes_on scan'))
        × IsRelated scan' (place_all d cpu raws g)
  unfolding identify_cpus
  identify_cpus-IsRelated d alloc cpu [] scan g memory small good few r = (scan, refl, r)
  identify_cpus-IsRelated d alloc cpu (raw ∷ raws) scan g memory small good few r =
      let (next, one, r') =
        identify_cpu-IsRelated d alloc cpu raw scan g memory (omega arith) good.0
          (omega (arith, few, length-place_all d (suc cpu) raws (place d cpu raw g))) r in
      let (scan', rest, r'') =
        identify_cpus-IsRelated d alloc (suc cpu) raws next (place d cpu raw g) memory (omega arith)
          good.1 few r' in
      (scan', followed-some _ (goes_on next) _ _ one rest, r'')
