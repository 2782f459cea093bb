-- ===== src/Detect/System/Groups.antt =====
-- What `cpu_identify_all` is for: the logical CPUs in groups of the same purpose and, as long as the
-- topology is known, of the same package.
use libcpuid.Base.{
  ℕ, suc, ◌+◌, ◌≤◌, Bool, true, false, ◌&&◌, ◌||◌, List, [], ◌∷◌, Option, none, some, ◌≡◌, refl, ap,
  sym, ◌∙◌, ==_iff, arith, length, ltb, ◌==◌, if◌then◌else◌, ℤ, pos, int_eq, Bool-cases, inl, inr,
}
use libcpuid.Data.Kinds.{CpuPurpose, general, purpose_eq}
use libcpuid.Data.Raw.{RawData}
use libcpuid.Detect.Instances.Count.{occurs}
use libcpuid.Detect.Topology.{Topology}
use libcpuid.Detect.System.{Detector, unplaced}

pub record Group : Type 0 where
  pub purpose : CpuPurpose
  pub package_id : ℤ
  pub cpus : List ℕ

abbrev pub is_group : Bool → CpuPurpose → ℤ → Group → Bool
is_group located purpose package_id g =
    purpose_eq g.purpose purpose && (if located then int_eq g.package_id package_id else true)

-- A CPU joins the first group that it fits, or founds a new one behind the others.
abbrev pub join : Bool → CpuPurpose → ℤ → ℕ → List Group → List Group
join located purpose package_id cpu [] =
    record { purpose = purpose; package_id = package_id; cpus = cpu ∷ [] } ∷ []
join located purpose package_id cpu (g ∷ groups) =
    let rest = join located purpose package_id cpu groups in
    if is_group located purpose package_id g
    then record g { cpus = cpu ∷ g.cpus } ∷ groups
    else g ∷ rest

-- The groups, and whether all CPUs so far could be located, with the package of the last one.
pub record Grouping : Type 0 where
  pub groups : List Group
  pub located : Bool
  pub package_id : ℤ

-- What the detector says of a CPU, where it can say it, and where the CPU stands, as long as all CPUs so
-- far could be located.
abbrev pub value_or {ℓ} : {A : Type ℓ} → A → Option A → A
value_or a none = a
value_or a (some b) = b

abbrev pub purpose_of : Detector → RawData → CpuPurpose
purpose_of d raw = value_or general (d.purpose raw)

abbrev pub seen : Detector → Bool → ℕ → RawData → Bool × Topology
seen d located cpu raw =
    if located then value_or (unplaced cpu) (d.locate cpu raw) else unplaced cpu

abbrev pub place : Detector → ℕ → RawData → Grouping → Grouping
place d cpu raw g =
    let located = g.located && (seen d g.located cpu raw).0 in
    let package_id = if located then (seen d g.located cpu raw).1.package_id else g.package_id in
    record {
      groups = join located (purpose_of d raw) package_id cpu g.groups;
      located = located;
      package_id = package_id;
    }

abbrev pub place_all : Detector → ℕ → List RawData → Grouping → Grouping
place_all d cpu [] g = g
place_all d cpu (raw ∷ raws) g = place_all d (suc cpu) raws (place d cpu raw g)

abbrev pub no_groups : Grouping
no_groups = record { groups = []; located = true; package_id = pos 0 }

-- The groups of a whole system.
abbrev pub group_all : Detector → List RawData → List Group
group_all d raws = (place_all d 0 raws no_groups).groups

-- How many groups a CPU is in, and how many members all groups have.
abbrev pub groups_of : ℕ → List Group → ℕ
groups_of cpu [] = 0
groups_of cpu (g ∷ groups) = (if occurs cpu g.cpus then 1 else 0) + groups_of cpu groups

abbrev pub members : List Group → ℕ
members [] = 0
members (g ∷ groups) = length g.cpus + members groups

pub members-join :
    (l : Bool) (p : CpuPurpose) (k : ℤ) (cpu : ℕ) (groups : List Group)
    → members (join l p k cpu groups) ≡ suc (members groups)
members-join l p k cpu [] = refl
members-join l p k cpu (g ∷ groups) = elim (Bool-cases (is_group l p k g)) [
  | inl e ↦ rw (e, join) (omega arith)
  | inr e ↦ rw (e, join) (omega (arith, members-join l p k cpu groups))
]

-- The CPU that joins, and no other, is in one group more.
joined_here :
    (c o : Bool) (n : ℕ)
    → (c ≡ true → (if o then 1 else 0) + n ≡ 0)
    → (if c || o then 1 else 0) + n ≡ (if c then 1 else (if o then 1 else 0) + n)
joined_here true o n h = ground (arith, h refl)
joined_here false o n h = refl

joined_later :
    (c o : Bool) (n n' : ℕ)
    → (c ≡ true → (if o then 1 else 0) + n ≡ 0)
    → n' ≡ (if c then 1 else n)
    → (if o then 1 else 0) + n' ≡ (if c then 1 else (if o then 1 else 0) + n)
joined_later true o n n' h e = ground (arith, h refl, e)
joined_later false o n n' h e = ground (arith, e)

same_zero :
    (cpu other : ℕ) (groups : List Group)
    → groups_of cpu groups ≡ 0
    → (cpu == other) ≡ true
    → groups_of other groups ≡ 0
same_zero cpu other groups h e = ap (λ n. groups_of n groups) (sym ((==_iff cpu other).0 e)) ∙ h

pub groups_of-join :
    (l : Bool) (p : CpuPurpose) (k : ℤ) (cpu other : ℕ) (groups : List Group)
    → groups_of cpu groups ≡ 0
    → groups_of other (join l p k cpu groups) ≡ (if cpu == other then 1 else groups_of other groups)
groups_of-join l p k cpu other [] none_of = ground arith
groups_of-join l p k cpu other (g ∷ groups) none_of = elim (Bool-cases (is_group l p k g)) [
  | inl e ↦
      rw (e, join)
        (joined_here (cpu == other) (occurs other g.cpus) (groups_of other groups)
          (same_zero cpu other (g ∷ groups) none_of))
  | inr e ↦
      rw (e, join)
        (joined_later (cpu == other) (occurs other g.cpus) (groups_of other groups) _
          (same_zero cpu other (g ∷ groups) none_of)
          (groups_of-join l p k cpu other groups (omega (arith, none_of))))
]

pub length-join :
    (l : Bool) (p : CpuPurpose) (k : ℤ) (cpu : ℕ) (groups : List Group)
    → length groups ≤ length (join l p k cpu groups)
length-join l p k cpu [] = omega arith
length-join l p k cpu (g ∷ groups) = elim (Bool-cases (is_group l p k g)) [
  | inl e ↦ rw (e, join) (omega arith)
  | inr e ↦ rw (e, join) (omega (arith, length-join l p k cpu groups))
]

pub length-place_all :
    (d : Detector) (cpu : ℕ) (raws : List RawData) (g : Grouping)
    → length g.groups ≤ length (place_all d cpu raws g).groups
length-place_all d cpu [] g = omega arith
length-place_all d cpu (raw ∷ raws) g =
    let located = g.located && (seen d g.located cpu raw).0 in
    let package_id = if located then (seen d g.located cpu raw).1.package_id else g.package_id in
    omega (
      arith,
      length-join located (purpose_of d raw) package_id cpu g.groups,
      length-place_all d (suc cpu) raws (place d cpu raw g),
    )

-- Of the CPUs that are placed every one is in one group, and no other CPU is in a group.
pub groups_of-place_all :
    (d : Detector) (cpu : ℕ) (raws : List RawData) (g : Grouping)
    → ((other : ℕ) → groups_of other g.groups ≡ (if ltb other cpu then 1 else 0))
    → (other : ℕ)
    → groups_of other (place_all d cpu raws g).groups
      ≡ (if ltb other (cpu + length raws) then 1 else 0)
groups_of-place_all d cpu [] g h other = ground (arith, h other)
groups_of-place_all d cpu (raw ∷ raws) g h other =
    let located = g.located && (seen d g.located cpu raw).0 in
    let package_id = if located then (seen d g.located cpu raw).1.package_id else g.package_id in
    ground (
      arith,
      groups_of-place_all d (suc cpu) raws (place d cpu raw g)
          (λ o. ground (
            arith,
            h o,
            groups_of-join located (purpose_of d raw) package_id cpu o g.groups
                (ground (arith, h cpu)),
          ))
          other,
    )

pub members-place_all :
    (d : Detector) (cpu : ℕ) (raws : List RawData) (g : Grouping)
    → members (place_all d cpu raws g).groups ≡ members g.groups + length raws
members-place_all d cpu [] g = omega arith
members-place_all d cpu (raw ∷ raws) g =
    let located = g.located && (seen d g.located cpu raw).0 in
    let package_id = if located then (seen d g.located cpu raw).1.package_id else g.package_id in
    omega (
      arith,
      members-join located (purpose_of d raw) package_id cpu g.groups,
      members-place_all d (suc cpu) raws (place d cpu raw g),
    )

length-join_bound :
    (l : Bool) (p : CpuPurpose) (k : ℤ) (cpu : ℕ) (groups : List Group)
    → length (join l p k cpu groups) ≤ suc (length groups)
length-join_bound l p k cpu [] = omega arith
length-join_bound l p k cpu (g ∷ groups) = elim (Bool-cases (is_group l p k g)) [
  | inl e ↦ rw (e, join) (omega arith)
  | inr e ↦ rw (e, join) (omega (arith, length-join_bound l p k cpu groups))
]

-- There are at most as many groups as CPUs.
pub length-place_all_bound :
    (d : Detector) (cpu : ℕ) (raws : List RawData) (g : Grouping)
    → length (place_all d cpu raws g).groups ≤ length g.groups + length raws
length-place_all_bound d cpu [] g = omega arith
length-place_all_bound d cpu (raw ∷ raws) g =
    let located = g.located && (seen d g.located cpu raw).0 in
    let package_id = if located then (seen d g.located cpu raw).1.package_id else g.package_id in
    omega (
      arith,
      length-join_bound located (purpose_of d raw) package_id cpu g.groups,
      length-place_all_bound d (suc cpu) raws (place d cpu raw g),
    )
