-- ===== src/Recog/Intel/Topology/Laws.antt =====
-- Which core counts `decode_intel_extended_topology` stores.
use libcpuid.Base.{
  ℕ, suc, ◌*◌, ◌/◌, ◌≤◌, ◌<◌, Bool, true, false, ◌&&◌, not, List, ◌∷◌, Option, none, some, ◌≡◌, ◌≢◌,
  refl, ap, ◌∙◌, arith, ◌==◌, if◌then◌else◌, extracts_bits, pos, minus_one, Bool-cases, inl, inr,
}
use libcpuid.Data.Raw.{Regs, RawData}
use libcpuid.Data.CpuId.{CpuId}
use libcpuid.Recog.Intel.Topology.{
  count_level, count_levels, store_counts, store_known, decode_intel_extended_topology,
}

div_mod : (n d : ℕ) → 0 < d → (n / d * d ≤ n) × (n < suc (n / d) * d)
div_mod n d h = (grind arith, grind arith)

-- Leaf 0Bh with one row of each level, and a row behind them that ends it.
pub record CountsOf (raw : RawData) (n m : ℕ) : Type 0 where
  pub smt : Regs
  pub core : Regs
  pub third : Regs
  pub rest : List Regs
  pub rows : raw.intel_fn11 ≡ smt ∷ core ∷ third ∷ rest
  pub smt_live : (not (smt.eax == 0) && not (smt.ebx == 0)) ≡ true
  pub core_live : (not (core.eax == 0) && not (core.ebx == 0)) ≡ true
  pub ends : (not (third.eax == 0) && not (third.ebx == 0)) ≡ false
  pub smt_type : extracts_bits smt.ecx 15 8 ≡ 1
  pub core_type : extracts_bits core.ecx 15 8 ≡ 2
  pub smt_count : extracts_bits smt.ebx 15 0 ≡ n
  pub core_count : extracts_bits core.ebx 15 0 ≡ m

count_levels-two :
    (raw : RawData) (n m : ℕ) (h : CountsOf raw n m)
    → count_levels raw.intel_fn11 (record { num_smt = minus_one; num_core = minus_one })
      ≡ record { num_smt = pos n; num_core = pos m }
unfolding count_levels count_level
count_levels-two raw n m h =
    rw (h.rows, h.smt_live, h.core_live, h.ends, h.smt_type, h.core_type, h.smt_count, h.core_count)
      refl

-- The number of cores that is stored for `n` threads of a core and `m` logical CPUs.
pub record HasCounts (n m : ℕ) (after : CpuId) : Type 0 where
  pub cores : ℕ
  pub stored : after.num_cores ≡ pos cores
  pub logical : after.num_logical_cpus ≡ pos m
  pub some_core : 0 < cores
  pub fits : n ≤ m → cores * n ≤ m
  pub covers : m < suc cores * n

store_counts-HasCounts :
    (n m : ℕ) (id : CpuId)
    → n ≢ 0
    → (after : CpuId) × (store_counts n m id ≡ some after) × HasCounts n m after
unfolding store_counts
store_counts-HasCounts n m id ne =
    let (low, high) = div_mod m n (omega arith) in
    let q = m / n in
    (
      record id { num_logical_cpus = pos m; num_cores = pos (if q == 0 then 1 else q) },
      ground arith,
      elim (Bool-cases (q == 0)) [
        | inl none_left ↦ record {
          cores = 1;
          stored = rw none_left refl;
          logical = refl;
          some_core = omega arith;
          fits = λ h. omega arith;
          covers = grind arith;
        }
        | inr left ↦ record {
          cores = q;
          stored = rw left refl;
          logical = refl;
          some_core = ground arith;
          fits = λ h. low;
          covers = high;
        }
      ],
    )

-- The result with its 1.
abbrev found : Option CpuId → Option (Bool × CpuId)
found none = none
found (some after) = some (true, after)

store_known-found :
    (n m : ℕ) (id : CpuId) (r : Option CpuId)
    → store_counts n m id ≡ r
    → store_known (pos n) (pos m) id ≡ found r
unfolding store_known
store_known-found n m id r e =
    ap (λ (o : Option CpuId). elim o [ none ↦ none | some stored ↦ some (true, stored) ]) e ∙ same r
  where
    same :
        (r : Option CpuId) → (elim r [ none ↦ none | some stored ↦ some (true, stored) ]) ≡ found r
    same none = refl
    same (some after) = refl

-- Where leaf 0Bh counts `n` logical CPUs of a core and `m` of the package, with `n` not 0,
-- `decode_intel_extended_topology` returns 1 and stores `m` logical CPUs and at least one core: as many
-- cores of `n` CPUs as `m` has room for. With `n` equal to 0 it divides by zero.
pub decode_intel_extended_topology-HasCounts :
    (raw : RawData) (id : CpuId) (n m : ℕ)
    → CountsOf raw n m
    → (n ≢ 0
        → (after : CpuId) × (decode_intel_extended_topology raw id ≡ some (true, after))
          × HasCounts n m after)
      × (n ≡ 0 → decode_intel_extended_topology raw id ≡ none)
unfolding decode_intel_extended_topology
decode_intel_extended_topology-HasCounts raw id n m h = (
  λ ne.
      (let (after, stored, counts) = store_counts-HasCounts n m id ne in
        (
          after,
          rw (count_levels-two raw n m h) (store_known-found n m id (some after) stored),
          counts,
        )),
  λ e.
      let divided : store_counts n m id ≡ none = rw e (unfold store_counts in refl) in
      rw (count_levels-two raw n m h) (store_known-found n m id none divided),
)
