-- ===== src/Detect/Topology/Laws.antt =====
-- The parts that `cpu_ident_id_x86` divides an APIC ID into.
use Prim.Native.Nat.{bit_and, bit_xor}
use libcpuid.Base.{
  ℕ, ◌+◌, ◌^◌, ◌≤◌, ◌<◌, Bool, true, false, List, ◌∷◌, some, some-injective, subst, ◌≡◌, refl, ap,
  sym, ◌∙◌, arith, extracts_bits, to_int32,
}
use libcpuid.Data.Raw.{Regs}
use libcpuid.Detect.Topology.{
  Topology, to_uint32, low_mask, high_mask, is_level, core_shift, store_level, store_levels,
  enumerate,
}
use libcpuid.Recog.Outcome.Laws.{followed-some}
use libcpuid.Detect.Topology.Masks.{masks_shares, bit_and-parts}

-- A row of leaf 0Bh for one level of the topology.
pub record IsLevelOf (kind : ℕ) (regs : Regs) : Type 0 where
  pub live : is_level regs ≡ true
  pub type : extracts_bits regs.ecx 15 8 ≡ kind

-- Leaf 0Bh with an SMT level and a core level, whose shifts are in order, and no third level.
pub record IsTwoLevel (smt core third : Regs) : Type 0 where
  pub is_smt : IsLevelOf 1 smt
  pub is_core : IsLevelOf 2 core
  pub ends : is_level third ≡ false
  pub in_order : extracts_bits smt.eax 4 0 ≤ extracts_bits core.eax 4 0
  pub same_id : smt.edx ≡ core.edx
  pub word : core.edx < 2 ^ 32

-- An `int32_t` keeps the pattern that it is made from.
to_uint32-to_int32 : (w : ℕ) → w < 2 ^ 32 → to_uint32 (to_int32 w) ≡ w
to_uint32-to_int32 w h = ground arith

core_shift-two :
    (smt core third : Regs) (rest : List Regs)
    → IsTwoLevel smt core third
    → core_shift (smt ∷ core ∷ third ∷ rest) 0 ≡ some (extracts_bits core.eax 4 0)
unfolding core_shift
core_shift-two smt core third rest h = rw (h.is_smt.live, h.is_core.live, h.ends) refl

-- What the second loop ends with.
store_levels-two :
    (s : ℕ) (smt core third : Regs) (rest : List Regs) (topology : Topology)
    → IsTwoLevel smt core third
    → store_levels s
        (smt ∷ core ∷ third ∷ rest)
        (record { level_type = 0; smt_mask = 0; topology = topology })
      ≡ some (record {
        level_type = 2;
        smt_mask = low_mask (extracts_bits smt.eax 4 0);
        topology = record topology {
          apic_id = to_int32 core.edx;
          smt_id = to_int32 (bit_and smt.edx (low_mask (extracts_bits smt.eax 4 0)));
          core_id =
              to_int32
                (bit_and core.edx (bit_xor (low_mask s) (low_mask (extracts_bits smt.eax 4 0))));
        };
      })
unfolding store_levels store_level
store_levels-two s smt core third rest topology h =
    rw (h.is_smt.live, h.is_core.live, h.ends, h.is_smt.type, h.is_core.type) refl

-- The three IDs hold parts of the APIC ID that add up to it.
pub record IsDivided (apic : ℕ) (t : Topology) : Type 0 where
  pub smt : ℕ
  pub core : ℕ
  pub socket : ℕ
  pub adds_up : smt + core + socket ≡ apic
  pub apic_id : t.apic_id ≡ to_int32 apic
  pub smt_id : t.smt_id ≡ to_int32 smt
  pub core_id : t.core_id ≡ to_int32 core
  pub package_id : t.package_id ≡ to_int32 socket

enumerate-two :
    (smt core third : Regs) (rest : List Regs) (topology : Topology)
    → IsTwoLevel smt core third
    → enumerate (smt ∷ core ∷ third ∷ rest) topology
      ≡ some (
        true,
        record topology {
          apic_id = to_int32 core.edx;
          smt_id = to_int32 (bit_and smt.edx (low_mask (extracts_bits smt.eax 4 0)));
          core_id = to_int32 (
              bit_and core.edx (
                bit_xor
                  (low_mask (extracts_bits core.eax 4 0))
                  (low_mask (extracts_bits smt.eax 4 0))));
          package_id =
              to_int32
                (bit_and (to_uint32 (to_int32 core.edx)) (high_mask (extracts_bits core.eax 4 0)));
        },
      )
unfolding enumerate
enumerate-two smt core third rest topology h =
    let s = extracts_bits core.eax 4 0 in
    followed-some _ s _ _ (core_shift-two smt core third rest h)
      (followed-some _ _ _ _ (store_levels-two s smt core third rest topology h) refl)

-- Where leaf 0Bh has an SMT level and a core level, whose shifts are in order, and ends behind them,
-- `enumerate`, the loops of `cpu_ident_id_x86`, makes no access outside the array and finds the topology,
-- and the SMT, core and package IDs are parts of the APIC ID that add up to it.
pub enumerate-IsDivided :
    (smt core third : Regs) (rest : List Regs) (topology : Topology)
    → IsTwoLevel smt core third
    → (found : Topology) × (enumerate (smt ∷ core ∷ third ∷ rest) topology ≡ some (true, found))
      × IsDivided core.edx found
enumerate-IsDivided smt core third rest topology h =
    let k = extracts_bits smt.eax 4 0 in
    let s = extracts_bits core.eax 4 0 in
    let small : s < 32 = omega arith in
    (
      _,
      enumerate-two smt core third rest topology h,
      record {
        smt = bit_and core.edx (low_mask k);
        core = bit_and core.edx (bit_xor (low_mask s) (low_mask k));
        socket = bit_and core.edx (high_mask s);
        adds_up = bit_and-parts 32 _ _ _ core.edx (masks_shares k s h.in_order small) h.word;
        apic_id = refl;
        smt_id = ap (λ e. to_int32 (bit_and e (low_mask k))) h.same_id;
        core_id = refl;
        package_id =
            ap (λ e. to_int32 (bit_and e (high_mask s))) (to_uint32-to_int32 core.edx h.word);
      },
    )

-- Both CPUs have the same three IDs.
pub record SameIds (t u : Topology) : Type 0 where
  pub smt : t.smt_id ≡ u.smt_id
  pub core : t.core_id ≡ u.core_id
  pub socket : t.package_id ≡ u.package_id

to_int32-injective : (a b : ℕ) → a < 2 ^ 32 → b < 2 ^ 32 → to_int32 a ≡ to_int32 b → a ≡ b
to_int32-injective a b ha hb e =
    sym (to_uint32-to_int32 a ha) ∙ (ap to_uint32 e ∙ to_uint32-to_int32 b hb)

IsDivided-injective :
    (a b : ℕ) (t u : Topology)
    → a < 2 ^ 32
    → b < 2 ^ 32
    → IsDivided a t
    → IsDivided b u
    → SameIds t u
    → a ≡ b
IsDivided-injective a b t u ha hb p q same = omega (
  arith,
  p.adds_up,
  q.adds_up,
  to_int32-injective p.smt q.smt (omega (arith, p.adds_up)) (omega (arith, q.adds_up))
      (sym p.smt_id ∙ (same.smt ∙ q.smt_id)),
  to_int32-injective p.core q.core (omega (arith, p.adds_up)) (omega (arith, q.adds_up))
      (sym p.core_id ∙ (same.core ∙ q.core_id)),
  to_int32-injective p.socket q.socket (omega (arith, p.adds_up)) (omega (arith, q.adds_up))
      (sym p.package_id ∙ (same.socket ∙ q.package_id)),
)

-- Two logical CPUs for which `enumerate` stores the same SMT, core and package ID have the same APIC ID:
-- the three IDs tell all logical CPUs apart.
pub enumerate-injective :
    (smt core third smt' core' third' : Regs) (rest rest' : List Regs) (t u found found' : Topology)
    → IsTwoLevel smt core third
    → IsTwoLevel smt' core' third'
    → enumerate (smt ∷ core ∷ third ∷ rest) t ≡ some (true, found)
    → enumerate (smt' ∷ core' ∷ third' ∷ rest') u ≡ some (true, found')
    → SameIds found found'
    → core.edx ≡ core'.edx
enumerate-injective smt core third smt' core' third' rest rest' t u found found' h h' e e' same =
    let (own, run, divided) = enumerate-IsDivided smt core third rest t h in
    let (own', run', divided') = enumerate-IsDivided smt' core' third' rest' u h' in
    let is_own = ap (λ (r : Bool × Topology). r.1) (some-injective _ _ (sym run ∙ e)) in
    let is_own' = ap (λ (r : Bool × Topology). r.1) (some-injective _ _ (sym run' ∙ e')) in
    IsDivided-injective core.edx core'.edx found found' h.word h'.word
      (subst (λ x. IsDivided core.edx x) is_own divided)
      (subst (λ x. IsDivided core'.edx x) is_own' divided') same
