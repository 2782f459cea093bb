-- ===== src/Recog/Intel/Sgx/Laws.antt =====
-- What is decoded of the EPC sections.
use libcpuid.Base.{
  ℕ, zero, suc, ◌+◌, ◌%◌, ◌^◌, ◌≤◌, ◌<◌, false, ◌||◌, ◌==◌, ltb, ◌≡◌, ◌≢◌, ◌⊎◌, inl, inr, refl, ap,
  arith, pos, Bool-cases, ==_iff,
}
use libcpuid.Data.Raw.{Regs, RawData, row}
use libcpuid.Data.CpuId.{CpuId}
use libcpuid.Recog.Intel.Sgx.{
  Epc, decode_epc, cpuid_get_epc, count_epc, max_epc, decode_sgx, decode_intel_sgx_features,
}

-- A section begins and ends at a page of 4096 bytes, and its address and size have at most 52 bits.
pub record IsSection (e : Epc) : Type 0 where
  pub start_page : e.start_addr % 2 ^ 12 ≡ 0
  pub whole_pages : e.length % 2 ^ 12 ≡ 0
  pub address : e.start_addr < 2 ^ 52
  pub size : e.length < 2 ^ 52

decode_epc-IsSection : (regs : Regs) → IsSection (decode_epc regs)
unfolding decode_epc
decode_epc-IsSection regs = record {
  start_page = ground arith;
  whole_pages = ground arith;
  address = ground arith;
  size = ground arith;
}

-- `n` is the first index, from `i` on, of an empty section, or the bound of the loop.
pub record IsCount (epc : ℕ → Epc) (i left n : ℕ) : Type 0 where
  pub from : i ≤ n
  pub upto : n ≤ i + left
  pub all_used : (j : ℕ) → i ≤ j → j < n → (epc j).length ≢ 0
  pub ended : n ≡ i + left ⊎ (epc n).length ≡ 0

count_epc-IsCount : (epc : ℕ → Epc) (left i : ℕ) → IsCount epc i left (count_epc epc left i)
unfolding count_epc
count_epc-IsCount epc zero i = record {
  from = omega arith;
  upto = omega arith;
  all_used = λ j a b. absurd (omega arith);
  ended = inl (omega arith);
}
count_epc-IsCount epc (suc left) i = elim (Bool-cases ((epc i).length == 0)) [
  | inl empty ↦ rw empty (record {
    from = omega arith;
    upto = omega arith;
    all_used = λ j a b. absurd (omega arith);
    ended = inr ((==_iff _ 0).0 empty);
  })
  | inr used ↦ rw used (
      let h = count_epc-IsCount epc left (i + 1) in
      record {
        from = omega (arith, h.from);
        upto = omega (arith, h.upto);
        all_used = λ j a b. elim (Bool-cases (i == j)) [
          | inl here ↦
              let e : i ≡ j = (==_iff i j).0 here in
              λ gone. absurd (ground (arith, ap (λ k. (epc k).length) e))
          | inr later ↦ h.all_used j (ground arith) b
        ];
        ended = elim h.ended [ inl e ↦ inl (omega (arith, e)) | inr e ↦ inr e ];
      })
]

leaf_there : (a b : ℕ) → 18 ≤ a → b ≢ 0 → (ltb a 18 || b == 0) ≡ false
leaf_there a b h k = ground arith

-- Where the processor has leaf 12h, `decode_intel_sgx_features` stores as the number of EPC sections the
-- first index whose section is empty, or 1000000 if there is none below that; every section is made of
-- whole pages and its address and size have at most 52 bits.
pub decode_intel_sgx_features-IsCount :
    (exec : ℕ → Regs) (raw : RawData) (id : CpuId)
    → 18 ≤ (row raw.basic_cpuid 0).eax
    → (row raw.basic_cpuid 18).eax ≢ 0
    → ((n : ℕ) × ((decode_intel_sgx_features exec raw id).x86.sgx.num_epc_sections ≡ pos n)
        × IsCount (λ i. cpuid_get_epc exec i raw) 0 max_epc n)
      × ((i : ℕ) → IsSection (cpuid_get_epc exec i raw))
unfolding decode_intel_sgx_features decode_sgx cpuid_get_epc
decode_intel_sgx_features-IsCount exec raw id has more =
    let n = count_epc (λ i. cpuid_get_epc exec i raw) max_epc 0 in
    (
      (n, rw (leaf_there _ _ has more) refl, count_epc-IsCount _ max_epc 0),
      λ i. decode_epc-IsSection _,
    )
