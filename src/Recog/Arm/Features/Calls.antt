-- ===== src/Recog/Arm/Features/Calls.antt =====
-- `load_arm_features` as a sequence of calls of `set_feature_status`.
use libcpuid.Base.{
  ℕ, zero, suc, ◌+◌, ◌≤◌, Bool, true, false, ◌&&◌, ◌||◌, List, [], ◌∷◌, ◌≡◌, refl, ap, sym, ◌∙◌,
  subst, ==_iff, some-injective, none-ne-some, arith, length, get_elem?, some, ◌==◌, Bool-cases,
  inl, inr, if◌then◌else◌,
}
use libcpuid.Data.Feature.{CpuFeature}
use libcpuid.Data.Kinds.{CpuFeatureLevel, level_eq, i386}
use libcpuid.Data.Raw.{RawData}
use libcpuid.Data.CpuId.{CpuId}
use libcpuid.Recog.Arm.Registers.{ArmFeatureMap}
use libcpuid.Recog.Arm.Status.{ArmStatus, is_known, set_feature_status, match_arm_features}
use libcpuid.Recog.Arm.Status.Announces.{announces, match_arm_features-announces}
use libcpuid.Recog.Arm.Status.Laws.{
  flags-set_feature_status, rest-set_feature_status, IsWithin, set_feature_status-IsWithin, Lacks,
  set_feature_status-Lacks, absent-Lacks,
}
use libcpuid.Recog.Arm.Features.{match_table}

-- `t` is `s` after at most `n` calls, all of them for features that `may` holds of.
pub data Calls (may : CpuFeature → Bool) : ℕ → ArmStatus → ArmStatus → Type 0 where
  done : {n : ℕ} {s : ArmStatus} → Calls may n s s
  call :
      {n : ℕ} {s t : ArmStatus} (p : Bool) (f : CpuFeature) (o m : CpuFeatureLevel)
      → may f ≡ true
      → Calls may n (set_feature_status p f o m s) t
      → Calls may (suc n) s t

abbrev pub any_feature : CpuFeature → Bool
any_feature f = true

more-Calls :
    {may : CpuFeature → Bool} {n : ℕ} {s t : ArmStatus} → Calls may n s t → Calls may (suc n) s t
more-Calls done = done
more-Calls (call p f o m h c) = call p f o m h (more-Calls c)

budget :
    {may : CpuFeature → Bool} {n k : ℕ} {s t : ArmStatus}
    → n ≡ k
    → Calls may n s t
    → Calls may k s t
budget {may} {s = s} {t = t} e c = subst (λ i. Calls may i s t) e c

pub append-Calls :
    {may : CpuFeature → Bool} {n k : ℕ} {s t u : ArmStatus}
    → Calls may n s t
    → Calls may k t u
    → Calls may (n + k) s u
append-Calls {n = zero} done c = budget (omega arith) c
append-Calls {n = suc n} done c = budget (omega arith) (more-Calls (append-Calls {n = n} done c))
append-Calls {n = suc n} (call p f o m h b) c =
    budget (omega arith) (call p f o m h (append-Calls {n = n} b c))

pub widen-Calls :
    {may : CpuFeature → Bool} {n : ℕ} {s t : ArmStatus} → Calls may n s t → Calls any_feature n s t
widen-Calls done = done
widen-Calls (call p f o m h c) = call p f o m refl (widen-Calls c)

IsWithin-suc : (n : ℕ) (s : ArmStatus) → IsWithin n s → IsWithin (suc n) s
IsWithin-suc n s w = record {
  optional = w.optional;
  mandatory = w.mandatory;
  optional_bound = λ l. omega (arith, w.optional_bound l);
  mandatory_bound = λ l. omega (arith, w.mandatory_bound l);
}

IsWithin-add : (k n : ℕ) (s : ArmStatus) → IsWithin n s → IsWithin (n + k) s
IsWithin-add k n s w = record {
  optional = w.optional;
  mandatory = w.mandatory;
  optional_bound = λ l. omega (arith, w.optional_bound l);
  mandatory_bound = λ l. omega (arith, w.mandatory_bound l);
}

-- No counter wraps in the first 255 calls.
pub Calls-IsWithin :
    {may : CpuFeature → Bool} (k n : ℕ) {s t : ArmStatus}
    → n + k ≤ 255
    → Calls may k s t
    → IsWithin n s
    → IsWithin (n + k) t
Calls-IsWithin k n h done w = IsWithin-add k n _ w
Calls-IsWithin (suc k) n {s} {t} h (call p f o m _ c) w =
    subst (λ i. IsWithin i t) (omega arith)
      (Calls-IsWithin k (suc n) (omega arith) c
        (set_feature_status-IsWithin n p f o m s (omega arith) w))

pub Calls-Lacks :
    {may : CpuFeature → Bool} (k n : ℕ) {s t : ArmStatus} (l : CpuFeatureLevel)
    → n + k ≤ 255
    → Calls may k s t
    → IsWithin n s
    → Lacks l s
    → Lacks l t
Calls-Lacks k n l h done w lacks = lacks
Calls-Lacks (suc k) n {s} l h (call p f o m _ c) w lacks =
    Calls-Lacks k (suc n) l (omega arith) c
      (set_feature_status-IsWithin n p f o m s (omega arith) w)
      (set_feature_status-Lacks n p f o m s l (omega arith) w lacks)

match_arm_features-Calls :
    (is_aarch64 : Bool) (raw : RawData) (m : ArmFeatureMap) (s : ArmStatus)
    → Calls any_feature 1 s (match_arm_features is_aarch64 raw m s)
unfolding match_arm_features
match_arm_features-Calls a raw m s = call _ _ _ _ refl done

other_feature :
    (may : CpuFeature → Bool) (g f : CpuFeature) → may g ≡ true → may f ≡ false → (g == f) ≡ false
other_feature may g f k h = elim (Bool-cases (g == f)) [
  | inl e ↦ absurd (true_false (sym k ∙ (ap may ((==_iff g f).0 e) ∙ h)))
  | inr e ↦ e
]
  where
    true_false : true ≡ false → ⊥
    true_false e = ground (arith, e)

-- No other flag changes, and nothing but the flags of the processor does.
pub Calls-flags :
    {may : CpuFeature → Bool} (n : ℕ) {s t : ArmStatus} (f : CpuFeature)
    → may f ≡ false
    → Calls may n s t
    → t.id.flags f ≡ s.id.flags f
Calls-flags n f h done = refl
Calls-flags {may} (suc n) {s} f h (call p g o m k c) =
    Calls-flags n f h c
    ∙ (flags-set_feature_status p g o m s f ∙ rw (other_feature may g f k h) (and-false p _))
  where
    and-false : (p b : Bool) → ((p && false) || b) ≡ b
    and-false p b = ground arith

pub Calls-rest :
    {may : CpuFeature → Bool} (n : ℕ) {s t : ArmStatus}
    → Calls may n s t
    → record t.id { flags = s.id.flags } ≡ s.id
Calls-rest n done = refl
Calls-rest (suc n) {s} (call p g o m k c) =
    ap (λ (x : CpuId). record x { flags = s.id.flags }) (Calls-rest n c)
    ∙ rest-set_feature_status p g o m s

-- One entry of the table.
abbrev entry_step : Bool → RawData → ArmFeatureMap → ArmStatus → ArmStatus
entry_step a raw m s = if level_eq m.ver_optional i386 then s else match_arm_features a raw m s

entry_step-Calls :
    (is_aarch64 : Bool) (raw : RawData) (m : ArmFeatureMap) (s : ArmStatus)
    → Calls any_feature 1 s (entry_step is_aarch64 raw m s)
entry_step-Calls a raw m s = elim (Bool-cases (level_eq m.ver_optional i386)) [
  | inl e ↦ rw e done
  | inr e ↦ rw e (match_arm_features-Calls a raw m s)
]

pub match_table-Calls :
    (is_aarch64 : Bool) (raw : RawData) (table : List ArmFeatureMap) (s : ArmStatus)
    → Calls any_feature (length table) s (match_table is_aarch64 raw table s)
unfolding match_table
match_table-Calls a raw [] s = done
match_table-Calls a raw (m ∷ table) s = budget (omega arith) (
    append-Calls (entry_step-Calls a raw m s)
      (match_table-Calls a raw table (entry_step a raw m s)))

match_table-head :
    (is_aarch64 : Bool) (raw : RawData) (table : List ArmFeatureMap) (n : ℕ) (m : ArmFeatureMap)
    (s : ArmStatus)
    → level_eq m.ver_optional i386 ≡ false
    → (is_known m.ver_mandatory && level_eq m.ver_mandatory m.ver_mandatory) ≡ true
    → announces is_aarch64 raw m.fields ≡ false
    → n + suc (length table) ≤ 255
    → IsWithin n s
    → Lacks m.ver_mandatory (match_table is_aarch64 raw (m ∷ table) s)
unfolding match_table
match_table-head a raw table n m s used known absent few w =
    let l = m.ver_mandatory in
    let after = set_feature_status false m.feature m.ver_optional l s in
    let step : entry_step a raw m s ≡ after =
      rw used (match_arm_features-announces a raw m s ∙ rw absent refl) in
    subst (λ x. Lacks l (match_table a raw table x)) (sym step)
      (Calls-Lacks (length table) (suc n) l (omega arith) (match_table-Calls a raw table after)
        (set_feature_status-IsWithin n false m.feature m.ver_optional l s (omega arith) w)
        (absent-Lacks n m.feature m.ver_optional l s (omega arith) w known))

-- An entry whose feature is not announced leaves its mandatory level without it.
pub match_table-Lacks :
    (is_aarch64 : Bool) (raw : RawData) (table : List ArmFeatureMap) (k n : ℕ) (m : ArmFeatureMap)
    (s : ArmStatus)
    → get_elem? table k ≡ some m
    → level_eq m.ver_optional i386 ≡ false
    → (is_known m.ver_mandatory && level_eq m.ver_mandatory m.ver_mandatory) ≡ true
    → announces is_aarch64 raw m.fields ≡ false
    → n + length table ≤ 255
    → IsWithin n s
    → Lacks m.ver_mandatory (match_table is_aarch64 raw table s)
unfolding match_table
match_table-Lacks a raw [] k n m s at used known absent few w = absurd (none-ne-some _ at)
match_table-Lacks a raw (m' ∷ table) zero n m s at used known absent few w =
    subst (λ x. Lacks m.ver_mandatory (match_table a raw (x ∷ table) s))
      (sym (some-injective _ _ at)) (match_table-head a raw table n m s used known absent few w)
match_table-Lacks a raw (m' ∷ table) (suc k) n m s at used known absent few w =
    match_table-Lacks a raw table k (suc n) m (entry_step a raw m' s) at used known absent
      (omega arith)
      (subst (λ i. IsWithin i (entry_step a raw m' s)) (omega arith)
        (Calls-IsWithin 1 n (omega arith) (entry_step-Calls a raw m' s) w))
