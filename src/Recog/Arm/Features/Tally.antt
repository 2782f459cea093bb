-- ===== src/Recog/Arm/Features/Tally.antt =====
-- The counters of the levels after `load_arm_features`, as numbers of the calls of `set_feature_status`.
use libcpuid.Base.{
  ℕ, suc, ◌+◌, ◌≤◌, ◌<◌, Bool, true, false, ◌&&◌, List, [], ◌∷◌, ◌++◌, ◌≡◌, refl, sym, ◌∙◌, ap,
  subst, arith, length, map, if◌then◌else◌, u8,
}
use libcpuid.Data.Feature.{CpuFeature}
use libcpuid.Data.Kinds.{CpuFeatureLevel, level_eq, i386}
use libcpuid.Data.Raw.{RawData}
use libcpuid.Data.CpuId.{CpuId}
use libcpuid.Recog.Arm.Registers.{ArmFeatureMap}
use libcpuid.Recog.Arm.FeaturesMap.{features_map}
use libcpuid.Recog.Arm.Status.{ArmStatus, is_known, set_feature_status}
use libcpuid.Recog.Arm.Status.Announces.{announces, match_arm_features-announces}
use libcpuid.Recog.Arm.Status.Counts.{
  hits, present_optional, present_mandatory, total_optional, total_mandatory,
}
use libcpuid.Recog.Arm.Status.Laws.{IsWithin, set_feature_status-IsWithin}
use libcpuid.Recog.Arm.Features.{
  is_aarch64_mode, match_table, load_thumb_jazelle, load_arm_features,
}
use libcpuid.Recog.Arm.Features.Calls.{Calls, done, call}
use libcpuid.Recog.Arm.Features.Bounds.{
  is_special, load_thumb_jazelle-Calls, behind_table-Calls, start, start-IsWithin,
  length-features_map, all_used, features_map_used, load_arm_features-IsWithin,
}

-- The arguments of one call of `set_feature_status`.
pub record StatusCall : Type 0 where
  pub present : Bool
  pub feature : CpuFeature
  pub optional_from : CpuFeatureLevel
  pub mandatory_from : CpuFeatureLevel

abbrev run_calls : List StatusCall → ArmStatus → ArmStatus
run_calls [] s = s
run_calls (c ∷ cs) s =
    run_calls cs (set_feature_status c.present c.feature c.optional_from c.mandatory_from s)

-- How many calls satisfy a test: a number without a bound.
abbrev pub count_calls : (StatusCall → Bool) → List StatusCall → ℕ
count_calls p [] = 0
count_calls p (c ∷ cs) = (if p c then 1 else 0) + count_calls p cs

-- The calls that are for a level, of features that are optional or mandatory from it on. Of a feature that
-- is present and optional from no known level neither is counted.
abbrev pub optional_at : CpuFeatureLevel → StatusCall → Bool
optional_at l c = hits c.optional_from l

abbrev pub mandatory_at : CpuFeatureLevel → StatusCall → Bool
mandatory_at l c = hits c.mandatory_from l

abbrev pub has_optional : CpuFeatureLevel → StatusCall → Bool
has_optional l c = c.present && optional_at l c

abbrev pub has_mandatory : CpuFeatureLevel → StatusCall → Bool
has_mandatory l c = c.present && (is_known c.optional_from && mandatory_at l c)

-- The counters have grown by the numbers of the calls.
pub record IsTally (calls : List StatusCall) (from to : ArmStatus) (l : CpuFeatureLevel)
    : Type 0 where
  pub present_optional :
      (to.ext_status.present l).optional
      ≡ (from.ext_status.present l).optional + count_calls (has_optional l) calls
  pub present_mandatory :
      (to.ext_status.present l).mandatory
      ≡ (from.ext_status.present l).mandatory + count_calls (has_mandatory l) calls
  pub total_optional :
      (to.ext_status.total l).optional
      ≡ (from.ext_status.total l).optional + count_calls (optional_at l) calls
  pub total_mandatory :
      (to.ext_status.total l).mandatory
      ≡ (from.ext_status.total l).mandatory + count_calls (mandatory_at l) calls

-- One call more, while the counter has room.
one_more_call :
    (b : Bool) (x y n k z : ℕ)
    → x ≤ n
    → n < 255
    → y ≡ (if b then u8 (x + 1) else x)
    → z ≡ y + k
    → z ≡ x + ((if b then 1 else 0) + k)
one_more_call true x y n k z h lt e f = ground (arith, h, lt, e, f)
one_more_call false x y n k z h lt e f = ground (arith, e, f)

run_calls-IsTally :
    (calls : List StatusCall) (n : ℕ) (s : ArmStatus) (l : CpuFeatureLevel)
    → n + length calls ≤ 255
    → IsWithin n s
    → IsTally calls s (run_calls calls s) l
run_calls-IsTally [] n s l few w = record {
  present_optional = omega arith;
  present_mandatory = omega arith;
  total_optional = omega arith;
  total_mandatory = omega arith;
}
run_calls-IsTally (c ∷ cs) n s l few w =
    let p = c.present in
    let f = c.feature in
    let o = c.optional_from in
    let m = c.mandatory_from in
    let rest =
      run_calls-IsTally cs (suc n) (set_feature_status p f o m s) l (omega (arith, few))
        (set_feature_status-IsWithin n p f o m s (omega (arith, few)) w) in
    let lt : n < 255 = omega (arith, few) in
    let o_le = w.optional l in
    let m_le = w.mandatory l in
    record {
      present_optional =
          one_more_call (has_optional l c) _ _ n _ _ (omega (arith, o_le, w.optional_bound l)) lt
            (present_optional p f o m s l) rest.present_optional;
      present_mandatory =
          one_more_call (has_mandatory l c) _ _ n _ _ (omega (arith, m_le, w.mandatory_bound l)) lt
            (present_mandatory p f o m s l) rest.present_mandatory;
      total_optional =
          one_more_call (optional_at l c) _ _ n _ _ (w.optional_bound l) lt
            (total_optional p f o m s l) rest.total_optional;
      total_mandatory =
          one_more_call (mandatory_at l c) _ _ n _ _ (w.mandatory_bound l) lt
            (total_mandatory p f o m s l) rest.total_mandatory;
    }

-- A list of calls, all for features that `may` holds of.
abbrev pub AllFor : (CpuFeature → Bool) → List StatusCall → Type 0
AllFor may [] = Unit
AllFor may (c ∷ cs) = (may c.feature ≡ true) × AllFor may cs

Calls-listed :
    {may : CpuFeature → Bool} {n : ℕ} {s t : ArmStatus}
    → Calls may n s t
    → (cs : List StatusCall) × (length cs ≤ n) × (run_calls cs s ≡ t) × AllFor may cs
Calls-listed done = ([], omega arith, refl, tt)
Calls-listed (call p f o m h c) =
    let (cs, few, run, all) = Calls-listed c in
    (
      record { present = p; feature = f; optional_from = o; mandatory_from = m } ∷ cs,
      omega (arith, few),
      run,
      (h, all),
    )

-- The call for an entry of the table.
abbrev pub call_of : Bool → RawData → ArmFeatureMap → StatusCall
call_of is_aarch64 raw m = record {
  present = announces is_aarch64 raw m.fields;
  feature = m.feature;
  optional_from = m.ver_optional;
  mandatory_from = m.ver_mandatory;
}

match_table-run :
    (is_aarch64 : Bool) (raw : RawData) (table : List ArmFeatureMap) (s : ArmStatus)
    → all_used table ≡ true
    → match_table is_aarch64 raw table s ≡ run_calls (map (call_of is_aarch64 raw) table) s
unfolding match_table
match_table-run a raw [] s h = refl
match_table-run a raw (m ∷ table) s h =
    let used : level_eq m.ver_optional i386 ≡ false = ground (arith, h) in
    rw (used, match_arm_features-announces a raw m s)
      (match_table-run a raw table _ (ground (arith, h)))

run_calls-++ :
    (cs ds : List StatusCall) (s : ArmStatus)
    → run_calls (cs ++ ds) s ≡ run_calls ds (run_calls cs s)
run_calls-++ [] ds s = refl
run_calls-++ (c ∷ cs) ds s = run_calls-++ cs ds _

length-calls :
    (before behind : List StatusCall) (f : ArmFeatureMap → StatusCall) (table : List ArmFeatureMap)
    → length (before ++ (map f table ++ behind)) ≡ length before + length table + length behind
length-calls [] behind f [] = omega arith
length-calls [] behind f (m ∷ table) = omega (arith, length-calls [] behind f table)
length-calls (c ∷ before) behind f table = omega (arith, length-calls before behind f table)

-- The calls of `load_arm_features`: one for each entry of the table, for a feature that is present just
-- where the registers announce it, and at most ten for the features that are set outside the table.
pub record IsTallied (raw : RawData) (id : CpuId) (t : ArmStatus) : Type 0 where
  pub before : List StatusCall
  pub behind : List StatusCall
  pub few : length before + length behind ≤ 10
  pub special_before : AllFor is_special before
  pub special_behind : AllFor is_special behind
  pub tally :
      (l : CpuFeatureLevel)
      → IsTally
          (before ++ (map (call_of (is_aarch64_mode raw) raw) features_map ++ behind))
          (start id)
          t
          l

-- Whatever the processor, the uint8_t counters of load_arm_features, from cleared ones on, are the numbers,
-- which have no bound, of the calls that count for them: one call for each entry of features_map, by whether
-- the registers announce its feature, and at most ten others. They are at most 254, and no level has more
-- features present than it has in total.
pub load_arm_features-IsTallied :
    (raw : RawData) (id : CpuId)
    → IsTallied raw id (load_arm_features raw (start id))
      × IsWithin 254 (load_arm_features raw (start id))
unfolding load_arm_features
load_arm_features-IsTallied raw id =
    let mode = is_aarch64_mode raw in
    let first = load_thumb_jazelle (start id) in
    let (before, few, run, all) = Calls-listed (load_thumb_jazelle-Calls (start id)) in
    let (behind, few', run', all') =
      Calls-listed (behind_table-Calls raw (match_table mode raw features_map first)) in
    let calls = before ++ (map (call_of mode raw) features_map ++ behind) in
    let table = match_table-run mode raw features_map first features_map_used in
    let whole : run_calls calls (start id) ≡ load_arm_features raw (start id) =
      unfold load_arm_features in
      (run_calls-++ before _ (start id)
        ∙ (run_calls-++ (map (call_of mode raw) features_map) behind _
            ∙ (ap (λ s. run_calls behind (run_calls (map (call_of mode raw) features_map) s)) run
                ∙ (ap (run_calls behind) (sym table) ∙ run')))) in
    (
      record {
        before = before;
        behind = behind;
        few = omega (arith, few, few');
        special_before = all;
        special_behind = all';
        tally = λ l.
            subst (λ t. IsTally calls (start id) t l) whole
              (run_calls-IsTally calls 0 (start id) l
                (omega (
                  arith,
                  few,
                  few',
                  length-calls before behind (call_of mode raw) features_map,
                  length-features_map,
                ))
                (start-IsWithin id));
      },
      load_arm_features-IsWithin raw id,
    )
