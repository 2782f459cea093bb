-- ===== src/Util/Features/Laws.antt =====
-- `match_features` sets the flags of the bits that are set, and no other.
use libcpuid.Base.{
  ℕ, Bool, true, false, ◌||◌, ◌&&◌, List, [], ◌∷◌, ◌≡◌, refl, ◌∙◌, arith, has_bit, ◌==◌,
  if◌then◌else◌,
}
use libcpuid.Data.Feature.{CpuFeature}
use libcpuid.Data.CpuId.{CpuId, Flags, set_flag}
use libcpuid.Util.Features.{FeatureMap, match_flags, match_features}

-- Some row of the table names the feature `f` and has its bit set in the register.
abbrev pub announced : List FeatureMap → ℕ → CpuFeature → Bool
announced [] reg f = false
announced (m ∷ table) reg f = (has_bit reg m.bit && m.feature == f) || announced table reg f

match_flags-announced :
    (table : List FeatureMap) (reg : ℕ) (flags : Flags) (f : CpuFeature)
    → match_flags table reg flags f ≡ (announced table reg f || flags f)
unfolding match_flags
match_flags-announced [] reg flags f = refl
match_flags-announced (m ∷ table) reg flags f = ground (
  arith,
  match_flags-announced table reg (set_flag m.feature true flags) f,
  match_flags-announced table reg flags f,
)

-- After `match_features` a flag is set exactly if it was set before or some row of the table names it
-- with a bit that is set in the register; nothing but the flags changes.
pub match_features-announced :
    (table : List FeatureMap) (reg : ℕ) (id : CpuId)
    → ((f : CpuFeature)
        → (match_features table reg id).flags f ≡ (announced table reg f || id.flags f))
      × (record (match_features table reg id) { flags = id.flags } ≡ id)
unfolding match_features
match_features-announced table reg id = (λ f. match_flags-announced table reg id.flags f, refl)

or_turn : (a b c : Bool) → (b || (a || c)) ≡ ((a || b) || c)
or_turn a b c = ground arith

-- A table that is read under a test.
pub flags-load :
    (test : Bool) (table : List FeatureMap) (reg : ℕ) (id : CpuId) (f : CpuFeature)
    → (if test then match_features table reg id else id).flags f
      ≡ ((test && announced table reg f) || id.flags f)
flags-load true table reg id f = (match_features-announced table reg id).0 f
flags-load false table reg id f = refl

-- Two tables that are read under one test.
pub flags-both :
    (test : Bool) (one two : List FeatureMap) (reg_one reg_two : ℕ) (id : CpuId) (f : CpuFeature)
    → (if test then match_features two reg_two (match_features one reg_one id) else id).flags f
      ≡ ((test && (announced one reg_one f || announced two reg_two f)) || id.flags f)
flags-both true one two reg_one reg_two id f =
    (match_features-announced two reg_two (match_features one reg_one id)).0 f
    ∙ rw ((match_features-announced one reg_one id).0 f)
        (or_turn (announced one reg_one f) (announced two reg_two f) (id.flags f))
flags-both false one two reg_one reg_two id f = refl
