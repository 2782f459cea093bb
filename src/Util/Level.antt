-- ===== src/Util/Level.antt =====
-- `decode_architecture_version_x86` of libcpuid/libcpuid_util.c: the level of the x86 architecture
-- that a processor reaches. Its warnings and debug output are left out.
pub mod Laws
use libcpuid.Base.{ℕ, Bool, true, false, ◌&&◌, not, List, [], ◌∷◌, if◌then◌else◌, ℤ, pos, int_eq}
use libcpuid.Data.Feature
use libcpuid.Data.Feature.{CpuFeature}
use libcpuid.Data.Kinds.{
  CpuFeatureLevel, i386, i486, i586, i686, x86_64_v1, x86_64_v2, x86_64_v3, x86_64_v4,
  level_unknown,
}
use libcpuid.Data.CpuId.{CpuId, Flags}

-- A row of `architecture_matchtable_ia_32`, and of `architecture_matchtable_x86_64`.
pub record FamilyRow : Type 0 where
  pub family : ℤ
  pub level : CpuFeatureLevel

pub record FeatureRow : Type 0 where
  pub features : List CpuFeature
  pub level : CpuFeatureLevel

abbrev pub architecture_x86_64_v1 : List CpuFeature
architecture_x86_64_v1 =
    Feature.cmov ∷ Feature.cx8 ∷ Feature.fpu ∷ Feature.fxsr ∷ Feature.mmx ∷ Feature.sse
    ∷ Feature.sse2 ∷ []

abbrev pub architecture_x86_64_v2 : List CpuFeature
architecture_x86_64_v2 =
    Feature.cx16 ∷ Feature.lahf_lm ∷ Feature.popcnt ∷ Feature.pni ∷ Feature.sse4_1 ∷ Feature.sse4_2
    ∷ Feature.ssse3 ∷ []

abbrev pub architecture_x86_64_v3 : List CpuFeature
architecture_x86_64_v3 =
    Feature.avx ∷ Feature.avx2 ∷ Feature.bmi1 ∷ Feature.bmi2 ∷ Feature.f16c ∷ Feature.fma3
    ∷ Feature.abm ∷ Feature.movbe ∷ Feature.osxsave ∷ []

abbrev pub architecture_x86_64_v4 : List CpuFeature
architecture_x86_64_v4 =
    Feature.avx512f ∷ Feature.avx512bw ∷ Feature.avx512cd ∷ Feature.avx512dq ∷ Feature.avx512vl ∷ []

abbrev pub architecture_matchtable_ia_32 : List FamilyRow
architecture_matchtable_ia_32 =
    record { family = pos 3; level = i386 }
    ∷ record { family = pos 4; level = i486 }
    ∷ record { family = pos 5; level = i586 }
    ∷ record { family = pos 6; level = i686 }
    ∷ record { family = pos 15; level = i686 }
    ∷ []

abbrev pub architecture_matchtable_x86_64 : List FeatureRow
architecture_matchtable_x86_64 =
    record { features = architecture_x86_64_v1; level = x86_64_v1 }
    ∷ record { features = architecture_x86_64_v2; level = x86_64_v2 }
    ∷ record { features = architecture_x86_64_v3; level = x86_64_v3 }
    ∷ record { features = architecture_x86_64_v4; level = x86_64_v4 }
    ∷ []

-- The first loop: the level of the first row with the family.
unfoldable pub family_level : ℤ → List FamilyRow → CpuFeatureLevel
family_level family [] = level_unknown
family_level family (r ∷ table) =
    if int_eq family r.family then r.level else family_level family table

-- The variables of the inner loop.
pub record Compliance : Type 0 where
  pub is_compliant : Bool
  pub has_all_features : Bool

-- The inner loop over the features of one row.
unfoldable pub check_features : Flags → List CpuFeature → Compliance → Compliance
check_features flags [] c = c
check_features flags (f ∷ features) c =
    check_features flags features
      (record { is_compliant = flags f; has_all_features = c.has_all_features && flags f })

-- The second loop, with the level reached so far. What it tests is `is_compliant`, which
-- `check_features` starts from whatever the variable held.
unfoldable pub features_level : Flags → Bool → List FeatureRow → CpuFeatureLevel → CpuFeatureLevel
features_level flags old [] level = level
features_level flags old (r ∷ table) level =
    let c =
      check_features flags r.features (record { is_compliant = old; has_all_features = true }) in
    let on = features_level flags c.is_compliant table r.level in
    if c.is_compliant then on else level

-- The value of `is_compliant` before the loops, which the source leaves open, is the first argument.
unfoldable pub decode_architecture_version_x86 : Bool → CpuId → CpuId
decode_architecture_version_x86 old id = record id {
  feature_level =
      if not (id.flags Feature.lm)
      then family_level id.x86.family architecture_matchtable_ia_32
      else features_level id.flags old architecture_matchtable_x86_64 level_unknown;
}
