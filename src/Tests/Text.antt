-- ===== src/Tests/Text.antt =====
-- Names, texts, feature levels and core counts on concrete data.
use libcpuid.Base.{◌==◌, ℕ, true, false, ◌||◌, List, [], ◌∷◌, ◌≡◌, ◌↔◌, refl, codes, replicate}
use libcpuid.Data.Feature
use libcpuid.Data.Feature.{CpuFeature}
use libcpuid.Data.Kinds.{level_unknown}
use libcpuid.Data.Raw.{RawData, raw_data_t_constructor}
use libcpuid.Data.CpuId.{CpuId, cpu_id_t_constructor}
use libcpuid.Util.Ctype.{str_eq, strstr, starts_with}
use libcpuid.Util.CpuList.{generic_get_cpu_list, listed, is_unknown, collect, contains}
use libcpuid.Util.CpuList.Names.{Distinct, Among, generic_get_cpu_list-exactly}
use libcpuid.Util.Level.{
  architecture_matchtable_x86_64, architecture_x86_64_v1, decode_architecture_version_x86,
}
use libcpuid.Util.Level.Laws.{
  all_present, intended_level, ComeTogether, decode_architecture_version_x86-intended,
  decode_architecture_version_x86-too_high, IsV1OrAbove,
}
use libcpuid.Util.Features.{FeatureMap, match_features}
use libcpuid.Util.Features.Laws.{announced, match_features-announced}
use libcpuid.Util.Cores.{decode_number_of_cores_x86}
use libcpuid.Util.Cores.Laws.{HasCores, decode_number_of_cores_x86-HasCores}
use libcpuid.Util.Text.{collapse_spaces, remove_substring}
use libcpuid.Util.Text.Spaces.{Collapses, IsCollapsed, ink, collapse_spaces-IsCollapsed}
use libcpuid.Util.Text.Substring.{Removed, remove_substring-Removed}

abbrev three_names : List (List ℕ)
three_names = codes "K6" ∷ codes "Unknown AMD CPU" ∷ codes "K6" ∷ []

generic_get_cpu_list-k6 :
    generic_get_cpu_list true (λ n. true) three_names ≡ listed (codes "K6" ∷ [])
unfolding generic_get_cpu_list collect contains is_unknown str_eq strstr starts_with
generic_get_cpu_list-k6 = refl

generic_get_cpu_list-exactly_example :
    (names : List (List ℕ)) × (generic_get_cpu_list true (λ n. true) three_names ≡ listed names)
    × Distinct names
    × ((x : List ℕ) → Among x names ↔ (Among x three_names × (is_unknown x ≡ false)))
generic_get_cpu_list-exactly_example =
    generic_get_cpu_list-exactly (λ n. true) three_names (λ n. refl)

-- A processor with the first two levels, and one with SSE2 and long mode alone.
abbrev has_v2 : CpuId
has_v2 = record cpu_id_t_constructor {
  flags = λ f.
      f == Feature.lm
      || f == Feature.cmov
      || f == Feature.cx8
      || f == Feature.fpu
      || f == Feature.fxsr
      || f == Feature.mmx
      || f == Feature.sse
      || f == Feature.sse2
      || f == Feature.cx16
      || f == Feature.lahf_lm
      || f == Feature.popcnt
      || f == Feature.pni
      || f == Feature.sse4_1
      || f == Feature.sse4_2
      || f == Feature.ssse3;
}

abbrev has_sse2 : CpuId
has_sse2 = record cpu_id_t_constructor { flags = λ f. f == Feature.lm || f == Feature.sse2 }

has_v2-ComeTogether : ComeTogether has_v2.flags
unfolding all_present
has_v2-ComeTogether = record {
  v1 = λ h. refl;
  v2 = λ h. refl;
  v3 = λ h. absurd (cc);
  v4 = λ h. absurd (cc);
}

decode_architecture_version_x86-intended_example :
    (decode_architecture_version_x86 false has_v2).feature_level
    ≡ intended_level has_v2.flags architecture_matchtable_x86_64 level_unknown
decode_architecture_version_x86-intended_example =
    decode_architecture_version_x86-intended false has_v2 refl has_v2-ComeTogether

lacks_v1 : all_present has_sse2.flags architecture_x86_64_v1 ≡ false
unfolding all_present
lacks_v1 = refl

decode_architecture_version_x86-too_high_example :
    IsV1OrAbove (decode_architecture_version_x86 false has_sse2).feature_level
    × (intended_level has_sse2.flags architecture_matchtable_x86_64 level_unknown ≡ level_unknown)
decode_architecture_version_x86-too_high_example =
    decode_architecture_version_x86-too_high false has_sse2 refl refl lacks_v1

abbrev two_bits : List FeatureMap
two_bits =
    record { bit = 23; feature = Feature.mmx } ∷ record { bit = 25; feature = Feature.sse } ∷ []

match_features-announced_example :
    ((f : CpuFeature)
      → (match_features two_bits 8388608 cpu_id_t_constructor).flags f
        ≡ (announced two_bits 8388608 f || cpu_id_t_constructor.flags f))
    × (record (match_features two_bits 8388608 cpu_id_t_constructor) {
      flags = cpu_id_t_constructor.flags;
    }
        ≡ cpu_id_t_constructor)
match_features-announced_example = match_features-announced two_bits 8388608 cpu_id_t_constructor

-- Leaf 1 counts four logical CPUs and leaf 4 two cores.
abbrev two_cores : RawData
two_cores = record raw_data_t_constructor {
  basic_cpuid =
      record { eax = 4; ebx = 0; ecx = 0; edx = 0 }
      ∷ record { eax = 0; ebx = 262144; ecx = 0; edx = 0 }
      ∷ record { eax = 0; ebx = 0; ecx = 0; edx = 0 }
      ∷ record { eax = 0; ebx = 0; ecx = 0; edx = 0 }
      ∷ record { eax = 67108864; ebx = 0; ecx = 0; edx = 0 }
      ∷ replicate 27 (record { eax = 0; ebx = 0; ecx = 0; edx = 0 });
}

abbrev with_ht : CpuId
with_ht = record cpu_id_t_constructor { flags = λ f. f == Feature.ht }

decode_number_of_cores_x86-HasCores_example :
    HasCores two_cores with_ht (decode_number_of_cores_x86 two_cores with_ht)
decode_number_of_cores_x86-HasCores_example = decode_number_of_cores_x86-HasCores two_cores with_ht

collapse_spaces-IsCollapsed_example :
    Collapses (codes "AMD  K6 \t 2") (collapse_spaces (codes "AMD  K6 \t 2"))
    × IsCollapsed false (collapse_spaces (codes "AMD  K6 \t 2"))
    × (ink (collapse_spaces (codes "AMD  K6 \t 2")) ≡ ink (codes "AMD  K6 \t 2"))
    × (collapse_spaces (collapse_spaces (codes "AMD  K6 \t 2"))
        ≡ collapse_spaces (codes "AMD  K6 \t 2"))
collapse_spaces-IsCollapsed_example = collapse_spaces-IsCollapsed (codes "AMD  K6 \t 2")

remove_substring-Removed_example :
    Removed
      (codes "Intel CPU N270")
      (codes "CPU")
      (remove_substring (codes "Intel CPU N270") (codes "CPU"))
remove_substring-Removed_example = remove_substring-Removed (codes "Intel CPU N270") (codes "CPU")
