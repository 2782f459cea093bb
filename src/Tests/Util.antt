-- ===== src/Tests/Util.antt =====
-- The helpers of libcpuid/libcpuid_util.c on concrete data.
use libcpuid.Base.{
  not, ◌&&◌, ◌||◌, ◌==◌, ℕ, ◌≡◌, refl, arith, true, List, [], ◌∷◌, none, some, pos, minus_one,
  codes,
}
use libcpuid.Data.Kinds.{l1d}
use libcpuid.Data.Raw.{Regs}
use libcpuid.Data.CpuId.{CpuId, cpu_id_t_constructor}
use libcpuid.Util.Codename.{MatchEntry, match_cpu_codename}
use libcpuid.Util.Codename.Choice.{IsMatched, match_cpu_codename-IsMatched}
use libcpuid.Util.Pattern.{
  match_pattern, match_from, match_at, match_here, xmatch_entry, xmatch_class, bracket_end,
  in_class,
}
use libcpuid.Util.Ctype.{tolower}
use libcpuid.Util.Pattern.Search.{Found, match_pattern-Found}
use libcpuid.Util.Cache.{Decoded, decode_deterministic_cache_info_x86}
use libcpuid.Util.Cache.Table.{IsDecoded}
use libcpuid.Util.Cache.Overrun.{Names, decode_deterministic_cache_info_x86-overruns}
use libcpuid.Util.Cache.{is_last, known_type}
use libcpuid.Util.Cache.Cut.{decode_deterministic_cache_info_x86-returns}
use libcpuid.Util.Order.{get_count_order}
use libcpuid.Util.Order.Bounds.{IsOrder, get_count_order-IsOrder}
use libcpuid.Util.Affinity.{
  init_affinity_mask, set_affinity_mask_bit, clear_affinity_mask_bit, get_affinity_mask_bit,
}
use libcpuid.Util.Affinity.Laws.{
  IsMask, init_affinity_mask-empty, get-set_affinity_mask_bit, get-clear_affinity_mask_bit,
}

match_pattern-ryzen : match_pattern (codes "AMD Ryzen 7 PRO") (codes "ryzen [579]") ≡ 5
unfolding match_pattern match_from match_at match_here xmatch_entry xmatch_class bracket_end
    in_class tolower
match_pattern-ryzen = refl

match_pattern-Found_example :
    Found
      (codes "AMD Ryzen 7")
      (codes "Ryzen [579]")
      (match_pattern (codes "AMD Ryzen 7") (codes "Ryzen [579]"))
match_pattern-Found_example =
    match_pattern-Found (codes "AMD Ryzen 7") (codes "Ryzen [579]") (λ e. absurd (cc))

get_count_order-IsOrder_example : IsOrder 12 (get_count_order 12)
get_count_order-IsOrder_example = get_count_order-IsOrder 12 (omega arith)

get-set_affinity_mask_bit_example :
    IsMask (set_affinity_mask_bit 13 (init_affinity_mask []))
    × ((other : ℕ)
        → get_affinity_mask_bit other (set_affinity_mask_bit 13 (init_affinity_mask []))
          ≡ (13 == other || get_affinity_mask_bit other (init_affinity_mask [])))
get-set_affinity_mask_bit_example =
    get-set_affinity_mask_bit 13 (init_affinity_mask []) (omega arith)
      (init_affinity_mask-empty []).0

get-clear_affinity_mask_bit_example :
    IsMask (clear_affinity_mask_bit 13 (set_affinity_mask_bit 13 (init_affinity_mask [])))
    × ((other : ℕ)
        → get_affinity_mask_bit other
            (clear_affinity_mask_bit 13 (set_affinity_mask_bit 13 (init_affinity_mask [])))
          ≡ (not (13 == other)
              && get_affinity_mask_bit other (set_affinity_mask_bit 13 (init_affinity_mask []))))
get-clear_affinity_mask_bit_example =
    get-clear_affinity_mask_bit 13 (set_affinity_mask_bit 13 (init_affinity_mask [])) (omega arith)
      (get-set_affinity_mask_bit 13 (init_affinity_mask []) (omega arith)
        (init_affinity_mask-empty []).0).0

-- Two rows of libcpuid/recog_amd.c.
abbrev zen4 : List MatchEntry
zen4 =
    record {
      family = pos 15;
      model = minus_one;
      stepping = minus_one;
      ext_family = pos 25;
      ext_model = minus_one;
      ncores = minus_one;
      l2cache = minus_one;
      l3cache = minus_one;
      pattern = [];
      brand_score = 0;
      name = codes "Unknown Zen 4 CPU";
      technology = [];
    }
    ∷ record {
      family = pos 15;
      model = minus_one;
      stepping = minus_one;
      ext_family = pos 25;
      ext_model = pos 97;
      ncores = minus_one;
      l2cache = minus_one;
      l3cache = minus_one;
      pattern = codes "Ryzen [579]";
      brand_score = 8;
      name = codes "Ryzen 7 (Raphael)";
      technology = codes "5 nm";
    }
    ∷ []

abbrev raphael : CpuId
raphael = record cpu_id_t_constructor {
  brand_str = codes "AMD Ryzen 7 7700X  Processor";
  x86 = record cpu_id_t_constructor.x86 {
    family = pos 15;
    ext_family = pos 25;
    ext_model = pos 97;
  };
}

match_cpu_codename-IsMatched_example : IsMatched zen4 raphael (match_cpu_codename zen4 raphael)
match_cpu_codename-IsMatched_example = match_cpu_codename-IsMatched zen4 raphael (omega arith)

-- Leaf 4 of a processor with 48 KiB of first level data cache, 12 ways, and two CPUs sharing it.
abbrev l1_data_row : Regs
l1_data_row = record { eax = 469778721; ebx = 46137407; ecx = 63; edx = 0 }

abbrev no_row : Regs
no_row = record { eax = 0; ebx = 0; ecx = 0; edx = 0 }

abbrev undecoded : Decoded
undecoded = record { id = cpu_id_t_constructor; cache_mask = 0 ∷ 0 ∷ 0 ∷ 0 ∷ 0 ∷ [] }

names_l1_data : Names l1_data_row l1d
unfolding is_last known_type
names_l1_data = (refl, refl)

ends_no_row : is_last no_row ≡ true
unfolding is_last
ends_no_row = refl

decode_deterministic_cache_info_x86-returns_example :
    (d' : Decoded) × (decode_deterministic_cache_info_x86
        (l1_data_row ∷ no_row ∷ no_row ∷ [])
        8
        undecoded
      ≡ some d')
    × IsDecoded 0 (l1_data_row ∷ []) undecoded d'
decode_deterministic_cache_info_x86-returns_example =
    decode_deterministic_cache_info_x86-returns (l1_data_row ∷ []) no_row (no_row ∷ []) 8 undecoded
      ends_no_row (omega arith) (omega arith) refl

decode_deterministic_cache_info_x86-overruns_example :
    decode_deterministic_cache_info_x86
      (l1_data_row ∷ l1_data_row ∷ l1_data_row ∷ l1_data_row ∷ l1_data_row ∷ l1_data_row ∷ [])
      8
      undecoded
    ≡ none
decode_deterministic_cache_info_x86-overruns_example =
    decode_deterministic_cache_info_x86-overruns
      (l1_data_row ∷ l1_data_row ∷ l1_data_row ∷ l1_data_row ∷ l1_data_row ∷ l1_data_row ∷ []) 8
      undecoded
      (let h : Names l1_data_row l1d = names_l1_data in
        ((l1d, h), ((l1d, h), ((l1d, h), ((l1d, h), ((l1d, h), ((l1d, h), tt)))))))
      (omega arith)
