-- ===== src/Util/Codename.antt =====
-- `score` and `match_cpu_codename` of libcpuid/libcpuid_util.c: which entry of a table of known
-- processors describes the one at hand best. Names are short enough for the fields they are copied to.
pub mod Choice
pub mod Hidden
use libcpuid.Base.{
  ℕ, zero, suc, ◌+◌, Bool, true, false, ◌&&◌, not, List, [], ◌∷◌, Option, none, some, ◌==◌, ltb,
  if◌then◌else◌, ℤ, pos, minus_one, int_eq, int_lt, int_le, codes, get_elem?, length,
}
use libcpuid.Data.CpuId.{CpuId}
use libcpuid.Util.Pattern.{match_pattern}
use libcpuid.Util.Text.{remove_substring, collapse_spaces}

-- `match_entry_t`. No table has a negative score.
pub record MatchEntry : Type 0 where
  pub family : ℤ
  pub model : ℤ
  pub stepping : ℤ
  pub ext_family : ℤ
  pub ext_model : ℤ
  pub ncores : ℤ
  pub l2cache : ℤ
  pub l3cache : ℤ
  pub pattern : List ℕ
  pub brand_score : ℕ
  pub name : List ℕ
  pub technology : List ℕ

-- The initialiser of one row, in the order of the fields. `any` is its -1, and `unkn_str` UNKN_STR.
abbrev pub known_as : ℤ → ℤ → ℤ → ℤ → ℤ → ℤ → ℤ → ℤ → List ℕ → ℕ → List ℕ → List ℕ → MatchEntry
known_as family model stepping ext_family ext_model ncores l2cache l3cache pattern brand_score name
      technology =
    record {
      family = family;
      model = model;
      stepping = stepping;
      ext_family = ext_family;
      ext_model = ext_model;
      ncores = ncores;
      l2cache = l2cache;
      l3cache = l3cache;
      pattern = pattern;
      brand_score = brand_score;
      name = name;
      technology = technology;
    }

abbrev pub any : ℤ
any = minus_one

abbrev pub unkn_str : List ℕ
unkn_str = codes "unknown"

-- One row of `array[]`: the points for a field that the entry gives and that agrees.
unfoldable pub field_score : ℤ → ℤ → ℕ → ℕ
field_score entry data' points = if int_le (pos 0) entry && int_eq entry data' then points else 0

-- The brand string without its useless parts.
unfoldable pub tidy_brand : List ℕ → List ℕ
tidy_brand brand_str =
    collapse_spaces
      (remove_substring (remove_substring brand_str (codes "CPU")) (codes "Processor"))

unfoldable pub brand_points : MatchEntry → CpuId → ℕ
brand_points entry id =
    if ltb 0 entry.brand_score
      && ltb 0 (length entry.pattern)
      && not (match_pattern (tidy_brand id.brand_str) entry.pattern == 0)
    then entry.brand_score
    else 0

unfoldable pub score : MatchEntry → CpuId → ℕ
unfolding field_score brand_points tidy_brand
score entry id =
    field_score entry.family id.x86.family 2
    + field_score entry.model id.x86.model 2
    + field_score entry.stepping id.x86.stepping 2
    + field_score entry.ext_family id.x86.ext_family 2
    + field_score entry.ext_model id.x86.ext_model 2
    + field_score entry.ncores id.num_cores 2
    + field_score entry.l2cache id.l2_level.cache 1
    + field_score entry.l3cache id.l3_level.cache 1
    + brand_points entry id

-- `bestscore` and `bestindex`.
pub record Best : Type 0 where
  pub bestscore : ℤ
  pub bestindex : ℕ

-- The loop, from index `i` on.
unfoldable pub best_from : CpuId → ℕ → List MatchEntry → Best → Best
best_from id i [] best = best
best_from id i (entry ∷ table) best =
    let t = pos (score entry id) in
    best_from id (i + 1) table
      (if int_lt best.bestscore t then record { bestscore = t; bestindex = i } else best)

-- What the function does behind its loop. `none` is the read of `matchtable[0]` of an empty table.
unfoldable pub pick : List MatchEntry → CpuId → Best → Option (ℤ × CpuId)
pick table id best = elim (get_elem? table best.bestindex) [
  | none ↦ none
  | some entry ↦
      some (
        best.bestscore,
        record id { cpu_codename = entry.name; technology_node = entry.technology },
      )
]

unfoldable pub match_cpu_codename : List MatchEntry → CpuId → Option (ℤ × CpuId)
match_cpu_codename table id =
    pick table id (best_from id 0 table (record { bestscore = minus_one; bestindex = 0 }))
