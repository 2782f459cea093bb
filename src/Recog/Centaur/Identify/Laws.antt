-- ===== src/Recog/Centaur/Identify/Laws.antt =====
-- `cpuid_identify_centaur` returns, and names the processor.
use libcpuid.Base.{
  ◌≤◌, Bool, true, false, List, ◌∷◌, ◌++◌, some, ◌≡◌, refl, arith, length, leb, if◌then◌else◌,
}
use libcpuid.Data.Kinds.{num_cache_types}
use libcpuid.Data.Raw.{Regs, RawData, row, max_intelfn4_level}
use libcpuid.Util.Cache.{Decoded, is_last, decode_deterministic_cache_info_x86}
use libcpuid.Util.Cache.Table.{IsDecoded}
use libcpuid.Util.Cache.Cut.{decode_deterministic_cache_info_x86-returns}
use libcpuid.Util.Cores.{decode_number_of_cores_x86}
use libcpuid.Util.Level.{decode_architecture_version_x86}
use libcpuid.Recog.Outcome.{Outcome, with_id}
use libcpuid.Recog.Outcome.Laws.{IsNamed, name_by-IsNamed, followed-some}
use libcpuid.Recog.Centaur.Table.{cpudb_centaur}
use libcpuid.Recog.Centaur.Identify.{cpuid_identify_centaur}

-- The caches are those of leaf 4 where it exists, and else as before.
abbrev pub HasLeaf4 : Bool → List Regs → Decoded → Decoded → Type 0
HasLeaf4 true rows d cached = IsDecoded 0 rows d cached
HasLeaf4 false rows d cached = cached ≡ d

caches-some :
    (there : Bool) (rows : List Regs) (r : Regs) (more : List Regs) (d : Decoded)
    → is_last r ≡ true
    → length rows ≤ num_cache_types
    → length d.cache_mask ≡ num_cache_types
    → (cached : Decoded) × ((if there
          then decode_deterministic_cache_info_x86 (rows ++ (r ∷ more)) max_intelfn4_level d
          else some d)
        ≡ some cached)
      × HasLeaf4 there rows d cached
caches-some true rows r more d last few size =
    decode_deterministic_cache_info_x86-returns rows r more max_intelfn4_level d last
      (omega (arith, few)) few size
caches-some false rows r more d last few size = (d, refl, refl)

-- Where leaf 4 describes at most NUM_CACHE_TYPES caches before it ends, `cpuid_identify_centaur` returns.
-- The caches are what those rows say, if leaf 4 exists; and the processor with these caches, its core
-- counts and its level is named by the first entry of `cpudb_centaur` with the highest score.
pub cpuid_identify_centaur-IsNamed :
    (old : Bool) (raw : RawData) (d : Decoded) (rows : List Regs) (r : Regs) (more : List Regs)
    → raw.intel_fn4 ≡ rows ++ (r ∷ more)
    → is_last r ≡ true
    → length rows ≤ num_cache_types
    → length d.cache_mask ≡ num_cache_types
    → (cached : Decoded) × HasLeaf4 (leb 4 (row raw.basic_cpuid 0).eax) rows d cached
      × ((o : Outcome) × (cpuid_identify_centaur old raw d ≡ some o)
          × IsNamed cpudb_centaur
              (decode_architecture_version_x86 old (decode_number_of_cores_x86 raw cached.id))
              o)
unfolding cpuid_identify_centaur
cpuid_identify_centaur-IsNamed old raw d rows r more e last few size =
    let (cached, stored, leaf4) =
      caches-some (leb 4 (row raw.basic_cpuid 0).eax) rows r more d last few size in
    let (o, named, best) =
      name_by-IsNamed cpudb_centaur
        (with_id cached
          (decode_architecture_version_x86 old (decode_number_of_cores_x86 raw cached.id)))
        (omega arith) in
    (cached, leaf4, (o, followed-some _ cached _ (some o) (rw e stored) named, best))
