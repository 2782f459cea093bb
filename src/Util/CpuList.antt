-- ===== src/Util/CpuList.antt =====
-- `generic_get_cpu_list` of libcpuid/libcpuid_util.c: the names of a table of known processors.
pub mod Names
use libcpuid.Base.{
  ℕ, ◌+◌, Bool, true, false, ◌||◌, List, [], ◌∷◌, ◌++◌, Option, none, some, if◌then◌else◌, codes,
  length,
}
use libcpuid.Util.Ctype.{str_eq, strstr}

-- `cpu_list_t` as the function leaves it; a failed allocation leaves an empty list and sets
-- ERR_NO_MEM.
pub data ListResult : Type 0 where
  listed : List (List ℕ) → ListResult
  no_mem : ListResult

-- The search through the names found so far.
unfoldable pub contains : List (List ℕ) → List ℕ → Bool
contains [] name = false
contains (n ∷ names) name = str_eq n name || contains names name

-- `strstr(name, "Unknown")`.
unfoldable pub is_unknown : List ℕ → Bool
is_unknown name = elim (strstr name (codes "Unknown")) [ none ↦ false | some pos ↦ true ]

-- The loop over the names of the table. `alloc n` says whether the `n`-th `strdup` succeeds.
unfoldable pub collect : (ℕ → Bool) → List (List ℕ) → List (List ℕ) → ListResult
collect alloc found [] = listed found
collect alloc found (name ∷ table) =
    let skipped = collect alloc found table in
    let added = collect alloc (found ++ (name ∷ [])) table in
    if is_unknown name
    then skipped
    else if contains found name
    then skipped
    else if alloc (length found)
    then added
    else no_mem

-- `malloc_ok` says whether the array of names can be allocated.
unfoldable pub generic_get_cpu_list : Bool → (ℕ → Bool) → List (List ℕ) → ListResult
generic_get_cpu_list malloc_ok alloc table = if malloc_ok then collect alloc [] table else no_mem
