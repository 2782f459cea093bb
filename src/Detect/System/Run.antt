-- ===== src/Detect/System/Run.antt =====
-- The loops of `cpu_identify_all` and what follows them, and `cpu_request_core_type`
-- (libcpuid/cpuid_main.c).
use libcpuid.Base.{
  ℕ, suc, ◌/◌, ◌%◌, Bool, true, ◌&&◌, List, [], ◌∷◌, Option, none, some, ◌⊎◌, inl, inr, length,
  get_or, ltb, ◌==◌, if◌then◌else◌, ℤ, pos,
}
use libcpuid.Data.Kinds.{
  CpuPurpose, purpose_eq, CpuError, ok, not_found, handle, is_ok, CacheType, l1i, l1d, l2, l3, l4,
  cache_index,
}
use libcpuid.Data.Raw.{RawData}
use libcpuid.Data.CpuId.{CpuId}
use libcpuid.Detect.Instances.{core_instances_t_constructor}
use libcpuid.Detect.Caches.{CacheInstances, cache_instances_t_constructor}
use libcpuid.Detect.System.{
  Detector, CpuType, Scan, SystemId, system_id_t_constructor, Progress, goes_on, returns,
  identify_cpu,
}
use libcpuid.Recog.Outcome.{followed}

unfoldable pub identify_cpus :
    Detector → (ℕ → Bool) → Bool → ℕ → List RawData → Scan → Option (Progress Scan)
identify_cpus detector alloc with_affinity logical_cpu [] scan = some (goes_on scan)
identify_cpus detector alloc with_affinity logical_cpu (raw ∷ raws) scan =
    followed (identify_cpu detector alloc with_affinity logical_cpu raw scan) (λ progress.
      elim progress [
        | goes_on scan' ↦ identify_cpus detector alloc with_affinity (suc logical_cpu) raws scan'
        | returns r types ↦ some (returns r types)
      ])

-- `instances[level]`.
abbrev pub instances_of : CacheInstances → CacheType → ℤ
instances_of caches level =
    pos (get_or caches (cache_index level) core_instances_t_constructor).instances

-- The cores of a type whose topology is not known. The division by `smt_divisor` is one of doubles,
-- but exact where it is not by 1; `none` is 0 divided by 0, for a type without CPUs.
unfoldable pub cores_by_divisor : ℤ → ℤ → Option ℤ
cores_by_divisor (pos cpus) (pos cores) =
    if ltb 0 cores && cpus % cores == 0
    then (if cpus == 0 then none else some (pos (cpus / (cpus / cores))))
    else some (pos cpus)
cores_by_divisor cpus cores = some cpus

-- The body of the loop over the types.
unfoldable pub total_type : Bool → Bool → ℕ → CpuType → Option CpuId
total_type with_affinity is_topology_supported num_raw t =
    let total = λ (id : CpuId). record id { total_logical_cpus = pos num_raw } in
    let counted = total (record t.id {
      num_cores = pos t.core_instances.instances;
      l1_instruction_instances = instances_of t.cache_instances l1i;
      l1_data_instances = instances_of t.cache_instances l1d;
      l2_instances = instances_of t.cache_instances l2;
      l3_instances = instances_of t.cache_instances l3;
      l4_instances = instances_of t.cache_instances l4;
    }) in
    let divided =
      followed (cores_by_divisor t.id.num_logical_cpus t.id.num_cores)
        (λ cores. some (total (record t.id { num_cores = cores }))) in
    if with_affinity
    then (if is_topology_supported then some counted else divided)
    else some (total t.id)

unfoldable pub total_types : Bool → Bool → ℕ → List CpuType → Option (List CpuId)
total_types with_affinity sup num_raw [] = some []
total_types with_affinity sup num_raw (t ∷ types) =
    followed (total_type with_affinity sup num_raw t)
      (λ id. followed (total_types with_affinity sup num_raw types) (λ ids. some (id ∷ ids)))

-- The totals of the system.
unfoldable pub total_system : Scan → List CpuId → SystemId
total_system scan cpu_types =
    let caches = scan.caches_all in
    if scan.is_topology_supported
    then record {
      cpu_types = cpu_types;
      l1_data_total_instances = instances_of caches l1d;
      l1_instruction_total_instances = instances_of caches l1i;
      l2_total_instances = instances_of caches l2;
      l3_total_instances = instances_of caches l3;
      l4_total_instances = instances_of caches l4;
    }
    else record system_id_t_constructor { cpu_types = cpu_types }

abbrev pub first_scan : Scan
first_scan = record {
  types = [];
  caches_all = cache_instances_t_constructor;
  is_topology_supported = true;
  cur_package_id = pos 0;
}

-- What follows the loop over the logical CPUs.
unfoldable pub total_all : Bool → ℕ → Progress Scan → Option (Progress SystemId)
total_all with_affinity num_raw (goes_on scan) =
    followed (total_types with_affinity scan.is_topology_supported num_raw scan.types)
      (λ cpu_types. some (goes_on (total_system scan cpu_types)))
total_all with_affinity num_raw (returns r types) = some (returns r types)

-- `cpu_raw_data_array_t`.
pub record RawArray : Type 0 where
  pub with_affinity : Bool
  pub raw : List RawData

-- `raw_array` as the caller gives it, or NULL, and then what `cpuid_get_all_raw_data` returns and stores.
pub data RawArgument : Type 0 where
  given : RawArray → RawArgument
  absent : CpuError → RawArray → RawArgument

-- The array that is read, or the error that is returned for want of one.
unfoldable pub array_of : RawArgument → CpuError ⊎ RawArray
array_of (given raw_array) = inr raw_array
array_of (absent r my_raw_array) = if is_ok r then inr my_raw_array else inl r

-- What `cpu_identify_all` does with the array. `goes_on` is the end with ERR_OK. `none` is an access outside
-- an array or a division by zero.
unfoldable pub identify_array : Detector → (ℕ → Bool) → RawArray → Option (Progress SystemId)
identify_array detector alloc raw_array =
    followed (identify_cpus detector alloc raw_array.with_affinity 0 raw_array.raw first_scan)
      (total_all raw_array.with_affinity (length raw_array.raw))

-- An error with which nothing is stored, or the end of `identify_array`.
pub data Reply : Type 0 where
  refused : CpuError → Reply
  answered : Progress SystemId → Reply

-- `has_system` says that `system` is not NULL.
unfoldable pub cpu_identify_all : Detector → (ℕ → Bool) → Bool → RawArgument → Option Reply
cpu_identify_all detector alloc has_system raw_array =
    if has_system
    then elim (array_of raw_array) [
      | inl r ↦ some (refused r)
      | inr array ↦
          followed (identify_array detector alloc array) (λ progress. some (answered progress))
    ]
    else some (refused handle)

-- The raw data of all CPUs, read with affinity and given by the caller.
abbrev pub all_of : List RawData → RawArgument
all_of raws = given (record { with_affinity = true; raw = raws })

-- The loop of `cpu_request_core_type`: `data` as it was, where no CPU has the purpose. The error of
-- `cpu_ident_internal` is passed over.
unfoldable pub request_from :
    Detector → CpuPurpose → List RawData → CpuId → Option (CpuError × CpuId)
request_from detector purpose [] id = some (not_found, id)
request_from detector purpose (raw ∷ raws) id =
    let rest = request_from detector purpose raws id in
    followed (detector.purpose raw) (λ found.
      if purpose_eq found purpose
      then followed (detector.identify raw) (λ identified. some (ok, identified.1.id))
      else rest)

unfoldable pub cpu_request_core_type :
    Detector → CpuPurpose → RawArgument → CpuId → Option (CpuError × CpuId)
cpu_request_core_type detector purpose raw_array id = elim (array_of raw_array) [
  | inl r ↦ some (r, id)
  | inr array ↦ request_from detector purpose array.raw id
]
