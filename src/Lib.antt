-- ===== src/Lib.antt =====
-- A verification of libcpuid, the library that identifies processors by what the CPUID
-- instruction returns.
--
-- The program. libcpuid reads the CPUID leaves of each logical CPU into a `cpu_raw_data_t`
-- (libcpuid/rdcpuid.c, libcpuid/cpuid_main.c) and decodes them to a `cpu_id_t`: first the vendor
-- and the fields that all x86 processors share (libcpuid/cpuid_main.c), then what is special to a
-- vendor (libcpuid/recog_intel.c, libcpuid/recog_amd.c, libcpuid/recog_centaur.c). An ARM
-- processor is decoded from its ID registers (libcpuid/recog_arm.c). The decoders and the text
-- functions of libcpuid/libcpuid_util.c are helpers of all. A codename is the entry of a vendor's
-- table of known processors that agrees best with the decoded fields and with the brand string.
-- For a whole system the decoded CPUs are grouped by type and their cores and caches are counted.
--
-- The model. All state is passed explicitly. A register is a number below 2 ^ 32 and a word keeps
-- its wrap-around; an `int` is one of two signs on such a number; an array is a list, and an
-- access outside it is `none` where the source can make one, also where the source reads a row
-- before it tests the index. A text is the list of its bytes in
-- front of the final NUL. Loops over tables are recursions on lists, so that no fuel is needed.
--
-- - Base: the shared names; Base/Tests: Boolean tests; Base/Lists: lists over the native
--   numbers; Base/Int: signed integers; Base/Words: bit fields of registers (EXTRACTS_BITS and
--   its kin).
-- - Data: the types of libcpuid/libcpuid.h. Data/Feature: `cpu_feature_t`; Data/Kinds: the
--   other enumerations; Data/Raw: `cpu_raw_data_t`; Data/CpuId: `cpu_id_t` and
--   `cpu_id_t_constructor`.
-- - Util: libcpuid/libcpuid_util.c. Util/Ctype: the C functions on characters and strings that
--   it calls; Util/Pattern: `xmatch_entry` and `match_pattern`, with Util/Pattern/Language, an
--   independent meaning of patterns; Util/Text: `remove_substring` and `collapse_spaces`;
--   Util/Codename: `score` and `match_cpu_codename`; Util/CpuList: `generic_get_cpu_list`;
--   Util/Features: `match_features`; Util/Affinity: the masks of logical CPUs; Util/Order:
--   `get_count_order`; Util/Cores: `decode_number_of_cores_x86`; Util/Cache:
--   `assign_cache_data` and `decode_deterministic_cache_info_x86`; Util/Level:
--   `decode_architecture_version_x86`.
-- - Detect: libcpuid/cpuid_main.c. Detect/Vendor: `cpuid_vendor_identify`; Detect/Features:
--   `load_features_common`; Detect/Basic: `cpuid_architecture_identify` and
--   `cpuid_basic_identify`; Detect/Topology: `cpu_ident_id` with its branches for x86 and ARM;
--   Detect/Instances: `update_core_instances`; Detect/Caches: `update_cache_instances`;
--   Detect/Ident: `cpu_ident_internal`, `cpu_ident_purpose` and `cpu_identify`. Detect/System:
--   `cpu_identify_all`, one CPU, with Detect/System/Run, its loops, its totals and
--   `cpu_request_core_type`. There the functions that it calls for a CPU are a record,
--   `Detector`, which Detect/System/Native fills with those of Detect/Ident and
--   Detect/Topology. Detect/System/Groups is the independent description: the groups that the
--   CPUs form. Detect/System/Step, Found, Laws and Loop relate the types to them;
--   Detect/System/Partition is on the members of the types, Errors on the runs that fail, and
--   Request on the CPU that `cpu_request_core_type` describes.
-- - Recog: the vendors. Recog/Intel: libcpuid/recog_intel.c, with Features, Cache (the
--   descriptors of leaf 2), Topology (leaf 0Bh and the kind of core), Sgx, Table
--   (`cpudb_intel`) and Identify; Recog/Amd: libcpuid/recog_amd.c, with Features, Decode
--   (caches, core counts, kind of core), Table and Identify; Recog/Arm: libcpuid/recog_arm.c,
--   with Id and Parts (implementers and parts), Registers and FeaturesMap (the fields of the ID
--   registers and `features_map`), Status (`set_feature_status` and the counters of the
--   levels), Level, Features and Identify, with Features/Tally, the calls as a list; Recog/Centaur: libcpuid/recog_centaur.c;
--   Recog/Outcome: what all of them leave; Recog/Hidden: rows of the tables with the criteria
--   of earlier rows.
-- - Tests: runs on concrete data, and instances of the results.
--
-- Bounds. CORES_HTABLE_SIZE is 256, NUM_CACHE_TYPES 5, a mask has 8192 bytes for 2 ^ 16 logical
-- CPUs, as in the source. A system has at most 65535 logical CPUs, as `num_raw` has 16 bits, and
-- 255 types, as `num_cpu_types` has eight; a type more is a write outside the arrays, `none`.
-- Texts are ASCII but for some names of the tables, whose bytes are written out. The loop over
-- the EPC sections has the source's bound of 1000000 as its fuel.
--
-- Parameters. The success of each allocation, the number of CPUs of the system, what `cpuid_get_raw_data` and
-- `cpuid_get_all_raw_data` return and read where a caller gives no raw data, the answers of CPUID to
-- sub-leaves of leaf 12h that are not in the raw data, and the value that
-- `decode_architecture_version_x86` leaves open are arguments.
--
-- Not modelled. The access to the processor (inline assembly, device files, kernel drivers), the
-- messages and warnings, the command line tool and the Python bindings are input and output. The
-- raw dump files, the reading of the raw data of a whole system, the MSR decoders and the clock
-- measurements are left out, and so are the deprecated copies of fields.

pub mod Base
pub mod Data
pub mod Util
pub mod Detect
pub mod Recog
pub mod Tests
