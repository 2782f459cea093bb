-- ===== src/Recog/Hidden.antt =====
-- Rows of `cpudb_intel` and `cpudb_amd` that have the criteria of an earlier row.
use libcpuid.Base.{◌≢◌, refl, arith}
use libcpuid.Data.CpuId.{CpuId}
use libcpuid.Util.Codename.{score, match_cpu_codename}
use libcpuid.Util.Codename.Choice.{IsMatched}
use libcpuid.Util.Codename.Hidden.{IsBest-hidden}
use libcpuid.Recog.Intel.Table.{cpudb_intel}
use libcpuid.Recog.Amd.Table.{cpudb_amd}

-- Whatever the processor, `match_cpu_codename` on `cpudb_intel` chooses neither row 75, "Xeon
-- (Potomac)", nor row 123, "Core 2 Duo (Penryn)", counted from 0.
pub cpudb_intel-hidden :
    (id : CpuId) (m : IsMatched cpudb_intel id (match_cpu_codename cpudb_intel id))
    → (m.index ≢ 75) × (m.index ≢ 123)
unfolding score
cpudb_intel-hidden id m = (
  IsBest-hidden id cpudb_intel 71 75 _ _ m.index m.points (omega arith) refl refl refl m.best,
  IsBest-hidden id cpudb_intel 114 123 _ _ m.index m.points (omega arith) refl refl refl m.best,
)

-- Whatever the processor, `match_cpu_codename` on `cpudb_amd` chooses none of the rows 11, "Unknown K6",
-- 46, "Unknown A64", and 123, "Phenom X3 (Toliman/512K)", counted from 0.
pub cpudb_amd-hidden :
    (id : CpuId) (m : IsMatched cpudb_amd id (match_cpu_codename cpudb_amd id))
    → (m.index ≢ 11) × (m.index ≢ 46) × (m.index ≢ 123)
unfolding score
cpudb_amd-hidden id m = (
  IsBest-hidden id cpudb_amd 6 11 _ _ m.index m.points (omega arith) refl refl refl m.best,
  IsBest-hidden id cpudb_amd 44 46 _ _ m.index m.points (omega arith) refl refl refl m.best,
  IsBest-hidden id cpudb_amd 122 123 _ _ m.index m.points (omega arith) refl refl refl m.best,
)
