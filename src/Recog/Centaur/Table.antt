-- ===== src/Recog/Centaur/Table.antt =====
-- `cpudb_centaur` of libcpuid/recog_centaur.c: the known processors of the vendor.
mod Part1
use libcpuid.Base.{List}
use libcpuid.Util.Codename.{MatchEntry}
use Part1.{cpudb_centaur_part1}

abbrev pub cpudb_centaur : List MatchEntry
cpudb_centaur = cpudb_centaur_part1
