-- ===== src/Recog/Amd/Table.antt =====
-- `cpudb_amd` of libcpuid/recog_amd.c: the known processors of the vendor.
mod Part1
mod Part2
mod Part3
mod Part4
mod Part5
mod Part6
mod Part7
use libcpuid.Base.{List, ◌++◌}
use libcpuid.Util.Codename.{MatchEntry}
use Part1.{cpudb_amd_part1}
use Part2.{cpudb_amd_part2}
use Part3.{cpudb_amd_part3}
use Part4.{cpudb_amd_part4}
use Part5.{cpudb_amd_part5}
use Part6.{cpudb_amd_part6}
use Part7.{cpudb_amd_part7}

abbrev pub cpudb_amd : List MatchEntry
cpudb_amd =
    cpudb_amd_part1
    ++ (cpudb_amd_part2
        ++ (cpudb_amd_part3
            ++ (cpudb_amd_part4 ++ (cpudb_amd_part5 ++ (cpudb_amd_part6 ++ cpudb_amd_part7)))))
