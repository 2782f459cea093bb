-- ===== src/Recog/Intel/Table.antt =====
-- `cpudb_intel` of libcpuid/recog_intel.c: the known processors of the vendor.
mod Part1
mod Part2
mod Part3
mod Part4
mod Part5
mod Part6
mod Part7
mod Part8
mod Part9
use libcpuid.Base.{List, ◌++◌}
use libcpuid.Util.Codename.{MatchEntry}
use Part1.{cpudb_intel_part1}
use Part2.{cpudb_intel_part2}
use Part3.{cpudb_intel_part3}
use Part4.{cpudb_intel_part4}
use Part5.{cpudb_intel_part5}
use Part6.{cpudb_intel_part6}
use Part7.{cpudb_intel_part7}
use Part8.{cpudb_intel_part8}
use Part9.{cpudb_intel_part9}

abbrev pub cpudb_intel : List MatchEntry
cpudb_intel =
    cpudb_intel_part1
    ++ (cpudb_intel_part2
        ++ (cpudb_intel_part3
            ++ (cpudb_intel_part4
                ++ (cpudb_intel_part5
                    ++ (cpudb_intel_part6
                        ++ (cpudb_intel_part7 ++ (cpudb_intel_part8 ++ cpudb_intel_part9)))))))
