-- ===== src/Recog/Intel/Table/Part2.antt =====
-- `cpudb_intel` of libcpuid/recog_intel.c: rows 59 to 116 of 517.
use libcpuid.Base.{List, [], ◌∷◌, ◌++◌, pos, codes}
use libcpuid.Util.Codename.{MatchEntry, known_as, any}

abbrev pub cpudb_intel_part2 : List MatchEntry
cpudb_intel_part2 =
    known_as (pos 15) (pos 2) any (pos 15) any (pos 1) any any (codes "Xeon(TM) MP") 4
      (codes "Xeon (Gallatin)") (codes "0.13 " ++ (194 ∷ 181 ∷ codes "m"))
    ∷ known_as (pos 15) (pos 3) any (pos 15) any (pos 1) any any (codes "Pentium(R) 4") 4
        (codes "Pentium 4 (Prescott)") (codes "90 nm")
    ∷ known_as (pos 15) (pos 4) any (pos 15) any (pos 1) any any (codes "Pentium(R) 4") 4
        (codes "Pentium 4 (Prescott)") (codes "90 nm")
    ∷ known_as (pos 15) (pos 3) any (pos 15) any (pos 1) any any (codes "Pentium(R) 4 - M") 6
        (codes "Mobile P-4 (Prescott)") (codes "90 nm")
    ∷ known_as (pos 15) (pos 4) any (pos 15) any (pos 1) any any (codes "Pentium(R) 4 - M") 6
        (codes "Mobile P-4 (Prescott)") (codes "90 nm")
    ∷ known_as (pos 15) (pos 3) any (pos 15) any (pos 1) any any (codes "Celeron(R)") 2
        (codes "P-4 Celeron D (Prescott)") (codes "90 nm")
    ∷ known_as (pos 15) (pos 4) any (pos 15) any (pos 1) any any (codes "Celeron(R)") 2
        (codes "P-4 Celeron D (Prescott)") (codes "90 nm")
    ∷ known_as (pos 15) (pos 4) any (pos 15) any (pos 1) any any (codes "Pentium(R) D") 4
        (codes "Pentium D (SmithField)") (codes "90 nm")
    ∷ known_as (pos 6) (pos 13) any any any (pos 1) any any (codes "Pentium(R) M") 4
        (codes "Pentium M (Dothan)") (codes "90 nm")
    ∷ known_as (pos 6) (pos 13) any any any (pos 1) any any (codes "Pentium(R) 4 - M") 6
        (codes "Pentium M (Dothan)") (codes "90 nm")
    ∷ known_as (pos 6) (pos 13) any any any (pos 1) any any (codes "Celeron(R)") 2
        (codes "Celeron M (Dothan)") (codes "90 nm")
    ∷ known_as (pos 6) (pos 13) any any any (pos 1) any any (codes "Celeron(R) M") 4
        (codes "Celeron M (Dothan)") (codes "90 nm")
    ∷ known_as (pos 15) (pos 3) any (pos 15) any (pos 1) any any (codes "Xeon(TM)") 2
        (codes "Xeon (Nocona)") (codes "90 nm")
    ∷ known_as (pos 15) (pos 4) any (pos 15) any (pos 1) any any (codes "Xeon(TM)") 2
        (codes "Xeon (Nocona)") (codes "90 nm")
    ∷ known_as (pos 15) (pos 4) (pos 3) (pos 15) any (pos 1) any any (codes "Xeon(TM)") 2
        (codes "Xeon (Irwindale)") (codes "90 nm")
    ∷ known_as (pos 15) (pos 4) (pos 10) (pos 15) any (pos 1) any any (codes "Xeon(TM)") 2
        (codes "Xeon (Irwindale)") (codes "90 nm")
    ∷ known_as (pos 15) (pos 4) (pos 1) (pos 15) any (pos 1) any any (codes "Xeon(TM)") 2
        (codes "Xeon (Cranford)") (codes "90 nm")
    ∷ known_as (pos 15) (pos 4) any (pos 15) any (pos 1) any any (codes "Xeon(TM)") 2
        (codes "Xeon (Potomac)") (codes "90 nm")
    ∷ known_as (pos 15) (pos 4) (pos 8) (pos 15) any (pos 1) any any (codes "Xeon(TM)") 2
        (codes "Xeon (Paxville)") (codes "90 nm")
    ∷ known_as (pos 15) (pos 6) any (pos 15) any (pos 1) any any (codes "Pentium(R)") 2
        (codes "Pentium 4 (Cedar Mill)") (codes "65 nm")
    ∷ known_as (pos 15) (pos 6) any (pos 15) any (pos 1) any any (codes "Pentium(R) 4 - M") 6
        (codes "Mobile P-4 (Cedar Mill)") (codes "65 nm")
    ∷ known_as (pos 15) (pos 6) any (pos 15) any (pos 1) any any (codes "Celeron(R) D") 4
        (codes "P-4 Celeron D (Cedar Mill)") (codes "65 nm")
    ∷ known_as (pos 6) (pos 14) any (pos 14) any (pos 1) any any (codes "Core(TM) [UT]1#[05]0") 6
        (codes "Core Solo (Yonah)") (codes "65 nm")
    ∷ known_as (pos 6) (pos 14) any (pos 14) any (pos 1) any any (codes "Core(TM) 1#[05]0") 4
        (codes "Core Solo (Yonah)") (codes "65 nm")
    ∷ known_as (pos 6) (pos 14) any (pos 14) any (pos 2) any any (codes "Core(TM) Duo [UTL]2#[05]#")
        6 (codes "Core Duo (Yonah)") (codes "65 nm")
    ∷ known_as (pos 6) (pos 14) any (pos 14) any (pos 2) any any (codes "Core(TM) Duo 2#[05]#") 4
        (codes "Core Duo (Yonah)") (codes "65 nm")
    ∷ known_as (pos 6) (pos 14) any (pos 14) any any any any (codes "Celeron(R) 215") 6
        (codes "Celeron (Yonah-512)") (codes "65 nm")
    ∷ known_as (pos 6) (pos 14) any (pos 14) any any any any (codes "Celeron(R) M") 4
        (codes "Celeron (Yonah-1024)") (codes "65 nm")
    ∷ known_as (pos 15) (pos 6) any (pos 15) any (pos 1) any any (codes "Pentium(R) D") 4
        (codes "Pentium D (Presler)") (codes "65 nm")
    ∷ known_as (pos 15) (pos 6) (pos 2) (pos 15) any (pos 1) any any (codes "Pentium(R)") 2
        (codes "Pentium Extreme Edition (Presler)") (codes "65 nm")
    ∷ known_as (pos 15) (pos 6) (pos 4) (pos 15) any (pos 1) any any (codes "Xeon(TM)") 2
        (codes "Xeon (Dempsey)") (codes "65 nm")
    ∷ known_as (pos 15) (pos 6) (pos 6) (pos 15) any (pos 1) any any (codes "Xeon(TM)") 2
        (codes "Xeon (Tulsa)") (codes "65 nm")
    ∷ known_as (pos 15) (pos 6) (pos 8) (pos 15) any (pos 1) any any (codes "Xeon(TM)") 2
        (codes "Xeon (Tulsa)") (codes "65 nm")
    ∷ known_as (pos 6) (pos 15) any any any (pos 2) (pos 2048) any (codes "Core(TM)2 Duo E6###") 8
        (codes "Core 2 Duo (Conroe-2M)") (codes "65 nm")
    ∷ known_as (pos 6) (pos 15) any any any (pos 2) (pos 4096) any (codes "Core(TM)2 Duo E6###") 8
        (codes "Core 2 Duo (Conroe)") (codes "65 nm")
    ∷ known_as (pos 6) (pos 15) any any any (pos 2) (pos 4096) any (codes "Core(TM)2 6###") 4
        (codes "Core 2 Duo (Conroe)") (codes "65 nm")
    ∷ known_as (pos 6) (pos 15) any any any (pos 2) (pos 4096) any (codes "Core(TM)2 X6###") 6
        (codes "Core 2 Extreme (Conroe XE)") (codes "65 nm")
    ∷ known_as (pos 6) (pos 15) any any any (pos 4) (pos 4096) any (codes "Core(TM)2 Quad Q6###") 8
        (codes "Core 2 Quad (Kentsfield)") (codes "65 nm")
    ∷ known_as (pos 6) (pos 15) any any any (pos 2) (pos 2048) any (codes "Core(TM)2 Duo E4###") 8
        (codes "Core 2 Duo (Allendale)") (codes "65 nm")
    ∷ known_as (pos 6) (pos 15) any any (pos 15) (pos 2) (pos 2048) any (codes "Core(TM)2 U7###") 6
        (codes "Core 2 Duo (Merom-2M)") (codes "65 nm")
    ∷ known_as (pos 6) (pos 15) any any (pos 15) (pos 2) (pos 2048) any (codes "Core(TM)2 T[57]###")
        6 (codes "Core 2 Duo (Merom-2M)") (codes "65 nm")
    ∷ known_as (pos 6) (pos 15) any any (pos 15) (pos 2) (pos 4096) any (codes "Core(TM)2 T7###") 6
        (codes "Core 2 Duo (Merom)") (codes "65 nm")
    ∷ known_as (pos 6) (pos 15) any any (pos 15) (pos 2) (pos 4096) any
        (codes "Core(TM)2 S[LP]7###") 6 (codes "Core 2 Duo (Merom)") (codes "65 nm")
    ∷ known_as (pos 6) (pos 15) any any (pos 15) (pos 2) (pos 4096) any (codes "Core(TM)2 L7###") 6
        (codes "Core 2 Duo (Merom)") (codes "65 nm")
    ∷ known_as (pos 6) (pos 15) any any (pos 15) (pos 2) any any (codes "Pentium(R) Dual E2###") 8
        (codes "Pentium Dual-Core (Allendale)") (codes "65 nm")
    ∷ known_as (pos 6) (pos 15) any any (pos 15) (pos 2) any any (codes "Celeron(R) E1###") 6
        (codes "Celeron (Allendale)") (codes "65 nm")
    ∷ known_as (pos 6) (pos 6) any any (pos 22) (pos 1) any any (codes "Celeron(R) [24]##") 4
        (codes "Celeron (Conroe-L)") (codes "65 nm")
    ∷ known_as (pos 6) (pos 14) any any (pos 14) (pos 1) any any (codes "Xeon(R) 51##") 4
        (codes "Xeon LV (Woodcrest)") (codes "65 nm")
    ∷ known_as (pos 6) (pos 15) any any (pos 15) (pos 2) any any (codes "Xeon(R) 51##") 4
        (codes "Xeon (Woodcrest)") (codes "65 nm")
    ∷ known_as (pos 6) (pos 15) any any (pos 15) (pos 2) any any (codes "Xeon(R) 30##") 4
        (codes "Xeon (Conroe)") (codes "65 nm")
    ∷ known_as (pos 6) (pos 15) any any (pos 15) (pos 4) any any (codes "Xeon(R) X32##") 6
        (codes "Xeon (Kentsfield)") (codes "65 nm")
    ∷ known_as (pos 6) (pos 15) any any (pos 15) (pos 4) any any (codes "Xeon(R) [EXL]53##") 6
        (codes "Xeon (Clovertown)") (codes "65 nm")
    ∷ known_as (pos 6) (pos 7) any any (pos 23) (pos 2) (pos 1024) any (codes "Celeron(R) E3###") 6
        (codes "Celeron (Wolfdale-3M)") (codes "45 nm")
    ∷ known_as (pos 6) (pos 7) any any (pos 23) (pos 2) (pos 1024) any (codes "Pentium(R) E2###") 6
        (codes "Celeron (Wolfdale-3M)") (codes "45 nm")
    ∷ known_as (pos 6) (pos 7) any any (pos 23) (pos 2) (pos 2048) any (codes "Pentium(R) E[56]###")
        6 (codes "Pentium (Wolfdale-3M)") (codes "45 nm")
    ∷ known_as (pos 6) (pos 7) any any (pos 23) (pos 2) (pos 3072) any (codes "Core(TM)2 Duo E7###")
        8 (codes "Core 2 Duo (Wolfdale-3M)") (codes "45 nm")
    ∷ known_as (pos 6) (pos 7) any any (pos 23) (pos 2) (pos 6144) any (codes "Core(TM)2 Duo E8###")
        8 (codes "Core 2 Duo (Wolfdale)") (codes "45 nm")
    ∷ known_as (pos 6) (pos 7) any any (pos 23) (pos 2) (pos 1024) any
        (codes "Pentium(R) Dual-Core T4###") 8 (codes "Pentium Dual-Core (Penryn-L)")
        (codes "45 nm")
    ∷ []
