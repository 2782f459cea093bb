-- ===== src/Recog/Intel/Table/Part1.antt =====
-- `cpudb_intel` of libcpuid/recog_intel.c: rows 1 to 58 of 517.
use libcpuid.Base.{List, [], ◌∷◌, ◌++◌, pos, codes}
use libcpuid.Util.Codename.{MatchEntry, known_as, any, unkn_str}

abbrev pub cpudb_intel_part1 : List MatchEntry
cpudb_intel_part1 =
    known_as any any any any any (pos 1) any any [] 0 (codes "Unknown Intel CPU") unkn_str
    ∷ known_as (pos 4) any any any any (pos 1) any any [] 0 (codes "Unknown i486") unkn_str
    ∷ known_as (pos 4) (pos 0) any any any (pos 1) any any [] 0 (codes "i486 DX-25/33")
        (codes "1 " ++ (194 ∷ 181 ∷ codes "m"))
    ∷ known_as (pos 4) (pos 1) any any any (pos 1) any any [] 0 (codes "i486 DX-50")
        (codes "0.8 " ++ (194 ∷ 181 ∷ codes "m"))
    ∷ known_as (pos 4) (pos 2) any any any (pos 1) any any [] 0 (codes "i486 SX") unkn_str
    ∷ known_as (pos 4) (pos 3) any any any (pos 1) any any [] 0 (codes "i486 DX2") unkn_str
    ∷ known_as (pos 4) (pos 4) any any any (pos 1) any any [] 0 (codes "i486 SL")
        (codes "0.8 " ++ (194 ∷ 181 ∷ codes "m"))
    ∷ known_as (pos 4) (pos 5) any any any (pos 1) any any [] 0 (codes "i486 SX2") unkn_str
    ∷ known_as (pos 4) (pos 7) any any any (pos 1) any any [] 0 (codes "i486 DX2 WriteBack")
        unkn_str
    ∷ known_as (pos 4) (pos 8) any any any (pos 1) any any [] 0 (codes "i486 DX4")
        (codes "0.6 " ++ (194 ∷ 181 ∷ codes "m"))
    ∷ known_as (pos 4) (pos 9) any any any (pos 1) any any [] 0 (codes "i486 DX4 WriteBack")
        (codes "0.6 " ++ (194 ∷ 181 ∷ codes "m"))
    ∷ known_as (pos 5) (pos 0) any any any (pos 1) any any (codes "Pentium(R)") 2
        (codes "Pentium A-Step") unkn_str
    ∷ known_as (pos 5) (pos 1) any any any (pos 1) any any (codes "Pentium(R)") 2
        (codes "Pentium 1") (codes "0.8 " ++ (194 ∷ 181 ∷ codes "m"))
    ∷ known_as (pos 5) (pos 2) any any any (pos 1) any any (codes "Pentium(R)") 2
        (codes "Pentium 1") (codes "0.35 " ++ (194 ∷ 181 ∷ codes "m"))
    ∷ known_as (pos 5) (pos 3) any any any (pos 1) any any (codes "Pentium(R)") 2
        (codes "Pentium OverDrive") unkn_str
    ∷ known_as (pos 5) (pos 4) any any any (pos 1) any any (codes "Pentium(R)") 2
        (codes "Pentium 1") (codes "0.35 " ++ (194 ∷ 181 ∷ codes "m"))
    ∷ known_as (pos 5) (pos 7) any any any (pos 1) any any (codes "Pentium(R)") 2
        (codes "Pentium 1") (codes "0.35 " ++ (194 ∷ 181 ∷ codes "m"))
    ∷ known_as (pos 5) (pos 8) any any any (pos 1) any any (codes "Pentium(R)") 2
        (codes "Pentium MMX") (codes "0.25 " ++ (194 ∷ 181 ∷ codes "m"))
    ∷ known_as (pos 6) (pos 0) any any any (pos 1) any any (codes "Pentium(R)") 2
        (codes "Pentium Pro") unkn_str
    ∷ known_as (pos 6) (pos 1) any any any (pos 1) any any (codes "Pentium(R)") 2
        (codes "Pentium Pro") unkn_str
    ∷ known_as (pos 6) (pos 3) any any any (pos 1) any any (codes "Pentium(R)") 2
        (codes "Pentium II (Klamath)") (codes "0.18 " ++ (194 ∷ 181 ∷ codes "m"))
    ∷ known_as (pos 6) (pos 5) any any any (pos 1) any any (codes "Pentium(R)") 2
        (codes "Pentium II (Deschutes)") (codes "0.18 " ++ (194 ∷ 181 ∷ codes "m"))
    ∷ known_as (pos 6) (pos 5) any any any (pos 1) any any (codes "Pentium(R) M") 4
        (codes "Mobile Pentium II (Tonga)") (codes "0.18 " ++ (194 ∷ 181 ∷ codes "m"))
    ∷ known_as (pos 6) (pos 6) any any any (pos 1) any any (codes "Pentium(R)") 2
        (codes "Pentium II (Dixon)") (codes "0.25 " ++ (194 ∷ 181 ∷ codes "m"))
    ∷ known_as (pos 6) (pos 3) any any any (pos 1) any any (codes "Xeon(TM)") 2
        (codes "P-II Xeon (Klamath)") (codes "0.35 " ++ (194 ∷ 181 ∷ codes "m"))
    ∷ known_as (pos 6) (pos 5) any any any (pos 1) any any (codes "Xeon(TM)") 2
        (codes "P-II Xeon (Drake)") (codes "0.25 " ++ (194 ∷ 181 ∷ codes "m"))
    ∷ known_as (pos 6) (pos 6) any any any (pos 1) any any (codes "Xeon(TM)") 2
        (codes "P-II Xeon (Dixon)") (codes "0.25 " ++ (194 ∷ 181 ∷ codes "m"))
    ∷ known_as (pos 6) (pos 5) any any any (pos 1) any any (codes "Celeron(R)") 2
        (codes "P-II Celeron (Covington)") (codes "0.25 " ++ (194 ∷ 181 ∷ codes "m"))
    ∷ known_as (pos 6) (pos 6) any any any (pos 1) any any (codes "Celeron(R)") 2
        (codes "P-II Celeron (Mendocino)") (codes "0.25 " ++ (194 ∷ 181 ∷ codes "m"))
    ∷ known_as (pos 6) (pos 7) any any any (pos 1) any any (codes "Pentium(R)") 2
        (codes "Pentium III (Katmai)") (codes "0.25 " ++ (194 ∷ 181 ∷ codes "m"))
    ∷ known_as (pos 6) (pos 8) any any any (pos 1) any any (codes "Pentium(R)") 2
        (codes "Pentium III (Coppermine)") (codes "0.18 " ++ (194 ∷ 181 ∷ codes "m"))
    ∷ known_as (pos 6) (pos 10) any any any (pos 1) any any (codes "Pentium(R)") 2
        (codes "Pentium III (Coppermine)") (codes "0.18 " ++ (194 ∷ 181 ∷ codes "m"))
    ∷ known_as (pos 6) (pos 11) any any any (pos 1) any any (codes "Pentium(R)") 2
        (codes "Pentium III (Tualatin)") (codes "0.13 " ++ (194 ∷ 181 ∷ codes "m"))
    ∷ known_as (pos 6) (pos 11) any any any (pos 1) (pos 512) any (codes "Pentium(R)") 2
        (codes "Pentium III (Tualatin)") (codes "0.13 " ++ (194 ∷ 181 ∷ codes "m"))
    ∷ known_as (pos 6) (pos 7) any any any (pos 1) any any (codes "Xeon(TM)") 2
        (codes "P-III Xeon (Tanner)") (codes "0.25 " ++ (194 ∷ 181 ∷ codes "m"))
    ∷ known_as (pos 6) (pos 8) any any any (pos 1) any any (codes "Xeon(TM)") 2
        (codes "P-III Xeon (Cascades)") (codes "0.18 " ++ (194 ∷ 181 ∷ codes "m"))
    ∷ known_as (pos 6) (pos 10) any any any (pos 1) any any (codes "Xeon(TM)") 2
        (codes "P-III Xeon (Cascades)") (codes "0.18 " ++ (194 ∷ 181 ∷ codes "m"))
    ∷ known_as (pos 6) (pos 11) any any any (pos 1) any any (codes "Xeon(TM)") 2
        (codes "P-III Xeon (Tualatin)") (codes "0.13 " ++ (194 ∷ 181 ∷ codes "m"))
    ∷ known_as (pos 6) (pos 7) any any any (pos 1) (pos 128) any (codes "Celeron(R)") 2
        (codes "P-III Celeron (Katmai)") (codes "0.25 " ++ (194 ∷ 181 ∷ codes "m"))
    ∷ known_as (pos 6) (pos 8) any any any (pos 1) (pos 128) any (codes "Celeron(R)") 2
        (codes "P-III Celeron (Coppermine)") (codes "0.18 " ++ (194 ∷ 181 ∷ codes "m"))
    ∷ known_as (pos 6) (pos 10) any any any (pos 1) (pos 128) any (codes "Celeron(R)") 2
        (codes "P-III Celeron (Coppermine)") (codes "0.18 " ++ (194 ∷ 181 ∷ codes "m"))
    ∷ known_as (pos 6) (pos 11) any any any (pos 1) (pos 256) any (codes "Celeron(R)") 2
        (codes "P-III Celeron (Tualatin)") (codes "0.13 " ++ (194 ∷ 181 ∷ codes "m"))
    ∷ known_as (pos 15) (pos 0) any (pos 15) any (pos 1) any any (codes "Pentium(R)") 2
        (codes "Pentium 4 (Willamette)") (codes "0.18 " ++ (194 ∷ 181 ∷ codes "m"))
    ∷ known_as (pos 15) (pos 1) any (pos 15) any (pos 1) any any (codes "Pentium(R)") 2
        (codes "Pentium 4 (Willamette)") (codes "0.18 " ++ (194 ∷ 181 ∷ codes "m"))
    ∷ known_as (pos 15) (pos 0) any (pos 15) any (pos 1) any any (codes "Pentium(R) 4 - M") 6
        (codes "Mobile P-4 (Willamette)") (codes "0.18 " ++ (194 ∷ 181 ∷ codes "m"))
    ∷ known_as (pos 15) (pos 1) any (pos 15) any (pos 1) any any (codes "Pentium(R) 4 - M") 6
        (codes "Mobile P-4 (Willamette)") (codes "0.18 " ++ (194 ∷ 181 ∷ codes "m"))
    ∷ known_as (pos 15) (pos 1) any (pos 15) any (pos 1) any any (codes "Celeron(R)") 2
        (codes "P-4 Celeron (Willamette)") (codes "0.18 " ++ (194 ∷ 181 ∷ codes "m"))
    ∷ known_as (pos 15) (pos 0) any (pos 15) any (pos 1) any any (codes "Xeon(TM)") 2
        (codes "Xeon (Foster)") (codes "0.18 " ++ (194 ∷ 181 ∷ codes "m"))
    ∷ known_as (pos 15) (pos 1) any (pos 15) any (pos 1) any any (codes "Xeon(TM)") 2
        (codes "Xeon (Foster)") (codes "0.18 " ++ (194 ∷ 181 ∷ codes "m"))
    ∷ known_as (pos 15) (pos 2) any (pos 15) any (pos 1) any any (codes "Pentium(R) 4") 2
        (codes "Pentium 4 (Northwood)") (codes "0.13 " ++ (194 ∷ 181 ∷ codes "m"))
    ∷ known_as (pos 15) (pos 2) any (pos 15) any (pos 1) any any (codes "Pentium(R) 4 - M") 6
        (codes "Mobile P-4 (Northwood)") (codes "0.13 " ++ (194 ∷ 181 ∷ codes "m"))
    ∷ known_as (pos 15) (pos 2) any (pos 15) any (pos 1) any any (codes "Celeron(R)") 2
        (codes "P-4 Celeron (Northwood)") (codes "0.13 " ++ (194 ∷ 181 ∷ codes "m"))
    ∷ known_as (pos 6) (pos 9) any any any (pos 1) any any (codes "Pentium(R)") 2
        (codes "Pentium M (Banias)") (codes "0.13 " ++ (194 ∷ 181 ∷ codes "m"))
    ∷ known_as (pos 6) (pos 9) any any any (pos 1) any any (codes "Pentium(R) 4 - M") 6
        (codes "Pentium M (Banias)") (codes "0.13 " ++ (194 ∷ 181 ∷ codes "m"))
    ∷ known_as (pos 6) (pos 9) any any any (pos 1) any any (codes "Celeron(R)") 2
        (codes "Celeron M (Banias)") (codes "0.13 " ++ (194 ∷ 181 ∷ codes "m"))
    ∷ known_as (pos 6) (pos 9) any any any (pos 1) any any (codes "Celeron(R) M") 4
        (codes "Celeron M (Banias)") (codes "0.13 " ++ (194 ∷ 181 ∷ codes "m"))
    ∷ known_as (pos 6) (pos 9) any any any (pos 1) (pos 0) any (codes "Celeron(R)") 2
        (codes "Celeron M (Shelton)") (codes "0.13 " ++ (194 ∷ 181 ∷ codes "m"))
    ∷ known_as (pos 15) (pos 2) any (pos 15) any (pos 1) any any (codes "Xeon(TM)") 2
        (codes "Xeon (Prestonia)") (codes "0.13 " ++ (194 ∷ 181 ∷ codes "m"))
    ∷ []
