-- ===== src/Recog/Amd/Table/Part1.antt =====
-- `cpudb_amd` of libcpuid/recog_amd.c: rows 1 to 53 of 371.
use libcpuid.Base.{List, [], ◌∷◌, pos, codes}
use libcpuid.Util.Codename.{MatchEntry, known_as, any, unkn_str}

abbrev pub cpudb_amd_part1 : List MatchEntry
cpudb_amd_part1 =
    known_as any any any any any (pos 1) any any [] 0 (codes "Unknown AMD CPU") unkn_str
    ∷ known_as (pos 4) any any any any (pos 1) any any [] 0 (codes "Unknown 486") unkn_str
    ∷ known_as (pos 4) (pos 3) any any any (pos 1) any any [] 0 (codes "AMD 486DX2") unkn_str
    ∷ known_as (pos 4) (pos 7) any any any (pos 1) any any [] 0 (codes "AMD 486DX2WB") unkn_str
    ∷ known_as (pos 4) (pos 8) any any any (pos 1) any any [] 0 (codes "AMD 486DX4") unkn_str
    ∷ known_as (pos 4) (pos 9) any any any (pos 1) any any [] 0 (codes "AMD 486DX4WB") unkn_str
    ∷ known_as (pos 5) any any any any (pos 1) any any [] 0 (codes "Unknown K5") unkn_str
    ∷ known_as (pos 5) (pos 0) any any any (pos 1) any any [] 0 (codes "K5 (SSA/5)") unkn_str
    ∷ known_as (pos 5) (pos 1) any any any (pos 1) any any (codes "K5(tm)") 2 (codes "K5 (5k86)")
        (codes "350 nm")
    ∷ known_as (pos 5) (pos 2) any any any (pos 1) any any (codes "K5(tm)") 2 (codes "K5 (5k86)")
        (codes "350 nm")
    ∷ known_as (pos 5) (pos 3) any any any (pos 1) any any (codes "K5(tm)") 2 (codes "K5 (5k86)")
        (codes "350 nm")
    ∷ known_as (pos 5) any any any any (pos 1) any any [] 0 (codes "Unknown K6") unkn_str
    ∷ known_as (pos 5) (pos 6) any any any (pos 1) any any (codes "K6") 2 (codes "K6")
        (codes "350 nm")
    ∷ known_as (pos 5) (pos 7) any any any (pos 1) any any (codes "K6") 2 (codes "K6 (Little Foot)")
        (codes "250 nm")
    ∷ known_as (pos 5) (pos 8) (pos 0) any any (pos 1) any any (codes "K6(tm)") 2
        (codes "K6-2 (Chomper)") (codes "250 nm")
    ∷ known_as (pos 5) (pos 8) (pos 12) any any (pos 1) any any (codes "K6(tm)") 2
        (codes "K6-2 (Chomper Extended)") (codes "250 nm")
    ∷ known_as (pos 5) (pos 9) any any any (pos 1) any any (codes "K6(tm)") 2
        (codes "K6-III (Sharptooth)") (codes "250 nm")
    ∷ known_as (pos 5) (pos 13) any any any (pos 1) any any (codes "K6(tm)") 2 (codes "K6-2+")
        (codes "180 nm")
    ∷ known_as (pos 5) (pos 13) any any any (pos 1) any any (codes "K6(tm)-III ") 4
        (codes "K6-III+") (codes "180 nm")
    ∷ known_as (pos 6) any any (pos 15) any (pos 1) any any [] 0 (codes "Unknown K7") unkn_str
    ∷ known_as (pos 6) (pos 1) any any any (pos 1) any any (codes "K7(tm)") 0
        (codes "Athlon (Argon)") (codes "250 nm")
    ∷ known_as (pos 6) (pos 2) any any any (pos 1) any any (codes "Athlon(tm)") 0
        (codes "Athlon (Pluto/Orion)") (codes "180 nm")
    ∷ known_as (pos 6) (pos 3) any any any (pos 1) any any (codes "Duron(tm)") 2
        (codes "Duron (Spitfire)") (codes "180 nm")
    ∷ known_as (pos 6) (pos 3) any any any (pos 1) any any (codes "Duron(tm) M") 4
        (codes "Mobile Duron (Spitfire)") (codes "180 nm")
    ∷ known_as (pos 6) (pos 4) any any any (pos 1) any any (codes "Athlon(tm)") 2
        (codes "Athlon (ThunderBird)") (codes "180 nm")
    ∷ known_as (pos 6) (pos 6) any any any (pos 1) any any (codes "Athlon XP") 4
        (codes "Athlon (Palomino)") (codes "180 nm")
    ∷ known_as (pos 6) (pos 6) any any any (pos 1) any any (codes "Athlon(tm) MP") 4
        (codes "Athlon MP (Palomino)") (codes "180 nm")
    ∷ known_as (pos 6) (pos 6) any any any (pos 1) any any (codes "Duron(tm)") 2
        (codes "Duron (Palomino)") (codes "180 nm")
    ∷ known_as (pos 6) (pos 7) any any any (pos 1) any any (codes "Duron(tm)") 2
        (codes "Duron (Morgan)") (codes "180 nm")
    ∷ known_as (pos 6) (pos 7) any any any (pos 1) any any (codes "Duron(tm) M") 4
        (codes "Mobile Duron (Camaro)") (codes "180 nm")
    ∷ known_as (pos 6) (pos 8) any any any (pos 1) any any (codes "Athlon") 2
        (codes "Athlon XP (Thoroughbred)") (codes "130 nm")
    ∷ known_as (pos 6) (pos 8) any any any (pos 1) any any (codes "Athlon(tm) XP") 4
        (codes "Athlon XP (Thoroughbred)") (codes "130 nm")
    ∷ known_as (pos 6) (pos 8) any any any (pos 1) any any (codes "Duron(tm)") 2
        (codes "Duron (Applebred)") (codes "130 nm")
    ∷ known_as (pos 6) (pos 8) any any any (pos 1) any any (codes "Sempron(tm)") 2
        (codes "Sempron (Thoroughbred)") (codes "130 nm")
    ∷ known_as (pos 6) (pos 8) any any any (pos 1) (pos 128) any (codes "Sempron(tm)") 2
        (codes "Sempron (Thoroughbred)") (codes "130 nm")
    ∷ known_as (pos 6) (pos 8) any any any (pos 1) (pos 256) any (codes "Sempron(tm)") 2
        (codes "Sempron (Thoroughbred)") (codes "130 nm")
    ∷ known_as (pos 6) (pos 8) any any any (pos 1) any any (codes "Athlon(tm) MP") 4
        (codes "Athlon MP (Thoroughbred)") (codes "130 nm")
    ∷ known_as (pos 6) (pos 8) any any any (pos 1) any any (codes "Athlon(tm) XP-M") 6
        (codes "Mobile Athlon (Thoroughbred)") (codes "130 nm")
    ∷ known_as (pos 6) (pos 10) any any any (pos 1) (pos 512) any (codes "Athlon(tm) XP") 4
        (codes "Athlon XP (Barton)") (codes "130 nm")
    ∷ known_as (pos 6) (pos 10) any any any (pos 1) (pos 512) any (codes "Sempron(tm)") 2
        (codes "Sempron (Barton)") (codes "130 nm")
    ∷ known_as (pos 6) (pos 10) any any any (pos 1) (pos 256) any (codes "Sempron(tm)") 2
        (codes "Sempron (Thorton)") (codes "130 nm")
    ∷ known_as (pos 6) (pos 10) any any any (pos 1) (pos 256) any (codes "Athlon(tm) XP") 4
        (codes "Athlon XP (Thorton)") (codes "130 nm")
    ∷ known_as (pos 6) (pos 10) any any any (pos 1) any any (codes "Athlon(tm) MP") 4
        (codes "Athlon MP (Barton)") (codes "130 nm")
    ∷ known_as (pos 6) (pos 10) any any any (pos 1) any any (codes "Athlon(tm) XP-M") 6
        (codes "Mobile Athlon (Barton)") (codes "130 nm")
    ∷ known_as (pos 15) any any (pos 15) any (pos 1) any any [] 0 (codes "Unknown K8") unkn_str
    ∷ known_as (pos 15) any any (pos 16) any (pos 1) any any [] 0 (codes "Unknown K9") unkn_str
    ∷ known_as (pos 15) any any (pos 15) any (pos 1) any any [] 0 (codes "Unknown A64") unkn_str
    ∷ known_as (pos 15) any any (pos 15) any (pos 1) any any (codes "Opteron(tm)") 2
        (codes "Opteron") unkn_str
    ∷ known_as (pos 15) any any (pos 15) any (pos 2) any any (codes "Dual Core AMD Opteron") 8
        (codes "Opteron (Dual Core)") unkn_str
    ∷ known_as (pos 15) (pos 1) any (pos 15) (pos 65) (pos 2) any any (codes "Opteron(tm) 22##") 6
        (codes "Opteron (Santa Rosa)") (codes "90 nm")
    ∷ known_as (pos 15) (pos 3) any (pos 15) any (pos 1) any any (codes "Opteron(tm)") 2
        (codes "Opteron") unkn_str
    ∷ known_as (pos 15) (pos 3) any (pos 15) any (pos 2) any any (codes "Dual Core AMD Opteron") 8
        (codes "Opteron (Dual Core)") unkn_str
    ∷ known_as (pos 15) (pos 5) any (pos 15) (pos 5) any any any (codes "Opteron(tm) [128]##") 4
        (codes "Opteron (SledgeHammer)") (codes "130 nm")
    ∷ []
