-- ===== src/Recog/Amd/Table/Part2.antt =====
-- `cpudb_amd` of libcpuid/recog_amd.c: rows 54 to 106 of 371.
use libcpuid.Base.{List, [], ◌∷◌, pos, codes}
use libcpuid.Util.Codename.{MatchEntry, known_as, any, unkn_str}

abbrev pub cpudb_amd_part2 : List MatchEntry
cpudb_amd_part2 =
    known_as (pos 15) any any (pos 15) any (pos 1) (pos 512) any (codes "Athlon(tm) 64") 4
      (codes "Athlon 64 (512K)") unkn_str
    ∷ known_as (pos 15) any any (pos 15) any (pos 1) (pos 1024) any (codes "Athlon(tm) 64") 4
        (codes "Athlon 64 (1024K)") unkn_str
    ∷ known_as (pos 15) any any (pos 15) any (pos 1) any any (codes "Athlon(tm) FX") 4
        (codes "Athlon FX") unkn_str
    ∷ known_as (pos 15) any any (pos 15) any (pos 1) any any (codes "Athlon(tm) 64 FX") 6
        (codes "Athlon 64 FX") unkn_str
    ∷ known_as (pos 15) (pos 3) any (pos 15) (pos 35) (pos 2) any any (codes "Athlon(tm) 64 FX") 6
        (codes "Athlon 64 FX X2 (Toledo)") (codes "90 nm")
    ∷ known_as (pos 15) any any (pos 15) any (pos 2) (pos 512) any (codes "Athlon(tm) 64 X2") 6
        (codes "Athlon 64 X2 (512K)") unkn_str
    ∷ known_as (pos 15) any any (pos 15) any (pos 2) (pos 1024) any (codes "Athlon(tm) 64 X2") 6
        (codes "Athlon 64 X2 (1024K)") unkn_str
    ∷ known_as (pos 15) any any (pos 15) any (pos 1) (pos 512) any (codes "Turion(tm) 64") 4
        (codes "Turion 64 (512K)") unkn_str
    ∷ known_as (pos 15) any any (pos 15) any (pos 1) (pos 1024) any (codes "Turion(tm) 64") 4
        (codes "Turion 64 (1024K)") unkn_str
    ∷ known_as (pos 15) any any (pos 15) any (pos 2) (pos 512) any (codes "Turion(tm) X2") 4
        (codes "Turion 64 X2 (512K)") unkn_str
    ∷ known_as (pos 15) any any (pos 15) any (pos 2) (pos 1024) any (codes "Turion(tm) X2") 4
        (codes "Turion 64 X2 (1024K)") unkn_str
    ∷ known_as (pos 15) any any (pos 15) any (pos 1) (pos 128) any (codes "Sempron(tm)") 2
        (codes "A64 Sempron (128K)") unkn_str
    ∷ known_as (pos 15) any any (pos 15) any (pos 1) (pos 256) any (codes "Sempron(tm)") 2
        (codes "A64 Sempron (256K)") unkn_str
    ∷ known_as (pos 15) any any (pos 15) any (pos 1) (pos 512) any (codes "Sempron(tm)") 2
        (codes "A64 Sempron (512K)") unkn_str
    ∷ known_as (pos 15) any any (pos 15) (pos 79) (pos 1) (pos 512) any (codes "Athlon(tm) 64") 4
        (codes "Athlon 64 (Orleans/512K)") (codes "90 nm")
    ∷ known_as (pos 15) any any (pos 15) (pos 95) (pos 1) (pos 512) any (codes "Athlon(tm) 64") 4
        (codes "Athlon 64 (Orleans/512K)") (codes "90 nm")
    ∷ known_as (pos 15) any any (pos 15) (pos 47) (pos 1) (pos 512) any (codes "Athlon(tm) 64") 4
        (codes "Athlon 64 (Venice/512K)") (codes "90 nm")
    ∷ known_as (pos 15) any any (pos 15) (pos 44) (pos 1) (pos 512) any (codes "Athlon(tm) 64") 4
        (codes "Athlon 64 (Venice/512K)") (codes "90 nm")
    ∷ known_as (pos 15) any any (pos 15) (pos 31) (pos 1) (pos 512) any (codes "Athlon(tm) 64") 4
        (codes "Athlon 64 (Winchester/512K)") (codes "90 nm")
    ∷ known_as (pos 15) any any (pos 15) (pos 12) (pos 1) (pos 512) any (codes "Athlon(tm) 64") 4
        (codes "Athlon 64 (Newcastle/512K)") (codes "130 nm")
    ∷ known_as (pos 15) any any (pos 15) (pos 39) (pos 1) (pos 512) any (codes "Athlon(tm) 64") 4
        (codes "Athlon 64 (San Diego/512K)") (codes "90 nm")
    ∷ known_as (pos 15) any any (pos 15) (pos 55) (pos 1) (pos 512) any (codes "Athlon(tm) 64") 4
        (codes "Athlon 64 (San Diego/512K)") (codes "90 nm")
    ∷ known_as (pos 15) any any (pos 15) (pos 4) (pos 1) (pos 512) any (codes "Athlon(tm) 64") 4
        (codes "Athlon 64 (ClawHammer/512K)") (codes "130 nm")
    ∷ known_as (pos 15) any any (pos 15) (pos 95) (pos 1) (pos 1024) any (codes "Athlon(tm) 64") 4
        (codes "Athlon 64 (Orleans/1024K)") (codes "90 nm")
    ∷ known_as (pos 15) any any (pos 15) (pos 39) (pos 1) (pos 1024) any (codes "Athlon(tm) 64") 4
        (codes "Athlon 64 (San Diego/1024K)") (codes "90 nm")
    ∷ known_as (pos 15) any any (pos 15) (pos 4) (pos 1) (pos 1024) any (codes "Athlon(tm) 64") 4
        (codes "Athlon 64 (ClawHammer/1024K)") (codes "130 nm")
    ∷ known_as (pos 15) any any (pos 15) (pos 75) (pos 2) (pos 256) any (codes "Athlon(tm) 64 X2") 6
        (codes "Athlon 64 X2 (Windsor/256K)") (codes "90 nm")
    ∷ known_as (pos 15) any any (pos 15) (pos 35) (pos 2) (pos 512) any (codes "Athlon(tm) 64 X2") 6
        (codes "Athlon 64 X2 (Toledo/512K)") (codes "90 nm")
    ∷ known_as (pos 15) any any (pos 15) (pos 75) (pos 2) (pos 512) any (codes "Athlon(tm) 64 X2") 6
        (codes "Athlon 64 X2 (Windsor/512K)") (codes "90 nm")
    ∷ known_as (pos 15) any any (pos 15) (pos 67) (pos 2) (pos 512) any (codes "Athlon(tm) 64 X2") 6
        (codes "Athlon 64 X2 (Windsor/512K)") (codes "90 nm")
    ∷ known_as (pos 15) any any (pos 15) (pos 107) (pos 2) (pos 512) any (codes "Athlon(tm) 64 X2")
        6 (codes "Athlon 64 X2 (Brisbane/512K)") (codes "65 nm")
    ∷ known_as (pos 15) any any (pos 15) (pos 43) (pos 2) (pos 512) any (codes "Athlon(tm) 64 X2") 6
        (codes "Athlon 64 X2 (Manchester/512K)") (codes "90 nm")
    ∷ known_as (pos 15) any any (pos 15) (pos 35) (pos 2) (pos 1024) any (codes "Athlon(tm) 64 X2")
        6 (codes "Athlon 64 X2 (Toledo/1024K)") (codes "90 nm")
    ∷ known_as (pos 15) any any (pos 15) (pos 67) (pos 2) (pos 1024) any (codes "Athlon(tm) 64 X2")
        6 (codes "Athlon 64 X2 (Windsor/1024K)") (codes "90 nm")
    ∷ known_as (pos 15) any any (pos 15) (pos 8) (pos 1) (pos 128) any
        (codes "Mobile AMD Sempron(tm)") 6 (codes "Mobile Sempron 64 (Dublin/128K)")
        (codes "130 nm")
    ∷ known_as (pos 15) any any (pos 15) (pos 8) (pos 1) (pos 256) any
        (codes "Mobile AMD Sempron(tm)") 6 (codes "Mobile Sempron 64 (Dublin/256K)")
        (codes "130 nm")
    ∷ known_as (pos 15) any any (pos 15) (pos 12) (pos 1) (pos 256) any (codes "Sempron(tm)") 2
        (codes "Sempron 64 (Paris)") (codes "130 nm")
    ∷ known_as (pos 15) any any (pos 15) (pos 28) (pos 1) (pos 128) any (codes "Sempron(tm)") 2
        (codes "Sempron 64 (Palermo/128K)") (codes "90 nm")
    ∷ known_as (pos 15) any any (pos 15) (pos 28) (pos 1) (pos 256) any (codes "Sempron(tm)") 2
        (codes "Sempron 64 (Palermo/256K)") (codes "90 nm")
    ∷ known_as (pos 15) any any (pos 15) (pos 28) (pos 1) (pos 128) any
        (codes "Mobile AMD Sempron(tm)") 6 (codes "Mobile Sempron 64 (Sonora/128K)") (codes "90 nm")
    ∷ known_as (pos 15) any any (pos 15) (pos 28) (pos 1) (pos 256) any
        (codes "Mobile AMD Sempron(tm)") 6 (codes "Mobile Sempron 64 (Sonora/256K)") (codes "90 nm")
    ∷ known_as (pos 15) any any (pos 15) (pos 44) (pos 1) (pos 128) any (codes "Sempron(tm)") 2
        (codes "Sempron 64 (Palermo/128K)") (codes "90 nm")
    ∷ known_as (pos 15) any any (pos 15) (pos 44) (pos 1) (pos 256) any (codes "Sempron(tm)") 2
        (codes "Sempron 64 (Palermo/256K)") (codes "90 nm")
    ∷ known_as (pos 15) any any (pos 15) (pos 44) (pos 1) (pos 128) any
        (codes "Mobile AMD Sempron(tm)") 6 (codes "Mobile Sempron 64 (Albany/128K)") (codes "90 nm")
    ∷ known_as (pos 15) any any (pos 15) (pos 44) (pos 1) (pos 256) any
        (codes "Mobile AMD Sempron(tm)") 6 (codes "Mobile Sempron 64 (Albany/256K)") (codes "90 nm")
    ∷ known_as (pos 15) any any (pos 15) (pos 47) (pos 1) (pos 128) any (codes "Sempron(tm)") 2
        (codes "Sempron 64 (Palermo/128K)") (codes "90 nm")
    ∷ known_as (pos 15) any any (pos 15) (pos 47) (pos 1) (pos 256) any (codes "Sempron(tm)") 2
        (codes "Sempron 64 (Palermo/256K)") (codes "90 nm")
    ∷ known_as (pos 15) any any (pos 15) (pos 79) (pos 1) (pos 128) any (codes "Sempron(tm)") 2
        (codes "Sempron 64 (Manila/128K)") (codes "90 nm")
    ∷ known_as (pos 15) any any (pos 15) (pos 79) (pos 1) (pos 256) any (codes "Sempron(tm)") 2
        (codes "Sempron 64 (Manila/256K)") (codes "90 nm")
    ∷ known_as (pos 15) any any (pos 15) (pos 95) (pos 1) (pos 128) any (codes "Sempron(tm)") 2
        (codes "Sempron 64 (Manila/128K)") (codes "90 nm")
    ∷ known_as (pos 15) any any (pos 15) (pos 95) (pos 1) (pos 256) any (codes "Sempron(tm)") 2
        (codes "Sempron 64 (Manila/256K)") (codes "90 nm")
    ∷ known_as (pos 15) any any (pos 15) (pos 107) (pos 2) (pos 256) any (codes "Sempron(tm)") 2
        (codes "Sempron 64 Dual (Sherman/256K)") (codes "65 nm")
    ∷ known_as (pos 15) any any (pos 15) (pos 107) (pos 2) (pos 512) any (codes "Sempron(tm)") 2
        (codes "Sempron 64 Dual (Sherman/512K)") (codes "65 nm")
    ∷ []
