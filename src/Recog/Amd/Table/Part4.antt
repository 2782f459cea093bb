-- ===== src/Recog/Amd/Table/Part4.antt =====
-- `cpudb_amd` of libcpuid/recog_amd.c: rows 160 to 212 of 371.
use libcpuid.Base.{List, [], ◌∷◌, pos, codes}
use libcpuid.Util.Codename.{MatchEntry, known_as, any}

abbrev pub cpudb_amd_part4 : List MatchEntry
cpudb_amd_part4 =
    known_as (pos 15) (pos 0) any (pos 21) (pos 16) (pos 4) any any (codes "Athlon(tm) X4 7##") 6
      (codes "Athlon X4 (Trinity)") (codes "GF 32SHP")
    ∷ known_as (pos 15) (pos 0) any (pos 21) (pos 16) (pos 2) any any (codes "Athlon(tm) X2 3##") 6
        (codes "Athlon X2 (Trinity)") (codes "GF 32SHP")
    ∷ known_as (pos 15) (pos 0) any (pos 21) (pos 16) (pos 2) any any (codes "Sempron(tm) X2 2##") 6
        (codes "Sempron X2 (Trinity)") (codes "GF 32SHP")
    ∷ known_as (pos 15) (pos 0) any (pos 21) (pos 16) any any any (codes "A[468]-5###") 4
        (codes "A-Series (Trinity)") (codes "GF 32SHP")
    ∷ known_as (pos 15) (pos 0) any (pos 21) (pos 16) any any any (codes "A10-5###") 4
        (codes "A-Series (Trinity)") (codes "GF 32SHP")
    ∷ known_as (pos 15) (pos 0) any (pos 21) (pos 16) any any any (codes "A[468]-4###M") 6
        (codes "A-Series (Trinity)") (codes "GF 32SHP")
    ∷ known_as (pos 15) (pos 0) any (pos 21) (pos 16) any any any (codes "A10-4###M") 6
        (codes "A-Series (Trinity)") (codes "GF 32SHP")
    ∷ known_as (pos 15) (pos 0) any (pos 21) (pos 19) any any any (codes "FX(tm)-6##K") 6
        (codes "FX (Richland)") (codes "GF 32SHP")
    ∷ known_as (pos 15) (pos 0) any (pos 21) (pos 19) (pos 4) any any (codes "Athlon(tm) X4 7##") 6
        (codes "Athlon X4 (Richland)") (codes "GF 32SHP")
    ∷ known_as (pos 15) (pos 0) any (pos 21) (pos 19) (pos 2) any any (codes "Athlon(tm) X2 3##") 6
        (codes "Athlon X2 (Richland)") (codes "GF 32SHP")
    ∷ known_as (pos 15) (pos 0) any (pos 21) (pos 19) (pos 2) any any (codes "Sempron(tm) X2 2##") 6
        (codes "Sempron X2 (Richland)") (codes "GF 32SHP")
    ∷ known_as (pos 15) (pos 0) any (pos 21) (pos 19) any any any (codes "A4 PRO-7###B") 8
        (codes "A-Series (Richland)") (codes "GF 32SHP")
    ∷ known_as (pos 15) (pos 0) any (pos 21) (pos 19) any any any (codes "A[468]-[467]###") 4
        (codes "A-Series (Richland)") (codes "GF 32SHP")
    ∷ known_as (pos 15) (pos 0) any (pos 21) (pos 19) any any any (codes "A10-6###") 4
        (codes "A-Series (Richland)") (codes "GF 32SHP")
    ∷ known_as (pos 15) (pos 0) any (pos 21) (pos 19) any any any (codes "A[468]-5###M") 6
        (codes "A-Series (Richland)") (codes "GF 32SHP")
    ∷ known_as (pos 15) (pos 0) any (pos 21) (pos 19) any any any (codes "A10-5###M") 6
        (codes "A-Series (Richland)") (codes "GF 32SHP")
    ∷ known_as (pos 15) (pos 2) any (pos 21) (pos 2) any any any (codes "Opteron(tm)") 2
        (codes "Opteron (Abu Dhabi)") (codes "GF 32SHP")
    ∷ known_as (pos 15) (pos 8) any (pos 21) (pos 48) any any any (codes "FX(tm)-7##K") 6
        (codes "FX (Kaveri)") (codes "TSMC N28")
    ∷ known_as (pos 15) (pos 8) any (pos 21) (pos 48) any any any (codes "FX(tm)-7###") 4
        (codes "FX (Kaveri)") (codes "TSMC N28")
    ∷ known_as (pos 15) (pos 8) any (pos 21) (pos 48) (pos 4) any any (codes "Athlon(tm) X4 8##") 6
        (codes "Athlon X4 (Kaveri)") (codes "TSMC N28")
    ∷ known_as (pos 15) (pos 8) any (pos 21) (pos 48) (pos 2) any any (codes "Athlon(tm) X2 4##") 6
        (codes "Athlon X2 (Kaveri)") (codes "TSMC N28")
    ∷ known_as (pos 15) (pos 8) any (pos 21) (pos 48) any any any (codes "A[468] PRO-[78]###B") 8
        (codes "A-Series (Kaveri)") (codes "TSMC N28")
    ∷ known_as (pos 15) (pos 8) any (pos 21) (pos 48) any any any (codes "A[468]-7###") 4
        (codes "A-Series (Kaveri)") (codes "TSMC N28")
    ∷ known_as (pos 15) (pos 8) any (pos 21) (pos 48) any any any (codes "A10 PRO-[78]###B") 8
        (codes "A-Series (Kaveri)") (codes "TSMC N28")
    ∷ known_as (pos 15) (pos 8) any (pos 21) (pos 48) any any any (codes "A10-7###") 4
        (codes "A-Series (Kaveri)") (codes "TSMC N28")
    ∷ known_as (pos 15) (pos 8) any (pos 21) (pos 56) any any any (codes "A[468]-[78]###") 4
        (codes "A-Series (Godavari)") (codes "TSMC N28")
    ∷ known_as (pos 15) (pos 8) any (pos 21) (pos 56) any any any (codes "A10-[78]###") 4
        (codes "A-Series (Godavari)") (codes "TSMC N28")
    ∷ known_as (pos 15) (pos 8) any (pos 21) (pos 56) (pos 4) any any (codes "Athlon(tm) X4 8##") 6
        (codes "Athlon X4 (Godavari)") (codes "TSMC N28")
    ∷ known_as (pos 15) (pos 0) any (pos 21) (pos 48) any any any (codes "RX-###") 4
        (codes "R-Series (Bald Eagle)") (codes "TSMC N28")
    ∷ known_as (pos 15) (pos 0) any (pos 21) (pos 96) any any any (codes "FX-8###P") 6
        (codes "FX (Carrizo)") (codes "GF 28SHP")
    ∷ known_as (pos 15) (pos 0) any (pos 21) (pos 96) (pos 4) any any (codes "Athlon(tm) X4 8##") 6
        (codes "Athlon X4 (Carrizo)") (codes "GF 28SHP")
    ∷ known_as (pos 15) (pos 0) any (pos 21) (pos 96) any any any (codes "A[68] PRO-8###") 6
        (codes "A-Series (Carrizo)") (codes "GF 28SHP")
    ∷ known_as (pos 15) (pos 0) any (pos 21) (pos 96) any any any (codes "A[68]-[78]###") 4
        (codes "A-Series (Carrizo)") (codes "GF 28SHP")
    ∷ known_as (pos 15) (pos 0) any (pos 21) (pos 96) any any any (codes "A1[02] PRO-8###") 6
        (codes "A-Series (Carrizo)") (codes "GF 28SHP")
    ∷ known_as (pos 15) (pos 0) any (pos 21) (pos 96) any any any (codes "A1[02]-8###") 4
        (codes "A-Series (Carrizo)") (codes "GF 28SHP")
    ∷ known_as (pos 15) (pos 5) any (pos 21) (pos 101) any any any (codes "FX-9###P") 6
        (codes "FX (Bristol Ridge)") (codes "GF 28SHP")
    ∷ known_as (pos 15) (pos 5) any (pos 21) (pos 101) any any any (codes "Athlon(tm) X4 9##") 6
        (codes "Athlon X4 (Bristol Ridge)") (codes "GF 28SHP")
    ∷ known_as (pos 15) (pos 5) any (pos 21) (pos 101) any any any (codes "A[68] PRO-9###") 6
        (codes "A-Series (Bristol Ridge)") (codes "GF 28SHP")
    ∷ known_as (pos 15) (pos 5) any (pos 21) (pos 101) any any any (codes "A[68]-9###") 4
        (codes "A-Series (Bristol Ridge)") (codes "GF 28SHP")
    ∷ known_as (pos 15) (pos 5) any (pos 21) (pos 101) any any any (codes "A1[02] PRO-9###") 6
        (codes "A-Series (Bristol Ridge)") (codes "GF 28SHP")
    ∷ known_as (pos 15) (pos 5) any (pos 21) (pos 101) any any any (codes "A1[02]-9###") 4
        (codes "A-Series (Bristol Ridge)") (codes "GF 28SHP")
    ∷ known_as (pos 15) (pos 0) any (pos 21) (pos 112) (pos 2) any any (codes "A[469]-9###") 4
        (codes "A-Series (Stoney Ridge)") (codes "GF 28SHP")
    ∷ known_as (pos 15) (pos 0) any (pos 21) (pos 112) any any any (codes "E2-9###") 4
        (codes "E-Series (Stoney Ridge)") (codes "GF 28SHP")
    ∷ known_as (pos 15) (pos 0) any (pos 21) (pos 96) any any any (codes "Opteron(tm) X3###") 6
        (codes "Opteron (Toronto)") (codes "GF 28SHP")
    ∷ known_as (pos 15) (pos 0) any (pos 22) (pos 0) (pos 4) any any (codes "Athlon(tm) X4 5##") 6
        (codes "Athlon X4 (Kabini)") (codes "TSMC N28")
    ∷ known_as (pos 15) (pos 0) any (pos 22) (pos 0) (pos 4) any any (codes "Athlon(tm) 5###") 4
        (codes "Athlon X4 (Kabini)") (codes "TSMC N28")
    ∷ known_as (pos 15) (pos 0) any (pos 22) (pos 0) any any any (codes "Sempron(tm) [23]###") 4
        (codes "Sempron (Kabini)") (codes "TSMC N28")
    ∷ known_as (pos 15) (pos 0) any (pos 22) (pos 0) any any any (codes "E1-2###") 4
        (codes "E-Series (Kabini)") (codes "TSMC N28")
    ∷ known_as (pos 15) (pos 0) any (pos 22) (pos 0) any any any (codes "E2-3###") 4
        (codes "E-Series (Kabini)") (codes "TSMC N28")
    ∷ known_as (pos 15) (pos 0) any (pos 22) (pos 0) any any any (codes "A4 PRO-3###") 6
        (codes "A-Series (Kabini)") (codes "TSMC N28")
    ∷ known_as (pos 15) (pos 0) any (pos 22) (pos 0) any any any (codes "A[46]-5###") 4
        (codes "A-Series (Kabini)") (codes "TSMC N28")
    ∷ known_as (pos 15) (pos 0) any (pos 22) (pos 48) (pos 2) any any (codes "E1 Micro-62##T") 8
        (codes "E-Series (Mullins)") (codes "GF 28SHP")
    ∷ known_as (pos 15) (pos 0) any (pos 22) (pos 48) (pos 4) any any (codes "A4 Micro-64##T") 8
        (codes "A-Series (Mullins)") (codes "GF 28SHP")
    ∷ []
