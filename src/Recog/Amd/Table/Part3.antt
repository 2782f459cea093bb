-- ===== src/Recog/Amd/Table/Part3.antt =====
-- `cpudb_amd` of libcpuid/recog_amd.c: rows 107 to 159 of 371.
use libcpuid.Base.{List, [], ◌∷◌, pos, codes}
use libcpuid.Util.Codename.{MatchEntry, known_as, any}

abbrev pub cpudb_amd_part3 : List MatchEntry
cpudb_amd_part3 =
    known_as (pos 15) any any (pos 15) (pos 124) (pos 1) (pos 512) any (codes "Athlon(tm) 64") 4
      (codes "Athlon 64 (Sherman/512K)") (codes "65 nm")
    ∷ known_as (pos 15) any any (pos 15) (pos 127) (pos 1) (pos 256) any (codes "Sempron(tm)") 2
        (codes "Sempron 64 (Sparta/256K)") (codes "65 nm")
    ∷ known_as (pos 15) any any (pos 15) (pos 127) (pos 1) (pos 512) any (codes "Sempron(tm)") 2
        (codes "Sempron 64 (Sparta/512K)") (codes "65 nm")
    ∷ known_as (pos 15) any any (pos 15) (pos 76) (pos 1) (pos 256) any
        (codes "Mobile AMD Sempron(tm)") 6 (codes "Mobile Sempron 64 (Keene/256K)") (codes "90 nm")
    ∷ known_as (pos 15) any any (pos 15) (pos 76) (pos 1) (pos 512) any
        (codes "Mobile AMD Sempron(tm)") 6 (codes "Mobile Sempron 64 (Keene/512K)") (codes "90 nm")
    ∷ known_as (pos 15) any any (pos 15) (pos 36) (pos 1) (pos 512) any (codes "Turion(tm) 64") 4
        (codes "Turion 64 (Lancaster/512K)") (codes "90 nm")
    ∷ known_as (pos 15) any any (pos 15) (pos 36) (pos 1) (pos 1024) any (codes "Turion(tm) 64") 4
        (codes "Turion 64 (Lancaster/1024K)") (codes "90 nm")
    ∷ known_as (pos 15) any any (pos 15) (pos 72) (pos 2) (pos 256) any (codes "Turion(tm) X2") 4
        (codes "Turion X2 (Taylor)") (codes "90 nm")
    ∷ known_as (pos 15) any any (pos 15) (pos 72) (pos 2) (pos 512) any (codes "Turion(tm) X2") 4
        (codes "Turion X2 (Trinidad)") (codes "90 nm")
    ∷ known_as (pos 15) any any (pos 15) (pos 76) (pos 1) (pos 512) any (codes "Turion(tm) 64") 4
        (codes "Turion 64 (Richmond)") (codes "90 nm")
    ∷ known_as (pos 15) any any (pos 15) (pos 104) (pos 2) (pos 256) any (codes "Turion(tm) X2") 4
        (codes "Turion X2 (Tyler/256K)") (codes "65 nm")
    ∷ known_as (pos 15) any any (pos 15) (pos 104) (pos 2) (pos 512) any (codes "Turion(tm) X2") 4
        (codes "Turion X2 (Tyler/512K)") (codes "65 nm")
    ∷ known_as (pos 15) any any (pos 17) (pos 3) (pos 2) (pos 512) any (codes "Turion(tm) X2") 4
        (codes "Turion X2 (Griffin/512K)") (codes "65 nm")
    ∷ known_as (pos 15) any any (pos 17) (pos 3) (pos 2) (pos 1024) any (codes "Turion(tm) X2") 4
        (codes "Turion X2 (Griffin/1024K)") (codes "65 nm")
    ∷ known_as (pos 15) (pos 2) any (pos 16) any (pos 3) any any (codes "Phenom(tm)") 2
        (codes "Phenom X3 (Toliman)") (codes "65 nm")
    ∷ known_as (pos 15) (pos 2) any (pos 16) any (pos 4) any any (codes "Phenom(tm)") 2
        (codes "Phenom X4 (Agena)") (codes "65 nm")
    ∷ known_as (pos 15) (pos 2) any (pos 16) any (pos 3) (pos 512) any (codes "Phenom(tm)") 2
        (codes "Phenom X3 (Toliman/256K)") (codes "65 nm")
    ∷ known_as (pos 15) (pos 2) any (pos 16) any (pos 3) (pos 512) any (codes "Phenom(tm)") 2
        (codes "Phenom X3 (Toliman/512K)") (codes "65 nm")
    ∷ known_as (pos 15) (pos 2) any (pos 16) any (pos 4) (pos 128) any (codes "Phenom(tm)") 2
        (codes "Phenom X4 (Agena/128K)") (codes "65 nm")
    ∷ known_as (pos 15) (pos 2) any (pos 16) any (pos 4) (pos 256) any (codes "Phenom(tm)") 2
        (codes "Phenom X4 (Agena/256K)") (codes "65 nm")
    ∷ known_as (pos 15) (pos 2) any (pos 16) any (pos 4) (pos 512) any (codes "Phenom(tm)") 2
        (codes "Phenom X4 (Agena/512K)") (codes "65 nm")
    ∷ known_as (pos 15) (pos 2) any (pos 16) any (pos 2) (pos 512) any (codes "Athlon(tm) 64 X2") 6
        (codes "Athlon X2 (Kuma)") (codes "65 nm")
    ∷ known_as (pos 15) (pos 4) any (pos 16) any (pos 1) (pos 1024) any (codes "Sempron(tm)") 2
        (codes "Sempron (Sargas)") (codes "45 nm")
    ∷ known_as (pos 15) (pos 4) any (pos 16) any (pos 2) (pos 512) any (codes "Phenom(tm) II") 4
        (codes "Phenom II X2 (Callisto)") (codes "45 nm")
    ∷ known_as (pos 15) (pos 4) any (pos 16) any (pos 3) (pos 512) any (codes "Phenom(tm) II") 4
        (codes "Phenom II X3 (Heka)") (codes "45 nm")
    ∷ known_as (pos 15) (pos 4) any (pos 16) (pos 4) (pos 4) (pos 512) any (codes "Phenom(tm) II") 4
        (codes "Phenom II X4 (Deneb)") (codes "45 nm")
    ∷ known_as (pos 15) (pos 5) any (pos 16) (pos 5) (pos 4) (pos 512) any (codes "Phenom(tm) II") 4
        (codes "Phenom II X4 (Deneb)") (codes "45 nm")
    ∷ known_as (pos 15) (pos 4) any (pos 16) (pos 10) (pos 4) (pos 512) any (codes "Phenom(tm) II")
        4 (codes "Phenom II X4 (Zosma)") (codes "45 nm")
    ∷ known_as (pos 15) (pos 4) any (pos 16) (pos 10) (pos 6) (pos 512) any (codes "Phenom(tm) II")
        4 (codes "Phenom II X6 (Thuban)") (codes "45 nm")
    ∷ known_as (pos 15) (pos 6) any (pos 16) (pos 6) (pos 2) (pos 512) any (codes "Athlon(tm) II") 4
        (codes "Athlon II (Champlain)") (codes "45 nm")
    ∷ known_as (pos 15) (pos 6) any (pos 16) (pos 6) (pos 2) (pos 512) any
        (codes "Athlon(tm) II X2") 6 (codes "Athlon II X2 (Regor)") (codes "45 nm")
    ∷ known_as (pos 15) (pos 6) any (pos 16) (pos 6) (pos 2) (pos 1024) any
        (codes "Athlon(tm) II X2") 6 (codes "Athlon II X2 (Regor)") (codes "45 nm")
    ∷ known_as (pos 15) (pos 5) any (pos 16) (pos 5) (pos 3) (pos 512) any
        (codes "Athlon(tm) II X3") 6 (codes "Athlon II X3 (Rana)") (codes "45 nm")
    ∷ known_as (pos 15) (pos 5) any (pos 16) (pos 5) (pos 4) (pos 512) any (codes "Athlon(tm) X4") 4
        (codes "Athlon II X4 (Propus)") (codes "45 nm")
    ∷ known_as (pos 15) (pos 5) any (pos 16) (pos 5) (pos 4) (pos 512) any
        (codes "Athlon(tm) II X4") 6 (codes "Athlon II X4 (Propus)") (codes "45 nm")
    ∷ known_as (pos 15) (pos 2) any (pos 16) (pos 2) any any any (codes "Opteron(tm) [28]3##") 4
        (codes "Opteron (Barcelona)") (codes "45 nm")
    ∷ known_as (pos 15) (pos 4) any (pos 16) (pos 4) any any any (codes "Opteron(tm) [28]3##") 4
        (codes "Opteron (Shanghai)") (codes "45 nm")
    ∷ known_as (pos 15) (pos 8) any (pos 16) (pos 8) any any any (codes "Opteron(tm) [28]4##") 4
        (codes "Opteron (Istanbul)") (codes "45 nm")
    ∷ known_as (pos 15) (pos 8) any (pos 16) (pos 8) any any any (codes "Opteron(tm) 41##") 4
        (codes "Opteron (Lisbon)") (codes "45 nm")
    ∷ known_as (pos 15) (pos 9) any (pos 16) (pos 9) (pos 8) any any (codes "Opteron(tm) 64##") 4
        (codes "Opteron (Magny-Cours)") (codes "45 nm")
    ∷ known_as (pos 15) (pos 1) any (pos 18) (pos 1) (pos 4) any any (codes "Athlon(tm) II X4 6##")
        6 (codes "Athlon II X4 (Llano)") (codes "GF 32SHP")
    ∷ known_as (pos 15) (pos 1) any (pos 18) (pos 1) (pos 2) any any (codes "Athlon(tm) II X2 2##")
        6 (codes "Athlon II X2 (Llano)") (codes "GF 32SHP")
    ∷ known_as (pos 15) (pos 1) any (pos 18) (pos 1) (pos 2) any any (codes "Sempron(tm) X2 1##") 6
        (codes "Sempron X2 (Llano)") (codes "GF 32SHP")
    ∷ known_as (pos 15) (pos 1) any (pos 18) (pos 1) any any any (codes "E2-3###") 4
        (codes "E-Series (Llano)") (codes "GF 32SHP")
    ∷ known_as (pos 15) (pos 1) any (pos 18) (pos 1) any any any (codes "A[468]-3###") 4
        (codes "A-Series (Llano)") (codes "GF 32SHP")
    ∷ known_as (pos 15) (pos 1) any (pos 20) any any any any (codes "C-[356]#") 4
        (codes "C-Series (Ontario)") (codes "TSMC N40")
    ∷ known_as (pos 15) (pos 1) any (pos 20) any any any any (codes "E-[234]##") 4
        (codes "E-Series (Zacate)") (codes "TSMC N40")
    ∷ known_as (pos 15) (pos 1) any (pos 20) any any any any (codes "G-T##[LRNE]") 6
        (codes "G-Series (Zacate)") (codes "TSMC N40")
    ∷ known_as (pos 15) (pos 1) any (pos 20) any any any any (codes "Z-##") 4
        (codes "Z-Series (Desna)") (codes "TSMC N40")
    ∷ known_as (pos 15) any any (pos 21) (pos 0) any any any (codes "FX(tm)-[468]###") 4
        (codes "FX (Zambezi)") (codes "GF 32SHP")
    ∷ known_as (pos 15) any any (pos 21) (pos 1) any any any (codes "FX(tm)-[468]###") 4
        (codes "FX (Zambezi)") (codes "GF 32SHP")
    ∷ known_as (pos 15) any any (pos 21) (pos 1) any any any (codes "Opteron(tm)") 2
        (codes "Opteron (Interlagos)") (codes "GF 32SHP")
    ∷ known_as (pos 15) any any (pos 21) (pos 2) any any any (codes "FX(tm)-[4689]###") 4
        (codes "FX (Vishera)") (codes "GF 32SHP")
    ∷ []
