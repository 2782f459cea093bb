-- ===== src/Recog/Amd/Table/Part5.antt =====
-- `cpudb_amd` of libcpuid/recog_amd.c: rows 213 to 265 of 371.
use libcpuid.Base.{List, [], ◌∷◌, pos, codes}
use libcpuid.Util.Codename.{MatchEntry, known_as, any}

abbrev pub cpudb_amd_part5 : List MatchEntry
cpudb_amd_part5 =
    known_as (pos 15) (pos 0) any (pos 22) (pos 48) (pos 4) any any (codes "A10 Micro-67##T") 8
      (codes "A-Series (Mullins)") (codes "GF 28SHP")
    ∷ known_as (pos 15) (pos 0) (pos 1) (pos 22) (pos 48) any any any (codes "E[12]-6###") 4
        (codes "E-Series (Beema)") (codes "GF 28SHP")
    ∷ known_as (pos 15) (pos 0) (pos 1) (pos 22) (pos 48) any any any (codes "A[468]-6###") 4
        (codes "A-Series (Beema)") (codes "GF 28SHP")
    ∷ known_as (pos 15) (pos 0) (pos 1) (pos 22) (pos 48) any any any (codes "GX-###") 4
        (codes "G-Series (Steppe Eagle)") (codes "GF 28SHP")
    ∷ known_as (pos 15) any any (pos 23) (pos 1) any any any (codes "EPYC 7##1") 4
        (codes "EPYC (Naples)") (codes "GF 14LP")
    ∷ known_as (pos 15) any any (pos 23) (pos 1) any any any (codes "Threadripper 1###") 4
        (codes "Threadripper (Whitehaven)") (codes "GF 14LP")
    ∷ known_as (pos 15) any any (pos 23) (pos 1) any any any (codes "Ryzen 7 PRO 1###") 8
        (codes "Ryzen 7 PRO (Summit Ridge)") (codes "GF 14LP")
    ∷ known_as (pos 15) any any (pos 23) (pos 1) any any any (codes "Ryzen 7 1###") 6
        (codes "Ryzen 7 (Summit Ridge)") (codes "GF 14LP")
    ∷ known_as (pos 15) any any (pos 23) (pos 1) any any any (codes "Ryzen 5 PRO 1###") 8
        (codes "Ryzen 5 PRO (Summit Ridge)") (codes "GF 14LP")
    ∷ known_as (pos 15) any any (pos 23) (pos 1) any any any (codes "Ryzen 5 1###") 6
        (codes "Ryzen 5 (Summit Ridge)") (codes "GF 14LP")
    ∷ known_as (pos 15) any any (pos 23) (pos 1) any any any (codes "Ryzen 3 PRO 1###") 8
        (codes "Ryzen 3 PRO (Summit Ridge)") (codes "GF 14LP")
    ∷ known_as (pos 15) any any (pos 23) (pos 1) any any any (codes "Ryzen 3 1###") 6
        (codes "Ryzen 3 (Summit Ridge)") (codes "GF 14LP")
    ∷ known_as (pos 15) any any (pos 23) (pos 17) any any any (codes "Ryzen PRO 7 2###") 8
        (codes "Ryzen 7 PRO (Raven Ridge)") (codes "GF 14LP")
    ∷ known_as (pos 15) any any (pos 23) (pos 17) any any any (codes "Ryzen 7 2###") 6
        (codes "Ryzen 7 (Raven Ridge)") (codes "GF 14LP")
    ∷ known_as (pos 15) any any (pos 23) (pos 17) any any any (codes "Ryzen PRO 5 2###") 8
        (codes "Ryzen 5 PRO (Raven Ridge)") (codes "GF 14LP")
    ∷ known_as (pos 15) any any (pos 23) (pos 17) any any any (codes "Ryzen 5 2###") 6
        (codes "Ryzen 5 (Raven Ridge)") (codes "GF 14LP")
    ∷ known_as (pos 15) any any (pos 23) (pos 17) any any any (codes "Ryzen PRO 3 2###") 8
        (codes "Ryzen 3 PRO (Raven Ridge)") (codes "GF 14LP")
    ∷ known_as (pos 15) any any (pos 23) (pos 17) any any any (codes "Ryzen 3 2###") 6
        (codes "Ryzen 3 (Raven Ridge)") (codes "GF 14LP")
    ∷ known_as (pos 15) any any (pos 23) (pos 17) any any any (codes "Athlon") 2
        (codes "Athlon (Raven Ridge)") (codes "GF 14LP")
    ∷ known_as (pos 15) any any (pos 23) (pos 32) any any any (codes "Ryzen 3 3###") 6
        (codes "Ryzen 3 (Dali)") (codes "GF 14LP")
    ∷ known_as (pos 15) any any (pos 23) (pos 32) any any any (codes "Athlon") 2
        (codes "Athlon (Dali)") (codes "GF 14LP")
    ∷ known_as (pos 15) any (pos 1) (pos 23) (pos 32) any any any [] 0 (codes "Dali")
        (codes "GF 14LP")
    ∷ known_as (pos 15) any any (pos 23) (pos 8) any any any (codes "Threadripper 2###") 4
        (codes "Threadripper (Colfax)") (codes "GF 12LP")
    ∷ known_as (pos 15) any any (pos 23) (pos 8) any any any (codes "Ryzen 7 PRO 2###") 8
        (codes "Ryzen 7 PRO (Pinnacle Ridge)") (codes "GF 12LP")
    ∷ known_as (pos 15) any any (pos 23) (pos 8) any any any (codes "Ryzen 7 2###") 6
        (codes "Ryzen 7 (Pinnacle Ridge)") (codes "GF 12LP")
    ∷ known_as (pos 15) any any (pos 23) (pos 8) any any any (codes "Ryzen 5 PRO 2###") 8
        (codes "Ryzen 5 PRO (Pinnacle Ridge)") (codes "GF 12LP")
    ∷ known_as (pos 15) any any (pos 23) (pos 8) any any any (codes "Ryzen 5 2###") 6
        (codes "Ryzen 5 (Pinnacle Ridge)") (codes "GF 12LP")
    ∷ known_as (pos 15) any any (pos 23) (pos 8) any any any (codes "Ryzen 3 PRO 2###") 8
        (codes "Ryzen 3 PRO (Pinnacle Ridge)") (codes "GF 12LP")
    ∷ known_as (pos 15) any any (pos 23) (pos 8) any any any (codes "Ryzen 3 2###") 6
        (codes "Ryzen 3 (Pinnacle Ridge)") (codes "GF 12LP")
    ∷ known_as (pos 15) any any (pos 23) (pos 24) any any any (codes "Ryzen 7 PRO 3###") 8
        (codes "Ryzen 7 PRO (Picasso)") (codes "GF 12LP")
    ∷ known_as (pos 15) any any (pos 23) (pos 24) any any any (codes "Ryzen 7 3###") 6
        (codes "Ryzen 7 (Picasso)") (codes "GF 12LP")
    ∷ known_as (pos 15) any any (pos 23) (pos 24) any any any (codes "Ryzen 5 PRO 3###") 8
        (codes "Ryzen 5 PRO (Picasso)") (codes "GF 12LP")
    ∷ known_as (pos 15) any any (pos 23) (pos 24) any any any (codes "Ryzen 5 3###") 6
        (codes "Ryzen 5 (Picasso)") (codes "GF 12LP")
    ∷ known_as (pos 15) any any (pos 23) (pos 24) any any any (codes "Ryzen 3 PRO 3###") 8
        (codes "Ryzen 3 PRO (Picasso)") (codes "GF 12LP")
    ∷ known_as (pos 15) any any (pos 23) (pos 24) any any any (codes "Ryzen 3 3###") 6
        (codes "Ryzen 3 (Picasso)") (codes "GF 12LP")
    ∷ known_as (pos 15) any any (pos 23) (pos 24) any any any (codes "Athlon") 2
        (codes "Athlon (Picasso)") (codes "GF 12LP")
    ∷ known_as (pos 15) any any (pos 23) (pos 49) any any any (codes "EPYC 7##2") 4
        (codes "EPYC (Rome)") (codes "TSMC N7FF")
    ∷ known_as (pos 15) any any (pos 23) (pos 49) any any any (codes "Threadripper PRO 3###WX") 10
        (codes "Threadripper PRO (Castle Peak)") (codes "TSMC N7FF")
    ∷ known_as (pos 15) any any (pos 23) (pos 49) any any any (codes "Threadripper 3###X") 6
        (codes "Threadripper (Castle Peak)") (codes "TSMC N7FF")
    ∷ known_as (pos 15) any any (pos 23) (pos 113) any any any (codes "Ryzen 9 PRO 3###") 8
        (codes "Ryzen 9 PRO (Matisse)") (codes "TSMC N7FF")
    ∷ known_as (pos 15) any any (pos 23) (pos 113) any any any (codes "Ryzen 9 3###") 6
        (codes "Ryzen 9 (Matisse)") (codes "TSMC N7FF")
    ∷ known_as (pos 15) any any (pos 23) (pos 113) any any any (codes "Ryzen 7 PRO 3###") 8
        (codes "Ryzen 7 PRO (Matisse)") (codes "TSMC N7FF")
    ∷ known_as (pos 15) any any (pos 23) (pos 113) any any any (codes "Ryzen 7 3###") 6
        (codes "Ryzen 7 (Matisse)") (codes "TSMC N7FF")
    ∷ known_as (pos 15) any any (pos 23) (pos 113) any any any (codes "Ryzen 5 PRO 3###") 8
        (codes "Ryzen 5 PRO (Matisse)") (codes "TSMC N7FF")
    ∷ known_as (pos 15) any any (pos 23) (pos 113) any any any (codes "Ryzen 5 3###") 6
        (codes "Ryzen 5 (Matisse)") (codes "TSMC N7FF")
    ∷ known_as (pos 15) any any (pos 23) (pos 113) any any any (codes "Ryzen 3 PRO 3###") 8
        (codes "Ryzen 3 PRO (Matisse)") (codes "TSMC N7FF")
    ∷ known_as (pos 15) any any (pos 23) (pos 113) any any any (codes "Ryzen 3 3###") 6
        (codes "Ryzen 3 (Matisse)") (codes "TSMC N7FF")
    ∷ known_as (pos 15) any any (pos 23) (pos 96) any any any (codes "Ryzen 9 PRO 4###") 8
        (codes "Ryzen 9 PRO (Renoir)") (codes "TSMC N7FF")
    ∷ known_as (pos 15) any any (pos 23) (pos 96) any any any (codes "Ryzen 9 4###") 6
        (codes "Ryzen 9 (Renoir)") (codes "TSMC N7FF")
    ∷ known_as (pos 15) any any (pos 23) (pos 96) any any any (codes "Ryzen 7 PRO 4###") 8
        (codes "Ryzen 7 PRO (Renoir)") (codes "TSMC N7FF")
    ∷ known_as (pos 15) any any (pos 23) (pos 96) any any any (codes "Ryzen 7 4###") 6
        (codes "Ryzen 7 (Renoir)") (codes "TSMC N7FF")
    ∷ known_as (pos 15) any any (pos 23) (pos 96) any any any (codes "Ryzen 5 PRO 4###") 8
        (codes "Ryzen 5 PRO (Renoir)") (codes "TSMC N7FF")
    ∷ known_as (pos 15) any any (pos 23) (pos 96) any any any (codes "Ryzen 5 4###") 6
        (codes "Ryzen 5 (Renoir)") (codes "TSMC N7FF")
    ∷ []
