-- ===== src/Recog/Amd/Table/Part6.antt =====
-- `cpudb_amd` of libcpuid/recog_amd.c: rows 266 to 318 of 371.
use libcpuid.Base.{List, [], ◌∷◌, ◌++◌, pos, codes}
use libcpuid.Util.Codename.{MatchEntry, known_as, any, unkn_str}

abbrev pub cpudb_amd_part6 : List MatchEntry
cpudb_amd_part6 =
    known_as (pos 15) any any (pos 23) (pos 96) any any any (codes "Ryzen 3 PRO 4###") 8
      (codes "Ryzen 3 PRO (Renoir)") (codes "TSMC N7FF")
    ∷ known_as (pos 15) any any (pos 23) (pos 96) any any any (codes "Ryzen 3 4###") 6
        (codes "Ryzen 3 (Renoir)") (codes "TSMC N7FF")
    ∷ known_as (pos 15) any any (pos 23) (pos 104) any any any (codes "Ryzen 7 5###") 6
        (codes "Ryzen 7 (Lucienne)") (codes "TSMC N7FF")
    ∷ known_as (pos 15) any any (pos 23) (pos 104) any any any (codes "Ryzen 5 5###") 6
        (codes "Ryzen 5 (Lucienne)") (codes "TSMC N7FF")
    ∷ known_as (pos 15) any any (pos 23) (pos 104) any any any (codes "Ryzen 3 5###") 6
        (codes "Ryzen 3 (Lucienne)") (codes "TSMC N7FF")
    ∷ known_as (pos 15) any any (pos 23) (pos 71) any any any (codes "Desktop Kit") 4
        (codes "Desktop Kit (Zen 2)") (codes "TSMC N7FF")
    ∷ known_as (pos 15) any any (pos 23) (pos 132) any any any (codes "Desktop Kit") 4
        (codes "Desktop Kit (Zen 2)") (codes "TSMC N7FF")
    ∷ known_as (pos 15) any (pos 2) (pos 23) (pos 144) any any any (codes "Custom APU") 4
        (codes "Van Gogh") (codes "TSMC N7FF")
    ∷ known_as (pos 15) any (pos 0) (pos 23) (pos 145) any any any (codes "Custom APU") 4
        (codes "Van Gogh") (codes "TSMC N7FF")
    ∷ known_as (pos 15) any any (pos 23) (pos 160) any any any (codes "Ryzen 5 7###") 6
        (codes "Ryzen 5 (Mendocino)") (codes "TSMC N6")
    ∷ known_as (pos 15) any any (pos 23) (pos 160) any any any (codes "Ryzen 3 7###") 6
        (codes "Ryzen 3 (Mendocino)") (codes "TSMC N6")
    ∷ known_as (pos 15) any any (pos 23) (pos 160) any any any (codes "Athlon") 2
        (codes "Athlon (Mendocino)") (codes "TSMC N6")
    ∷ known_as (pos 15) any any (pos 24) (pos 0) any any any (codes "C86") 2 (codes "C86 (Dhyana)")
        unkn_str
    ∷ known_as (pos 15) any any (pos 25) (pos 1) any any any (codes "EPYC 7##3") 4
        (codes "EPYC (Milan)") (codes "TSMC N7FF")
    ∷ known_as (pos 15) any any (pos 25) (pos 8) any any any (codes "Threadripper PRO 5###WX") 10
        (codes "Threadripper PRO (Chagall)") (codes "TSMC N7FF")
    ∷ known_as (pos 15) any any (pos 25) (pos 33) any any any (codes "Ryzen 9 PRO 5###") 8
        (codes "Ryzen 9 PRO (Vermeer)") (codes "TSMC N7FF")
    ∷ known_as (pos 15) any any (pos 25) (pos 33) any any any (codes "Ryzen 9 5###") 6
        (codes "Ryzen 9 (Vermeer)") (codes "TSMC N7FF")
    ∷ known_as (pos 15) any any (pos 25) (pos 33) any any any (codes "Ryzen 7 PRO 5###") 8
        (codes "Ryzen 7 PRO (Vermeer)") (codes "TSMC N7FF")
    ∷ known_as (pos 15) any any (pos 25) (pos 33) any any any (codes "Ryzen 7 5###") 6
        (codes "Ryzen 7 (Vermeer)") (codes "TSMC N7FF")
    ∷ known_as (pos 15) any any (pos 25) (pos 33) any any any (codes "Ryzen 5 PRO 5###") 8
        (codes "Ryzen 5 PRO (Vermeer)") (codes "TSMC N7FF")
    ∷ known_as (pos 15) any any (pos 25) (pos 33) any any any (codes "Ryzen 5 5###") 6
        (codes "Ryzen 5 (Vermeer)") (codes "TSMC N7FF")
    ∷ known_as (pos 15) any any (pos 25) (pos 33) any any any (codes "Ryzen 3 PRO 5###") 8
        (codes "Ryzen 3 PRO (Vermeer)") (codes "TSMC N7FF")
    ∷ known_as (pos 15) any any (pos 25) (pos 33) any any any (codes "Ryzen 3 5###") 6
        (codes "Ryzen 3 (Vermeer)") (codes "TSMC N7FF")
    ∷ known_as (pos 15) any any (pos 25) (pos 80) any any any (codes "Ryzen 9 PRO 5##0[HU]") 10
        (codes "Ryzen 9 PRO (Cezanne)") (codes "TSMC N7FF")
    ∷ known_as (pos 15) any any (pos 25) (pos 80) any any any (codes "Ryzen 9 5##0[HU]") 8
        (codes "Ryzen 9 (Cezanne)") (codes "TSMC N7FF")
    ∷ known_as (pos 15) any any (pos 25) (pos 80) any any any (codes "Ryzen 7 PRO 5##0[HU]") 10
        (codes "Ryzen 7 PRO (Cezanne)") (codes "TSMC N7FF")
    ∷ known_as (pos 15) any any (pos 25) (pos 80) any any any (codes "Ryzen 7 5##0[HU]") 8
        (codes "Ryzen 7 (Cezanne)") (codes "TSMC N7FF")
    ∷ known_as (pos 15) any any (pos 25) (pos 80) any any any (codes "Ryzen 5 PRO 5##0[HU]") 10
        (codes "Ryzen 5 PRO (Cezanne)") (codes "TSMC N7FF")
    ∷ known_as (pos 15) any any (pos 25) (pos 80) any any any (codes "Ryzen 5 5##0[HU]") 8
        (codes "Ryzen 5 (Cezanne)") (codes "TSMC N7FF")
    ∷ known_as (pos 15) any any (pos 25) (pos 80) any any any (codes "Ryzen 3 PRO 5##0[HU]") 10
        (codes "Ryzen 3 PRO (Cezanne)") (codes "TSMC N7FF")
    ∷ known_as (pos 15) any any (pos 25) (pos 80) any any any (codes "Ryzen 3 5##0[HU]") 8
        (codes "Ryzen 3 (Cezanne)") (codes "TSMC N7FF")
    ∷ known_as (pos 15) any any (pos 25) (pos 80) any any any (codes "Ryzen 7 5##5U") 8
        (codes "Ryzen 7 (Barcel" ++ (195 ∷ 179 ∷ codes ")")) (codes "TSMC N7FF")
    ∷ known_as (pos 15) any any (pos 25) (pos 80) any any any (codes "Ryzen 5 5##5U") 8
        (codes "Ryzen 5 (Barcel" ++ (195 ∷ 179 ∷ codes ")")) (codes "TSMC N7FF")
    ∷ known_as (pos 15) any any (pos 25) (pos 80) any any any (codes "Ryzen 3 PRO 5##5U") 10
        (codes "Ryzen 3 PRO (Barcel" ++ (195 ∷ 179 ∷ codes ")")) (codes "TSMC N7FF")
    ∷ known_as (pos 15) any any (pos 25) (pos 80) any any any (codes "Ryzen 3 5##5C") 8
        (codes "Ryzen 3 (Barcel" ++ (195 ∷ 179 ∷ codes ")")) (codes "TSMC N7FF")
    ∷ known_as (pos 15) any any (pos 25) (pos 68) any any any (codes "Ryzen 9 PRO 6###") 8
        (codes "Ryzen 9 PRO (Rembrandt)") (codes "TSMC N6")
    ∷ known_as (pos 15) any any (pos 25) (pos 68) any any any (codes "Ryzen 9 6###") 6
        (codes "Ryzen 9 (Rembrandt)") (codes "TSMC N6")
    ∷ known_as (pos 15) any any (pos 25) (pos 68) any any any (codes "Ryzen 7 PRO 6###") 8
        (codes "Ryzen 7 PRO (Rembrandt)") (codes "TSMC N6")
    ∷ known_as (pos 15) any any (pos 25) (pos 68) any any any (codes "Ryzen 7 6###") 6
        (codes "Ryzen 7 (Rembrandt)") (codes "TSMC N6")
    ∷ known_as (pos 15) any any (pos 25) (pos 68) any any any (codes "Ryzen 5 PRO 6###") 8
        (codes "Ryzen 5 PRO (Rembrandt)") (codes "TSMC N6")
    ∷ known_as (pos 15) any any (pos 25) (pos 68) any any any (codes "Ryzen 5 6###") 6
        (codes "Ryzen 5 (Rembrandt)") (codes "TSMC N6")
    ∷ known_as (pos 15) any any (pos 25) (pos 68) any any any (codes "Ryzen 3 PRO 6###") 8
        (codes "Ryzen 3 PRO (Rembrandt)") (codes "TSMC N6")
    ∷ known_as (pos 15) any any (pos 25) (pos 68) any any any (codes "Ryzen 3 6###") 6
        (codes "Ryzen 3 (Rembrandt)") (codes "TSMC N6")
    ∷ known_as (pos 15) any any (pos 25) (pos 68) any any any (codes "Ryzen 7 7###") 6
        (codes "Ryzen 7 (Rembrandt-R)") (codes "TSMC N6")
    ∷ known_as (pos 15) any any (pos 25) (pos 68) any any any (codes "Ryzen 5 7###") 6
        (codes "Ryzen 5 (Rembrandt-R)") (codes "TSMC N6")
    ∷ known_as (pos 15) any any (pos 25) (pos 68) any any any (codes "Ryzen 3 7###") 6
        (codes "Ryzen 3 (Rembrandt-R)") (codes "TSMC N6")
    ∷ known_as (pos 15) any any (pos 25) (pos 17) any any any (codes "EPYC 9##4") 4
        (codes "EPYC (Genoa)") (codes "TSMC N5")
    ∷ known_as (pos 15) any any (pos 25) (pos 24) any any any (codes "Threadripper PRO 7###WX") 10
        (codes "Threadripper PRO (Storm Peak)") (codes "TSMC N5")
    ∷ known_as (pos 15) any any (pos 25) (pos 24) any any any (codes "Threadripper 7###X") 6
        (codes "Threadripper (Storm Peak)") (codes "TSMC N5")
    ∷ known_as (pos 15) any (pos 2) (pos 25) (pos 97) any any any (codes "Ryzen 9 7###") 6
        (codes "Ryzen 9 (Raphael)") (codes "TSMC N5")
    ∷ known_as (pos 15) any (pos 2) (pos 25) (pos 97) any any any (codes "Ryzen 7 7###") 6
        (codes "Ryzen 7 (Raphael)") (codes "TSMC N5")
    ∷ known_as (pos 15) any (pos 2) (pos 25) (pos 97) any any any (codes "Ryzen 5 7###") 6
        (codes "Ryzen 5 (Raphael)") (codes "TSMC N5")
    ∷ known_as (pos 15) any (pos 2) (pos 25) (pos 97) any any any (codes "Ryzen 3 7###") 6
        (codes "Ryzen 3 (Raphael)") (codes "TSMC N5")
    ∷ []
