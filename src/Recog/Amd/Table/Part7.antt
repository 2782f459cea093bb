-- ===== src/Recog/Amd/Table/Part7.antt =====
-- `cpudb_amd` of libcpuid/recog_amd.c: rows 319 to 371 of 371.
use libcpuid.Base.{List, [], ◌∷◌, pos, codes}
use libcpuid.Util.Codename.{MatchEntry, known_as, any}

abbrev pub cpudb_amd_part7 : List MatchEntry
cpudb_amd_part7 =
    known_as (pos 15) any any (pos 25) (pos 97) any any any (codes "Ryzen 9 7###H") 8
      (codes "Ryzen 9 (Dragon Range)") (codes "TSMC N5")
    ∷ known_as (pos 15) any any (pos 25) (pos 97) any any any (codes "Ryzen 7 7###H") 8
        (codes "Ryzen 7 (Dragon Range)") (codes "TSMC N5")
    ∷ known_as (pos 15) any any (pos 25) (pos 97) any any any (codes "Ryzen 5 7###H") 8
        (codes "Ryzen 5 (Dragon Range)") (codes "TSMC N5")
    ∷ known_as (pos 15) any any (pos 25) (pos 116) any any any (codes "Ryzen 9 PRO 7###[HU]") 10
        (codes "Ryzen 9 PRO (Phoenix)") (codes "TSMC N4")
    ∷ known_as (pos 15) any any (pos 25) (pos 116) any any any (codes "Ryzen 9 7###[HU]") 8
        (codes "Ryzen 9 (Phoenix)") (codes "TSMC N4")
    ∷ known_as (pos 15) any any (pos 25) (pos 116) any any any (codes "Ryzen 7 PRO 7###[HU]") 10
        (codes "Ryzen 7 PRO (Phoenix)") (codes "TSMC N4")
    ∷ known_as (pos 15) any any (pos 25) (pos 116) any any any (codes "Ryzen 7 7###[HU]") 8
        (codes "Ryzen 7 (Phoenix)") (codes "TSMC N4")
    ∷ known_as (pos 15) any any (pos 25) (pos 116) any any any (codes "Ryzen 5 PRO 7###[HU]") 10
        (codes "Ryzen 5 PRO (Phoenix)") (codes "TSMC N4")
    ∷ known_as (pos 15) any any (pos 25) (pos 116) any any any (codes "Ryzen 5 7###[HU]") 8
        (codes "Ryzen 5 (Phoenix)") (codes "TSMC N4")
    ∷ known_as (pos 15) any any (pos 25) (pos 116) any any any (codes "Ryzen 3 PRO 7###[HU]") 10
        (codes "Ryzen 3 PRO (Phoenix)") (codes "TSMC N4")
    ∷ known_as (pos 15) any any (pos 25) (pos 116) any any any (codes "Ryzen 3 7###[HU]") 8
        (codes "Ryzen 3 (Phoenix)") (codes "TSMC N4")
    ∷ known_as (pos 15) any any (pos 25) (pos 116) any any any (codes "Ryzen Z1") 4
        (codes "Ryzen Z1 (Phoenix)") (codes "TSMC N4")
    ∷ known_as (pos 15) any any (pos 25) (pos 117) any any any (codes "Ryzen 7 8###F") 8
        (codes "Ryzen 7 (Phoenix)") (codes "TSMC N4")
    ∷ known_as (pos 15) any any (pos 25) (pos 117) any any any (codes "Ryzen 5 8###F") 8
        (codes "Ryzen 5 (Phoenix)") (codes "TSMC N4")
    ∷ known_as (pos 15) any any (pos 25) (pos 117) any any any (codes "Ryzen 9 PRO 8###G") 10
        (codes "Ryzen 9 PRO (Phoenix)") (codes "TSMC N4")
    ∷ known_as (pos 15) any any (pos 25) (pos 117) any any any (codes "Ryzen 9 8###G") 8
        (codes "Ryzen 9 (Phoenix)") (codes "TSMC N4")
    ∷ known_as (pos 15) any any (pos 25) (pos 117) any any any (codes "Ryzen 7 PRO 8###G") 10
        (codes "Ryzen 7 PRO (Phoenix)") (codes "TSMC N4")
    ∷ known_as (pos 15) any any (pos 25) (pos 117) any any any (codes "Ryzen 7 8###G") 8
        (codes "Ryzen 7 (Phoenix)") (codes "TSMC N4")
    ∷ known_as (pos 15) any any (pos 25) (pos 117) any any any (codes "Ryzen 5 PRO 8###G") 10
        (codes "Ryzen 5 PRO (Phoenix)") (codes "TSMC N4")
    ∷ known_as (pos 15) any any (pos 25) (pos 117) any any any (codes "Ryzen 5 8###G") 8
        (codes "Ryzen 5 (Phoenix)") (codes "TSMC N4")
    ∷ known_as (pos 15) any any (pos 25) (pos 117) any any any (codes "Ryzen 3 PRO 8###G") 10
        (codes "Ryzen 3 PRO (Phoenix)") (codes "TSMC N4")
    ∷ known_as (pos 15) any any (pos 25) (pos 117) any any any (codes "Ryzen 3 8###G") 8
        (codes "Ryzen 3 (Phoenix)") (codes "TSMC N4")
    ∷ known_as (pos 15) any any (pos 25) (pos 117) any any any (codes "Ryzen 9 PRO 8###[HU]") 10
        (codes "Ryzen 9 PRO (Hawk Point)") (codes "TSMC N4")
    ∷ known_as (pos 15) any any (pos 25) (pos 117) any any any (codes "Ryzen 9 8###[HU]") 8
        (codes "Ryzen 9 (Hawk Point)") (codes "TSMC N4")
    ∷ known_as (pos 15) any any (pos 25) (pos 117) any any any (codes "Ryzen 7 PRO 8###[HU]") 10
        (codes "Ryzen 7 PRO (Hawk Point)") (codes "TSMC N4")
    ∷ known_as (pos 15) any any (pos 25) (pos 117) any any any (codes "Ryzen 7 8###[HU]") 8
        (codes "Ryzen 7 (Hawk Point)") (codes "TSMC N4")
    ∷ known_as (pos 15) any any (pos 25) (pos 117) any any any (codes "Ryzen 5 PRO 8###[HU]") 10
        (codes "Ryzen 5 PRO (Hawk Point)") (codes "TSMC N4")
    ∷ known_as (pos 15) any any (pos 25) (pos 117) any any any (codes "Ryzen 5 8###[HU]") 8
        (codes "Ryzen 5 (Hawk Point)") (codes "TSMC N4")
    ∷ known_as (pos 15) any any (pos 25) (pos 117) any any any (codes "Ryzen 3 PRO 8###[HU]") 10
        (codes "Ryzen 3 PRO (Hawk Point)") (codes "TSMC N4")
    ∷ known_as (pos 15) any any (pos 25) (pos 117) any any any (codes "Ryzen 3 8###[HU]") 8
        (codes "Ryzen 3 (Hawk Point)") (codes "TSMC N4")
    ∷ known_as (pos 15) any any (pos 26) (pos 2) any any any (codes "EPYC 9##5") 4
        (codes "EPYC (Turin)") (codes "TSMC N4X")
    ∷ known_as (pos 15) any any (pos 26) (pos 17) any any any (codes "EPYC 9##5") 4
        (codes "EPYC (Turin Dense)") (codes "TSMC N3E")
    ∷ known_as (pos 15) any any (pos 26) (pos 8) any any any (codes "Threadripper PRO 9###WX") 10
        (codes "Threadripper PRO (Shimada Peak)") (codes "TSMC N4")
    ∷ known_as (pos 15) any any (pos 26) (pos 8) any any any (codes "Threadripper 9###X") 6
        (codes "Threadripper (Shimada Peak)") (codes "TSMC N4")
    ∷ known_as (pos 15) any any (pos 26) (pos 68) any any any (codes "Ryzen 9 PRO 9###") 8
        (codes "Ryzen 9 PRO (Granite Ridge)") (codes "TSMC N4")
    ∷ known_as (pos 15) any any (pos 26) (pos 68) any any any (codes "Ryzen 9 9###") 6
        (codes "Ryzen 9 (Granite Ridge)") (codes "TSMC N4")
    ∷ known_as (pos 15) any any (pos 26) (pos 68) any any any (codes "Ryzen 7 PRO 9###") 8
        (codes "Ryzen 7 PRO (Granite Ridge)") (codes "TSMC N4")
    ∷ known_as (pos 15) any any (pos 26) (pos 68) any any any (codes "Ryzen 7 9###") 6
        (codes "Ryzen 7 (Granite Ridge)") (codes "TSMC N4")
    ∷ known_as (pos 15) any any (pos 26) (pos 68) any any any (codes "Ryzen 5 PRO 9###") 8
        (codes "Ryzen 5 PRO (Granite Ridge)") (codes "TSMC N4")
    ∷ known_as (pos 15) any any (pos 26) (pos 68) any any any (codes "Ryzen 5 9###") 6
        (codes "Ryzen 5 (Granite Ridge)") (codes "TSMC N4")
    ∷ known_as (pos 15) any any (pos 26) (pos 68) any any any (codes "Ryzen 3 PRO 9###") 8
        (codes "Ryzen 3 PRO (Granite Ridge)") (codes "TSMC N4")
    ∷ known_as (pos 15) any any (pos 26) (pos 68) any any any (codes "Ryzen 3 9###") 6
        (codes "Ryzen 3 (Granite Ridge)") (codes "TSMC N4")
    ∷ known_as (pos 15) any any (pos 26) (pos 36) any any any (codes "Ryzen AI 9 HX PRO") 10
        (codes "Ryzen AI 9 PRO (Strix Point)") (codes "TSMC N4P")
    ∷ known_as (pos 15) any any (pos 26) (pos 36) any any any (codes "Ryzen AI 9") 6
        (codes "Ryzen AI 9 (Strix Point)") (codes "TSMC N4P")
    ∷ known_as (pos 15) any any (pos 26) (pos 36) any any any (codes "Ryzen AI 7 PRO") 8
        (codes "Ryzen AI 7 PRO (Strix Point)") (codes "TSMC N4P")
    ∷ known_as (pos 15) any any (pos 26) (pos 96) any any any (codes "Ryzen AI 7 PRO") 8
        (codes "Ryzen AI 7 PRO (Krackan Point)") (codes "TSMC N4P")
    ∷ known_as (pos 15) any any (pos 26) (pos 96) any any any (codes "Ryzen AI 7") 6
        (codes "Ryzen AI 7 (Krackan Point)") (codes "TSMC N4P")
    ∷ known_as (pos 15) any any (pos 26) (pos 96) any any any (codes "Ryzen AI 5 PRO") 8
        (codes "Ryzen AI 5 PRO (Krackan Point)") (codes "TSMC N4P")
    ∷ known_as (pos 15) any any (pos 26) (pos 96) any any any (codes "Ryzen AI 5") 6
        (codes "Ryzen AI 5 (Krackan Point)") (codes "TSMC N4P")
    ∷ known_as (pos 15) any any (pos 26) (pos 112) any any any (codes "Ryzen AI MAX+ PRO") 10
        (codes "Ryzen AI MAX+ PRO (Strix Halo)") (codes "TSMC N4P")
    ∷ known_as (pos 15) any any (pos 26) (pos 112) any any any (codes "Ryzen AI MAX+") 8
        (codes "Ryzen AI MAX+ (Strix Halo)") (codes "TSMC N4P")
    ∷ known_as (pos 15) any any (pos 26) (pos 112) any any any (codes "Ryzen AI MAX PRO") 8
        (codes "Ryzen AI MAX PRO (Strix Halo)") (codes "TSMC N4P")
    ∷ known_as (pos 15) any any (pos 26) (pos 112) any any any (codes "Ryzen AI MAX") 6
        (codes "Ryzen AI MAX (Strix Halo)") (codes "TSMC N4P")
    ∷ []
