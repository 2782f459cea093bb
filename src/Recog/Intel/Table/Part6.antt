-- ===== src/Recog/Intel/Table/Part6.antt =====
-- `cpudb_intel` of libcpuid/recog_intel.c: rows 291 to 348 of 517.
use libcpuid.Base.{List, [], ◌∷◌, pos, codes}
use libcpuid.Util.Codename.{MatchEntry, known_as, any}

abbrev pub cpudb_intel_part6 : List MatchEntry
cpudb_intel_part6 =
    known_as (pos 6) (pos 14) any any (pos 142) (pos 2) any any (codes "Pentium(R) 441#[UY]") 8
      (codes "Pentium Gold (Kaby Lake-U)") (codes "14+ nm")
    ∷ known_as (pos 6) (pos 14) any any (pos 142) (pos 2) any any (codes "Celeron(R) 3###[UY]") 6
        (codes "Celeron (Kaby Lake-U)") (codes "14+ nm")
    ∷ known_as (pos 6) (pos 14) any any (pos 158) (pos 4) any any (codes "Core(TM) i7-8###G") 10
        (codes "Core i7 (Kaby Lake-G)") (codes "14+ nm")
    ∷ known_as (pos 6) (pos 14) any any (pos 158) (pos 4) any any (codes "Core(TM) i5-8###G") 10
        (codes "Core i5 (Kaby Lake-G)") (codes "14+ nm")
    ∷ known_as (pos 6) (pos 14) any any (pos 142) (pos 4) any any (codes "Core(TM) i7-8##0U") 10
        (codes "Core i7 (Kaby Lake-R)") (codes "14+ nm")
    ∷ known_as (pos 6) (pos 14) any any (pos 142) (pos 4) any any (codes "Core(TM) i5-8##0U") 10
        (codes "Core i5 (Kaby Lake-R)") (codes "14+ nm")
    ∷ known_as (pos 6) (pos 14) any any (pos 142) (pos 2) any any (codes "Core(TM) i3-8##0U") 10
        (codes "Core i3 (Kaby Lake-R)") (codes "14+ nm")
    ∷ known_as (pos 6) (pos 14) any any (pos 142) (pos 2) any any (codes "Pentium(R) 4###U") 6
        (codes "Pentium Gold (Kaby Lake-R)") (codes "14+ nm")
    ∷ known_as (pos 6) (pos 14) any any (pos 142) (pos 2) any any (codes "Celeron(R) 3###U") 6
        (codes "Celeron (Kaby Lake-R)") (codes "14+ nm")
    ∷ known_as (pos 6) (pos 14) any any (pos 158) (pos 6) any any (codes "Core(TM) i7-8###") 8
        (codes "Core i7 (Coffee Lake-S)") (codes "14++ nm")
    ∷ known_as (pos 6) (pos 14) any any (pos 158) (pos 6) any any (codes "Core(TM) i5-8###") 8
        (codes "Core i5 (Coffee Lake-S)") (codes "14++ nm")
    ∷ known_as (pos 6) (pos 14) any any (pos 158) (pos 4) any any (codes "Core(TM) i3-8###") 8
        (codes "Core i3 (Coffee Lake-S)") (codes "14++ nm")
    ∷ known_as (pos 6) (pos 14) any any (pos 158) (pos 2) any any (codes "Pentium(R) G5###") 6
        (codes "Pentium Gold (Coffee Lake-S)") (codes "14++ nm")
    ∷ known_as (pos 6) (pos 14) any any (pos 158) (pos 2) any any (codes "Celeron(R) G4###") 6
        (codes "Celeron (Coffee Lake-S)") (codes "14++ nm")
    ∷ known_as (pos 6) (pos 14) any any (pos 158) (pos 6) any any (codes "Xeon(R) E-21##M") 8
        (codes "Xeon E (Coffee Lake-H)") (codes "14++ nm")
    ∷ known_as (pos 6) (pos 14) any any (pos 158) (pos 6) any any (codes "Core(TM) i9-8###[HB]") 10
        (codes "Core i9 (Coffee Lake-H)") (codes "14++ nm")
    ∷ known_as (pos 6) (pos 14) any any (pos 158) (pos 6) any any (codes "Core(TM) i7-8###[HB]") 10
        (codes "Core i7 (Coffee Lake-H)") (codes "14++ nm")
    ∷ known_as (pos 6) (pos 14) any any (pos 158) (pos 4) any any (codes "Core(TM) i5-8###[HB]") 10
        (codes "Core i5 (Coffee Lake-H)") (codes "14++ nm")
    ∷ known_as (pos 6) (pos 14) any any (pos 158) (pos 4) any any (codes "Core(TM) i5-8###[HB]") 10
        (codes "Core i5 (Coffee Lake-H)") (codes "14++ nm")
    ∷ known_as (pos 6) (pos 14) any any (pos 158) (pos 4) any any (codes "Core(TM) i3-8###[HB]") 10
        (codes "Core i3 (Coffee Lake-H)") (codes "14++ nm")
    ∷ known_as (pos 6) (pos 14) any any (pos 158) (pos 4) any any (codes "Core(TM) i7-8###U") 10
        (codes "Core i7 (Coffee Lake-U)") (codes "14++ nm")
    ∷ known_as (pos 6) (pos 14) any any (pos 158) (pos 4) any any (codes "Core(TM) i5-8###U") 10
        (codes "Core i5 (Coffee Lake-U)") (codes "14++ nm")
    ∷ known_as (pos 6) (pos 14) any any (pos 158) (pos 2) any any (codes "Core(TM) i3-8###U") 10
        (codes "Core i3 (Coffee Lake-U)") (codes "14++ nm")
    ∷ known_as (pos 6) (pos 14) any any (pos 158) (pos 8) any any (codes "Xeon(R) E-2###") 6
        (codes "Xeon E (Coffee Lake-S WS)") (codes "14++ nm")
    ∷ known_as (pos 6) (pos 14) any any (pos 158) (pos 8) any any (codes "CC###") 4
        (codes "CC (Coffee Lake)") (codes "14++ nm")
    ∷ known_as (pos 6) (pos 14) any any (pos 158) (pos 8) any any (codes "Core(TM) i9-9###") 8
        (codes "Core i9 (Coffee Lake-S)") (codes "14++ nm")
    ∷ known_as (pos 6) (pos 14) any any (pos 158) (pos 8) any any (codes "Core(TM) i7-9###") 8
        (codes "Core i7 (Coffee Lake-S)") (codes "14++ nm")
    ∷ known_as (pos 6) (pos 14) any any (pos 158) (pos 6) any any (codes "Core(TM) i5-9###") 8
        (codes "Core i5 (Coffee Lake-S)") (codes "14++ nm")
    ∷ known_as (pos 6) (pos 14) any any (pos 158) (pos 4) any any (codes "Core(TM) i3-9###") 8
        (codes "Core i3 (Coffee Lake-S)") (codes "14++ nm")
    ∷ known_as (pos 6) (pos 14) any any (pos 158) (pos 2) any any (codes "Pentium(R) Gold G5###") 8
        (codes "Pentium Gold (Coffee Lake-S)") (codes "14++ nm")
    ∷ known_as (pos 6) (pos 14) any any (pos 158) (pos 2) any any (codes "Celeron(R) G4###") 6
        (codes "Celeron (Coffee Lake-S)") (codes "14++ nm")
    ∷ known_as (pos 6) (pos 14) any any (pos 158) any any any (codes "Xeon(R) E-22##M") 8
        (codes "Xeon E (Coffee Lake-H Refresh)") (codes "14++ nm")
    ∷ known_as (pos 6) (pos 14) any any (pos 158) (pos 8) any any (codes "Core(TM) i9-9###H") 10
        (codes "Core i9 (Coffee Lake-H Refresh)") (codes "14++ nm")
    ∷ known_as (pos 6) (pos 14) any any (pos 158) (pos 6) any any (codes "Core(TM) i7-9###H") 10
        (codes "Core i7 (Coffee Lake-H Refresh)") (codes "14++ nm")
    ∷ known_as (pos 6) (pos 14) any any (pos 158) (pos 4) any any (codes "Core(TM) i5-9###H") 10
        (codes "Core i5 (Coffee Lake-H Refresh)") (codes "14++ nm")
    ∷ known_as (pos 6) (pos 14) any any (pos 142) (pos 4) any any (codes "Core(TM) i7-8##5U") 10
        (codes "Core i7 (Whiskey Lake-U)") (codes "14++ nm")
    ∷ known_as (pos 6) (pos 14) any any (pos 142) (pos 4) any any (codes "Core(TM) i5-8##5U") 10
        (codes "Core i5 (Whiskey Lake-U)") (codes "14++ nm")
    ∷ known_as (pos 6) (pos 14) any any (pos 142) (pos 2) any any (codes "Core(TM) i3-8##5U") 10
        (codes "Core i3 (Whiskey Lake-U)") (codes "14++ nm")
    ∷ known_as (pos 6) (pos 14) any any (pos 142) (pos 2) any any (codes "Pentium(R) 5###U") 6
        (codes "Pentium Gold (Whiskey Lake-U)") (codes "14++ nm")
    ∷ known_as (pos 6) (pos 14) any any (pos 142) (pos 2) any any (codes "Celeron(R) 4###U") 6
        (codes "Celeron (Whiskey Lake-U)") (codes "14++ nm")
    ∷ known_as (pos 6) (pos 14) any any (pos 142) (pos 4) any any (codes "Core(TM) i7-8###Y") 10
        (codes "Core i7 (Amber Lake-Y)") (codes "14+ nm")
    ∷ known_as (pos 6) (pos 14) any any (pos 142) (pos 4) any any (codes "Core(TM) i5-8###Y") 10
        (codes "Core i5 (Amber Lake-Y)") (codes "14+ nm")
    ∷ known_as (pos 6) (pos 14) any any (pos 142) (pos 2) any any (codes "Core(TM) m3-8###Y") 10
        (codes "Core m3 (Amber Lake-Y)") (codes "14+ nm")
    ∷ known_as (pos 6) (pos 14) any any (pos 142) (pos 2) any any (codes "Pentium(R) 442#Y") 8
        (codes "Pentium Gold (Amber Lake-Y)") (codes "14+ nm")
    ∷ known_as (pos 6) (pos 14) any any (pos 142) (pos 4) any any (codes "Core(TM) i7-10###Y") 10
        (codes "Core i7 (Amber Lake-Y)") (codes "14+ nm")
    ∷ known_as (pos 6) (pos 14) any any (pos 142) (pos 4) any any (codes "Core(TM) i5-10###Y") 10
        (codes "Core i5 (Amber Lake-Y)") (codes "14+ nm")
    ∷ known_as (pos 6) (pos 14) any any (pos 142) (pos 2) any any (codes "Core(TM) i3-10###Y") 10
        (codes "Core i3 (Amber Lake-Y)") (codes "14+ nm")
    ∷ known_as (pos 6) (pos 14) any any (pos 142) (pos 2) any any (codes "Pentium(R) 65##Y") 6
        (codes "Pentium Gold (Amber Lake-Y)") (codes "14+ nm")
    ∷ known_as (pos 6) (pos 5) (pos 7) any (pos 85) any any any (codes "Core(TM) i9-10###X") 10
        (codes "Core i9 (Cascade Lake-X)") (codes "14++ nm")
    ∷ known_as (pos 6) (pos 5) any any (pos 85) any any any (codes "Xeon(R) W-#[23]##") 6
        (codes "Xeon W (Cascade Lake-W)") (codes "14++ nm")
    ∷ known_as (pos 6) (pos 5) any any (pos 85) any any any (codes "Xeon(R) Platinum #2##") 6
        (codes "Xeon Platinum (Cascade Lake-SP)") (codes "14++ nm")
    ∷ known_as (pos 6) (pos 5) any any (pos 85) any any any (codes "Xeon(R) Gold #2##") 6
        (codes "Xeon Gold (Cascade Lake-SP)") (codes "14++ nm")
    ∷ known_as (pos 6) (pos 5) any any (pos 85) any any any (codes "Xeon(R) Silver #2##") 6
        (codes "Xeon Silver (Cascade Lake-SP)") (codes "14++ nm")
    ∷ known_as (pos 6) (pos 5) any any (pos 85) any any any (codes "Xeon(R) Bronze #2##") 6
        (codes "Xeon Bronze (Cascade Lake-SP)") (codes "14++ nm")
    ∷ known_as (pos 6) (pos 5) any any (pos 165) any any any (codes "Xeon(R) W-12##") 6
        (codes "Xeon W (Comet Lake-S)") (codes "14++ nm")
    ∷ known_as (pos 6) (pos 5) any any (pos 165) (pos 10) any any (codes "Core(TM) i9-10###") 8
        (codes "Core i9 (Comet Lake-S)") (codes "14++ nm")
    ∷ known_as (pos 6) (pos 5) any any (pos 165) (pos 8) any any (codes "Core(TM) i7-10###") 8
        (codes "Core i7 (Comet Lake-S)") (codes "14++ nm")
    ∷ known_as (pos 6) (pos 5) any any (pos 165) (pos 6) any any (codes "Core(TM) i5-10###") 8
        (codes "Core i5 (Comet Lake-S)") (codes "14++ nm")
    ∷ []
