-- ===== src/Recog/Intel/Table/Part7.antt =====
-- `cpudb_intel` of libcpuid/recog_intel.c: rows 349 to 406 of 517.
use libcpuid.Base.{List, [], ◌∷◌, pos, codes}
use libcpuid.Util.Codename.{MatchEntry, known_as, any}

abbrev pub cpudb_intel_part7 : List MatchEntry
cpudb_intel_part7 =
    known_as (pos 6) (pos 5) any any (pos 165) (pos 4) any any (codes "Core(TM) i3-10###") 8
      (codes "Core i3 (Comet Lake-S)") (codes "14++ nm")
    ∷ known_as (pos 6) (pos 5) any any (pos 165) (pos 2) any any (codes "Pentium(R) Gold G6###") 8
        (codes "Pentium Gold (Comet Lake-S)") (codes "14++ nm")
    ∷ known_as (pos 6) (pos 5) any any (pos 165) (pos 2) any any (codes "Celeron(R) G5###") 6
        (codes "Celeron (Comet Lake-S)") (codes "14++ nm")
    ∷ known_as (pos 6) (pos 6) any any (pos 166) (pos 6) any any (codes "Core(TM) i7-10###U") 10
        (codes "Core i7 (Comet Lake-U)") (codes "14++ nm")
    ∷ known_as (pos 6) (pos 14) (pos 12) any (pos 142) (pos 6) any any (codes "Core(TM) i7-10###U")
        10 (codes "Core i7 (Comet Lake-U)") (codes "14++ nm")
    ∷ known_as (pos 6) (pos 14) (pos 12) any (pos 142) (pos 4) any any (codes "Core(TM) i7-10###U")
        10 (codes "Core i7 (Comet Lake-U)") (codes "14++ nm")
    ∷ known_as (pos 6) (pos 14) (pos 12) any (pos 142) (pos 4) any any (codes "Core(TM) i5-10###U")
        10 (codes "Core i5 (Comet Lake-U)") (codes "14++ nm")
    ∷ known_as (pos 6) (pos 14) (pos 12) any (pos 142) (pos 4) any any (codes "Core(TM) i3-10###U")
        10 (codes "Core i3 (Comet Lake-U)") (codes "14++ nm")
    ∷ known_as (pos 6) (pos 14) (pos 12) any (pos 142) (pos 2) any any
        (codes "Pentium(R) Gold 6###U") 8 (codes "Pentium Gold (Comet Lake-U)") (codes "14++ nm")
    ∷ known_as (pos 6) (pos 14) (pos 12) any (pos 142) (pos 2) any any (codes "Celeron(R) 5###U") 6
        (codes "Celeron (Comet Lake-U)") (codes "14++ nm")
    ∷ known_as (pos 6) (pos 5) any any (pos 165) any any any (codes "Xeon(R) W-10###M") 10
        (codes "Xeon W (Comet Lake-H)") (codes "14++ nm")
    ∷ known_as (pos 6) (pos 5) any any (pos 165) any any any (codes "Core(TM) i9-10###H") 10
        (codes "Core i9 (Comet Lake-H)") (codes "14++ nm")
    ∷ known_as (pos 6) (pos 5) any any (pos 165) any any any (codes "Core(TM) i7-10###H") 10
        (codes "Core i7 (Comet Lake-H)") (codes "14++ nm")
    ∷ known_as (pos 6) (pos 5) any any (pos 165) any any any (codes "Core(TM) i5-10###H") 10
        (codes "Core i5 (Comet Lake-H)") (codes "14++ nm")
    ∷ known_as (pos 6) (pos 12) any any (pos 92) any any any (codes "Pentium(R) J4###") 6
        (codes "Pentium (Apollo Lake)") (codes "14 nm")
    ∷ known_as (pos 6) (pos 12) any any (pos 92) any any any (codes "Celeron(R) J3###") 6
        (codes "Celeron (Apollo Lake)") (codes "14 nm")
    ∷ known_as (pos 6) (pos 12) any any (pos 92) any any any (codes "Pentium(R) N4###") 6
        (codes "Pentium (Apollo Lake)") (codes "14 nm")
    ∷ known_as (pos 6) (pos 12) any any (pos 92) any any any (codes "Celeron(R) N3###") 6
        (codes "Celeron (Apollo Lake)") (codes "14 nm")
    ∷ known_as (pos 6) (pos 12) any any (pos 92) any any any (codes "Atom(TM) E39##") 6
        (codes "Atom (Apollo Lake)") (codes "14 nm")
    ∷ known_as (pos 6) (pos 15) any any (pos 95) any any any (codes "Atom(TM) C39##") 6
        (codes "Atom (Denverton)") (codes "14 nm")
    ∷ known_as (pos 6) (pos 10) any any (pos 122) any any any (codes "Pentium(R) Silver [JN]5###") 8
        (codes "Pentium Silver (Gemini Lake)") (codes "14 nm")
    ∷ known_as (pos 6) (pos 10) any any (pos 122) any any any (codes "Celeron(R) [JN]4###") 6
        (codes "Celeron (Gemini Lake)") (codes "14 nm")
    ∷ known_as (pos 6) (pos 6) any any (pos 102) (pos 2) any any (codes "Core(TM) i3-8###U") 10
        (codes "Core i3 (Cannon Lake-U)") (codes "14++ nm")
    ∷ known_as (pos 6) (pos 6) any any (pos 102) (pos 2) any any (codes "Core(TM) m3-8###Y") 10
        (codes "Core m3 (Cannon Lake-Y)") (codes "14++ nm")
    ∷ known_as (pos 6) (pos 14) any any (pos 126) (pos 4) any any (codes "Core(TM) i7-10##NG7") 10
        (codes "Core i7 (Ice Lake)") (codes "10 nm")
    ∷ known_as (pos 6) (pos 14) any any (pos 126) (pos 4) any any (codes "Core(TM) i7-10##G7") 10
        (codes "Core i7 (Ice Lake)") (codes "10 nm")
    ∷ known_as (pos 6) (pos 14) any any (pos 126) (pos 4) any any (codes "Core(TM) i5-10##NG7") 10
        (codes "Core i5 (Ice Lake)") (codes "10 nm")
    ∷ known_as (pos 6) (pos 14) any any (pos 126) (pos 4) any any (codes "Core(TM) i5-10##G[741]")
        10 (codes "Core i5 (Ice Lake)") (codes "10 nm")
    ∷ known_as (pos 6) (pos 14) any any (pos 126) (pos 2) any any (codes "Core(TM) i3-10##G[14]") 10
        (codes "Core i3 (Ice Lake)") (codes "10 nm")
    ∷ known_as (pos 6) (pos 14) any any (pos 126) (pos 2) any any (codes "Core(TM) i3-10##NG4") 10
        (codes "Core i3 (Ice Lake)") (codes "10 nm")
    ∷ known_as (pos 6) (pos 14) any any (pos 126) (pos 2) any any (codes "Pentium(R) 68##") 4
        (codes "Pentium (Ice Lake)") (codes "10 nm")
    ∷ known_as (pos 6) (pos 12) any any (pos 108) any any any (codes "Xeon(R) D-[12]7##") 6
        (codes "Xeon D (Ice Lake-D)") (codes "10 nm")
    ∷ known_as (pos 6) (pos 10) any any (pos 106) any any any (codes "Xeon(R) W-#3##") 6
        (codes "Xeon W (Ice Lake-W)") (codes "10 nm")
    ∷ known_as (pos 6) (pos 10) any any (pos 106) any any any (codes "Xeon(R) Platinum #3##") 6
        (codes "Xeon Platinum (Ice Lake-SP)") (codes "10 nm")
    ∷ known_as (pos 6) (pos 10) any any (pos 106) any any any (codes "Xeon(R) Gold #3##") 6
        (codes "Xeon Gold (Ice Lake-SP)") (codes "10 nm")
    ∷ known_as (pos 6) (pos 10) any any (pos 106) any any any (codes "Xeon(R) Silver #3##") 6
        (codes "Xeon Silver (Ice Lake-SP)") (codes "10 nm")
    ∷ known_as (pos 6) (pos 10) any any (pos 106) any any any (codes "Xeon(R) Bronze #3##") 6
        (codes "Xeon Bronze (Ice Lake-SP)") (codes "10 nm")
    ∷ known_as (pos 6) (pos 6) any any (pos 150) any any any (codes "Pentium(R) [JN]6###") 6
        (codes "Pentium (Elkhart Lake)") (codes "10 nm")
    ∷ known_as (pos 6) (pos 6) any any (pos 150) any any any (codes "Celeron(R) [JN]6###") 6
        (codes "Celeron (Elkhart Lake)") (codes "10 nm")
    ∷ known_as (pos 6) (pos 6) any any (pos 150) any any any (codes "Atom(TM) x6###") 6
        (codes "Atom (Elkhart Lake)") (codes "10 nm")
    ∷ known_as (pos 6) (pos 10) any any (pos 138) any any any (codes "Core(TM) i5-L##G7") 12
        (codes "Core i5 (Lakefield)") (codes "10 nm")
    ∷ known_as (pos 6) (pos 10) any any (pos 138) any any any (codes "Core(TM) i3-L##G4") 12
        (codes "Core i3 (Lakefield)") (codes "10 nm")
    ∷ known_as (pos 6) (pos 12) any any (pos 156) any any any (codes "Pentium(R) Silver N6###") 8
        (codes "Pentium Silver (Jasper Lake)") (codes "10 nm")
    ∷ known_as (pos 6) (pos 12) any any (pos 156) any any any (codes "Celeron(R) N[45]###") 6
        (codes "Celeron (Jasper Lake)") (codes "10 nm")
    ∷ known_as (pos 6) (pos 12) any any (pos 140) any any any (codes "Core(TM) i7-11#5G7") 12
        (codes "Core i7 (Tiger Lake-UP3)") (codes "10SF")
    ∷ known_as (pos 6) (pos 12) any any (pos 140) any any any (codes "Core(TM) i5-11#5G7") 12
        (codes "Core i5 (Tiger Lake-UP3)") (codes "10SF")
    ∷ known_as (pos 6) (pos 12) any any (pos 140) any any any (codes "Core(TM) i3-11#5G4") 12
        (codes "Core i3 (Tiger Lake-UP3)") (codes "10SF")
    ∷ known_as (pos 6) (pos 12) any any (pos 140) (pos 2) any any (codes "Pentium(R) Gold 7##5") 6
        (codes "Pentium Gold (Tiger Lake-UP3)") (codes "10SF")
    ∷ known_as (pos 6) (pos 12) any any (pos 140) (pos 2) any any (codes "Celeron(R) 6##5") 4
        (codes "Celeron (Tiger Lake-UP3)") (codes "10SF")
    ∷ known_as (pos 6) (pos 12) any any (pos 140) any any any (codes "Core(TM) i7-11#0G7") 12
        (codes "Core i7 (Tiger Lake-UP4)") (codes "10SF")
    ∷ known_as (pos 6) (pos 12) any any (pos 140) any any any (codes "Core(TM) i5-11#0G7") 12
        (codes "Core i5 (Tiger Lake-UP4)") (codes "10SF")
    ∷ known_as (pos 6) (pos 12) any any (pos 140) any any any (codes "Core(TM) i3-11#0G4") 12
        (codes "Core i3 (Tiger Lake-UP4)") (codes "10SF")
    ∷ known_as (pos 6) (pos 12) any any (pos 140) any any any (codes "Core(TM) i7-11###H") 10
        (codes "Core i7 (Tiger Lake-H35)") (codes "10SF")
    ∷ known_as (pos 6) (pos 12) any any (pos 140) any any any (codes "Core(TM) i5-11###H") 10
        (codes "Core i5 (Tiger Lake-H35)") (codes "10SF")
    ∷ known_as (pos 6) (pos 13) any any (pos 141) any any any (codes "Xeon(R) W-11###M") 10
        (codes "Xeon W (Tiger Lake-H)") (codes "10SF")
    ∷ known_as (pos 6) (pos 13) any any (pos 141) any any any (codes "Core(TM) i9-11###H") 10
        (codes "Core i9 (Tiger Lake-H)") (codes "10SF")
    ∷ known_as (pos 6) (pos 13) any any (pos 141) any any any (codes "Core(TM) i7-11###H") 10
        (codes "Core i7 (Tiger Lake-H)") (codes "10SF")
    ∷ known_as (pos 6) (pos 13) any any (pos 141) any any any (codes "Core(TM) i5-11###H") 10
        (codes "Core i5 (Tiger Lake-H)") (codes "10SF")
    ∷ []
