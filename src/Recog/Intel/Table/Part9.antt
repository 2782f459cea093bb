-- ===== src/Recog/Intel/Table/Part9.antt =====
-- `cpudb_intel` of libcpuid/recog_intel.c: rows 465 to 517 of 517.
use libcpuid.Base.{List, [], ◌∷◌, pos, codes}
use libcpuid.Util.Codename.{MatchEntry, known_as, any, unkn_str}

abbrev pub cpudb_intel_part9 : List MatchEntry
cpudb_intel_part9 =
    known_as (pos 6) (pos 7) any any (pos 183) any any any (codes "Core(TM) i5-13###HX") 12
      (codes "Core i5 (Raptor Lake-HX)") (codes "Intel 7")
    ∷ known_as (pos 6) (pos 10) (pos 2) any (pos 186) any any any (codes "Core(TM) i7-13###P") 10
        (codes "Core i7 (Raptor Lake-P)") (codes "Intel 7")
    ∷ known_as (pos 6) (pos 10) (pos 2) any (pos 186) any any any (codes "Core(TM) i5-13###P") 10
        (codes "Core i5 (Raptor Lake-P)") (codes "Intel 7")
    ∷ known_as (pos 6) (pos 10) (pos 3) any (pos 186) any any any (codes "Core(TM) i7-13###U") 10
        (codes "Core i7 (Raptor Lake-U)") (codes "Intel 7")
    ∷ known_as (pos 6) (pos 10) (pos 3) any (pos 186) any any any (codes "Core(TM) i5-13###U") 10
        (codes "Core i5 (Raptor Lake-U)") (codes "Intel 7")
    ∷ known_as (pos 6) (pos 10) (pos 3) any (pos 186) any any any (codes "Core(TM) i3-13###U") 10
        (codes "Core i3 (Raptor Lake-U)") (codes "Intel 7")
    ∷ known_as (pos 6) (pos 10) (pos 3) any (pos 186) any any any (codes "U300") 4
        (codes "Intel Processor (Raptor Lake-U)") (codes "Intel 7")
    ∷ known_as (pos 6) (pos 10) any any (pos 186) any any any (codes "Core(TM) i9-13###H") 10
        (codes "Core i9 (Raptor Lake-H)") (codes "Intel 7")
    ∷ known_as (pos 6) (pos 10) any any (pos 186) any any any (codes "Core(TM) i7-13###H") 10
        (codes "Core i7 (Raptor Lake-H)") (codes "Intel 7")
    ∷ known_as (pos 6) (pos 10) any any (pos 186) any any any (codes "Core(TM) i5-13###H") 10
        (codes "Core i5 (Raptor Lake-H)") (codes "Intel 7")
    ∷ known_as (pos 6) (pos 15) any any (pos 207) any any any (codes "Xeon(R) Platinum #5##") 6
        (codes "Xeon Platinum (Emerald Rapids-SP)") (codes "Intel 7")
    ∷ known_as (pos 6) (pos 15) any any (pos 207) any any any (codes "Xeon(R) Gold #5##") 6
        (codes "Xeon Gold (Emerald Rapids-SP)") (codes "Intel 7")
    ∷ known_as (pos 6) (pos 15) any any (pos 207) any any any (codes "Xeon(R) Silver #5##") 6
        (codes "Xeon Silver (Emerald Rapids-SP)") (codes "Intel 7")
    ∷ known_as (pos 6) (pos 15) any any (pos 207) any any any (codes "Xeon(R) Bronze #5##") 6
        (codes "Xeon Bronze (Emerald Rapids-SP)") (codes "Intel 7")
    ∷ known_as (pos 6) (pos 7) any any (pos 183) any any any (codes "Core(TM) i9-14###") 8
        (codes "Core i9 (Raptor Lake-S)") (codes "Intel 7")
    ∷ known_as (pos 6) (pos 7) any any (pos 183) any any any (codes "Core(TM) i7-14###") 8
        (codes "Core i7 (Raptor Lake-S)") (codes "Intel 7")
    ∷ known_as (pos 6) (pos 7) any any (pos 183) any any any (codes "Core(TM) i5-14###") 8
        (codes "Core i5 (Raptor Lake-S)") (codes "Intel 7")
    ∷ known_as (pos 6) (pos 7) any any (pos 183) any any any (codes "Core(TM) i3-14###") 8
        (codes "Core i3 (Raptor Lake-S)") (codes "Intel 7")
    ∷ known_as (pos 6) (pos 7) any any (pos 183) (pos 2) any any (codes "300") 2
        (codes "Intel Processor (Raptor Lake-S)") (codes "Intel 7")
    ∷ known_as (pos 6) (pos 7) any any (pos 183) any any any (codes "Core(TM) i9-14###HX") 12
        (codes "Core i9 (Raptor Lake-HX)") (codes "Intel 7")
    ∷ known_as (pos 6) (pos 7) any any (pos 183) any any any (codes "Core(TM) i7-14###HX") 12
        (codes "Core i7 (Raptor Lake-HX)") (codes "Intel 7")
    ∷ known_as (pos 6) (pos 7) any any (pos 183) any any any (codes "Core(TM) i5-14###HX") 12
        (codes "Core i5 (Raptor Lake-HX)") (codes "Intel 7")
    ∷ known_as (pos 6) (pos 7) any any (pos 183) any any any (codes "Xeon(R) E-24##") 6
        (codes "Xeon E (Raptor Lake)") (codes "Intel 7")
    ∷ known_as (pos 6) (pos 7) any any (pos 183) any any any (codes "Core(TM) 7 1##U") 8
        (codes "Core 7 (Raptor Lake-U)") (codes "Intel 7")
    ∷ known_as (pos 6) (pos 7) any any (pos 183) any any any (codes "Core(TM) 5 1##U") 8
        (codes "Core 5 (Raptor Lake-U)") (codes "Intel 7")
    ∷ known_as (pos 6) (pos 7) any any (pos 183) any any any (codes "Core(TM) 3 1##U") 8
        (codes "Core 3 (Raptor Lake-U)") (codes "Intel 7")
    ∷ known_as (pos 6) (pos 7) any any (pos 183) any any any (codes "Core(TM) 7 2##U") 8
        (codes "Core 7 (Raptor Lake-U)") (codes "Intel 7")
    ∷ known_as (pos 6) (pos 7) any any (pos 183) any any any (codes "Core(TM) 5 2##U") 8
        (codes "Core 5 (Raptor Lake-U)") (codes "Intel 7")
    ∷ known_as (pos 6) (pos 7) any any (pos 183) any any any (codes "Core(TM) 9 2##H") 8
        (codes "Core 9 (Raptor Lake-H)") (codes "Intel 7")
    ∷ known_as (pos 6) (pos 7) any any (pos 183) any any any (codes "Core(TM) 7 2##H") 8
        (codes "Core 7 (Raptor Lake-H)") (codes "Intel 7")
    ∷ known_as (pos 6) (pos 7) any any (pos 183) any any any (codes "Core(TM) 5 2##H") 8
        (codes "Core 5 (Raptor Lake-H)") (codes "Intel 7")
    ∷ known_as (pos 6) (pos 10) any any (pos 170) any any any (codes "Core(TM) Ultra 9 1##H") 10
        (codes "Core Ultra 9 (Meteor Lake-H)") (codes "Intel 4")
    ∷ known_as (pos 6) (pos 10) any any (pos 170) any any any (codes "Core(TM) Ultra 7 1##H") 10
        (codes "Core Ultra 7 (Meteor Lake-H)") (codes "Intel 4")
    ∷ known_as (pos 6) (pos 10) any any (pos 170) any any any (codes "Core(TM) Ultra 5 1##H") 10
        (codes "Core Ultra 5 (Meteor Lake-H)") (codes "Intel 4")
    ∷ known_as (pos 6) (pos 10) any any (pos 170) any any any (codes "Core(TM) Ultra 7 1##U") 10
        (codes "Core Ultra 7 (Meteor Lake-U)") (codes "Intel 4")
    ∷ known_as (pos 6) (pos 10) any any (pos 170) any any any (codes "Core(TM) Ultra 5 1##U") 10
        (codes "Core Ultra 5 (Meteor Lake-U)") (codes "Intel 4")
    ∷ known_as (pos 6) (pos 13) any any (pos 173) any any any (codes "Xeon(R) 6[57]##P") 6
        (codes "Xeon 6 (Granite Rapids-SP)") (codes "Intel 3")
    ∷ known_as (pos 6) (pos 6) any any (pos 198) any any any (codes "Core(TM) Ultra 9 2##") 8
        (codes "Core Ultra 9 (Arrow Lake-S)") (codes "TSMC N3B")
    ∷ known_as (pos 6) (pos 6) any any (pos 198) any any any (codes "Core(TM) Ultra 7 2##") 8
        (codes "Core Ultra 7 (Arrow Lake-S)") (codes "TSMC N3B")
    ∷ known_as (pos 6) (pos 6) any any (pos 198) any any any (codes "Core(TM) Ultra 5 2##") 8
        (codes "Core Ultra 5 (Arrow Lake-S)") (codes "TSMC N3B")
    ∷ known_as (pos 6) (pos 6) any any (pos 181) any any any (codes "Core(TM) Ultra 7 2##U") 10
        (codes "Core Ultra 7 (Arrow Lake-U)") (codes "TSMC N3B")
    ∷ known_as (pos 6) (pos 6) any any (pos 181) any any any (codes "Core(TM) Ultra 5 2##U") 10
        (codes "Core Ultra 5 (Arrow Lake-U)") (codes "TSMC N3B")
    ∷ known_as (pos 6) (pos 6) any any (pos 197) any any any (codes "Core(TM) Ultra 9 2##H") 10
        (codes "Core Ultra 9 (Arrow Lake-H)") (codes "TSMC N3B")
    ∷ known_as (pos 6) (pos 6) any any (pos 197) any any any (codes "Core(TM) Ultra 7 2##H") 10
        (codes "Core Ultra 7 (Arrow Lake-H)") (codes "TSMC N3B")
    ∷ known_as (pos 6) (pos 6) any any (pos 197) any any any (codes "Core(TM) Ultra 5 2##H") 10
        (codes "Core Ultra 5 (Arrow Lake-H)") (codes "TSMC N3B")
    ∷ known_as (pos 6) (pos 6) any any (pos 197) any any any (codes "Core(TM) Ultra 9 2##HX") 12
        (codes "Core Ultra 9 (Arrow Lake-HX)") (codes "TSMC N3B")
    ∷ known_as (pos 6) (pos 6) any any (pos 197) any any any (codes "Core(TM) Ultra 7 2##HX") 12
        (codes "Core Ultra 7 (Arrow Lake-HX)") (codes "TSMC N3B")
    ∷ known_as (pos 6) (pos 6) any any (pos 197) any any any (codes "Core(TM) Ultra 5 2##HX") 12
        (codes "Core Ultra 5 (Arrow Lake-HX)") (codes "TSMC N3B")
    ∷ known_as (pos 6) (pos 13) any any (pos 189) any any any (codes "Core(TM) Ultra 9 2##V") 10
        (codes "Core Ultra 9 (Lunar Lake-V)") (codes "TSMC N3B")
    ∷ known_as (pos 6) (pos 13) any any (pos 189) any any any (codes "Core(TM) Ultra 7 2##V") 10
        (codes "Core Ultra 7 (Lunar Lake-V)") (codes "TSMC N3B")
    ∷ known_as (pos 6) (pos 13) any any (pos 189) any any any (codes "Core(TM) Ultra 5 2##V") 10
        (codes "Core Ultra 5 (Lunar Lake-V)") (codes "TSMC N3B")
    ∷ known_as (pos 7) any any any any (pos 1) any any [] 0 (codes "Itanium") unkn_str
    ∷ known_as (pos 15) any any (pos 16) any (pos 1) any any [] 0 (codes "Itanium 2") unkn_str
    ∷ []
