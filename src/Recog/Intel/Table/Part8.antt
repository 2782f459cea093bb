-- ===== src/Recog/Intel/Table/Part8.antt =====
-- `cpudb_intel` of libcpuid/recog_intel.c: rows 407 to 464 of 517.
use libcpuid.Base.{List, [], ◌∷◌, pos, codes}
use libcpuid.Util.Codename.{MatchEntry, known_as, any}

abbrev pub cpudb_intel_part8 : List MatchEntry
cpudb_intel_part8 =
    known_as (pos 6) (pos 13) any any (pos 141) any any any (codes "Core(TM) i9-11###KB") 12
      (codes "Core i9 (Tiger Lake-B)") (codes "10SF")
    ∷ known_as (pos 6) (pos 13) any any (pos 141) any any any (codes "Core(TM) i7-11###B") 10
        (codes "Core i7 (Tiger Lake-B)") (codes "10SF")
    ∷ known_as (pos 6) (pos 13) any any (pos 141) any any any (codes "Core(TM) i5-11###B") 10
        (codes "Core i5 (Tiger Lake-B)") (codes "10SF")
    ∷ known_as (pos 6) (pos 13) any any (pos 141) any any any (codes "Core(TM) i5-11###B") 10
        (codes "Core i5 (Tiger Lake-B)") (codes "10SF")
    ∷ known_as (pos 6) (pos 7) any any (pos 167) any any any (codes "Core(TM) i9-11###") 8
        (codes "Core i9 (Rocket Lake-S)") (codes "14++ nm")
    ∷ known_as (pos 6) (pos 7) any any (pos 167) any any any (codes "Core(TM) i7-11###") 8
        (codes "Core i7 (Rocket Lake-S)") (codes "14++ nm")
    ∷ known_as (pos 6) (pos 7) any any (pos 167) any any any (codes "Core(TM) i5-11###") 8
        (codes "Core i5 (Rocket Lake-S)") (codes "14++ nm")
    ∷ known_as (pos 6) (pos 7) any any (pos 167) any any any (codes "Xeon(R) E-23##") 6
        (codes "Xeon E (Rocket Lake)") (codes "14++ nm")
    ∷ known_as (pos 6) (pos 7) any any (pos 151) any any any (codes "Core(TM) i9-12###") 8
        (codes "Core i9 (Alder Lake-S)") (codes "Intel 7")
    ∷ known_as (pos 6) (pos 7) any any (pos 151) any any any (codes "Core(TM) i7-12###") 8
        (codes "Core i7 (Alder Lake-S)") (codes "Intel 7")
    ∷ known_as (pos 6) (pos 7) any any (pos 151) any any any (codes "Core(TM) i5-12###") 8
        (codes "Core i5 (Alder Lake-S)") (codes "Intel 7")
    ∷ known_as (pos 6) (pos 7) any any (pos 151) any any any (codes "Core(TM) i3-12###") 8
        (codes "Core i3 (Alder Lake-S)") (codes "Intel 7")
    ∷ known_as (pos 6) (pos 7) any any (pos 151) any any any (codes "Pentium(R) Gold G7###") 8
        (codes "Pentium Gold (Alder Lake-S)") (codes "Intel 7")
    ∷ known_as (pos 6) (pos 7) any any (pos 151) any any any (codes "Celeron(R) G6###") 6
        (codes "Celeron (Alder Lake-S)") (codes "Intel 7")
    ∷ known_as (pos 6) (pos 7) any any (pos 151) any any any (codes "Core(TM) i9-12###HX") 12
        (codes "Core i9 (Alder Lake-HX)") (codes "Intel 7")
    ∷ known_as (pos 6) (pos 7) any any (pos 151) any any any (codes "Core(TM) i7-12###HX") 12
        (codes "Core i7 (Alder Lake-HX)") (codes "Intel 7")
    ∷ known_as (pos 6) (pos 7) any any (pos 151) any any any (codes "Core(TM) i5-12###HX") 12
        (codes "Core i5 (Alder Lake-HX)") (codes "Intel 7")
    ∷ known_as (pos 6) (pos 10) any any (pos 154) any any any (codes "Core(TM) i7-12##P") 10
        (codes "Core i7 (Alder Lake-P)") (codes "Intel 7")
    ∷ known_as (pos 6) (pos 10) any any (pos 154) any any any (codes "Core(TM) i5-12##P") 10
        (codes "Core i5 (Alder Lake-P)") (codes "Intel 7")
    ∷ known_as (pos 6) (pos 10) any any (pos 154) any any any (codes "Core(TM) i3-12##P") 10
        (codes "Core i3 (Alder Lake-P)") (codes "Intel 7")
    ∷ known_as (pos 6) (pos 10) any any (pos 154) any any any (codes "Core(TM) i7-12##U") 10
        (codes "Core i7 (Alder Lake-U)") (codes "Intel 7")
    ∷ known_as (pos 6) (pos 10) any any (pos 154) any any any (codes "Core(TM) i5-12##U") 10
        (codes "Core i5 (Alder Lake-U)") (codes "Intel 7")
    ∷ known_as (pos 6) (pos 10) any any (pos 154) any any any (codes "Core(TM) i3-12##U") 10
        (codes "Core i3 (Alder Lake-U)") (codes "Intel 7")
    ∷ known_as (pos 6) (pos 10) any any (pos 154) any any any (codes "Pentium(R) Gold 8###") 6
        (codes "Pentium Gold (Alder Lake-U)") (codes "Intel 7")
    ∷ known_as (pos 6) (pos 10) any any (pos 154) any any any (codes "Celeron(R) 7###") 4
        (codes "Celeron (Alder Lake-U)") (codes "Intel 7")
    ∷ known_as (pos 6) (pos 10) any any (pos 154) any any any (codes "Core(TM) i9-12###H") 10
        (codes "Core i9 (Alder Lake-H)") (codes "Intel 7")
    ∷ known_as (pos 6) (pos 10) any any (pos 154) any any any (codes "Core(TM) i7-12###H") 10
        (codes "Core i7 (Alder Lake-H)") (codes "Intel 7")
    ∷ known_as (pos 6) (pos 10) any any (pos 154) any any any (codes "Core(TM) i5-12###H") 10
        (codes "Core i5 (Alder Lake-H)") (codes "Intel 7")
    ∷ known_as (pos 6) (pos 10) any any (pos 154) any any any (codes "Core(TM) i7-12##UL") 12
        (codes "Core i7 (Alder Lake-PS)") (codes "Intel 7")
    ∷ known_as (pos 6) (pos 10) any any (pos 154) any any any (codes "Core(TM) i5-12##UL") 12
        (codes "Core i5 (Alder Lake-PS)") (codes "Intel 7")
    ∷ known_as (pos 6) (pos 10) any any (pos 154) any any any (codes "Core(TM) i3-12##UL") 12
        (codes "Core i3 (Alder Lake-PS)") (codes "Intel 7")
    ∷ known_as (pos 6) (pos 10) any any (pos 154) any any any (codes "Celeron(R) 7###L") 6
        (codes "Celeron (Alder Lake-PS)") (codes "Intel 7")
    ∷ known_as (pos 6) (pos 10) any any (pos 154) any any any (codes "Core(TM) i7-12###HL") 12
        (codes "Core i7 (Alder Lake-PS)") (codes "Intel 7")
    ∷ known_as (pos 6) (pos 10) any any (pos 154) any any any (codes "Core(TM) i5-12###HL") 12
        (codes "Core i5 (Alder Lake-PS)") (codes "Intel 7")
    ∷ known_as (pos 6) (pos 10) any any (pos 154) any any any (codes "Core(TM) i3-12###HL") 12
        (codes "Core i3 (Alder Lake-PS)") (codes "Intel 7")
    ∷ known_as (pos 6) (pos 15) any any (pos 143) any any any (codes "Xeon(R) w9-#4##") 6
        (codes "Xeon w9 (Sapphire Rapids-WS)") (codes "Intel 7")
    ∷ known_as (pos 6) (pos 15) any any (pos 143) any any any (codes "Xeon(R) w7-#4##") 6
        (codes "Xeon w7 (Sapphire Rapids-WS)") (codes "Intel 7")
    ∷ known_as (pos 6) (pos 15) any any (pos 143) any any any (codes "Xeon(R) w5-#4##") 6
        (codes "Xeon w5 (Sapphire Rapids-WS)") (codes "Intel 7")
    ∷ known_as (pos 6) (pos 15) any any (pos 143) any any any (codes "Xeon(R) w3-#4##") 6
        (codes "Xeon w3 (Sapphire Rapids-WS)") (codes "Intel 7")
    ∷ known_as (pos 6) (pos 15) any any (pos 143) any any any (codes "Xeon(R) Max #4##") 6
        (codes "Xeon Max (Sapphire Rapids-HBM)") (codes "Intel 7")
    ∷ known_as (pos 6) (pos 15) any any (pos 143) any any any (codes "Xeon(R) Platinum #4##") 6
        (codes "Xeon Platinum (Sapphire Rapids-SP)") (codes "Intel 7")
    ∷ known_as (pos 6) (pos 15) any any (pos 143) any any any (codes "Xeon(R) Gold #4##") 6
        (codes "Xeon Gold (Sapphire Rapids-SP)") (codes "Intel 7")
    ∷ known_as (pos 6) (pos 15) any any (pos 143) any any any (codes "Xeon(R) Silver #4##") 6
        (codes "Xeon Silver (Sapphire Rapids-SP)") (codes "Intel 7")
    ∷ known_as (pos 6) (pos 15) any any (pos 143) any any any (codes "Xeon(R) Bronze #4##") 6
        (codes "Xeon Bronze (Sapphire Rapids-SP)") (codes "Intel 7")
    ∷ known_as (pos 6) (pos 14) any any (pos 190) any any any (codes "Core(TM) i3-N3##") 10
        (codes "Core i3 (Alder Lake-N)") (codes "Intel 7")
    ∷ known_as (pos 6) (pos 14) any any (pos 190) (pos 4) any any (codes "N##") 2
        (codes "Intel Processor (Alder Lake-N)") (codes "Intel 7")
    ∷ known_as (pos 6) (pos 14) any any (pos 190) (pos 2) any any (codes "N##") 2
        (codes "Intel Processor (Alder Lake-N)") (codes "Intel 7")
    ∷ known_as (pos 6) (pos 14) any any (pos 190) any any any (codes "Atom(TM) x7###E") 8
        (codes "Atom (Alder Lake-N)") (codes "Intel 7")
    ∷ known_as (pos 6) (pos 14) any any (pos 190) (pos 8) any any (codes "Core(TM) 3 N#5#") 8
        (codes "Core 3 (Twin Lake-N)") (codes "Intel 7")
    ∷ known_as (pos 6) (pos 14) any any (pos 190) (pos 4) any any (codes "N#5#") 4
        (codes "Intel Processor (Twin Lake-N)") (codes "Intel 7")
    ∷ known_as (pos 6) (pos 15) any any (pos 191) any any any (codes "Core(TM) i5-13###") 8
        (codes "Core i5 (Raptor Lake-S)") (codes "Intel 7")
    ∷ known_as (pos 6) (pos 15) any any (pos 191) any any any (codes "Core(TM) i3-13###") 8
        (codes "Core i3 (Raptor Lake-S)") (codes "Intel 7")
    ∷ known_as (pos 6) (pos 7) any any (pos 183) any any any (codes "Core(TM) i9-13###") 8
        (codes "Core i9 (Raptor Lake-S)") (codes "Intel 7")
    ∷ known_as (pos 6) (pos 7) any any (pos 183) any any any (codes "Core(TM) i7-13###") 8
        (codes "Core i7 (Raptor Lake-S)") (codes "Intel 7")
    ∷ known_as (pos 6) (pos 7) any any (pos 183) any any any (codes "Core(TM) i5-13###") 8
        (codes "Core i5 (Raptor Lake-S)") (codes "Intel 7")
    ∷ known_as (pos 6) (pos 7) any any (pos 183) any any any (codes "Core(TM) i3-13###") 8
        (codes "Core i3 (Raptor Lake-S)") (codes "Intel 7")
    ∷ known_as (pos 6) (pos 7) any any (pos 183) any any any (codes "Core(TM) i9-13###HX") 12
        (codes "Core i9 (Raptor Lake-HX)") (codes "Intel 7")
    ∷ known_as (pos 6) (pos 7) any any (pos 183) any any any (codes "Core(TM) i7-13###HX") 12
        (codes "Core i7 (Raptor Lake-HX)") (codes "Intel 7")
    ∷ []
