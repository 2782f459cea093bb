-- ===== src/Recog/Centaur/Table/Part1.antt =====
-- `cpudb_centaur` of libcpuid/recog_centaur.c: rows 1 to 25 of 25.
use libcpuid.Base.{List, [], ◌∷◌, pos, codes}
use libcpuid.Util.Codename.{MatchEntry, known_as, any}

abbrev pub cpudb_centaur_part1 : List MatchEntry
cpudb_centaur_part1 =
    known_as any any any any any any any any [] 0 (codes "Unknown Centaur CPU") (codes "")
    ∷ known_as (pos 6) any any any any any any any (codes "VIA") 2 (codes "Unknown VIA CPU")
        (codes "")
    ∷ known_as (pos 6) (pos 6) any any any any any any (codes "VIA Samuel") 4
        (codes "VIA Cyrix III (Samuel)") (codes "180 nm")
    ∷ known_as (pos 6) (pos 7) any any any any any any (codes "VIA Samuel 2") 6
        (codes "VIA C3 (Samuel 2)") (codes "150 nm")
    ∷ known_as (pos 6) (pos 7) any any any any any any (codes "VIA Ezra") 4 (codes "VIA C3 (Ezra)")
        (codes "130 nm")
    ∷ known_as (pos 6) (pos 8) any any any any any any (codes "VIA C3 Ezra") 6
        (codes "VIA C3 (Ezra-T)") (codes "130 nm")
    ∷ known_as (pos 6) (pos 9) any any any any any any (codes "VIA Nehemiah") 4
        (codes "VIA C3 (Nehemiah)") (codes "130 nm")
    ∷ known_as (pos 6) (pos 10) any any any any any any (codes "VIA Esther") 4
        (codes "VIA C7 (Esther)") (codes "90 nm")
    ∷ known_as (pos 6) (pos 13) any any any any any any (codes "VIA C7-M") 4
        (codes "VIA C7-M (Esther)") (codes "90 nm")
    ∷ known_as (pos 6) (pos 15) any any any any any any (codes "VIA Nano") 4
        (codes "VIA Nano (Isaiah)") (codes "65 nm")
    ∷ known_as (pos 6) (pos 15) any any any (pos 1) any any (codes "VIA Nano") 4
        (codes "VIA Nano (Isaiah)") (codes "65 nm")
    ∷ known_as (pos 6) (pos 15) any any any (pos 2) any any (codes "VIA Nano") 4
        (codes "VIA Nano X2 (Isaiah)") (codes "65 nm")
    ∷ known_as (pos 6) (pos 15) any any any any any any (codes "VIA QuadCore") 4
        (codes "VIA Nano X4 (Isaiah)") (codes "65 nm")
    ∷ known_as (pos 6) (pos 15) any any any (pos 4) any any (codes "VIA Eden X4") 6
        (codes "VIA Eden X4 (Isaiah)") (codes "65 nm")
    ∷ known_as (pos 7) any any any any any any any (codes "ZHAOXIN") 2 (codes "Unknown Zhaoxin CPU")
        (codes "")
    ∷ known_as (pos 7) any any any (pos 15) any any any (codes "ZHAOXIN KaisHeng KH-C") 8
        (codes "Zhaoxin KaisHeng (ZhangJiang)") (codes "28 nm")
    ∷ known_as (pos 7) any any any (pos 15) any any any (codes "ZHAOXIN KaiXian ZX-C") 8
        (codes "Zhaoxin KaiXian (ZhangJiang)") (codes "28 nm")
    ∷ known_as (pos 7) any any any (pos 27) any any any (codes "ZHAOXIN KaisHeng KH-20###") 8
        (codes "Zhaoxin KaisHeng (WuDaoKou)") (codes "28 nm")
    ∷ known_as (pos 7) any any any (pos 27) any any any (codes "ZHAOXIN KaiXian KX-5###") 8
        (codes "Zhaoxin KaiXian (WuDaoKou)") (codes "28 nm")
    ∷ known_as (pos 7) any any any (pos 27) any any any (codes "ZHAOXIN KaiXian KX-U5###") 8
        (codes "Zhaoxin KaiXian (WuDaoKou)") (codes "28 nm")
    ∷ known_as (pos 7) any any any (pos 59) any any any (codes "ZHAOXIN KaisHeng KH-30###") 8
        (codes "Zhaoxin KaisHeng (LuJiaZui)") (codes "16 nm")
    ∷ known_as (pos 7) any any any (pos 59) any any any (codes "ZHAOXIN KaiXian KX-6###") 8
        (codes "Zhaoxin KaiXian (LuJiaZui)") (codes "16 nm")
    ∷ known_as (pos 7) any any any (pos 59) any any any (codes "ZHAOXIN KaiXian KX-U6###") 8
        (codes "Zhaoxin KaiXian (LuJiaZui)") (codes "16 nm")
    ∷ known_as (pos 7) any any any (pos 91) any any any (codes "ZHAOXIN KaisHeng KH-40###") 8
        (codes "Zhaoxin KaisHeng (Yongfeng)") (codes "16 nm")
    ∷ known_as (pos 7) any any any (pos 91) any any any (codes "ZHAOXIN KaiXian KX-7###") 8
        (codes "Zhaoxin KaiXian (Yongfeng)") (codes "16 nm")
    ∷ []
