-- ===== src/Recog/Intel/Table/Part3.antt =====
-- `cpudb_intel` of libcpuid/recog_intel.c: rows 117 to 174 of 517.
use libcpuid.Base.{List, [], ◌∷◌, pos, codes}
use libcpuid.Util.Codename.{MatchEntry, known_as, any}

abbrev pub cpudb_intel_part3 : List MatchEntry
cpudb_intel_part3 =
    known_as (pos 6) (pos 7) any any (pos 23) (pos 1) (pos 1024) any (codes "Celeron(R) [79]##") 4
      (codes "Celeron (Penryn-L)") (codes "45 nm")
    ∷ known_as (pos 6) (pos 7) any any (pos 23) (pos 2) (pos 3072) any
        (codes "Core(TM)2 Duo SU[78]###") 8 (codes "Core 2 Duo (Penryn-3M)") (codes "45 nm")
    ∷ known_as (pos 6) (pos 7) any any (pos 23) (pos 2) (pos 3072) any
        (codes "Core(TM)2 Duo P[78]###") 8 (codes "Core 2 Duo (Penryn-3M)") (codes "45 nm")
    ∷ known_as (pos 6) (pos 7) any any (pos 23) (pos 2) (pos 2048) any (codes "Core(TM)2 Duo T6###")
        8 (codes "Core 2 Duo (Penryn-3M)") (codes "45 nm")
    ∷ known_as (pos 6) (pos 7) any any (pos 23) (pos 2) (pos 3072) any (codes "Core(TM)2 Duo T8###")
        8 (codes "Core 2 Duo (Penryn-3M)") (codes "45 nm")
    ∷ known_as (pos 6) (pos 7) any any (pos 23) (pos 2) (pos 6144) any
        (codes "Core(TM)2 Duo S[LP]9###") 8 (codes "Core 2 Duo (Penryn)") (codes "45 nm")
    ∷ known_as (pos 6) (pos 7) any any (pos 23) (pos 2) (pos 6144) any
        (codes "Core(TM)2 Duo [PT]9###") 8 (codes "Core 2 Duo (Penryn)") (codes "45 nm")
    ∷ known_as (pos 6) (pos 7) any any (pos 23) (pos 2) (pos 6144) any (codes "Core(TM)2 Duo E8###")
        8 (codes "Core 2 Duo (Penryn)") (codes "45 nm")
    ∷ known_as (pos 6) (pos 7) any any (pos 23) (pos 4) (pos 2048) any
        (codes "Core(TM)2 Quad Q8###") 8 (codes "Core 2 Quad (Yorkfield-6M)") (codes "45 nm")
    ∷ known_as (pos 6) (pos 7) any any (pos 23) (pos 4) (pos 3072) any
        (codes "Core(TM)2 Quad Q9#0#") 8 (codes "Core 2 Quad (Yorkfield-6M)") (codes "45 nm")
    ∷ known_as (pos 6) (pos 7) any any (pos 23) (pos 4) (pos 6144) any
        (codes "Core(TM)2 Quad Q9#5#") 8 (codes "Core 2 Quad (Yorkfield)") (codes "45 nm")
    ∷ known_as (pos 6) (pos 7) any any (pos 23) (pos 2) any any (codes "Xeon(R) [EL]31##") 6
        (codes "Xeon (Wolfdale)") (codes "45 nm")
    ∷ known_as (pos 6) (pos 7) any any (pos 23) (pos 2) any any (codes "Xeon(R) [EXL]52##") 6
        (codes "Xeon (Wolfdale DP)") (codes "45 nm")
    ∷ known_as (pos 6) (pos 7) any any (pos 23) (pos 4) any any (codes "Xeon(R) [EXL]54##") 6
        (codes "Xeon (Harpertown)") (codes "45 nm")
    ∷ known_as (pos 6) (pos 7) any any (pos 23) (pos 4) any any (codes "Xeon(R) [XL]33##") 6
        (codes "Xeon (Yorkfield)") (codes "45 nm")
    ∷ known_as (pos 6) (pos 13) any any (pos 29) any any any (codes "Xeon(R) [EXL]74##") 6
        (codes "Xeon (Dunnington)") (codes "45 nm")
    ∷ known_as (pos 6) (pos 10) any any (pos 26) any any any (codes "Xeon(R) [WELX]5###") 6
        (codes "Xeon (Gainestown)") (codes "45 nm")
    ∷ known_as (pos 6) (pos 10) any any (pos 26) any any any (codes "Xeon(R) [WELX]3###") 6
        (codes "Xeon (Bloomfield)") (codes "45 nm")
    ∷ known_as (pos 6) (pos 10) any any (pos 26) any any any (codes "Core(TM) i7 9#5") 8
        (codes "Core i7 Extreme (Bloomfield)") (codes "45 nm")
    ∷ known_as (pos 6) (pos 10) any any (pos 26) any any any (codes "Core(TM) i7 9#0") 8
        (codes "Core i7 (Bloomfield)") (codes "45 nm")
    ∷ known_as (pos 6) (pos 14) any any (pos 30) any any any (codes "Core(TM) i7 8##") 8
        (codes "Core i7 (Lynnfield)") (codes "45 nm")
    ∷ known_as (pos 6) (pos 14) any any (pos 30) any any any (codes "Core(TM) i5 7##") 8
        (codes "Core i5 (Lynnfield)") (codes "45 nm")
    ∷ known_as (pos 6) (pos 14) any any (pos 30) any any any (codes "Core(TM) i7 [QX] [789]##") 10
        (codes "Core i7 (Clarksfield)") (codes "45 nm")
    ∷ known_as (pos 6) (pos 14) any any (pos 30) any any any (codes "Core(TM) [QX] [789]##") 8
        (codes "Core i7 (Clarksfield)") (codes "45 nm")
    ∷ known_as (pos 6) (pos 6) any any (pos 38) any any any (codes "Atom(TM) E6##T") 8
        (codes "Atom (Tunnel Creek)") (codes "45 nm")
    ∷ known_as (pos 6) (pos 6) any any (pos 38) any any any (codes "Atom(TM) E6##") 6
        (codes "Atom (Tunnel Creek)") (codes "45 nm")
    ∷ known_as (pos 6) (pos 6) any any (pos 38) any any any (codes "Atom(TM) E6##C") 8
        (codes "Atom (Stellarton)") (codes "45 nm")
    ∷ known_as (pos 6) (pos 12) any any (pos 28) any any any (codes "Atom(TM) Z5##") 6
        (codes "Atom (Silverthorne)") (codes "45 nm")
    ∷ known_as (pos 6) (pos 12) any any (pos 28) any any any (codes "Atom(TM) N2##") 6
        (codes "Atom (Diamondville)") (codes "45 nm")
    ∷ known_as (pos 6) (pos 12) any any (pos 28) any any any (codes "Atom(TM) [23]##") 6
        (codes "Atom (Diamondville)") (codes "45 nm")
    ∷ known_as (pos 6) (pos 6) any any (pos 38) any any any (codes "Atom(TM) Z6##") 6
        (codes "Atom (Lincroft)") (codes "45 nm")
    ∷ known_as (pos 6) (pos 12) any any (pos 28) any any any (codes "Atom(TM) Z6##") 6
        (codes "Atom (Lincroft)") (codes "45 nm")
    ∷ known_as (pos 6) (pos 12) any any (pos 28) any any any (codes "Atom(TM) [ND][45]##") 6
        (codes "Atom (Pineview)") (codes "45 nm")
    ∷ known_as (pos 6) (pos 14) any any (pos 46) any any any (codes "Xeon(R) [EXL]75##") 6
        (codes "Xeon 7000 (Beckton)") (codes "32 nm")
    ∷ known_as (pos 6) (pos 14) any any (pos 46) any any any (codes "Xeon(R) E65##") 6
        (codes "Xeon 6000 (Beckton)") (codes "32 nm")
    ∷ known_as (pos 6) (pos 14) any any (pos 46) any any any (codes "Xeon(R) [XELW]5[56]##") 6
        (codes "Xeon 5000 (Beckton)") (codes "32 nm")
    ∷ known_as (pos 6) (pos 14) any any (pos 46) any any any (codes "Xeon(R) [XLW]3[456]###") 6
        (codes "Xeon 3000 (Beckton)") (codes "32 nm")
    ∷ known_as (pos 6) (pos 15) any any (pos 47) any any any (codes "Xeon(R) E7-#8##") 6
        (codes "Xeon E7 (Westmere-EX)") (codes "32 nm")
    ∷ known_as (pos 6) (pos 12) any any (pos 44) any any any (codes "Xeon(R) [XEL]5###") 6
        (codes "Xeon (Westmere-EP)") (codes "32 nm")
    ∷ known_as (pos 6) (pos 12) any any (pos 44) any any any (codes "Xeon(R) W3###") 6
        (codes "Xeon (Gulftown)") (codes "32 nm")
    ∷ known_as (pos 6) (pos 12) any any (pos 44) any any any (codes "Core(TM) i7 X 9##") 10
        (codes "Core i7 Extreme (Gulftown)") (codes "32 nm")
    ∷ known_as (pos 6) (pos 12) any any (pos 44) any any any (codes "Core(TM) i7 9##") 8
        (codes "Core i7 (Gulftown)") (codes "32 nm")
    ∷ known_as (pos 6) (pos 5) any any (pos 37) any any any (codes "Xeon(R) L3###") 6
        (codes "Xeon (Clarkdale)") (codes "32 nm")
    ∷ known_as (pos 6) (pos 5) any any (pos 37) any any any (codes "Core(TM) i5 6##") 8
        (codes "Core i5 (Clarkdale)") (codes "32 nm")
    ∷ known_as (pos 6) (pos 5) any any (pos 37) any any any (codes "Core(TM) i3 5##") 8
        (codes "Core i3 (Clarkdale)") (codes "32 nm")
    ∷ known_as (pos 6) (pos 5) any any (pos 37) any any any (codes "Pentium(R) G6###") 6
        (codes "Pentium (Clarkdale)") (codes "32 nm")
    ∷ known_as (pos 6) (pos 5) any any (pos 37) any any any (codes "Celeron(R) G1###") 6
        (codes "Celeron (Clarkdale)") (codes "32 nm")
    ∷ known_as (pos 6) (pos 5) any any (pos 37) any any any (codes "Core(TM) i7 M 6##") 8
        (codes "Core i7 (Arrandale)") (codes "32 nm")
    ∷ known_as (pos 6) (pos 5) any any (pos 37) any any any (codes "Core(TM) i5 M [45]##") 8
        (codes "Core i5 (Arrandale)") (codes "32 nm")
    ∷ known_as (pos 6) (pos 5) any any (pos 37) any any any (codes "Core(TM) i3 M 3##") 8
        (codes "Core i3 (Arrandale)") (codes "32 nm")
    ∷ known_as (pos 6) (pos 5) any any (pos 37) any any any (codes "Pentium(R) P6###") 6
        (codes "Pentium (Arrandale)") (codes "32 nm")
    ∷ known_as (pos 6) (pos 5) any any (pos 37) any any any (codes "Pentium(R) 5U###") 6
        (codes "Pentium (Arrandale)") (codes "32 nm")
    ∷ known_as (pos 6) (pos 5) any any (pos 37) any any any (codes "Celeron(R) P4###") 6
        (codes "Celeron (Arrandale)") (codes "32 nm")
    ∷ known_as (pos 6) (pos 5) any any (pos 37) any any any (codes "Celeron(R) U3###") 6
        (codes "Celeron (Arrandale)") (codes "32 nm")
    ∷ known_as (pos 6) (pos 12) any any any any any any (codes "Atom(TM) [ND]2###") 6
        (codes "Atom (Cedarview)") (codes "32 nm")
    ∷ known_as (pos 6) (pos 6) any any (pos 54) any any any (codes "Atom(TM) [ND]2###") 6
        (codes "Atom (Cedarview)") (codes "32 nm")
    ∷ known_as (pos 6) (pos 7) any any (pos 39) any any any (codes "Atom(TM) Z2###") 6
        (codes "Atom (Penwell)") (codes "32 nm")
    ∷ known_as (pos 6) (pos 10) any any (pos 42) any any any (codes "Xeon(R) E5####[LW]") 8
        (codes "Xeon E5 (Sandy Bridge)") (codes "32 nm")
    ∷ []
