-- ===== src/Recog/Intel/Table/Part4.antt =====
-- `cpudb_intel` of libcpuid/recog_intel.c: rows 175 to 232 of 517.
use libcpuid.Base.{List, [], ◌∷◌, pos, codes}
use libcpuid.Util.Codename.{MatchEntry, known_as, any}

abbrev pub cpudb_intel_part4 : List MatchEntry
cpudb_intel_part4 =
    known_as (pos 6) (pos 10) any any (pos 42) any any any (codes "Xeon(R) E5####") 6
      (codes "Xeon E5 (Sandy Bridge)") (codes "32 nm")
    ∷ known_as (pos 6) (pos 10) any any (pos 42) any any any (codes "Xeon(R) E3####[CL]") 8
        (codes "Xeon E3 (Sandy Bridge)") (codes "32 nm")
    ∷ known_as (pos 6) (pos 10) any any (pos 42) any any any (codes "Xeon(R) E3####") 6
        (codes "Xeon E3 (Sandy Bridge)") (codes "32 nm")
    ∷ known_as (pos 6) (pos 10) any any (pos 42) any any any (codes "Core(TM) i7-2###") 8
        (codes "Core i7 (Sandy Bridge)") (codes "32 nm")
    ∷ known_as (pos 6) (pos 10) any any (pos 42) any any any (codes "Core(TM) i5-2###") 8
        (codes "Core i5 (Sandy Bridge)") (codes "32 nm")
    ∷ known_as (pos 6) (pos 10) any any (pos 42) any any any (codes "Core(TM) i3-2###") 8
        (codes "Core i3 (Sandy Bridge)") (codes "32 nm")
    ∷ known_as (pos 6) (pos 10) any any (pos 42) any any any (codes "Pentium(R) G[68]##") 6
        (codes "Pentium (Sandy Bridge)") (codes "32 nm")
    ∷ known_as (pos 6) (pos 10) any any (pos 42) any any any (codes "Celeron(R) G[45]##") 6
        (codes "Celeron (Sandy Bridge)") (codes "32 nm")
    ∷ known_as (pos 6) (pos 13) any any (pos 45) any any any (codes "Core(TM) i7-3###[KX]") 10
        (codes "Core i7 Extreme (Sandy Bridge-E)") (codes "32 nm")
    ∷ known_as (pos 6) (pos 13) any any (pos 45) any any any (codes "Xeon(R) E5-####") 4
        (codes "Xeon E5 (Sandy Bridge-E)") (codes "32 nm")
    ∷ known_as (pos 6) (pos 13) any any (pos 45) any any any (codes "Xeon(R) E3-####") 4
        (codes "Xeon E3 (Sandy Bridge-E)") (codes "32 nm")
    ∷ known_as (pos 6) (pos 10) any any (pos 58) any any any (codes "Xeon(R) E7-####L v2") 8
        (codes "Xeon E7 (Ivy Bridge)") (codes "22 nm")
    ∷ known_as (pos 6) (pos 10) any any (pos 58) any any any (codes "Xeon(R) E7-#### v2") 6
        (codes "Xeon E7 (Ivy Bridge)") (codes "22 nm")
    ∷ known_as (pos 6) (pos 10) any any (pos 58) any any any (codes "Xeon(R) E5-####[LW] v2") 8
        (codes "Xeon E5 (Ivy Bridge)") (codes "22 nm")
    ∷ known_as (pos 6) (pos 10) any any (pos 58) any any any (codes "Xeon(R) E5-#### v2") 6
        (codes "Xeon E5 (Ivy Bridge)") (codes "22 nm")
    ∷ known_as (pos 6) (pos 10) any any (pos 58) any any any (codes "Xeon(R) E3-####[CL] v2") 8
        (codes "Xeon E3 (Ivy Bridge)") (codes "22 nm")
    ∷ known_as (pos 6) (pos 10) any any (pos 58) any any any (codes "Xeon(R) E3-#### v2") 6
        (codes "Xeon E3 (Ivy Bridge)") (codes "22 nm")
    ∷ known_as (pos 6) (pos 10) any any (pos 58) any any any (codes "Core(TM) i7-3###") 8
        (codes "Core i7 (Ivy Bridge)") (codes "22 nm")
    ∷ known_as (pos 6) (pos 10) any any (pos 58) any any any (codes "Core(TM) i5-3###") 8
        (codes "Core i5 (Ivy Bridge)") (codes "22 nm")
    ∷ known_as (pos 6) (pos 10) any any (pos 58) any any any (codes "Core(TM) i3-3###") 8
        (codes "Core i3 (Ivy Bridge)") (codes "22 nm")
    ∷ known_as (pos 6) (pos 10) any any (pos 58) any any any (codes "Pentium(R) G2###") 6
        (codes "Pentium (Ivy Bridge)") (codes "22 nm")
    ∷ known_as (pos 6) (pos 10) any any (pos 58) any any any (codes "Celeron(R) G1###") 6
        (codes "Celeron (Ivy Bridge)") (codes "22 nm")
    ∷ known_as (pos 6) (pos 14) any any (pos 62) any any any (codes "Xeon(R) E7-#### v2") 6
        (codes "Xeon E7 (Ivy Bridge-E)") (codes "22 nm")
    ∷ known_as (pos 6) (pos 14) any any (pos 62) any any any (codes "Xeon(R) E5-#### v2") 6
        (codes "Xeon E5 (Ivy Bridge-E)") (codes "22 nm")
    ∷ known_as (pos 6) (pos 14) any any (pos 62) any any any (codes "Xeon(R) E3-#### v2") 6
        (codes "Xeon E3 (Ivy Bridge-E)") (codes "22 nm")
    ∷ known_as (pos 6) (pos 14) any any (pos 62) any any any (codes "Core(TM) i7-4###X") 10
        (codes "Core i7 Extreme (Ivy Bridge-E)") (codes "22 nm")
    ∷ known_as (pos 6) (pos 14) any any (pos 62) any any any (codes "Core(TM) i7-4###K") 8
        (codes "Core i7 (Ivy Bridge-E)") (codes "22 nm")
    ∷ known_as (pos 6) (pos 7) any any (pos 55) any any any (codes "Pentium(R) J2###") 6
        (codes "Pentium (Bay Trail-D)") (codes "22 nm")
    ∷ known_as (pos 6) (pos 7) any any (pos 55) any any any (codes "Celeron(R) J1###") 6
        (codes "Celeron (Bay Trail-D)") (codes "22 nm")
    ∷ known_as (pos 6) (pos 7) any any (pos 55) any any any (codes "Pentium(R) N3###") 6
        (codes "Pentium (Bay Trail-M)") (codes "22 nm")
    ∷ known_as (pos 6) (pos 7) any any (pos 55) any any any (codes "Celeron(R) N2###") 6
        (codes "Celeron (Bay Trail-M)") (codes "22 nm")
    ∷ known_as (pos 6) (pos 7) any any (pos 55) any any any (codes "Atom(TM) Z3###") 6
        (codes "Atom (Bay Trail-T)") (codes "22 nm")
    ∷ known_as (pos 6) (pos 7) any any (pos 55) any any any (codes "Atom(TM) E3###") 6
        (codes "Atom (Bay Trail-I)") (codes "22 nm")
    ∷ known_as (pos 6) (pos 13) any any (pos 77) any any any (codes "Atom(TM) C2##0") 8
        (codes "Atom (Avoton)") (codes "22 nm")
    ∷ known_as (pos 6) (pos 13) any any (pos 77) any any any (codes "Atom(TM) C2##[68]") 8
        (codes "Atom (Rangeley)") (codes "22 nm")
    ∷ known_as (pos 6) (pos 12) any any (pos 60) any any any (codes "Xeon(R) E7-####L v3") 8
        (codes "Xeon E7 (Haswell)") (codes "22 nm")
    ∷ known_as (pos 6) (pos 12) any any (pos 60) any any any (codes "Xeon(R) E7-#### v3") 6
        (codes "Xeon E7 (Haswell)") (codes "22 nm")
    ∷ known_as (pos 6) (pos 12) any any (pos 60) any any any (codes "Xeon(R) E5-####[ABLW] v3") 8
        (codes "Xeon E5 (Haswell)") (codes "22 nm")
    ∷ known_as (pos 6) (pos 12) any any (pos 60) any any any (codes "Xeon(R) E5-#### v3") 6
        (codes "Xeon E5 (Haswell)") (codes "22 nm")
    ∷ known_as (pos 6) (pos 12) any any (pos 60) any any any (codes "Xeon(R) E3-####L v3") 8
        (codes "Xeon E3 (Haswell)") (codes "22 nm")
    ∷ known_as (pos 6) (pos 12) any any (pos 60) any any any (codes "Xeon(R) E3-#### v3") 6
        (codes "Xeon E3 (Haswell)") (codes "22 nm")
    ∷ known_as (pos 6) (pos 12) any any (pos 60) any any any (codes "Core(TM) i7-4###") 8
        (codes "Core i7 (Haswell)") (codes "22 nm")
    ∷ known_as (pos 6) (pos 12) any any (pos 60) any any any (codes "Core(TM) i5-4###") 8
        (codes "Core i5 (Haswell)") (codes "22 nm")
    ∷ known_as (pos 6) (pos 12) any any (pos 60) any any any (codes "Core(TM) i3-4###") 8
        (codes "Core i3 (Haswell)") (codes "22 nm")
    ∷ known_as (pos 6) (pos 12) any any (pos 60) any any any (codes "Pentium(R) G3###") 6
        (codes "Pentium (Haswell)") (codes "22 nm")
    ∷ known_as (pos 6) (pos 12) any any (pos 60) any any any (codes "Celeron(R) G1###") 6
        (codes "Celeron (Haswell)") (codes "22 nm")
    ∷ known_as (pos 6) (pos 15) any any (pos 63) any any any (codes "Core(TM) i7-5###[KX]") 8
        (codes "Core i7 Extreme (Haswell)") (codes "22 nm")
    ∷ known_as (pos 6) (pos 5) any any (pos 69) any any any (codes "Core(TM) i7-4###") 8
        (codes "Core i7 (Haswell)") (codes "22 nm")
    ∷ known_as (pos 6) (pos 5) any any (pos 69) any any any (codes "Core(TM) i5-4###") 8
        (codes "Core i5 (Haswell)") (codes "22 nm")
    ∷ known_as (pos 6) (pos 5) any any (pos 69) any any any (codes "Core(TM) i3-4###") 8
        (codes "Core i3 (Haswell)") (codes "22 nm")
    ∷ known_as (pos 6) (pos 6) any any (pos 70) any any any (codes "Core(TM) i7-4###R") 10
        (codes "Core i7 (Haswell-H)") (codes "22 nm")
    ∷ known_as (pos 6) (pos 6) any any (pos 70) any any any (codes "Core(TM) i5-4###R") 10
        (codes "Core i5 (Haswell-H)") (codes "22 nm")
    ∷ known_as (pos 6) (pos 5) any any (pos 69) any any any (codes "Core(TM) i7-4###U") 10
        (codes "Core i7 (Haswell-ULT)") (codes "22 nm")
    ∷ known_as (pos 6) (pos 5) any any (pos 69) any any any (codes "Core(TM) i5-4###U") 10
        (codes "Core i5 (Haswell-ULT)") (codes "22 nm")
    ∷ known_as (pos 6) (pos 5) any any (pos 69) any any any (codes "Core(TM) i3-4###U") 10
        (codes "Core i3 (Haswell-ULT)") (codes "22 nm")
    ∷ known_as (pos 6) (pos 5) any any (pos 69) any any any (codes "Core(TM) i7-4###Y") 10
        (codes "Core i7 (Haswell-ULX)") (codes "22 nm")
    ∷ known_as (pos 6) (pos 5) any any (pos 69) any any any (codes "Core(TM) i5-4###Y") 10
        (codes "Core i5 (Haswell-ULX)") (codes "22 nm")
    ∷ known_as (pos 6) (pos 5) any any (pos 69) any any any (codes "Core(TM) i3-4###Y") 10
        (codes "Core i3 (Haswell-ULX)") (codes "22 nm")
    ∷ []
