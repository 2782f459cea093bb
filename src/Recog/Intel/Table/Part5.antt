-- ===== src/Recog/Intel/Table/Part5.antt =====
-- `cpudb_intel` of libcpuid/recog_intel.c: rows 233 to 290 of 517.
use libcpuid.Base.{List, [], ◌∷◌, pos, codes}
use libcpuid.Util.Codename.{MatchEntry, known_as, any}

abbrev pub cpudb_intel_part5 : List MatchEntry
cpudb_intel_part5 =
    known_as (pos 6) (pos 6) any any (pos 86) any any any (codes "Xeon(R) D-15##") 6
      (codes "Xeon D (Broadwell)") (codes "14 nm")
    ∷ known_as (pos 6) (pos 6) any any (pos 86) any any any (codes "Pentium(R) D15##") 6
        (codes "Pentium D (Broadwell)") (codes "14 nm")
    ∷ known_as (pos 6) (pos 7) any any (pos 71) (pos 4) any any (codes "Core(TM) i7-5###[CR]") 10
        (codes "Core i7 (Broadwell-H)") (codes "14 nm")
    ∷ known_as (pos 6) (pos 7) any any (pos 71) (pos 4) any any (codes "Core(TM) i5-5###[CR]") 10
        (codes "Core i5 (Broadwell-H)") (codes "14 nm")
    ∷ known_as (pos 6) (pos 13) any any (pos 61) (pos 4) any any (codes "Core(TM) i7-5###HQ") 12
        (codes "Core i7 (Broadwell-U)") (codes "14 nm")
    ∷ known_as (pos 6) (pos 13) any any (pos 61) (pos 2) any any (codes "Core(TM) i7-5###U") 10
        (codes "Core i7 (Broadwell-U)") (codes "14 nm")
    ∷ known_as (pos 6) (pos 13) any any (pos 61) (pos 2) any any (codes "Core(TM) i5-5###[HU]") 10
        (codes "Core i5 (Broadwell-U)") (codes "14 nm")
    ∷ known_as (pos 6) (pos 13) any any (pos 61) (pos 2) any any (codes "Core(TM) i3-5###U") 10
        (codes "Core i3 (Broadwell-U)") (codes "14 nm")
    ∷ known_as (pos 6) (pos 13) any any (pos 61) (pos 2) any any (codes "Pentium(R) 3###U") 6
        (codes "Pentium (Broadwell-U)") (codes "14 nm")
    ∷ known_as (pos 6) (pos 13) any any (pos 61) (pos 2) any any (codes "Celeron(R) 3###U") 6
        (codes "Celeron (Broadwell-U)") (codes "14 nm")
    ∷ known_as (pos 6) (pos 13) any any (pos 61) (pos 2) any any (codes "5Y##") 4
        (codes "Core M (Broadwell-Y)") (codes "14 nm")
    ∷ known_as (pos 6) (pos 15) any any (pos 79) any any any (codes "Xeon(R) E7-#### v4") 6
        (codes "Xeon E7 (Broadwell)") (codes "14 nm")
    ∷ known_as (pos 6) (pos 15) any any (pos 79) any any any (codes "Xeon(R) E5-####[ACLPRW] v4") 8
        (codes "Xeon E5 (Broadwell)") (codes "14 nm")
    ∷ known_as (pos 6) (pos 15) any any (pos 79) any any any (codes "Xeon(R) E5-#### v4") 6
        (codes "Xeon E5 (Broadwell)") (codes "14 nm")
    ∷ known_as (pos 6) (pos 15) any any (pos 79) any any any (codes "Xeon(R) E3-####L v4") 8
        (codes "Xeon E3 (Broadwell)") (codes "14 nm")
    ∷ known_as (pos 6) (pos 15) any any (pos 79) any any any (codes "Xeon(R) E3-#### v4") 6
        (codes "Xeon E3 (Broadwell)") (codes "14 nm")
    ∷ known_as (pos 6) (pos 15) any any (pos 79) (pos 4) any any (codes "Core(TM) i7-6###[KX]") 10
        (codes "Core i7 (Broadwell-E)") (codes "14 nm")
    ∷ known_as (pos 6) (pos 12) any any (pos 76) any any any (codes "Pentium(R) [JN]3###") 6
        (codes "Pentium (Braswell)") (codes "14 nm")
    ∷ known_as (pos 6) (pos 12) any any (pos 76) any any any (codes "Celeron(R) [JN]3###") 6
        (codes "Celeron (Braswell)") (codes "14 nm")
    ∷ known_as (pos 6) (pos 12) any any (pos 76) (pos 4) any any (codes "Atom(TM) x7-Z8###") 8
        (codes "Atom x7 (Cherry Trail)") (codes "14 nm")
    ∷ known_as (pos 6) (pos 12) any any (pos 76) (pos 4) any any (codes "Atom(TM) x5-Z8###") 8
        (codes "Atom x5 (Cherry Trail)") (codes "14 nm")
    ∷ known_as (pos 6) (pos 5) any any (pos 117) any any any (codes "Spreadtrum") 2
        (codes "Spreadtrum (Airmont)") (codes "14 nm")
    ∷ known_as (pos 6) (pos 14) any any (pos 94) (pos 4) any any (codes "Core(TM) i7-6###") 8
        (codes "Core i7 (Skylake)") (codes "14 nm")
    ∷ known_as (pos 6) (pos 14) any any (pos 94) (pos 4) any any (codes "Core(TM) i5-6###") 8
        (codes "Core i5 (Skylake)") (codes "14 nm")
    ∷ known_as (pos 6) (pos 14) any any (pos 94) (pos 2) any any (codes "Core(TM) i3-6###") 8
        (codes "Core i3 (Skylake)") (codes "14 nm")
    ∷ known_as (pos 6) (pos 14) any any (pos 94) (pos 2) any any (codes "Pentium(R) G4###") 6
        (codes "Pentium (Skylake)") (codes "14 nm")
    ∷ known_as (pos 6) (pos 14) any any (pos 94) (pos 2) any any (codes "Celeron(R) G3###") 6
        (codes "Celeron (Skylake)") (codes "14 nm")
    ∷ known_as (pos 6) (pos 14) any any (pos 78) (pos 2) any any (codes "Core(TM) m7-6Y##") 8
        (codes "Core m7 (Skylake)") (codes "14 nm")
    ∷ known_as (pos 6) (pos 14) any any (pos 78) (pos 2) any any (codes "Core(TM) m5-6Y##") 8
        (codes "Core m5 (Skylake)") (codes "14 nm")
    ∷ known_as (pos 6) (pos 14) any any (pos 78) (pos 2) any any (codes "Core(TM) m3-6Y##") 8
        (codes "Core m3 (Skylake)") (codes "14 nm")
    ∷ known_as (pos 6) (pos 14) any any (pos 78) (pos 2) any any (codes "Pentium(R) 4###[UY]") 6
        (codes "Pentium (Skylake)") (codes "14 nm")
    ∷ known_as (pos 6) (pos 14) any any (pos 78) (pos 2) any any (codes "Celeron(R) 3###U") 6
        (codes "Celeron (Skylake)") (codes "14 nm")
    ∷ known_as (pos 6) (pos 14) any any (pos 78) (pos 2) any any (codes "Celeron(R) G3###E") 8
        (codes "Celeron (Skylake)") (codes "14 nm")
    ∷ known_as (pos 6) (pos 5) any any (pos 85) any any any (codes "Core(TM) i9-7###X") 10
        (codes "Core i9 (Skylake-X)") (codes "14 nm")
    ∷ known_as (pos 6) (pos 5) any any (pos 85) any any any (codes "Core(TM) i7-7###X") 10
        (codes "Core i7 (Skylake-X)") (codes "14 nm")
    ∷ known_as (pos 6) (pos 5) any any (pos 85) any any any (codes "Core(TM) i9-9###X") 10
        (codes "Core i9 (Skylake-X)") (codes "14 nm")
    ∷ known_as (pos 6) (pos 5) any any (pos 85) any any any (codes "Core(TM) i7-9###X") 10
        (codes "Core i7 (Skylake-X)") (codes "14 nm")
    ∷ known_as (pos 6) (pos 14) any any (pos 94) any any any (codes "Xeon(R) W-#1##X") 8
        (codes "Xeon (Skylake-X)") (codes "14 nm")
    ∷ known_as (pos 6) (pos 5) any any (pos 85) any any any (codes "Xeon(R) D-#1##") 6
        (codes "Xeon D (Skylake-D)") (codes "14 nm")
    ∷ known_as (pos 6) (pos 5) any any (pos 85) any any any (codes "Xeon(R) E3-####[ML] v5") 8
        (codes "Xeon E3 (Skylake-S)") (codes "14 nm")
    ∷ known_as (pos 6) (pos 5) any any (pos 85) any any any (codes "Xeon(R) E3-#### v5") 6
        (codes "Xeon E3 (Skylake-S)") (codes "14 nm")
    ∷ known_as (pos 6) (pos 5) any any (pos 85) any any any (codes "Xeon(R) W-#1##") 6
        (codes "Xeon W (Skylake-W)") (codes "14 nm")
    ∷ known_as (pos 6) (pos 5) any any (pos 85) any any any (codes "Xeon(R) Platinum #1##") 6
        (codes "Xeon Platinum (Skylake-SP)") (codes "14 nm")
    ∷ known_as (pos 6) (pos 5) any any (pos 85) any any any (codes "Xeon(R) Gold #1##") 6
        (codes "Xeon Gold (Skylake-SP)") (codes "14 nm")
    ∷ known_as (pos 6) (pos 5) any any (pos 85) any any any (codes "Xeon(R) Silver #1##") 6
        (codes "Xeon Silver (Skylake-SP)") (codes "14 nm")
    ∷ known_as (pos 6) (pos 5) any any (pos 85) any any any (codes "Xeon(R) Bronze #1##") 6
        (codes "Xeon Bronze (Skylake-SP)") (codes "14 nm")
    ∷ known_as (pos 6) (pos 5) any any (pos 85) any any any (codes "Montage(R) Jintide(R)") 4
        (codes "Jintide (Skylake-SP)") (codes "14 nm")
    ∷ known_as (pos 6) (pos 14) any any (pos 158) (pos 4) any any (codes "Core(TM) i7-7###") 8
        (codes "Core i7 (Kaby Lake)") (codes "14+ nm")
    ∷ known_as (pos 6) (pos 14) any any (pos 158) (pos 4) any any (codes "Core(TM) i5-7###") 8
        (codes "Core i5 (Kaby Lake)") (codes "14+ nm")
    ∷ known_as (pos 6) (pos 14) any any (pos 158) (pos 2) any any (codes "Core(TM) i3-7###") 8
        (codes "Core i3 (Kaby Lake)") (codes "14+ nm")
    ∷ known_as (pos 6) (pos 14) any any (pos 158) (pos 2) any any (codes "Pentium(R) G4###") 6
        (codes "Pentium (Kaby Lake)") (codes "14+ nm")
    ∷ known_as (pos 6) (pos 14) any any (pos 158) (pos 2) any any (codes "Celeron(R) G3###") 6
        (codes "Celeron (Kaby Lake)") (codes "14+ nm")
    ∷ known_as (pos 6) (pos 14) any any (pos 158) (pos 4) any any (codes "Core(TM) i7-7###X") 10
        (codes "Core i7 (Kaby Lake-X)") (codes "14+ nm")
    ∷ known_as (pos 6) (pos 14) any any (pos 158) (pos 4) any any (codes "Core(TM) i5-7###X") 10
        (codes "Core i5 (Kaby Lake-X)") (codes "14+ nm")
    ∷ known_as (pos 6) (pos 14) any any (pos 142) (pos 2) any any (codes "Core(TM) i7-7.##") 8
        (codes "Core i7 (Kaby Lake-U)") (codes "14+ nm")
    ∷ known_as (pos 6) (pos 14) any any (pos 142) (pos 2) any any (codes "Core(TM) i5-7.##") 8
        (codes "Core i5 (Kaby Lake-U)") (codes "14+ nm")
    ∷ known_as (pos 6) (pos 14) any any (pos 142) (pos 2) any any (codes "Core(TM) i3-7.##") 8
        (codes "Core i3 (Kaby Lake-U)") (codes "14+ nm")
    ∷ known_as (pos 6) (pos 14) any any (pos 142) (pos 2) any any (codes "Core(TM) m3-7.##") 8
        (codes "Core m3 (Kaby Lake-U)") (codes "14+ nm")
    ∷ []
