-- ===== src/Util/Text/Spaces.antt =====
-- What `collapse_spaces` leaves of a text.
use libcpuid.Base.{
  ℕ, Bool, true, false, List, [], ◌∷◌, ◌++◌, ap, ◌≡◌, refl, arith, if◌then◌else◌, Bool-cases, inl,
  inr,
}
use libcpuid.Util.Ctype.{isspace}
use libcpuid.Util.Text.{collapse_from, collapse_spaces}

-- No white space but the blank, and no two blanks in a row; the flag says that a blank stands before.
abbrev pub IsCollapsed : Bool → List ℕ → Type 0
IsCollapsed after_blank [] = Unit
IsCollapsed after_blank (c ∷ s) =
    (isspace c ≡ true → (c ≡ b' ') × (after_blank ≡ false)) × IsCollapsed (isspace c) s

-- The characters of a text that are no white space, in order.
abbrev pub ink : List ℕ → List ℕ
ink [] = []
ink (c ∷ s) = if isspace c then ink s else c ∷ ink s

blank_is_space : isspace b' ' ≡ true
unfolding isspace
blank_is_space = refl

collapse_from-IsCollapsed : (b : Bool) (s : List ℕ) → IsCollapsed b (collapse_from b s)
unfolding collapse_from
collapse_from-IsCollapsed b [] = tt
collapse_from-IsCollapsed true (c ∷ s) = elim (Bool-cases (isspace c)) [
  | inl blank ↦ rw blank (rw blank at (collapse_from-IsCollapsed (isspace c) s))
  | inr mark ↦ rw mark (
    (λ space. absurd (ground arith)),
    rw mark (rw mark at (collapse_from-IsCollapsed (isspace c) s)),
  )
]
collapse_from-IsCollapsed false (c ∷ s) = elim (Bool-cases (isspace c)) [
  | inl blank ↦ rw blank (
    (λ space. (refl, refl)),
    rw blank_is_space (rw blank at (collapse_from-IsCollapsed (isspace c) s)),
  )
  | inr mark ↦ rw mark (
    (λ space. absurd (ground arith)),
    rw mark (rw mark at (collapse_from-IsCollapsed (isspace c) s)),
  )
]

ink-collapse_from : (b : Bool) (s : List ℕ) → ink (collapse_from b s) ≡ ink s
unfolding collapse_from
ink-collapse_from b [] = refl
ink-collapse_from b (c ∷ s) = ground (arith, ink-collapse_from (isspace c) s, blank_is_space)

collapse_from_id : (b : Bool) (s : List ℕ) → IsCollapsed b s → collapse_from b s ≡ s
unfolding collapse_from
collapse_from_id b [] h = refl
collapse_from_id b (c ∷ s) h = elim (Bool-cases (isspace c)) [
  | inl blank ↦ ground (arith, h.0 blank, collapse_from_id (isspace c) s h.1)
  | inr mark ↦ ground (arith, collapse_from_id (isspace c) s h.1)
]

-- White space only, and a text that does not begin with white space.
abbrev pub AllSpace : List ℕ → Type 0
AllSpace [] = Unit
AllSpace (c ∷ s) = (isspace c ≡ true) × AllSpace s

abbrev pub NoSpaceInFront : List ℕ → Type 0
NoSpaceInFront [] = Unit
NoSpaceInFront (c ∷ s) = isspace c ≡ false

-- `t` is `s` with one blank for each of its longest runs of white space.
pub data Collapses : List ℕ → List ℕ → Type 0 where
  ends : Collapses [] []
  mark : {c : ℕ} {s t : List ℕ} → isspace c ≡ false → Collapses s t → Collapses (c ∷ s) (c ∷ t)
  run :
      {c : ℕ} {s t : List ℕ} (w rest : List ℕ)
      → isspace c ≡ true
      → AllSpace w
      → NoSpaceInFront rest
      → s ≡ w ++ rest
      → Collapses rest t
      → Collapses (c ∷ s) (b' ' ∷ t)

-- Behind a blank that is written, the white space that is left of the run goes first.
BehindRun : List ℕ → List ℕ → Type 0
BehindRun s t =
    (w : List ℕ) × (rest : List ℕ) × (AllSpace w
      × (NoSpaceInFront rest × ((s ≡ w ++ rest) × Collapses rest t)))

collapse_from-Collapses :
    (s : List ℕ) → Collapses s (collapse_from false s) × BehindRun s (collapse_from true s)
unfolding collapse_from BehindRun
collapse_from-Collapses [] = (ends, ([], [], (tt, (tt, (refl, ends)))))
collapse_from-Collapses (c ∷ s) =
    let (outside, (w, rest, (spaces, (front, (same, inside))))) = collapse_from-Collapses s in
    elim (Bool-cases (isspace c)) [
      | inl space ↦ (
        rw (space, collapse_from) (run w rest space spaces front same inside),
        (
          c ∷ w,
          rest,
          ((space, spaces), (front, (ap (λ x. c ∷ x) same, rw (space, collapse_from) inside))),
        ),
      )
      | inr ink_there ↦ (
        rw (ink_there, collapse_from) (mark ink_there outside),
        (
          [],
          c ∷ s,
          (tt, (ink_there, (refl, rw (ink_there, collapse_from) (mark ink_there outside)))),
        ),
      )
    ]

-- `collapse_spaces` writes one blank for each longest run of white space, and every other character as it
-- is. So it leaves no white space but single blanks, keeps the other characters in their order, and changes
-- nothing when it is called a second time.
pub collapse_spaces-IsCollapsed :
    (s : List ℕ)
    → Collapses s (collapse_spaces s)
      × IsCollapsed false (collapse_spaces s)
      × (ink (collapse_spaces s) ≡ ink s)
      × (collapse_spaces (collapse_spaces s) ≡ collapse_spaces s)
unfolding collapse_spaces
collapse_spaces-IsCollapsed s = (
  (collapse_from-Collapses s).0,
  collapse_from-IsCollapsed false s,
  ink-collapse_from false s,
  collapse_from_id false (collapse_from false s) (collapse_from-IsCollapsed false s),
)
