-- ===== src/Text/Lines.antt =====
-- `fgets` into the 256 bytes of `line`, until the file ends.
use xemu.Base.{
  ℕ, ◌-◌, ◌<◌, Bool, true, false, ◌||◌, ◌==◌, if◌then◌else◌, List, [], ◌∷◌, ◌++◌, length, ◌≡◌, ◌≢◌,
  refl, arith,
}

-- A byte in front of the rest of the file: a line of its own where it ends one.
abbrev onto : Bool → ℕ → List (List ℕ) → List (List ℕ)
onto true c rest = (c ∷ []) ∷ rest
onto false c [] = (c ∷ []) ∷ []
onto false c (line ∷ rest) = (c ∷ line) ∷ rest

-- The lines that are read where the buffer has room for `room` more bytes: a line ends behind its
-- newline, with the buffer or with the file.
unfoldable pub lines_from : ℕ → List ℕ → List (List ℕ)
lines_from room [] = []
lines_from room (c ∷ cs) =
    let ends = c == b'\n' || room == 1 in
    onto ends c (lines_from (if ends then 255 else room - 1) cs)

abbrev pub lines : List ℕ → List (List ℕ)
lines = lines_from 255

-- No byte of the list is `c`.
abbrev pub Without : ℕ → List ℕ → Type 0
Without c [] = Unit
Without c (x ∷ xs) = (x ≢ c) × Without c xs

pub lines_from-append :
    (room : ℕ) (line rest : List ℕ)
    → Without b'\n' line
    → length line < room
    → lines_from room (line ++ (b'\n' ∷ rest)) ≡ (line ++ b'\n' ∷ []) ∷ lines rest
unfolding lines_from
lines_from-append room [] rest w h = refl
lines_from-append room (c ∷ cs) rest w h = ground (arith, lines_from-append (room - 1) cs rest w.1)
