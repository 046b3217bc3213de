-- ===== src/Text/Positions.antt =====
-- Where a byte stands in a string that is put together, and the parts before and behind it.
use xemu.Base.{ℕ, suc, List, [], ◌∷◌, ◌++◌, length, some, ◌≡◌, refl, ap, arith}
use xemu.Space.{drop}
use xemu.Text.{c_string, strchr, take}
use xemu.Text.Lines.{Without}

pub Without-append : (c : ℕ) (xs ys : List ℕ) → Without c xs → Without c ys → Without c (xs ++ ys)
Without-append c [] ys h k = k
Without-append c (x ∷ xs) ys h k = (h.0, Without-append c xs ys h.1 k)

pub strchr-append :
    (c : ℕ) (xs ys : List ℕ) → Without c xs → strchr (xs ++ (c ∷ ys)) c ≡ some (length xs)
unfolding strchr
strchr-append c [] ys w = ground arith
strchr-append c (x ∷ xs) ys w = ground (arith, strchr-append c xs ys w.1)

pub c_string-Without : (s : List ℕ) → Without 0 s → c_string s ≡ s
unfolding c_string
c_string-Without [] w = refl
c_string-Without (c ∷ cs) w = ground (arith, c_string-Without cs w.1)

pub take-append : (xs ys : List ℕ) → take (length xs) (xs ++ ys) ≡ xs
unfolding take
take-append [] ys = refl
take-append (x ∷ xs) ys = ap (λ t. x ∷ t) (take-append xs ys)

pub drop-append : (xs ys : List ℕ) → drop (length xs) (xs ++ ys) ≡ ys
unfolding drop
drop-append [] ys = refl
drop-append (x ∷ xs) ys = drop-append xs ys

-- What stands behind the byte that follows `xs`.
pub drop-suc-append : (xs ys : List ℕ) (c : ℕ) → drop (suc (length xs)) (xs ++ (c ∷ ys)) ≡ ys
unfolding drop
drop-suc-append [] ys c = refl
drop-suc-append (x ∷ xs) ys c = drop-suc-append xs ys c
