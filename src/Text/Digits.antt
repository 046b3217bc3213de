-- ===== src/Text/Digits.antt =====
-- Numbers in hexadecimal digits, and that `strtoul` reads them back.
use mathlib.Core.List.{append_assoc}
use xemu.Base.{
  ℕ, zero, suc, ◌+◌, ◌-◌, ◌*◌, ◌/◌, ◌%◌, ◌^◌, ◌≤◌, ◌<◌, false, ltb, if◌then◌else◌, List, [], ◌∷◌,
  ◌++◌, length, some, Option-cases, inl, inr, ◌≡◌, ◌≢◌, refl, ap, ◌∙◌, arith, length-append,
}
use xemu.Space.{drop}
use xemu.Text.{digit, digits, spaces, sign, hex_prefix, scan, strtoul16}
use xemu.Text.Lines.{Without}
use xemu.Text.Positions.{Without-append}

unfoldable pub hex_char : ℕ → ℕ
hex_char d = if ltb d 10 then b'0' + d else b'a' + d - 10

-- The last `n` digits of a number.
unfoldable pub hex : ℕ → ℕ → List ℕ
unfolding hex_char
hex zero v = []
hex (suc n) v = hex n (v / 16) ++ hex_char (v % 16) ∷ []

pub length-hex : (n v : ℕ) → length (hex n v) ≡ n
unfolding hex
length-hex zero v = refl
length-hex (suc n) v =
    omega
      (arith, length-append {0} (hex n (v / 16)) (hex_char (v % 16) ∷ []), length-hex n (v / 16))

digit-hex_char : (d : ℕ) → d < 16 → digit 16 (hex_char d) ≡ some d
unfolding digit hex_char
digit-hex_char d h = ground arith

pow_suc : (n : ℕ) → 16 ^ suc n ≡ 16 * 16 ^ n
pow_suc n = omega arith

digits-hex_char :
    (d acc count : ℕ) (rest : List ℕ)
    → d < 16
    → digits 16 acc count (hex_char d ∷ rest) ≡ digits 16 (acc * 16 + d) (suc count) rest
unfolding digits
digits-hex_char d acc count rest h = rw (digit-hex_char d h, digits) refl

pub digits-hex :
    (n v acc count : ℕ) (rest : List ℕ)
    → v < 16 ^ n
    → digits 16 acc count (hex n v ++ rest) ≡ digits 16 (acc * 16 ^ n + v) (count + n) rest
unfolding hex
digits-hex zero v acc count rest h =
    ap (λ t. digits 16 t count rest) (omega arith)
    ∙ ap (λ t. digits 16 (acc * 16 ^ 0 + v) t rest) (omega arith)
digits-hex (suc n) v acc count rest h = rw append_assoc (
    digits-hex n (v / 16) acc count (hex_char (v % 16) ∷ rest) (omega (arith, pow_suc n))
    ∙ digits-hex_char (v % 16) (acc * 16 ^ n + v / 16) (count + n) rest (omega arith)
    ∙ ap (λ t. digits 16 t (suc (count + n)) rest)
        (omega (arith, ap (λ (t : ℕ). acc * t) (pow_suc n)))
    ∙ ap (λ t. digits 16 (acc * 16 ^ suc n + v) t rest) (omega arith))

digits-space :
    (v : ℕ) (rest : List ℕ) → digits 16 (0 * 16 ^ 16 + v) (0 + 16) (b' ' ∷ rest) ≡ (v, 16)
unfolding digits digit
digits-space v rest = ground arith

hex_start :
    (n v : ℕ) (rest : List ℕ)
    → (a : ℕ) × (b : ℕ) × (tail : List ℕ) × (hex (suc (suc n)) v ++ rest
        ≡ hex_char a ∷ hex_char b ∷ tail)
      × (a < 16)
      × (b < 16)
unfolding hex
hex_start zero v rest = (v / 16 % 16, v % 16, rest, refl, omega arith, omega arith)
hex_start (suc n) v rest =
    rw (append_assoc (hex (suc (suc n)) (v / 16)) (hex_char (v % 16) ∷ []) rest)
      (hex_start n (v / 16) (hex_char (v % 16) ∷ rest))

hex_char_range : (d : ℕ) → d < 16 → (48 ≤ hex_char d) × (hex_char d ≢ b'x') × (hex_char d ≢ b'X')
unfolding hex_char
hex_char_range d h = ground arith

hex_char_ne : (d : ℕ) → d < 16 → hex_char d ≢ b'_'
unfolding hex_char
hex_char_ne d h = ground arith

spaces-digit : (c : ℕ) (s : List ℕ) → 48 ≤ c → spaces (c ∷ s) ≡ 0
unfolding spaces
spaces-digit c s h = ground arith

sign-digit : (c : ℕ) (s : List ℕ) → 48 ≤ c → sign (c ∷ s) ≡ (0, false)
unfolding sign
sign-digit c s h = ground arith

hex_prefix-digit : (a b : ℕ) (s : List ℕ) → b ≢ b'x' → b ≢ b'X' → hex_prefix (a ∷ b ∷ s) ≡ 0
unfolding hex_prefix
hex_prefix-digit a b [] h k = refl
hex_prefix-digit a b (c ∷ cs) h k = elim (Option-cases (digit 16 c)) [
  | inl e ↦ rw (e, hex_prefix) refl
  | inr (d, e) ↦ rw (e, hex_prefix) (ground arith)
]

-- A digit starts no blank, sign or prefix.
scan-digits :
    (a b : ℕ) (s : List ℕ) {v k : ℕ}
    → 48 ≤ a
    → b ≢ b'x'
    → b ≢ b'X'
    → digits 16 0 0 (a ∷ b ∷ s) ≡ (v, suc k)
    → scan 16 (a ∷ b ∷ s) ≡ (false, v, suc k)
unfolding scan drop
scan-digits a b s ha hx hX read =
    simp (spaces-digit a (b ∷ s) ha, sign-digit a (b ∷ s) ha, hex_prefix-digit a b s hx hX, read)
      (ground arith)

pub strtoul16-hex :
    (v : ℕ) (rest : List ℕ) → v < 2 ^ 64 → strtoul16 (hex 16 v ++ (b' ' ∷ rest)) ≡ (v, 16)
unfolding strtoul16
strtoul16-hex v rest h =
    let (a, b, tail, e, ha, hb) = hex_start 14 v (b' ' ∷ rest) in
    let read : digits 16 0 0 (hex 16 v ++ (b' ' ∷ rest)) ≡ (v, 16) =
      digits-hex 16 v 0 0 (b' ' ∷ rest) h ∙ digits-space v rest in
    rw
      (
        e,
        scan-digits (hex_char a) (hex_char b) tail {v = v} {k = 15} (hex_char_range a ha).0
            (hex_char_range b hb).1 (hex_char_range b hb).2 (rw (← e) read),
      )
      (ground arith)

-- A byte that no digit is does not stand among the digits.
hex-Without-byte : (c : ℕ) → ((d : ℕ) → d < 16 → hex_char d ≢ c) → (n v : ℕ) → Without c (hex n v)
unfolding hex
hex-Without-byte c h zero v = tt
hex-Without-byte c h (suc n) v =
    Without-append c (hex n (v / 16)) (hex_char (v % 16) ∷ []) (hex-Without-byte c h n (v / 16))
      (h (v % 16) (omega arith), tt)

-- No digit is a blank or a control character, or an underscore.
pub hex-Without : (c n v : ℕ) → c < 48 → Without c (hex n v)
hex-Without c n v h = hex-Without-byte c (λ d k e. absurd (omega (arith, hex_char_range d k))) n v

pub hex-NoUnderscore : (n v : ℕ) → Without b'_' (hex n v)
hex-NoUnderscore = hex-Without-byte b'_' (λ d k e. absurd (omega (arith, hex_char_ne d k)))
