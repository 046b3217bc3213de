-- ===== src/Word/Fields.antt =====
-- The bit macros as arithmetic: a field is a quotient and a remainder, an `|` of fields that do not
-- overlap is a sum.
use native.Mathlib.Nat.{pow-suc, div-add-mod', one-le-pow, mod-lt}
use xemu.Base.{
  ℕ, zero, suc, ◌+◌, ◌-◌, ◌*◌, ◌/◌, ◌%◌, ◌^◌, ◌<◌, ◌≤◌, ◌≡◌, refl, sym, ◌∙◌, ap, arith, bit_and,
  bit_or, if◌then◌else◌, ◌==◌,
}
use xemu.Word.{◌<<<◌, bits, bit, expand_bit, to_word}
use xemu.Word.Bits.{bit_and_digit, bit_or_digit, test, test-div, mod-pow-suc}

-- By induction on a bound, since halving a number makes it smaller.
or_zero_below : (bound x : ℕ) → x ≤ bound → bit_or x 0 ≡ x
or_zero_below bound zero h = refl
or_zero_below zero (suc x) h = absurd (omega arith)
or_zero_below (suc bound) (suc x) h =
    omega (arith, or_zero_below bound (suc x / 2) (omega arith), bit_or_digit (suc x) 0)

and_zero_below : (bound x : ℕ) → x ≤ bound → bit_and x 0 ≡ 0
and_zero_below bound zero h = refl
and_zero_below zero (suc x) h = absurd (omega arith)
and_zero_below (suc bound) (suc x) h =
    omega (arith, and_zero_below bound (suc x / 2) (omega arith), bit_and_digit (suc x) 0)

pub bit_or-zero : (x : ℕ) → bit_or x 0 ≡ x
bit_or-zero x = or_zero_below x x (omega arith)

pub bit_and-zero : (x : ℕ) → bit_and x 0 ≡ 0
bit_and-zero x = and_zero_below x x (omega arith)

mul-pow-suc : (q w : ℕ) → q * 2 ^ suc w ≡ 2 * (q * 2 ^ w)
mul-pow-suc q w = omega (arith, ap (λ (t : ℕ). q * t) (pow-suc 2 w))

-- `(hi << w) | lo`, where `lo` has `w` bits.
pub bit_or_concat : (w hi lo : ℕ) → lo < 2 ^ w → bit_or (hi * 2 ^ w) lo ≡ hi * 2 ^ w + lo
bit_or_concat zero hi lo h = ground (arith, bit_or-zero hi)
bit_or_concat (suc w) hi lo h = ground (
  arith,
  bit_or_digit (hi * 2 ^ suc w) lo,
  mul-pow-suc hi w,
  bit_or_concat w hi (lo / 2) (omega (arith, pow-suc 2 w)),
)

-- `x | y`, where `x` ends in `w` zeros and `y` has `w` bits.
pub bit_or_disjoint : (w x y : ℕ) → x % 2 ^ w ≡ 0 → y < 2 ^ w → bit_or x y ≡ x + y
bit_or_disjoint w x y h k = ground (arith, div-add-mod' x (2 ^ w), bit_or_concat w (x / 2 ^ w) y k)

-- `x & ((1 << w) - 1)`.
pub bit_and_mask : (w x : ℕ) → bit_and x (2 ^ w - 1) ≡ x % 2 ^ w
bit_and_mask zero x = omega (arith, bit_and-zero x)
bit_and_mask (suc w) x = ground (
  arith,
  bit_and_digit x (2 ^ suc w - 1),
  pow-suc 2 w,
  one-le-pow w 2,
  mod-pow-suc x w,
  bit_and_mask w (x / 2),
)

pub bits_lem : (src high low : ℕ) → bits src high low ≡ src / 2 ^ low % 2 ^ (high - low + 1)
unfolding bits
bits_lem src high low = bit_and_mask (high - low + 1) (src / 2 ^ low)

pub bit_lem : (src index : ℕ) → bit src index ≡ src / 2 ^ index % 2
unfolding bit
bit_lem src index = bit_and_mask 1 (src / 2 ^ index)

pub bit-test : (src index : ℕ) → bit src index ≡ test src index
bit-test src index = bit_lem src index ∙ sym (test-div src index)

pub bit-lt : (src index : ℕ) → bit src index < 2
bit-lt src index = omega (arith, bit_lem src index)

pub expand_bit_lem :
    (src index num : ℕ)
    → expand_bit src index num ≡ (if src / 2 ^ index % 2 == 0 then 0 else 2 ^ num - 1)
unfolding expand_bit
expand_bit_lem src index num = rw bit_lem

pub bits-lt : (src high low : ℕ) → bits src high low < 2 ^ (high - low + 1)
bits-lt src high low =
    rw bits_lem (mod-lt (src / 2 ^ low) (one-le-pow (high - low + 1) 2 (omega arith)))

-- Sign extension from 32 bits.
pub to_word_lem :
    (n : ℕ)
    → n < 2 ^ 64
    → to_word n ≡ (if n / 2 ^ 31 % 2 == 0 then n % 2 ^ 32 else 2 ^ 64 - 2 ^ 32 + n % 2 ^ 32)
unfolding to_word ◌<<<◌
to_word_lem n h = ground (
  arith,
  bits_lem (n % 2 ^ 64) 31 0,
  expand_bit_lem (n % 2 ^ 64) 31 32,
  bit_or_concat 32 (2 ^ 32 - 1) (n % 2 ^ 32),
  bit_or_concat 32 0 (n % 2 ^ 32),
)
