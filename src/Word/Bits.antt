-- ===== src/Word/Bits.antt =====
-- The native bit operations digit by digit: what bit `i` of `&`, `|` and `^` is, and that the bits
-- determine a number.
use Prim.Native.Nat.{digits, bitwise, bit_and-bitwise, bit_or-bitwise, bit_xor-bitwise, differ}
use native.Mathlib.Nat.{pow-suc, le_refl, div-add-mod, div-div-eq-div-mul}
use xemu.Base.{
  ℕ, zero, suc, ◌+◌, ◌-◌, ◌*◌, ◌/◌, ◌%◌, ◌^◌, ◌≤◌, ◌<◌, min, max, ◌≡◌, refl, sym, ◌∙◌, ap, arith,
  bit_and, bit_or, bit_xor,
}

-- The digits do not depend on the fuel, once that is large enough.
module _ (tail : ℕ → ℕ) (op : ℕ → ℕ → ℕ) where
  fuel_irrelevant : (j k x y : ℕ) → x ≤ j → x ≤ k → digits tail op j x y ≡ digits tail op k x y
  fuel_irrelevant zero zero x y p q = refl
  fuel_irrelevant zero (suc k) zero y p q = refl
  fuel_irrelevant zero (suc k) (suc x) y p q = absurd (omega arith)
  fuel_irrelevant (suc j) zero zero y p q = refl
  fuel_irrelevant (suc j) zero (suc x) y p q = absurd (omega arith)
  fuel_irrelevant (suc j) (suc k) zero y p q = refl
  fuel_irrelevant (suc j) (suc k) (suc x) y p q =
      rw (fuel_irrelevant j k (suc x / 2) (y / 2) (omega arith) (omega arith))

  bitwise-suc :
      (x y : ℕ)
      → bitwise tail op (suc x) y ≡ bitwise tail op (suc x / 2) (y / 2) * 2 + op (suc x % 2) (y % 2)
  bitwise-suc x y =
      omega (arith, fuel_irrelevant x (suc x / 2) (suc x / 2) (y / 2) (omega arith) (le_refl _))

pub bit_and_digit : (x y : ℕ) → bit_and x y ≡ bit_and (x / 2) (y / 2) * 2 + min (x % 2) (y % 2)
bit_and_digit zero y = simp bit_and-bitwise (omega arith)
bit_and_digit (suc x) y = simp bit_and-bitwise (bitwise-suc (λ _. 0) min x y)

pub bit_or_digit : (x y : ℕ) → bit_or x y ≡ bit_or (x / 2) (y / 2) * 2 + max (x % 2) (y % 2)
bit_or_digit zero y = simp bit_or-bitwise (omega arith)
bit_or_digit (suc x) y = simp bit_or-bitwise (bitwise-suc (λ b. b) max x y)

bit_xor_digit : (x y : ℕ) → bit_xor x y ≡ bit_xor (x / 2) (y / 2) * 2 + differ (x % 2) (y % 2)
bit_xor_digit zero y = simp bit_xor-bitwise (omega arith)
bit_xor_digit (suc x) y = simp bit_xor-bitwise (bitwise-suc (λ b. b) differ x y)

-- Bit `i` of a number, as arithmetic.
unfoldable pub test : ℕ → ℕ → ℕ
test x zero = x % 2
test x (suc i) = test (x / 2) i

pub div-pow-suc : (x i : ℕ) → x / 2 ^ suc i ≡ x / 2 / 2 ^ i
div-pow-suc x i =
    sym (div-div-eq-div-mul x 2 (2 ^ i) ∙ ap (λ (t : ℕ). x / t) (omega (arith, pow-suc 2 i)))

pub mod-pow-suc : (x w : ℕ) → x % 2 ^ suc w ≡ 2 * (x / 2 % 2 ^ w) + x % 2
mod-pow-suc x w =
    let q = x / 2 / 2 ^ w in
    let whole : 2 ^ suc w * q + x % 2 ^ suc w ≡ x =
      rw (← div-pow-suc x w) (div-add-mod x (2 ^ suc w)) in
    omega (arith, whole, div-add-mod (x / 2) (2 ^ w), ap (λ (t : ℕ). t * q) (pow-suc 2 w))

pub test-div : (x i : ℕ) → test x i ≡ x / 2 ^ i % 2
unfolding test
test-div x zero = omega arith
test-div x (suc i) = test-div (x / 2) i ∙ ap (λ (t : ℕ). t % 2) (rw div-pow-suc)

pub test-lt : (x i : ℕ) → test x i < 2
unfolding test
test-lt x zero = omega arith
test-lt x (suc i) = test-lt (x / 2) i

pub test-bit_and : (x y i : ℕ) → test (bit_and x y) i ≡ min (test x i) (test y i)
unfolding test
test-bit_and x y zero = omega (arith, bit_and_digit x y)
test-bit_and x y (suc i) =
    ap (λ (t : ℕ). test t i) (omega (arith, bit_and_digit x y)) ∙ test-bit_and (x / 2) (y / 2) i

pub test-bit_or : (x y i : ℕ) → test (bit_or x y) i ≡ max (test x i) (test y i)
unfolding test
test-bit_or x y zero = omega (arith, bit_or_digit x y)
test-bit_or x y (suc i) =
    ap (λ (t : ℕ). test t i) (omega (arith, bit_or_digit x y)) ∙ test-bit_or (x / 2) (y / 2) i

differ_bits : (a b : ℕ) → a < 2 → b < 2 → differ a b ≡ (a + b) % 2
differ_bits zero zero h k = refl
differ_bits zero (suc zero) h k = refl
differ_bits zero (suc (suc b)) h k = absurd (omega arith)
differ_bits (suc zero) zero h k = refl
differ_bits (suc zero) (suc zero) h k = refl
differ_bits (suc zero) (suc (suc b)) h k = absurd (omega arith)
differ_bits (suc (suc a)) b h k = absurd (omega arith)

pub test-bit_xor : (x y i : ℕ) → test (bit_xor x y) i ≡ (test x i + test y i) % 2
unfolding test
test-bit_xor x y zero =
    omega (arith, bit_xor_digit x y, differ_bits (x % 2) (y % 2) (omega arith) (omega arith))
test-bit_xor x y (suc i) =
    ap (λ (t : ℕ). test t i)
      (omega (arith, bit_xor_digit x y, differ_bits (x % 2) (y % 2) (omega arith) (omega arith)))
    ∙ test-bit_xor (x / 2) (y / 2) i

pub test-zero : (i : ℕ) → test 0 i ≡ 0
unfolding test
test-zero zero = refl
test-zero (suc i) = test-zero i

-- Numbers of `w` bits with the same bits are equal.
pub test_ext : (w x y : ℕ) → x < 2 ^ w → y < 2 ^ w → ((i : ℕ) → i < w → test x i ≡ test y i) → x ≡ y
unfolding test
test_ext zero x y hx hy h = omega arith
test_ext (suc w) x y hx hy h = omega (
  arith,
  h 0 (omega arith),
  test_ext w (x / 2) (y / 2) (omega (arith, pow-suc 2 w)) (omega (arith, pow-suc 2 w))
      (λ i p. h (suc i) (omega arith)),
)

-- The complement in `w` bits turns every bit over.
pub test-complement : (w x i : ℕ) → x < 2 ^ w → i < w → test (2 ^ w - 1 - x) i ≡ 1 - test x i
unfolding test
test-complement zero x i hx hi = absurd (omega arith)
test-complement (suc w) x zero hx hi = omega (arith, pow-suc 2 w)
test-complement (suc w) x (suc i) hx hi =
    ap (λ (t : ℕ). test t i) (omega (arith, pow-suc 2 w))
    ∙ test-complement w (x / 2) i (omega (arith, pow-suc 2 w)) (omega arith)

pub bit_and-lt : (w x y : ℕ) → x < 2 ^ w → bit_and x y < 2 ^ w
bit_and-lt zero zero y h = simp bit_and-bitwise (omega arith)
bit_and-lt zero (suc x) y h = absurd (omega arith)
bit_and-lt (suc w) x y h = omega (
  arith,
  bit_and_digit x y,
  pow-suc 2 w,
  bit_and-lt w (x / 2) (y / 2) (omega (arith, pow-suc 2 w)),
)

pub bit_or-lt : (w x y : ℕ) → x < 2 ^ w → y < 2 ^ w → bit_or x y < 2 ^ w
bit_or-lt zero zero zero h k = omega arith
bit_or-lt zero zero (suc y) h k = absurd (omega arith)
bit_or-lt zero (suc x) y h k = absurd (omega arith)
bit_or-lt (suc w) x y h k = omega (
  arith,
  bit_or_digit x y,
  pow-suc 2 w,
  bit_or-lt w (x / 2) (y / 2) (omega (arith, pow-suc 2 w)) (omega (arith, pow-suc 2 w)),
)
