-- ===== src/Word/Set.antt =====
-- `SET_BIT` and `SET_BITS` bit by bit: the named bits take the new value, the others stay.
use native.Mathlib.Nat.{pow-suc, one-le-pow}
use xemu.Base.{
  ℕ, zero, suc, ◌+◌, ◌-◌, ◌*◌, ◌/◌, ◌%◌, ◌^◌, ◌≤◌, ◌<◌, ◌≡◌, ◌∙◌, ap, arith, bit_and, if◌then◌else◌,
  ◌==◌, ltb, leb, ◌&&◌,
}
use xemu.Word.{◌<<<◌, not64, bits, bits_mask, set_bit, set_bits}
use xemu.Word.Bits.{
  test, test-lt, test-zero, test-div, test-bit_and, test-bit_or, test-complement, bit_and-lt,
  bit_or-lt, mod-pow-suc,
}
use xemu.Word.Fields.{bits_lem}

pub test-mod : (x w j : ℕ) → j < w → test (x % 2 ^ w) j ≡ test x j
unfolding test
test-mod x zero j h = absurd (omega arith)
test-mod x (suc w) zero h = omega (arith, mod-pow-suc x w)
test-mod x (suc w) (suc j) h =
    ap (λ (t : ℕ). test t j) (omega (arith, mod-pow-suc x w)) ∙ test-mod (x / 2) w j (omega arith)

pub test-high : (x w j : ℕ) → x < 2 ^ w → w ≤ j → test x j ≡ 0
unfolding test
test-high zero zero j h k = test-zero j
test-high (suc x) zero j h k = absurd (omega arith)
test-high x (suc w) zero h k = absurd (omega arith)
test-high x (suc w) (suc j) h k = test-high (x / 2) w j (omega (arith, pow-suc 2 w)) (omega arith)

pub test-mul-pow : (x k j : ℕ) → test (x * 2 ^ k) j ≡ (if ltb j k then 0 else test x (j - k))
unfolding test
test-mul-pow x zero j = ground (arith, ap (λ (t : ℕ). test t j) (mul-one x))
  where
    mul-one : (y : ℕ) → y * 1 ≡ y
    mul-one y = omega arith
test-mul-pow x (suc k) zero = ground (arith, ap (λ (t : ℕ). x * t) (pow-suc 2 k))
test-mul-pow x (suc k) (suc j) = ap (λ (t : ℕ). test t j) halved ∙ test-mul-pow x k j ∙ ground arith
  where
    halved : x * 2 ^ suc k / 2 ≡ x * 2 ^ k
    halved = omega (arith, ap (λ (t : ℕ). x * t) (pow-suc 2 k))

test-one_bit : (b k : ℕ) → b < 2 → test b k ≡ (if k == 0 then b else 0)
unfolding test
test-one_bit b zero h = omega arith
test-one_bit b (suc k) h =
    let gone : test (b / 2) k ≡ 0 = ap (λ (t : ℕ). test t k) (omega arith) ∙ test-zero k in
    ground (arith, gone)

test-shl : (x k j : ℕ) → j < 64 → test (x <<< k) j ≡ (if ltb j k then 0 else test x (j - k))
unfolding ◌<<<◌
test-shl x k j h = test-mod (x * 2 ^ k) 64 j h ∙ test-mul-pow x k j

pub shl-lt : (x k : ℕ) → x <<< k < 2 ^ 64
unfolding ◌<<<◌
shl-lt x k = omega arith

pub test-not64 : (x j : ℕ) → x < 2 ^ 64 → j < 64 → test (not64 x) j ≡ 1 - test x j
unfolding not64
test-not64 x j h k = test-complement 64 x j h k

module _ (dest index b : ℕ) where
  pub set_bit-lt : dest < 2 ^ 64 → set_bit dest index b < 2 ^ 64
  unfolding set_bit
  set_bit-lt h = bit_or-lt 64 _ _ (bit_and-lt 64 _ _ h) (shl-lt b index)

  -- `SET_BIT` writes bit `index` and keeps the other bits.
  pub test-set_bit :
      (j : ℕ)
      → b < 2
      → j < 64
      → test (set_bit dest index b) j ≡ (if index == j then b else test dest j)
  unfolding set_bit
  test-set_bit j hb hj = ground (
    arith,
    test-bit_or (bit_and dest (not64 (1 <<< index))) (b <<< index) j,
    test-bit_and dest (not64 (1 <<< index)) j,
    test-not64 (1 <<< index) j (shl-lt 1 index) hj,
    test-shl 1 index j hj,
    test-shl b index j hj,
    test-one_bit 1 (j - index) (omega arith),
    test-one_bit b (j - index) hb,
    test-lt dest j,
  )

test-ones : (n j : ℕ) → test (2 ^ n - 1) j ≡ (if ltb j n then 1 else 0)
test-ones n j = ground (
  arith,
  test-complement n 0 j (one-le-pow n 2 (omega arith)),
  test-zero j,
  test-high (2 ^ n - 1) n j (omega (arith, one-le-pow n 2 (omega arith))),
)

module _ (dest high low b : ℕ) where
  pub set_bits-lt : dest < 2 ^ 64 → set_bits dest high low b < 2 ^ 64
  unfolding set_bits
  set_bits-lt h = bit_or-lt 64 _ _ (bit_and-lt 64 _ _ h) (shl-lt b low)

  -- `SET_BITS` writes bits `low` to `high` and keeps the other bits.
  pub test-set_bits :
      (j : ℕ)
      → low ≤ high
      → b < 2 ^ (high - low + 1)
      → j < 64
      → test (set_bits dest high low b) j
        ≡ (if leb low j && leb j high then test b (j - low) else test dest j)
  unfolding set_bits bits_mask
  test-set_bits j hl hb hj = ground (
    arith,
    test-bit_or (bit_and dest (not64 (bits_mask high low))) (b <<< low) j,
    test-bit_and dest (not64 (bits_mask high low)) j,
    test-not64 (bits_mask high low) j (shl-lt _ low) hj,
    test-shl (2 ^ (high - low + 1) - 1) low j hj,
    test-shl b low j hj,
    test-ones (high - low + 1) (j - low),
    test-high b (high - low + 1) (j - low) hb,
    test-lt dest j,
    test-lt b (j - low),
  )

-- The two-bit field MPP of mstatus.
pub bits_mpp : (x : ℕ) → bits x 12 11 ≡ test x 11 + 2 * test x 12
bits_mpp x = omega (arith, bits_lem x 12 11, test-div x 11, test-div x 12)
