-- ===== src/Word.antt =====
-- The bit macros of util.h. A C value of w bits is a number below 2 ^ w: a shift to the left is
-- cut to the width, and one to the right divides.
pub mod Bits
pub mod Fields
pub mod Set
use xemu.Base.{ℕ, ◌+◌, ◌-◌, ◌*◌, ◌/◌, ◌%◌, ◌^◌, ◌==◌, bit_and, bit_or, if◌then◌else◌}

-- `x << k` of a uint64_t, `x >> k` and `~x`.
infixl 75 ◌<<<◌ ◌>>>◌
unfoldable pub ◌<<<◌ : ℕ → ℕ → ℕ
x <<< k = x * 2 ^ k % 2 ^ 64

abbrev pub ◌>>>◌ : ℕ → ℕ → ℕ
x >>> k = x / 2 ^ k

unfoldable pub not64 : ℕ → ℕ
not64 x = 2 ^ 64 - 1 - x

-- `BITS(SRC, HIGH, LOW)`.
unfoldable pub bits : ℕ → ℕ → ℕ → ℕ
bits src high low = bit_and (src >>> low) (2 ^ (high - low + 1) - 1)

-- `BIT(SRC, INDEX)`.
unfoldable pub bit : ℕ → ℕ → ℕ
bit src index = bit_and (src >>> index) 1

-- `EXPAND_BIT(SRC, INDEX, NUM)`.
unfoldable pub expand_bit : ℕ → ℕ → ℕ → ℕ
expand_bit src index num = if bit src index == 0 then 0 else 2 ^ num - 1

-- `TO_WORD(n)`: the low 32 bits, sign-extended. The cast to uint64_t cuts `n` to 64 bits.
unfoldable pub to_word : ℕ → ℕ
to_word n = bit_or (expand_bit (n % 2 ^ 64) 31 32 <<< 32) (bits (n % 2 ^ 64) 31 0)

-- `_BITS_MASK(high, low)`.
unfoldable pub bits_mask : ℕ → ℕ → ℕ
bits_mask high low = (2 ^ (high - low + 1) - 1) <<< low

-- `SET_BITS(dest, high, low, bits)` and `SET_BIT(dest, index, bit)`: the value that `dest` gets.
unfoldable pub set_bits : ℕ → ℕ → ℕ → ℕ → ℕ
set_bits dest high low b = bit_or (bit_and dest (not64 (bits_mask high low))) (b <<< low)

unfoldable pub set_bit : ℕ → ℕ → ℕ → ℕ
set_bit dest index b = bit_or (bit_and dest (not64 (1 <<< index))) (b <<< index)

-- `ALIGN_DOWN(n, m)`, `ALIGN_UP(n, m)` of uint64_t.
unfoldable pub align_down : ℕ → ℕ → ℕ
align_down n m = n / m * m

unfoldable pub align_up : ℕ → ℕ → ℕ
unfolding align_down
align_up n m = align_down ((n + m - 1) % 2 ^ 64) m
