-- ===== src/Decode/Imm32.antt =====
-- The immediates of dec32.c. Each `|` stands as in the macro, from the left.
use xemu.Base.{ℕ, bit_or}
use xemu.Word.{bits, bit, expand_bit, ◌<<<◌}

unfoldable pub i_imm : ℕ → ℕ
i_imm inst = bit_or (expand_bit inst 31 52 <<< 12) (bits inst 31 20)

unfoldable pub s_imm : ℕ → ℕ
s_imm inst = bit_or (bit_or (expand_bit inst 31 52 <<< 12) (bits inst 31 25 <<< 5)) (bits inst 11 7)

unfoldable pub b_imm : ℕ → ℕ
b_imm inst =
    bit_or
      (bit_or (bit_or (expand_bit inst 31 52 <<< 12) (bit inst 7 <<< 11)) (bits inst 30 25 <<< 5))
      (bits inst 11 8 <<< 1)

unfoldable pub u_imm : ℕ → ℕ
u_imm inst = bit_or (expand_bit inst 31 32 <<< 32) (bits inst 31 12 <<< 12)

unfoldable pub j_imm : ℕ → ℕ
j_imm inst =
    bit_or
      (bit_or (bit_or (expand_bit inst 31 44 <<< 20) (bits inst 19 12 <<< 12)) (bit inst 20 <<< 11))
      (bits inst 30 21 <<< 1)

unfoldable pub c_imm : ℕ → ℕ
c_imm inst = bits inst 19 15

unfoldable pub m_imm6 : ℕ → ℕ
m_imm6 inst = bits inst 25 20

unfoldable pub m_imm5 : ℕ → ℕ
m_imm5 inst = bits inst 24 20
