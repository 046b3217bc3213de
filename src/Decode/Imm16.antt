-- ===== src/Decode/Imm16.antt =====
-- The immediates of dec16.c, under the names of its macros.
use xemu.Base.{ℕ, bit_or}
use xemu.Word.{bits, bit, expand_bit, ◌<<<◌}

unfoldable pub n_imm : ℕ → ℕ
n_imm inst =
    bit_or (bit_or (bit_or (bits inst 10 7 <<< 6) (bits inst 12 11 <<< 4)) (bit inst 5 <<< 3))
      (bit inst 6 <<< 2)

unfoldable pub u_imm : ℕ → ℕ
u_imm inst = bit_or (bit_or (bit inst 5 <<< 6) (bits inst 12 10 <<< 3)) (bit inst 6 <<< 2)

unfoldable pub u_imm_d : ℕ → ℕ
u_imm_d inst = bit_or (bits inst 6 5 <<< 6) (bits inst 12 10 <<< 3)

unfoldable pub i_imm : ℕ → ℕ
i_imm inst = bit_or (expand_bit inst 12 59 <<< 5) (bits inst 6 2)

unfoldable pub d_imm : ℕ → ℕ
d_imm inst =
    bit_or
      (bit_or
        (bit_or (bit_or (expand_bit inst 12 55 <<< 9) (bits inst 4 3 <<< 7)) (bit inst 5 <<< 6))
        (bit inst 2 <<< 5))
      (bit inst 6 <<< 4)

unfoldable pub ui_imm : ℕ → ℕ
ui_imm inst = bit_or (bit inst 12 <<< 5) (bits inst 6 2)

unfoldable pub j_imm : ℕ → ℕ
j_imm inst =
    let high = bit_or (expand_bit inst 12 53 <<< 11) (bit inst 8 <<< 10) in
    let middle =
      bit_or (bit_or (bit_or high (bits inst 10 9 <<< 8)) (bit inst 6 <<< 7)) (bit inst 7 <<< 6) in
    bit_or (bit_or (bit_or middle (bit inst 2 <<< 5)) (bit inst 11 <<< 4)) (bits inst 5 3 <<< 1)

unfoldable pub b_imm : ℕ → ℕ
b_imm inst =
    bit_or
      (bit_or
        (bit_or (bit_or (expand_bit inst 12 56 <<< 8) (bits inst 6 5 <<< 6)) (bit inst 2 <<< 5))
        (bits inst 11 10 <<< 3))
      (bits inst 4 3 <<< 1)

unfoldable pub lwsp_imm : ℕ → ℕ
lwsp_imm inst = bit_or (bit_or (bits inst 3 2 <<< 6) (bit inst 12 <<< 5)) (bits inst 6 4 <<< 2)

unfoldable pub ldsp_imm : ℕ → ℕ
ldsp_imm inst = bit_or (bit_or (bits inst 4 2 <<< 6) (bit inst 12 <<< 5)) (bits inst 6 5 <<< 3)

unfoldable pub swsp_imm : ℕ → ℕ
swsp_imm inst = bit_or (bits inst 8 7 <<< 6) (bits inst 12 9 <<< 2)

unfoldable pub sdsp_imm : ℕ → ℕ
sdsp_imm inst = bit_or (bits inst 9 7 <<< 6) (bits inst 12 10 <<< 3)
