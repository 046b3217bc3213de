-- ===== src/Decode/Encode.antt =====
-- The formats of the 32-bit instructions. The encoders are arithmetic, each field times the place of
-- its lowest bit, and so are the immediates of dec32.c here.
use xemu.Base.{ℕ, ◌+◌, ◌-◌, ◌*◌, ◌/◌, ◌%◌, ◌^◌, ◌≡◌, arith, ◌==◌, if◌then◌else◌}
use xemu.Word.{bits, bit, expand_bit, ◌<<<◌}
use xemu.Word.Fields.{bits_lem, bit_lem, expand_bit_lem, bit_or_disjoint}
use xemu.Decode.Imm32.{i_imm, s_imm, b_imm, u_imm, j_imm}

-- The 64-bit pattern of the number that the `w`-bit pattern `x` stands for.
abbrev pub sext : ℕ → ℕ → ℕ
sext w x = if x / 2 ^ (w - 1) == 0 then x else 2 ^ 64 - 2 ^ w + x

abbrev fields : ℕ → ℕ → ℕ → ℕ
fields rs2 rs1 funct3 = rs2 * 2 ^ 20 + rs1 * 2 ^ 15 + funct3 * 2 ^ 12

unfoldable pub i_type : (opcode funct3 rd rs1 imm : ℕ) → ℕ
i_type opcode funct3 rd rs1 imm =
    imm * 2 ^ 20 + rs1 * 2 ^ 15 + funct3 * 2 ^ 12 + rd * 2 ^ 7 + opcode

unfoldable pub s_type : (opcode funct3 rs1 rs2 imm : ℕ) → ℕ
s_type opcode funct3 rs1 rs2 imm =
    imm / 2 ^ 5 * 2 ^ 25 + fields rs2 rs1 funct3 + imm % 2 ^ 5 * 2 ^ 7 + opcode

-- The offset of a branch: bits 12, 10 to 5, 4 to 1 and 11.
unfoldable pub b_type : (opcode funct3 rs1 rs2 offset : ℕ) → ℕ
b_type opcode funct3 rs1 rs2 offset =
    offset / 2 ^ 12 * 2 ^ 31
    + offset / 2 ^ 5 % 2 ^ 6 * 2 ^ 25
    + fields rs2 rs1 funct3
    + offset / 2 % 2 ^ 4 * 2 ^ 8
    + offset / 2 ^ 11 % 2 * 2 ^ 7
    + opcode

unfoldable pub u_type : (opcode rd imm : ℕ) → ℕ
u_type opcode rd imm = imm * 2 ^ 12 + rd * 2 ^ 7 + opcode

-- The offset of a jump: bits 20, 10 to 1, 11 and 19 to 12.
unfoldable pub j_type : (opcode rd offset : ℕ) → ℕ
j_type opcode rd offset =
    offset / 2 ^ 20 * 2 ^ 31
    + offset / 2 % 2 ^ 10 * 2 ^ 21
    + offset / 2 ^ 11 % 2 * 2 ^ 20
    + offset / 2 ^ 12 % 2 ^ 8 * 2 ^ 12
    + rd * 2 ^ 7
    + opcode

module _ (inst : ℕ) where
  pub i_imm_lem : i_imm inst ≡ expand_bit inst 31 52 * 2 ^ 12 + bits inst 31 20
  unfolding i_imm ◌<<<◌
  i_imm_lem = ground (
    arith,
    expand_bit_lem inst 31 52,
    bits_lem inst 31 20,
    bit_or_disjoint 12 (expand_bit inst 31 52 * 2 ^ 12) (bits inst 31 20),
  )

  pub s_imm_lem :
      s_imm inst ≡ expand_bit inst 31 52 * 2 ^ 12 + bits inst 31 25 * 2 ^ 5 + bits inst 11 7
  unfolding s_imm ◌<<<◌
  s_imm_lem =
      let high = expand_bit inst 31 52 * 2 ^ 12 in
      let middle = bits inst 31 25 * 2 ^ 5 in
      ground (
        arith,
        expand_bit_lem inst 31 52,
        bits_lem inst 31 25,
        bits_lem inst 11 7,
        bit_or_disjoint 12 high middle,
        bit_or_disjoint 5 (high + middle) (bits inst 11 7),
      )

  pub b_imm_lem :
      b_imm inst
      ≡ expand_bit inst 31 52 * 2 ^ 12
        + bit inst 7 * 2 ^ 11
        + bits inst 30 25 * 2 ^ 5
        + bits inst 11 8 * 2
  unfolding b_imm ◌<<<◌
  b_imm_lem =
      let high = expand_bit inst 31 52 * 2 ^ 12 in
      let b11 = bit inst 7 * 2 ^ 11 in
      let middle = bits inst 30 25 * 2 ^ 5 in
      ground (
        arith,
        expand_bit_lem inst 31 52,
        bit_lem inst 7,
        bits_lem inst 30 25,
        bits_lem inst 11 8,
        bit_or_disjoint 12 high b11,
        bit_or_disjoint 11 (high + b11) middle,
        bit_or_disjoint 5 (high + b11 + middle) (bits inst 11 8 * 2),
      )

  pub u_imm_lem : u_imm inst ≡ expand_bit inst 31 32 * 2 ^ 32 + bits inst 31 12 * 2 ^ 12
  unfolding u_imm ◌<<<◌
  u_imm_lem = ground (
    arith,
    expand_bit_lem inst 31 32,
    bits_lem inst 31 12,
    bit_or_disjoint 32 (expand_bit inst 31 32 * 2 ^ 32) (bits inst 31 12 * 2 ^ 12),
  )

  pub j_imm_lem :
      j_imm inst
      ≡ expand_bit inst 31 44 * 2 ^ 20
        + bits inst 19 12 * 2 ^ 12
        + bit inst 20 * 2 ^ 11
        + bits inst 30 21 * 2
  unfolding j_imm ◌<<<◌
  j_imm_lem =
      let high = expand_bit inst 31 44 * 2 ^ 20 in
      let middle = bits inst 19 12 * 2 ^ 12 in
      let b11 = bit inst 20 * 2 ^ 11 in
      ground (
        arith,
        expand_bit_lem inst 31 44,
        bit_lem inst 20,
        bits_lem inst 19 12,
        bits_lem inst 30 21,
        bit_or_disjoint 20 high middle,
        bit_or_disjoint 12 (high + middle) b11,
        bit_or_disjoint 11 (high + middle + b11) (bits inst 30 21 * 2),
      )
