-- ===== src/Decode/RoundTrip.antt =====
-- Encoding an instruction and decoding it again.
use xemu.Base.{ℕ, ◌%◌, ◌^◌, ◌<◌, ◌≡◌, refl, arith, ok}
use xemu.Op.{Op}
use xemu.Word.{bits}
use xemu.Word.Fields.{bits_lem, bit_lem, expand_bit_lem}
use xemu.Decode.Fields.{Decoded}
use xemu.Decode.Imm32.{i_imm, s_imm, b_imm, j_imm}
use xemu.Decode.Encode.{
  sext, i_type, s_type, b_type, j_type, i_imm_lem, s_imm_lem, b_imm_lem, j_imm_lem,
}
use xemu.Decode.Dec32.{
  defaults, branch_op, load_op, store_op, dec_branch, dec_load, dec_store, dec32,
}

b_type_fields :
    (f3 rs1 rs2 off : ℕ)
    → f3 < 8
    → rs1 < 32
    → rs2 < 32
    → off < 2 ^ 13
    → off % 2 ≡ 0
    → let inst = b_type 0x63 f3 rs1 rs2 off in
      (bits inst 6 0 ≡ 0x63)
      × (bits inst 14 12 ≡ f3)
      × (bits inst 19 15 ≡ rs1)
      × (bits inst 24 20 ≡ rs2)
      × (b_imm inst ≡ sext 13 off)
unfolding b_type
b_type_fields f3 rs1 rs2 off h3 h1 h2 ho he =
    let inst = b_type 0x63 f3 rs1 rs2 off in
    (
      omega (arith, bits_lem inst 6 0),
      omega (arith, bits_lem inst 14 12),
      omega (arith, bits_lem inst 19 15),
      omega (arith, bits_lem inst 24 20),
      ground (
        arith,
        b_imm_lem inst,
        expand_bit_lem inst 31 52,
        bit_lem inst 7,
        bits_lem inst 30 25,
        bits_lem inst 11 8,
      ),
    )

dec32-branch_op :
    (f3 rs1 rs2 off : ℕ) (o : Op)
    → f3 < 8
    → rs1 < 32
    → rs2 < 32
    → off < 2 ^ 13
    → off % 2 ≡ 0
    → branch_op f3 ≡ ok o
    → dec32 (b_type 0x63 f3 rs1 rs2 off)
      ≡ ok (record {
        op = o;
        rd = 0;
        rs1 = rs1;
        rs2 = rs2;
        imm = sext 13 off;
        csr_addr = 0;
        opcode = 0x63;
      })
unfolding dec32 defaults dec_branch
dec32-branch_op f3 rs1 rs2 off o h3 h1 h2 ho he ho' =
    ground (arith, b_type_fields f3 rs1 rs2 off h3 h1 h2 ho he)

-- The branches, with the operations and the values of funct3 that the instruction set gives them.
pub data Condition : Type 0 where
  equal not_equal less greater_or_equal below above_or_equal : Condition

abbrev pub op_of : Condition → Op
op_of equal = Op.beq
op_of not_equal = Op.bne
op_of less = Op.blt
op_of greater_or_equal = Op.bge
op_of below = Op.bltu
op_of above_or_equal = Op.bgeu

abbrev pub funct3_of : Condition → ℕ
funct3_of equal = 0
funct3_of not_equal = 1
funct3_of less = 4
funct3_of greater_or_equal = 5
funct3_of below = 6
funct3_of above_or_equal = 7

funct3_of-op_of : (c : Condition) → (funct3_of c < 8) × (branch_op (funct3_of c) ≡ ok (op_of c))
unfolding branch_op
funct3_of-op_of equal = (omega arith, refl)
funct3_of-op_of not_equal = (omega arith, refl)
funct3_of-op_of less = (omega arith, refl)
funct3_of-op_of greater_or_equal = (omega arith, refl)
funct3_of-op_of below = (omega arith, refl)
funct3_of-op_of above_or_equal = (omega arith, refl)

-- Each of the six branches, encoded with its number in funct3 and an even offset of 13 bits, decodes
-- to its operation, its two registers and the offset, sign-extended; it has no destination.
pub dec32-b_type :
    (c : Condition) (rs1 rs2 off : ℕ)
    → rs1 < 32
    → rs2 < 32
    → off < 2 ^ 13
    → off % 2 ≡ 0
    → dec32 (b_type 0x63 (funct3_of c) rs1 rs2 off)
      ≡ ok (record {
        op = op_of c;
        rd = 0;
        rs1 = rs1;
        rs2 = rs2;
        imm = sext 13 off;
        csr_addr = 0;
        opcode = 0x63;
      })
dec32-b_type c rs1 rs2 off h1 h2 ho he =
    let (small, named) = funct3_of-op_of c in
    dec32-branch_op (funct3_of c) rs1 rs2 off (op_of c) small h1 h2 ho he named

s_type_fields :
    (f3 rs1 rs2 imm : ℕ)
    → f3 < 8
    → rs1 < 32
    → rs2 < 32
    → imm < 2 ^ 12
    → let inst = s_type 0x23 f3 rs1 rs2 imm in
      (bits inst 6 0 ≡ 0x23)
      × (bits inst 14 12 ≡ f3)
      × (bits inst 19 15 ≡ rs1)
      × (bits inst 24 20 ≡ rs2)
      × (s_imm inst ≡ sext 12 imm)
unfolding s_type
s_type_fields f3 rs1 rs2 imm h3 h1 h2 hi =
    let inst = s_type 0x23 f3 rs1 rs2 imm in
    (
      omega (arith, bits_lem inst 6 0),
      omega (arith, bits_lem inst 14 12),
      omega (arith, bits_lem inst 19 15),
      omega (arith, bits_lem inst 24 20),
      ground (
        arith,
        s_imm_lem inst,
        expand_bit_lem inst 31 52,
        bits_lem inst 31 25,
        bits_lem inst 11 7,
      ),
    )

-- A store with a displacement of 12 bits decodes to its operation, its two registers and the
-- displacement, sign-extended; it has no destination.
pub dec32-s_type :
    (f3 rs1 rs2 imm : ℕ) (o : Op)
    → f3 < 8
    → rs1 < 32
    → rs2 < 32
    → imm < 2 ^ 12
    → store_op f3 ≡ ok o
    → dec32 (s_type 0x23 f3 rs1 rs2 imm)
      ≡ ok (record {
        op = o;
        rd = 0;
        rs1 = rs1;
        rs2 = rs2;
        imm = sext 12 imm;
        csr_addr = 0;
        opcode = 0x23;
      })
unfolding dec32 defaults dec_store
dec32-s_type f3 rs1 rs2 imm o h3 h1 h2 hi ho =
    ground (arith, s_type_fields f3 rs1 rs2 imm h3 h1 h2 hi)

i_type_fields :
    (f3 rd rs1 imm : ℕ)
    → f3 < 8
    → rd < 32
    → rs1 < 32
    → imm < 2 ^ 12
    → let inst = i_type 0x03 f3 rd rs1 imm in
      (bits inst 6 0 ≡ 0x03)
      × (bits inst 14 12 ≡ f3)
      × (bits inst 11 7 ≡ rd)
      × (bits inst 19 15 ≡ rs1)
      × (bits inst 24 20 ≡ imm % 32)
      × (i_imm inst ≡ sext 12 imm)
unfolding i_type
i_type_fields f3 rd rs1 imm h3 hd h1 hi =
    let inst = i_type 0x03 f3 rd rs1 imm in
    (
      omega (arith, bits_lem inst 6 0),
      omega (arith, bits_lem inst 14 12),
      omega (arith, bits_lem inst 11 7),
      omega (arith, bits_lem inst 19 15),
      omega (arith, bits_lem inst 24 20),
      ground (arith, i_imm_lem inst, expand_bit_lem inst 31 52, bits_lem inst 31 20),
    )

-- A load with a displacement of 12 bits decodes to its operation, its two registers and the
-- displacement, sign-extended; the field of the second source holds the low displacement bits.
pub dec32-i_type :
    (f3 rd rs1 imm : ℕ) (o : Op)
    → f3 < 8
    → rd < 32
    → rs1 < 32
    → imm < 2 ^ 12
    → load_op f3 ≡ ok o
    → dec32 (i_type 0x03 f3 rd rs1 imm)
      ≡ ok (record {
        op = o;
        rd = rd;
        rs1 = rs1;
        rs2 = imm % 32;
        imm = sext 12 imm;
        csr_addr = 0;
        opcode = 0x03;
      })
unfolding dec32 defaults dec_load
dec32-i_type f3 rd rs1 imm o h3 hd h1 hi ho =
    ground (arith, i_type_fields f3 rd rs1 imm h3 hd h1 hi)

j_type_fields :
    (rd off : ℕ)
    → rd < 32
    → off < 2 ^ 21
    → off % 2 ≡ 0
    → let inst = j_type 0x6F rd off in
      (bits inst 6 0 ≡ 0x6F) × (bits inst 11 7 ≡ rd) × (j_imm inst ≡ sext 21 off)
unfolding j_type
j_type_fields rd off hd ho he =
    let inst = j_type 0x6F rd off in
    (
      omega (arith, bits_lem inst 6 0),
      omega (arith, bits_lem inst 11 7),
      ground (
        arith,
        j_imm_lem inst,
        expand_bit_lem inst 31 44,
        bit_lem inst 20,
        bits_lem inst 19 12,
        bits_lem inst 30 21,
      ),
    )

-- `jal` with an even offset of 21 bits decodes to its link register and the offset, sign-extended.
pub dec32-j_type :
    (rd off : ℕ)
    → rd < 32
    → off < 2 ^ 21
    → off % 2 ≡ 0
    → (d : Decoded) × (dec32 (j_type 0x6F rd off) ≡ ok d)
      × (d.op ≡ Op.jal)
      × (d.rd ≡ rd)
      × (d.imm ≡ sext 21 off)
unfolding dec32 defaults
dec32-j_type rd off hd ho he =
    let inst = j_type 0x6F rd off in
    (
      record (defaults inst) { op = Op.jal; imm = j_imm inst },
      ground (arith, j_type_fields rd off hd ho he),
      refl,
      ground (arith, j_type_fields rd off hd ho he),
      ground (arith, j_type_fields rd off hd ho he),
    )
