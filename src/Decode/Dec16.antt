-- ===== src/Decode/Dec16.antt =====
-- dec16.c: the 16-bit instructions, one function for each quadrant and, in quadrant 1, for the
-- arithmetic group. The address `pc` goes only into the message of a panic, and is left out.
use xemu.Base.{ℕ, ◌+◌, [], ◌∷◌, ◌==◌, if◌then◌else◌, Outcome, ok, panicked}
use xemu.Op.{Op}
use xemu.Isa
use xemu.Word.{bits, bit, ◌<<<◌}
use xemu.Decode.Fields.{Decoded, switch}
use xemu.Decode.Imm16.{
  n_imm, u_imm, u_imm_d, i_imm, d_imm, ui_imm, j_imm, b_imm, lwsp_imm, ldsp_imm, swsp_imm, sdsp_imm,
}

-- The fields before the switch. The source leaves `*opcode` as it was; every case below that
-- returns sets it.
abbrev pub blank : Decoded
blank = record { op = Op.nop; rd = 0; rs1 = 0; rs2 = 0; imm = 0; csr_addr = 0; opcode = 0 }

abbrev rd_full : ℕ → ℕ
rd_full inst = bits inst 11 7

abbrev rs2_full : ℕ → ℕ
rs2_full inst = bits inst 6 2

-- The registers x8 to x15.
abbrev reg_low : ℕ → ℕ
reg_low inst = 8 + bits inst 4 2

abbrev reg_high : ℕ → ℕ
reg_high inst = 8 + bits inst 9 7

abbrev load_from : Op → ℕ → ℕ → ℕ → Decoded
load_from o rd rs1 imm = record blank {
  op = o;
  opcode = Isa.op_load;
  rd = rd;
  rs1 = rs1;
  imm = imm;
}

abbrev store_to : Op → ℕ → ℕ → ℕ → Decoded
store_to o rs1 rs2 imm = record blank {
  op = o;
  opcode = Isa.op_store;
  rs1 = rs1;
  rs2 = rs2;
  imm = imm;
}

abbrev immediate : Op → ℕ → ℕ → ℕ → Decoded
immediate o rd rs1 imm = record blank { op = o; opcode = Isa.op_imm; rd = rd; rs1 = rs1; imm = imm }

unfoldable pub quadrant0 : ℕ → Outcome Decoded
quadrant0 inst =
    switch (bits inst 15 13)
      ((0, ok (immediate Op.addi (reg_low inst) 2 (n_imm inst)))
        ∷ (1, ok (load_from Op.fld (reg_low inst) (reg_high inst) (u_imm_d inst)))
        ∷ (2, ok (load_from Op.lw (reg_low inst) (reg_high inst) (u_imm inst)))
        ∷ (3, ok (load_from Op.ld (reg_low inst) (reg_high inst) (u_imm_d inst)))
        ∷ (5, ok (store_to Op.fsd (reg_high inst) (reg_low inst) (u_imm_d inst)))
        ∷ (6, ok (store_to Op.sw (reg_high inst) (reg_low inst) (u_imm inst)))
        ∷ (7, ok (store_to Op.sd (reg_high inst) (reg_low inst) (u_imm_d inst)))
        ∷ [])
      panicked

-- `c.sub`, `c.subw`, `c.xor`, `c.addw`, `c.or`, `c.and`: `rd` is also the first operand.
abbrev register : ℕ → Op → Decoded
register inst o = record blank {
  op = o;
  opcode = Isa.op_reg;
  rd = reg_high inst;
  rs1 = reg_high inst;
  rs2 = reg_low inst;
}

unfoldable pub arith16 : ℕ → Outcome Decoded
arith16 inst =
    switch (bits inst 11 10)
      ((0, ok (immediate Op.srli (reg_high inst) (reg_high inst) (ui_imm inst)))
        ∷ (1, ok (immediate Op.srai (reg_high inst) (reg_high inst) (ui_imm inst)))
        ∷ (2, ok (immediate Op.andi (reg_high inst) (reg_high inst) (i_imm inst)))
        ∷ (
          3,
          switch (bits inst 6 5)
              ((0, ok (register inst (if bit inst 12 == 0 then Op.sub else Op.subw)))
                ∷ (1, ok (register inst (if bit inst 12 == 0 then Op.xor else Op.addw)))
                ∷ (2, ok (register inst Op.or))
                ∷ (3, ok (register inst Op.and))
                ∷ [])
              panicked,
        )
        ∷ [])
      panicked

-- `c.nop` is `c.addi` with rd 0.
unfoldable pub nop_or_addi : ℕ → Decoded
nop_or_addi inst =
    let rd = rd_full inst in
    if rd == 0
    then record blank { opcode = Isa.op_nop; rd = rd; rs1 = rd }
    else immediate Op.addi rd rd (i_imm inst)

unfoldable pub addi16sp_or_lui : ℕ → Decoded
addi16sp_or_lui inst =
    let rd = rd_full inst in
    if rd == 2
    then immediate Op.addi rd 2 (d_imm inst)
    else record blank { op = Op.lui; opcode = Isa.op_lui; rd = rd; imm = i_imm inst <<< 12 }

abbrev branch_zero : Op → ℕ → Decoded
branch_zero o inst = record blank {
  op = o;
  opcode = Isa.op_branch;
  rs1 = reg_high inst;
  imm = b_imm inst;
}

unfoldable pub quadrant1 : ℕ → Outcome Decoded
quadrant1 inst =
    switch (bits inst 15 13)
      ((0, ok (nop_or_addi inst))
        ∷ (1, ok (immediate Op.addiw (rd_full inst) (rd_full inst) (i_imm inst)))
        ∷ (2, ok (immediate Op.addi (rd_full inst) 0 (i_imm inst)))
        ∷ (3, ok (addi16sp_or_lui inst))
        ∷ (4, arith16 inst)
        ∷ (5, ok (record blank { op = Op.jal; opcode = Isa.op_jal; imm = j_imm inst }))
        ∷ (6, ok (branch_zero Op.beq inst))
        ∷ (7, ok (branch_zero Op.bne inst))
        ∷ [])
      panicked

-- `c.add`, `c.jalr`, `c.ebreak` with bit 12 set; `c.mv` and `c.jr` without.
unfoldable pub jump_or_move : ℕ → Decoded
jump_or_move inst =
    let full = rd_full inst in
    let rs2 = rs2_full inst in
    if bit inst 12 == 0
    then if rs2 == 0
      then record blank { op = Op.jalr; opcode = Isa.op_jalr; rs1 = full; rs2 = rs2 }
      else record blank { op = Op.add; opcode = Isa.op_reg; rd = full; rs2 = rs2 }
    else if full == 0
    then record blank { op = Op.ebreak; opcode = Isa.op_system; rs1 = full }
    else if rs2 == 0
    then record blank { op = Op.jalr; opcode = Isa.op_jalr; rd = 1; rs1 = full; rs2 = rs2 }
    else record blank { op = Op.add; opcode = Isa.op_reg; rd = full; rs1 = full; rs2 = rs2 }

unfoldable pub quadrant2 : ℕ → Outcome Decoded
quadrant2 inst =
    switch (bits inst 15 13)
      ((0, ok (immediate Op.slli (rd_full inst) (rd_full inst) (ui_imm inst)))
        ∷ (1, ok (load_from Op.fld (rd_full inst) 2 (ldsp_imm inst)))
        ∷ (2, ok (load_from Op.lw (rd_full inst) 2 (lwsp_imm inst)))
        ∷ (3, ok (load_from Op.ld (rd_full inst) 2 (ldsp_imm inst)))
        ∷ (4, ok (jump_or_move inst))
        ∷ (6, ok (store_to Op.sw 2 (rs2_full inst) (swsp_imm inst)))
        ∷ (7, ok (store_to Op.sd 2 (rs2_full inst) (sdsp_imm inst)))
        ∷ [])
      panicked

-- The outer switch. `decode` hands over no instruction of quadrant 3.
unfoldable pub dec16 : ℕ → Outcome Decoded
dec16 inst =
    switch (bits inst 1 0) ((0, quadrant0 inst) ∷ (1, quadrant1 inst) ∷ (2, quadrant2 inst) ∷ [])
      panicked
