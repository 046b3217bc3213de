-- ===== src/Decode/Dec32.antt =====
-- dec32.c: the 32-bit instructions, one function for each group of the outer switch. The address
-- `pc` goes only into the message of a panic, and is left out.
use xemu.Base.{ℕ, [], ◌∷◌, ◌||◌, ◌==◌, if◌then◌else◌, Outcome, ok, panicked, map_outcome}
use xemu.Op.{Op}
use xemu.Isa
use xemu.Word.{bits, bit}
use xemu.Decode.Fields.{Decoded, switch}
use xemu.Decode.Imm32.{i_imm, s_imm, b_imm, u_imm, j_imm, c_imm, m_imm6, m_imm5}

abbrev funct3 : ℕ → ℕ
funct3 inst = bits inst 14 12

abbrev funct5 : ℕ → ℕ
funct5 inst = bits inst 31 27

abbrev funct7 : ℕ → ℕ
funct7 inst = bits inst 31 25

-- `c ? a : b` on a bit.
abbrev if_bit : ℕ → Op → Op → Op
if_bit b x y = if b == 0 then y else x

-- The fields before the switch.
unfoldable pub defaults : ℕ → Decoded
defaults inst = record {
  op = Op.nop;
  rd = bits inst 11 7;
  rs1 = bits inst 19 15;
  rs2 = bits inst 24 20;
  imm = 0;
  csr_addr = 0;
  opcode = bits inst 6 0;
}

unfoldable pub branch_op : ℕ → Outcome Op
branch_op f3 =
    switch f3
      ((0, ok Op.beq)
        ∷ (1, ok Op.bne)
        ∷ (4, ok Op.blt)
        ∷ (5, ok Op.bge)
        ∷ (6, ok Op.bltu)
        ∷ (7, ok Op.bgeu)
        ∷ [])
      panicked

unfoldable pub dec_branch : ℕ → Decoded → Outcome Decoded
dec_branch inst d =
    map_outcome (λ o. record d { op = o; imm = b_imm inst; rd = 0 }) (branch_op (funct3 inst))

unfoldable pub load_op : ℕ → Outcome Op
load_op f3 =
    switch f3
      ((0, ok Op.lb)
        ∷ (1, ok Op.lh)
        ∷ (2, ok Op.lw)
        ∷ (3, ok Op.ld)
        ∷ (4, ok Op.lbu)
        ∷ (5, ok Op.lhu)
        ∷ (6, ok Op.lwu)
        ∷ [])
      panicked

unfoldable pub dec_load : ℕ → Decoded → Outcome Decoded
dec_load inst d = map_outcome (λ o. record d { op = o; imm = i_imm inst }) (load_op (funct3 inst))

unfoldable pub store_op : ℕ → Outcome Op
store_op f3 =
    switch f3 ((0, ok Op.sb) ∷ (1, ok Op.sh) ∷ (2, ok Op.sw) ∷ (3, ok Op.sd) ∷ []) panicked

unfoldable pub dec_store : ℕ → Decoded → Outcome Decoded
dec_store inst d =
    map_outcome (λ o. record d { op = o; imm = s_imm inst; rd = 0 }) (store_op (funct3 inst))

unfoldable pub dec_load_fp : ℕ → Decoded → Outcome Decoded
dec_load_fp inst d =
    map_outcome (λ o. record d { op = o; imm = i_imm inst })
      (switch (funct3 inst) ((2, ok Op.flw) ∷ (3, ok Op.fld) ∷ []) panicked)

unfoldable pub dec_store_fp : ℕ → Decoded → Outcome Decoded
dec_store_fp inst d =
    map_outcome (λ o. record d { op = o; imm = s_imm inst; rd = 0 })
      (switch (funct3 inst) ((2, ok Op.fsw) ∷ (3, ok Op.fsd) ∷ []) panicked)

unfoldable pub imm_op : ℕ → Outcome Op
imm_op inst =
    switch (funct3 inst)
      ((0, ok Op.addi)
        ∷ (1, ok Op.slli)
        ∷ (2, ok Op.slti)
        ∷ (3, ok Op.sltiu)
        ∷ (4, ok Op.xori)
        ∷ (5, ok (if_bit (bit inst 30) Op.srai Op.srli))
        ∷ (6, ok Op.ori)
        ∷ (7, ok Op.andi)
        ∷ [])
      panicked

unfoldable pub dec_imm : ℕ → Decoded → Outcome Decoded
dec_imm inst d =
    map_outcome
      (λ o. record d {
        op = o;
        imm = if funct3 inst == 1 || funct3 inst == 5 then m_imm6 inst else i_imm inst;
      })
      (imm_op inst)

unfoldable pub dec_imm_w : ℕ → Decoded → Outcome Decoded
dec_imm_w inst d =
    switch (funct3 inst)
      ((0, ok (record d { op = Op.addiw; imm = i_imm inst }))
        ∷ (1, ok (record d { op = Op.slliw; imm = m_imm5 inst }))
        ∷ (5, ok (record d { op = if_bit (bit inst 30) Op.sraiw Op.srliw; imm = m_imm5 inst }))
        ∷ [])
      panicked

unfoldable pub muldiv_op : ℕ → Outcome Op
muldiv_op f3 =
    switch f3
      ((0, ok Op.mul)
        ∷ (1, ok Op.mulh)
        ∷ (2, ok Op.mulhsu)
        ∷ (3, ok Op.mulhu)
        ∷ (4, ok Op.div)
        ∷ (5, ok Op.divu)
        ∷ (6, ok Op.rem)
        ∷ (7, ok Op.remu)
        ∷ [])
      panicked

unfoldable pub reg_op : ℕ → Outcome Op
reg_op inst =
    switch (funct3 inst)
      ((0, ok (if_bit (bit inst 30) Op.sub Op.add))
        ∷ (1, ok Op.sll)
        ∷ (2, ok Op.slt)
        ∷ (3, ok Op.sltu)
        ∷ (4, ok Op.xor)
        ∷ (5, ok (if_bit (bit inst 30) Op.sra Op.srl))
        ∷ (6, ok Op.or)
        ∷ (7, ok Op.and)
        ∷ [])
      panicked

unfoldable pub dec_reg : ℕ → Decoded → Outcome Decoded
dec_reg inst d =
    map_outcome (λ o. record d { op = o })
      (if funct7 inst == 1 then muldiv_op (funct3 inst) else reg_op inst)

unfoldable pub muldiv_w_op : ℕ → Outcome Op
muldiv_w_op f3 =
    switch f3
      ((0, ok Op.mulw)
        ∷ (4, ok Op.divw)
        ∷ (5, ok Op.divuw)
        ∷ (6, ok Op.remw)
        ∷ (7, ok Op.remuw)
        ∷ [])
      panicked

unfoldable pub reg_w_op : ℕ → Outcome Op
reg_w_op inst =
    switch (funct3 inst)
      ((0, ok (if_bit (bit inst 30) Op.subw Op.addw))
        ∷ (1, ok Op.sllw)
        ∷ (5, ok (if_bit (bit inst 30) Op.sraw Op.srlw))
        ∷ [])
      panicked

unfoldable pub dec_reg_w : ℕ → Decoded → Outcome Decoded
dec_reg_w inst d =
    map_outcome (λ o. record d { op = o })
      (if funct7 inst == 1 then muldiv_w_op (funct3 inst) else reg_w_op inst)

unfoldable pub dec_misc : ℕ → Decoded → Outcome Decoded
dec_misc inst d =
    map_outcome (λ o. record d { op = o })
      (switch (funct3 inst) ((0, ok Op.fence) ∷ (1, ok Op.fence_i) ∷ []) panicked)

-- The privileged instructions, where funct3 is 0.
unfoldable pub priv_op : ℕ → Outcome Op
priv_op inst =
    switch (funct7 inst)
      ((
        0,
        switch (bits inst 24 20) ((0, ok Op.ecall) ∷ (1, ok Op.ebreak) ∷ (2, ok Op.uret) ∷ [])
            panicked,
      )
        ∷ (8, switch (bits inst 24 20) ((2, ok Op.sret) ∷ (5, ok Op.wfi) ∷ []) panicked)
        ∷ (9, ok Op.sfence_vma)
        ∷ (24, ok Op.mret)
        ∷ [])
      panicked

unfoldable pub system_op : ℕ → Decoded → Outcome Decoded
system_op inst d =
    switch (funct3 inst)
      ((0, map_outcome (λ o. record d { op = o }) (priv_op inst))
        ∷ (1, ok (record d { op = Op.csrrw }))
        ∷ (2, ok (record d { op = Op.csrrs }))
        ∷ (3, ok (record d { op = Op.csrrc }))
        ∷ (5, ok (record d { op = Op.csrrwi; imm = c_imm inst }))
        ∷ (6, ok (record d { op = Op.csrrsi; imm = c_imm inst }))
        ∷ (7, ok (record d { op = Op.csrrci; imm = c_imm inst }))
        ∷ [])
      panicked

unfoldable pub dec_system : ℕ → Decoded → Outcome Decoded
dec_system inst d =
    map_outcome (λ (e : Decoded). record e { csr_addr = bits inst 31 20 }) (system_op inst d)

unfoldable pub amo_op : ℕ → Outcome Op
amo_op inst =
    let wide = λ (x y : Op). ok (if funct3 inst == 3 then x else y) in
    switch (funct5 inst)
      ((0, wide Op.amo_add_d Op.amo_add_w)
        ∷ (1, wide Op.amo_swap_d Op.amo_swap_w)
        ∷ (2, wide Op.lr_d Op.lr_w)
        ∷ (3, wide Op.sc_d Op.sc_w)
        ∷ (4, wide Op.amo_xor_d Op.amo_xor_w)
        ∷ (8, wide Op.amo_or_d Op.amo_or_w)
        ∷ (12, wide Op.amo_and_d Op.amo_and_w)
        ∷ (16, wide Op.amo_min_d Op.amo_min_w)
        ∷ (20, wide Op.amo_max_d Op.amo_max_w)
        ∷ (24, wide Op.amo_minu_d Op.amo_minu_w)
        ∷ (28, wide Op.amo_maxu_d Op.amo_maxu_w)
        ∷ [])
      panicked

unfoldable pub dec_amo : ℕ → Decoded → Outcome Decoded
dec_amo inst d = map_outcome (λ o. record d { op = o }) (amo_op inst)

unfoldable pub dec_fp : ℕ → Decoded → Outcome Decoded
dec_fp inst d =
    map_outcome (λ o. record d { op = o })
      (switch (funct7 inst) ((0x78, ok Op.fmv_w_x) ∷ []) panicked)

-- The outer switch.
unfoldable pub dec32 : ℕ → Outcome Decoded
dec32 inst =
    let d = defaults inst in
    switch d.opcode
      ((Isa.op_lui, ok (record d { op = Op.lui; imm = u_imm inst }))
        ∷ (Isa.op_auipc, ok (record d { op = Op.auipc; imm = u_imm inst }))
        ∷ (Isa.op_jal, ok (record d { op = Op.jal; imm = j_imm inst }))
        ∷ (Isa.op_jalr, ok (record d { op = Op.jalr; imm = i_imm inst }))
        ∷ (Isa.op_branch, dec_branch inst d)
        ∷ (Isa.op_load, dec_load inst d)
        ∷ (Isa.op_store, dec_store inst d)
        ∷ (Isa.op_load_fp, dec_load_fp inst d)
        ∷ (Isa.op_store_fp, dec_store_fp inst d)
        ∷ (Isa.op_imm, dec_imm inst d)
        ∷ (Isa.op_imm_w, dec_imm_w inst d)
        ∷ (Isa.op_reg, dec_reg inst d)
        ∷ (Isa.op_reg_w, dec_reg_w inst d)
        ∷ (Isa.op_misc, dec_misc inst d)
        ∷ (Isa.op_system, dec_system inst d)
        ∷ (Isa.op_amo, dec_amo inst d)
        ∷ (Isa.op_fp, dec_fp inst d)
        ∷ [])
      panicked
