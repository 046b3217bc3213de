-- ===== src/Isa.antt =====
-- The opcodes of isa.h.
use xemu.Base.{ℕ}

abbrev pub op_nop : ℕ
op_nop = 0x00

abbrev pub op_load : ℕ
op_load = 0x03

abbrev pub op_load_fp : ℕ
op_load_fp = 0x07

abbrev pub op_misc : ℕ
op_misc = 0x0F

abbrev pub op_imm : ℕ
op_imm = 0x13

abbrev pub op_auipc : ℕ
op_auipc = 0x17

abbrev pub op_imm_w : ℕ
op_imm_w = 0x1B

abbrev pub op_store : ℕ
op_store = 0x23

abbrev pub op_store_fp : ℕ
op_store_fp = 0x27

abbrev pub op_amo : ℕ
op_amo = 0x2F

abbrev pub op_reg : ℕ
op_reg = 0x33

abbrev pub op_lui : ℕ
op_lui = 0x37

abbrev pub op_reg_w : ℕ
op_reg_w = 0x3B

abbrev pub op_fp : ℕ
op_fp = 0x53

abbrev pub op_branch : ℕ
op_branch = 0x63

abbrev pub op_jalr : ℕ
op_jalr = 0x67

abbrev pub op_jal : ℕ
op_jal = 0x6F

abbrev pub op_system : ℕ
op_system = 0x73
