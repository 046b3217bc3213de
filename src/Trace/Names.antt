-- ===== src/Trace/Names.antt =====
-- The names that a trace prints: operation.c, regfile.c, and csr_name of csr.c.
pub mod Distinct
use Prim.Native.String.{String}
use xemu.Base.{
  ℕ, Bool, true, false, ◌&&◌, ◌||◌, ltb, leb, ◌==◌, if◌then◌else◌, List, [], ◌∷◌, get_elem?,
  Outcome, ok, panicked, or_undefined,
}
use xemu.Op.{Op}
use xemu.Csr.Number

-- `op_names`.
abbrev pub op_names : List String
op_names =
    "nop" ∷ "lui" ∷ "auipc" ∷ "jal" ∷ "jalr" ∷ "beq" ∷ "bne" ∷ "blt" ∷ "bge" ∷ "bltu" ∷ "bgeu"
    ∷ "lb" ∷ "lh" ∷ "lw" ∷ "ld" ∷ "lbu" ∷ "lhu" ∷ "lwu" ∷ "sb" ∷ "sh" ∷ "sw" ∷ "sd" ∷ "addi"
    ∷ "slli" ∷ "slti" ∷ "sltiu" ∷ "xori" ∷ "srli" ∷ "srai" ∷ "ori" ∷ "andi" ∷ "addiw" ∷ "slliw"
    ∷ "srliw" ∷ "sraiw" ∷ "add" ∷ "sub" ∷ "sll" ∷ "slt" ∷ "sltu" ∷ "xor" ∷ "srl" ∷ "sra" ∷ "or"
    ∷ "and" ∷ "addw" ∷ "subw" ∷ "sllw" ∷ "srlw" ∷ "sraw" ∷ "fence" ∷ "fence_i" ∷ "ecall" ∷ "ebreak"
    ∷ "uret" ∷ "sret" ∷ "mret" ∷ "wfi" ∷ "sfence_vma" ∷ "csrrw" ∷ "csrrs" ∷ "csrrc" ∷ "csrrwi"
    ∷ "csrrsi" ∷ "csrrci" ∷ "mul" ∷ "mulh" ∷ "mulhsu" ∷ "mulhu" ∷ "div" ∷ "divu" ∷ "rem" ∷ "remu"
    ∷ "mulw" ∷ "divw" ∷ "divuw" ∷ "remw" ∷ "remuw" ∷ "amo_add_d" ∷ "amo_swap_d" ∷ "lr_d" ∷ "sc_d"
    ∷ "amo_xor_d" ∷ "amo_or_d" ∷ "amo_and_d" ∷ "amo_min_d" ∷ "amo_max_d" ∷ "amo_minu_d"
    ∷ "amo_maxu_d" ∷ "amo_add_w" ∷ "amo_swap_w" ∷ "lr_w" ∷ "sc_w" ∷ "amo_xor_w" ∷ "amo_or_w"
    ∷ "amo_and_w" ∷ "amo_min_w" ∷ "amo_max_w" ∷ "amo_minu_w" ∷ "amo_maxu_w" ∷ "flw" ∷ "fsw"
    ∷ "fmv_w_x" ∷ "fld" ∷ "fsd" ∷ []

-- The value of an operation as a number, and `OP_MAX_NUM`.
unfoldable pub op_number : Op → ℕ
op_number Op.nop = 0
op_number Op.lui = 1
op_number Op.auipc = 2
op_number Op.jal = 3
op_number Op.jalr = 4
op_number Op.beq = 5
op_number Op.bne = 6
op_number Op.blt = 7
op_number Op.bge = 8
op_number Op.bltu = 9
op_number Op.bgeu = 10
op_number Op.lb = 11
op_number Op.lh = 12
op_number Op.lw = 13
op_number Op.ld = 14
op_number Op.lbu = 15
op_number Op.lhu = 16
op_number Op.lwu = 17
op_number Op.sb = 18
op_number Op.sh = 19
op_number Op.sw = 20
op_number Op.sd = 21
op_number Op.addi = 22
op_number Op.slli = 23
op_number Op.slti = 24
op_number Op.sltiu = 25
op_number Op.xori = 26
op_number Op.srli = 27
op_number Op.srai = 28
op_number Op.ori = 29
op_number Op.andi = 30
op_number Op.addiw = 31
op_number Op.slliw = 32
op_number Op.srliw = 33
op_number Op.sraiw = 34
op_number Op.add = 35
op_number Op.sub = 36
op_number Op.sll = 37
op_number Op.slt = 38
op_number Op.sltu = 39
op_number Op.xor = 40
op_number Op.srl = 41
op_number Op.sra = 42
op_number Op.or = 43
op_number Op.and = 44
op_number Op.addw = 45
op_number Op.subw = 46
op_number Op.sllw = 47
op_number Op.srlw = 48
op_number Op.sraw = 49
op_number Op.fence = 50
op_number Op.fence_i = 51
op_number Op.ecall = 52
op_number Op.ebreak = 53
op_number Op.uret = 54
op_number Op.sret = 55
op_number Op.mret = 56
op_number Op.wfi = 57
op_number Op.sfence_vma = 58
op_number Op.csrrw = 59
op_number Op.csrrs = 60
op_number Op.csrrc = 61
op_number Op.csrrwi = 62
op_number Op.csrrsi = 63
op_number Op.csrrci = 64
op_number Op.mul = 65
op_number Op.mulh = 66
op_number Op.mulhsu = 67
op_number Op.mulhu = 68
op_number Op.div = 69
op_number Op.divu = 70
op_number Op.rem = 71
op_number Op.remu = 72
op_number Op.mulw = 73
op_number Op.divw = 74
op_number Op.divuw = 75
op_number Op.remw = 76
op_number Op.remuw = 77
op_number Op.amo_add_d = 78
op_number Op.amo_swap_d = 79
op_number Op.lr_d = 80
op_number Op.sc_d = 81
op_number Op.amo_xor_d = 82
op_number Op.amo_or_d = 83
op_number Op.amo_and_d = 84
op_number Op.amo_min_d = 85
op_number Op.amo_max_d = 86
op_number Op.amo_minu_d = 87
op_number Op.amo_maxu_d = 88
op_number Op.amo_add_w = 89
op_number Op.amo_swap_w = 90
op_number Op.lr_w = 91
op_number Op.sc_w = 92
op_number Op.amo_xor_w = 93
op_number Op.amo_or_w = 94
op_number Op.amo_and_w = 95
op_number Op.amo_min_w = 96
op_number Op.amo_max_w = 97
op_number Op.amo_minu_w = 98
op_number Op.amo_maxu_w = 99
op_number Op.flw = 100
op_number Op.fsw = 101
op_number Op.fmv_w_x = 102
op_number Op.fld = 103
op_number Op.fsd = 104

abbrev pub op_max_num : ℕ
op_max_num = 105

unfoldable pub op_name : Op → Outcome String
unfolding op_number
op_name op =
    if leb op_max_num (op_number op)
    then panicked
    else or_undefined (get_elem? op_names (op_number op))

-- `_abi_names`.
abbrev pub abi_names : List String
abi_names =
    "zero" ∷ "ra" ∷ "sp" ∷ "gp" ∷ "tp" ∷ "t0" ∷ "t1" ∷ "t2" ∷ "s0" ∷ "s1" ∷ "a0" ∷ "a1" ∷ "a2"
    ∷ "a3" ∷ "a4" ∷ "a5" ∷ "a6" ∷ "a7" ∷ "s2" ∷ "s3" ∷ "s4" ∷ "s5" ∷ "s6" ∷ "s7" ∷ "s8" ∷ "s9"
    ∷ "s10" ∷ "s11" ∷ "t3" ∷ "t4" ∷ "t5" ∷ "t6" ∷ []

unfoldable pub reg_name : ℕ → Outcome String
reg_name index = or_undefined (get_elem? abi_names index)

unfoldable pub csr_name : ℕ → String
csr_name csr_addr =
    if csr_addr == Number.ustatus
    then "ustatus"
    else if csr_addr == Number.fcsr
    then "fcsr"
    else if csr_addr == Number.stvec
    then "stvec"
    else if csr_addr == Number.sscratch
    then "sscratch"
    else if csr_addr == Number.satp
    then "satp"
    else if csr_addr == Number.misa
    then "misa"
    else if csr_addr == Number.mie
    then "mie"
    else if csr_addr == Number.mtvec
    then "mtvec"
    else if csr_addr == Number.mscratch
    then "mscratch"
    else if csr_addr == Number.mip
    then "mip"
    else if leb Number.pmpaddr0 csr_addr && leb csr_addr Number.pmpaddr15
    then "pmpaddr"
    else if csr_addr == Number.mvendorid
    then "mvendorid"
    else if csr_addr == Number.marchid
    then "marchid"
    else if csr_addr == Number.mimpid
    then "mimpid"
    else if csr_addr == Number.mhartid
    then "mhartid"
    else "unknown"
