-- ===== src/Trace/Names/Distinct.antt =====
-- The name of an operation tells which one it is.
use Prim.Native.String.{String}
use text.Mathlib.Text.{◌==◌}
use xemu.Base.{
  Bool, List, [], ◌∷◌, Option, none, some, if◌then◌else◌, Outcome, ok, ◌≡◌, refl, ap, sym, ◌∙◌,
  false,
}
use xemu.Op.{Op}
use xemu.Trace.Names.{op_name}

-- The operations of operation.h, in its order.
abbrev all_ops : List Op
all_ops =
    Op.nop ∷ Op.lui ∷ Op.auipc ∷ Op.jal ∷ Op.jalr ∷ Op.beq ∷ Op.bne ∷ Op.blt ∷ Op.bge ∷ Op.bltu
    ∷ Op.bgeu ∷ Op.lb ∷ Op.lh ∷ Op.lw ∷ Op.ld ∷ Op.lbu ∷ Op.lhu ∷ Op.lwu ∷ Op.sb ∷ Op.sh ∷ Op.sw
    ∷ Op.sd ∷ Op.addi ∷ Op.slli ∷ Op.slti ∷ Op.sltiu ∷ Op.xori ∷ Op.srli ∷ Op.srai ∷ Op.ori
    ∷ Op.andi ∷ Op.addiw ∷ Op.slliw ∷ Op.srliw ∷ Op.sraiw ∷ Op.add ∷ Op.sub ∷ Op.sll ∷ Op.slt
    ∷ Op.sltu ∷ Op.xor ∷ Op.srl ∷ Op.sra ∷ Op.or ∷ Op.and ∷ Op.addw ∷ Op.subw ∷ Op.sllw ∷ Op.srlw
    ∷ Op.sraw ∷ Op.fence ∷ Op.fence_i ∷ Op.ecall ∷ Op.ebreak ∷ Op.uret ∷ Op.sret ∷ Op.mret ∷ Op.wfi
    ∷ Op.sfence_vma ∷ Op.csrrw ∷ Op.csrrs ∷ Op.csrrc ∷ Op.csrrwi ∷ Op.csrrsi ∷ Op.csrrci ∷ Op.mul
    ∷ Op.mulh ∷ Op.mulhsu ∷ Op.mulhu ∷ Op.div ∷ Op.divu ∷ Op.rem ∷ Op.remu ∷ Op.mulw ∷ Op.divw
    ∷ Op.divuw ∷ Op.remw ∷ Op.remuw ∷ Op.amo_add_d ∷ Op.amo_swap_d ∷ Op.lr_d ∷ Op.sc_d
    ∷ Op.amo_xor_d ∷ Op.amo_or_d ∷ Op.amo_and_d ∷ Op.amo_min_d ∷ Op.amo_max_d ∷ Op.amo_minu_d
    ∷ Op.amo_maxu_d ∷ Op.amo_add_w ∷ Op.amo_swap_w ∷ Op.lr_w ∷ Op.sc_w ∷ Op.amo_xor_w ∷ Op.amo_or_w
    ∷ Op.amo_and_w ∷ Op.amo_min_w ∷ Op.amo_max_w ∷ Op.amo_minu_w ∷ Op.amo_maxu_w ∷ Op.flw ∷ Op.fsw
    ∷ Op.fmv_w_x ∷ Op.fld ∷ Op.fsd ∷ []

same : Outcome String → Outcome String → Bool
same (ok a) (ok b) = a == b
same _ _ = false

find : Outcome String → List Op → Option Op
unfolding same
find name [] = none
find name (op ∷ ops) = if same (op_name op) name then some op else find name ops

find-op_name : (op : Op) → find (op_name op) all_ops ≡ some op
unfolding find op_name
find-op_name Op.nop = refl
find-op_name _ = refl

op_name-ok : (op : Op) → (name : String) × (op_name op ≡ ok name)
unfolding op_name
op_name-ok Op.nop = ("nop", refl)
op_name-ok _ = (_, refl)

-- Every operation has a name in op_names, which no other operation has: the array is as long as the
-- enumeration, and the trace tells the operations apart.
pub op_name-distinct :
    (op : Op)
    → ((name : String) × (op_name op ≡ ok name))
      × ((other : Op) → op_name other ≡ op_name op → other ≡ op)
op_name-distinct op = (
  op_name-ok op,
  λ other e. from_some (sym (find-op_name other) ∙ ap (λ t. find t all_ops) e ∙ find-op_name op),
)
  where
    from_some : {a b : Op} → some a ≡ some b → a ≡ b
    from_some e = cc
