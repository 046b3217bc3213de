-- ===== src/Execute/System.antt =====
-- Fences, traps and the control and status registers.
use xemu.Base.{ℕ, ◌+◌, false, none, some, M, pure, ◌>>=◌}
use xemu.Op.{Op}
use xemu.Csr.{CsrOp, csr_update}
use xemu.Csr.Cause
use xemu.Trap.{trap_exit, raise_except}
use xemu.Bus.{Bus}
use xemu.Machine.{Machine, get, in_csrs}
use xemu.Execute.Locals.{Args, Effect, int, nothing, checked}
use xemu.Execute.MulDiv.{exec_muldiv}

module _ {S : Type 0} where
  -- A return address from trap.c, and no value for rd.
  unfoldable pub go_to : ℕ → M (Machine S) Effect
  go_to target = pure (record { ret_pc = target; dest = int none; raised = false })

  unfoldable pub ecall : Args → M (Machine S) Effect
  unfolding go_to
  ecall args = do
    s ← get
    target ← in_csrs (raise_except args.pc (Cause.ecall_from_u_mode + s.csrs.priv) 0)
    go_to target

  unfoldable pub trap_return : Op → M (Machine S) Effect
  unfolding go_to
  trap_return op = do target ← in_csrs (trap_exit op); go_to target

  unfoldable pub csr_op : Args → ℕ → CsrOp → M (Machine S) Effect
  csr_op args operand type = do
    (v, raised) ← in_csrs (csr_update args.csr_addr operand type false)
    checked args Cause.illegal_inst 0 (int (some v)) raised

  -- CSRRW, CSRRS and CSRRC.
  unfoldable pub csr_reg : Args → CsrOp → M (Machine S) Effect
  unfolding csr_op
  csr_reg args type = do s ← get; csr_op args (s.reg args.rs1) type

unfoldable pub exec_system : {S : Type 0} → Bus S → Op → Args → M (Machine S) Effect
exec_system bus Op.fence args = nothing args
exec_system bus Op.fence_i args = nothing args
exec_system bus Op.ecall args = ecall args
exec_system bus Op.uret args = trap_return Op.uret
exec_system bus Op.sret args = trap_return Op.sret
exec_system bus Op.mret args = trap_return Op.mret
exec_system bus Op.wfi args = nothing args
exec_system bus Op.sfence_vma args = nothing args
exec_system bus Op.csrrw args = csr_reg args CsrOp.write
exec_system bus Op.csrrs args = csr_reg args CsrOp.set
exec_system bus Op.csrrc args = csr_reg args CsrOp.clear
exec_system bus Op.csrrwi args = csr_op args args.imm CsrOp.write
exec_system bus Op.csrrsi args = csr_op args args.imm CsrOp.set
exec_system bus Op.csrrci args = csr_op args args.imm CsrOp.clear
exec_system bus op args = exec_muldiv bus op args
