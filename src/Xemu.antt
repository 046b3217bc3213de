-- ===== src/Xemu.antt =====
-- xemu.c: fetching, and one round of the main loop. handle_interrupt is of trap.c.
pub mod Branches
pub mod Interrupts
pub mod Round
use xemu.Base.{
  ℕ, ◌+◌, ◌-◌, ◌*◌, ◌%◌, ◌^◌, bit_and, bit_or, Bool, true, false, not, ltb, ◌==◌, if◌then◌else◌,
  Outcome, ok, panicked, undefined, M, lift, pure, ◌>>=◌, ◌>>◌,
}
use xemu.Word.{bit}
use xemu.Csr.{CsrOp, csr_read, csr_update}
use xemu.Csr
use xemu.Csr.Number
use xemu.Csr.Cause
use xemu.Interrupt.{IntrType, no_intr, external, intr_bit_flag, intr_cause, intr_next_priv}
use xemu.Trap.{trap_enter, raise_except}
use xemu.Space.{no_params}
use xemu.Bus.{Bus}
use xemu.Machine.{Machine, in_csrs, in_dev, get, set_pc}
use xemu.Mmu.{as_read}
use xemu.Decode.{Decode, decode}
use xemu.Execute.{execute}
use xemu.Execute.Locals.{Args}

-- A branch of `handle_interrupt`: the status register with its enable bit, the mask, and the
-- pending register.
unfoldable pub take_if_enabled : {S : Type 0} → ℕ → ℕ → ℕ → ℕ → ℕ → ℕ → IntrType → M (Machine S) ℕ
take_if_enabled status pos enable pend mode pc type = do
  (st, e) ← in_csrs (csr_read status false)
  if bit_and st (2 ^ pos) == 0 then pure 0 else do
    (mask, e) ← in_csrs (csr_read enable e)
    flag ← lift (intr_bit_flag type mode)
    if bit_and mask flag == 0 then pure 0 else do
      (_, _) ← in_csrs (csr_update pend flag CsrOp.set e)
      cause ← lift (intr_cause type mode)
      in_csrs (trap_enter pc mode cause 0)

unfoldable pub handle_type : {S : Type 0} → ℕ → IntrType → M (Machine S) ℕ
unfolding take_if_enabled
handle_type pc no_intr = pure 0
handle_type pc type = do
  s ← get
  next_priv ← in_csrs (intr_next_priv type s.csrs.priv)
  if next_priv == Cause.s_mode
      then take_if_enabled Number.sstatus Cause.sie_pos Number.sie Number.sip Cause.s_mode pc type
      else take_if_enabled Number.mstatus Cause.mie_pos Number.mie Number.mip Cause.m_mode pc type

module _ {S : Type 0} (bus : Bus S) where
  -- `type` of `handle_interrupt`.
  unfoldable pub source : M (Machine S) IntrType
  source = do
    s ← get
    eid ← in_dev (bus.plic_interrupt s.csrs)
    s' ← get
    pure (if eid == 0 then bus.clint_interrupt s'.dev else external)

  unfoldable pub handle_interrupt : ℕ → M (Machine S) ℕ
  handle_interrupt pc = do type ← source; handle_type pc type

  -- The result is the address to go on at, 0 for an instruction, and the instruction.
  page_fault : ℕ → ℕ → M (Machine S) (ℕ × ℕ)
  page_fault pc tval = do
    target ← in_csrs (raise_except pc Cause.inst_page_fault tval)
    pure (target, 0)

  -- At the last two bytes of a page each half is read by itself.
  fetch_halves : ℕ → M (Machine S) (ℕ × ℕ)
  unfolding page_fault
  fetch_halves pc = do
    (lo, raised) ← as_read bus pc 2 no_params
    if raised then page_fault pc pc else do
      (hi, raised) ← as_read bus ((pc + 2) % 2 ^ 64) 2 no_params
      if raised
          then page_fault pc ((pc + 2) % 2 ^ 64)
          else pure (0, bit_or (hi % 2 ^ 32 * 2 ^ 16 % 2 ^ 32) (lo % 2 ^ 32))

  unfoldable pub fetch : M (Machine S) (ℕ × ℕ)
  unfolding page_fault fetch_halves
  fetch = do
    s ← get
    if bit_and ((s.pc + 2) % 2 ^ 64) (4096 - 1) == 0 then fetch_halves s.pc else do
      (v, raised) ← as_read bus s.pc 4 no_params
      if raised then page_fault s.pc s.pc else pure (0, v % 2 ^ 32)

  args_of : Decode → ℕ → Args
  args_of d pc = record {
    pc = pc;
    next_pc = d.next_pc;
    rd = d.fields.rd;
    rs1 = d.fields.rs1;
    rs2 = d.fields.rs2;
    imm = d.fields.imm;
    csr_addr = d.fields.csr_addr;
  }

  -- Decoding and executing: the address of the next instruction.
  unfoldable pub run_inst : ℕ → M (Machine S) ℕ
  unfolding args_of
  run_inst inst = do s ← get; d ← lift (decode s.pc inst); execute bus d.fields.op (args_of d s.pc)

  -- One round of `while (1)`.
  unfoldable pub round : M (Machine S) (Unit {0})
  round = do
    s ← get
    if ltb s.pc 0x1000 then lift panicked else do
      next ← handle_interrupt s.pc
      if not (next == 0) then set_pc next else do
        (trapped, inst) ← fetch
        if not (trapped == 0) then set_pc trapped else do target ← run_inst inst; set_pc target
