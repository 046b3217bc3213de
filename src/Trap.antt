-- ===== src/Trap.antt =====
-- trap.c and trap.h: entering and leaving a trap handler.
pub mod Entry
pub mod Return
use xemu.Base.{
  ℕ, ◌+◌, ◌^◌, bit_and, Bool, false, ◌==◌, ltb, if◌then◌else◌, Outcome, ok, panicked, undefined, M,
  lift, pure, ◌>>=◌, ◌>>◌,
}
use xemu.Word.{bit, bits, set_bit, set_bits}
use xemu.Op.{Op}
use xemu.Op
use xemu.Csr.{CsrFile, CsrOp, switch_to, csr_read, csr_update}
use xemu.Csr
use xemu.Csr.Number
use xemu.Csr.Cause

get_priv : M CsrFile ℕ
get_priv c = ok (c.priv, c)

-- The branches of `trap_enter`. Each call gets the value that `has_except` has there.
unfoldable pub enter_s : ℕ → ℕ → ℕ → M CsrFile ℕ
unfolding get_priv
enter_s pc cause tval = do
  mode ← get_priv
  let mode_bit = if mode == Cause.u_mode then 0 else 1
  (sstatus, e) ← csr_read Number.sstatus false
  let entered = set_bit sstatus Cause.spp_pos mode_bit
  switch_to Cause.s_mode
  (_, e) ← csr_update Number.scause cause CsrOp.write e
  (_, e) ← csr_update Number.stval tval CsrOp.write e
  let saved = set_bit entered Cause.spie_pos (bit entered Cause.sie_pos)
  (_, e) ← csr_update Number.sstatus (set_bit saved Cause.sie_pos 0) CsrOp.write e
  (_, e) ← csr_update Number.sepc pc CsrOp.write e
  (target, _) ← csr_read Number.stvec e
  pure target

unfoldable pub enter_m : ℕ → ℕ → ℕ → M CsrFile ℕ
unfolding get_priv
enter_m pc cause tval = do
  mode ← get_priv
  (mstatus, e) ← csr_read Number.mstatus false
  let entered = set_bits mstatus 12 11 mode
  switch_to Cause.m_mode
  (_, e) ← csr_update Number.mcause cause CsrOp.write e
  (_, e) ← csr_update Number.mtval tval CsrOp.write e
  let saved = set_bit entered Cause.mpie_pos (bit entered Cause.mie_pos)
  (_, e) ← csr_update Number.mstatus (set_bit saved Cause.mie_pos 0) CsrOp.write e
  (_, e) ← csr_update Number.mepc pc CsrOp.write e
  (target, _) ← csr_read Number.mtvec e
  pure target

unfoldable pub trap_enter : ℕ → ℕ → ℕ → ℕ → M CsrFile ℕ
trap_enter pc next_priv cause tval =
    if next_priv == Cause.s_mode then enter_s pc cause tval else enter_m pc cause tval

-- The cases of `trap_exit`.
unfoldable pub exit_s : M CsrFile ℕ
exit_s = do
  (sstatus, e) ← csr_read Number.sstatus false
  switch_to (if bit sstatus Cause.spp_pos == 0 then Cause.u_mode else Cause.s_mode)
  (_, e) ←
      csr_update Number.sstatus (set_bit sstatus Cause.sie_pos (bit sstatus Cause.spie_pos))
        CsrOp.write e
  (target, _) ← csr_read Number.sepc e
  pure target

unfoldable pub exit_m : M CsrFile ℕ
exit_m = do
  (mstatus, e) ← csr_read Number.mstatus false
  switch_to (bits mstatus 12 11)
  (_, e) ←
      csr_update Number.mstatus (set_bit mstatus Cause.mie_pos (bit mstatus Cause.mpie_pos))
        CsrOp.write e
  (target, _) ← csr_read Number.mepc e
  pure target

unfoldable pub trap_exit : Op → M CsrFile ℕ
trap_exit Op.sret = exit_s
trap_exit Op.mret = exit_m
trap_exit _ = lift panicked

-- `except_next_priv`, with `except_bit_flag`: a shift of an `unsigned` by 32 or more is undefined.
unfoldable pub except_next_priv : ℕ → ℕ → M CsrFile ℕ
except_next_priv cause mode = if mode == Cause.m_mode then pure Cause.m_mode else do
  (medeleg, _) ← csr_read Number.medeleg false
  flag ← lift (if ltb cause 32 then ok (2 ^ cause) else undefined)
  if bit_and medeleg flag == 0 then pure Cause.m_mode else pure Cause.s_mode

unfoldable pub raise_except : ℕ → ℕ → ℕ → M CsrFile ℕ
unfolding get_priv
raise_except pc cause tval = do
  mode ← get_priv
  next_priv ← except_next_priv cause mode
  trap_enter pc next_priv cause tval
