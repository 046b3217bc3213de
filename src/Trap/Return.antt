-- ===== src/Trap/Return.antt =====
-- `SRET` and `MRET` undo the entry into a trap handler.
use xemu.Base.{update, ℕ, ◌<◌, ◌≤◌, ◌^◌, ◌==◌, if◌then◌else◌, ◌≡◌, refl, arith, ok, ◌>>=◌}
use xemu.Word.{bit, bits, set_bit}
use xemu.Word.Bits.{test, test-lt, test-div}
use xemu.Word.Fields.{bit-test}
use xemu.Word.Set.{set_bit-lt, set_bits-lt, test-set_bit, bits_mpp}
use xemu.Op
use xemu.Csr.{CsrFile, switch_to, csr_read, csr_update, kind, is_stored}
use xemu.Csr.Number
use xemu.Csr.Cause
use xemu.Trap.{trap_enter, trap_exit, exit_s, exit_m}
use xemu.Trap.Entry.{
  mode_bit, sstatus_entered, mstatus_entered, entered_s, entered_m, enter_s_lem, enter_m_lem,
  test-sstatus_entered, test-mstatus_entered,
}

abbrev exited_s : CsrFile → CsrFile
exited_s c = record c {
  priv = if bit (c.csr Number.sstatus) Cause.spp_pos == 0 then Cause.u_mode else Cause.s_mode;
  csr =
      update c.csr Number.sstatus
        (set_bit (c.csr Number.sstatus) Cause.sie_pos (bit (c.csr Number.sstatus) Cause.spie_pos));
}

abbrev exited_m : CsrFile → CsrFile
exited_m c = record c {
  priv = bits (c.csr Number.mstatus) 12 11;
  csr =
      update c.csr Number.mstatus
        (set_bit (c.csr Number.mstatus) Cause.mie_pos (bit (c.csr Number.mstatus) Cause.mpie_pos));
}

exit_s_lem : (c : CsrFile) → trap_exit Op.sret c ≡ ok (c.csr Number.sepc, exited_s c)
unfolding trap_exit exit_s csr_read csr_update kind is_stored switch_to
exit_s_lem c = refl

exit_m_lem : (c : CsrFile) → trap_exit Op.mret c ≡ ok (c.csr Number.mepc, exited_m c)
unfolding trap_exit exit_m csr_read csr_update kind is_stored switch_to
exit_m_lem c = refl

sstatus_entered-lt : (s mode : ℕ) → s < 2 ^ 64 → sstatus_entered s mode < 2 ^ 64
sstatus_entered-lt s mode h = set_bit-lt _ 1 0 (set_bit-lt _ 5 _ (set_bit-lt s 8 (mode_bit mode) h))

mstatus_entered-lt : (s mode : ℕ) → s < 2 ^ 64 → mstatus_entered s mode < 2 ^ 64
mstatus_entered-lt s mode h = set_bit-lt _ 3 0 (set_bit-lt _ 7 _ (set_bits-lt s 12 11 mode h))

-- A handler in S mode that returns at once, after a trap from U or S mode: `SRET` goes back to the
-- instruction that trapped, in the mode it had, with SIE as it was, and the other bits of sstatus
-- but SPIE and SPP as they were.
pub sret-trap_enter :
    (pc cause tval j : ℕ) (c : CsrFile)
    → c.priv ≤ 1
    → c.csr Number.sstatus < 2 ^ 64
    → j < 64
    → (c' : CsrFile) × ((trap_enter pc Cause.s_mode cause tval >>= λ _. trap_exit Op.sret) c
        ≡ ok (pc, c'))
      × (c'.priv ≡ c.priv)
      × (test (c'.csr Number.sstatus) j ≡ (
          if j == 5
          then test (c.csr Number.sstatus) 1
          else if j == 8
          then c.priv
          else test (c.csr Number.sstatus) j))
sret-trap_enter pc cause tval j c hp fits hj =
    let s = c.csr Number.sstatus in
    let e = sstatus_entered s c.priv in
    (
      exited_s (entered_s pc cause tval c),
      unfold trap_enter in
          rw (enter_s_lem pc cause tval c, ◌>>=◌) (exit_s_lem (entered_s pc cause tval c)),
      ground (arith, bit-test e 8, test-sstatus_entered s c.priv 8 fits (omega arith)),
      ground (
        arith,
        bit-test e 5,
        test-set_bit e 1 (bit e 5) j (omega (arith, bit-test e 5, test-lt e 5)) hj,
        test-sstatus_entered s c.priv 5 fits (omega arith),
        test-sstatus_entered s c.priv j fits hj,
      ),
    )

-- The same for a handler in M mode, after a trap from any of the four modes: `MRET` goes back to
-- the instruction, the mode and the MIE that the trap found, and keeps the other bits of mstatus
-- but MPIE and MPP.
pub mret-trap_enter :
    (pc cause tval j : ℕ) (c : CsrFile)
    → c.priv < 4
    → c.csr Number.mstatus < 2 ^ 64
    → j < 64
    → (c' : CsrFile) × ((trap_enter pc Cause.m_mode cause tval >>= λ _. trap_exit Op.mret) c
        ≡ ok (pc, c'))
      × (c'.priv ≡ c.priv)
      × (test (c'.csr Number.mstatus) j ≡ (
          if j == 7
          then test (c.csr Number.mstatus) 3
          else if j == 11
          then test c.priv 0
          else if j == 12
          then test c.priv 1
          else test (c.csr Number.mstatus) j))
mret-trap_enter pc cause tval j c hp fits hj =
    let s = c.csr Number.mstatus in
    let e = mstatus_entered s c.priv in
    (
      exited_m (entered_m pc cause tval c),
      unfold trap_enter in
          rw (enter_m_lem pc cause tval c, ◌>>=◌) (exit_m_lem (entered_m pc cause tval c)),
      ground (
        arith,
        bits_mpp e,
        test-mstatus_entered s c.priv 11 fits (omega arith) hp,
        test-mstatus_entered s c.priv 12 fits (omega arith) hp,
        test-div c.priv 0,
        test-div c.priv 1,
      ),
      ground (
        arith,
        bit-test e 7,
        test-set_bit e 3 (bit e 7) j (omega (arith, bit-test e 7, test-lt e 7)) hj,
        test-mstatus_entered s c.priv 7 fits (omega arith) hp,
        test-mstatus_entered s c.priv j fits hj hp,
      ),
    )
