-- ===== src/Trap/Entry.antt =====
-- What `trap_enter` does to the registers: where it goes, what it records, and each bit of the
-- status register.
use xemu.Base.{update, ℕ, ◌<◌, ◌^◌, ◌==◌, if◌then◌else◌, ◌≡◌, ◌≢◌, refl, arith, ok}
use xemu.Word.{bit, set_bit, set_bits}
use xemu.Word.Bits.{test, test-lt}
use xemu.Word.Fields.{bit-test}
use xemu.Word.Set.{test-set_bit, test-set_bits}
use xemu.Csr.{CsrFile, switch_to, csr_read, csr_update, kind, is_stored}
use xemu.Csr.Number
use xemu.Csr.Cause
use xemu.Trap.{enter_s, enter_m, trap_enter}

-- The bit of `SPP` for the mode that the trap came from.
abbrev pub mode_bit : ℕ → ℕ
mode_bit mode = if mode == Cause.u_mode then 0 else 1

-- The new value of sstatus and of mstatus.
abbrev pub sstatus_entered : ℕ → ℕ → ℕ
sstatus_entered s mode =
    let entered = set_bit s Cause.spp_pos (mode_bit mode) in
    set_bit (set_bit entered Cause.spie_pos (bit entered Cause.sie_pos)) Cause.sie_pos 0

abbrev pub mstatus_entered : ℕ → ℕ → ℕ
mstatus_entered s mode =
    let entered = set_bits s 12 11 mode in
    set_bit (set_bit entered Cause.mpie_pos (bit entered Cause.mie_pos)) Cause.mie_pos 0

module _ (s mode j : ℕ) (fits : s < 2 ^ 64) (hj : j < 64) where
  pub test-sstatus_entered : test (sstatus_entered s mode) j ≡ (
      if j == 1 then 0 else if j == 5 then test s 1 else if j == 8 then mode_bit mode else test s j)
  test-sstatus_entered =
      let e = set_bit s 8 (mode_bit mode) in
      ground (
        arith,
        test-set_bit (set_bit e 5 (bit e 1)) 1 0 j (omega arith) hj,
        test-set_bit e 5 (bit e 1) j (omega (arith, bit-test e 1, test-lt e 1)) hj,
        test-set_bit s 8 (mode_bit mode) j (ground arith) hj,
        test-set_bit s 8 (mode_bit mode) 1 (ground arith) (omega arith),
        bit-test e 1,
      )

  pub test-mstatus_entered :
      mode < 4
      → test (mstatus_entered s mode) j ≡ (
          if j == 3
          then 0
          else if j == 7
          then test s 3
          else if j == 11
          then test mode 0
          else if j == 12
          then test mode 1
          else test s j)
  test-mstatus_entered hm =
      let e = set_bits s 12 11 mode in
      ground (
        arith,
        test-set_bit (set_bit e 7 (bit e 3)) 3 0 j (omega arith) hj,
        test-set_bit e 7 (bit e 3) j (omega (arith, bit-test e 3, test-lt e 3)) hj,
        test-set_bits s 12 11 mode j (omega arith) hm hj,
        test-set_bits s 12 11 mode 3 (omega arith) hm (omega arith),
        bit-test e 3,
      )

abbrev pub entered_s : ℕ → ℕ → ℕ → CsrFile → CsrFile
entered_s pc cause tval c = record c {
  priv = Cause.s_mode;
  csr =
      update
        (update (update (update c.csr Number.scause cause) Number.stval tval) Number.sstatus
          (sstatus_entered (c.csr Number.sstatus) c.priv))
        Number.sepc pc;
}

abbrev pub entered_m : ℕ → ℕ → ℕ → CsrFile → CsrFile
entered_m pc cause tval c = record c {
  priv = Cause.m_mode;
  csr =
      update
        (update (update (update c.csr Number.mcause cause) Number.mtval tval) Number.mstatus
          (mstatus_entered (c.csr Number.mstatus) c.priv))
        Number.mepc pc;
}

pub enter_s_lem :
    (pc cause tval : ℕ) (c : CsrFile)
    → enter_s pc cause tval c ≡ ok (c.csr Number.stvec, entered_s pc cause tval c)
unfolding enter_s csr_read csr_update kind is_stored switch_to
enter_s_lem pc cause tval c = refl

pub enter_m_lem :
    (pc cause tval : ℕ) (c : CsrFile)
    → enter_m pc cause tval c ≡ ok (c.csr Number.mtvec, entered_m pc cause tval c)
unfolding enter_m csr_read csr_update kind is_stored switch_to
enter_m_lem pc cause tval c = refl

-- A trap that goes to S mode, from any mode and with an sstatus of 64 bits, continues at stvec in
-- S mode; scause, stval and sepc hold what was handed over; in sstatus bit SIE is 0, SPIE is the
-- old SIE, SPP says whether the mode was U, and every other bit is as before; every other
-- register is as before.
pub trap_enter_to_s :
    (pc cause tval a j : ℕ) (c : CsrFile)
    → c.csr Number.sstatus < 2 ^ 64
    → j < 64
    → (c' : CsrFile) × (trap_enter pc Cause.s_mode cause tval c ≡ ok (c.csr Number.stvec, c'))
      × (c'.priv ≡ Cause.s_mode)
      × (test (c'.csr Number.sstatus) j ≡ (
          if j == 1
          then 0
          else if j == 5
          then test (c.csr Number.sstatus) 1
          else if j == 8
          then mode_bit c.priv
          else test (c.csr Number.sstatus) j))
      × (c'.csr a ≡ (
          if a == Number.sepc
          then pc
          else if a == Number.scause
          then cause
          else if a == Number.stval
          then tval
          else if a == Number.sstatus
          then c'.csr Number.sstatus
          else c.csr a))
unfolding trap_enter
trap_enter_to_s pc cause tval a j c fits hj = (
  entered_s pc cause tval c,
  enter_s_lem pc cause tval c,
  refl,
  test-sstatus_entered (c.csr Number.sstatus) c.priv j fits hj,
  ground arith,
)

-- A trap that goes to M mode, from a mode below 4 and with an mstatus of 64 bits, continues at
-- mtvec in M mode; mcause, mtval and mepc hold what was handed over; in mstatus bit MIE is 0, MPIE
-- is the old MIE, the two bits of MPP are the old mode, and every other bit is as before; every
-- other register is as before.
pub trap_enter_to_m :
    (pc next_priv cause tval a j : ℕ) (c : CsrFile)
    → next_priv ≢ Cause.s_mode
    → c.csr Number.mstatus < 2 ^ 64
    → c.priv < 4
    → j < 64
    → (c' : CsrFile) × (trap_enter pc next_priv cause tval c ≡ ok (c.csr Number.mtvec, c'))
      × (c'.priv ≡ Cause.m_mode)
      × (test (c'.csr Number.mstatus) j ≡ (
          if j == 3
          then 0
          else if j == 7
          then test (c.csr Number.mstatus) 3
          else if j == 11
          then test c.priv 0
          else if j == 12
          then test c.priv 1
          else test (c.csr Number.mstatus) j))
      × (c'.csr a ≡ (
          if a == Number.mepc
          then pc
          else if a == Number.mcause
          then cause
          else if a == Number.mtval
          then tval
          else if a == Number.mstatus
          then c'.csr Number.mstatus
          else c.csr a))
trap_enter_to_m pc next_priv cause tval a j c away fits hm hj = (
  entered_m pc cause tval c,
  unfold trap_enter in ground (arith, enter_m_lem pc cause tval c),
  refl,
  test-mstatus_entered (c.csr Number.mstatus) c.priv j fits hj hm,
  ground arith,
)
