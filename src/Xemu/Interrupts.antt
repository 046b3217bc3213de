-- ===== src/Xemu/Interrupts.antt =====
-- handle_interrupt of trap.c: when an interrupt is taken, and what the machine is then.
use xemu.Base.{
  ◌+◌, ◌<◌, ◌⊎◌, ◌≢◌, ◌&&◌, arith, >>=-ok, ℕ, ◌^◌, ◌≡◌, refl, ◌∙◌, ◌==◌, if◌then◌else◌, ok, update,
  bit_or,
}
use xemu.Csr.{CsrFile}
use xemu.Csr.Number
use xemu.Csr.Cause
use xemu.Word.Bits.{test}
use xemu.Trap.{trap_enter}
use xemu.Trap.Entry.{
  mode_bit, entered_s, entered_m, enter_s_lem, enter_m_lem, test-sstatus_entered,
  test-mstatus_entered,
}
use xemu.Bus.{Bus}
use xemu.Interrupt.{IntrType, no_intr}
use xemu.Machine.{Machine}
use xemu.Xemu.{handle_type, source, handle_interrupt}
use xemu.Xemu.Branches.{
  s_code, m_code, next_priv-s, next_priv-m, handle_type-s, handle_type-m, s_cause, m_cause, taken,
  raised_bit, IsStored-s, IsStored-m,
}

module _ {S : Type 0} (bus : Bus S) (pc a j : ℕ) (type : IntrType) (s u : Machine S)
    (raised : source bus s ≡ ok (type, u)) (some : type ≢ no_intr) (hj : j < 64) where
  -- An interrupt, from whichever source, that is found outside M mode while its bit of mideleg is
  -- set, with an sstatus of 64 bits. If sstatus.SIE and the bit of sie for it are set, where software
  -- interrupts have bit 1, those of the timer bit 5, and external ones bit 9: handle_interrupt returns
  -- stvec, in S mode, and that bit of sip is set; sepc holds the address of the instruction, scause the
  -- number of the bit, with bit 63 set, and stval 0; in sstatus SIE is 0, SPIE is the old SIE, SPP says
  -- whether the mode was U; and every other bit and register is as before. Else it returns 0, and
  -- nothing changes.
  pub handle_interrupt-delegated :
      u.csrs.priv ≢ Cause.m_mode
      → test (u.csrs.csr Number.mideleg) (s_code type) ≡ 1
      → u.csrs.csr Number.sstatus < 2 ^ 64
      → (c' : CsrFile) × (handle_interrupt bus pc s ≡ (
          if test (u.csrs.csr Number.sstatus) 1 == 1
            && test (u.csrs.csr Number.sie) (s_code type) == 1
          then ok (u.csrs.csr Number.stvec, record u { csrs = c' })
          else ok (0, u)))
        × (c'.priv ≡ Cause.s_mode)
        × (test (c'.csr Number.sip) j
            ≡ (if j == s_code type then 1 else test (u.csrs.csr Number.sip) j))
        × (test (c'.csr Number.sstatus) j ≡ (
            if j == 1
            then 0
            else if j == 5
            then test (u.csrs.csr Number.sstatus) 1
            else if j == 8
            then mode_bit u.csrs.priv
            else test (u.csrs.csr Number.sstatus) j))
        × (c'.csr a ≡ (
            if a == Number.sepc
            then pc
            else if a == Number.scause
            then 2 ^ 63 + s_code type
            else if a == Number.stval
            then 0
            else if a == Number.sstatus
            then c'.csr Number.sstatus
            else if a == Number.sip
            then c'.csr Number.sip
            else u.csrs.csr a))
  unfolding handle_interrupt
  handle_interrupt-delegated away set fits =
      let code = s_code type in
      let (cause, low) = s_cause type some in
      let c : CsrFile = record (u.csrs) {
        csr = update (u.csrs.csr) Number.sip (bit_or (u.csrs.csr Number.sip) (2 ^ code));
      } in
      (
        entered_s pc (2 ^ 63 + code) 0 c,
        >>=-ok (source bus) (handle_type pc) s raised (
            handle_type-s type pc u some (next_priv-s type (u.csrs) some away set)
            ∙ taken u Number.sstatus 1 Number.sie Number.sip Cause.s_mode pc code
                (u.csrs.csr Number.stvec) type (entered_s pc (2 ^ 63 + code) 0 c) (IsStored-s.0)
                (IsStored-s.1) (IsStored-s.2) cause low
                (unfold trap_enter in enter_s_lem pc (2 ^ 63 + code) 0 c)),
        refl,
        raised_bit (u.csrs.csr Number.sip) code j,
        test-sstatus_entered (u.csrs.csr Number.sstatus) u.csrs.priv j fits hj,
        ground arith,
      )

  -- An interrupt, from whichever source, that is found in M mode or while its bit of mideleg is 0,
  -- with a mode below 4 and an mstatus of 64 bits. If mstatus.MIE and the bit of mie for it are set,
  -- where software interrupts have bit 3, those of the timer bit 7, and external ones bit 11:
  -- handle_interrupt returns mtvec, in M mode, and that bit of mip is set; mepc holds the address of the
  -- instruction, mcause the number of the bit, with bit 63 set, and mtval 0; in mstatus MIE is 0, MPIE
  -- is the old MIE, the two bits of MPP are the old mode; and every other bit and register is as
  -- before. Else it returns 0, and nothing changes.
  pub handle_interrupt-machine :
      (u.csrs.priv ≡ Cause.m_mode) ⊎ (test (u.csrs.csr Number.mideleg) (s_code type) ≡ 0)
      → u.csrs.priv < 4
      → u.csrs.csr Number.mstatus < 2 ^ 64
      → (c' : CsrFile) × (handle_interrupt bus pc s ≡ (
          if test (u.csrs.csr Number.mstatus) 3 == 1
            && test (u.csrs.csr Number.mie) (m_code type) == 1
          then ok (u.csrs.csr Number.mtvec, record u { csrs = c' })
          else ok (0, u)))
        × (c'.priv ≡ Cause.m_mode)
        × (test (c'.csr Number.mip) j
            ≡ (if j == m_code type then 1 else test (u.csrs.csr Number.mip) j))
        × (test (c'.csr Number.mstatus) j ≡ (
            if j == 3
            then 0
            else if j == 7
            then test (u.csrs.csr Number.mstatus) 3
            else if j == 11
            then test u.csrs.priv 0
            else if j == 12
            then test u.csrs.priv 1
            else test (u.csrs.csr Number.mstatus) j))
        × (c'.csr a ≡ (
            if a == Number.mepc
            then pc
            else if a == Number.mcause
            then 2 ^ 63 + m_code type
            else if a == Number.mtval
            then 0
            else if a == Number.mstatus
            then c'.csr Number.mstatus
            else if a == Number.mip
            then c'.csr Number.mip
            else u.csrs.csr a))
  unfolding handle_interrupt
  handle_interrupt-machine here mode fits =
      let code = m_code type in
      let (cause, low) = m_cause type some in
      let c : CsrFile = record (u.csrs) {
        csr = update (u.csrs.csr) Number.mip (bit_or (u.csrs.csr Number.mip) (2 ^ code));
      } in
      (
        entered_m pc (2 ^ 63 + code) 0 c,
        >>=-ok (source bus) (handle_type pc) s raised (
            handle_type-m type pc u some (next_priv-m type (u.csrs) some here)
            ∙ taken u Number.mstatus 3 Number.mie Number.mip Cause.m_mode pc code
                (u.csrs.csr Number.mtvec) type (entered_m pc (2 ^ 63 + code) 0 c) (IsStored-m.0)
                (IsStored-m.1) (IsStored-m.2) cause low
                (unfold trap_enter in enter_m_lem pc (2 ^ 63 + code) 0 c)),
        refl,
        raised_bit (u.csrs.csr Number.mip) code j,
        test-mstatus_entered (u.csrs.csr Number.mstatus) u.csrs.priv j fits hj mode,
        ground arith,
      )
