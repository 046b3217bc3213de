-- ===== src/Tests/Traps.antt =====
-- Runs of the theorems on csr.c, trap.c and util.h.
use xemu.Base.{ℕ, true, false, ◌==◌, if◌then◌else◌, ◌≡◌, ◌⊎◌, ok, panicked, ◌>>=◌, arith}
use xemu.Word.Bits.{test}
use xemu.Op
use xemu.Csr.{CsrFile, CsrOp, csr_read, csr_update}
use xemu.Csr.Number
use xemu.Csr.Cause
use xemu.Csr.Laws.{Updated, csr_read-csr_update}
use xemu.Trap.{trap_enter, trap_exit}
use xemu.Trap.Entry.{trap_enter_to_s}
use xemu.Trap.Return.{sret-trap_enter, mret-trap_enter}

-- A user program with the supervisor's interrupts enabled, and handlers at 0x2000 and 0x3000.
abbrev user : CsrFile
user = record {
  priv = 0;
  csr = λ a.
      if a == Number.sstatus
      then 2
      else if a == Number.mstatus
      then 8
      else if a == Number.stvec
      then 0x2000
      else if a == Number.mtvec
      then 0x3000
      else 0;
  rtc = 5;
  ticks = 7;
}

csr_read-csr_update_example :
    ((csr_read Number.stvec false user ≡ panicked)
      × (csr_update Number.stvec 0x6000 CsrOp.clear false user ≡ panicked))
    ⊎ (((csr_read Number.stvec false user ≡ ok ((0, true), user))
          × (csr_update Number.stvec 0x6000 CsrOp.clear false user ≡ ok ((0, true), user)))
        ⊎ ((v : ℕ) × (c' : CsrFile) × (csr_read Number.stvec false user ≡ ok ((v, false), user))
            × Updated Number.stvec Number.stvec 13 v 0x6000 CsrOp.clear user c'))
csr_read-csr_update_example =
    csr_read-csr_update Number.stvec Number.stvec 13 0x6000 CsrOp.clear user (omega arith)
      (omega arith)

trap_enter_to_s_example :
    (c' : CsrFile) × (trap_enter 0x1234 Cause.s_mode 8 0 user ≡ ok (0x2000, c'))
    × (c'.priv ≡ 1)
    × (test (c'.csr Number.sstatus) 5 ≡ 1)
    × (c'.csr Number.sepc ≡ 0x1234)
unfolding test
trap_enter_to_s_example = trap_enter_to_s 0x1234 8 0 Number.sepc 5 user (omega arith) (omega arith)

sret-trap_enter_example :
    (c' : CsrFile) × ((trap_enter 0x1234 Cause.s_mode 8 0 >>= λ _. trap_exit Op.sret) user
      ≡ ok (0x1234, c'))
    × (c'.priv ≡ 0)
    × (test (c'.csr Number.sstatus) 1 ≡ 1)
unfolding test
sret-trap_enter_example =
    sret-trap_enter 0x1234 8 0 1 user (omega arith) (omega arith) (omega arith)

mret-trap_enter_example :
    (c' : CsrFile) × ((trap_enter 0x1234 Cause.m_mode 8 0 >>= λ _. trap_exit Op.mret) user
      ≡ ok (0x1234, c'))
    × (c'.priv ≡ 0)
    × (test (c'.csr Number.mstatus) 3 ≡ 1)
unfolding test
mret-trap_enter_example =
    mret-trap_enter 0x1234 8 0 3 user (omega arith) (omega arith) (omega arith)
