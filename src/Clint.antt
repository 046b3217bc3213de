-- ===== src/Clint.antt =====
-- clint.c: the timer and the software interrupt. The thread `_routine` is a step of its own.
use xemu.Base.{
  ℕ, Bool, true, false, not, ltb, leb, ◌≡◌, arith, Returns, ◌==◌, if◌then◌else◌, ok, panicked, M,
  lift,
}
use xemu.Interrupt.{IntrType, no_intr, software, timer}
use xemu.Space.{Params, no_params}

-- `_software_intr`, `_timer_intr` and the fields of `clint_t`; `rtc` is what `cpu_read_rtc()`
-- returns, which the environment moves.
pub record Clint : Type 0 where
  pub software_intr : Bool
  pub timer_intr : Bool
  pub timer_running : Bool
  pub mtimecmp : ℕ
  pub rtc : ℕ

unfoldable pub clint_interrupt : Clint → IntrType
clint_interrupt c = if c.timer_intr then timer else if c.software_intr then software else no_intr

-- No register can be read.
unfoldable pub clint_read : ℕ → ℕ → Params → M Clint ℕ
clint_read addr size _ = lift panicked

unfoldable pub clint_write : ℕ → ℕ → ℕ → Params → M Clint ℕ
clint_write addr value size _ c =
    if addr == 0x0000
    then ok (0, record c { software_intr = not (value == 0) })
    else if addr == 0x4000
    then ok (
      0,
      (if ltb value c.rtc
          then record c { timer_intr = true; mtimecmp = value }
          else record c { timer_intr = false; timer_running = true; mtimecmp = value }),
    )
    else panicked

-- One round of `_routine`: it waits for `timer_running`, then until the time has come.
unfoldable pub routine : Clint → Clint
routine c =
    if c.timer_running
    then (if ltb c.rtc c.mtimecmp then c else record c { timer_intr = true; timer_running = false })
    else c

-- A new deadline: the timer interrupt is pending, now or after a round of `_routine`, exactly when
-- the deadline has passed; the software interrupt stays as it is. The time is fixed meanwhile.
pub routine-clint_write :
    (c : Clint) (deadline size : ℕ)
    → Returns
        (λ (_, c').
          ((routine c').timer_intr ≡ leb deadline c.rtc)
          × ((routine c').software_intr ≡ c.software_intr))
        (clint_write 0x4000 deadline size no_params c)
unfolding clint_write routine
routine-clint_write c deadline size = ground arith

-- A write of `msip` decides the software interrupt, and what is reported is the timer's interrupt,
-- if it is pending, else that one.
pub clint_interrupt-clint_write :
    (c : Clint) (value size : ℕ)
    → Returns
        (λ (_, c').
          clint_interrupt c'
          ≡ (if c.timer_intr then timer else if value == 0 then no_intr else software))
        (clint_write 0 value size no_params c)
unfolding clint_write clint_interrupt
clint_interrupt-clint_write c value size = ground arith
