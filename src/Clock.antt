-- ===== src/Clock.antt =====
-- The clock of util.c that the timer reads.
use xemu.Base.{ℕ, ◌+◌, ◌-◌, ◌*◌, ◌/◌, ◌%◌, ◌^◌, ◌<◌, ◌≤◌, ◌≡◌, arith}

-- `cpu_clock_offset`, as an unsigned number of 64 bits, and what `get_clock()` returns.
pub record Clock : Type 0 where
  pub cpu_clock_offset : ℕ
  pub host : ℕ

unfoldable pub cpu_enable_clock : Clock → Clock
cpu_enable_clock c = record c {
  cpu_clock_offset = (c.cpu_clock_offset + 2 ^ 64 - c.host % 2 ^ 64) % 2 ^ 64;
}

unfoldable pub cpu_get_clock : Clock → ℕ
cpu_get_clock c = (c.cpu_clock_offset + c.host) % 2 ^ 64

unfoldable pub muldiv64 : ℕ → ℕ → ℕ → ℕ
muldiv64 a b c = a * b / c % 2 ^ 64

unfoldable pub cpu_read_rtc : Clock → ℕ
unfolding cpu_get_clock muldiv64
cpu_read_rtc c = muldiv64 (cpu_get_clock c) 10000000 1000000000

-- The timer counts the tenths of a microsecond since the clock was enabled, with the host's clock in
-- nanoseconds.
pub cpu_read_rtc-cpu_enable_clock :
    (c : Clock) (later : ℕ)
    → c.cpu_clock_offset ≡ 0
    → c.host ≤ later
    → later < 2 ^ 64
    → cpu_read_rtc (record (cpu_enable_clock c) { host = later }) ≡ (later - c.host) / 100
unfolding cpu_read_rtc cpu_enable_clock cpu_get_clock muldiv64
cpu_read_rtc-cpu_enable_clock c later offset before bound = omega (arith, offset, before, bound)
