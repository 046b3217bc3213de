-- ===== src/Rtc.antt =====
-- rtc.c: the real-time clock.
use xemu.Base.{
  ℕ, ◌+◌, ◌*◌, ◌/◌, ◌%◌, ◌^◌, ◌<◌, ◌==◌, if◌then◌else◌, ◌≡◌, arith, Returns, ok, panicked, M,
}
use xemu.Space.{Params, no_params}

-- `now` is what `get_clock_realtime()` returns, as an unsigned number; the environment moves it.
pub record Rtc : Type 0 where
  pub time_high : ℕ
  pub alarm_next : ℕ
  pub alarm_running : ℕ
  pub now : ℕ

unfoldable pub rtc_read : ℕ → ℕ → Params → M Rtc ℕ
rtc_read addr size _ r =
    if addr == 0x00
    then ok (r.now % 2 ^ 32, record r { time_high = r.now / 2 ^ 32 % 2 ^ 32 })
    else if addr == 0x04
    then ok (r.time_high, r)
    else if addr == 0x08
    then ok (r.alarm_next % 2 ^ 32, r)
    else if addr == 0x0c
    then ok (r.alarm_next / 2 ^ 32, r)
    else if addr == 0x18
    then ok (r.alarm_running, r)
    else panicked

unfoldable pub rtc_write : ℕ → ℕ → ℕ → Params → M Rtc ℕ
rtc_write addr value size _ r = panicked

-- The low half and then the high half of the time, read at whatever later time: together they are
-- the time of the first read, if that is below 2 ^ 64.
pub rtc_read-rtc_read :
    (r : Rtc) (later size : ℕ)
    → r.now < 2 ^ 64
    → Returns
        (λ (low, r').
          Returns
            (λ (high, _). high * 2 ^ 32 + low ≡ r.now)
            (rtc_read 0x04 size no_params (record r' { now = later })))
        (rtc_read 0x00 size no_params r)
unfolding rtc_read
rtc_read-rtc_read r later size h = omega (arith, h)
