-- ===== src/Uart.antt =====
-- uart.c: the serial port. The thread `_routine` is a step of its own, for each byte that it gets.
pub mod Number
pub mod Receive
use xemu.Base.{
  ℕ, zero, suc, ◌+◌, ◌-◌, ◌*◌, ◌/◌, ◌%◌, ◌^◌, ◌<◌, bit_and, bit_or, bit_xor, Bool, true, false, not,
  ◌&&◌, ◌==◌, if◌then◌else◌, ◌≡◌, refl, ap, ◌∙◌, arith, List, [], ◌∷◌, ◌++◌, map, Outcome, ok,
  panicked, undefined, M, pure, ◌>>=◌, ◌>>◌, Returns,
}
use xemu.Space.{Params, no_params}
use xemu.Plic.{Plic, plic_signal}
use xemu.Uart.Number.{
  uart_rbr, uart_thr, uart_ier, uart_iir, uart_lcr, uart_mcr, uart_lsr, uart_msr, uart_scr,
  uart_lsr_temt, uart_lsr_thre, uart_lsr_bi, uart_lsr_dr, uart_lcr_dlab, uart_ier_msi,
  uart_ier_rlsi, uart_ier_thri, uart_ier_rdi, uart_iir_msi, uart_iir_thri, uart_iir_rdi,
  uart_iir_rlsi, uart_iir_no_int, uart_iir_id,
}

pub record Uart : Type 0 where
  pub irq_num : ℕ
  pub rbr : ℕ
  pub ier : ℕ
  pub iir : ℕ
  pub lcr : ℕ
  pub mcr : ℕ
  pub lsr : ℕ
  pub msr : ℕ
  pub scr : ℕ
  pub divider : ℕ
  pub thr_pending : Bool

-- The serial port with what it acts on: the interrupt controller, and the bytes that `putchar` was
-- given, the last one first.
pub record Port : Type 0 where
  pub uart : Uart
  pub plic : Plic
  pub output : List ℕ

-- `uart_init`.
unfoldable pub uart_init : ℕ → Uart
uart_init irq_num = record {
  irq_num = irq_num;
  rbr = 0;
  ier = 0;
  iir = 0;
  lcr = 0;
  mcr = 0;
  lsr = bit_or uart_lsr_thre uart_lsr_temt;
  msr = 0;
  scr = 0;
  divider = 0;
  thr_pending = false;
}

-- A test of a flag.
abbrev pub has : ℕ → ℕ → Bool
has x flag = not (bit_and x flag == 0)

-- `plic_signal(uart->irq_num)`, if `asked`.
unfoldable pub signal : Bool → ℕ → M Port ℕ
signal asked ret s = elim asked [
  | false ↦ ok (ret, s)
  | true ↦ elim (plic_signal s.uart.irq_num s.plic) [
    | ok (_, p) ↦ ok (ret, record s { plic = p })
    | panicked ↦ panicked
    | undefined ↦ undefined
  ]
]

-- A read of the receive buffer clears "data ready" and "break".
abbrev pub read_rbr : Uart → Uart
read_rbr u = record u {
  lsr = bit_and u.lsr (255 - bit_or uart_lsr_dr uart_lsr_bi);
  iir = if has u.ier uart_ier_thri then uart_iir_thri else uart_iir_no_int;
}

-- A read of the identification ends an interrupt of the transmitter.
abbrev pub read_iir : Uart → Uart
read_iir u =
    if bit_and u.iir uart_iir_id == uart_iir_thri
    then record u { thr_pending = false; iir = uart_iir_no_int }
    else u

unfoldable pub uart_read : ℕ → ℕ → Params → M Port ℕ
unfolding signal
uart_read addr size _ s =
    let u = s.uart in
    if addr == uart_rbr
    then signal (not ((read_rbr u).iir == uart_iir_no_int)) u.rbr (record s { uart = read_rbr u })
    else if addr == uart_ier
    then ok (u.ier, s)
    else if addr == uart_iir
    then ok (u.iir, record s { uart = read_iir u })
    else if addr == uart_lcr
    then ok (u.lcr, s)
    else if addr == uart_lsr
    then ok (u.lsr, s)
    else if addr == uart_msr
    then ok (u.msr, s)
    else if addr == uart_scr
    then ok (u.scr, s)
    else panicked

-- The interrupt that is reported after the enabled ones have changed.
unfoldable pub next_iir : Uart → ℕ
next_iir u =
    if has u.ier uart_ier_rlsi
    then uart_iir_rlsi
    else if has u.ier uart_ier_rdi && has u.lsr uart_lsr_dr
    then uart_iir_rdi
    else if has u.ier uart_ier_thri && u.thr_pending
    then uart_iir_thri
    else if has u.ier uart_ier_msi
    then uart_iir_msi
    else uart_iir_no_int

-- The write of IER without DLAB, for `uart->ier` set and its lower bits changed.
abbrev pub enabled : Uart → Uart
enabled u =
    let v = if has u.ier uart_ier_thri then record u { thr_pending = true } else u in
    record v { iir = next_iir v }

unfoldable pub write_ier : ℕ → M Port ℕ
unfolding signal next_iir
write_ier value s =
    let u = record s.uart { ier = value % 256 } in
    if has (bit_xor s.uart.ier value) 0x0f
    then signal (not ((enabled u).iir == uart_iir_no_int)) 0 (record s { uart = enabled u })
    else ok (0, record s { uart = u })

unfoldable pub uart_write : ℕ → ℕ → ℕ → Params → M Port ℕ
unfolding write_ier
uart_write addr value size _ s =
    let u = s.uart in
    let dlab = has u.lcr uart_lcr_dlab in
    if size == 1
    then if addr == uart_thr
      then (if dlab
          then ok
              (0, record s { uart = record u { divider = u.divider / 256 * 256 + value % 256 } })
          else ok (
            0,
            record s { uart = record u { thr_pending = false }; output = value % 256 ∷ s.output },
          ))
      else if addr == uart_ier
      then (if dlab
          then ok
              (0, record s { uart = record u { divider = value % 256 * 256 + u.divider % 256 } })
          else write_ier value s)
      else if addr == uart_iir
      then ok (0, record s { uart = record u { iir = value % 256 } })
      else if addr == uart_lcr
      then ok (0, record s { uart = record u { lcr = value % 256 } })
      else if addr == uart_mcr
      then ok (0, record s { uart = record u { mcr = value % 256 } })
      else if addr == uart_msr
      then ok (0, record s { uart = record u { msr = value % 256 } })
      else if addr == uart_scr
      then ok (0, record s { uart = record u { scr = value % 256 } })
      else panicked
    else panicked

-- A round of `_routine` with the byte that `getch` returns; true if the thread goes on.
unfoldable pub routine : ℕ → M Port Bool
unfolding signal
routine byte s =
    let u = record s.uart { rbr = byte % 256 } in
    let v = record u { lsr = bit_or u.lsr uart_lsr_dr } in
    if u.rbr == 3
    then ok (false, record s { uart = u })
    else if has u.ier uart_ier_rdi
    then (do _ ← signal true 0; pure true) (record s { uart = record v { iir = uart_iir_rdi } })
    else ok (true, record s { uart = v })
