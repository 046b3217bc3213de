-- ===== src/Uart/Receive.antt =====
-- What the driver gets from the serial port, and what goes out.
use xemu.Base.{
  ℕ, ◌%◌, ◌<◌, bit_and, bit_or, true, false, not, ◌==◌, ◌≡◌, ◌≢◌, refl, ap, ◌∙◌, arith, List, [],
  ◌∷◌, ok, M, pure, ◌>>=◌, >>=-ok, Returns,
}
use xemu.Space.{no_params}
use xemu.Word.Bits.{bit_and_digit, bit_or_digit}
use xemu.Word.Fields.{bit_and_mask}
use xemu.Plic.{Plic, plic_signal}
use xemu.Uart.{Port, has, signal, uart_read, uart_write, routine}

has-lowest : (x : ℕ) → has x 1 ≡ not (x % 2 == 0)
has-lowest x = ap (λ (y : ℕ). not (y == 0)) (bit_and_mask 1 x)

has-bit_or : (x : ℕ) → has (bit_or x 1) 1 ≡ true
has-bit_or x = has-lowest (bit_or x 1) ∙ ground (arith, bit_or_digit x 1)

has-bit_and : (x : ℕ) → has (bit_and x 0xEE) 1 ≡ false
has-bit_and x = has-lowest (bit_and x 0xEE) ∙ ground (arith, bit_and_digit x 0xEE)

-- The port after the thread got a byte with the receive interrupt enabled.
abbrev received : ℕ → Plic → Port → Port
received byte plic s = record s {
  uart = record s.uart { rbr = byte; lsr = bit_or s.uart.lsr 1; iir = 0x04 };
  plic = plic;
}

signal-wired :
    (ret : ℕ) (s : Port) (plic : Plic)
    → plic_signal s.uart.irq_num s.plic ≡ ok (tt, plic)
    → signal true ret s ≡ ok (ret, record s { plic = plic })
unfolding signal
signal-wired ret s plic wired = rw (signal, wired) refl

routine-received :
    (byte : ℕ) (s : Port) (plic : Plic)
    → byte < 256
    → byte ≢ 3
    → has s.uart.ier 0x01 ≡ true
    → plic_signal s.uart.irq_num s.plic ≡ ok (tt, plic)
    → routine byte s ≡ ok (true, received byte plic s)
unfolding routine
routine-received byte s plic bound no_break enabled wired =
    let cut : byte % 256 ≡ byte = omega (arith, bound) in
    let g1 : (byte == 3) ≡ false = ground (arith, no_break) in
    let v : Port = record s {
      uart = record s.uart { rbr = byte; lsr = bit_or s.uart.lsr 1; iir = 0x04 };
    } in
    rw (routine, cut, g1, enabled)
      (>>=-ok (signal true 0) (λ _. pure true) v (signal-wired 0 v plic wired) refl)

-- A byte other than Ctrl-C that the thread gets while the receive interrupt is enabled, the
-- transmitter's is not, and the interrupt controller takes the port's signal: the interrupt is
-- signalled, the status says that a byte is there, the identification is that of a received byte;
-- then the byte is read, and after it the status says that none is there.
pub uart_read-routine :
    (byte size : ℕ) (s : Port) (plic : Plic)
    → byte < 256
    → byte ≢ 3
    → has s.uart.ier 0x01 ≡ true
    → has s.uart.ier 0x02 ≡ false
    → plic_signal s.uart.irq_num s.plic ≡ ok (tt, plic)
    → Returns
        (λ (goes_on, t).
          (goes_on ≡ true)
          × (t.plic ≡ plic)
          × (t.uart.iir ≡ 0x04)
          × (has t.uart.lsr 1 ≡ true)
          × Returns
              (λ (b, u). (b ≡ byte) × (has u.uart.lsr 1 ≡ false) × (u.uart.iir ≡ 0x01))
              (uart_read 0 size no_params t))
        (routine byte s)
unfolding uart_read signal
uart_read-routine byte size s plic bound no_break enabled idle wired =
    rw (routine-received byte s plic bound no_break enabled wired) (
      refl,
      refl,
      refl,
      has-bit_or s.uart.lsr,
      rw (uart_read, signal, idle) (refl, has-bit_and (bit_or s.uart.lsr 1), rw idle refl),
    )

-- The driver writes the bytes to the transmitter, one after the other.
abbrev pub transmit : List ℕ → M Port (Unit {0})
transmit [] = pure tt
transmit (byte ∷ bytes) = do _ ← uart_write 0 byte 1 no_params; transmit bytes

abbrev pub sent : List ℕ → List ℕ → List ℕ
sent [] output = output
sent (byte ∷ bytes) output = sent bytes (byte % 256 ∷ output)

abbrev put_out : ℕ → Port → Port
put_out byte s = record s {
  uart = record s.uart { thr_pending = false };
  output = byte % 256 ∷ s.output;
}

uart_write-put_out :
    (byte : ℕ) (s : Port)
    → has s.uart.lcr 0x80 ≡ false
    → uart_write 0 byte 1 no_params s ≡ ok (0, put_out byte s)
unfolding uart_write
uart_write-put_out byte s closed = rw (uart_write, closed) refl

-- With the divisor latch closed the bytes go out in the order in which they are written, each cut to
-- eight bits, and nothing else does.
pub transmit_lem :
    (bytes : List ℕ) (s : Port)
    → has s.uart.lcr 0x80 ≡ false
    → Returns (λ (_, t). (t.output ≡ sent bytes s.output) × (t.plic ≡ s.plic)) (transmit bytes s)
transmit_lem [] s closed = (refl, refl)
transmit_lem (byte ∷ bytes) s closed =
    let first =
      >>=-ok (uart_write 0 byte 1 no_params) (λ _. transmit bytes) s
        (uart_write-put_out byte s closed) refl in
    rw first (transmit_lem bytes (put_out byte s) closed)
