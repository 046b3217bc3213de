-- ===== src/Decode.antt =====
-- decode.c and decode.h: the fields of an instruction, and the choice between the two decoders.
pub mod Fields
pub mod Imm32
pub mod Dec32
pub mod Imm16
pub mod Dec16
pub mod Bounds
pub mod Bounds16
pub mod Total
pub mod Encode
pub mod RoundTrip
use xemu.Base.{
  ℕ, ◌+◌, ◌%◌, ◌^◌, Bool, ◌==◌, bit_and, if◌then◌else◌, Outcome, ok, panicked, undefined,
}
use Fields.{Decoded}
use Dec32.{dec32}
use Dec16.{dec16}

-- What `decode` writes through its pointers, and the address of the next instruction, which it
-- returns. The addition is of uint64_t.
pub record Decode : Type 0 where
  pub fields : Decoded
  pub next_pc : ℕ

abbrev with_next : ℕ → Outcome Decoded → Outcome Decode
with_next next (ok d) = ok (record { fields = d; next_pc = next })
with_next next panicked = panicked
with_next next undefined = undefined

unfoldable pub decode : ℕ → ℕ → Outcome Decode
decode pc inst =
    if bit_and inst 0x3 == 0x3
    then with_next ((pc + 4) % 2 ^ 64) (dec32 inst)
    else with_next ((pc + 2) % 2 ^ 64) (dec16 (bit_and inst 0xffff))
