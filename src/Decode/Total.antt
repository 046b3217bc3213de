-- ===== src/Decode/Total.antt =====
-- What `decode` promises to `execute`.
use xemu.Base.{
  ℕ, ◌+◌, ◌%◌, ◌^◌, ◌≡◌, arith, bit_and, ◌==◌, if◌then◌else◌, Outcome, ok, panicked, undefined,
}
use xemu.Decode.{Decode, decode, with_next}
use xemu.Decode.Fields.{Decoded}
use xemu.Decode.Bounds.{InRange, dec32-InRange}
use xemu.Decode.Bounds16.{dec16-InRange}
use xemu.Decode.Dec32.{dec32}
use xemu.Decode.Dec16.{dec16}

with_next_lem :
    (next : ℕ) (r : Outcome Decoded) (d : Decode)
    → with_next next r ≡ ok d
    → (r ≡ ok d.fields) × (d.next_pc ≡ next)
with_next_lem next (ok x) d h = ground arith
with_next_lem next panicked d h = absurd (cc)
with_next_lem next undefined d h = absurd (cc)

-- An instruction that decodes has register numbers below 32, a CSR number below 4096 and an
-- immediate of 64 bits; the next instruction is two or four bytes on, four exactly if the two low
-- bits are set.
pub decode-InRange :
    (pc inst : ℕ) (d : Decode)
    → decode pc inst ≡ ok d
    → InRange d.fields
      × (d.next_pc ≡ (if bit_and inst 0x3 == 0x3 then (pc + 4) % 2 ^ 64 else (pc + 2) % 2 ^ 64))
unfolding decode
decode-InRange pc inst d h = ground (
  arith,
  with_next_lem ((pc + 4) % 2 ^ 64) (dec32 inst) d,
  with_next_lem ((pc + 2) % 2 ^ 64) (dec16 (bit_and inst 0xffff)) d,
  dec32-InRange inst d.fields,
  dec16-InRange (bit_and inst 0xffff) d.fields,
)
