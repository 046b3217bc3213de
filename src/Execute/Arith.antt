-- ===== src/Execute/Arith.antt =====
-- The integer instructions on registers. A sum of `int` that does not fit wraps around.
use xemu.Base.{
  ℕ, ◌+◌, ◌-◌, ◌*◌, ◌%◌, ◌^◌, bit_and, bit_or, bit_xor, ltb, if◌then◌else◌, Outcome, ok, undefined,
  M,
}
use xemu.Base.Int.{signed, to_u64, sra, ltb_ℤ, ◌+ℤ◌, ◌-ℤ◌}
use xemu.Word.{to_word, bits, ◌<<<◌, ◌>>>◌}
use xemu.Op.{Op}
use xemu.Bus.{Bus}
use xemu.Machine.{Machine}
use xemu.Execute.Locals.{Args, Effect, compute, try_compute}
use xemu.Execute.System.{exec_system}

unfoldable pub add : ℕ → ℕ → ℕ
add a b = (a + b) % 2 ^ 64

unfoldable pub sub : ℕ → ℕ → ℕ
sub a b = (a + 2 ^ 64 - b) % 2 ^ 64

unfoldable pub slt : ℕ → ℕ → ℕ
slt a b = if ltb_ℤ (signed 64 a) (signed 64 b) then 1 else 0

unfoldable pub sltu : ℕ → ℕ → ℕ
sltu a b = if ltb a b then 1 else 0

-- `TO_WORD((int32_t) a + (int32_t) b)`, and the difference.
unfoldable pub addw : ℕ → ℕ → ℕ
addw a b = to_word (to_u64 (signed 32 (to_u64 (signed 32 a +ℤ signed 32 b))))

unfoldable pub subw : ℕ → ℕ → ℕ
subw a b = to_word (to_u64 (signed 32 (to_u64 (signed 32 a -ℤ signed 32 b))))

-- The shifts by an amount `k`; the word shifts of a `uint32_t`.
unfoldable pub sllw : ℕ → ℕ → ℕ
sllw a k = to_word (a % 2 ^ 32 * 2 ^ k % 2 ^ 32)

unfoldable pub srlw : ℕ → ℕ → ℕ
srlw a k = to_word ((a % 2 ^ 32) >>> k)

unfoldable pub sra64 : ℕ → ℕ → ℕ
sra64 a k = to_u64 (sra (signed 64 a) k)

-- `((int32_t) a) >> k`: a shift of an `int` by 32 or more is undefined.
unfoldable pub sraw : ℕ → ℕ → Outcome ℕ
sraw a k = if ltb k 32 then ok (to_u64 (sra (signed 32 a) k)) else undefined

unfoldable pub exec_arith : {S : Type 0} → Bus S → Op → Args → M (Machine S) Effect
exec_arith bus Op.addi args = compute args (λ a _. add a args.imm)
exec_arith bus Op.addiw args = compute args (λ a _. addw a args.imm)
exec_arith bus Op.add args = compute args add
exec_arith bus Op.slt args = compute args slt
exec_arith bus Op.sltu args = compute args sltu
exec_arith bus Op.addw args = compute args addw
exec_arith bus Op.slti args = compute args (λ a _. slt a args.imm)
exec_arith bus Op.sltiu args = compute args (λ a _. sltu a args.imm)
exec_arith bus Op.sub args = compute args sub
exec_arith bus Op.subw args = compute args subw
exec_arith bus Op.slli args = compute args (λ a _. a <<< bits args.imm 5 0)
exec_arith bus Op.slliw args = compute args (λ a _. sllw a (bits args.imm 4 0))
exec_arith bus Op.sll args = compute args (λ a b. a <<< bits b 5 0)
exec_arith bus Op.sllw args = compute args (λ a b. sllw a (bits b 4 0))
exec_arith bus Op.xori args = compute args (λ a _. bit_xor a args.imm)
exec_arith bus Op.xor args = compute args bit_xor
exec_arith bus Op.srli args = compute args (λ a _. a >>> bits args.imm 5 0)
exec_arith bus Op.srliw args = compute args (λ a _. srlw a (bits args.imm 4 0))
exec_arith bus Op.srl args = compute args (λ a b. a >>> bits b 5 0)
exec_arith bus Op.srlw args = compute args (λ a b. srlw a (bits b 4 0))
exec_arith bus Op.srai args = compute args (λ a _. sra64 a (bits args.imm 5 0))
exec_arith bus Op.sraiw args = try_compute args (λ a _. sraw a (bits args.imm 5 0))
exec_arith bus Op.sra args = compute args (λ a b. sra64 a (bits b 5 0))
exec_arith bus Op.sraw args = try_compute args (λ a b. sraw a (bits b 5 0))
exec_arith bus Op.ori args = compute args (λ a _. bit_or a args.imm)
exec_arith bus Op.or args = compute args bit_or
exec_arith bus Op.andi args = compute args (λ a _. bit_and a args.imm)
exec_arith bus Op.and args = compute args bit_and
exec_arith bus op args = exec_system bus op args
