-- ===== src/Execute/Memory.antt =====
-- Loads, stores, jumps and branches.
use xemu.Base.{ℕ, ◌+◌, ◌%◌, ◌^◌, Bool, not, ltb, leb, ◌==◌, if◌then◌else◌, none, some, M, ◌>>=◌}
use xemu.Base.Int.{signed, to_u64, ltb_ℤ}
use xemu.Op.{Op}
use xemu.Csr.Cause
use xemu.Space.{no_params}
use xemu.Bus.{Bus}
use xemu.Machine.{Machine, get}
use xemu.Mmu.{as_read, as_write}
use xemu.Execute.Locals.{Args, Effect, int, nothing, compute, jump, checked}
use xemu.Execute.Arith.{exec_arith}

abbrev address : {S : Type 0} → Args → Machine S → ℕ
address args s = (s.reg args.rs1 + args.imm) % 2 ^ 64

-- `(uint64_t)(int8_t) v` and its kin.
abbrev sext : ℕ → ℕ → ℕ
sext w v = to_u64 (signed w v)

abbrev zext : ℕ → ℕ → ℕ
zext w v = v % 2 ^ w

module _ {S : Type 0} (bus : Bus S) where
  unfoldable pub load : Args → ℕ → (ℕ → ℕ) → M (Machine S) Effect
  load args size extend = do
    s ← get
    (v, raised) ← as_read bus (address args s) size no_params
    checked args Cause.load_page_fault (address args s) (int (some (extend v))) raised

  unfoldable pub store : Args → ℕ → M (Machine S) Effect
  store args size = do
    s ← get
    (_, raised) ← as_write bus (address args s) size (s.reg args.rs2) no_params
    checked args Cause.store_page_fault (address args s) (int none) raised

  unfoldable pub exec_memory : Op → Args → M (Machine S) Effect
  exec_memory Op.lb args = load args 1 (sext 8)
  exec_memory Op.lh args = load args 2 (sext 16)
  exec_memory Op.lw args = load args 4 (sext 32)
  exec_memory Op.ld args = load args 8 (λ v. v)
  exec_memory Op.lbu args = load args 1 (zext 8)
  exec_memory Op.lhu args = load args 2 (zext 16)
  exec_memory Op.lwu args = load args 4 (zext 32)
  exec_memory Op.sb args = store args 1
  exec_memory Op.sh args = store args 2
  exec_memory Op.sw args = store args 4
  exec_memory Op.sd args = store args 8
  exec_memory op args = exec_arith bus op args

-- `if (taken) ret_pc = pc + imm;`
unfoldable pub branch : {S : Type 0} → Args → (ℕ → ℕ → Bool) → M (Machine S) Effect
branch args taken = do
  s ← get
  if taken (s.reg args.rs1) (s.reg args.rs2) then jump (args.pc + args.imm) none else nothing args

unfoldable pub exec_control : {S : Type 0} → Bus S → Op → Args → M (Machine S) Effect
exec_control bus Op.nop args = nothing args
exec_control bus Op.lui args = compute args (λ _ _. args.imm)
exec_control bus Op.auipc args = compute args (λ _ _. (args.pc + args.imm) % 2 ^ 64)
exec_control bus Op.jal args = jump (args.pc + args.imm) (some args.next_pc)
exec_control bus Op.jalr args = do s ← get; jump (s.reg args.rs1 + args.imm) (some args.next_pc)
exec_control bus Op.beq args = branch args (λ a b. a == b)
exec_control bus Op.bne args = branch args (λ a b. not (a == b))
exec_control bus Op.blt args = branch args (λ a b. ltb_ℤ (signed 64 a) (signed 64 b))
exec_control bus Op.bge args = branch args (λ a b. not (ltb_ℤ (signed 64 a) (signed 64 b)))
exec_control bus Op.bltu args = branch args ltb
exec_control bus Op.bgeu args = branch args (λ a b. leb b a)
exec_control bus op args = exec_memory bus op args
