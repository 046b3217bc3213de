-- ===== src/Execute.antt =====
-- execute.c. The switch of `execute` is cut into seven groups; each hands the operations that are not
-- its own to the next, and the last one panics. The message that a write to CSR 0 prints is left
-- out.
pub mod Locals
pub mod Float
pub mod Arith
pub mod Atomic
pub mod MulDiv
pub mod Memory
pub mod System
pub mod Keeps
pub mod Zero
pub mod Products
pub mod Multiply
use xemu.Base.{
  ℕ, ◌+◌, ◌%◌, ◌^◌, Bool, true, false, ltb, ◌==◌, if◌then◌else◌, Option, none, some, undefined, M,
  lift, pure, ◌>>=◌, ◌>>◌,
}
use xemu.Op.{Op}
use xemu.Bus.{Bus}
use xemu.Machine.{Machine, set_reg, set_freg}
use Locals.{Args, Effect, Dest, int, float, outcome_of}
use Memory.{exec_control}

-- The end of `execute`: the destination register is written unless an exception was raised.
unfoldable pub write_back : {S : Type 0} → ℕ → Effect → M (Machine S) (Unit {0})
write_back rd e = if e.raised then pure tt else outcome_of rd e.dest

unfoldable pub execute : {S : Type 0} → Bus S → Op → Args → M (Machine S) ℕ
execute bus op args = do e ← exec_control bus op args; write_back args.rd e; pure e.ret_pc
