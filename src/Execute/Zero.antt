-- ===== src/Execute/Zero.antt =====
-- The destination of an instruction.
use xemu.Base.{ℕ, ◌≡◌, arith, ok, >>=-eq-ok, ◌⊎◌}
use xemu.Op.{Op}
use xemu.Bus.{Bus}
use xemu.Machine.{Machine}
use xemu.Execute.{execute, write_back}
use xemu.Execute.Locals.{Args, Effect, outcome_of}
use xemu.Execute.Keeps.{exec_control-Keeps}
use xemu.Execute.Memory.{exec_control}

module _ {S : Type 0} where
  write_back_lem :
      (rd : ℕ) (e : Effect) (j : ℕ) (s s' : Machine S) (u : Unit {0})
      → write_back rd e s ≡ ok (u, s')
      → (s'.reg 0 ≡ s.reg 0) × (s'.pc ≡ s.pc) × ((j ≡ rd) ⊎ (s'.reg j ≡ s.reg j))
  unfolding write_back outcome_of
  write_back_lem rd e j s s' u h = ground arith

-- An instruction of any kind that ends, with whatever fields, leaves x0 and the program counter,
-- and changes no register but its destination.
pub execute_registers :
    {S : Type 0} (bus : Bus S) (o : Op) (args : Args) (j target : ℕ) (s s' : Machine S)
    → execute bus o args s ≡ ok (target, s')
    → (s'.reg 0 ≡ s.reg 0) × (s'.pc ≡ s.pc) × ((j ≡ args.rd) ⊎ (s'.reg j ≡ s.reg j))
unfolding execute
execute_registers bus o args j target s s' h =
    let (e, t, e₁, rest) = >>=-eq-ok (exec_control bus o args) _ s h in
    let (u, t', e₂, e₃) = >>=-eq-ok (write_back args.rd e) _ t rest in
    let kept = (exec_control-Keeps bus o args).keeps s t e e₁ in
    let written = write_back_lem args.rd e j t t' u e₂ in ground (arith, kept, written)
