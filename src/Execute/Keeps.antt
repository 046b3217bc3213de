-- ===== src/Execute/Keeps.antt =====
-- What the memory accesses, the traps and the switch of `execute` leave alone: the registers and
-- the program counter. Only the end of `execute` writes a register.
use xemu.Base.{
  ℕ, Bool, true, false, ◌≡◌, ◌∙◌, arith, if◌then◌else◌, Outcome, ok, panicked, undefined, M, lift,
  pure, ◌>>=◌, >>=-eq-ok, Option, none, some,
}
use xemu.Op.{Op}
use xemu.Csr.{CsrFile}
use xemu.Space.{Params}
use xemu.Bus.{Bus}
use xemu.Machine.{Machine, in_csrs, in_dev, get}
use xemu.Mmu.{level0, level1, level2, mmu, as_read, as_write, at_physical}
use xemu.Execute.Locals.{Args, Dest, nothing, compute, try_compute, jump, checked}
use xemu.Execute.Float.{exec_float}
use xemu.Execute.Atomic.{exec_atomic, load_reserved, atomic}
use xemu.Execute.MulDiv.{exec_muldiv}
use xemu.Execute.System.{exec_system, ecall, trap_return, csr_op, csr_reg}
use xemu.Execute.Arith.{exec_arith}
use xemu.Execute.Memory.{exec_memory, exec_control, load, store, branch}

module _ {S : Type 0} where
  pub record Keeps {A : Type 0} (m : M (Machine S) A) : Type 0 where
    pub keeps :
        (s s' : Machine S) (a : A)
        → m s ≡ ok (a, s')
        → (s'.reg ≡ s.reg) × (s'.freg ≡ s.freg) × (s'.pc ≡ s.pc)

  module _ {A : Type 0} where
    pub pure-Keeps : (a : A) → Keeps (pure {S = Machine S} a)
    pure-Keeps a = record { keeps = λ s s' b h. ground arith }

    pub lift-Keeps : (r : Outcome A) → Keeps (lift {S = Machine S} r)
    lift-Keeps (ok a) = record { keeps = λ s s' b h. ground arith }
    lift-Keeps panicked = record { keeps = λ s s' b h. absurd (cc) }
    lift-Keeps undefined = record { keeps = λ s s' b h. absurd (cc) }

    pub if-Keeps :
        (b : Bool) (m n : M (Machine S) A) → Keeps m → Keeps n → Keeps (if b then m else n)
    if-Keeps true m n h k = h
    if-Keeps false m n h k = k

    pub in_csrs-Keeps : (m : M CsrFile A) → Keeps (in_csrs {S = S} m)
    in_csrs-Keeps m = record { keeps = λ s s' a h. ground arith }

    pub in_dev-Keeps : (m : M S A) → Keeps (in_dev m)
    in_dev-Keeps m = record { keeps = λ s s' a h. ground arith }

  pub get-Keeps : Keeps (get {S = S})
  get-Keeps = record { keeps = λ s s' a h. ground arith }

  pub >>=-Keeps :
      {A B : Type 0} (m : M (Machine S) A) (f : A → M (Machine S) B)
      → Keeps m
      → ((a : A) → Keeps (f a))
      → Keeps (m >>= f)
  >>=-Keeps m f h k = record {
    keeps = λ s s' b e.
        let (a, t, e₁, e₂) = >>=-eq-ok m f s e in
        let p = h.keeps s t a e₁ in
        let q = (k a).keeps t s' b e₂ in (q.0 ∙ p.0, q.1 ∙ p.1, q.2 ∙ p.2);
  }

  pub ruleset keeps_rules =
      (pure-Keeps, lift-Keeps, if-Keeps, in_csrs-Keeps, in_dev-Keeps, get-Keeps, >>=-Keeps)

module _ {S : Type 0} (bus : Bus S) (vaddr : ℕ) where
  level0-Keeps : (table : ℕ) → Keeps (level0 bus vaddr table)
  unfolding level0
  level0-Keeps table = search keeps_rules depth 12

  level1-Keeps : (table : ℕ) → Keeps (level1 bus vaddr table)
  unfolding level1
  level1-Keeps table = search (keeps_rules, level0-Keeps) depth 12

  level2-Keeps : (table : ℕ) → Keeps (level2 bus vaddr table)
  unfolding level2
  level2-Keeps table = search (keeps_rules, level1-Keeps) depth 12

  mmu-Keeps : Keeps (mmu bus vaddr)
  unfolding mmu
  mmu-Keeps = search (keeps_rules, level2-Keeps) depth 12

  at_physical-Keeps : (found : Option ℕ) (access : ℕ → M S ℕ) → Keeps (at_physical found access)
  unfolding at_physical
  at_physical-Keeps none access = search keeps_rules depth 12
  at_physical-Keeps (some paddr) access = search keeps_rules depth 12

  pub as_read-Keeps : (size : ℕ) (p : Params) → Keeps (as_read bus vaddr size p)
  unfolding as_read
  as_read-Keeps size p = search (keeps_rules, mmu-Keeps, at_physical-Keeps) depth 12

  pub as_write-Keeps : (size value : ℕ) (p : Params) → Keeps (as_write bus vaddr size value p)
  unfolding as_write
  as_write-Keeps size value p = search (keeps_rules, mmu-Keeps, at_physical-Keeps) depth 12

module _ {S : Type 0} where
  nothing-Keeps : (args : Args) → Keeps (nothing {S = S} args)
  unfolding nothing
  nothing-Keeps args = record { keeps = λ s s' a h. ground arith }

  compute-Keeps : (args : Args) (f : ℕ → ℕ → ℕ) → Keeps (compute {S = S} args f)
  unfolding compute
  compute-Keeps args f = record { keeps = λ s s' a h. ground arith }

  try_compute-Keeps : (args : Args) (f : ℕ → ℕ → Outcome ℕ) → Keeps (try_compute {S = S} args f)
  unfolding try_compute
  try_compute-Keeps args f = record { keeps = λ s s' a h. ground arith }

  jump-Keeps : (target : ℕ) (v : Option ℕ) → Keeps (jump {S = S} target v)
  unfolding jump
  jump-Keeps target v = pure-Keeps _

  checked-Keeps :
      (args : Args) (cause tval : ℕ) (d : Dest) (raised : Bool)
      → Keeps (checked {S = S} args cause tval d raised)
  unfolding checked
  checked-Keeps args cause tval d true = search keeps_rules depth 12
  checked-Keeps args cause tval d false = search keeps_rules depth 12

  ruleset locals_keep = (
    keeps_rules, nothing-Keeps, compute-Keeps, try_compute-Keeps, jump-Keeps, checked-Keeps,
    as_read-Keeps, as_write-Keeps,
  )

module _ {S : Type 0} (bus : Bus S) where
  exec_float-Keeps : (o : Op) (args : Args) → Keeps (exec_float bus o args)
  unfolding exec_float
  exec_float-Keeps Op.flw args = search locals_keep depth 12
  exec_float-Keeps _ args = search locals_keep depth 12

  exec_atomic-Keeps : (o : Op) (args : Args) → Keeps (exec_atomic bus o args)
  unfolding exec_atomic load_reserved atomic
  exec_atomic-Keeps Op.lr_d args = search locals_keep depth 12
  exec_atomic-Keeps _ args = search (locals_keep, exec_float-Keeps) depth 12

  exec_muldiv-Keeps : (o : Op) (args : Args) → Keeps (exec_muldiv bus o args)
  unfolding exec_muldiv
  exec_muldiv-Keeps Op.mul args = search locals_keep
  exec_muldiv-Keeps _ args = search (locals_keep, exec_atomic-Keeps)

  exec_system-Keeps : (o : Op) (args : Args) → Keeps (exec_system bus o args)
  unfolding exec_system ecall trap_return csr_op csr_reg
  exec_system-Keeps Op.fence args = search locals_keep
  exec_system-Keeps _ args = search (locals_keep, exec_muldiv-Keeps) depth 12

  exec_arith-Keeps : (o : Op) (args : Args) → Keeps (exec_arith bus o args)
  unfolding exec_arith
  exec_arith-Keeps Op.addi args = search locals_keep
  exec_arith-Keeps _ args = search (locals_keep, exec_system-Keeps)

  exec_memory-Keeps : (o : Op) (args : Args) → Keeps (exec_memory bus o args)
  unfolding exec_memory load store
  exec_memory-Keeps Op.lb args = search locals_keep depth 12
  exec_memory-Keeps _ args = search (locals_keep, exec_arith-Keeps) depth 12

  pub exec_control-Keeps : (o : Op) (args : Args) → Keeps (exec_control bus o args)
  unfolding exec_control branch
  exec_control-Keeps Op.nop args = search locals_keep
  exec_control-Keeps _ args = search (locals_keep, exec_memory-Keeps) depth 12
