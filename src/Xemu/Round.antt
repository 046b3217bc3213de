-- ===== src/Xemu/Round.antt =====
-- The main loop of xemu.c: what holds of every round.
use xemu.Base.{ℕ, Bool, true, false, ◌≡◌, ◌∙◌, ap, arith, if◌then◌else◌, ok, M, ◌>>=◌, >>=-eq-ok}
use xemu.Op.{Op}
use xemu.Interrupt.{IntrType, no_intr}
use xemu.Bus.{Bus}
use xemu.Machine.{Machine, set_pc}
use xemu.Execute.{execute}
use xemu.Execute.Locals.{Args}
use xemu.Execute.Keeps.{Keeps, keeps_rules, as_read-Keeps}
use xemu.Execute.Zero.{execute_registers}
use xemu.Xemu.{
  take_if_enabled, handle_type, source, handle_interrupt, page_fault, fetch_halves, fetch, run_inst,
  args_of, round,
}

-- A computation that leaves x0 alone.
module _ {S : Type 0} where
  record KeepsZero {A : Type 0} (m : M (Machine S) A) : Type 0 where
    kept : (s s' : Machine S) (a : A) → m s ≡ ok (a, s') → s'.reg 0 ≡ s.reg 0

  module _ {A : Type 0} where
    from_Keeps : (m : M (Machine S) A) → Keeps m → KeepsZero m
    from_Keeps m h = record {
      kept = λ s s' a e. let (k, _, _) = h.keeps s s' a e in ap (λ f. f 0) k;
    }

    choice-KeepsZero :
        (b : Bool) (m n : M (Machine S) A)
        → KeepsZero m
        → KeepsZero n
        → KeepsZero (if b then m else n)
    choice-KeepsZero true m n h k = h
    choice-KeepsZero false m n h k = k

  set_pc-KeepsZero : (v : ℕ) → KeepsZero (set_pc {S = S} v)
  set_pc-KeepsZero v = record { kept = λ s s' a h. ground arith }

  then-KeepsZero :
      {A B : Type 0} (m : M (Machine S) A) (f : A → M (Machine S) B)
      → KeepsZero m
      → ((a : A) → KeepsZero (f a))
      → KeepsZero (m >>= f)
  then-KeepsZero m f h k = record {
    kept = λ s s' b e.
        let (a, t, e₁, e₂) = >>=-eq-ok m f s e in (k a).kept t s' b e₂ ∙ h.kept s t a e₁;
  }

  ruleset zero_rules = (from_Keeps, choice-KeepsZero, set_pc-KeepsZero, then-KeepsZero, keeps_rules)

module _ {S : Type 0} (bus : Bus S) where
  take_if_enabled-Keeps :
      (status pos enable pend mode pc : ℕ) (type : IntrType)
      → Keeps (take_if_enabled {S = S} status pos enable pend mode pc type)
  unfolding take_if_enabled
  take_if_enabled-Keeps status pos enable pend mode pc type = search keeps_rules depth 16

  handle_type-Keeps : (pc : ℕ) (type : IntrType) → Keeps (handle_type {S = S} pc type)
  unfolding handle_type
  handle_type-Keeps pc no_intr = search (keeps_rules, take_if_enabled-Keeps) depth 12
  handle_type-Keeps pc _ = search (keeps_rules, take_if_enabled-Keeps) depth 12

  handle_interrupt-Keeps : (pc : ℕ) → Keeps (handle_interrupt bus pc)
  unfolding handle_interrupt source
  handle_interrupt-Keeps pc = search (keeps_rules, handle_type-Keeps) depth 12

  fetch-Keeps : Keeps (fetch bus)
  unfolding fetch page_fault fetch_halves
  fetch-Keeps = search (keeps_rules, as_read-Keeps) depth 16

  execute-KeepsZero : (o : Op) (args : Args) → KeepsZero (execute bus o args)
  execute-KeepsZero o args = record {
    kept = λ s s' a h. (execute_registers bus o args 0 a s s' h).0;
  }

  run_inst-KeepsZero : (inst : ℕ) → KeepsZero (run_inst bus inst)
  unfolding run_inst args_of
  run_inst-KeepsZero inst = search (zero_rules, execute-KeepsZero) depth 12

  round-KeepsZero : KeepsZero (round bus)
  unfolding round
  round-KeepsZero =
      search (zero_rules, handle_interrupt-Keeps, fetch-Keeps, run_inst-KeepsZero) depth 16

  -- However a round of the main loop goes on (an interrupt, a page fault, any instruction), a
  -- round that ends leaves register x0 as it was.
  pub round-x0 : (s s' : Machine S) → round bus s ≡ ok (tt, s') → s'.reg 0 ≡ s.reg 0
  round-x0 s s' h = round-KeepsZero.kept s s' tt h

  -- The machine after some rounds, between which the other threads change the devices.
  pub data Reaches (s : Machine S) : Machine S → Type 0 where
    start : Reaches s s
    device : {t : Machine S} (d : S) → Reaches s t → Reaches s (record t { dev = d })
    next : {t u : Machine S} → Reaches s t → round bus t ≡ ok (tt, u) → Reaches s u

-- Register x0 is 0 in every machine that rounds of the main loop reach from one where it is 0, however
-- the other threads change the devices between the rounds.
pub Reaches-x0 :
    {S : Type 0} (bus : Bus S) (s t : Machine S) → s.reg 0 ≡ 0 → Reaches bus s t → t.reg 0 ≡ 0
Reaches-x0 bus s _ h start = h
Reaches-x0 bus s _ h (device d r) = Reaches-x0 bus s _ h r
Reaches-x0 bus s u h (next {t = t} r e) = round-x0 bus t u e ∙ Reaches-x0 bus s t h r
