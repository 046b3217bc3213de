-- ===== src/Execute/Locals.antt =====
-- The arguments of `execute`, and its local variables after the switch.
use xemu.Base.{
  ℕ, ◌%◌, ◌^◌, Bool, true, false, ltb, ◌==◌, if◌then◌else◌, Option, none, some, Outcome, ok,
  undefined, M, lift, pure, ◌>>=◌,
}
use xemu.Machine.{Machine, set_reg, set_freg, in_csrs}
use xemu.Trap.{raise_except}

pub record Args : Type 0 where
  pub pc : ℕ
  pub next_pc : ℕ
  pub rd : ℕ
  pub rs1 : ℕ
  pub rs2 : ℕ
  pub imm : ℕ
  pub csr_addr : ℕ

-- `is_frd` with `frd_val`, an integer in all cases of the switch, or `rd_val`: `none` is the value
-- that was never set.
pub data Dest : Type 0 where
  int : Option ℕ → Dest
  float : ℕ → Dest

pub record Effect : Type 0 where
  pub ret_pc : ℕ
  pub dest : Dest
  pub raised : Bool

module _ {S : Type 0} where
  -- A conversion of a double that does not fit into uint64_t is undefined, and so is the use of a
  -- variable that was never set.
  unfoldable pub outcome_of : ℕ → Dest → M (Machine S) (Unit {0})
  outcome_of rd (float v) = if ltb v (2 ^ 64) then set_freg rd v else lift undefined
  outcome_of rd (int none) = if rd == 0 then pure tt else lift undefined
  outcome_of rd (int (some v)) = if rd == 0 then pure tt else set_reg rd v

  -- The next instruction, and no value for rd.
  unfoldable pub nothing : Args → M (Machine S) Effect
  nothing args s = ok (record { ret_pc = args.next_pc; dest = int none; raised = false }, s)

  -- A value computed from the two registers.
  unfoldable pub compute : Args → (ℕ → ℕ → ℕ) → M (Machine S) Effect
  compute args f s = ok (
    record {
      ret_pc = args.next_pc;
      dest = int (some (f (s.reg args.rs1) (s.reg args.rs2)));
      raised = false;
    },
    s,
  )

  -- The same where the computation can be undefined.
  unfoldable pub try_compute : Args → (ℕ → ℕ → Outcome ℕ) → M (Machine S) Effect
  try_compute args f s =
      (lift (f (s.reg args.rs1) (s.reg args.rs2)) >>= λ v.
      pure (record { ret_pc = args.next_pc; dest = int (some v); raised = false }))
        s

  -- A jump, with the value for rd.
  unfoldable pub jump : ℕ → Option ℕ → M (Machine S) Effect
  jump target v = pure (record { ret_pc = target % 2 ^ 64; dest = int v; raised = false })

  -- `if (has_except) ret_pc = raise_except(pc, cause, tval);`
  unfoldable pub checked : Args → ℕ → ℕ → Dest → Bool → M (Machine S) Effect
  checked args cause tval dest true = in_csrs (raise_except args.pc cause tval) >>= λ target.
      pure (record { ret_pc = target; dest = dest; raised = true })
  checked args cause tval dest false =
      pure (record { ret_pc = args.next_pc; dest = dest; raised = false })
