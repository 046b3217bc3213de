-- ===== src/Execute/Atomic.antt =====
-- The atomic instructions: load-reserved, store-conditional and the read-modify-write operations,
-- which the memory carries out (ram.c). All report a page fault as one of a store.
use xemu.Base.{ℕ, some, M, ◌>>=◌}
use xemu.Base.Int.{signed, to_u64}
use xemu.Op.{Op}
use xemu.Csr.Cause
use xemu.Space.{
  Params, lr_sc, amo_min, amo_max, amo_minu, amo_maxu, amo_add, amo_xor, amo_or, amo_and, amo_swap,
}
use xemu.Bus.{Bus}
use xemu.Machine.{Machine, get}
use xemu.Mmu.{as_read, as_write}
use xemu.Execute.Locals.{Args, Effect, int, checked}
use xemu.Execute.Float.{exec_float}

module _ {S : Type 0} (bus : Bus S) where
  unfoldable pub load_reserved : Args → ℕ → (ℕ → ℕ) → M (Machine S) Effect
  load_reserved args size extend = do
    s ← get
    (v, raised) ← as_read bus (s.reg args.rs1) size lr_sc
    checked args Cause.store_page_fault (s.reg args.rs1) (int (some (extend v))) raised

  -- The value for rd is what `as_write` returns.
  unfoldable pub atomic : Args → ℕ → Params → M (Machine S) Effect
  atomic args size p = do
    s ← get
    (v, raised) ← as_write bus (s.reg args.rs1) size (s.reg args.rs2) p
    checked args Cause.store_page_fault (s.reg args.rs1) (int (some v)) raised

  unfoldable pub exec_atomic : Op → Args → M (Machine S) Effect
  exec_atomic Op.lr_d args = load_reserved args 8 (λ v. v)
  exec_atomic Op.sc_d args = atomic args 8 lr_sc
  exec_atomic Op.amo_add_d args = atomic args 8 amo_add
  exec_atomic Op.amo_swap_d args = atomic args 8 amo_swap
  exec_atomic Op.amo_xor_d args = atomic args 8 amo_xor
  exec_atomic Op.amo_or_d args = atomic args 8 amo_or
  exec_atomic Op.amo_and_d args = atomic args 8 amo_and
  exec_atomic Op.amo_min_d args = atomic args 8 amo_min
  exec_atomic Op.amo_max_d args = atomic args 8 amo_max
  exec_atomic Op.amo_minu_d args = atomic args 8 amo_minu
  exec_atomic Op.amo_maxu_d args = atomic args 8 amo_maxu
  exec_atomic Op.lr_w args = load_reserved args 4 (λ v. to_u64 (signed 32 v))
  exec_atomic Op.sc_w args = atomic args 4 lr_sc
  exec_atomic Op.amo_add_w args = atomic args 4 amo_add
  exec_atomic Op.amo_swap_w args = atomic args 4 amo_swap
  exec_atomic Op.amo_xor_w args = atomic args 4 amo_xor
  exec_atomic Op.amo_or_w args = atomic args 4 amo_or
  exec_atomic Op.amo_and_w args = atomic args 4 amo_and
  exec_atomic Op.amo_min_w args = atomic args 4 amo_min
  exec_atomic Op.amo_max_w args = atomic args 4 amo_max
  exec_atomic Op.amo_minu_w args = atomic args 4 amo_minu
  exec_atomic Op.amo_maxu_w args = atomic args 4 amo_maxu
  exec_atomic op args = exec_float bus op args
