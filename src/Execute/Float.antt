-- ===== src/Execute/Float.antt =====
-- The floating-point instructions. The C code converts the integers that it moves, and does not
-- reinterpret their bits: a conversion rounds to the nearest number of 24 or 53 significant bits,
-- to the even one of two.
use xemu.Base.{
  ℕ, zero, suc, ◌+◌, ◌*◌, ◌/◌, ◌%◌, ◌^◌, false, ◌&&◌, ◌||◌, ltb, ◌==◌, if◌then◌else◌, none, Outcome,
  ok, panicked, undefined, M, lift, pure, ◌>>=◌,
}
use xemu.Op.{Op}
use xemu.Csr.Cause
use xemu.Space.{no_params}
use xemu.Bus.{Bus}
use xemu.Machine.{Machine, get}
use xemu.Mmu.{as_read, as_write}
use xemu.Execute.Locals.{Args, Effect, int, float, checked}

-- How many low bits do not fit into `p` significant bits; the fuel bounds the number's bits.
unfoldable pub excess : ℕ → ℕ → ℕ → ℕ
excess zero p n = 0
excess (suc fuel) p n = if ltb n (2 ^ p) then 0 else suc (excess fuel p (n / 2))

-- `(float) n` for p = 24, `(double) n` for p = 53, of a uint64_t `n`.
unfoldable pub round_to : ℕ → ℕ → ℕ
unfolding excess
round_to p n =
    let unit = 2 ^ excess 64 p n in
    let q = n / unit in
    let r = n % unit in
    if ltb unit (2 * r) || 2 * r == unit && q % 2 == 1 then (q + 1) * unit else q * unit

-- The address of a load or a store with an offset.
abbrev address : {S : Type 0} → Args → Machine S → ℕ
address args s = (s.reg args.rs1 + args.imm) % 2 ^ 64

-- `(uint64_t)(float) n`, undefined where it rounds to 2 ^ 64.
abbrev to_float : ℕ → Outcome ℕ
to_float n = if ltb (round_to 24 n) (2 ^ 64) then ok (round_to 24 n) else undefined

unfoldable pub exec_float : {S : Type 0} → Bus S → Op → Args → M (Machine S) Effect
exec_float bus Op.flw args = do
  s ← get
  (v, raised) ← as_read bus (address args s) 4 no_params
  checked args Cause.store_page_fault (address args s) (float (round_to 24 v)) raised
exec_float bus Op.fsw args = do
  s ← get
  v ← lift (to_float (s.reg args.rs2))
  (_, raised) ← as_write bus (address args s) 4 v no_params
  checked args Cause.store_page_fault (address args s) (int none) raised
exec_float bus Op.fmv_w_x args = do
  s ← get
  pure (record {
    ret_pc = args.next_pc;
    dest = float (round_to 24 (s.reg args.rs1));
    raised = false;
  })
exec_float bus Op.fld args = do
  s ← get
  (v, raised) ← as_read bus (address args s) 8 no_params
  checked args Cause.store_page_fault (address args s) (float (round_to 53 v)) raised
exec_float bus Op.fsd args = do
  s ← get
  (_, raised) ← as_write bus (address args s) 8 (s.freg args.rs2) no_params
  checked args Cause.store_page_fault (address args s) (int none) raised
exec_float bus _ args = lift panicked
