-- ===== src/Csr.antt =====
-- csr.c: the control and status registers and the privilege mode.
pub mod Number
pub mod Cause
pub mod Laws
use xemu.Base.{
  ℕ, ◌+◌, ◌-◌, ◌^◌, bit_and, bit_or, Bool, true, false, ◌||◌, ◌&&◌, List, [], ◌∷◌, leb, ◌==◌,
  if◌then◌else◌, Outcome, ok, panicked, update, M, lift, pure, ◌>>=◌, ◌>>◌,
}
use xemu.Word.{not64}

-- `_priv`, `_csr`, and what the clocks of the host return when they are read: `cpu_read_rtc()` and
-- `cpu_get_host_ticks()` of util.c. The environment moves the clocks.
pub record CsrFile : Type 0 where
  pub priv : ℕ
  pub csr : ℕ → ℕ
  pub rtc : ℕ
  pub ticks : ℕ

pub data CsrOp : Type 0 where
  write set clear : CsrOp

unfoldable pub switch_to : ℕ → M CsrFile (Unit {0})
switch_to mode c = ok (tt, record c { priv = mode })

-- `csr_init`: MISA_INIT_VAL has the bits for 64 bits wide registers and U, S, M, I, F, D, C, A.
unfoldable pub csr_init : CsrFile → CsrFile
csr_init c = record c { csr = update c.csr Number.misa misa_init_val }
  where
    misa_init_val : ℕ
    misa_init_val = 2 ^ 63 + 2 ^ 20 + 2 ^ 18 + 2 ^ 12 + 2 ^ 8 + 2 ^ 5 + 2 ^ 3 + 2 ^ 2 + 2 ^ 0

abbrev is_one_of : ℕ → List ℕ → Bool
is_one_of a [] = false
is_one_of a (b ∷ bs) = a == b || is_one_of a bs

abbrev between : ℕ → ℕ → ℕ → Bool
between lo hi a = leb lo a && leb a hi

-- The cases of the switch in `_read`.
pub data Kind : Type 0 where
  stored counters time ticks absent unknown : Kind

-- The registers that `_read` takes from `_csr`.
unfoldable pub is_stored : ℕ → Bool
is_stored a =
    is_one_of a (
      Number.fcsr ∷ Number.sstatus ∷ Number.sedeleg ∷ Number.sideleg ∷ Number.sie ∷ Number.stvec
      ∷ Number.sscratch ∷ Number.sepc ∷ Number.scause ∷ Number.stval ∷ Number.sip ∷ Number.satp
      ∷ Number.mstatus ∷ Number.misa ∷ Number.medeleg ∷ Number.mideleg ∷ Number.mie ∷ Number.mtvec
      ∷ Number.mscratch ∷ Number.mepc ∷ Number.mcause ∷ Number.mtval ∷ Number.mip ∷ Number.pmpcfg0
      ∷ Number.pmpcfg2 ∷ Number.mvendorid ∷ Number.marchid ∷ Number.mimpid ∷ Number.mhartid ∷ [])
    || between Number.pmpaddr0 Number.pmpaddr15 a

unfoldable pub kind : ℕ → Kind
kind a =
    if is_stored a
    then stored
    else if is_one_of a (Number.scounteren ∷ Number.mcounteren ∷ [])
    then counters
    else if a == Number.time
    then time
    else if is_one_of a (Number.cycle ∷ Number.instret ∷ [])
    then ticks
    else if between Number.pmpaddr16 Number.pmpaddr63 a
        || between Number.mhpmcounter3 Number.mhpmcounter31 a
    then absent
    else unknown

-- `_read`: the value, and whether `*has_except` is set after the call. A caller that passes NULL
-- drops the second part.
read_kind : Kind → ℕ → Bool → CsrFile → Outcome (ℕ × Bool)
read_kind stored a raised c = ok (c.csr a, raised)
read_kind counters a raised c = ok (0x7, raised)
read_kind time a raised c = ok (c.rtc, raised)
read_kind ticks a raised c = ok (c.ticks, raised)
read_kind absent a raised c = ok (0, true)
read_kind unknown a raised c = if a == 0 then ok (0, raised) else panicked

unfoldable pub csr_read : ℕ → Bool → M CsrFile (ℕ × Bool)
unfolding read_kind
csr_read a raised c = if leb 4096 a then panicked else lift (read_kind (kind a) a raised c) c

unfoldable pub apply_op : CsrOp → ℕ → ℕ → ℕ
apply_op write old new = new
apply_op set old new = bit_or old new
apply_op clear old new = bit_and old (not64 new)

store_csr : ℕ → ℕ → M CsrFile (Unit {0})
store_csr a v c = ok (tt, record c { csr = update c.csr a v })

unfoldable pub csr_update : ℕ → ℕ → CsrOp → Bool → M CsrFile (ℕ × Bool)
unfolding apply_op store_csr
csr_update a new type raised = do
  (old, raised') ← csr_read a raised
  if raised' then pure (0, true) else do store_csr a (apply_op type old new); pure (old, false)
