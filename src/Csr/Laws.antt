-- ===== src/Csr/Laws.antt =====
-- Reading and writing the control and status registers.
use xemu.Base.{
  ℕ, ◌<◌, ◌^◌, Bool, true, false, ◌==◌, leb, bit_or, if◌then◌else◌, ◌≡◌, refl, ◌∙◌, arith, ok,
  panicked, update, Bool-cases, ◌⊎◌, inl, inr,
}
use xemu.Word.{not64}
use xemu.Word.Bits.{test, test-lt, test-bit_and, test-bit_or}
use xemu.Word.Set.{test-not64}
use xemu.Csr.{
  CsrFile, CsrOp, write, set, clear, Kind, stored, counters, time, ticks, absent, unknown, kind,
  is_stored, apply_op, csr_read, csr_update,
}

-- The registers that hold a value.
abbrev pub IsStored : ℕ → Type 0
IsStored a = (a < 4096) × (kind a ≡ stored)

pub csr_read-IsStored :
    (a : ℕ) (raised : Bool) (c : CsrFile)
    → IsStored a
    → csr_read a raised c ≡ ok ((c.csr a, raised), c)
unfolding csr_read
csr_read-IsStored a raised c h = ground arith

pub csr_update-IsStored :
    (a new : ℕ) (c : CsrFile)
    → IsStored a
    → csr_update a new CsrOp.set false c
      ≡ ok ((c.csr a, false), record c { csr = update c.csr a (bit_or (c.csr a) new) })
unfolding csr_update apply_op
csr_update-IsStored a new c h = ground (arith, csr_read-IsStored a false c h)

-- What an operation makes of a bit `old`, given the same bit of the operand.
abbrev pub new_bit : CsrOp → ℕ → ℕ → ℕ
new_bit write old new = new
new_bit set old new = if new == 1 then 1 else old
new_bit clear old new = if new == 1 then 0 else old

test-apply_op :
    (op : CsrOp) (old new j : ℕ)
    → new < 2 ^ 64
    → j < 64
    → test (apply_op op old new) j ≡ new_bit op (test old j) (test new j)
unfolding apply_op
test-apply_op write old new j h k = refl
test-apply_op set old new j h k =
    ground (arith, test-bit_or old new j, test-lt old j, test-lt new j)
test-apply_op clear old new j h k =
    ground
      (arith, test-bit_and old (not64 new) j, test-not64 new j h k, test-lt old j, test-lt new j)

after_update : ℕ → ℕ → CsrFile → CsrFile
after_update a v c = record c { csr = update c.csr a v }

-- A register that is read with the value `v` has been updated.
abbrev pub Updated : ℕ → ℕ → ℕ → ℕ → ℕ → CsrOp → CsrFile → CsrFile → Type 0
Updated a b j v new op c c' =
    (csr_update a new op false c ≡ ok ((v, false), c'))
    × (c'.priv ≡ c.priv)
    × (c'.rtc ≡ c.rtc)
    × (c'.ticks ≡ c.ticks)
    × (test (c'.csr b) j
        ≡ (if a == b then new_bit op (test v j) (test new j) else test (c.csr b) j))
    × (csr_read a false c' ≡ ok ((if is_stored a then c'.csr a else v, false), c'))

is_stored_kind : Kind → Bool
is_stored_kind stored = true
is_stored_kind _ = false

is_stored-kind : (a : ℕ) → is_stored a ≡ is_stored_kind (kind a)
unfolding kind is_stored_kind
is_stored-kind a = ground arith

module _ (a b j new : ℕ) (op : CsrOp) (c : CsrFile) (fits : new < 2 ^ 64) (hj : j < 64) where
  -- A number that is read with the value `v` and no exception.
  updated :
      (v : ℕ)
      → csr_read a false c ≡ ok ((v, false), c)
      → csr_read a false (after_update a (apply_op op v new) c)
        ≡ ok (
          (if is_stored a then apply_op op v new else v, false),
          after_update a (apply_op op v new) c,
        )
      → Updated a b j v new op c (after_update a (apply_op op v new) c)
  unfolding after_update
  updated v e again = (
    unfold csr_update in ground (arith, e),
    refl,
    refl,
    refl,
    ground (arith, test-apply_op op v new j fits hj),
    again ∙ ground arith,
  )

  abbrev Outcomes : Type 0
  Outcomes =
      ((csr_read a false c ≡ panicked) × (csr_update a new op false c ≡ panicked))
      ⊎ (((csr_read a false c ≡ ok ((0, true), c))
            × (csr_update a new op false c ≡ ok ((0, true), c)))
          ⊎ ((v : ℕ) × (c' : CsrFile) × (csr_read a false c ≡ ok ((v, false), c))
              × Updated a b j v new op c c'))

  -- `csr_update` reads the number first. Where that panics, or raises an exception, so does the
  -- update, and no register changes. Else it returns what was read, and writes the number: bit by bit
  -- the operand, or the value read with the operand's bits set, or cleared. Nothing else changes, and
  -- a read of the number then gives what was written, if it is one that `_read` takes from the array,
  -- and what it gave before if it is not. The operand has 64 bits.
  pub csr_read-csr_update :
      ((csr_read a false c ≡ panicked) × (csr_update a new op false c ≡ panicked))
      ⊎ (((csr_read a false c ≡ ok ((0, true), c))
            × (csr_update a new op false c ≡ ok ((0, true), c)))
          ⊎ ((v : ℕ) × (c' : CsrFile) × (csr_read a false c ≡ ok ((v, false), c))
              × Updated a b j v new op c c'))
  csr_read-csr_update = elim (Bool-cases (leb 4096 a)) [
    | inl e ↦
        inl (unfold csr_read in ground (arith, e), unfold csr_read csr_update in ground (arith, e))
    | inr e ↦ by_kind e (kind a) refl
  ]
    where
      goes_on :
          leb 4096 a ≡ false
          → (v : ℕ) → csr_read a false c ≡ ok ((v, false), c)
          → csr_read a false (after_update a (apply_op op v new) c)
            ≡ ok (
              (if is_stored a then apply_op op v new else v, false),
              after_update a (apply_op op v new) c,
            )
          → Outcomes
      goes_on e v h again =
          inr (inr (v, after_update a (apply_op op v new) c, h, updated v h again))

      by_kind : leb 4096 a ≡ false → (k : Kind) → kind a ≡ k → Outcomes
      by_kind e stored q =
          goes_on e (c.csr a) (unfold csr_read in ground (arith, e, q))
            (unfold csr_read after_update is_stored_kind in ground (arith, e, q, is_stored-kind a))
      by_kind e counters q =
          goes_on e 7 (unfold csr_read in ground (arith, e, q))
            (unfold csr_read after_update is_stored_kind in ground (arith, e, q, is_stored-kind a))
      by_kind e time q =
          goes_on e c.rtc (unfold csr_read in ground (arith, e, q))
            (unfold csr_read after_update is_stored_kind in ground (arith, e, q, is_stored-kind a))
      by_kind e ticks q =
          goes_on e c.ticks (unfold csr_read in ground (arith, e, q))
            (unfold csr_read after_update is_stored_kind in ground (arith, e, q, is_stored-kind a))
      by_kind e absent q = inr (
          inl (
            unfold csr_read in ground (arith, e, q),
            unfold csr_read csr_update in ground (arith, e, q),
          ))
      by_kind e unknown q = elim (Bool-cases (a == 0)) [
        | inl z ↦ goes_on e 0 (unfold csr_read in ground (arith, e, q, z)) (
            unfold csr_read after_update is_stored_kind in
            ground (arith, e, q, z, is_stored-kind a))
        | inr z ↦ inl (
          unfold csr_read in ground (arith, e, q, z),
          unfold csr_read csr_update in ground (arith, e, q, z),
        )
      ]

-- A register that the switch of `_read` answers with an exception is not written.
pub csr_update-absent :
    (a new : ℕ) (op : CsrOp) (c : CsrFile)
    → a < 4096
    → kind a ≡ absent
    → csr_update a new op false c ≡ ok ((0, true), c)
unfolding csr_update csr_read
csr_update-absent a new op c h k = ground arith
