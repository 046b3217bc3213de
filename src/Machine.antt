-- ===== src/Machine.antt =====
-- The state of the emulator: regfile.c, csr.c, `_pc` of xemu.c, and the state of the devices.
use xemu.Base.{ℕ, update, ok, panicked, undefined, M}
use xemu.Csr.{CsrFile}

-- `reg`, `freg` have 32 entries. The decoders give indices below 32.
pub record Machine (S : Type 0) : Type 0 where
  pub pc : ℕ
  pub reg : ℕ → ℕ
  pub freg : ℕ → ℕ
  pub csrs : CsrFile
  pub dev : S

module _ {S : Type 0} where
  -- A call that changes only the registers of csr.c, or only the devices.
  abbrev pub in_csrs : {A : Type 0} → M CsrFile A → M (Machine S) A
  in_csrs m s = elim (m s.csrs) [
    | ok (a, c) ↦ ok (a, record s { csrs = c })
    | panicked ↦ panicked
    | undefined ↦ undefined
  ]

  abbrev pub in_dev : {A : Type 0} → M S A → M (Machine S) A
  in_dev m s = elim (m s.dev) [
    | ok (a, d) ↦ ok (a, record s { dev = d })
    | panicked ↦ panicked
    | undefined ↦ undefined
  ]

  abbrev pub get : M (Machine S) (Machine S)
  get s = ok (s, s)

  abbrev pub set_reg : ℕ → ℕ → M (Machine S) (Unit {0})
  set_reg rd v s = ok (tt, record s { reg = update s.reg rd v })

  abbrev pub set_freg : ℕ → ℕ → M (Machine S) (Unit {0})
  set_freg rd v s = ok (tt, record s { freg = update s.freg rd v })

  abbrev pub set_pc : ℕ → M (Machine S) (Unit {0})
  set_pc v s = ok (tt, record s { pc = v })
