-- ===== src/Xemu/Branches.antt =====
-- handle_interrupt of trap.c: where an interrupt goes, and what its two branches do.
use native.Mathlib.Nat.{pow-suc}
use xemu.Base.{
  zero, suc, ◌+◌, ◌/◌, ◌⊎◌, ◌≢◌, ◌&&◌, arith, ℕ, ◌^◌, ◌≡◌, refl, ◌∙◌, ap, bit_and, ◌==◌,
  if◌then◌else◌, Bool, true, false, Outcome, ok, panicked, undefined, M, ◌>>=◌, lift, map_outcome,
  update, bit_or,
}
use xemu.Csr.{CsrFile, CsrOp, csr_read, csr_update}
use xemu.Csr.Laws.{IsStored, csr_read-IsStored, csr_update-IsStored}
use xemu.Csr.{kind, is_stored}
use xemu.Csr.Number
use xemu.Csr.Cause
use xemu.Word.Bits.{test, test-lt, test-zero, test-bit_or, bit_and_digit}
use xemu.Word.Fields.{bit_and-zero}
use xemu.Trap.{trap_enter}
use xemu.Interrupt.{
  IntrType, no_intr, software, timer, external, intr_cause, intr_bit_flag, intr_next_priv,
}
use xemu.Machine.{Machine, in_csrs}
use xemu.Xemu.{take_if_enabled, handle_type}

-- The state once the interrupt is pending in the register `pend`.
abbrev pub raise_pending : {S : Type 0} → ℕ → ℕ → Machine S → Machine S
raise_pending pend flag s = record s {
  csrs = record (s.csrs) { csr = update (s.csrs.csr) pend (bit_or (s.csrs.csr pend) flag) };
}

if-cases :
    {S A : Type 0} (b : Bool) (x y : M S A) (s : S) {z : Outcome (A × S)}
    → y s ≡ z
    → (if b then x else y) s ≡ (if b then x s else z)
if-cases true x y s h = refl
if-cases false x y s h = h

-- A step on the registers that is known to return, and what follows it.
abbrev resume :
    {S A B : Type 0}
    → Machine S
    → (A → M (Machine S) B)
    → Outcome (A × CsrFile)
    → Outcome (B × Machine S)
resume s k (ok (a, c)) = k a (record s { csrs = c })
resume s k panicked = panicked
resume s k undefined = undefined

in_csrs-resume :
    {S A B : Type 0} (s : Machine S) (k : A → M (Machine S) B) (r : Outcome (A × CsrFile))
    → (in_csrs (λ _. r) >>= k) s ≡ resume s k r
in_csrs-resume s k (ok (a, c)) = refl
in_csrs-resume s k panicked = refl
in_csrs-resume s k undefined = refl

then_csrs :
    {S A B : Type 0} (m : M CsrFile A) (k : A → M (Machine S) B) (s : Machine S) {a : A}
    {c : CsrFile}
    → m (s.csrs) ≡ ok (a, c)
    → (in_csrs m >>= k) s ≡ k a (record s { csrs = c })
then_csrs m k s h = in_csrs-resume s k (m s.csrs) ∙ ap (resume s k) h

then_lift :
    {S A B : Type 0} (m : Outcome A) (k : A → M S B) (s : S) {a : A}
    → m ≡ ok a
    → (lift m >>= k) s ≡ k a s
then_lift m k s h = rw h refl

-- A branch of handle_interrupt, with trap_enter shut.
take_if_enabled_lem :
    {S : Type 0} (s : Machine S) (status pos enable pend mode pc cause : ℕ) (type : IntrType)
    → IsStored status
    → IsStored enable
    → IsStored pend
    → intr_cause type mode ≡ ok cause
    → take_if_enabled status pos enable pend mode pc type s ≡ (
        if bit_and (s.csrs.csr status) (2 ^ pos) == 0
        then ok (0, s)
        else if bit_and (s.csrs.csr enable) (2 ^ bit_and cause 0xF) == 0
        then ok (0, s)
        else in_csrs (trap_enter pc mode cause 0) (raise_pending pend (2 ^ bit_and cause 0xF) s))
unfolding take_if_enabled intr_bit_flag
take_if_enabled_lem s status pos enable pend mode pc cause type h1 h2 h3 h =
    let flag = 2 ^ bit_and cause 0xF in
    then_csrs (csr_read status false) _ s (csr_read-IsStored status false (s.csrs) h1)
    ∙ if-cases (bit_and (s.csrs.csr status) (2 ^ pos) == 0) _ _ s (
        then_csrs (csr_read enable false) _ s (csr_read-IsStored enable false (s.csrs) h2)
        ∙ then_lift (intr_bit_flag type mode) _ s (ap (map_outcome (λ c. 2 ^ bit_and c 0xF)) h)
        ∙ if-cases (bit_and (s.csrs.csr enable) flag == 0) _ _ s (
            then_csrs (csr_update pend flag CsrOp.set false) _ s
              (csr_update-IsStored pend flag (s.csrs) h3)
            ∙ then_lift (intr_cause type mode) _ (raise_pending pend flag s) h))

-- `x & (1 << k)`.
bit_and-pow : (x k : ℕ) → (bit_and x (2 ^ k) == 0) ≡ (test x k == 0)
unfolding test
bit_and-pow x zero = ground (arith, bit_and_digit x 1, bit_and-zero (x / 2))
bit_and-pow x (suc k) =
    ground (arith, bit_and_digit x (2 ^ suc k), pow-suc 2 k, bit_and-pow (x / 2) k)

test-pow : (k j : ℕ) → test (2 ^ k) j ≡ (if j == k then 1 else 0)
unfolding test
test-pow zero zero = refl
test-pow zero (suc j) = ground (arith, test-zero j)
test-pow (suc k) zero = ground (arith, pow-suc 2 k)
test-pow (suc k) (suc j) =
    ap (λ (t : ℕ). test t j) (omega (arith, pow-suc 2 k)) ∙ test-pow k j ∙ ground arith

-- The exception codes of the interrupts, and their bits in the registers: for S mode and for M mode.
abbrev pub s_code : IntrType → ℕ
s_code no_intr = 0
s_code software = 1
s_code timer = 5
s_code external = 9

abbrev pub m_code : IntrType → ℕ
m_code no_intr = 0
m_code software = 3
m_code timer = 7
m_code external = 11

pub next_priv-s :
    (type : IntrType) (c : CsrFile)
    → type ≢ no_intr
    → c.priv ≢ Cause.m_mode
    → test (c.csr Number.mideleg) (s_code type) ≡ 1
    → intr_next_priv type c.priv c ≡ ok (Cause.s_mode, c)
unfolding intr_next_priv csr_read kind is_stored intr_bit_flag intr_cause
next_priv-s no_intr c some away set = absurd (some refl)
next_priv-s software c some away set = ground (arith, bit_and-pow (c.csr Number.mideleg) 1)
next_priv-s timer c some away set = ground (arith, bit_and-pow (c.csr Number.mideleg) 5)
next_priv-s external c some away set = ground (arith, bit_and-pow (c.csr Number.mideleg) 9)

pub next_priv-m :
    (type : IntrType) (c : CsrFile)
    → type ≢ no_intr
    → (c.priv ≡ Cause.m_mode) ⊎ (test (c.csr Number.mideleg) (s_code type) ≡ 0)
    → intr_next_priv type c.priv c ≡ ok (Cause.m_mode, c)
unfolding intr_next_priv csr_read kind is_stored intr_bit_flag intr_cause
next_priv-m no_intr c some set = absurd (some refl)
next_priv-m software c some set = ground (arith, bit_and-pow (c.csr Number.mideleg) 1)
next_priv-m timer c some set = ground (arith, bit_and-pow (c.csr Number.mideleg) 5)
next_priv-m external c some set = ground (arith, bit_and-pow (c.csr Number.mideleg) 9)

module _ {S : Type 0} where
  pub handle_type-s :
      (type : IntrType) (pc : ℕ) (u : Machine S)
      → type ≢ no_intr
      → intr_next_priv type u.csrs.priv u.csrs ≡ ok (Cause.s_mode, u.csrs)
      → handle_type pc type u
        ≡ take_if_enabled Number.sstatus 1 Number.sie Number.sip Cause.s_mode pc type u
  unfolding handle_type
  handle_type-s no_intr pc u some h = absurd (some refl)
  handle_type-s software pc u some h = then_csrs (intr_next_priv software u.csrs.priv) _ u h
  handle_type-s timer pc u some h = then_csrs (intr_next_priv timer u.csrs.priv) _ u h
  handle_type-s external pc u some h = then_csrs (intr_next_priv external u.csrs.priv) _ u h

  pub handle_type-m :
      (type : IntrType) (pc : ℕ) (u : Machine S)
      → type ≢ no_intr
      → intr_next_priv type u.csrs.priv u.csrs ≡ ok (Cause.m_mode, u.csrs)
      → handle_type pc type u
        ≡ take_if_enabled Number.mstatus 3 Number.mie Number.mip Cause.m_mode pc type u
  unfolding handle_type
  handle_type-m no_intr pc u some h = absurd (some refl)
  handle_type-m software pc u some h = then_csrs (intr_next_priv software u.csrs.priv) _ u h
  handle_type-m timer pc u some h = then_csrs (intr_next_priv timer u.csrs.priv) _ u h
  handle_type-m external pc u some h = then_csrs (intr_next_priv external u.csrs.priv) _ u h

-- The cause of an interrupt, and the bit that the cause gives.
pub s_cause :
    (type : IntrType)
    → type ≢ no_intr
    → (intr_cause type Cause.s_mode ≡ ok (2 ^ 63 + s_code type))
      × (bit_and (2 ^ 63 + s_code type) 0xF ≡ s_code type)
unfolding intr_cause
s_cause no_intr some = absurd (some refl)
s_cause software some = (refl, refl)
s_cause timer some = (refl, refl)
s_cause external some = (refl, refl)

pub m_cause :
    (type : IntrType)
    → type ≢ no_intr
    → (intr_cause type Cause.m_mode ≡ ok (2 ^ 63 + m_code type))
      × (bit_and (2 ^ 63 + m_code type) 0xF ≡ m_code type)
unfolding intr_cause
m_cause no_intr some = absurd (some refl)
m_cause software some = (refl, refl)
m_cause timer some = (refl, refl)
m_cause external some = (refl, refl)

-- A branch of handle_interrupt that is given what trap_enter does.
pub taken :
    {S : Type 0} (s : Machine S) (status pos enable pend mode pc code target : ℕ) (type : IntrType)
    (c : CsrFile)
    → IsStored status
    → IsStored enable
    → IsStored pend
    → intr_cause type mode ≡ ok (2 ^ 63 + code)
    → bit_and (2 ^ 63 + code) 0xF ≡ code
    → trap_enter pc mode
        (2 ^ 63 + code)
        0
        (record (s.csrs) { csr = update (s.csrs.csr) pend (bit_or (s.csrs.csr pend) (2 ^ code)) })
      ≡ ok (target, c)
    → take_if_enabled status pos enable pend mode pc type s ≡ (
        if test (s.csrs.csr status) pos == 1 && test (s.csrs.csr enable) code == 1
        then ok (target, record s { csrs = c })
        else ok (0, s))
taken s status pos enable pend mode pc code target type c h1 h2 h3 cause low entered =
    take_if_enabled_lem s status pos enable pend mode pc (2 ^ 63 + code) type h1 h2 h3 cause
    ∙ rw low (
        ground (
          arith,
          bit_and-pow (s.csrs.csr status) pos,
          bit_and-pow (s.csrs.csr enable) code,
          test-lt (s.csrs.csr status) pos,
          test-lt (s.csrs.csr enable) code,
          entered,
        ))

pub raised_bit : (x k j : ℕ) → test (bit_or x (2 ^ k)) j ≡ (if j == k then 1 else test x j)
raised_bit x k j = ground (arith, test-bit_or x (2 ^ k) j, test-pow k j, test-lt x j)

-- The registers that handle_interrupt uses are among those that hold a value.
pub IsStored-s : IsStored Number.sstatus × IsStored Number.sie × IsStored Number.sip
unfolding kind is_stored
IsStored-s = ((omega arith, refl), (omega arith, refl), (omega arith, refl))

pub IsStored-m : IsStored Number.mstatus × IsStored Number.mie × IsStored Number.mip
unfolding kind is_stored
IsStored-m = ((omega arith, refl), (omega arith, refl), (omega arith, refl))
