-- ===== src/Interrupt.antt =====
-- interrupt.h: the causes of the interrupts, and the mode that handles one.
use xemu.Base.{
  ℕ, ◌+◌, ◌^◌, bit_and, false, ◌==◌, if◌then◌else◌, Outcome, ok, panicked, map_outcome, ltb, ◌||◌,
  M, lift, pure, ◌>>=◌,
}
use xemu.Csr.{CsrFile, csr_read}
use xemu.Csr.Number
use xemu.Csr.Cause

pub data IntrType : Type 0 where
  no_intr software timer external : IntrType

-- `(type - 1) << 2`, where `intr_cause` does not panic.
offset : IntrType → Outcome ℕ
offset no_intr = panicked
offset software = ok 0
offset timer = ok 4
offset external = ok 8

cause_base : ℕ → ℕ
cause_base mode =
    if mode == Cause.u_mode
    then Cause.u_software_intr
    else if mode == Cause.s_mode
    then Cause.s_software_intr
    else Cause.m_software_intr

-- A mode that is none of the three gives 0.
unfoldable pub intr_cause : IntrType → ℕ → Outcome ℕ
unfolding offset cause_base
intr_cause type mode =
    map_outcome (λ o. if mode == 2 || ltb 3 mode then 0 else cause_base mode + o) (offset type)

-- `1U << (cause & 0xF)`: the shift is below 16.
unfoldable pub intr_bit_flag : IntrType → ℕ → Outcome ℕ
intr_bit_flag type mode = map_outcome (λ cause. 2 ^ bit_and cause 0xF) (intr_cause type mode)

unfoldable pub intr_next_priv : IntrType → ℕ → M CsrFile ℕ
intr_next_priv type mode = if mode == Cause.m_mode then pure Cause.m_mode else do
  (mideleg, _) ← csr_read Number.mideleg false
  flag ← lift (intr_bit_flag type Cause.s_mode)
  if bit_and mideleg flag == 0 then pure Cause.m_mode else pure Cause.s_mode
