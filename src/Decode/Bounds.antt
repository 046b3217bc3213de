-- ===== src/Decode/Bounds.antt =====
-- The fields that the decoders give are within the ranges that `execute` and `csr_update` rely on.
use xemu.Base.{ℕ, ◌^◌, ◌<◌, ◌≡◌, refl, arith, Outcome, ok, panicked, undefined, map_outcome}
use xemu.Word.{bits}
use xemu.Word.Bits.{bit_or-lt}
use xemu.Word.Fields.{bits_lem}
use xemu.Word.Set.{shl-lt}
use xemu.Decode.Fields.{Decoded}
use xemu.Decode.Imm32.{i_imm, s_imm, b_imm, u_imm, j_imm, c_imm, m_imm6, m_imm5}
use xemu.Decode.Dec32.{
  defaults, dec_branch, dec_load, dec_store, dec_load_fp, dec_store_fp, dec_imm, dec_imm_w, dec_reg,
  dec_reg_w, dec_misc, system_op, dec_system, dec_amo, dec_fp, dec32,
}

pub record InRange (d : Decoded) : Type 0 where
  pub rd_lt : d.rd < 32
  pub rs1_lt : d.rs1 < 32
  pub rs2_lt : d.rs2 < 32
  pub imm_lt : d.imm < 2 ^ 64
  pub csr_lt : d.csr_addr < 4096

i_imm-lt : (inst : ℕ) → i_imm inst < 2 ^ 64
unfolding i_imm
i_imm-lt inst = bit_or-lt 64 _ _ (shl-lt _ _) (omega (arith, bits_lem inst 31 20))

s_imm-lt : (inst : ℕ) → s_imm inst < 2 ^ 64
unfolding s_imm
s_imm-lt inst =
    bit_or-lt 64 _ _ (bit_or-lt 64 _ _ (shl-lt _ _) (shl-lt _ _))
      (omega (arith, bits_lem inst 11 7))

b_imm-lt : (inst : ℕ) → b_imm inst < 2 ^ 64
unfolding b_imm
b_imm-lt inst =
    bit_or-lt 64 _ _ (bit_or-lt 64 _ _ (bit_or-lt 64 _ _ (shl-lt _ _) (shl-lt _ _)) (shl-lt _ _))
      (shl-lt _ _)

u_imm-lt : (inst : ℕ) → u_imm inst < 2 ^ 64
unfolding u_imm
u_imm-lt inst = bit_or-lt 64 _ _ (shl-lt _ _) (shl-lt _ _)

j_imm-lt : (inst : ℕ) → j_imm inst < 2 ^ 64
unfolding j_imm
j_imm-lt inst =
    bit_or-lt 64 _ _ (bit_or-lt 64 _ _ (bit_or-lt 64 _ _ (shl-lt _ _) (shl-lt _ _)) (shl-lt _ _))
      (shl-lt _ _)

short_imm-lt : (inst : ℕ) → (c_imm inst < 32) × (m_imm6 inst < 64) × (m_imm5 inst < 32)
unfolding c_imm m_imm6 m_imm5
short_imm-lt inst = omega (arith, bits_lem inst 19 15, bits_lem inst 25 20, bits_lem inst 24 20)

defaults-InRange : (inst : ℕ) → InRange (defaults inst)
unfolding defaults
defaults-InRange inst = omega (arith, bits_lem inst 11 7, bits_lem inst 19 15, bits_lem inst 24 20)

module _ (inst : ℕ) {e d : Decoded} (start : InRange e) where
  dec_branch-InRange : dec_branch inst e ≡ ok d → InRange d
  unfolding dec_branch
  dec_branch-InRange h = ground (arith, b_imm-lt inst)

  dec_load-InRange : dec_load inst e ≡ ok d → InRange d
  unfolding dec_load
  dec_load-InRange h = ground (arith, i_imm-lt inst)

  dec_store-InRange : dec_store inst e ≡ ok d → InRange d
  unfolding dec_store
  dec_store-InRange h = ground (arith, s_imm-lt inst)

  dec_load_fp-InRange : dec_load_fp inst e ≡ ok d → InRange d
  unfolding dec_load_fp
  dec_load_fp-InRange h = ground (arith, i_imm-lt inst)

  dec_store_fp-InRange : dec_store_fp inst e ≡ ok d → InRange d
  unfolding dec_store_fp
  dec_store_fp-InRange h = ground (arith, s_imm-lt inst)

  dec_imm-InRange : dec_imm inst e ≡ ok d → InRange d
  unfolding dec_imm
  dec_imm-InRange h = ground (arith, i_imm-lt inst, short_imm-lt inst)

  dec_imm_w-InRange : dec_imm_w inst e ≡ ok d → InRange d
  unfolding dec_imm_w
  dec_imm_w-InRange h = ground (arith, i_imm-lt inst, short_imm-lt inst)

  dec_reg-InRange : dec_reg inst e ≡ ok d → InRange d
  unfolding dec_reg
  dec_reg-InRange h = ground arith

  dec_reg_w-InRange : dec_reg_w inst e ≡ ok d → InRange d
  unfolding dec_reg_w
  dec_reg_w-InRange h = ground arith

  dec_misc-InRange : dec_misc inst e ≡ ok d → InRange d
  unfolding dec_misc
  dec_misc-InRange h = ground arith

  dec_amo-InRange : dec_amo inst e ≡ ok d → InRange d
  unfolding dec_amo
  dec_amo-InRange h = ground arith

  dec_fp-InRange : dec_fp inst e ≡ ok d → InRange d
  unfolding dec_fp
  dec_fp-InRange h = ground arith

  system_op-InRange : system_op inst e ≡ ok d → InRange d
  unfolding system_op
  system_op-InRange h = ground (arith, short_imm-lt inst)

dec_system-InRange : (inst : ℕ) {e d : Decoded} → InRange e → dec_system inst e ≡ ok d → InRange d
unfolding dec_system
dec_system-InRange inst {e} {d} start h =
    go (system_op inst e) (λ x k. system_op-InRange inst start k) h
  where
    go :
        (r : Outcome Decoded)
        → ((x : Decoded) → r ≡ ok x → InRange x)
        → map_outcome (λ (x : Decoded). record x { csr_addr = bits inst 31 20 }) r ≡ ok d
        → InRange d
    go (ok x) f k = ground (arith, f x refl, bits_lem inst 31 20)
    go panicked f k = absurd (cc)
    go undefined f k = absurd (cc)

pub dec32-InRange : (inst : ℕ) (d : Decoded) → dec32 inst ≡ ok d → InRange d
unfolding dec32
dec32-InRange inst d h =
    let e = defaults inst in
    let start = defaults-InRange inst in
    ground (
      arith,
      start,
      u_imm-lt inst,
      j_imm-lt inst,
      i_imm-lt inst,
      dec_branch-InRange inst {e = e} {d = d} start,
      dec_load-InRange inst {e = e} {d = d} start,
      dec_store-InRange inst {e = e} {d = d} start,
      dec_load_fp-InRange inst {e = e} {d = d} start,
      dec_store_fp-InRange inst {e = e} {d = d} start,
      dec_imm-InRange inst {e = e} {d = d} start,
      dec_imm_w-InRange inst {e = e} {d = d} start,
      dec_reg-InRange inst {e = e} {d = d} start,
      dec_reg_w-InRange inst {e = e} {d = d} start,
      dec_misc-InRange inst {e = e} {d = d} start,
      dec_system-InRange inst {e = e} {d = d} start,
      dec_amo-InRange inst {e = e} {d = d} start,
      dec_fp-InRange inst {e = e} {d = d} start,
    )
