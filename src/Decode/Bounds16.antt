-- ===== src/Decode/Bounds16.antt =====
-- The ranges of the fields that dec16.c gives.
use xemu.Base.{ℕ, ◌^◌, ◌<◌, ◌≡◌, arith, bit_or, ok}
use xemu.Word.{bits, ◌<<<◌}
use xemu.Word.Bits.{bit_or-lt}
use xemu.Word.Fields.{bits_lem}
use xemu.Word.Set.{shl-lt}
use xemu.Decode.Fields.{Decoded}
use xemu.Decode.Imm16.{
  n_imm, u_imm, u_imm_d, i_imm, d_imm, ui_imm, j_imm, b_imm, lwsp_imm, ldsp_imm, swsp_imm, sdsp_imm,
}
use xemu.Decode.Dec16.{
  quadrant0, quadrant1, quadrant2, arith16, nop_or_addi, addi16sp_or_lui, jump_or_move, dec16,
}
use xemu.Decode.Bounds.{InRange}

or_shl-lt : (x y k : ℕ) → x < 2 ^ 64 → bit_or x (y <<< k) < 2 ^ 64
or_shl-lt x y k h = bit_or-lt 64 x (y <<< k) h (shl-lt y k)

n_imm-lt : (inst : ℕ) → n_imm inst < 2 ^ 64
unfolding n_imm
n_imm-lt inst = or_shl-lt _ _ _ (or_shl-lt _ _ _ (or_shl-lt _ _ _ (shl-lt _ _)))

u_imm-lt : (inst : ℕ) → u_imm inst < 2 ^ 64
unfolding u_imm
u_imm-lt inst = or_shl-lt _ _ _ (or_shl-lt _ _ _ (shl-lt _ _))

u_imm_d-lt : (inst : ℕ) → u_imm_d inst < 2 ^ 64
unfolding u_imm_d
u_imm_d-lt inst = or_shl-lt _ _ _ (shl-lt _ _)

d_imm-lt : (inst : ℕ) → d_imm inst < 2 ^ 64
unfolding d_imm
d_imm-lt inst = or_shl-lt _ _ _ (or_shl-lt _ _ _ (or_shl-lt _ _ _ (or_shl-lt _ _ _ (shl-lt _ _))))

j_imm-lt : (inst : ℕ) → j_imm inst < 2 ^ 64
unfolding j_imm
j_imm-lt inst = or_shl-lt _ _ _ (
    or_shl-lt _ _ _ (
      or_shl-lt _ _ _
        (or_shl-lt _ _ _ (or_shl-lt _ _ _ (or_shl-lt _ _ _ (or_shl-lt _ _ _ (shl-lt _ _)))))))

b_imm-lt : (inst : ℕ) → b_imm inst < 2 ^ 64
unfolding b_imm
b_imm-lt inst = or_shl-lt _ _ _ (or_shl-lt _ _ _ (or_shl-lt _ _ _ (or_shl-lt _ _ _ (shl-lt _ _))))

lwsp_imm-lt : (inst : ℕ) → lwsp_imm inst < 2 ^ 64
unfolding lwsp_imm
lwsp_imm-lt inst = or_shl-lt _ _ _ (or_shl-lt _ _ _ (shl-lt _ _))

ldsp_imm-lt : (inst : ℕ) → ldsp_imm inst < 2 ^ 64
unfolding ldsp_imm
ldsp_imm-lt inst = or_shl-lt _ _ _ (or_shl-lt _ _ _ (shl-lt _ _))

swsp_imm-lt : (inst : ℕ) → swsp_imm inst < 2 ^ 64
unfolding swsp_imm
swsp_imm-lt inst = or_shl-lt _ _ _ (shl-lt _ _)

sdsp_imm-lt : (inst : ℕ) → sdsp_imm inst < 2 ^ 64
unfolding sdsp_imm
sdsp_imm-lt inst = or_shl-lt _ _ _ (shl-lt _ _)

i_imm-lt : (inst : ℕ) → i_imm inst < 2 ^ 64
unfolding i_imm
i_imm-lt inst = bit_or-lt 64 _ _ (shl-lt _ _) (omega (arith, bits_lem inst 6 2))

ui_imm-lt : (inst : ℕ) → ui_imm inst < 2 ^ 64
unfolding ui_imm
ui_imm-lt inst = bit_or-lt 64 _ _ (shl-lt _ _) (omega (arith, bits_lem inst 6 2))

registers :
    (inst : ℕ)
    → (bits inst 4 2 < 8) × (bits inst 9 7 < 8) × (bits inst 11 7 < 32) × (bits inst 6 2 < 32)
registers inst =
    omega (arith, bits_lem inst 4 2, bits_lem inst 9 7, bits_lem inst 11 7, bits_lem inst 6 2)

module _ (inst : ℕ) (d : Decoded) where
  quadrant0-InRange : quadrant0 inst ≡ ok d → InRange d
  unfolding quadrant0
  quadrant0-InRange h =
      ground (arith, registers inst, n_imm-lt inst, u_imm-lt inst, u_imm_d-lt inst)

  arith16-InRange : arith16 inst ≡ ok d → InRange d
  unfolding arith16
  arith16-InRange h = ground (arith, registers inst, ui_imm-lt inst, i_imm-lt inst)

  nop_or_addi-InRange : InRange (nop_or_addi inst)
  unfolding nop_or_addi
  nop_or_addi-InRange = ground (arith, registers inst, i_imm-lt inst)

  addi16sp_or_lui-InRange : InRange (addi16sp_or_lui inst)
  unfolding addi16sp_or_lui
  addi16sp_or_lui-InRange = ground (arith, registers inst, d_imm-lt inst, shl-lt (i_imm inst) 12)

  jump_or_move-InRange : InRange (jump_or_move inst)
  unfolding jump_or_move
  jump_or_move-InRange = ground (arith, registers inst)

  quadrant1-InRange : quadrant1 inst ≡ ok d → InRange d
  unfolding quadrant1
  quadrant1-InRange h = ground (
    arith,
    registers inst,
    i_imm-lt inst,
    j_imm-lt inst,
    b_imm-lt inst,
    nop_or_addi-InRange,
    addi16sp_or_lui-InRange,
    arith16-InRange,
  )

  quadrant2-InRange : quadrant2 inst ≡ ok d → InRange d
  unfolding quadrant2
  quadrant2-InRange h = ground (
    arith,
    registers inst,
    ui_imm-lt inst,
    ldsp_imm-lt inst,
    lwsp_imm-lt inst,
    swsp_imm-lt inst,
    sdsp_imm-lt inst,
    jump_or_move-InRange,
  )

  pub dec16-InRange : dec16 inst ≡ ok d → InRange d
  unfolding dec16
  dec16-InRange h = ground (arith, quadrant0-InRange, quadrant1-InRange, quadrant2-InRange)
