-- ===== src/Execute/MulDiv.antt =====
-- The instructions of the M extension. A signed product that does not fit wraps around.
use xemu.Base.{ℕ, ◌-◌, ◌*◌, ◌/◌, ◌%◌, ◌^◌, ◌&&◌, ◌==◌, if◌then◌else◌, M}
use xemu.Base.Int.{signed, to_u64, sra, ◌*ℤ◌, ◌/ℤ◌, ◌%ℤ◌}
use xemu.Word.{to_word}
use xemu.Op.{Op}
use xemu.Bus.{Bus}
use xemu.Machine.{Machine}
use xemu.Execute.Locals.{Args, Effect, compute}
use xemu.Execute.Atomic.{exec_atomic}

-- `(uint64_t) -1`, and `(uint32_t) x`.
abbrev all_ones : ℕ
all_ones = 2 ^ 64 - 1

abbrev low : ℕ → ℕ
low x = x % 2 ^ 32

unfoldable pub mul : ℕ → ℕ → ℕ
mul a b = to_u64 (signed 64 a *ℤ signed 64 b)

-- The registers are unsigned, so the casts to __int128_t extend them with zeros.
unfoldable pub mulh : ℕ → ℕ → ℕ
mulh a b = to_u64 (sra (signed 128 (a * b)) 64)

unfoldable pub mulhsu : ℕ → ℕ → ℕ
mulhsu a b = to_u64 (sra (signed 128 (a * b)) 64)

unfoldable pub mulhu : ℕ → ℕ → ℕ
mulhu a b = a * b / 2 ^ 64 % 2 ^ 64

unfoldable pub div : ℕ → ℕ → ℕ
div a b =
    if b == 0
    then all_ones
    else if b == all_ones && a == 2 ^ 63
    then 2 ^ 63
    else to_u64 (signed 64 a /ℤ signed 64 b)

unfoldable pub divu : ℕ → ℕ → ℕ
divu a b = if b == 0 then all_ones else a / b

unfoldable pub rem : ℕ → ℕ → ℕ
rem a b =
    if b == 0
    then a
    else if b == all_ones && a == 2 ^ 63
    then 0
    else to_u64 (signed 64 a %ℤ signed 64 b)

unfoldable pub remu : ℕ → ℕ → ℕ
remu a b = if b == 0 then a else a % b

unfoldable pub mulw : ℕ → ℕ → ℕ
mulw a b = to_word (to_u64 (signed 32 (to_u64 (signed 32 a *ℤ signed 32 b))))

unfoldable pub divw : ℕ → ℕ → ℕ
divw a b =
    if low b == 0
    then all_ones
    else if low b == 2 ^ 32 - 1 && low a == 2 ^ 31
    then 2 ^ 64 - 2 ^ 31
    else to_word (to_u64 (signed 32 a /ℤ signed 32 b))

unfoldable pub divuw : ℕ → ℕ → ℕ
divuw a b = if low b == 0 then 2 ^ 32 - 1 else to_word (low a / low b)

unfoldable pub remw : ℕ → ℕ → ℕ
remw a b =
    if low b == 0
    then to_u64 (signed 32 a)
    else if low b == 2 ^ 32 - 1 && low a == 2 ^ 31
    then 0
    else to_word (to_u64 (signed 32 a %ℤ signed 32 b))

unfoldable pub remuw : ℕ → ℕ → ℕ
remuw a b = if low b == 0 then low a else to_word (low a % low b)

unfoldable pub exec_muldiv : {S : Type 0} → Bus S → Op → Args → M (Machine S) Effect
exec_muldiv bus Op.mul args = compute args mul
exec_muldiv bus Op.mulh args = compute args mulh
exec_muldiv bus Op.mulhsu args = compute args mulhsu
exec_muldiv bus Op.mulhu args = compute args mulhu
exec_muldiv bus Op.div args = compute args div
exec_muldiv bus Op.divu args = compute args divu
exec_muldiv bus Op.rem args = compute args rem
exec_muldiv bus Op.remu args = compute args remu
exec_muldiv bus Op.mulw args = compute args mulw
exec_muldiv bus Op.divw args = compute args divw
exec_muldiv bus Op.divuw args = compute args divuw
exec_muldiv bus Op.remw args = compute args remw
exec_muldiv bus Op.remuw args = compute args remuw
exec_muldiv bus op args = exec_atomic bus op args
