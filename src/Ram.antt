-- ===== src/Ram.antt =====
-- ram.c: the memory, and the read-modify-write of the atomic operations.
pub mod Bytes
pub mod Atomic
use xemu.Base.{
  update, ℕ, zero, suc, ◌+◌, ◌-◌, ◌*◌, ◌/◌, ◌%◌, ◌^◌, bit_and, bit_or, bit_xor, Bool, true, false,
  ltb, leb, ◌==◌, if◌then◌else◌, Outcome, ok, undefined, M,
}
use xemu.Base.Int.{signed, ltb_ℤ}
use xemu.Space.{
  Params, no_params, lr_sc, amo_min, amo_max, amo_minu, amo_maxu, amo_add, amo_xor, amo_or, amo_and,
  amo_swap, last,
}

-- `mem_ptr`, byte by byte, and `mem_size`.
pub record Ram : Type 0 where
  pub mem : ℕ → ℕ
  pub mem_size : ℕ

-- `memcpy` of `n` bytes out of the memory into a number, and back. The host has its lowest byte
-- first.
unfoldable pub load_le : (ℕ → ℕ) → ℕ → ℕ → ℕ
load_le mem addr zero = 0
load_le mem addr (suc n) = mem addr % 256 + 256 * load_le mem (addr + 1) n

unfoldable pub store_le : (ℕ → ℕ) → ℕ → ℕ → ℕ → ℕ → ℕ
store_le mem addr zero v = mem
store_le mem addr (suc n) v = store_le (update mem addr (v % 256)) (addr + 1) n (v / 256)

-- A copy that leaves the memory is undefined.
unfoldable pub ram_read : ℕ → ℕ → Params → M Ram ℕ
ram_read addr size _ ram =
    if leb (addr + size) ram.mem_size then ok (load_le ram.mem addr size, ram) else undefined

-- `_amo32` and `_amo64`, for the width `w`.
unfoldable pub amo : ℕ → ℕ → ℕ → Params → ℕ
amo w orig value lr_sc = value
amo w orig value amo_min = if ltb_ℤ (signed w value) (signed w orig) then value else orig
amo w orig value amo_max = if ltb_ℤ (signed w orig) (signed w value) then value else orig
amo w orig value amo_minu = if ltb value orig then value else orig
amo w orig value amo_maxu = if ltb orig value then value else orig
amo w orig value amo_add = (orig + value) % 2 ^ w
amo w orig value amo_xor = bit_xor orig value
amo w orig value amo_or = bit_or orig value
amo w orig value amo_and = bit_and orig value
amo w orig value amo_swap = value
amo w orig value no_params = value
amo w orig value last = orig

unfoldable pub is_lr_sc : Params → Bool
is_lr_sc lr_sc = true
is_lr_sc _ = false

-- What is stored: 64-bit and 32-bit accesses go through `_amo64` and `_amo32`.
unfoldable pub modified : ℕ → ℕ → ℕ → Params → ℕ
modified size old value params =
    if size == 8
    then amo 64 old value params
    else if size == 4
    then amo 32 (old % 2 ^ 32) (value % 2 ^ 32) params
    else value

unfoldable pub ram_write : ℕ → ℕ → ℕ → Params → M Ram ℕ
unfolding is_lr_sc
ram_write addr value size params ram =
    if leb (addr + size) ram.mem_size
    then (let ret = if is_lr_sc params then 0 else load_le ram.mem addr size in
        ok (ret, record ram { mem = store_le ram.mem addr size (modified size ret value params) }))
    else undefined
