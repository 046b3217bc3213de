-- ===== src/Ram/Atomic.antt =====
-- `ram_write` and `ram_read`, with the atomic operations.
use xemu.Base.{ℕ, ◌+◌, ◌%◌, ◌^◌, ◌≤◌, ◌≡◌, ◌⊎◌, arith, if◌then◌else◌, ok, min, max, refl}
use xemu.Base.Int.{ℤ, signed, pos_part, neg_part}
use xemu.Space.{
  Params, no_params, amo_min, amo_max, amo_minu, amo_maxu, amo_add, amo_swap, amo_xor, amo_or,
  amo_and,
}
use xemu.Word.Bits.{test, test-bit_and, test-bit_or, test-bit_xor}
use xemu.Ram.{Ram, ram_read, ram_write, amo, modified, is_lr_sc, load_le, store_le}
use xemu.Ram.Bytes.{load_le-store_le, load_le-store_le_ne}

-- A write inside the memory returns the old value (0 for a store-conditional); a read of the same
-- place then gives what the operation makes of the old value and the new one, and a read of a
-- place that does not overlap it ends as it did before.
pub ram_read-ram_write :
    (addr value size b k : ℕ) (p : Params) (ram : Ram)
    → addr + size ≤ ram.mem_size
    → (b + k ≤ addr) ⊎ (addr + size ≤ b)
    → b + k ≤ ram.mem_size
    → let old = if is_lr_sc p then 0 else load_le ram.mem addr size in
      (ram' : Ram) × (ram_write addr value size p ram ≡ ok (old, ram'))
      × (ram_read addr size no_params ram' ≡ ok (modified size old value p % 256 ^ size, ram'))
      × (ram_read b k no_params ram' ≡ ok (load_le ram.mem b k, ram'))
unfolding ram_read ram_write
ram_read-ram_write addr value size b k p ram fits apart fits' =
    let old = if is_lr_sc p then 0 else load_le ram.mem addr size in
    let new = modified size old value p in
    (
      record ram { mem = store_le ram.mem addr size new },
      ground arith,
      ground (arith, load_le-store_le ram.mem addr size new),
      ground (arith, load_le-store_le_ne ram.mem addr size new b k apart),
    )

abbrev pub ℤ_le : ℤ → ℤ → Type 0
ℤ_le a b = pos_part a + neg_part b ≤ pos_part b + neg_part a

-- AMOMIN and AMOMAX store the one of the two values that is the smaller, or the larger, as a
-- signed number of `w` bits; AMOMINU and AMOMAXU as an unsigned one. AMOADD stores the sum modulo
-- 2 ^ w and AMOSWAP the new value; bit `i` of what AMOXOR, AMOOR and AMOAND store is the sum modulo 2,
-- the maximum and the minimum of the two bits.
pub amo_extremes :
    (w orig value i : ℕ)
    → let lo = amo w orig value amo_min in
      let hi = amo w orig value amo_max in
      let lou = amo w orig value amo_minu in
      let hiu = amo w orig value amo_maxu in
      ((lo ≡ orig) ⊎ (lo ≡ value))
      × ((hi ≡ orig) ⊎ (hi ≡ value))
      × ℤ_le (signed w lo) (signed w orig)
      × ℤ_le (signed w lo) (signed w value)
      × ℤ_le (signed w orig) (signed w hi)
      × ℤ_le (signed w value) (signed w hi)
      × ((lou ≡ orig) ⊎ (lou ≡ value))
      × ((hiu ≡ orig) ⊎ (hiu ≡ value))
      × (lou ≤ orig)
      × (lou ≤ value)
      × (orig ≤ hiu)
      × (value ≤ hiu)
      × (amo w orig value amo_add ≡ (orig + value) % 2 ^ w)
      × (amo w orig value amo_swap ≡ value)
      × (test (amo w orig value amo_xor) i ≡ (test orig i + test value i) % 2)
      × (test (amo w orig value amo_or) i ≡ max (test orig i) (test value i))
      × (test (amo w orig value amo_and) i ≡ min (test orig i) (test value i))
unfolding amo
amo_extremes w orig value i = (
  ground arith,
  ground arith,
  ground arith,
  ground arith,
  ground arith,
  ground arith,
  ground arith,
  ground arith,
  ground arith,
  ground arith,
  ground arith,
  ground arith,
  refl,
  refl,
  test-bit_xor orig value i,
  test-bit_or orig value i,
  test-bit_and orig value i,
)
