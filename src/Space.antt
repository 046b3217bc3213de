-- ===== src/Space.antt =====
-- address_space.h and address_space.c: the tree of address spaces, and the accesses to physical
-- addresses that go through it to a device.
pub mod Lookup
use xemu.Base.{
  ℕ, zero, suc, ◌+◌, ◌-◌, ◌*◌, ◌/◌, ◌%◌, ◌^◌, Bool, true, false, ◌&&◌, ◌||◌, leb, ◌==◌,
  if◌then◌else◌, List, [], ◌∷◌, ◌++◌, length, Outcome, ok, panicked, undefined, M, lift, pure,
  ◌>>=◌, ◌>>◌,
}

pub data Params : Type 0 where
  no_params lr_sc amo_min amo_max amo_minu amo_maxu amo_add amo_xor amo_or amo_and : Params
  amo_swap last : Params

-- A pointer to an `address_space`: NULL, or the range, the device with its callbacks, the first
-- child and the next sibling.
pub data Space (D : Type 0) : Type 0 where
  null : Space D
  space : (start last : ℕ) → D → (children sibling : Space D) → Space D

module _ {D : Type 0} where
  -- `init_address_space`, with the device and the callbacks that the caller then sets.
  abbrev pub init_address_space : ℕ → ℕ → D → Space D
  init_address_space start end device = space start end device null null

  -- `register_address_space(parent, child)`, for pointers that are not NULL.
  unfoldable pub register_address_space : Space D → Space D → Space D
  register_address_space null child = null
  register_address_space (space s e d null sibling) child = space s e d child sibling
  register_address_space (space s e d (space s' e' d' cs' sib') sibling) null =
      space s e d (space s' e' d' cs' sib') sibling
  register_address_space (space s e d (space s' e' d' cs' sib') sibling) (space cs ce cd cc _) =
      space s e d (space cs ce cd cc (space s' e' d' cs' sib')) sibling

  -- The walk that `as_read_nommu` and `as_write_nommu` make: along the siblings to the first range
  -- that holds the address, then into its children with the address relative to its start. The
  -- device `d` is the one whose children are searched.
  unfoldable pub resolve : Space D → D → ℕ → D × ℕ
  resolve null d addr = (d, addr)
  resolve (space start end d' children sibling) d addr = elim (leb start addr && leb addr end) [
    | true ↦ resolve children d' (addr - start)
    | false ↦ resolve sibling d addr
  ]

  abbrev pub resolve_root : Space D → ℕ → Outcome (D × ℕ)
  resolve_root null addr = undefined
  resolve_root (space start end d children sibling) addr = ok (resolve children d addr)

abbrev valid_size : ℕ → Bool
valid_size size = size == 1 || size == 2 || size == 4 || size == 8

-- The callbacks of the devices: `read_op` and `write_op`.
pub record Ops (D S : Type 0) : Type 0 where
  pub read_op : D → ℕ → ℕ → Params → M S ℕ
  pub write_op : D → ℕ → ℕ → ℕ → Params → M S ℕ

module _ {D S : Type 0} (ops : Ops D S) (root : Space D) where
  unfoldable pub as_read_nommu : ℕ → ℕ → Params → M S ℕ
  as_read_nommu addr size params =
      if valid_size size
      then (do
        (device, offset) ← lift (resolve_root root addr)
        ops.read_op device offset size params)
      else lift panicked

  unfoldable pub as_write_nommu : ℕ → ℕ → ℕ → Params → M S ℕ
  as_write_nommu addr size value params =
      if valid_size size
      then (do
        (device, offset) ← lift (resolve_root root addr)
        ops.write_op device offset value size params)
      else lift panicked

-- The bytes of a number, the lowest first, as they stand in the memory of the host.
unfoldable pub to_bytes : ℕ → ℕ → List ℕ
to_bytes zero v = []
to_bytes (suc n) v = v % 256 ∷ to_bytes n (v / 256)

-- The loops of `as_read_blob`: `n` reads of eight bytes, and of one byte.
module _ {S : Type 0} (read_nommu : ℕ → ℕ → Params → M S ℕ) where
  unfoldable pub read_dwords : ℕ → ℕ → M S (List ℕ)
  read_dwords zero addr = pure []
  read_dwords (suc n) addr = do
    dword ← read_nommu addr 8 no_params
    rest ← read_dwords n ((addr + 8) % 2 ^ 64)
    pure (to_bytes 8 dword ++ rest)

  unfoldable pub read_bytes : ℕ → ℕ → M S (List ℕ)
  read_bytes zero addr = pure []
  read_bytes (suc n) addr = do
    byte ← read_nommu addr 1 no_params
    rest ← read_bytes n ((addr + 1) % 2 ^ 64)
    pure (byte % 256 ∷ rest)

  unfoldable pub as_read_blob : ℕ → ℕ → M S (List ℕ)
  unfolding read_dwords read_bytes
  as_read_blob addr size =
      if addr % 8 == 0
      then (do
        dwords ← read_dwords (size / 8) addr
        bytes ← read_bytes (size % 8) ((addr + size / 8 * 8) % 2 ^ 64)
        pure (dwords ++ bytes))
      else lift panicked

-- The number that `n` bytes make, the lowest first.
unfoldable pub from_bytes : ℕ → List ℕ → ℕ
from_bytes zero bytes = 0
from_bytes (suc n) [] = 0
from_bytes (suc n) (byte ∷ bytes) = byte % 256 + 256 * from_bytes n bytes

unfoldable pub drop : ℕ → List ℕ → List ℕ
drop zero bytes = bytes
drop (suc n) [] = []
drop (suc n) (byte ∷ bytes) = drop n bytes

-- The loops of `as_write_blob`, over `bytes` of the size that is written: `n` writes of eight bytes,
-- and the rest byte by byte.
module _ {S : Type 0} (write_nommu : ℕ → ℕ → ℕ → Params → M S ℕ) where
  unfoldable pub write_dwords : ℕ → ℕ → List ℕ → M S (Unit {0})
  unfolding from_bytes drop
  write_dwords zero addr bytes = pure tt
  write_dwords (suc n) addr bytes = do
    _ ← write_nommu addr 8 (from_bytes 8 bytes) no_params
    write_dwords n ((addr + 8) % 2 ^ 64) (drop 8 bytes)

  unfoldable pub write_bytes : ℕ → List ℕ → M S (Unit {0})
  write_bytes addr [] = pure tt
  write_bytes addr (byte ∷ bytes) = do
    _ ← write_nommu addr 1 (byte % 256) no_params
    write_bytes ((addr + 1) % 2 ^ 64) bytes

  unfoldable pub as_write_blob : ℕ → List ℕ → M S (Unit {0})
  unfolding write_dwords write_bytes drop
  as_write_blob addr bytes =
      let size = length bytes in
      if addr % 8 == 0
      then (do
        write_dwords (size / 8) addr bytes
        write_bytes ((addr + size / 8 * 8) % 2 ^ 64) (drop (size / 8 * 8) bytes))
      else lift panicked
