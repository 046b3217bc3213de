-- ===== src/Image.antt =====
-- Memory of the host that files are read into: the fields `mem_ptr` and `mem_size` of rom_t and of
-- flash_t.
use xemu.Base.{
  ℕ, ◌+◌, ◌-◌, ◌*◌, ◌/◌, ◌%◌, ◌^◌, Bool, ◌&&◌, ltb, leb, ◌==◌, if◌then◌else◌, List, length,
  get_elem?, none, some, Outcome, ok, panicked,
}
use xemu.Ram.{load_le}

pub record Image : Type 0 where
  pub mem_ptr : ℕ → ℕ
  pub mem_size : ℕ

-- `ROUND_UP(x, 8)` of util.h: the mask `~(8 - 1u)` has 32 bits.
abbrev pub round_up8 : ℕ → ℕ
round_up8 x = (x + 7) % 2 ^ 64 % 2 ^ 32 / 8 * 8

-- `IN_SAME_PAGE` of address_space.h, for sums below 2 ^ 64.
abbrev pub in_same_page : ℕ → ℕ → Bool
in_same_page addr size = addr / 2 ^ 12 == (addr + size - 1) / 2 ^ 12

abbrev pub file_byte : List ℕ → ℕ → ℕ
file_byte file j = elim (get_elem? file j) [ some byte ↦ byte | none ↦ 0 ]

-- What `calloc`, `memcpy` of the old bytes and `fread` at `base` leave.
abbrev pub with_file : (ℕ → ℕ) → ℕ → List ℕ → ℕ → ℕ → ℕ
with_file mem old file base j =
    if leb base j && ltb j (base + length file)
    then file_byte file (j - base)
    else if ltb j old
    then mem j
    else 0

-- The access to the bytes at `addr`, of the sizes that the processor has.
abbrev pub read_sized : (ℕ → ℕ) → ℕ → ℕ → Outcome ℕ
read_sized mem addr size =
    if size == 8
    then ok (load_le mem addr 8)
    else if size == 4
    then ok (load_le mem addr 4)
    else if size == 2
    then ok (load_le mem addr 2)
    else if size == 1
    then ok (load_le mem addr 1)
    else panicked
