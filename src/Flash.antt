-- ===== src/Flash.antt =====
-- flash.c: the flash memory, that the kernel and its modules are read into, and elf.h.
pub mod Files
use xemu.Base.{
  ℕ, zero, suc, ◌+◌, ◌-◌, ◌*◌, ◌/◌, ◌%◌, ◌^◌, ◌<◌, ◌≤◌, Bool, true, false, not, ◌&&◌, ltb, leb,
  ◌==◌, if◌then◌else◌, ◌≡◌, refl, sym, ap, ◌∙◌, arith, List, [], ◌∷◌, length, Option, none, some,
  Outcome, ok, panicked, undefined, M, lift, pure, ◌>>=◌, ◌>>◌, Returns,
}
use xemu.Space.{Params, no_params}
use xemu.Ram.{load_le, store_le}
use xemu.Ram.Bytes.{load_le-store_le, load_le-store_le_ne}
use xemu.Image.{Image, round_up8, in_same_page, with_file, read_sized, file_byte}
use xemu.Module.Names.{Name}

-- The first 0x100 bytes are there from the start.
abbrev pub flash_init : Image
flash_init = record { mem_ptr = λ j. 0; mem_size = 0x100 }

-- `_flash_ptr`: none is NULL. A sum that wraps leaves the memory.
unfoldable pub flash_ptr : ℕ → ℕ → Image → Outcome (Option ℕ)
flash_ptr addr size flash =
    if ltb 0x4000000 ((addr + size) % 2 ^ 64)
    then panicked
    else if ltb flash.mem_size ((addr + size) % 2 ^ 64)
    then ok none
    else if leb (addr + size) flash.mem_size
    then ok (some addr)
    else undefined

unfoldable pub flash_read : ℕ → ℕ → Params → M Image ℕ
unfolding flash_ptr
flash_read addr size _ flash = elim (flash_ptr addr size flash) [
  | ok none ↦ ok (0, flash)
  | ok (some p) ↦ elim (in_same_page addr size) [
    | true ↦ lift (read_sized flash.mem_ptr p size) flash
    | false ↦ panicked
  ]
  | panicked ↦ panicked
  | undefined ↦ undefined
]

abbrev pub is_access_size : ℕ → Bool
is_access_size size =
    if size == 8 then true else if size == 4 then true else if size == 2 then true else size == 1

-- The old value is returned.
unfoldable pub flash_write : ℕ → ℕ → ℕ → Params → M Image ℕ
unfolding flash_ptr
flash_write addr value size _ flash = elim (flash_ptr addr size flash) [
  | ok none ↦ panicked
  | ok (some p) ↦
      if in_same_page addr size && is_access_size size
      then ok (
        load_le flash.mem_ptr p size,
        record flash { mem_ptr = store_le flash.mem_ptr p size value },
      )
      else panicked
  | panicked ↦ panicked
  | undefined ↦ undefined
]

-- `elf64_hdr_check`: the bytes 0x7F, 'E', 'L', 'F'.
unfoldable pub elf64_hdr_check : (ℕ → ℕ) → ℕ → Bool
elf64_hdr_check mem p = load_le mem p 4 == 0x464C457F

-- `elf64_hdr_set_length`: the field e_phoff, 32 bytes after the start.
unfoldable pub elf64_hdr_set_length : (ℕ → ℕ) → ℕ → ℕ → ℕ → ℕ
elf64_hdr_set_length mem p length = store_le mem (p + 32) 8 length

-- The memory with the header of the new file, which starts at `p`, changed; `size` is what calloc was
-- asked for.
unfoldable pub with_length : (ℕ → ℕ) → ℕ → ℕ → ℕ → Outcome (ℕ → ℕ)
unfolding elf64_hdr_check elf64_hdr_set_length
with_length mem p length size =
    if leb (p + 4) size
    then (if elf64_hdr_check mem p
        then if leb (p + 40) size then ok (elf64_hdr_set_length mem p length) else undefined
        else ok mem)
    else undefined

unfoldable pub flash_add_file : Option (List ℕ) → M Image (Unit {0})
unfolding with_length
flash_add_file none flash = panicked
flash_add_file (some file) flash =
    let size = round_up8 (flash.mem_size + length file) in
    if ltb 0x4000000 size
    then panicked
    else if leb (flash.mem_size + length file) size
    then elim (with_length (with_file flash.mem_ptr flash.mem_size file flash.mem_size)
        flash.mem_size (length file) size) [
          | ok mem ↦ ok (tt, record { mem_ptr = mem; mem_size = size })
          | panicked ↦ panicked
          | undefined ↦ undefined
        ]
    else undefined

-- `sort_func`, for each of the modules that sort_modules hands over, in this order; `files` finds the
-- file of a name.
unfoldable pub add_modules : (Name → Option (List ℕ)) → List Name → M Image (Unit {0})
unfolding flash_add_file
add_modules files [] = pure tt
add_modules files (name ∷ names) = do flash_add_file (files name); add_modules files names

-- `flash_load_modules`, with the modules that sort_modules hands over.
unfoldable pub flash_load_modules : (Name → Option (List ℕ)) → Name → List Name → M Image (Unit {0})
unfolding add_modules
flash_load_modules files startup modules = do
  flash_add_file (files startup)
  add_modules files modules
