-- ===== src/Flash/Files.antt =====
-- Where the files stand in the flash memory.
use xemu.Base.{
  ℕ, ◌+◌, ◌-◌, ◌*◌, ◌/◌, ◌%◌, ◌^◌, ◌<◌, ◌≤◌, ◌⊎◌, Bool, true, false, ltb, leb, if◌then◌else◌, ◌≡◌,
  refl, sym, ap, ◌∙◌, arith, List, length, some, ok, Returns,
}
use xemu.Space.{no_params}
use xemu.Ram.{load_le, store_le}
use xemu.Ram.Bytes.{load_le-store_le, load_le-store_le_ne}
use xemu.Image.{Image, round_up8, in_same_page, with_file, read_sized, file_byte}
use xemu.Flash.{
  flash_ptr, flash_read, flash_write, is_access_size, elf64_hdr_check, elf64_hdr_set_length,
  with_length, flash_add_file,
}

flash_ptr-some :
    (flash : Image) (addr size : ℕ)
    → addr + size ≤ flash.mem_size
    → flash.mem_size ≤ 0x4000000
    → flash_ptr addr size flash ≡ ok (some addr)
unfolding flash_ptr
flash_ptr-some flash addr size h bound =
    let g1 : ltb 0x4000000 ((addr + size) % 2 ^ 64) ≡ false = ground (arith, h, bound) in
    let g2 : ltb flash.mem_size ((addr + size) % 2 ^ 64) ≡ false = ground (arith, h, bound) in
    let g3 : leb (addr + size) flash.mem_size ≡ true = ground (arith, h) in
    rw (flash_ptr, g1, g2, g3) refl

read_sized-load_le :
    (mem : ℕ → ℕ) (addr size : ℕ)
    → is_access_size size ≡ true
    → read_sized mem addr size ≡ ok (load_le mem addr size)
read_sized-load_le mem addr size h = ground (arith, h)

flash_read-fits :
    (flash : Image) (addr size : ℕ)
    → addr + size ≤ flash.mem_size
    → flash.mem_size ≤ 0x4000000
    → is_access_size size ≡ true
    → in_same_page addr size ≡ true
    → flash_read addr size no_params flash ≡ ok (load_le flash.mem_ptr addr size, flash)
unfolding flash_read
flash_read-fits flash addr size h bound valid page =
    rw
      (
        flash_read,
        flash_ptr-some flash addr size h bound,
        page,
        read_sized-load_le flash.mem_ptr addr size valid,
      )
      refl

flash_write-fits :
    (flash : Image) (addr value size : ℕ)
    → addr + size ≤ flash.mem_size
    → flash.mem_size ≤ 0x4000000
    → is_access_size size ≡ true
    → in_same_page addr size ≡ true
    → flash_write addr value size no_params flash
      ≡ ok (
        load_le flash.mem_ptr addr size,
        record flash { mem_ptr = store_le flash.mem_ptr addr size value },
      )
unfolding flash_write
flash_write-fits flash addr value size h bound valid page =
    rw (flash_write, flash_ptr-some flash addr size h bound, page, valid) refl

-- A value that is written to the flash memory, in one page and in the files that are there, is read
-- again, cut to the size of the access, and the write returned the value before.
pub flash_read-flash_write :
    (flash : Image) (addr value size : ℕ)
    → addr + size ≤ flash.mem_size
    → flash.mem_size ≤ 0x4000000
    → is_access_size size ≡ true
    → in_same_page addr size ≡ true
    → Returns
        (λ (old, r).
          (flash_read addr size no_params flash ≡ ok (old, flash))
          × (flash_read addr size no_params r ≡ ok (value % 256 ^ size, r)))
        (flash_write addr value size no_params flash)
flash_read-flash_write flash addr value size h bound valid page =
    let r : Image = record flash { mem_ptr = store_le flash.mem_ptr addr size value } in
    rw (flash_write-fits flash addr value size h bound valid page) (
      flash_read-fits flash addr size h bound valid page,
      flash_read-fits r addr size h bound valid page
          ∙ ap (λ v. ok (v, r)) (load_le-store_le flash.mem_ptr addr size value),
    )

-- The memory that a file is added to, before its header is changed.
abbrev with_new : Image → List ℕ → ℕ → ℕ
with_new flash file = with_file flash.mem_ptr flash.mem_size file flash.mem_size

-- The header of an ELF file is changed to hold the length.
abbrev with_header : (ℕ → ℕ) → ℕ → ℕ → ℕ → ℕ
with_header mem p length = elim (elf64_hdr_check mem p) [
  | true ↦ elf64_hdr_set_length mem p length
  | false ↦ mem
]

with_length-fits :
    (mem : ℕ → ℕ) (p length size : ℕ)
    → p + 40 ≤ size
    → with_length mem p length size ≡ ok (with_header mem p length)
unfolding with_length
with_length-fits mem p length size fits =
    let g1 : leb (p + 4) size ≡ true = ground (arith, fits) in
    let g2 : leb (p + 40) size ≡ true = ground (arith, fits) in
    rw (with_length, g1, g2) (by_check (elf64_hdr_check mem p))
  where
    by_check :
        (b : Bool)
        → (if b then ok (elf64_hdr_set_length mem p length) else ok mem)
          ≡ ok (elim b [ true ↦ elf64_hdr_set_length mem p length | false ↦ mem ])
    by_check true = refl
    by_check false = refl

flash_add_file-some :
    (flash : Image) (file : List ℕ)
    → flash.mem_size + length file ≤ 0x4000000
    → 40 ≤ length file
    → flash_add_file (some file) flash
      ≡ ok (
        tt,
        record {
          mem_ptr = with_header (with_new flash file) flash.mem_size (length file);
          mem_size = round_up8 (flash.mem_size + length file);
        },
      )
unfolding flash_add_file
flash_add_file-some flash file fits long =
    let size = round_up8 (flash.mem_size + length file) in
    let up : flash.mem_size + length file ≤ size = omega (arith, fits) in
    let g1 : ltb 0x4000000 size ≡ false = ground (arith, fits) in
    let g2 : leb (flash.mem_size + length file) size ≡ true = ground (arith, up) in
    rw
      (
        flash_add_file,
        g1,
        g2,
        with_length-fits (with_new flash file) flash.mem_size (length file) size
            (omega (arith, up, long)),
      )
      refl

-- Only the eight bytes of e_phoff may change.
load_le-with_header :
    (mem : ℕ → ℕ) (p length b : ℕ)
    → (b < p + 32) ⊎ (p + 40 ≤ b)
    → load_le (with_header mem p length) b 1 ≡ load_le mem b 1
unfolding elf64_hdr_set_length
load_le-with_header mem p length b away = by_check (elf64_hdr_check mem p)
  where
    by_check :
        (c : Bool)
        → load_le (elim c [ true ↦ elf64_hdr_set_length mem p length | false ↦ mem ]) b 1
          ≡ load_le mem b 1
    by_check true = load_le-store_le_ne mem (p + 32) 8 length b 1 (omega (arith, away))
    by_check false = refl

load_le-byte : (mem : ℕ → ℕ) (a : ℕ) → load_le mem a 1 ≡ mem a % 256
unfolding load_le
load_le-byte mem a = omega arith

flash_read-byte :
    (flash : Image) (addr : ℕ)
    → addr < flash.mem_size
    → flash.mem_size ≤ 0x4000000
    → flash_read addr 1 no_params flash ≡ ok (flash.mem_ptr addr % 256, flash)
flash_read-byte flash addr h bound =
    flash_read-fits flash addr 1 (omega (arith, h)) bound refl (ground arith)
    ∙ ap (λ v. ok (v, flash)) (load_le-byte flash.mem_ptr addr)

-- A file that is longer than an ELF header's first 40 bytes and that fits into the flash memory is
-- added: byte `j` of it, outside the field e_phoff, is read at its place behind what was there, the
-- bytes that were there are read as before, and the next file will start at the next multiple of
-- eight, if the memory ended at one.
pub flash_read-flash_add_file :
    (flash : Image) (file : List ℕ) (j k : ℕ)
    → flash.mem_size + length file ≤ 0x4000000
    → 40 ≤ length file
    → j < length file
    → (j < 32) ⊎ (40 ≤ j)
    → k < flash.mem_size
    → flash.mem_size % 8 ≡ 0
    → Returns
        (λ (_, r).
          (flash_read (flash.mem_size + j) 1 no_params r ≡ ok (file_byte file j % 256, r))
          × (flash_read k 1 no_params r ≡ ok (flash.mem_ptr k % 256, r))
          × (r.mem_size ≡ flash.mem_size + (length file + 7) / 8 * 8))
        (flash_add_file (some file) flash)
flash_read-flash_add_file flash file j k fits long inside outside old even =
    rw (flash_add_file-some flash file fits long) (
      flash_read-byte r (flash.mem_size + j) (omega (arith, up, inside)) bound
          ∙ ap (λ v. ok (v, r)) new,
      flash_read-byte r k (omega (arith, up, old)) bound ∙ ap (λ v. ok (v, r)) kept,
      omega (arith, fits, even),
    )
  where
    mem : ℕ → ℕ
    mem = with_header (with_new flash file) flash.mem_size (length file)

    r : Image
    r = record { mem_ptr = mem; mem_size = round_up8 (flash.mem_size + length file) }

    up : flash.mem_size + length file ≤ round_up8 (flash.mem_size + length file)
    up = omega (arith, fits)

    bound : round_up8 (flash.mem_size + length file) ≤ 0x4000000
    bound = omega (arith, fits)

    same :
        (b : ℕ)
        → (b < flash.mem_size + 32) ⊎ (flash.mem_size + 40 ≤ b)
        → mem b % 256 ≡ with_new flash file b % 256
    same b away =
        sym (load_le-byte mem b)
        ∙ load_le-with_header (with_new flash file) flash.mem_size (length file) b away
        ∙ load_le-byte (with_new flash file) b

    new : mem (flash.mem_size + j) % 256 ≡ file_byte file j % 256
    new =
        let place : flash.mem_size + j - flash.mem_size ≡ j = omega arith in
        let g1 : leb flash.mem_size (flash.mem_size + j) ≡ true = ground arith in
        let g2 : ltb (flash.mem_size + j) (flash.mem_size + length file) ≡ true =
          ground (arith, inside) in
        same (flash.mem_size + j) (omega (arith, outside)) ∙ rw (g1, g2, place) refl

    kept : mem k % 256 ≡ flash.mem_ptr k % 256
    kept =
        let g1 : leb flash.mem_size k ≡ false = ground (arith, old) in
        let g2 : ltb k flash.mem_size ≡ true = ground (arith, old) in
        same k (omega (arith, old)) ∙ rw (g1, g2) refl
