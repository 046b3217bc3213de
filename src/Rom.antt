-- ===== src/Rom.antt =====
-- rom.c: the read-only memory and the files that are put into it.
use xemu.Base.{
  ℕ, ◌+◌, ◌-◌, ◌%◌, ◌^◌, ◌<◌, ◌≤◌, inl, inr, true, false, ◌&&◌, ltb, leb, ◌==◌, if◌then◌else◌, ◌≡◌,
  refl, ap, ◌∙◌, arith, List, length, Option, none, some, Outcome, ok, panicked, undefined, M,
  Returns,
}
use xemu.Space.{Params, no_params}
use xemu.Ram.{load_le, store_le}
use xemu.Ram.Bytes.{load_le-store_le, load_le-store_le_ne}
use xemu.Image.{Image, round_up8, with_file, read_sized, file_byte}

-- `mem_ptr` is NULL and `mem_size` 0.
abbrev pub rom_init : Image
rom_init = record { mem_ptr = λ j. 0; mem_size = 0 }

-- `_rom_ptr` returns the address in `mem_ptr`; a sum that wraps leaves the memory.
unfoldable pub rom_ptr : ℕ → ℕ → Image → Outcome ℕ
rom_ptr addr size rom =
    if ltb rom.mem_size ((addr + size) % 2 ^ 64)
    then panicked
    else if leb (addr + size) rom.mem_size
    then ok addr
    else undefined

unfoldable pub rom_read : ℕ → ℕ → Params → M Image ℕ
unfolding rom_ptr
rom_read addr size _ rom = elim (rom_ptr addr size rom) [
  | ok p ↦ elim (read_sized rom.mem_ptr p size) [
    | ok v ↦ ok (v, rom)
    | panicked ↦ panicked
    | undefined ↦ undefined
  ]
  | panicked ↦ panicked
  | undefined ↦ undefined
]

-- The callback is `as_write_dummy`.
unfoldable pub rom_write : ℕ → ℕ → ℕ → Params → M Image ℕ
rom_write addr value size _ rom = panicked

-- The last lines of `rom_add_file`: the size of the file, in the eight bytes before it.
abbrev pub record_size : (ℕ → ℕ) → ℕ → ℕ → Outcome (ℕ → ℕ)
record_size mem base size =
    if base == 0
    then ok mem
    else if leb 8 base
    then ok (store_le mem (base - 8) 8 size)
    else undefined

-- A file that cannot be opened is none. The memory that calloc returns is too small when the 32-bit
-- mask of ROUND_UP has cut the size.
unfoldable pub rom_add_file : Option (List ℕ) → ℕ → M Image (Unit {0})
rom_add_file none base rom = panicked
rom_add_file (some file) base rom =
    let size = round_up8 (base + length file) in
    if ltb base rom.mem_size
    then panicked
    else if ltb 0xFF000 size
    then panicked
    else if leb rom.mem_size size && leb (base + length file) size
    then elim (record_size (with_file rom.mem_ptr rom.mem_size file base) base (length file)) [
      | ok mem ↦ ok (tt, record { mem_ptr = mem; mem_size = size })
      | panicked ↦ panicked
      | undefined ↦ undefined
    ]
    else undefined

round_up8-fits : (x : ℕ) → x ≤ 0xFF000 → (x ≤ round_up8 x) × (round_up8 x ≤ 0xFF000)
round_up8-fits x h = (omega (arith, h), omega (arith, h))

-- A file that fits is put in.
rom_add_file-some :
    (rom : Image) (file : List ℕ) (base : ℕ)
    → rom.mem_size ≤ base
    → 8 ≤ base
    → base + length file ≤ 0xFF000
    → rom_add_file (some file) base rom
      ≡ ok (
        tt,
        record {
          mem_ptr =
              store_le (with_file rom.mem_ptr rom.mem_size file base) (base - 8) 8 (length file);
          mem_size = round_up8 (base + length file);
        },
      )
unfolding rom_add_file
rom_add_file-some rom file base after big fits =
    let (up, low) = round_up8-fits (base + length file) fits in
    let g1 : ltb base rom.mem_size ≡ false = ground (arith, after) in
    let g2 : ltb 0xFF000 (round_up8 (base + length file)) ≡ false = ground (arith, low) in
    let g3 : leb rom.mem_size (round_up8 (base + length file)) ≡ true = ground (arith, up, after) in
    let g4 : leb (base + length file) (round_up8 (base + length file)) ≡ true =
      ground (arith, up) in
    let g5 : (base == 0) ≡ false = ground (arith, big) in
    let g6 : leb 8 base ≡ true = ground (arith, big) in
    rw (rom_add_file, g1, g2, g3, g4, g5, g6) refl

rom_read-byte :
    (rom : Image) (addr : ℕ)
    → addr < rom.mem_size
    → rom.mem_size < 2 ^ 64
    → rom_read addr 1 no_params rom ≡ ok (load_le rom.mem_ptr addr 1, rom)
unfolding rom_read rom_ptr
rom_read-byte rom addr h bound =
    let g1 : ltb rom.mem_size ((addr + 1) % 2 ^ 64) ≡ false = ground (arith, h, bound) in
    let g2 : leb (addr + 1) rom.mem_size ≡ true = ground (arith, h) in
    rw (rom_read, rom_ptr, g1, g2) refl

rom_read-dword :
    (rom : Image) (addr : ℕ)
    → addr + 8 ≤ rom.mem_size
    → rom.mem_size < 2 ^ 64
    → rom_read addr 8 no_params rom ≡ ok (load_le rom.mem_ptr addr 8, rom)
unfolding rom_read rom_ptr
rom_read-dword rom addr h bound =
    let g1 : ltb rom.mem_size ((addr + 8) % 2 ^ 64) ≡ false = ground (arith, h, bound) in
    let g2 : leb (addr + 8) rom.mem_size ≡ true = ground (arith, h) in
    rw (rom_read, rom_ptr, g1, g2) refl

load_le-byte : (mem : ℕ → ℕ) (a : ℕ) → load_le mem a 1 ≡ mem a % 256
unfolding load_le
load_le-byte mem a = omega arith

-- A file that is added after those that are there, at `base` or eight bytes or more above the start,
-- and that fits: it is added, and then byte `j` of it is read at `base + j`, its size is read in the
-- eight bytes before it, and byte `k` of what was there before is read as before, if it is below them.
pub rom_read-rom_add_file :
    (rom : Image) (file : List ℕ) (base j k : ℕ)
    → rom.mem_size ≤ base
    → 8 ≤ base
    → base + length file ≤ 0xFF000
    → j < length file
    → k < rom.mem_size
    → k + 8 < base
    → Returns
        (λ (_, r).
          (rom_read (base + j) 1 no_params r ≡ ok (file_byte file j % 256, r))
          × (rom_read (base - 8) 8 no_params r ≡ ok (length file, r))
          × (rom_read k 1 no_params r ≡ ok (rom.mem_ptr k % 256, r)))
        (rom_add_file (some file) base rom)
rom_read-rom_add_file rom file base j k after big fits inside old below =
    rw (rom_add_file-some rom file base after big fits) (
      rom_read-byte r (base + j) (omega (arith, up, inside)) bound
          ∙ ap (λ v. ok (v, r)) (at_file ∙ loaded),
      rom_read-dword r (base - 8) (omega (arith, up, big)) bound ∙ ap (λ v. ok (v, r)) size,
      rom_read-byte r k (omega (arith, up, below)) bound ∙ ap (λ v. ok (v, r)) (before ∙ kept),
    )
  where
    mem : ℕ → ℕ
    mem = with_file rom.mem_ptr rom.mem_size file base

    r : Image
    r = record {
      mem_ptr = store_le mem (base - 8) 8 (length file);
      mem_size = round_up8 (base + length file);
    }

    up : base + length file ≤ round_up8 (base + length file)
    up = (round_up8-fits (base + length file) fits).0

    bound : round_up8 (base + length file) < 2 ^ 64
    bound = omega (arith, (round_up8-fits (base + length file) fits).1)

    at_file :
        load_le (store_le mem (base - 8) 8 (length file)) (base + j) 1 ≡ load_le mem (base + j) 1
    at_file =
        load_le-store_le_ne mem (base - 8) 8 (length file) (base + j) 1 (inr (omega (arith, big)))

    loaded : load_le mem (base + j) 1 ≡ file_byte file j % 256
    loaded =
        let place : base + j - base ≡ j = omega arith in
        let g1 : leb base (base + j) ≡ true = ground arith in
        let g2 : ltb (base + j) (base + length file) ≡ true = ground (arith, inside) in
        load_le-byte mem (base + j) ∙ rw (g1, g2, place) refl

    size : load_le (store_le mem (base - 8) 8 (length file)) (base - 8) 8 ≡ length file
    size = load_le-store_le mem (base - 8) 8 (length file) ∙ omega (arith, fits)

    before : load_le (store_le mem (base - 8) 8 (length file)) k 1 ≡ load_le mem k 1
    before = load_le-store_le_ne mem (base - 8) 8 (length file) k 1 (inl (omega (arith, below)))

    kept : load_le mem k 1 ≡ rom.mem_ptr k % 256
    kept =
        let g1 : leb base k ≡ false = ground (arith, below) in
        let g2 : ltb k rom.mem_size ≡ true = ground (arith, old) in
        load_le-byte mem k ∙ rw (g1, g2) refl
