-- ===== src/Module/Analysis.antt =====
-- analysis_module of module.c: the ELF sections of a module.
use xemu.Base.{
  ℕ, zero, suc, ◌+◌, ◌*◌, ◌/◌, ◌^◌, ◌||◌, Bool, true, false, ltb, leb, ◌==◌, if◌then◌else◌, List,
  [], ◌∷◌, length, get_elem?, Option, none, some, Outcome, ok, panicked, undefined, or_undefined,
  map_outcome, M, lift, pure, ◌>>=◌, ◌>>◌,
}
use xemu.Module.Names.{Name}
use xemu.Module.Symbols.{Symbol, Sym, export_symbols, discover_undef_syms}
use xemu.Module.Sort.{Module, status_none}
use xemu.Module.Discover.{Directory}
use xemu.Space.{drop, from_bytes}
use xemu.Text.{codes, take}

-- The field of `n` bytes at an offset of a structure, the lowest byte first.
abbrev field : List ℕ → ℕ → ℕ → ℕ
field bytes offset n = from_bytes n (drop offset bytes)

-- The fields of `Elf64_Ehdr` and of `Elf64_Shdr` that are read.
pub record Ehdr : Type 0 where
  pub e_shoff : ℕ
  pub e_shnum : ℕ
  pub e_shstrndx : ℕ

pub record Shdr : Type 0 where
  pub sh_name : ℕ
  pub sh_type : ℕ
  pub sh_offset : ℕ
  pub sh_size : ℕ
  pub sh_link : ℕ

unfoldable pub ehdr_of : List ℕ → Ehdr
ehdr_of bytes = record {
  e_shoff = field bytes 40 8;
  e_shnum = field bytes 60 2;
  e_shstrndx = field bytes 62 2;
}

unfoldable pub shdr_of : List ℕ → Shdr
shdr_of bytes = record {
  sh_name = field bytes 0 4;
  sh_type = field bytes 4 4;
  sh_offset = field bytes 24 8;
  sh_size = field bytes 32 8;
  sh_link = field bytes 40 4;
}

unfoldable pub sym_of : List ℕ → Sym
sym_of bytes = record { st_name = field bytes 0 4; st_shndx = field bytes 6 2 }

-- An array of `n` structures of `size` bytes.
unfoldable pub array_of {ℓ} : {A : Type ℓ} → (List ℕ → A) → ℕ → ℕ → List ℕ → List A
array_of one size zero bytes = []
array_of one size (suc n) bytes = one bytes ∷ array_of one size n (drop size bytes)

-- `fseek` and `fread` of all `size` bytes. An offset that a `long` cannot hold, which `fseek`
-- refuses, is left out.
unfoldable pub read_all : List ℕ → ℕ → ℕ → Outcome (List ℕ)
read_all bytes offset size =
    if leb (2 ^ 63) offset
    then undefined
    else if leb (offset + size) (length bytes) || size == 0
    then ok (take size (drop offset bytes))
    else panicked

abbrev pub get_strtab : List ℕ → Shdr → Outcome (List ℕ)
get_strtab bytes shdr = read_all bytes shdr.sh_offset shdr.sh_size

-- `strcmp(bytes + offset, name) == 0`, for a table that need not end with a NUL.
unfoldable pub same_from : List ℕ → Name → Outcome Bool
same_from [] name = undefined
same_from (c ∷ cs) [] = ok (c == 0)
same_from (c ∷ cs) (n ∷ ns) = elim (c == n) [ true ↦ same_from cs ns | false ↦ ok false ]

abbrev pub ksymtab_strings : Name
ksymtab_strings = codes "_ksymtab_strings"

-- The module that is analysed: its file, its section headers, the table of their names, and its
-- address.
pub record Elf : Type 0 where
  pub bytes : List ℕ
  pub sechdrs : List Shdr
  pub secstrings : List ℕ
  pub owner : ℕ

-- `export_symbols` into the list of all symbols.
abbrev pub exporting : List ℕ → ℕ → M (List Symbol) (Unit {0})
exporting bytes owner symbols =
    map_outcome (λ all. (tt, all)) (export_symbols bytes (some owner) symbols)

-- A symbol table: `discover_undef_syms` with the string table that it is linked to.
unfoldable pub undef_of : Elf → Shdr → List Name → M (List Symbol) (List Name)
undef_of elf shdr undefs = do
  linked ← lift (or_undefined (get_elem? elf.sechdrs shdr.sh_link))
  strtab ← lift (get_strtab elf.bytes linked)
  table ← lift (read_all elf.bytes shdr.sh_offset shdr.sh_size)
  lift (discover_undef_syms strtab (array_of sym_of 24 (shdr.sh_size / 24) table) undefs)

-- Any other section: the names that it exports.
unfoldable pub exports_of : Elf → Shdr → List Name → M (List Symbol) (List Name)
exports_of elf shdr undefs = do
  wanted ← lift (same_from (drop shdr.sh_name elf.secstrings) ksymtab_strings)
  if wanted
      then (do strings ← lift (get_strtab elf.bytes shdr); exporting strings elf.owner; pure undefs)
      else pure undefs

-- The loop over the sections, with the undefined symbols so far. `SHT_SYMTAB` is 2.
unfoldable pub sections_from : Elf → List Shdr → List Name → M (List Symbol) (List Name)
unfolding undef_of exports_of
sections_from elf [] undefs = pure undefs
sections_from elf (shdr ∷ rest) undefs = do
  next ← if shdr.sh_type == 2 then undef_of elf shdr undefs else exports_of elf shdr undefs
  sections_from elf rest next

-- `analysis_module` behind `fopen`: the undefined symbols of the file.
unfoldable pub analyse : List ℕ → ℕ → M (List Symbol) (List Name)
unfolding sections_from
analyse bytes owner = do
  header ← lift (read_all bytes 0 64)
  let hdr = ehdr_of header
  table ← lift (read_all bytes hdr.e_shoff (hdr.e_shnum * 64))
  let sechdrs = array_of shdr_of 64 hdr.e_shnum table
  names ← lift (or_undefined (get_elem? sechdrs hdr.e_shstrndx))
  secstrings ← lift (get_strtab bytes names)
  sections_from
      (record { bytes = bytes; sechdrs = sechdrs; secstrings = secstrings; owner = owner }) sechdrs
      []

-- A file that cannot be opened ends the emulator.
abbrev pub opened : Option (List ℕ) → Outcome (List ℕ)
opened none = panicked
opened (some bytes) = ok bytes

-- The name of the file is put together in 256 bytes, behind the six of "image/".
unfoldable pub analysis_module : Directory → ℕ → Name → M (List Symbol) Module
unfolding analyse
analysis_module dir owner name =
    if ltb (length name) 250
    then (do
      bytes ← lift (opened (dir.file name))
      undefs ← analyse bytes owner
      pure (record { name = name; status = status_none; undef_syms = undefs; dependencies = [] }))
    else lift undefined
