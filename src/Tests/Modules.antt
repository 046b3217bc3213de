-- ===== src/Tests/Modules.antt =====
-- Runs of the theorems on module.c, rom.c and flash.c.
use xemu.Base.{
  ℕ, ◌+◌, ◌*◌, ◌%◌, ◌<◌, ◌≡◌, ◌⊎◌, refl, inr, arith, true, false, List, [], ◌∷◌, ◌++◌, map, length,
  none, some, Returns, ok, panicked, undefined, replicate, if◌then◌else◌, ◌==◌, ◌-◌, ◌/◌, ◌&&◌,
  ◌||◌,
}
use xemu.Space.{no_params}
use xemu.Image.{Image, file_byte}
use xemu.Rom.{rom_read, rom_add_file, rom_read-rom_add_file}
use xemu.Flash.{flash_init, flash_read, flash_add_file}
use xemu.Flash.Files.{flash_read-flash_add_file}
use xemu.Module.Names.{Name, check_module, from_last_dot}
use xemu.Module.Symbols.{Symbol, match_undef, find_dependency, export_symbols, resolve_undefs}
use xemu.Module.Sort.{
  status_none, Module, Loader, check_all, check_dependency, sort_modules, sort_loop,
  traverse_dependency, visit_all, finish,
}
use xemu.Module.Kept.{IsFresh}
use xemu.Module.Sorted.{all_called, sort_modules-returns}
use xemu.Module.Resolve.{all_exported, is_wanted, Resolved, resolve_undefs-Resolved}
use xemu.Module.Table.{table_of, export_symbols-table_of}

-- Module 1 wants "b", which module 2 exports, module 2 wants "c" and "k", which module 3 and startup.bin
-- export.
abbrev exported : List Symbol
exported =
    record { name = 107 ∷ []; owner = none }
    ∷ record { name = 98 ∷ []; owner = some 2 }
    ∷ record { name = 99 ∷ []; owner = some 3 }
    ∷ []

abbrev fresh_module : Name → List Name → Module
fresh_module name wanted = record {
  name = name;
  status = status_none;
  undef_syms = wanted;
  dependencies = [];
}

abbrev three : ℕ → Module
three i = fresh_module ((96 + i) ∷ []) (
    if i == 1
    then (98 ∷ []) ∷ []
    else if i == 2
    then (99 ∷ []) ∷ (107 ∷ []) ∷ (99 ∷ []) ∷ []
    else [])

abbrev loader : Loader
loader = record { heap = three; called = [] }

loader-IsFresh : IsFresh loader
loader-IsFresh = record { untouched = λ j. refl; nothing = refl }

-- The loader after sort_modules.
abbrev sorted : Loader
sorted = elim (sort_modules 4 none exported (1 ∷ 2 ∷ 3 ∷ []) loader) [ ok (_, t) ↦ t | _ ↦ loader ]

sorts : sort_modules 4 none exported (1 ∷ 2 ∷ 3 ∷ []) loader ≡ ok (tt, sorted)
unfolding sort_modules check_all check_dependency resolve_undefs match_undef sort_loop
    traverse_dependency visit_all finish
sorts = refl

sorts_called : sorted.called ≡ 1 ∷ 2 ∷ 3 ∷ []
unfolding sort_modules check_all check_dependency resolve_undefs match_undef sort_loop
    traverse_dependency visit_all finish
sorts_called = refl

all_found :
    (i : ℕ)
    → find_dependency (1 ∷ 2 ∷ 3 ∷ []) i ≡ true
    → all_exported exported (three i).undef_syms ≡ true
all_found i h = ground (arith, h)

lower :
    (i d : ℕ)
    → (find_dependency [] d
        || (find_dependency (1 ∷ 2 ∷ 3 ∷ []) i && is_wanted exported (three i).undef_syms d))
      ≡ true
    → 4 - d < 4 - i
unfolding match_undef
lower i d h = ground (arith, h)

sort_modules-returns_example :
    (t : Loader) × (sort_modules 4 none exported (1 ∷ 2 ∷ 3 ∷ []) loader ≡ ok (tt, t))
    × (all_called none loader (1 ∷ 2 ∷ 3 ∷ []) t.called ≡ true)
sort_modules-returns_example =
    sort_modules-returns (λ i. 4 - i) 4 none exported (1 ∷ 2 ∷ 3 ∷ []) loader loader-IsFresh
      all_found lower (λ i h. ground (arith, h))

-- Module 2 has one name that is exported twice and one of startup.bin.
resolve_undefs-Resolved_example :
    ((all_exported exported ((99 ∷ []) ∷ (107 ∷ []) ∷ []) ≡ false)
      × (resolve_undefs exported ((99 ∷ []) ∷ (107 ∷ []) ∷ []) (5 ∷ []) ≡ panicked))
    ⊎ ((all_exported exported ((99 ∷ []) ∷ (107 ∷ []) ∷ []) ≡ true)
        × ((es : List ℕ) × (resolve_undefs exported ((99 ∷ []) ∷ (107 ∷ []) ∷ []) (5 ∷ []) ≡ ok es)
            × Resolved exported ((99 ∷ []) ∷ (107 ∷ []) ∷ []) (5 ∷ []) es))
resolve_undefs-Resolved_example =
    resolve_undefs-Resolved exported ((99 ∷ []) ∷ (107 ∷ []) ∷ []) (5 ∷ [])

export_symbols-table_of_example :
    export_symbols (table_of ((97 ∷ 98 ∷ []) ∷ [] ∷ (99 ∷ []) ∷ [])) (some 7) exported
    ≡ ok (
        exported
        ++ map
            (λ name. record { name = name; owner = some 7 })
            ((97 ∷ 98 ∷ []) ∷ [] ∷ (99 ∷ []) ∷ []))
export_symbols-table_of_example =
    export_symbols-table_of ((97 ∷ 98 ∷ []) ∷ [] ∷ (99 ∷ []) ∷ []) (some 7) exported
      (refl, (refl, (refl, tt)))

-- A file without a dot in its name makes check_module read behind NULL; "ax.ko" is a module.
check_module_no_dot : check_module none (97 ∷ 120 ∷ []) ≡ undefined
unfolding check_module from_last_dot
check_module_no_dot = refl

check_module_ko : check_module none (97 ∷ 120 ∷ 46 ∷ 107 ∷ 111 ∷ []) ≡ ok true
unfolding check_module from_last_dot
check_module_ko = refl

-- The device tree at 0x100, of four bytes.
abbrev tree_file : List ℕ
tree_file = 0xD0 ∷ 0x0D ∷ 0xFE ∷ 0xED ∷ []

abbrev bios : Image
bios = record { mem_ptr = λ j. j; mem_size = 0x40 }

rom_read-rom_add_file_example :
    Returns
      (λ (_, r).
        (rom_read (0x100 + 2) 1 no_params r ≡ ok (file_byte tree_file 2 % 256, r))
        × (rom_read (0x100 - 8) 8 no_params r ≡ ok (length tree_file, r))
        × (rom_read 0x20 1 no_params r ≡ ok (0x20 % 256, r)))
      (rom_add_file (some tree_file) 0x100 bios)
rom_read-rom_add_file_example =
    rom_read-rom_add_file bios tree_file 0x100 2 0x20 (omega arith) (omega arith) (omega arith)
      (omega arith) (omega arith) (omega arith)

-- A file of 41 bytes that starts with the magic number of ELF.
abbrev elf_file : List ℕ
elf_file = 0x7F ∷ 0x45 ∷ 0x4C ∷ 0x46 ∷ replicate 36 1 ++ 7 ∷ []

flash_read-flash_add_file_example :
    Returns
      (λ (_, r).
        (flash_read (0x100 + 40) 1 no_params r ≡ ok (file_byte elf_file 40 % 256, r))
        × (flash_read 3 1 no_params r ≡ ok (0 % 256, r))
        × (r.mem_size ≡ 0x100 + (length elf_file + 7) / 8 * 8))
      (flash_add_file (some elf_file) flash_init)
flash_read-flash_add_file_example =
    flash_read-flash_add_file flash_init elf_file 40 3 (omega arith) (omega arith) (omega arith)
      (inr (omega arith)) (omega arith) (omega arith)
