-- ===== src/Tests/Loading.antt =====
-- Runs of the theorems on the files that module.c reads.
use xemu.Base.{
  ℕ, ◌≡◌, refl, arith, true, false, List, [], ◌∷◌, ◌++◌, length, none, some, ok, replicate,
  if◌then◌else◌, ◌&&◌,
}
use xemu.Text.{codes, strstr, take}
use xemu.Text.Lines.{lines_from}
use xemu.Space.{from_bytes, drop}
use xemu.SystemMap.{MapItem}
use xemu.SystemMap.Render.{render}
use xemu.Module.Names.{same_name, check_module, from_last_dot}
use xemu.Module.Symbols.{
  Symbol, export_symbols, discover_undef_syms, undef_names, string_at, match_undef, resolve_undefs,
  reversed, export_from, find_dependency,
}
use xemu.Module.Sort.{
  Module, Loader, check_all, check_dependency, sort_modules, sort_loop, traverse_dependency,
  visit_all, finish,
}
use xemu.Module.Order.{IsOrdered}
use xemu.Module.Resolve.{is_wanted}
use xemu.Module.Sorted.{all_called}
use xemu.Module.Discover.{
  Directory, discover_modules, discover_from, range_from, detect_syms_range, read_at, init_symtable,
  start_mark, end_mark, system_map,
}
use xemu.Module.Discover.Range.{detect_syms_range-render}
use xemu.Module.Analysis.{
  ehdr_of, shdr_of, sym_of, array_of, read_all, same_from, undef_of, exports_of, sections_from,
  analyse, analysis_module,
}
use xemu.Module.Load.{analyse_all, read_modules, load_modules, loader_of, heap_of, addresses}
use xemu.Module.Load.Ordered.{names_of, load_modules-IsOrdered}

abbrev symbols_start : MapItem
symbols_start = record { name = start_mark; addr = 0xffffffe000208000 }

abbrev symbols_end : MapItem
symbols_end = record { name = end_mark; addr = 0xffffffe000208040 }

abbrev text : MapItem
text = record { name = codes "_start"; addr = 0xffffffe000000000 }

abbrev map_file : List ℕ
map_file =
    render (
      (b'T', text) ∷ (b'R', symbols_start) ∷ (b'r', text) ∷ (b'R', symbols_end) ∷ (b'b', text) ∷ [])

abbrev mapped : Directory
mapped = record {
  entries = none;
  file = λ name. if same_name name system_map then some map_file else none;
}

no_start : strstr text.name start_mark ≡ false
unfolding strstr
no_start = refl

no_end : strstr text.name end_mark ≡ false
unfolding strstr
no_end = refl

detect_syms_range-render_example : detect_syms_range mapped ≡ ok (0x208000, 0x40)
detect_syms_range-render_example =
    detect_syms_range-render mapped ((b'T', text) ∷ []) ((b'r', text) ∷ []) ((b'b', text) ∷ []) b'R'
      b'R' symbols_start symbols_end (ground arith, tt) (ground arith, tt) (ground arith)
      (ground arith) ((λ e. absurd (omega arith), no_start, no_end), tt)
      ((λ e. absurd (omega arith), no_start, no_end), tt) (ground arith) refl refl (omega arith)
      refl

-- A header with `shnum` sections behind it, of which the first has the names.
abbrev header : ℕ → List ℕ
header shnum = replicate 40 0 ++ (64 ∷ replicate 19 0) ++ (shnum ∷ 0 ∷ 0 ∷ 0 ∷ [])

abbrev section : ℕ → ℕ → ℕ → ℕ → List ℕ
section name type offset size =
    (name ∷ 0 ∷ 0 ∷ 0 ∷ type ∷ replicate 19 0)
    ++ (offset ∷ replicate 7 0)
    ++ (size ∷ replicate 31 0)

-- "a.ko" wants the symbol "b", which "b.ko" exports.
abbrev a_ko : List ℕ
a_ko =
    header 2
    ++ section 0 3 192 3
    ++ section 0 2 195 48
    ++ (0 ∷ b'b' ∷ 0 ∷ [])
    ++ replicate 24 0
    ++ (1 ∷ replicate 23 0)

abbrev b_ko : List ℕ
b_ko =
    header 2
    ++ section 0 3 192 18
    ++ section 1 1 210 2
    ++ (0 ∷ codes "_ksymtab_strings")
    ++ (0 ∷ b'b' ∷ 0 ∷ [])

abbrev image : Directory
image = record {
  entries = some (codes "startup.bin" ∷ codes "System.map" ∷ codes "b.ko" ∷ codes "a.ko" ∷ []);
  file = λ name.
      if same_name name (codes "a.ko")
      then some a_ko
      else if same_name name (codes "b.ko")
      then some b_ko
      else some [];
}

abbrev loaded : Loader
loaded = elim (load_modules 3 none image) [ ok (_, t) ↦ t | _ ↦ loader_of [] ]

loads : load_modules 3 none image ≡ ok (tt, loaded)
unfolding load_modules read_modules discover_modules discover_from check_module from_last_dot
    init_symtable detect_syms_range range_from lines_from read_at export_symbols analyse_all
    analysis_module analyse read_all ehdr_of shdr_of array_of sections_from undef_of exports_of
    same_from sym_of discover_undef_syms undef_names string_at from_bytes drop take export_from
    reversed sort_modules check_all check_dependency resolve_undefs match_undef sort_loop
    traverse_dependency visit_all finish
loads = refl

-- "b.ko", which is module 1, comes first.
loads_called : loaded.called ≡ 0 ∷ 1 ∷ []
unfolding load_modules read_modules discover_modules discover_from check_module from_last_dot
    init_symtable detect_syms_range range_from lines_from read_at export_symbols analyse_all
    analysis_module analyse read_all ehdr_of shdr_of array_of sections_from undef_of exports_of
    same_from sym_of discover_undef_syms undef_names string_at from_bytes drop take export_from
    reversed sort_modules check_all check_dependency resolve_undefs match_undef sort_loop
    traverse_dependency visit_all finish
loads_called = refl

load_modules-IsOrdered_example :
    (ms : List Module) × (symbols : List Symbol) × (depends : ℕ → List ℕ) × (read_modules none image
      ≡ ok (ms, symbols))
    × (discover_modules none image ≡ ok (names_of ms))
    × ((i x : ℕ)
        → find_dependency (depends i) x ≡ (
            find_dependency (addresses 0 (length ms)) i
            && is_wanted symbols (heap_of ms i).undef_syms x))
    × IsOrdered depends loaded.called
    × (all_called none (loader_of ms) (addresses 0 (length ms)) loaded.called ≡ true)
load_modules-IsOrdered_example = load_modules-IsOrdered 3 none image loaded loads
