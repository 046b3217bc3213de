-- ===== src/Module/Discover.antt =====
-- What module.c reads of the directory image/ and of its files System.map and startup.bin.
pub mod Range
use xemu.Base.{
  ℕ, zero, suc, ◌+◌, ◌-◌, ◌*◌, ◌/◌, ◌%◌, ◌^◌, Bool, true, false, not, ◌&&◌, ltb, leb, ◌==◌,
  if◌then◌else◌, List, [], ◌∷◌, ◌++◌, length, replicate, Option, none, some, Outcome, ok, panicked,
  undefined, map_outcome,
}
use xemu.Module.Names.{Name, same_name, check_module}
use xemu.Module.Symbols.{Symbol, export_symbols}
use xemu.Space.{drop}
use xemu.Text.{codes, c_string, strstr, strtoul16, take}
use xemu.Text.Lines.{lines}

-- The directory: what `scandir` lists, or none if it fails, and the bytes of the files that can be
-- opened.
pub record Directory : Type 0 where
  pub entries : Option (List Name)
  pub file : Name → Option (List ℕ)

abbrev pub system_map : Name
system_map = codes "System.map"

abbrev pub startup : Name
startup = codes "startup.bin"

-- What the loop of `discover_modules` has found.
pub record Found : Type 0 where
  pub modules : List Name
  pub has_startup : Bool
  pub has_system_map : Bool

abbrev pub nothing_found : Found
nothing_found = record { modules = []; has_startup = false; has_system_map = false }

-- The body of the loop.
abbrev pub with_entry : Name → Bool → Found → Found
with_entry name true f = record f { modules = f.modules ++ name ∷ [] }
with_entry name false f =
    if same_name name startup
    then record f { has_startup = true }
    else if same_name name system_map
    then record f { has_system_map = true }
    else f

-- The loop runs from the last entry to the first.
unfoldable pub discover_from : Option Name → List Name → Outcome Found
discover_from startpoint [] = ok nothing_found
discover_from startpoint (name ∷ names) = elim (discover_from startpoint names) [
  | ok found ↦
      map_outcome (λ is_module. with_entry name is_module found) (check_module startpoint name)
  | panicked ↦ panicked
  | undefined ↦ undefined
]

unfoldable pub discover_modules : Option Name → Directory → Outcome (List Name)
unfolding discover_from
discover_modules startpoint dir = elim dir.entries [
  | none ↦ panicked
  | some names ↦ elim (discover_from startpoint names) [
    | ok found ↦ if found.has_startup && found.has_system_map then ok found.modules else panicked
    | panicked ↦ panicked
    | undefined ↦ undefined
  ]
]

abbrev pub page_offset : ℕ
page_offset = 0xffffffe000000000

abbrev pub start_mark : Name
start_mark = codes "_start_ksymtab_strings"

abbrev pub end_mark : Name
end_mark = codes "_end_ksymtab_strings"

-- `start` and `end` behind a line.
unfoldable pub with_line : Name → ℕ × ℕ → ℕ × ℕ
with_line line (start, end) =
    if strstr line start_mark
    then ((strtoul16 line).0, end)
    else if strstr line end_mark
    then (start, (strtoul16 line).0)
    else (start, end)

-- The loop of `detect_syms_range`, which stops when it has both.
unfoldable pub range_from : List (List ℕ) → ℕ × ℕ → ℕ × ℕ
range_from [] range = range
range_from (line ∷ rest) range =
    let next = with_line (c_string line) range in
    elim (ltb 0 next.0 && ltb 0 next.1) [ true ↦ next | false ↦ range_from rest next ]

-- `ksym_ptr` and `ksym_num`.
unfoldable pub detect_syms_range : Directory → Outcome (ℕ × ℕ)
detect_syms_range dir = elim (dir.file system_map) [
  | none ↦ panicked
  | some bytes ↦
      let range = range_from (lines bytes) (0, 0) in
      ok (
        (range.0 + 2 ^ 64 - page_offset) % 2 ^ 64 % 2 ^ 32,
        (range.1 + 2 ^ 64 - range.0) % 2 ^ 64 % 2 ^ 32,
      )
]

-- `fread` of `size` bytes from the offset `at` into a buffer of zeros.
unfoldable pub read_at : List ℕ → ℕ → ℕ → List ℕ
read_at bytes at size =
    let got = take size (drop at bytes) in got ++ replicate (size - length got) 0

unfoldable pub init_symtable : Directory → List Symbol → Outcome (List Symbol)
unfolding detect_syms_range read_at
init_symtable dir symbols = elim (detect_syms_range dir) [
  | ok (ptr, num) ↦ elim (dir.file startup) [
    | none ↦ panicked
    | some bytes ↦ export_symbols (read_at bytes ptr num) none symbols
  ]
  | panicked ↦ panicked
  | undefined ↦ undefined
]
