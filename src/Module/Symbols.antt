-- ===== src/Module/Symbols.antt =====
-- Symbols that are exported and symbols that are wanted.
use xemu.Base.{
  ℕ, zero, suc, Bool, true, false, ◌==◌, ◌||◌, if◌then◌else◌, List, [], ◌∷◌, ◌++◌, Option, none,
  some, Outcome, ok, panicked, undefined, map_outcome,
}
use xemu.Module.Names.{Name, same_name}

-- `owner` is the field `mod`: NULL for a symbol of startup.bin.
pub record Symbol : Type 0 where
  pub name : Name
  pub owner : Option ℕ

-- The loop of `export_symbols` over the bytes from `start` to `end`, `name` being what was read of a
-- string, its last byte first. A string that the end cuts off is read past the end.
unfoldable pub reversed : List ℕ → List ℕ → List ℕ
reversed [] acc = acc
reversed (x ∷ xs) acc = reversed xs (x ∷ acc)

unfoldable pub export_from : Option ℕ → List ℕ → List ℕ → Outcome (List Symbol)
export_from mod_ [] [] = ok []
export_from mod_ (c ∷ cs) [] = undefined
export_from mod_ name (b ∷ bs) =
    let last_byte = export_from mod_ [] bs in
    let more = export_from mod_ (b ∷ name) bs in
    if b == 0
    then map_outcome (λ syms. record { name = reversed name []; owner = mod_ } ∷ syms) last_byte
    else more

-- `export_symbols` appends to the list of symbols.
unfoldable pub export_symbols : List ℕ → Option ℕ → List Symbol → Outcome (List Symbol)
unfolding export_from
export_symbols bytes mod_ symbols =
    map_outcome (λ syms. symbols ++ syms) (export_from mod_ [] bytes)

-- A C string at an offset of a string table.
unfoldable pub string_at : List ℕ → ℕ → Outcome Name
string_at [] offset = undefined
string_at (c ∷ cs) (suc offset) = string_at cs offset
string_at (c ∷ cs) zero = elim (c == 0) [
  | true ↦ ok []
  | false ↦ map_outcome (λ rest. c ∷ rest) (string_at cs zero)
]

-- The fields of `Elf64_Sym` that are read.
pub record Sym : Type 0 where
  pub st_name : ℕ
  pub st_shndx : ℕ

-- The loop of `discover_undef_syms`, from the entry after the first.
unfoldable pub undef_names : List ℕ → List Sym → Outcome (List Name)
undef_names strtab [] = ok []
undef_names strtab (sym ∷ syms) = elim (undef_names strtab syms) [
  | ok rest ↦ elim (sym.st_shndx == 0) [
    | true ↦ map_outcome (λ name. name ∷ rest) (string_at strtab sym.st_name)
    | false ↦ ok rest
  ]
  | panicked ↦ panicked
  | undefined ↦ undefined
]

unfoldable pub discover_undef_syms : List ℕ → List Sym → List Name → Outcome (List Name)
unfolding undef_names
discover_undef_syms strtab [] undef_syms = ok undef_syms
discover_undef_syms strtab (first ∷ syms) undef_syms =
    map_outcome (λ names. undef_syms ++ names) (undef_names strtab syms)

unfoldable pub match_undef : List Symbol → Name → Option Symbol
match_undef [] name = none
match_undef (sym ∷ syms) name = if same_name sym.name name then some sym else match_undef syms name

abbrev pub find_dependency : List ℕ → ℕ → Bool
find_dependency [] target = false
find_dependency (d ∷ ds) target = d == target || find_dependency ds target

-- The loop of `check_dependency`: the dependencies of a module after its undefined symbols.
unfoldable pub resolve_undefs : List Symbol → List Name → List ℕ → Outcome (List ℕ)
resolve_undefs symbols [] dependencies = ok dependencies
resolve_undefs symbols (name ∷ names) dependencies = elim (match_undef symbols name) [
  | none ↦ panicked
  | some sym ↦ elim sym.owner [
    | none ↦ resolve_undefs symbols names dependencies
    | some target ↦ elim (find_dependency dependencies target) [
      | true ↦ resolve_undefs symbols names dependencies
      | false ↦ resolve_undefs symbols names (dependencies ++ target ∷ [])
    ]
  ]
]
