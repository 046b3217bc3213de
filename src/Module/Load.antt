-- ===== src/Module/Load.antt =====
-- sort_modules and clear_modules of module.c as a whole: from the bytes of the directory image/ to the
-- calls of the callback.
pub mod Ordered
use xemu.Base.{
  ℕ, zero, suc, ◌+◌, List, [], ◌∷◌, length, get_elem?, Option, none, some, Outcome, ok, panicked,
  undefined, M, lift, pure, ◌>>=◌,
}
use xemu.Module.Names.{Name}
use xemu.Module.Symbols.{Symbol}
use xemu.Module.Sort.{Module, Loader, status_none, sort_modules}
use xemu.Module.Discover.{Directory, discover_modules, init_symtable}
use xemu.Module.Analysis.{analysis_module}

-- The loop over the modules that calls `analysis_module`; a module's address is its number.
unfoldable pub analyse_all : Directory → ℕ → List Name → M (List Symbol) (List Module)
analyse_all dir i [] = pure []
analyse_all dir i (name ∷ names) = do
  first ← analysis_module dir i name
  rest ← analyse_all dir (suc i) names
  pure (first ∷ rest)

-- The modules by their addresses. No address beyond the list is used.
abbrev pub no_module : Module
no_module = record { name = []; status = status_none; undef_syms = []; dependencies = [] }

abbrev pub heap_of : List Module → ℕ → Module
heap_of modules i = elim (get_elem? modules i) [ some m ↦ m | none ↦ no_module ]

abbrev pub loader_of : List Module → Loader
loader_of modules = record { heap = heap_of modules; called = [] }

abbrev pub addresses : ℕ → ℕ → List ℕ
addresses i zero = []
addresses i (suc n) = i ∷ addresses (suc i) n

-- The files that are read before the sorting: the modules and all symbols.
unfoldable pub read_modules : Option Name → Directory → Outcome (List Module × List Symbol)
unfolding analyse_all
read_modules startpoint dir = elim (discover_modules startpoint dir) [
  | ok names ↦ elim (init_symtable dir []) [
    | ok symbols ↦ analyse_all dir 0 names symbols
    | panicked ↦ panicked
    | undefined ↦ undefined
  ]
  | panicked ↦ panicked
  | undefined ↦ undefined
]

-- `sort_modules`. The lists of the symbols and of the modules are empty before it, since flash.c calls
-- it once; the fuel is the depth that `traverse_dependency` may reach.
unfoldable pub load_modules : ℕ → Option Name → Directory → Outcome (Unit {0} × Loader)
load_modules fuel startpoint dir = elim (read_modules startpoint dir) [
  | ok (modules, symbols) ↦
      sort_modules fuel startpoint symbols (addresses 0 (length modules)) (loader_of modules)
  | panicked ↦ panicked
  | undefined ↦ undefined
]

-- `clear_modules`, on the list of the modules.
unfoldable pub clear_modules : List ℕ → List ℕ
clear_modules [] = []
clear_modules (i ∷ is) = clear_modules is
