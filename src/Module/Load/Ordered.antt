-- ===== src/Module/Load/Ordered.antt =====
-- What a directory is loaded to.
use xemu.Base.{
  ℕ, zero, suc, true, List, [], ◌∷◌, length, Always, always_rules, Option, Outcome, ok, panicked,
  undefined, pure, >>=-eq-ok, ◌≡◌, refl, sym, ap, ◌∙◌, ◌&&◌, ◌||◌,
}
use xemu.Module.Names.{Name}
use xemu.Module.Symbols.{Symbol, find_dependency}
use xemu.Module.Sort.{Module, Loader, status_none, sort_modules}
use xemu.Module.Order.{IsOrdered}
use xemu.Module.Kept.{dependencies_of}
use xemu.Module.Resolve.{is_wanted}
use xemu.Module.Checked.{wants, check_all_lem}
use xemu.Module.Sorted.{all_called, sort_modules-IsOrdered}
use xemu.Module.Discover.{Directory, discover_modules, init_symtable}
use xemu.Module.Analysis.{analysis_module}
use xemu.Module.Load.{analyse_all, heap_of, loader_of, addresses, read_modules, load_modules}

abbrev pub names_of : List Module → List Name
names_of [] = []
names_of (m ∷ ms) = m.name ∷ names_of ms

-- Each module is as analysis_module leaves it.
abbrev AllFresh : List Module → Type 0
AllFresh [] = Unit
AllFresh (m ∷ ms) = (m.status ≡ status_none) × (m.dependencies ≡ []) × AllFresh ms

analysis_module-Always :
    (dir : Directory) (i : ℕ) (name : Name)
    → Always
        (λ m. (m.name ≡ name) × (m.status ≡ status_none) × (m.dependencies ≡ []))
        (analysis_module dir i name)
unfolding analysis_module
analysis_module-Always dir i name = search always_rules depth 16

analyse_all_lem :
    (dir : Directory) (i : ℕ) (names : List Name) (s t : List Symbol) (ms : List Module)
    → analyse_all dir i names s ≡ ok (ms, t)
    → (names_of ms ≡ names) × AllFresh ms
unfolding analyse_all
analyse_all_lem dir i [] s t ms e = let nil : ms ≡ [] = cc in rw nil (refl, tt)
analyse_all_lem dir i (name ∷ names) s t ms e =
    let (m, s₁, first, later) = >>=-eq-ok (analysis_module dir i name) _ s e in
    let (rest, s₂, ran, end) =
      >>=-eq-ok (analyse_all dir (suc i) names) (λ rest. pure (m ∷ rest)) s₁ later in
    let (named, fresh, alone) = (analysis_module-Always dir i name).always s m s₁ first in
    let (names_eq, all) = analyse_all_lem dir (suc i) names s₁ s₂ rest ran in
    let whole : ms ≡ m ∷ rest = cc in rw whole (cc (named, names_eq), (fresh, alone, all))

heap_of-fresh : (ms : List Module) (j : ℕ) → AllFresh ms → (heap_of ms j).status ≡ status_none
heap_of-fresh [] j f = refl
heap_of-fresh (m ∷ ms) zero f = f.0
heap_of-fresh (m ∷ ms) (suc j) f = heap_of-fresh ms j f.2

heap_of-alone : (ms : List Module) (j : ℕ) → AllFresh ms → (heap_of ms j).dependencies ≡ []
heap_of-alone [] j f = refl
heap_of-alone (m ∷ ms) zero f = f.1
heap_of-alone (m ∷ ms) (suc j) f = heap_of-alone ms j f.2

read_modules_lem :
    (sp : Option Name) (dir : Directory) (ms : List Module) (symbols : List Symbol)
    → read_modules sp dir ≡ ok (ms, symbols)
    → (discover_modules sp dir ≡ ok (names_of ms)) × AllFresh ms
unfolding read_modules
read_modules_lem sp dir ms symbols e = by_names (discover_modules sp dir) refl e
  where
    by_symbols :
        (names : List Name) (r : Outcome (List Symbol))
        → elim r [
          | ok found ↦ analyse_all dir 0 names found
          | panicked ↦ panicked
          | undefined ↦ undefined
        ]
          ≡ ok (ms, symbols)
        → (names_of ms ≡ names) × AllFresh ms
    by_symbols names (ok found) q = analyse_all_lem dir 0 names found symbols ms q
    by_symbols names panicked q = absurd (cc)
    by_symbols names undefined q = absurd (cc)

    by_names :
        (r : Outcome (List Name))
        → discover_modules sp dir ≡ r
        → elim r [
          | ok names ↦ elim (init_symtable dir []) [
            | ok found ↦ analyse_all dir 0 names found
            | panicked ↦ panicked
            | undefined ↦ undefined
          ]
          | panicked ↦ panicked
          | undefined ↦ undefined
        ]
          ≡ ok (ms, symbols)
        → (discover_modules sp dir ≡ ok (names_of ms)) × AllFresh ms
    by_names (ok names) found q =
        let (same, fresh) = by_symbols names (init_symtable dir []) q in
        (found ∙ ap ok (sym same), fresh)
    by_names panicked found q = absurd (cc)
    by_names undefined found q = absurd (cc)

load_modules_lem :
    (fuel : ℕ) (sp : Option Name) (dir : Directory) (t : Loader)
    (r : Outcome (List Module × List Symbol))
    → read_modules sp dir ≡ r
    → elim r [
      | ok (ms, symbols) ↦ sort_modules fuel sp symbols (addresses 0 (length ms)) (loader_of ms)
      | panicked ↦ panicked
      | undefined ↦ undefined
    ]
      ≡ ok (tt, t)
    → (ms : List Module) × (symbols : List Symbol) × (read_modules sp dir ≡ ok (ms, symbols))
      × (sort_modules fuel sp symbols (addresses 0 (length ms)) (loader_of ms) ≡ ok (tt, t))
load_modules_lem fuel sp dir t (ok (ms, symbols)) e q = (ms, symbols, e, q)
load_modules_lem fuel sp dir t panicked e q = absurd (cc)
load_modules_lem fuel sp dir t undefined e q = absurd (cc)

-- When module.c returns from the directory image/, whatever its files hold: the modules are the entries
-- that discover_modules accepts, none was handed to the callback twice, each came after all the modules
-- that it depends on, and every module that the start point does not skip was handed over. A module
-- `i` depends on exactly the modules that its undefined symbols are taken from: for each the owner of
-- the first symbol of its name, if it is one that a module exports.
pub load_modules-IsOrdered :
    (fuel : ℕ) (sp : Option Name) (dir : Directory) (t : Loader)
    → load_modules fuel sp dir ≡ ok (tt, t)
    → (ms : List Module) × (symbols : List Symbol) × (depends : ℕ → List ℕ) × (read_modules sp dir
        ≡ ok (ms, symbols))
      × (discover_modules sp dir ≡ ok (names_of ms))
      × ((i x : ℕ)
          → find_dependency (depends i) x ≡ (
              find_dependency (addresses 0 (length ms)) i
              && is_wanted symbols (heap_of ms i).undef_syms x))
      × IsOrdered depends t.called
      × (all_called sp (loader_of ms) (addresses 0 (length ms)) t.called ≡ true)
unfolding load_modules
load_modules-IsOrdered fuel sp dir t e =
    let (ms, symbols, found, sorted) =
      load_modules_lem fuel sp dir t (read_modules sp dir) refl e in
    let (names, fresh) = read_modules_lem sp dir ms symbols found in
    let s = loader_of ms in
    let (u, checked, ordered, all) =
      sort_modules-IsOrdered fuel sp symbols (addresses 0 (length ms)) s t
        (record { untouched = λ j. heap_of-fresh ms j fresh; nothing = refl }) sorted in
    let depends : (i x : ℕ)
        → find_dependency (dependencies_of u i) x ≡ (
            find_dependency (addresses 0 (length ms)) i
            && is_wanted symbols (heap_of ms i).undef_syms x) =
      λ i x.
        check_all_lem symbols (addresses 0 (length ms)) s u i x checked
        ∙ ap
            (λ ds.
              find_dependency ds x
              || (find_dependency (addresses 0 (length ms)) i && wants symbols s i x))
            (heap_of-alone ms i fresh) in
    (ms, symbols, dependencies_of u, found, names, depends, ordered, all)
