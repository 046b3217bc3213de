-- ===== src/Module/Sort.antt =====
-- The graph of the modules, and the order in which they are handed to the callback.
use xemu.Base.{
  ℕ, zero, suc, Bool, true, false, not, ◌==◌, if◌then◌else◌, List, [], ◌∷◌, Option, none, some, ok,
  panicked, undefined, M, pure, ◌>>=◌, ◌>>◌,
}
use xemu.Module.Names.{Name, starts_with}
use xemu.Module.Symbols.{Symbol, resolve_undefs}

pub data Status : Type 0 where
  status_none status_doing status_done : Status

pub record Module : Type 0 where
  pub name : Name
  pub status : Status
  pub undef_syms : List Name
  pub dependencies : List ℕ

-- The module structures, by their addresses, and the calls of the callback, the last one first.
pub record Loader : Type 0 where
  pub heap : ℕ → Module
  pub called : List ℕ

abbrev pub put : (ℕ → Module) → ℕ → Module → ℕ → Module
put heap i m j = if i == j then m else heap j

abbrev pub set_module : ℕ → (Module → Module) → M Loader (Unit {0})
set_module i f s = ok (tt, record s { heap = put s.heap i (f (s.heap i)) })

-- `list_del` of the first dependency.
abbrev pub rest_of : List ℕ → List ℕ
rest_of [] = []
rest_of (d ∷ ds) = ds

-- The loop of `traverse_dependency` over the dependencies: false if it returns early, on a chain
-- that is cyclic.
unfoldable pub visit_all : (ℕ → M Loader (Unit {0})) → ℕ → List ℕ → M Loader Bool
visit_all traverse i [] s = ok (true, s)
visit_all traverse i (d ∷ ds) s = elim (traverse d s) [
  | ok (_, t) ↦ elim (t.heap d).status [
    | status_done ↦
        (set_module i (λ m. record m { dependencies = rest_of m.dependencies })
            >> visit_all traverse i ds)
          t
    | _ ↦ ok (false, t)
  ]
  | panicked ↦ panicked
  | undefined ↦ undefined
]

-- The end of `traverse_dependency`.
unfoldable pub finish : ℕ → M Loader (Unit {0})
finish i s = elim (s.heap i).dependencies [
  | [] ↦ ok (
    tt,
    record s {
      heap = put s.heap i (record (s.heap i) { status = status_done });
      called = i ∷ s.called;
    },
  )
  | _ ∷ _ ↦ panicked
]

-- The fuel bounds the depth of the recursion.
unfoldable pub traverse_dependency : ℕ → ℕ → M Loader (Unit {0})
unfolding visit_all finish
traverse_dependency zero i s = undefined
traverse_dependency (suc fuel) i s = elim (s.heap i).status [
  | status_none ↦
      (do
        set_module i (λ m. record m { status = status_doing })
        whole ← visit_all (traverse_dependency fuel) i (s.heap i).dependencies
        if whole then finish i else pure tt)
        s
  | _ ↦ ok (tt, s)
]

-- With a start point only the modules whose names start with it are traversed.
abbrev pub is_skipped : Option Name → Name → Bool
is_skipped none name = false
is_skipped (some start) name = not (starts_with name start)

-- The last loop of `sort_modules` that can fail, over the list of the modules.
unfoldable pub sort_loop : ℕ → Option Name → List ℕ → M Loader (Unit {0})
sort_loop fuel startpoint [] s = ok (tt, s)
sort_loop fuel startpoint (i ∷ is) s = elim (is_skipped startpoint (s.heap i).name) [
  | true ↦ sort_loop fuel startpoint is s
  | false ↦ elim (traverse_dependency fuel i s) [
    | ok (_, t) ↦ elim (t.heap i).status [
      | status_done ↦ sort_loop fuel startpoint is t
      | _ ↦ panicked
    ]
    | panicked ↦ panicked
    | undefined ↦ undefined
  ]
]

-- `check_dependency`.
unfoldable pub check_dependency : List Symbol → ℕ → M Loader (Unit {0})
check_dependency symbols i s =
    elim (resolve_undefs symbols (s.heap i).undef_syms (s.heap i).dependencies) [
      | ok ds ↦ set_module i (λ m. record m { undef_syms = []; dependencies = ds }) s
      | panicked ↦ panicked
      | undefined ↦ undefined
    ]

unfoldable pub check_all : List Symbol → List ℕ → M Loader (Unit {0})
check_all symbols [] = pure tt
check_all symbols (i ∷ is) = do check_dependency symbols i; check_all symbols is

-- `sort_modules` after `analysis_module` has filled the symbols of every module.
unfoldable pub sort_modules : ℕ → Option Name → List Symbol → List ℕ → M Loader (Unit {0})
unfolding check_all
sort_modules fuel startpoint symbols modules = do
  check_all symbols modules
  sort_loop fuel startpoint modules
