-- ===== src/Module/Checked.antt =====
-- What the loop of sort_modules that calls check_dependency leaves.
use xemu.Base.{
  ℕ, Bool, true, ◌==◌, ◌&&◌, ◌||◌, ◌≡◌, >>=-ok, inl, inr, refl, ◌∙◌, arith, List, [], ◌∷◌, Outcome,
  ok, panicked, undefined, Bool-cases, ==_iff, >>=-eq-ok, ap, sym,
}
use xemu.Module.Symbols.{Symbol, find_dependency, resolve_undefs}
use xemu.Module.Sort.{Loader, put, set_module, check_dependency, check_all}
use xemu.Module.Kept.{dependencies_of}
use xemu.Module.Resolve.{all_exported, is_wanted, Resolved, resolve_undefs-Resolved}

-- The module `x` is one that the undefined symbols of the module `i` come from.
abbrev pub wants : List Symbol → Loader → ℕ → ℕ → Bool
wants symbols s i x = is_wanted symbols (s.heap i).undef_syms x

after_resolve : ℕ → List ℕ → Loader → Loader
after_resolve i es s = record s {
  heap = put s.heap i (record (s.heap i) { undef_syms = []; dependencies = es });
}

check_dependency_lem :
    (symbols : List Symbol) (i : ℕ) (s t : Loader)
    → check_dependency symbols i s ≡ ok (tt, t)
    → (es : List ℕ) × (t ≡ after_resolve i es s)
      × Resolved symbols (s.heap i).undef_syms (s.heap i).dependencies es
unfolding check_dependency after_resolve
check_dependency_lem symbols i s t e =
    by_outcome (resolve_undefs symbols (s.heap i).undef_syms (s.heap i).dependencies) refl e
  where
    resolved :
        (es : List ℕ)
        → resolve_undefs symbols (s.heap i).undef_syms (s.heap i).dependencies ≡ ok es
        → Resolved symbols (s.heap i).undef_syms (s.heap i).dependencies es
    resolved es q =
        elim (resolve_undefs-Resolved symbols (s.heap i).undef_syms (s.heap i).dependencies) [
          | inl p ↦ cc (p.1)
          | inr p ↦
              let (fs, ran, r) = p.1 in
              let same : fs ≡ es = cc in λ x. ap (λ l. find_dependency l x) (sym same) ∙ r x
        ]

    by_outcome :
        (r : Outcome (List ℕ))
        → resolve_undefs symbols (s.heap i).undef_syms (s.heap i).dependencies ≡ r
        → elim r [
          | ok ds ↦ set_module i (λ m. record m { undef_syms = []; dependencies = ds }) s
          | panicked ↦ panicked
          | undefined ↦ undefined
        ]
          ≡ ok (tt, t)
        → (es : List ℕ) × (t ≡ after_resolve i es s)
          × Resolved symbols (s.heap i).undef_syms (s.heap i).dependencies es
    by_outcome (ok es) q h = (es, cc, resolved es q)
    by_outcome panicked q h = cc
    by_outcome undefined q h = cc

-- After the loop each module of the list depends on what it depended on before and on the modules
-- that its undefined symbols come from; the others are as they were.
pub check_all_lem :
    (symbols : List Symbol) (is : List ℕ) (s t : Loader) (j x : ℕ)
    → check_all symbols is s ≡ ok (tt, t)
    → find_dependency (dependencies_of t j) x
      ≡ (find_dependency (dependencies_of s j) x || (find_dependency is j && wants symbols s j x))
unfolding check_all
check_all_lem symbols [] s t j x e =
    let same : s ≡ t = cc in
    ap (λ u. find_dependency (dependencies_of u j) x) (sym same) ∙ ground arith
check_all_lem symbols (i ∷ is) s t j x e =
    let (_, u, ran, rest) =
      >>=-eq-ok (check_dependency symbols i) (λ _. check_all symbols is) s e in
    let (es, now, r) = check_dependency_lem symbols i s u ran in
    let later = check_all_lem symbols is u t j x rest in
    let at : u.heap j ≡ (after_resolve i es s).heap j = ap (λ v. v.heap j) now in
    elim (Bool-cases (i == j)) [
      | inl q ↦
          let here : i ≡ j = (==_iff i j).0 q in
          let m : u.heap j ≡ record (s.heap i) { undef_syms = []; dependencies = es } =
            at ∙ (unfold after_resolve in rw q refl) in
          ground (
            arith,
            later,
            ap (λ m. find_dependency m.dependencies x) m,
            ap (λ m. is_wanted symbols m.undef_syms x) m,
            r x,
            q,
            ap (λ (k : ℕ). find_dependency (s.heap k).dependencies x) here,
            ap (λ (k : ℕ). is_wanted symbols (s.heap k).undef_syms x) here,
          )
      | inr q ↦
          let m : u.heap j ≡ s.heap j = at ∙ (unfold after_resolve in rw q refl) in
          ground (
            arith,
            later,
            ap (λ m. find_dependency m.dependencies x) m,
            ap (λ m. is_wanted symbols m.undef_syms x) m,
            q,
          )
    ]

check_dependency-returns :
    (symbols : List Symbol) (i : ℕ) (s : Loader)
    → all_exported symbols (s.heap i).undef_syms ≡ true
    → (es : List ℕ) × (check_dependency symbols i s ≡ ok (tt, after_resolve i es s))
unfolding check_dependency after_resolve
check_dependency-returns symbols i s h =
    elim (resolve_undefs-Resolved symbols (s.heap i).undef_syms (s.heap i).dependencies) [
      | inl p ↦ cc (p.0)
      | inr p ↦ let (es, ran, _) = p.1 in (es, rw (ran, check_dependency) refl)
    ]

-- The loop returns, if the undefined symbols of every module of the list are exported.
pub check_all-returns :
    (symbols : List Symbol) (is : List ℕ) (s : Loader)
    → ((j : ℕ) → find_dependency is j ≡ true → all_exported symbols (s.heap j).undef_syms ≡ true)
    → (t : Loader) × (check_all symbols is s ≡ ok (tt, t))
unfolding check_all
check_all-returns symbols [] s h = (s, refl)
check_all-returns symbols (i ∷ is) s h =
    let (es, ran) = check_dependency-returns symbols i s (h i (ground arith)) in
    let u = after_resolve i es s in
    let (t, rest) =
      check_all-returns symbols is u (λ j q. exported j es (ground (arith, h j, q))) in
    (t, >>=-ok (check_dependency symbols i) (λ _. check_all symbols is) s ran rest)
  where
    exported :
        (j : ℕ) (es : List ℕ)
        → all_exported symbols (s.heap j).undef_syms ≡ true
        → all_exported symbols ((after_resolve i es s).heap j).undef_syms ≡ true
    exported j es q = elim (Bool-cases (i == j)) [
      | inl e ↦ unfold after_resolve in rw e refl
      | inr e ↦ unfold after_resolve in rw e q
    ]
