-- ===== src/Module/Sorted.antt =====
-- sort_modules hands over every module that it is to load, after those that it depends on.
use xemu.Base.{
  ◌&&◌, ℕ, ◌<◌, Bool, true, false, ◌==◌, ◌||◌, ◌≡◌, inl, inr, refl, sym, ◌∙◌, ap, subst, arith,
  List, [], ◌∷◌, Option, Outcome, ok, panicked, undefined, >>=-eq-ok, >>=-ok, Bool-cases, ==_iff,
}
use xemu.Module.Names.{Name}
use xemu.Module.Symbols.{Symbol, find_dependency}
use xemu.Module.Sort.{
  Status, status_none, status_doing, status_done, Loader, traverse_dependency, is_skipped,
  sort_loop, check_all, sort_modules,
}
use xemu.Module.Order.{IsOrdered, Inv}
use xemu.Module.Visit.{still_called}
use xemu.Module.Traverse.{traverse_dependency-Spec}
use xemu.Module.Kept.{
  IsFresh, dependencies_of, SameNames, Inv-IsFresh, check_all-IsFresh, traverse-KeepsNames,
}
use xemu.Module.Resolve.{all_exported}
use xemu.Module.Checked.{wants, check_all_lem, check_all-returns}
use xemu.Module.Ends.{sort_loop-Ends}

-- One round of the loop.
after_traverse :
    (fuel : ℕ) (sp : Option Name) (i : ℕ) (is : List ℕ) (s t : Loader)
    → elim (traverse_dependency fuel i s) [
      | ok (_, u) ↦ elim (u.heap i).status [ status_done ↦ sort_loop fuel sp is u | _ ↦ panicked ]
      | panicked ↦ panicked
      | undefined ↦ undefined
    ]
      ≡ ok (tt, t)
    → (u : Loader) × (traverse_dependency fuel i s ≡ ok (tt, u))
      × ((u.heap i).status ≡ status_done)
      × (sort_loop fuel sp is u ≡ ok (tt, t))
after_traverse fuel sp i is s t e = by_outcome (traverse_dependency fuel i s) refl e
  where
    by_status :
        (u : Loader) (k : Status)
        → elim k [ status_done ↦ sort_loop fuel sp is u | _ ↦ panicked ] ≡ ok (tt, t)
        → (k ≡ status_done) × (sort_loop fuel sp is u ≡ ok (tt, t))
    by_status u status_done q = (refl, q)
    by_status u status_none q = cc
    by_status u status_doing q = cc

    by_outcome :
        (r : Outcome (Unit {0} × Loader))
        → traverse_dependency fuel i s ≡ r
        → elim r [
          | ok (_, u) ↦ elim (u.heap i).status [
            | status_done ↦ sort_loop fuel sp is u
            | _ ↦ panicked
          ]
          | panicked ↦ panicked
          | undefined ↦ undefined
        ]
          ≡ ok (tt, t)
        → (u : Loader) × (traverse_dependency fuel i s ≡ ok (tt, u))
          × ((u.heap i).status ≡ status_done)
          × (sort_loop fuel sp is u ≡ ok (tt, t))
    by_outcome (ok (_, u)) ran q =
        let (ready, rest) = by_status u (u.heap i).status q in (u, ran, ready, rest)
    by_outcome panicked ran q = cc
    by_outcome undefined ran q = cc

-- What the loop leaves: the invariant, the modules that were called before, and those of the list
-- that are not skipped.
record Loaded (deps : ℕ → List ℕ) (sp : Option Name) (is : List ℕ) (s t : Loader) : Type 0 where
  valid : Inv deps t
  kept : (j : ℕ) → find_dependency s.called j ≡ true → find_dependency t.called j ≡ true
  loaded :
      (j : ℕ)
      → find_dependency is j ≡ true
      → is_skipped sp (s.heap j).name ≡ false
      → find_dependency t.called j ≡ true

Loaded-skip :
    (deps : ℕ → List ℕ) (sp : Option Name) (i : ℕ) (is : List ℕ) (s t : Loader)
    → is_skipped sp (s.heap i).name ≡ true
    → Loaded deps sp is s t
    → Loaded deps sp (i ∷ is) s t
Loaded-skip deps sp i is s t skip l = record {
  valid = l.valid;
  kept = l.kept;
  loaded = λ j q wanted. elim (Bool-cases (i == j)) [
    | inl e ↦ cc (skip, wanted, ap (λ k. is_skipped sp (s.heap k).name) ((==_iff i j).0 e))
    | inr e ↦ l.loaded j (ground (arith, q, e)) wanted
  ];
}

Loaded-call :
    (deps : ℕ → List ℕ) (sp : Option Name) (i : ℕ) (is : List ℕ) (s u t : Loader)
    → find_dependency u.called i ≡ true
    → ((j : ℕ) → find_dependency s.called j ≡ true → find_dependency u.called j ≡ true)
    → SameNames s u
    → Loaded deps sp is u t
    → Loaded deps sp (i ∷ is) s t
Loaded-call deps sp i is s u t now before names l = record {
  valid = l.valid;
  kept = λ j q. l.kept j (before j q);
  loaded = λ j q wanted. elim (Bool-cases (i == j)) [
    | inl e ↦ l.kept j (rw (← (==_iff i j).0 e) now)
    | inr e ↦ l.loaded j (ground (arith, q, e)) (rw (names j) wanted)
  ];
}

sort_loop-Loaded :
    (deps : ℕ → List ℕ) (fuel : ℕ) (sp : Option Name) (is : List ℕ) (s t : Loader)
    → Inv deps s
    → sort_loop fuel sp is s ≡ ok (tt, t)
    → Loaded deps sp is s t
unfolding sort_loop
sort_loop-Loaded deps fuel sp [] s t v e =
    let same : s ≡ t = cc in
    subst (λ t. Loaded deps sp [] s t) same
      (record { valid = v; kept = λ j q. q; loaded = λ j q. cc })
sort_loop-Loaded deps fuel sp (i ∷ is) s t v e = elim (Bool-cases (is_skipped sp (s.heap i).name)) [
  | inl h ↦
      Loaded-skip deps sp i is s t h
        (sort_loop-Loaded deps fuel sp is s t v (rw (h, sort_loop) at e))
  | inr h ↦
      let (u, ran, ready, rest) = after_traverse fuel sp i is s t (rw (h, sort_loop) at e) in
      let (w, frame) = (traverse_dependency-Spec deps fuel).spec i s u v ran in
      Loaded-call deps sp i is s u t (w.listed i ready) (λ j. still_called deps s u j v w frame)
        (traverse-KeepsNames fuel i s u ran) (sort_loop-Loaded deps fuel sp is u t w rest)
]

-- Every module of the list that the start point does not skip is in `called`.
abbrev pub all_called : Option Name → Loader → List ℕ → List ℕ → Bool
all_called sp s [] called = true
all_called sp s (i ∷ is) called =
    (is_skipped sp (s.heap i).name || find_dependency called i) && all_called sp s is called

all_called-intro :
    (sp : Option Name) (s : Loader) (is called : List ℕ)
    → ((j : ℕ)
        → find_dependency is j ≡ true
        → is_skipped sp (s.heap j).name ≡ false
        → find_dependency called j ≡ true)
    → all_called sp s is called ≡ true
all_called-intro sp s [] called h = refl
all_called-intro sp s (i ∷ is) called h =
    let rest = all_called-intro sp s is called (λ j q. h j (ground (arith, q))) in
    elim (Bool-cases (is_skipped sp (s.heap i).name)) [
      | inl e ↦ rw (e, rest) refl
      | inr e ↦ rw (e, h i (ground arith) e, rest) refl
    ]

-- When sort_modules returns, whatever the graph and the fuel: no module was handed to the callback
-- twice, each came after all the modules that it depends on after check_dependency, and every module
-- of the list that the start point does not skip was handed over.
pub sort_modules-IsOrdered :
    (fuel : ℕ) (sp : Option Name) (symbols : List Symbol) (modules : List ℕ) (s t : Loader)
    → IsFresh s
    → sort_modules fuel sp symbols modules s ≡ ok (tt, t)
    → (u : Loader) × (check_all symbols modules s ≡ ok (tt, u))
      × IsOrdered (dependencies_of u) t.called
      × (all_called sp s modules t.called ≡ true)
unfolding sort_modules
sort_modules-IsOrdered fuel sp symbols modules s t f e =
    let (_, u, checked, rest) =
      >>=-eq-ok (check_all symbols modules) (λ _. sort_loop fuel sp modules) s e in
    let (g, names) = check_all-IsFresh symbols modules s u f checked in
    let l = sort_loop-Loaded (dependencies_of u) fuel sp modules u t (Inv-IsFresh u g) rest in
    (
      u,
      checked,
      l.valid.ordered,
      all_called-intro sp s modules t.called (λ j q wanted. l.loaded j q (rw (names j) wanted)),
    )

-- On modules of which none was traversed yet. Every undefined symbol of the modules of the list is
-- exported; a module depends on those that it names, and, if it is in the list, on those that its
-- undefined symbols are taken from (for each the first symbol of its name, which startup.bin may
-- export); there is no cycle, that is, each module has a greater rank than those that it depends on;
-- and no rank of the list reaches the depth of recursion `fuel`. Then sort_modules returns, and every
-- module of the list that the start point does not skip was handed over.
pub sort_modules-returns :
    (rank : ℕ → ℕ) (fuel : ℕ) (sp : Option Name) (symbols : List Symbol) (modules : List ℕ)
    (s : Loader)
    → IsFresh s
    → ((i : ℕ)
        → find_dependency modules i ≡ true
        → all_exported symbols (s.heap i).undef_syms ≡ true)
    → ((i d : ℕ)
        → (find_dependency (dependencies_of s i) d
            || (find_dependency modules i && wants symbols s i d))
          ≡ true
        → rank d < rank i)
    → ((i : ℕ) → find_dependency modules i ≡ true → rank i < fuel)
    → (t : Loader) × (sort_modules fuel sp symbols modules s ≡ ok (tt, t))
      × (all_called sp s modules t.called ≡ true)
unfolding sort_modules
sort_modules-returns rank fuel sp symbols modules s f exported lower enough =
    let (u, checked) = check_all-returns symbols modules s exported in
    let (g, names) = check_all-IsFresh symbols modules s u f checked in
    let (t, ran) =
      sort_loop-Ends (dependencies_of u) rank
        (λ i d q. lower i d (sym (check_all_lem symbols modules s u i d checked) ∙ q)) fuel sp
        modules u enough
        (record { valid = Inv-IsFresh u g; settled = λ j q. cc (g.untouched j, q) }) in
    let all = >>=-ok (check_all symbols modules) (λ _. sort_loop fuel sp modules) s checked ran in
    let (_, _, _, loaded) = sort_modules-IsOrdered fuel sp symbols modules s t f all in
    (t, all, loaded)
