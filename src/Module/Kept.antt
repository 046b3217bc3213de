-- ===== src/Module/Kept.antt =====
-- What sort_modules leaves alone: nothing is traversed before the sorting, and names never change.
use xemu.Base.{
  ℕ, zero, suc, Bool, true, false, ◌≡◌, inl, inr, refl, sym, ◌∙◌, ap, subst, List, [], ◌∷◌, Outcome,
  ok, panicked, undefined, M, if◌then◌else◌, pure, >>=-eq-ok,
}
use xemu.Module.Symbols.{Symbol, find_dependency, resolve_undefs}
use xemu.Module.Sort.{
  Status, status_none, status_doing, status_done, Module, Loader, put, set_module, visit_all,
  finish, traverse_dependency, check_dependency, check_all,
}
use xemu.Module.Order.{Inv, Status-cases, put-elim, begun, popped, ended}
use xemu.Module.Visit.{after_dependency, next_dependency}

-- Nothing was traversed yet.
pub record IsFresh (s : Loader) : Type 0 where
  pub untouched : (j : ℕ) → (s.heap j).status ≡ status_none
  pub nothing : s.called ≡ []

-- The dependencies that the modules of `s` have.
abbrev pub dependencies_of : Loader → ℕ → List ℕ
dependencies_of s j = (s.heap j).dependencies

abbrev pub SameNames : Loader → Loader → Type 0
SameNames s t = (j : ℕ) → (t.heap j).name ≡ (s.heap j).name

pub put-name :
    (heap : ℕ → Module) (i : ℕ) (m : Module)
    → m.name ≡ (heap i).name
    → (j : ℕ) → (put heap i m j).name ≡ (heap j).name
put-name heap i m same j =
    put-elim (λ x. x.name ≡ (heap j).name) heap i m j (λ e. same ∙ ap (λ k. (heap k).name) (sym e))
      (λ ne. refl)

pub Inv-IsFresh : (s : Loader) → IsFresh s → Inv (dependencies_of s) s
Inv-IsFresh s f = record {
  fresh = λ j _. refl;
  listed = λ j q. cc (f.untouched j, q);
  finished = λ j q. cc (ap (λ c. find_dependency c j) f.nothing, q);
  ordered = rw (f.nothing) tt;
}

check_dependency-IsFresh :
    (symbols : List Symbol) (i : ℕ) (s t : Loader)
    → IsFresh s
    → check_dependency symbols i s ≡ ok (tt, t)
    → IsFresh t × SameNames s t
unfolding check_dependency
check_dependency-IsFresh symbols i s t f e =
    by_outcome (resolve_undefs symbols (s.heap i).undef_syms (s.heap i).dependencies) e
  where
    by_outcome :
        (r : Outcome (List ℕ))
        → elim r [
          | ok ds ↦ set_module i (λ m. record m { undef_syms = []; dependencies = ds }) s
          | panicked ↦ panicked
          | undefined ↦ undefined
        ]
          ≡ ok (tt, t)
        → IsFresh t × SameNames s t
    by_outcome (ok ds) q =
        let m : Module = record (s.heap i) { undef_syms = []; dependencies = ds } in
        let same : record s { heap = put s.heap i m } ≡ t = cc in
        subst (λ t. IsFresh t × SameNames s t) same
          (
            record {
              untouched = λ j.
                  put-elim (λ m. m.status ≡ status_none) s.heap i m j (λ _. f.untouched i)
                    (λ _. f.untouched j);
              nothing = f.nothing;
            },
            put-name s.heap i m refl,
          )
    by_outcome panicked q = cc
    by_outcome undefined q = cc

pub check_all-IsFresh :
    (symbols : List Symbol) (is : List ℕ) (s t : Loader)
    → IsFresh s
    → check_all symbols is s ≡ ok (tt, t)
    → IsFresh t × SameNames s t
unfolding check_all
check_all-IsFresh symbols [] s t f e =
    let same : s ≡ t = cc in subst (λ t. IsFresh t × SameNames s t) same (f, λ j. refl)
check_all-IsFresh symbols (i ∷ is) s t f e =
    let (_, u, ran, rest) =
      >>=-eq-ok (check_dependency symbols i) (λ _. check_all symbols is) s e in
    let (g, names) = check_dependency-IsFresh symbols i s u f ran in
    let (h, names') = check_all-IsFresh symbols is u t g rest in (h, λ j. names' j ∙ names j)

abbrev pub KeepsNames : (ℕ → M Loader (Unit {0})) → Type 0
KeepsNames go = (d : ℕ) (s t : Loader) → go d s ≡ ok (tt, t) → SameNames s t

visit_all-SameNames :
    (go : ℕ → M Loader (Unit {0}))
    → KeepsNames go
    → (ds : List ℕ) (i : ℕ) (s t : Loader) (whole : Bool) → visit_all go i ds s ≡ ok (whole, t)
    → SameNames s t
unfolding visit_all
visit_all-SameNames go keeps [] i s t whole e =
    let same : s ≡ t = cc in subst (λ t. SameNames s t) same (λ j. refl)
visit_all-SameNames go keeps (d ∷ ds) i s t whole e =
    let (u, ran, rest) = after_dependency go d (visit_all go i ds) i s t whole e in
    λ j.
      by_status u (visit_all-SameNames go keeps ds i (popped i u) t whole) (u.heap d).status rest j
      ∙ keeps d s u ran j
  where
    by_status :
        (u : Loader)
        → (visit_all go i ds (popped i u) ≡ ok (whole, t) → SameNames (popped i u) t)
        → (k : Status) → next_dependency (visit_all go i ds) i u k ≡ ok (whole, t)
        → SameNames u t
    by_status u ih status_done q = λ j. ih q j ∙ put-name u.heap i _ refl j
    by_status u ih status_none q =
        let same : u ≡ t = cc in subst (λ t. SameNames u t) same (λ j. refl)
    by_status u ih status_doing q =
        let same : u ≡ t = cc in subst (λ t. SameNames u t) same (λ j. refl)

finish-SameNames : (d : ℕ) (s t : Loader) → finish d s ≡ ok (tt, t) → SameNames s t
unfolding finish
finish-SameNames d s t e = by_left (s.heap d).dependencies e
  where
    by_left :
        (left : List ℕ)
        → ◌≡◌ {A = Outcome (Unit {0} × Loader)}
            (elim left [ [] ↦ ok (tt, ended d s) | _ ∷ _ ↦ panicked ])
            (ok (tt, t))
        → SameNames s t
    by_left [] q =
        let same : ended d s ≡ t = cc in subst (λ t. SameNames s t) same (put-name s.heap d _ refl)
    by_left (x ∷ xs) q = cc

pub traverse-KeepsNames : (fuel : ℕ) → KeepsNames (traverse_dependency fuel)
unfolding traverse_dependency
traverse-KeepsNames zero d s t e = cc
traverse-KeepsNames (suc fuel) d s t e = elim (Status-cases (s.heap d).status) [
  | inl h ↦
      let (whole, u, ran, rest) =
        >>=-eq-ok (visit_all (traverse_dependency fuel) d (s.heap d).dependencies)
          (λ whole. if whole then finish d else pure tt) (begun d s)
          (rw (h, traverse_dependency) at e) in
      λ j.
        by_whole u whole rest j
        ∙ visit_all-SameNames (traverse_dependency fuel) (traverse-KeepsNames fuel) _ d (begun d s)
            u whole ran j
        ∙ put-name s.heap d _ refl j
  | inr (inl h) ↦ stays (rw (h, traverse_dependency) at e)
  | inr (inr h) ↦ stays (rw (h, traverse_dependency) at e)
]
  where
    stays : ◌≡◌ {A = Outcome (Unit {0} × Loader)} (ok (tt, s)) (ok (tt, t)) → SameNames s t
    stays q = let same : s ≡ t = cc in subst (λ t. SameNames s t) same (λ j. refl)

    by_whole :
        (u : Loader) (whole : Bool)
        → (if whole then finish d else pure tt) u ≡ ok (tt, t)
        → SameNames u t
    by_whole u true q = finish-SameNames d u t q
    by_whole u false q = let same : u ≡ t = cc in subst (λ t. SameNames u t) same (λ j. refl)
