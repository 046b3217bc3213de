-- ===== src/Module/Order.antt =====
-- The order in which the modules are handed over, and the state of the search that makes it.
use xemu.Base.{
  ℕ, Bool, true, false, ◌==◌, ◌≡◌, ◌≢◌, ◌⊎◌, inl, inr, refl, sym, ◌∙◌, ap, arith, List, [], ◌∷◌,
  Bool-cases, ==_iff,
}
use xemu.Module.Symbols.{find_dependency}
use xemu.Module.Sort.{Status, status_none, status_doing, status_done, Module, Loader, put, rest_of}

-- A list of calls, the last one first, in which no module is twice, and the dependencies of each
-- are earlier.
pub record IsAfter (deps : ℕ → List ℕ) (i : ℕ) (earlier : List ℕ) : Type 0 where
  pub once : find_dependency earlier i ≡ false
  pub later : (d : ℕ) → find_dependency (deps i) d ≡ true → find_dependency earlier d ≡ true

abbrev pub IsOrdered : (ℕ → List ℕ) → List ℕ → Type 0
IsOrdered deps [] = Unit {0}
IsOrdered deps (i ∷ earlier) = IsAfter deps i earlier × IsOrdered deps earlier

pub Status-cases : (t : Status) → (t ≡ status_none) ⊎ ((t ≡ status_doing) ⊎ (t ≡ status_done))
Status-cases status_none = inl refl
Status-cases status_doing = inr (inl refl)
Status-cases status_done = inr (inr refl)

-- The state of the search over the graph `deps`.
pub record Inv (deps : ℕ → List ℕ) (s : Loader) : Type 0 where
  pub fresh : (j : ℕ) → (s.heap j).status ≡ status_none → (s.heap j).dependencies ≡ deps j
  pub listed : (j : ℕ) → (s.heap j).status ≡ status_done → find_dependency s.called j ≡ true
  pub finished : (j : ℕ) → find_dependency s.called j ≡ true → (s.heap j).status ≡ status_done
  pub ordered : IsOrdered deps s.called

pub put-elim :
    (P : Module → Type 0) (heap : ℕ → Module) (i : ℕ) (m : Module) (j : ℕ)
    → (j ≡ i → P m)
    → (j ≢ i → P (heap j))
    → P (put heap i m j)
put-elim P heap i m j same other = elim (Bool-cases (i == j)) [
  | inl e ↦ rw e (same (sym ((==_iff i j).0 e)))
  | inr e ↦ rw e (other (λ q. ground (arith, e, q)))
]

-- The states in which a module is begun, has its first dependency taken off, and is ended.
abbrev pub begun : ℕ → Loader → Loader
begun i s = record s { heap = put s.heap i (record (s.heap i) { status = status_doing }) }

abbrev pub popped : ℕ → Loader → Loader
popped i s = record s {
  heap = put s.heap i (record (s.heap i) { dependencies = rest_of (s.heap i).dependencies });
}

abbrev pub ended : ℕ → Loader → Loader
ended i s = record s {
  heap = put s.heap i (record (s.heap i) { status = status_done });
  called = i ∷ s.called;
}

module _ (deps : ℕ → List ℕ) where
  pub Inv-pop :
      (i : ℕ) (t : Loader) → Inv deps t → (t.heap i).status ≡ status_doing → Inv deps (popped i t)
  Inv-pop i t v h = record {
    fresh = λ j.
        put-elim (λ m. m.status ≡ status_none → m.dependencies ≡ deps j) t.heap i _ j (λ e q. cc)
          (λ ne. v.fresh j);
    listed = λ j.
        put-elim (λ m. m.status ≡ status_done → find_dependency t.called j ≡ true) t.heap i _ j
          (λ e q. cc) (λ ne. v.listed j);
    finished = λ j q.
        put-elim (λ m. m.status ≡ status_done) t.heap i _ j
          (λ e. ap (λ k. (t.heap k).status) (sym e) ∙ v.finished j q) (λ ne. v.finished j q);
    ordered = v.ordered;
  }

  pub Inv-begin :
      (i : ℕ) (s : Loader) → Inv deps s → (s.heap i).status ≡ status_none → Inv deps (begun i s)
  Inv-begin i s v h = record {
    fresh = λ j.
        put-elim (λ m. m.status ≡ status_none → m.dependencies ≡ deps j) s.heap i _ j (λ e q. cc)
          (λ ne. v.fresh j);
    listed = λ j.
        put-elim (λ m. m.status ≡ status_done → find_dependency s.called j ≡ true) s.heap i _ j
          (λ e q. cc) (λ ne. v.listed j);
    finished = λ j q.
        put-elim (λ m. m.status ≡ status_done) s.heap i _ j
          (λ e. cc (h, ap (λ k. (s.heap k).status) e, v.finished j q)) (λ ne. v.finished j q);
    ordered = v.ordered;
  }

  pub Inv-end :
      (i : ℕ) (s : Loader)
      → Inv deps s
      → (s.heap i).status ≡ status_doing
      → ((d : ℕ) → find_dependency (deps i) d ≡ true → find_dependency s.called d ≡ true)
      → Inv deps (ended i s)
  Inv-end i s v h passed = record {
    fresh = λ j.
        put-elim (λ m. m.status ≡ status_none → m.dependencies ≡ deps j) s.heap i _ j (λ e q. cc)
          (λ ne. v.fresh j);
    listed = λ j.
        put-elim (λ m. m.status ≡ status_done → find_dependency (i ∷ s.called) j ≡ true) s.heap i _
          j (λ e q. ground (arith, e)) (λ ne q. ground (arith, v.listed j q));
    finished = λ j q.
        put-elim (λ m. m.status ≡ status_done) s.heap i _ j (λ e. refl)
          (λ ne. v.finished j (ground (arith, q, ne)));
    ordered =
        (record { once = unlisted (find_dependency s.called i) refl; later = passed }, v.ordered);
  }
    where
      unlisted : (b : Bool) → find_dependency s.called i ≡ b → find_dependency s.called i ≡ false
      unlisted true e = cc (h, v.finished i e)
      unlisted false e = e
