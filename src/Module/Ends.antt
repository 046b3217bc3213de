-- ===== src/Module/Ends.antt =====
-- On a graph without cycles traverse_dependency ends with its module handed over.
use xemu.Base.{
  ℕ, Option, Bool-cases, false, ◌≢◌, zero, suc, ◌<◌, Bool, true, if◌then◌else◌, ◌≡◌, ◌⊎◌, inl, inr,
  ⊎_elim, refl, ◌∙◌, ap, subst, arith, List, [], ◌∷◌, Outcome, ok, panicked, M, pure, >>=-ok,
}
use xemu.Module.Names.{Name}
use xemu.Module.Symbols.{find_dependency}
use xemu.Module.Sort.{
  is_skipped, sort_loop, status_none, status_doing, status_done, Loader, visit_all, finish,
  is_skipped, sort_loop, traverse_dependency,
}
use xemu.Module.Order.{Inv, Inv-pop, Inv-begin, Status-cases, put-elim, begun, popped, ended}
use xemu.Module.Visit.{Spec, Doing, Doing-pop}
use xemu.Module.Traverse.{Doing-begin, traverse_dependency-Spec}

visit_all-cons :
    (go : ℕ → M Loader (Unit {0})) (i d : ℕ) (ds : List ℕ) (s u : Loader)
    (r : Outcome (Bool × Loader))
    → go d s ≡ ok (tt, u)
    → (u.heap d).status ≡ status_done
    → visit_all go i ds (popped i u) ≡ r
    → visit_all go i (d ∷ ds) s ≡ r
unfolding visit_all
visit_all-cons go i d ds s u r ran ready rest = rw (visit_all, ran, ready) rest

-- The round of the loop of sort_modules whose module is handed over.
sort_loop-cons :
    (fuel : ℕ) (sp : Option Name) (i : ℕ) (is : List ℕ) (s u : Loader)
    (r : Outcome (Unit {0} × Loader))
    → is_skipped sp (s.heap i).name ≡ false
    → traverse_dependency fuel i s ≡ ok (tt, u)
    → (u.heap i).status ≡ status_done
    → sort_loop fuel sp is u ≡ r
    → sort_loop fuel sp (i ∷ is) s ≡ r
unfolding sort_loop
sort_loop-cons fuel sp i is s u r wanted ran ready rest = rw (sort_loop, wanted, ran, ready) rest

module _ (deps : ℕ → List ℕ) (rank : ℕ → ℕ) where
  -- The modules that are being traversed have a rank above `bound`, but for `i`.
  abbrev pub IsAbove : ℕ → ℕ → Loader → Type 0
  IsAbove i bound s = (j : ℕ) → (s.heap j).status ≡ status_doing → (j ≡ i) ⊎ (bound < rank j)

  -- No module is left begun that was not begun before.
  abbrev pub Clean : Loader → Loader → Type 0
  Clean s t = (j : ℕ) → (t.heap j).status ≡ status_doing → (s.heap j).status ≡ status_doing

  pub record Ends (bound : ℕ) (go : ℕ → M Loader (Unit {0})) : Type 0 where
    pub ends :
        (d : ℕ) (s : Loader)
        → Inv deps s
        → rank d < bound
        → ((j : ℕ) → (s.heap j).status ≡ status_doing → rank d < rank j)
        → (t : Loader) × (go d s ≡ ok (tt, t)) × ((t.heap d).status ≡ status_done) × Clean s t

  Clean-pop : (i : ℕ) (u : Loader) → (u.heap i).status ≡ status_doing → Clean u (popped i u)
  Clean-pop i u h j =
      put-elim (λ m. m.status ≡ status_doing → (u.heap j).status ≡ status_doing) u.heap i _ j
        (λ e q. ap (λ k. (u.heap k).status) e ∙ h) (λ ne q. q)

  visit_all-Ends :
      (go : ℕ → M Loader (Unit {0})) (bound : ℕ)
      → Spec deps go
      → Ends bound go
      → (ds : List ℕ) (i : ℕ) (s : Loader) → Inv deps s
      → Doing deps i ds s
      → ((d : ℕ) → find_dependency ds d ≡ true → (rank d < rank i) × (rank d < bound))
      → IsAbove i (rank i) s
      → (t : Loader) × (visit_all go i ds s ≡ ok (true, t))
        × ((t.heap i).dependencies ≡ [])
        × Clean s t
  unfolding visit_all
  visit_all-Ends go bound spec ends [] i s v h below above = (s, refl, h.left, λ j q. q)
  visit_all-Ends go bound spec ends (d ∷ ds) i s v h below above =
      let (lower, in_bound) = below d (ground arith) in
      let (u, ran, ready, clean) =
        ends.ends d s v in_bound
          (λ j q. ⊎_elim (λ e. rw e lower) (λ up. omega (arith, up, lower)) (above j q)) in
      let (w, frame) = spec.spec d s u v ran in
      let doing_u : (u.heap i).status ≡ status_doing =
        ap (λ m. m.status) (frame i (λ x. cc (x, h.doing))) ∙ h.doing in
      let (t, rest, empty, clean') =
        visit_all-Ends go bound spec ends ds i (popped i u) (Inv-pop deps i u w doing_u)
          (Doing-pop deps i d ds s u v w h frame ready) (λ x q. below x (ground (arith, q)))
          (λ j q. above j (clean j (Clean-pop i u doing_u j q))) in
      (
        t,
        visit_all-cons go i d ds s u _ ran ready rest,
        empty,
        λ j q. clean j (Clean-pop i u doing_u j (clean' j q)),
      )

  finish-empty :
      (d : ℕ) (t : Loader) → (t.heap d).dependencies ≡ [] → finish d t ≡ ok (tt, ended d t)
  unfolding finish
  finish-empty d t empty =
      ap
        (λ ds. elim ds as (λ _. Outcome (Unit {0} × Loader)) [
          | [] ↦ ok (tt, ended d t)
          | _ ∷ _ ↦ panicked
        ])
        empty

  -- A module whose loop ends is handed over.
  traverse-cons :
      (fuel d : ℕ) (s t : Loader)
      → (s.heap d).status ≡ status_none
      → visit_all (traverse_dependency fuel) d (s.heap d).dependencies (begun d s) ≡ ok (true, t)
      → (t.heap d).dependencies ≡ []
      → traverse_dependency (suc fuel) d s ≡ ok (tt, ended d t)
  unfolding traverse_dependency finish
  traverse-cons fuel d s t h ran empty =
      rw (traverse_dependency, h)
        (>>=-ok (visit_all (traverse_dependency fuel) d (s.heap d).dependencies)
          (λ whole. if whole then finish d else pure tt) (begun d s) ran (finish-empty d t empty))

  traverse-begun :
      (fuel d : ℕ) (s : Loader)
      → Ends fuel (traverse_dependency fuel)
      → ((i d : ℕ) → find_dependency (deps i) d ≡ true → rank d < rank i)
      → Inv deps s
      → rank d < suc fuel
      → ((j : ℕ) → (s.heap j).status ≡ status_doing → rank d < rank j)
      → (s.heap d).status ≡ status_none
      → (t : Loader) × (traverse_dependency (suc fuel) d s ≡ ok (tt, t))
        × ((t.heap d).status ≡ status_done)
        × Clean s t
  traverse-begun fuel d s ends lower v below above h =
      let (t, ran, empty, clean) =
        visit_all-Ends (traverse_dependency fuel) fuel (traverse_dependency-Spec deps fuel) ends
          (s.heap d).dependencies d (begun d s) (Inv-begin deps d s v h) (Doing-begin deps d s v h)
          (λ x q.
            let up = lower d x (subst (λ ds. find_dependency ds x ≡ true) (v.fresh d h) q) in
            (up, omega (arith, up, below)))
          (λ j.
            put-elim (λ m. m.status ≡ status_doing → (j ≡ d) ⊎ (rank d < rank j)) s.heap d _ j
              (λ e q. inl e) (λ ne q. inr (above j q))) in
      (
        ended d t,
        traverse-cons fuel d s t h ran empty,
        put-elim (λ m. m.status ≡ status_done) t.heap d _ d (λ e. refl) (λ ne. absurd (ne refl)),
        λ j.
            put-elim (λ m. m.status ≡ status_doing → (s.heap j).status ≡ status_doing) t.heap d _ j
              (λ e q. cc)
              (λ ne q.
                put-elim (λ m. m.status ≡ status_doing → (s.heap j).status ≡ status_doing) s.heap d
                  _ j (λ e. absurd (ne e)) (λ _ q. q) (clean j q)),
      )

  -- A module without a cycle below it is handed over, if the fuel is more than its rank.
  pub traverse_dependency-Ends :
      ((i d : ℕ) → find_dependency (deps i) d ≡ true → rank d < rank i)
      → (fuel : ℕ) → Ends fuel (traverse_dependency fuel)
  unfolding traverse_dependency finish
  traverse_dependency-Ends lower zero = record {
    ends = λ d s v below. absurd (omega (arith, below));
  }
  traverse_dependency-Ends lower (suc fuel) = record {
    ends = λ d s v below above. elim (Status-cases (s.heap d).status) [
      | inl h ↦ traverse-begun fuel d s (traverse_dependency-Ends lower fuel) lower v below above h
      | inr (inl h) ↦ absurd (omega (arith, above d h))
      | inr (inr h) ↦ (s, rw (h, traverse_dependency) refl, h, λ j q. q)
    ];
  }

  -- Between two calls of the loop no module is left begun.
  pub record Between (s : Loader) : Type 0 where
    pub valid : Inv deps s
    pub settled : (j : ℕ) → (s.heap j).status ≢ status_doing

  Between-traverse :
      ((i d : ℕ) → find_dependency (deps i) d ≡ true → rank d < rank i)
      → (fuel i : ℕ) (s : Loader) → rank i < fuel
      → Between s
      → (t : Loader) × (traverse_dependency fuel i s ≡ ok (tt, t))
        × ((t.heap i).status ≡ status_done)
        × Between t
  Between-traverse lower fuel i s below b =
      let (t, ran, ready, clean) =
        (traverse_dependency-Ends lower fuel).ends i s b.valid below
          (λ j q. absurd (b.settled j q)) in
      let (w, frame) = (traverse_dependency-Spec deps fuel).spec i s t b.valid ran in
      (t, ran, ready, record { valid = w; settled = λ j q. b.settled j (clean j q) })

  pub sort_loop-Ends :
      ((i d : ℕ) → find_dependency (deps i) d ≡ true → rank d < rank i)
      → (fuel : ℕ) (sp : Option Name) (is : List ℕ) (s : Loader)
      → ((i : ℕ) → find_dependency is i ≡ true → rank i < fuel)
      → Between s
      → (t : Loader) × (sort_loop fuel sp is s ≡ ok (tt, t))
  unfolding sort_loop
  sort_loop-Ends lower fuel sp [] s enough b = (s, refl)
  sort_loop-Ends lower fuel sp (i ∷ is) s enough b =
      elim (Bool-cases (is_skipped sp (s.heap i).name)) [
        | inl h ↦
            let (t, ran) =
              sort_loop-Ends lower fuel sp is s (λ j q. enough j (ground (arith, q))) b in
            (t, rw (h, sort_loop) ran)
        | inr h ↦
            let (u, ran, ready, c) = Between-traverse lower fuel i s (enough i (ground arith)) b in
            let (t, rest) =
              sort_loop-Ends lower fuel sp is u (λ j q. enough j (ground (arith, q))) c in
            (t, sort_loop-cons fuel sp i is s u _ h ran ready rest)
      ]
