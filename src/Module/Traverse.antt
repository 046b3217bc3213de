-- ===== src/Module/Traverse.antt =====
-- traverse_dependency keeps the calls in order, whatever the graph.
use xemu.Base.{
  ℕ, zero, suc, Bool, true, false, if◌then◌else◌, ◌≡◌, ◌≢◌, inl, inr, refl, sym, ◌∙◌, ap, subst,
  List, [], ◌∷◌, Outcome, ok, panicked, M, pure, ◌>>=◌, >>=-eq-ok,
}
use xemu.Module.Sort.{status_none, status_doing, Loader, visit_all, finish, traverse_dependency}
use xemu.Module.Order.{Inv, Inv-begin, Inv-end, put-elim, begun, ended, Status-cases}
use xemu.Module.Visit.{Spec, Doing, Visited, visit_all-Visited}

module _ (deps : ℕ → List ℕ) where
  -- A module that is begun, and whose dependencies were all traversed, is handed over.
  finish-Inv :
      (d : ℕ) (s u t : Loader) (whole : Bool)
      → (s.heap d).status ≡ status_none
      → Visited deps d (begun d s) u whole
      → (if whole then finish d else pure tt) u ≡ ok (tt, t)
      → Inv deps t × ((j : ℕ) → (s.heap j).status ≢ status_none → t.heap j ≡ s.heap j)
  unfolding finish
  finish-Inv d s u t whole h v e = by_whole whole refl e
    where
      before : (j : ℕ) → (s.heap j).status ≢ status_none → (u.heap j ≡ s.heap j) × (j ≢ d)
      before j q =
          let ne : j ≢ d = λ same. q (ap (λ k. (s.heap k).status) same ∙ h) in
          let away : (begun d s).heap j ≡ s.heap j =
            put-elim (λ m. m ≡ s.heap j) s.heap d _ j (λ e. absurd (ne e)) (λ _. refl) in
          (v.frame j (λ k. q (sym (ap (λ m. m.status) away) ∙ k)) ne ∙ away, ne)

      by_left :
          whole ≡ true
          → (left : List ℕ)
          → ◌≡◌ {A = Outcome (Unit {0} × Loader)}
              (elim left [ [] ↦ ok (tt, ended d u) | _ ∷ _ ↦ panicked ])
              (ok (tt, t))
          → Inv deps t × ((j : ℕ) → (s.heap j).status ≢ status_none → t.heap j ≡ s.heap j)
      by_left w [] q =
          let same : ended d u ≡ t = cc in
          subst
            (λ t. Inv deps t × ((j : ℕ) → (s.heap j).status ≢ status_none → t.heap j ≡ s.heap j))
            same
            (
              Inv-end deps d u v.valid v.doing (v.passed w),
              λ j q.
                  let (kept, ne) = before j q in
                  put-elim (λ m. m ≡ s.heap j) u.heap d _ j (λ e. absurd (ne e)) (λ _. kept),
            )
      by_left w (x ∷ xs) q = cc

      by_whole :
          (b : Bool)
          → whole ≡ b
          → (if b then finish d else pure tt) u ≡ ok (tt, t)
          → Inv deps t × ((j : ℕ) → (s.heap j).status ≢ status_none → t.heap j ≡ s.heap j)
      by_whole true w q = by_left w (u.heap d).dependencies q
      by_whole false w q =
          let same : u ≡ t = cc in
          subst
            (λ t. Inv deps t × ((j : ℕ) → (s.heap j).status ≢ status_none → t.heap j ≡ s.heap j))
            same (v.valid, λ j q. (before j q).0)

  pub Doing-begin :
      (d : ℕ) (s : Loader)
      → Inv deps s
      → (s.heap d).status ≡ status_none
      → Doing deps d (s.heap d).dependencies (begun d s)
  Doing-begin d s v h = record {
    doing =
        put-elim (λ m. m.status ≡ status_doing) s.heap d _ d (λ e. refl) (λ ne. absurd (ne refl));
    left =
        put-elim (λ m. m.dependencies ≡ (s.heap d).dependencies) s.heap d _ d (λ e. refl)
          (λ ne. absurd (ne refl));
    passed = λ x q. inl (rw (v.fresh d h) q);
  }

  traverse-none :
      (go : ℕ → M Loader (Unit {0}))
      → Spec deps go
      → (d : ℕ) (s t : Loader) → Inv deps s
      → (s.heap d).status ≡ status_none
      → (visit_all go d (s.heap d).dependencies >>= λ whole. if whole then finish d else pure tt)
          (begun d s)
        ≡ ok (tt, t)
      → Inv deps t × ((j : ℕ) → (s.heap j).status ≢ status_none → t.heap j ≡ s.heap j)
  traverse-none go spec d s t v h e =
      let (whole, u, ran, rest) =
        >>=-eq-ok (visit_all go d (s.heap d).dependencies) _ (begun d s) e in
      finish-Inv d s u t whole h
        (visit_all-Visited deps go spec (s.heap d).dependencies d (begun d s) u whole
          (Inv-begin deps d s v h) (Doing-begin d s v h) ran)
        rest

  stays :
      (s t : Loader)
      → Inv deps s
      → ◌≡◌ {A = Outcome (Unit {0} × Loader)} (ok (tt, s)) (ok (tt, t))
      → Inv deps t × ((j : ℕ) → (s.heap j).status ≢ status_none → t.heap j ≡ s.heap j)
  stays s t v e =
      let same : s ≡ t = cc in
      subst (λ t. Inv deps t × ((j : ℕ) → (s.heap j).status ≢ status_none → t.heap j ≡ s.heap j))
        same (v, λ j q. refl)

  -- Every call of `traverse_dependency`, whatever the graph, keeps the calls in order.
  pub traverse_dependency-Spec : (fuel : ℕ) → Spec deps (traverse_dependency fuel)
  unfolding traverse_dependency
  traverse_dependency-Spec zero = record { spec = λ d s t v e. cc }
  traverse_dependency-Spec (suc fuel) = record {
    spec = λ d s t v e. elim (Status-cases (s.heap d).status) [
      | inl h ↦
          traverse-none (traverse_dependency fuel) (traverse_dependency-Spec fuel) d s t v h
            (rw (h, traverse_dependency) at e)
      | inr (inl h) ↦ stays s t v (rw (h, traverse_dependency) at e)
      | inr (inr h) ↦ stays s t v (rw (h, traverse_dependency) at e)
    ];
  }
