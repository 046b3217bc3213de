-- ===== src/Module/Visit.antt =====
-- The loop of traverse_dependency over the dependencies of a module.
use xemu.Base.{
  ℕ, Bool, true, false, ◌==◌, ◌≡◌, ◌≢◌, ◌⊎◌, inl, inr, ⊎_elim, refl, sym, ◌∙◌, ap, subst, arith,
  List, [], ◌∷◌, Outcome, ok, panicked, undefined, M, ◌>>◌, Bool-cases, ==_iff,
}
use xemu.Module.Symbols.{find_dependency}
use xemu.Module.Sort.{
  Status, status_none, status_doing, status_done, Loader, set_module, rest_of, visit_all,
}
use xemu.Module.Order.{Inv, Inv-pop, put-elim, popped}

-- What `visit_all` does after a dependency was traversed.
abbrev pub next_dependency : M Loader Bool → ℕ → Loader → Status → Outcome (Bool × Loader)
next_dependency rest i u status_done =
    (set_module i (λ m. record m { dependencies = rest_of m.dependencies }) >> rest) u
next_dependency rest i u status_none = ok (false, u)
next_dependency rest i u status_doing = ok (false, u)

pub after_dependency :
    (go : ℕ → M Loader (Unit {0})) (d : ℕ) (rest : M Loader Bool) (i : ℕ) (s t : Loader)
    (whole : Bool)
    → elim (go d s) [
      | ok (_, u) ↦ next_dependency rest i u (u.heap d).status
      | panicked ↦ panicked
      | undefined ↦ undefined
    ]
      ≡ ok (whole, t)
    → (u : Loader) × (go d s ≡ ok (tt, u))
      × (next_dependency rest i u (u.heap d).status ≡ ok (whole, t))
after_dependency go d rest i s t whole e = by_outcome (go d s) refl e
  where
    by_outcome :
        (r : Outcome (Unit {0} × Loader))
        → go d s ≡ r
        → elim r [
          | ok (_, u) ↦ next_dependency rest i u (u.heap d).status
          | panicked ↦ panicked
          | undefined ↦ undefined
        ]
          ≡ ok (whole, t)
        → (u : Loader) × (go d s ≡ ok (tt, u))
          × (next_dependency rest i u (u.heap d).status ≡ ok (whole, t))
    by_outcome (ok (_, u)) ran q = (u, ran, q)
    by_outcome panicked ran q = cc
    by_outcome undefined ran q = cc

module _ (deps : ℕ → List ℕ) where
  -- What a call of `traverse_dependency` promises.
  pub record Spec (go : ℕ → M Loader (Unit {0})) : Type 0 where
    pub spec :
        (d : ℕ) (s t : Loader)
        → Inv deps s
        → go d s ≡ ok (tt, t)
        → Inv deps t × ((j : ℕ) → (s.heap j).status ≢ status_none → t.heap j ≡ s.heap j)

  -- The state of the loop over the dependencies of `i`, of which `ds` are left.
  pub record Doing (i : ℕ) (ds : List ℕ) (s : Loader) : Type 0 where
    pub doing : (s.heap i).status ≡ status_doing
    pub left : (s.heap i).dependencies ≡ ds
    pub passed :
        (d : ℕ)
        → find_dependency (deps i) d ≡ true
        → (find_dependency ds d ≡ true) ⊎ (find_dependency s.called d ≡ true)

  pub record Visited (i : ℕ) (s t : Loader) (whole : Bool) : Type 0 where
    pub valid : Inv deps t
    pub doing : (t.heap i).status ≡ status_doing
    pub frame : (j : ℕ) → (s.heap j).status ≢ status_none → j ≢ i → t.heap j ≡ s.heap j
    pub passed :
        whole ≡ true
        → (d : ℕ) → find_dependency (deps i) d ≡ true
        → find_dependency t.called d ≡ true

  pub begun_status : {a : Status} → a ≡ status_done → a ≢ status_none
  begun_status h k = cc (h, k)

  pub still_called :
      (s t : Loader) (d : ℕ)
      → Inv deps s
      → Inv deps t
      → ((j : ℕ) → (s.heap j).status ≢ status_none → t.heap j ≡ s.heap j)
      → find_dependency s.called d ≡ true
      → find_dependency t.called d ≡ true
  still_called s t d v w frame h =
      w.listed d (ap (λ m. m.status) (frame d (begun_status (v.finished d h))) ∙ v.finished d h)

  pub Doing-pop :
      (i d : ℕ) (ds : List ℕ) (s u : Loader)
      → Inv deps s
      → Inv deps u
      → Doing i (d ∷ ds) s
      → ((j : ℕ) → (s.heap j).status ≢ status_none → u.heap j ≡ s.heap j)
      → (u.heap d).status ≡ status_done
      → Doing i ds (popped i u)
  Doing-pop i d ds s u v w h frame ready =
      let same : u.heap i ≡ s.heap i = frame i (λ q. cc (q, h.doing)) in
      record {
        doing =
            put-elim (λ m. m.status ≡ status_doing) u.heap i _ i
              (λ e. ap (λ m. m.status) same ∙ h.doing) (λ ne. absurd (ne refl));
        left =
            put-elim (λ m. m.dependencies ≡ ds) u.heap i _ i
              (λ e. ap (λ m. rest_of m.dependencies) same ∙ ap rest_of h.left)
              (λ ne. absurd (ne refl));
        passed = λ x q.
            ⊎_elim
              (λ here. elim (Bool-cases (d == x)) [
                | inl e ↦ inr (rw (← (==_iff d x).0 e) (w.listed d ready))
                | inr e ↦ inl (ground (arith, here, e))
              ])
              (λ before. inr (still_called s u x v w frame before)) (h.passed x q);
      }

  Visited-pop :
      (i : ℕ) (s u t : Loader) (whole : Bool)
      → (s.heap i).status ≡ status_doing
      → ((j : ℕ) → (s.heap j).status ≢ status_none → u.heap j ≡ s.heap j)
      → Visited i (popped i u) t whole
      → Visited i s t whole
  Visited-pop i s u t whole h frame v = record {
    valid = v.valid;
    doing = v.doing;
    frame = λ j q ne.
        let away : (popped i u).heap j ≡ s.heap j =
          put-elim (λ m. m ≡ u.heap j) u.heap i _ j (λ e. absurd (ne e)) (λ _. refl) ∙ frame j q in
        v.frame j (λ k. q (sym (ap (λ m. m.status) away) ∙ k)) ne ∙ away;
    passed = v.passed;
  }

  -- The loop that is left early, on a cyclic chain.
  Visited-stop :
      (i : ℕ) (s u t : Loader) (whole : Bool)
      → Inv deps u
      → (s.heap i).status ≡ status_doing
      → ((j : ℕ) → (s.heap j).status ≢ status_none → u.heap j ≡ s.heap j)
      → ◌≡◌ {A = Outcome (Bool × Loader)} (ok (false, u)) (ok (whole, t))
      → Visited i s t whole
  Visited-stop i s u t whole w h frame e =
      let same : u ≡ t = cc in
      subst (λ u. Visited i s u whole) same
        (record {
          valid = w;
          doing = ap (λ m. m.status) (frame i (λ x. cc (x, h))) ∙ h;
          frame = λ j q ne. frame j q;
          passed = λ q. cc;
        })

  Visited-next :
      (i d : ℕ) (ds : List ℕ) (s u t : Loader) (whole : Bool) (rest : M Loader Bool)
      → Inv deps s
      → Inv deps u
      → Doing i (d ∷ ds) s
      → ((j : ℕ) → (s.heap j).status ≢ status_none → u.heap j ≡ s.heap j)
      → (Inv deps (popped i u)
          → Doing i ds (popped i u)
          → rest (popped i u) ≡ ok (whole, t)
          → Visited i (popped i u) t whole)
      → (k : Status) → (u.heap d).status ≡ k
      → next_dependency rest i u k ≡ ok (whole, t)
      → Visited i s t whole
  Visited-next i d ds s u t whole rest v w h frame ih status_done ek q =
      let doing_u = ap (λ m. m.status) (frame i (λ x. cc (x, h.doing))) ∙ h.doing in
      Visited-pop i s u t whole h.doing frame
        (ih (Inv-pop deps i u w doing_u) (Doing-pop i d ds s u v w h frame ek) q)
  Visited-next i d ds s u t whole rest v w h frame ih status_none ek q =
      Visited-stop i s u t whole w h.doing frame q
  Visited-next i d ds s u t whole rest v w h frame ih status_doing ek q =
      Visited-stop i s u t whole w h.doing frame q

  pub visit_all-Visited :
      (go : ℕ → M Loader (Unit {0}))
      → Spec go
      → (ds : List ℕ) (i : ℕ) (s t : Loader) (whole : Bool) → Inv deps s
      → Doing i ds s
      → visit_all go i ds s ≡ ok (whole, t)
      → Visited i s t whole
  unfolding visit_all
  visit_all-Visited go spec [] i s t whole v h e =
      let same : s ≡ t = cc in
      subst (λ u. Visited i s u whole) same
        (record {
          valid = v;
          doing = h.doing;
          frame = λ j q ne. refl;
          passed = λ _ d q. ⊎_elim (λ none_left. cc) (λ called. called) (h.passed d q);
        })
  visit_all-Visited go spec (d ∷ ds) i s t whole v h e =
      let (u, ran, rest) = after_dependency go d (visit_all go i ds) i s t whole e in
      let (w, frame) = spec.spec d s u v ran in
      Visited-next i d ds s u t whole (visit_all go i ds) v w h frame
        (visit_all-Visited go spec ds i (popped i u) t whole) (u.heap d).status refl rest
