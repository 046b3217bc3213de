-- ===== src/Module/Resolve.antt =====
-- What check_dependency makes of the undefined symbols of a module, and what a table of exported
-- names holds.
use xemu.Base.{
  ℕ, Bool, true, false, ◌==◌, ◌&&◌, ◌||◌, ◌≡◌, ◌⊎◌, inl, inr, ⊎_elim, refl, ◌∙◌, arith, List, [],
  ◌∷◌, ◌++◌, Option, none, some, ok, panicked, Bool-cases, ==_iff,
}
use xemu.Module.Names.{Name, same_name}
use xemu.Module.Symbols.{Symbol, match_undef, find_dependency, resolve_undefs}

-- Some module, or startup.bin, exports the name.
abbrev pub is_exported : List Symbol → Name → Bool
is_exported [] name = false
is_exported (sym ∷ syms) name = same_name sym.name name || is_exported syms name

abbrev pub all_exported : List Symbol → List Name → Bool
all_exported symbols [] = true
all_exported symbols (name ∷ names) = is_exported symbols name && all_exported symbols names

-- The module of the symbol that a name stands for is `x`.
abbrev pub is_from : Option Symbol → ℕ → Bool
is_from none x = false
is_from (some one) x = elim one.owner [ none ↦ false | some target ↦ target == x ]

-- The module `x` exports one of the names.
abbrev pub is_wanted : List Symbol → List Name → ℕ → Bool
is_wanted symbols [] x = false
is_wanted symbols (name ∷ names) x =
    is_from (match_undef symbols name) x || is_wanted symbols names x

match_undef-cases :
    (symbols : List Symbol) (name : Name)
    → ((match_undef symbols name ≡ none) × (is_exported symbols name ≡ false))
      ⊎ ((one : Symbol) × (match_undef symbols name ≡ some one) × (is_exported symbols name ≡ true))
unfolding match_undef
match_undef-cases [] name = inl (refl, refl)
match_undef-cases (sym ∷ syms) name = elim (Bool-cases (same_name sym.name name)) [
  | inl e ↦ inr (sym, rw (match_undef, e) refl, rw e refl)
  | inr e ↦
      ⊎_elim (λ p. inl (rw (match_undef, e) p.0, rw e p.1))
        (λ p. inr (p.0, rw (match_undef, e) p.1, rw e p.2)) (match_undef-cases syms name)
]

find_dependency-++ :
    (ds es : List ℕ) (x : ℕ)
    → find_dependency (ds ++ es) x ≡ (find_dependency ds x || find_dependency es x)
find_dependency-++ [] es x = refl
find_dependency-++ (d ∷ ds) es x = rw (find_dependency-++ ds es x) ground arith

-- What is promised of the dependencies that a module gets.
abbrev pub Resolved : List Symbol → List Name → List ℕ → List ℕ → Type 0
Resolved symbols names ds es =
    (x : ℕ) → find_dependency es x ≡ (find_dependency ds x || is_wanted symbols names x)

-- The dependencies after one symbol.
abbrev with_owner : List ℕ → Option ℕ → List ℕ
with_owner ds none = ds
with_owner ds (some target) = elim (find_dependency ds target) [
  | true ↦ ds
  | false ↦ ds ++ target ∷ []
]

find_dependency-with_owner :
    (ds : List ℕ) (one : Symbol) (x : ℕ)
    → find_dependency (with_owner ds one.owner) x ≡ (find_dependency ds x || is_from (some one) x)
find_dependency-with_owner ds one x = by_owner one.owner
  where
    seen :
        (target : ℕ)
        → find_dependency ds target ≡ true
        → find_dependency ds x ≡ (find_dependency ds x || target == x)
    seen target e = elim (Bool-cases (target == x)) [
      | inl q ↦ rw (← (==_iff target x).0 q, e) refl
      | inr q ↦ rw q (ground arith)
    ]

    by_owner :
        (o : Option ℕ)
        → find_dependency (with_owner ds o) x
          ≡ (find_dependency ds x || elim o [ none ↦ false | some target ↦ target == x ])
    by_owner none = ground arith
    by_owner (some target) = by_known (find_dependency ds target) refl
      where
        by_known :
            (b : Bool)
            → find_dependency ds target ≡ b
            → find_dependency (elim b [ true ↦ ds | false ↦ ds ++ target ∷ [] ]) x
              ≡ (find_dependency ds x || target == x)
        by_known true e = seen target e
        by_known false e = find_dependency-++ ds (target ∷ []) x ∙ ground arith

resolve_undefs-some :
    (symbols : List Symbol) (name : Name) (names : List Name) (ds : List ℕ) (one : Symbol)
    → match_undef symbols name ≡ some one
    → resolve_undefs symbols (name ∷ names) ds
      ≡ resolve_undefs symbols names (with_owner ds one.owner)
unfolding resolve_undefs
resolve_undefs-some symbols name names ds one e = rw (resolve_undefs, e) (by_owner one.owner)
  where
    by_owner :
        (o : Option ℕ)
        → elim o [
          | none ↦ resolve_undefs symbols names ds
          | some target ↦ elim (find_dependency ds target) [
            | true ↦ resolve_undefs symbols names ds
            | false ↦ resolve_undefs symbols names (ds ++ target ∷ [])
          ]
        ]
          ≡ resolve_undefs symbols names (with_owner ds o)
    by_owner none = refl
    by_owner (some target) = by_known (find_dependency ds target)
      where
        by_known :
            (b : Bool)
            → elim b [
              | true ↦ resolve_undefs symbols names ds
              | false ↦ resolve_undefs symbols names (ds ++ target ∷ [])
            ]
              ≡ resolve_undefs symbols names (elim b [ true ↦ ds | false ↦ ds ++ target ∷ [] ])
        by_known true = refl
        by_known false = refl

Resolved-step :
    (symbols : List Symbol) (name : Name) (names : List Name) (ds es : List ℕ) (one : Symbol)
    → match_undef symbols name ≡ some one
    → Resolved symbols names (with_owner ds one.owner) es
    → Resolved symbols (name ∷ names) ds es
Resolved-step symbols name names ds es one e r x =
    rw (r x, find_dependency-with_owner ds one x, e) ground arith

-- The loop of check_dependency, for any symbols, panics if a name is exported by nobody, and else
-- leaves the earlier dependencies with the modules that the names are from.
pub resolve_undefs-Resolved :
    (symbols : List Symbol) (names : List Name) (ds : List ℕ)
    → ((all_exported symbols names ≡ false) × (resolve_undefs symbols names ds ≡ panicked))
      ⊎ ((all_exported symbols names ≡ true)
          × ((es : List ℕ) × (resolve_undefs symbols names ds ≡ ok es)
              × Resolved symbols names ds es))
unfolding resolve_undefs
resolve_undefs-Resolved symbols [] ds = inr (refl, (ds, refl, λ x. ground arith))
resolve_undefs-Resolved symbols (name ∷ names) ds = elim (match_undef-cases symbols name) [
  | inl (e, missing) ↦ inl (rw missing refl, rw (resolve_undefs, e) refl)
  | inr (one, e, found) ↦
      ⊎_elim
        (λ p. inl (rw (found, p.0) refl, resolve_undefs-some symbols name names ds one e ∙ p.1))
        (λ p.
          let (known, (es, ran, r)) = p in
          inr (
            rw (found, known) refl,
            (
              es,
              resolve_undefs-some symbols name names ds one e ∙ ran,
              Resolved-step symbols name names ds es one e r,
            ),
          ))
        (resolve_undefs-Resolved symbols names (with_owner ds one.owner))
]
