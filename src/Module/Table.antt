-- ===== src/Module/Table.antt =====
-- The table of exported names: strings, each with the NUL at its end.
use xemu.Base.{
  ℕ, Bool, true, false, ◌==◌, ◌≡◌, refl, ◌∙◌, ap, List, [], ◌∷◌, ◌++◌, map, Option, ok, map_outcome,
}
use xemu.Module.Names.{Name}
use xemu.Module.Symbols.{Symbol, reversed, export_from, export_symbols}

-- No byte of the name is a NUL.
abbrev pub is_name : Name → Bool
is_name [] = true
is_name (c ∷ cs) = elim (c == 0) [ true ↦ false | false ↦ is_name cs ]

abbrev pub AreNames : List Name → Type 0
AreNames [] = Unit {0}
AreNames (name ∷ names) = (is_name name ≡ true) × AreNames names

abbrev pub table_of : List Name → List ℕ
table_of [] = []
table_of (name ∷ names) = name ++ 0 ∷ table_of names

++-nil : {A : Type 0} (xs : List A) → xs ++ [] ≡ xs
++-nil [] = refl
++-nil (x ∷ xs) = ap (λ ys. x ∷ ys) (++-nil xs)

reversed-reversed : (xs acc ys : List ℕ) → reversed (reversed xs acc) ys ≡ reversed acc (xs ++ ys)
unfolding reversed
reversed-reversed [] acc ys = refl
reversed-reversed (x ∷ xs) acc ys = reversed-reversed xs (x ∷ acc) ys

-- A byte that is no NUL goes on with the name.
export_from-byte :
    (owner : Option ℕ) (c : ℕ) (acc bs : List ℕ)
    → (c == 0) ≡ false
    → export_from owner acc (c ∷ bs) ≡ export_from owner (c ∷ acc) bs
unfolding export_from
export_from-byte owner c [] bs e = rw e refl
export_from-byte owner c (a ∷ acc) bs e = rw e refl

is_name-∷ : (c : ℕ) (cs : Name) → is_name (c ∷ cs) ≡ true → ((c == 0) ≡ false) × (is_name cs ≡ true)
is_name-∷ c cs h = by_byte (c == 0) refl h
  where
    by_byte :
        (b : Bool)
        → (c == 0) ≡ b
        → elim b [ true ↦ false | false ↦ is_name cs ] ≡ true
        → ((c == 0) ≡ false) × (is_name cs ≡ true)
    by_byte true e q = cc
    by_byte false e q = (e, q)

export_from-++ :
    (owner : Option ℕ) (name acc rest : List ℕ)
    → is_name name ≡ true
    → export_from owner acc (name ++ 0 ∷ rest)
      ≡ map_outcome
          (λ syms. record { name = reversed (reversed name acc) []; owner = owner } ∷ syms)
          (export_from owner [] rest)
unfolding export_from reversed
export_from-++ owner [] [] rest h = refl
export_from-++ owner [] (a ∷ acc) rest h = refl
export_from-++ owner (c ∷ cs) acc rest h =
    let (e, q) = is_name-∷ c cs h in
    export_from-byte owner c acc (cs ++ 0 ∷ rest) e ∙ export_from-++ owner cs (c ∷ acc) rest q

-- The symbols that export_symbols finds in a table of names, whatever the names: these names, in
-- this order, after the symbols that were there.
pub export_symbols-table_of :
    (names : List Name) (owner : Option ℕ) (symbols : List Symbol)
    → AreNames names
    → export_symbols (table_of names) owner symbols
      ≡ ok (symbols ++ map (λ name. record { name = name; owner = owner }) names)
unfolding export_symbols export_from reversed
export_symbols-table_of names owner symbols h =
    ap (map_outcome (λ syms. symbols ++ syms)) (by_name names h)
  where
    by_name :
        (names : List Name)
        → AreNames names
        → export_from owner [] (table_of names)
          ≡ ok (map (λ name. record { name = name; owner = owner }) names)
    by_name [] h = refl
    by_name (name ∷ names) (one, more) =
        export_from-++ owner name [] (table_of names) one
        ∙ (rw (by_name names more, reversed-reversed name [] [])
            (ap
              (λ n. ok (
                record { name = n; owner = owner }
                ∷ map (λ name. record { name = name; owner = owner }) names))
              (++-nil name)))
