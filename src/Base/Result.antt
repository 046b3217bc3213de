-- ===== src/Base/Result.antt =====
-- How a C function ends, and the state monad of those that change state.
use mathlib.Core.Path.{◌≡◌, refl, ◌∙◌, ap, subst}
use mathlib.Core.Bool.{Bool, true, false}
use xemu.Base.Tests.{if◌then◌else◌}
use mathlib.Core.Option.{Option, none, some}

-- `panicked` is `panic` of util.c, which prints a message and exits. `undefined` is behaviour
-- that C leaves undefined: an index out of an array, a value that was never set, a shift by the
-- width or more.
pub data Outcome {ℓ} (A : Type ℓ) : Type ℓ where
  ok : A → Outcome A
  panicked undefined : Outcome A

abbrev pub M {ℓ κ} : Type ℓ → Type κ → Type (ℓ ⊔ κ)
M S A = S → Outcome (A × S)

infixl 5 ◌>>=◌ ◌>>◌
abbrev pub ◌>>=◌ {ℓ κ μ} : {S : Type ℓ} {A : Type κ} {B : Type μ} → M S A → (A → M S B) → M S B
◌>>=◌ m f s = elim (m s) [ ok (a, s') ↦ f a s' | panicked ↦ panicked | undefined ↦ undefined ]

abbrev pub ◌>>◌ {ℓ κ} : {S : Type ℓ} {B : Type κ} → M S (Unit {0}) → M S B → M S B
m >> k = m >>= λ _. k

abbrev pub pure {ℓ κ} : {S : Type ℓ} {A : Type κ} → A → M S A
pure a s = ok (a, s)

abbrev pub lift {ℓ κ} : {S : Type ℓ} {A : Type κ} → Outcome A → M S A
lift r s = elim r [ ok a ↦ ok (a, s) | panicked ↦ panicked | undefined ↦ undefined ]

abbrev pub map_outcome {ℓ κ} : {A : Type ℓ} {B : Type κ} → (A → B) → Outcome A → Outcome B
map_outcome f (ok a) = ok (f a)
map_outcome f panicked = panicked
map_outcome f undefined = undefined

-- A read of an array: past its end the behaviour is undefined.
abbrev pub or_undefined {ℓ} : {A : Type ℓ} → Option A → Outcome A
or_undefined none = undefined
or_undefined (some a) = ok a

-- The outcome is a value, and the value satisfies `P`.
abbrev pub Returns {ℓ} : {A : Type ℓ} → (A → Type 0) → Outcome A → Type 0
Returns P (ok a) = P a
Returns P panicked = ⊥
Returns P undefined = ⊥

-- Inversion of a bind that returns, for proofs where the parts stay shut.
pub >>=-eq-ok {ℓ κ μ} :
    {S : Type ℓ} {A : Type κ} {B : Type μ} (m : M S A) (f : A → M S B) (s : S) {r : B × S}
    → (m >>= f) s ≡ ok r
    → (a : A) × (s' : S) × (m s ≡ ok (a, s')) × (f a s' ≡ ok r)
>>=-eq-ok {S} {A} {B} m f s {r} h = go (m s) refl h
  where
    go :
        (x : Outcome (A × S))
        → m s ≡ x
        → elim x [ ok (a, s') ↦ f a s' | panicked ↦ panicked | undefined ↦ undefined ] ≡ ok r
        → (a : A) × (s' : S) × (m s ≡ ok (a, s')) × (f a s' ≡ ok r)
    go (ok (a, s')) e k = (a, s', e, k)
    go panicked e k = cc
    go undefined e k = cc

-- A bind whose first part returns.
pub >>=-ok {ℓ κ μ} :
    {S : Type ℓ} {A : Type κ} {B : Type μ} (m : M S A) (f : A → M S B) (s : S) {a : A} {s' : S}
    {r : Outcome (B × S)}
    → m s ≡ ok (a, s')
    → f a s' ≡ r
    → (m >>= f) s ≡ r
>>=-ok m f s e k =
    ap (λ x. elim x [ ok (a, s') ↦ f a s' | panicked ↦ panicked | undefined ↦ undefined ]) e ∙ k

-- Whatever the state, a value that the code returns satisfies `P`.
pub record Always {ℓ κ} {S : Type ℓ} {A : Type κ} (P : A → Type 0) (m : M S A) : Type (ℓ ⊔ κ) where
  pub always : (s : S) (a : A) (s' : S) → m s ≡ ok (a, s') → P a

module _ {ℓ κ} {S : Type ℓ} {A : Type κ} (P : A → Type 0) where
  pub Always-pure : (a : A) → P a → Always {S = S} P (pure a)
  Always-pure a p = record { always = λ s b s' e. subst P (ap (from_ok a) e) p }
    where
      from_ok : A → Outcome (A × S) → A
      from_ok d (ok (x, _)) = x
      from_ok d panicked = d
      from_ok d undefined = d

  pub Always-panicked : Always {S = S} P (lift panicked)
  Always-panicked = record { always = λ s b s' e. cc }

  pub Always-undefined : Always {S = S} P (lift undefined)
  Always-undefined = record { always = λ s b s' e. cc }

  pub Always-if : (b : Bool) (m n : M S A) → Always P m → Always P n → Always P (if b then m else n)
  Always-if true m n p q = p
  Always-if false m n p q = q

  pub Always->>= {μ} :
      {B : Type μ} (m : M S B) (f : B → M S A) → ((b : B) → Always P (f b)) → Always P (m >>= f)
  Always->>= m f all = record {
    always = λ s a s' e. let (b, t, _, rest) = >>=-eq-ok m f s e in (all b).always t a s' rest;
  }

pub ruleset always_rules = (Always-pure, Always-panicked, Always-undefined, Always-if, Always->>=)

pub Returns-ok {ℓ} :
    {A : Type ℓ} {P : A → Type 0} (r : Outcome A) → Returns P r → (a : A) × (r ≡ ok a) × P a
Returns-ok (ok a) p = (a, refl, p)
Returns-ok panicked p = absurd p
Returns-ok undefined p = absurd p
