-- ===== src/Blob/Bytes.antt =====
-- Bytes in memory, one by one.
use xemu.Base.{
  ℕ, zero, suc, ◌+◌, ◌*◌, ◌/◌, ◌%◌, ◌≤◌, ◌<◌, ◌⊎◌, List, [], ◌∷◌, ◌++◌, length, map, update, ◌≡◌,
  refl, sym, ap, ◌∙◌, arith,
}
use xemu.Ram.{load_le, store_le}
use xemu.Space.{to_bytes, from_bytes, drop}
use xemu.Text.{take}

abbrev pub store_bytes : (ℕ → ℕ) → ℕ → List ℕ → ℕ → ℕ
store_bytes f addr [] = f
store_bytes f addr (b ∷ bs) = store_bytes (update f addr (b % 256)) (addr + 1) bs

abbrev pub load_bytes : (ℕ → ℕ) → ℕ → ℕ → List ℕ
load_bytes f addr zero = []
load_bytes f addr (suc n) = f addr % 256 ∷ load_bytes f (addr + 1) n

pub store_bytes-append :
    (f : ℕ → ℕ) (addr : ℕ) (xs ys : List ℕ)
    → store_bytes f addr (xs ++ ys) ≡ store_bytes (store_bytes f addr xs) (addr + length xs) ys
store_bytes-append f addr [] ys = ap (λ a. store_bytes f a ys) (omega arith)
store_bytes-append f addr (x ∷ xs) ys =
    store_bytes-append (update f addr (x % 256)) (addr + 1) xs ys
    ∙ ap (λ a. store_bytes (store_bytes (update f addr (x % 256)) (addr + 1) xs) a ys) (omega arith)

pub load_bytes-append :
    (f : ℕ → ℕ) (addr n m : ℕ)
    → load_bytes f addr (n + m) ≡ load_bytes f addr n ++ load_bytes f (addr + n) m
load_bytes-append f addr zero m =
    let same : addr + zero ≡ addr = omega arith in
    let none : zero + m ≡ m = omega arith in
    ap (load_bytes f addr) none ∙ ap (λ a. load_bytes f a m) (sym same)
load_bytes-append f addr (suc n) m =
    let count : suc n + m ≡ suc (n + m) = omega arith in
    let past : (addr + 1) + n ≡ addr + suc n = omega arith in
    ap (load_bytes f addr) count
    ∙ ap (λ t. f addr % 256 ∷ t)
        (load_bytes-append f (addr + 1) n m
          ∙ ap (λ a. load_bytes f (addr + 1) n ++ load_bytes f a m) past)

pub store_bytes-outside :
    (f : ℕ → ℕ) (addr : ℕ) (bytes : List ℕ) (j : ℕ)
    → (j < addr) ⊎ (addr + length bytes ≤ j)
    → store_bytes f addr bytes j ≡ f j
store_bytes-outside f addr [] j h = refl
store_bytes-outside f addr (b ∷ bs) j h =
    store_bytes-outside (update f addr (b % 256)) (addr + 1) bs j (omega arith) ∙ ground arith

-- What is loaded where bytes were stored.
pub load_bytes-store_bytes :
    (f : ℕ → ℕ) (addr : ℕ) (bytes : List ℕ)
    → load_bytes (store_bytes f addr bytes) addr (length bytes) ≡ map (λ b. b % 256) bytes
load_bytes-store_bytes f addr [] = refl
load_bytes-store_bytes f addr (b ∷ bs) =
    let kept = store_bytes-outside (update f addr (b % 256)) (addr + 1) bs addr (omega arith) in
    let first : store_bytes f addr (b ∷ bs) addr % 256 ≡ b % 256 =
      ap (λ t. t % 256) kept ∙ ground arith in
    λ i. first i ∷ load_bytes-store_bytes (update f addr (b % 256)) (addr + 1) bs i

pub store_le-from_bytes :
    (f : ℕ → ℕ) (addr n : ℕ) (bytes : List ℕ)
    → n ≤ length bytes
    → store_le f addr n (from_bytes n bytes) ≡ store_bytes f addr (take n bytes)
unfolding store_le from_bytes take
store_le-from_bytes f addr zero bytes h = refl
store_le-from_bytes f addr (suc n) [] h = absurd (omega (arith, h))
store_le-from_bytes f addr (suc n) (b ∷ bs) h =
    let low : (b % 256 + 256 * from_bytes n bs) % 256 ≡ b % 256 = omega arith in
    let high : (b % 256 + 256 * from_bytes n bs) / 256 ≡ from_bytes n bs = omega arith in
    rw (low, high) (store_le-from_bytes (update f addr (b % 256)) (addr + 1) n bs (omega arith))

pub to_bytes-load_le :
    (f : ℕ → ℕ) (addr n : ℕ) → to_bytes n (load_le f addr n) ≡ load_bytes f addr n
unfolding to_bytes load_le
to_bytes-load_le f addr zero = refl
to_bytes-load_le f addr (suc n) =
    let rest = load_le f (addr + 1) n in
    let low : (f addr % 256 + 256 * rest) % 256 ≡ f addr % 256 = omega arith in
    let high : (f addr % 256 + 256 * rest) / 256 ≡ rest = omega arith in
    rw (low, high) (ap (λ t. (f addr % 256) ∷ t) (to_bytes-load_le f (addr + 1) n))

pub take-drop : (n : ℕ) (bytes : List ℕ) → take n bytes ++ drop n bytes ≡ bytes
unfolding take drop
take-drop zero bytes = refl
take-drop (suc n) [] = refl
take-drop (suc n) (b ∷ bs) = ap (λ t. b ∷ t) (take-drop n bs)

take_nil : (m : ℕ) → take m (drop 1 []) ≡ []
unfolding take drop
take_nil zero = refl
take_nil (suc m) = refl

pub take_add :
    (n m : ℕ) (bytes : List ℕ) → take (n + m) bytes ≡ take n bytes ++ take m (drop n bytes)
unfolding take drop
take_add zero m bytes = let none : zero + m ≡ m = omega arith in ap (λ k. take k bytes) none
take_add (suc n) m [] =
    let count : suc n + m ≡ suc (n + m) = omega arith in
    ap (λ k. take k []) count ∙ sym (take_nil m)
take_add (suc n) m (b ∷ bs) =
    let count : suc n + m ≡ suc (n + m) = omega arith in
    ap (λ k. take k (b ∷ bs)) count ∙ ap (λ t. b ∷ t) (take_add n m bs)
