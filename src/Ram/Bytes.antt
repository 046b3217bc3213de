-- ===== src/Ram/Bytes.antt =====
-- Memory as bytes: what is stored is loaded again, and other bytes stay.
use native.Mathlib.Nat.{pow-suc, div-add-mod, div-div-eq-div-mul}
use xemu.Base.{
  ℕ, zero, suc, ◌+◌, ◌*◌, ◌/◌, ◌%◌, ◌^◌, ◌<◌, ◌≤◌, ◌≡◌, refl, sym, ap, ◌∙◌, ◌⊎◌, arith, update,
}
use xemu.Ram.{load_le, store_le}

mod-pow-suc : (v n : ℕ) → v % 256 ^ suc n ≡ 256 * (v / 256 % 256 ^ n) + v % 256
mod-pow-suc v n =
    let q = v / 256 / 256 ^ n in
    let quotient : v / 256 ^ suc n ≡ q =
      sym (
        div-div-eq-div-mul v 256 (256 ^ n)
        ∙ ap (λ (t : ℕ). v / t) (omega (arith, pow-suc 256 n))) in
    let whole : 256 ^ suc n * q + v % 256 ^ suc n ≡ v =
      rw (← quotient) (div-add-mod v (256 ^ suc n)) in
    omega (arith, whole, div-add-mod (v / 256) (256 ^ n), ap (λ (t : ℕ). t * q) (pow-suc 256 n))

store_le-outside :
    (mem : ℕ → ℕ) (a n v j : ℕ) → (j < a) ⊎ (a + n ≤ j) → store_le mem a n v j ≡ mem j
unfolding store_le
store_le-outside mem a zero v j h = refl
store_le-outside mem a (suc n) v j h =
    store_le-outside (update mem a (v % 256)) (a + 1) n (v / 256) j (omega arith) ∙ ground arith

-- A load gives back what was stored at the same place, cut to its size.
pub load_le-store_le : (mem : ℕ → ℕ) (a n v : ℕ) → load_le (store_le mem a n v) a n ≡ v % 256 ^ n
unfolding load_le store_le
load_le-store_le mem a zero v = omega arith
load_le-store_le mem a (suc n) v = ground (
  arith,
  store_le-outside (update mem a (v % 256)) (a + 1) n (v / 256) a (omega arith),
  load_le-store_le (update mem a (v % 256)) (a + 1) n (v / 256),
  mod-pow-suc v n,
)

-- A load next to a store is as before.
pub load_le-store_le_ne :
    (mem : ℕ → ℕ) (a n v b k : ℕ)
    → (b + k ≤ a) ⊎ (a + n ≤ b)
    → load_le (store_le mem a n v) b k ≡ load_le mem b k
unfolding load_le
load_le-store_le_ne mem a n v b zero h = refl
load_le-store_le_ne mem a n v b (suc k) h = ground (
  arith,
  store_le-outside mem a n v b (omega arith),
  load_le-store_le_ne mem a n v (b + 1) k (omega arith),
)

pub load_le-lt : (mem : ℕ → ℕ) (a n : ℕ) → load_le mem a n < 256 ^ n
unfolding load_le
load_le-lt mem a zero = omega arith
load_le-lt mem a (suc n) = omega (arith, load_le-lt mem (a + 1) n, pow-suc 256 n)
