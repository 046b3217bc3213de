-- ===== src/Execute/Multiply.antt =====
-- MUL of execute.c: a signed product of the source against the product modulo 2 ^ 64.
use native.Mathlib.Nat.{mul-add, add-mul}
use xemu.Base.{
  ℕ, suc, ◌+◌, ◌-◌, ◌*◌, ◌%◌, ◌^◌, ◌<◌, ◌≡◌, sym, ◌∙◌, ap, arith, ◌⊎◌, inl, inr, ltb, Bool-cases,
}
use xemu.Base.Int.{pos, negsuc, sub_ℕ, signed, to_u64, ◌*ℤ◌}
use xemu.Execute.MulDiv.{mul}

-- A pattern stands for itself, or for minus its complement to 2 ^ 64.
signed64-cases :
    (x : ℕ)
    → x < 2 ^ 64
    → (signed 64 x ≡ pos x) ⊎ ((n : ℕ) × (signed 64 x ≡ negsuc n) × (x + suc n ≡ 2 ^ 64))
unfolding signed
signed64-cases x h = elim (Bool-cases (ltb x (2 ^ 63))) [
  | inl e ↦ inl (ground (arith, e))
  | inr e ↦ inr (2 ^ 64 - 1 - x, ground (arith, e), omega arith)
]

to_u64-minus : (m : ℕ) (v : ℕ) → (v + m) % 2 ^ 64 ≡ 0 → to_u64 (sub_ℕ 0 m) ≡ v % 2 ^ 64
unfolding to_u64
to_u64-minus m v h = ground (arith, h)

left : (a a' b : ℕ) → a + a' ≡ 2 ^ 64 → a * b + a' * b ≡ 2 ^ 64 * b
left a a' b h = sym (add-mul a a' b) ∙ ap (λ (t : ℕ). t * b) h

right : (a b b' : ℕ) → b + b' ≡ 2 ^ 64 → a * b + a * b' ≡ a * 2 ^ 64
right a b b' h = sym (mul-add a b b') ∙ ap (λ (t : ℕ). a * t) h

-- MUL gives the low half of the product of the registers, whatever their signs are.
pub mul_lem : (a b : ℕ) → a < 2 ^ 64 → b < 2 ^ 64 → mul a b ≡ a * b % 2 ^ 64
unfolding mul ◌*ℤ◌ to_u64
mul_lem a b h k = elim (signed64-cases a h) [
  | inl ea ↦ elim (signed64-cases b k) [
    | inl eb ↦ rw (ea, eb) (ground arith)
    | inr (n, eb, hb) ↦ rw (ea, eb) (ground (arith, right a b (suc n) hb))
  ]
  | inr (m, ea, ha) ↦ elim (signed64-cases b k) [
    | inl eb ↦ rw (ea, eb) (ground (arith, left a (suc m) b ha))
    | inr (n, eb, hb) ↦
        rw (ea, eb) (ground (arith, left a (suc m) b ha, right (suc m) b (suc n) hb))
  ]
]
