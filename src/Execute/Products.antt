-- ===== src/Execute/Products.antt =====
-- MULH, MULHU, DIVU, REMU, ADDW and SUBW of execute.c, against arithmetic.
use native.Mathlib.Nat.{div-add-mod', mul-le-mul}
use xemu.Base.{
  ℕ, ◌+◌, ◌-◌, ◌*◌, ◌%◌, ◌^◌, ◌<◌, ◌≤◌, ◌≡◌, refl, ◌∙◌, ap, arith, ◌⊎◌, inl, inr, ltb, ltb→lt,
  Bool-cases,
}
use xemu.Base.Int.{ℤ, pos, negsuc, signed, to_u64, sra, ◌+ℤ◌, ◌-ℤ◌}
use xemu.Word.{to_word}
use xemu.Word.Fields.{to_word_lem}
use xemu.Execute.Arith.{add, addw, sub, subw}
use xemu.Execute.MulDiv.{mulh, mulhu, divu, remu}

product-lt : (a b : ℕ) → a < 2 ^ 64 → b < 2 ^ 64 → a * b < 2 ^ 128
product-lt a b h k = omega (
  arith,
  mul-le-mul {n₁ = a} {m₁ = b} {n₂ = 2 ^ 64 - 1} {m₂ = 2 ^ 64 - 1} (omega arith) (omega arith),
)

-- MULH returns the upper half of the unsigned product, as MULHU does: its casts extend the
-- registers with zeros.
pub mulh-unsigned : (a b : ℕ) → a < 2 ^ 64 → b < 2 ^ 64 → mulh a b ≡ mulhu a b
unfolding mulh mulhu signed sra to_u64
mulh-unsigned a b h k = ground (arith, product-lt a b h k)

-- DIVU and REMU return a quotient and a remainder, also where the divisor is 0.
pub divu-remu : (a b : ℕ) → divu a b * b + remu a b ≡ a
unfolding divu remu
divu-remu a b = ground (arith, div-add-mod' a b)

-- Sign extension depends on the low word alone.
to_word_low : (n m : ℕ) → n < 2 ^ 64 → m < 2 ^ 64 → n % 2 ^ 32 ≡ m % 2 ^ 32 → to_word n ≡ to_word m
to_word_low n m h k e = ground (arith, to_word_lem n h, to_word_lem m k)

to_u64-signed : (n : ℕ) → n < 2 ^ 64 → to_u64 (signed 32 n) ≡ to_word n
unfolding to_u64 signed
to_u64-signed n h = ground (arith, to_word_lem n h)

signed-cases :
    (x : ℕ)
    → ((signed 32 x ≡ pos (x % 2 ^ 32)) × (x % 2 ^ 32 < 2 ^ 31))
      ⊎ ((signed 32 x ≡ negsuc (2 ^ 32 - 1 - x % 2 ^ 32)) × (2 ^ 31 ≤ x % 2 ^ 32))
unfolding signed
signed-cases x = elim (Bool-cases (ltb (x % 2 ^ 32) (2 ^ 31))) [
  | inl e ↦ inl (rw e refl, ltb→lt _ _ e)
  | inr e ↦ inr (rw e refl, ground arith)
]

low_sum : (a b : ℕ) → to_u64 (signed 32 a +ℤ signed 32 b) % 2 ^ 32 ≡ (a + b) % 2 ^ 32
unfolding to_u64 ◌+ℤ◌
low_sum a b = elim (signed-cases a) [
  | inl (ea, ha) ↦ elim (signed-cases b) [
    | inl (eb, hb) ↦ rw (ea, eb) (ground arith)
    | inr (eb, hb) ↦ rw (ea, eb) (ground arith)
  ]
  | inr (ea, ha) ↦ elim (signed-cases b) [
    | inl (eb, hb) ↦ rw (ea, eb) (ground arith)
    | inr (eb, hb) ↦ rw (ea, eb) (ground arith)
  ]
]

to_u64-lt : (z : ℤ) → to_u64 z < 2 ^ 64
unfolding to_u64
to_u64-lt (pos n) = omega arith
to_u64-lt (negsuc n) = omega arith

to_word-lt : (n : ℕ) → n < 2 ^ 64 → to_word n < 2 ^ 64
to_word-lt n h = ground (arith, to_word_lem n h)

to_word_twice : (n : ℕ) → n < 2 ^ 64 → to_word (to_word n) ≡ to_word n
to_word_twice n h = to_word_low (to_word n) n (to_word-lt n h) h (ground (arith, to_word_lem n h))

-- ADDW gives the low word of the 64-bit sum, sign-extended, although the source adds two signed
-- words and extends the sum twice.
pub addw_lem : (a b : ℕ) → addw a b ≡ to_word (add a b)
unfolding addw add
addw_lem a b =
    let z = signed 32 a +ℤ signed 32 b in
    ap to_word (to_u64-signed (to_u64 z) (to_u64-lt z))
    ∙ to_word_twice (to_u64 z) (to_u64-lt z)
    ∙ to_word_low (to_u64 z) ((a + b) % 2 ^ 64) (to_u64-lt z) (omega arith)
        (omega (arith, low_sum a b))

low_difference :
    (a b : ℕ)
    → b < 2 ^ 64
    → to_u64 (signed 32 a -ℤ signed 32 b) % 2 ^ 32 ≡ (a + 2 ^ 64 - b) % 2 ^ 32
unfolding to_u64 ◌-ℤ◌
low_difference a b h = elim (signed-cases a) [
  | inl (ea, ha) ↦ elim (signed-cases b) [
    | inl (eb, hb) ↦ rw (ea, eb) (ground arith)
    | inr (eb, hb) ↦ rw (ea, eb) (ground arith)
  ]
  | inr (ea, ha) ↦ elim (signed-cases b) [
    | inl (eb, hb) ↦ rw (ea, eb) (ground arith)
    | inr (eb, hb) ↦ rw (ea, eb) (ground arith)
  ]
]

-- SUBW gives the low word of the 64-bit difference, sign-extended.
pub subw_lem : (a b : ℕ) → b < 2 ^ 64 → subw a b ≡ to_word (sub a b)
unfolding subw sub
subw_lem a b h =
    let z = signed 32 a -ℤ signed 32 b in
    ap to_word (to_u64-signed (to_u64 z) (to_u64-lt z))
    ∙ to_word_twice (to_u64 z) (to_u64-lt z)
    ∙ to_word_low (to_u64 z) ((a + 2 ^ 64 - b) % 2 ^ 64) (to_u64-lt z) (omega arith)
        (omega (arith, low_difference a b h))
