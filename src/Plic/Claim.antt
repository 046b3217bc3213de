-- ===== src/Plic/Claim.antt =====
-- The registers of plic.c and the pending bits.
use native.Mathlib.Nat.{pow-le-pow_right}
use xemu.Base.{
  ℕ, zero, suc, ◌-◌, ◌*◌, ◌/◌, ◌%◌, ◌^◌, ◌<◌, ◌≡◌, refl, ◌∙◌, ap, arith, bit_and, ◌==◌, bit_or,
  if◌then◌else◌, List, [], ◌∷◌, get_elem?, set, some, ok, panicked, undefined, Bool-cases, inl, inr,
  ◌≢◌, true, false, ◌>>◌, ◌>>=◌, M,
}
use xemu.Space.{no_params}
use xemu.Word.Bits.{
  test, test-lt, test-bit_and, test-bit_or, test_ext, bit_and-lt, bit_or-lt, test-complement,
}
use xemu.Word.Set.{test-mul-pow, test-high}
use xemu.Plic.{Plic, claim, not32, plic_signal, clear_pending_bit, plic_read, plic_write}

test-flag : (k j : ℕ) → test (2 ^ k) j ≡ (if j == k then 1 else 0)
unfolding test
test-flag k j = ground (
  arith,
  test-mul-pow 1 k j,
  ap (λ (t : ℕ). test t j) (one_mul (2 ^ k)),
  test-high 1 1 (j - k),
  ap (test 1) (gap j k),
)
  where
    one_mul : (x : ℕ) → 1 * x ≡ x
    one_mul x = omega arith

    gap : (j k : ℕ) → j - k ≡ j - k
    gap j k = refl

set-set : (xs : List ℕ) (i v w : ℕ) → set (set xs i v) i w ≡ set xs i w
set-set [] i v w = refl
set-set (x ∷ xs) zero v w = refl
set-set (x ∷ xs) (suc i) v w = ap (λ t. x ∷ t) (set-set xs i v w)

set-get_elem? : (xs : List ℕ) (i v : ℕ) → get_elem? xs i ≡ some v → set xs i v ≡ xs
set-get_elem? [] i v h = refl
set-get_elem? (x ∷ xs) zero v h = cc
set-get_elem? (x ∷ xs) (suc i) v h = ap (λ t. x ∷ t) (set-get_elem? xs i v h)

get_elem?-set :
    (xs : List ℕ) (i w v : ℕ) → get_elem? xs i ≡ some w → get_elem? (set xs i v) i ≡ some v
get_elem?-set [] i w v h = absurd (ground (arith, h))
get_elem?-set (x ∷ xs) zero w v h = refl
get_elem?-set (x ∷ xs) (suc i) w v h = get_elem?-set xs i w v h

==_eq : (j k : ℕ) → (j == k) ≡ true → j ≡ k
==_eq j k h = ground arith

flag-lt : (k : ℕ) → k < 32 → 2 ^ k < 2 ^ 32
flag-lt k h = omega (arith, pow-le-pow_right {n = 2} (omega arith) {i = k} {j = 31} (omega arith))

-- The bit named `j` is the bit named `k` where the two are equal.
same : (w j k : ℕ) → (if j == k then test w j else test w k) ≡ test w k
same w j k = elim (Bool-cases (j == k)) [
  | inl q ↦ rw (q, ==_eq j k q) refl
  | inr q ↦ ground (arith, q)
]

-- Clearing a flag that was set by `|`.
clear_flag :
    (w k : ℕ) → w < 2 ^ 32 → k < 32 → test w k ≡ 0 → bit_and (bit_or w (2 ^ k)) (not32 (2 ^ k)) ≡ w
unfolding not32
clear_flag w k h hk e =
    test_ext 32 _ _ (bit_and-lt 32 _ _ (bit_or-lt 32 w (2 ^ k) h (flag-lt k hk))) h (λ j hj.
      ground (
        arith,
        test-bit_and (bit_or w (2 ^ k)) (2 ^ 32 - 1 - 2 ^ k) j,
        test-bit_or w (2 ^ k) j,
        test-complement 32 (2 ^ k) j (flag-lt k hk) hj,
        test-flag k j,
        test-lt w j,
        e,
        same w j k,
      ))

module _ (p : Plic) (id w : ℕ) (k : 0 < id) (e : get_elem? p.pending (id / 32) ≡ some w) where
  signal_lem :
      plic_signal id p
      ≡ ok (tt, record p { pending = set p.pending (id / 32) (bit_or w (2 ^ (id % 32))) })
  unfolding plic_signal
  signal_lem = ground (arith, e, k)

  clear_lem :
      clear_pending_bit id p
      ≡ ok (tt, record p { pending = set p.pending (id / 32) (bit_and w (not32 (2 ^ (id % 32)))) })
  unfolding clear_pending_bit
  clear_lem = ground (arith, e, k)

then_lem : (m n : M Plic (Unit {0})) (p q : Plic) → m p ≡ ok (tt, q) → (m >> n) p ≡ n q
then_lem m n p q h =
    ap (λ r. elim r [ ok (_, s) ↦ n s | panicked ↦ panicked | undefined ↦ undefined ]) h

-- A source that was not pending: plic_signal and then clear_pending_bit leave the PLIC as it was.
pub clear_pending_bit-plic_signal :
    (p : Plic) (id w : ℕ)
    → 0 < id
    → get_elem? p.pending (id / 32) ≡ some w
    → w < 2 ^ 32
    → test w (id % 32) ≡ 0
    → (plic_signal id >> clear_pending_bit id) p ≡ ok (tt, p)
clear_pending_bit-plic_signal p id w k e hw off =
    let i = id / 32 in
    let raised = set p.pending i (bit_or w (2 ^ (id % 32))) in
    let cleared =
      clear_lem (record p { pending = raised }) id (bit_or w (2 ^ (id % 32))) k
        (get_elem?-set p.pending i w _ e) in
    let back : set raised i (bit_and (bit_or w (2 ^ (id % 32))) (not32 (2 ^ (id % 32))))
        ≡ p.pending =
      ap (set raised i) (clear_flag w (id % 32) hw (omega arith) off)
      ∙ set-set p.pending i _ w
      ∙ set-get_elem? p.pending i w e in
    then_lem (plic_signal id) (clear_pending_bit id) p _ (signal_lem p id w k e)
    ∙ (cleared ∙ ap (λ xs. ok (tt, record p { pending = xs })) back)

cleared : Plic → ℕ → Plic
cleared p w = record p {
  pending = set p.pending (p.scc / 32) (bit_and w (not32 (2 ^ (p.scc % 32))));
}

read_lem :
    (p : Plic) (w : ℕ)
    → 0 < p.scc
    → get_elem? p.pending (p.scc / 32) ≡ some w
    → plic_read 0x201004 4 no_params p ≡ ok (p.scc, cleared p w)
unfolding plic_read claim cleared
read_lem p w k e =
    let nonzero : (p.scc == 0) ≡ false = ground (arith, k) in
    rw nonzero (
      ap (λ r. elim r [ ok (_, q) ↦ ok (p.scc, q) | panicked ↦ panicked | undefined ↦ undefined ])
        (clear_lem p p.scc w k e))

-- The claim register of the supervisor: a read while `scc` holds a source that is pending returns
-- the source and clears its bit; the completion with the same number then resets `scc`.
pub plic_write-plic_read :
    (p : Plic) (w : ℕ)
    → 0 < p.scc
    → p.scc < 2 ^ 32
    → get_elem? p.pending (p.scc / 32) ≡ some w
    → (plic_read 0x201004 4 no_params >>= λ id. plic_write 0x201004 id 4 no_params) p
      ≡ ok (
        0,
        record p {
          scc = 0;
          pending = set p.pending (p.scc / 32) (bit_and w (not32 (2 ^ (p.scc % 32))));
        },
      )
unfolding plic_write cleared
plic_write-plic_read p w k h e =
    ap
      (λ r. elim r [
        | ok (id, q) ↦ plic_write 0x201004 id 4 no_params q
        | panicked ↦ panicked
        | undefined ↦ undefined
      ])
      (read_lem p w k e)
    ∙ ground (arith, h)

-- A completion with another number than the one that was delivered panics.
pub plic_write-other :
    (p : Plic) (id size : ℕ)
    → id < 2 ^ 32
    → p.scc ≢ id
    → plic_write 0x201004 id size no_params p ≡ panicked
unfolding plic_write
plic_write-other p id size h k = ground (arith, h, k)
