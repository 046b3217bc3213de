-- ===== src/Plic/Delivery.antt =====
-- plic_interrupt of plic.c: which source it delivers.
use native.Mathlib.Nat.{pow-suc}
use xemu.Base.{
  inl, inr, Bool-cases, Option-cases, ltb→lt, ℕ, zero, suc, ◌+◌, ◌*◌, ◌/◌, ◌%◌, ◌^◌, ◌<◌, ◌≡◌, refl,
  ◌∙◌, ap, arith, bit_and, ltb, ◌==◌, if◌then◌else◌, List, get_elem?, Option, none, some, Outcome,
  ok, panicked, undefined,
}
use xemu.Csr.Cause
use xemu.Word.Bits.{test, test-lt, test-bit_and, mod-pow-suc}
use xemu.Plic.{Plic, first_one, first_one_from, scan, remember, deliver}

lowest :
    (fuel ret word : ℕ)
    → word < 2 ^ fuel
    → 0 < word
    → (b : ℕ) × (first_one_from fuel ret word ≡ ok (ret + b))
      × (b < fuel)
      × (word % 2 ^ b ≡ 0)
      × (test word b ≡ 1)
unfolding first_one_from test
lowest zero ret word h k = absurd (omega arith)
lowest (suc fuel) ret word h k = elim (Bool-cases (word % 2 == 0)) [
  | inl e ↦
      let (b, e1, e2, e3, e4) =
        lowest fuel (ret + 1) (word / 2) (omega (arith, pow-suc 2 fuel)) (ground arith) in
      (suc b, ground (arith, e1), omega arith, ground (arith, mod-pow-suc word b), e4)
  | inr e ↦ (0, ground arith, omega arith, omega arith, ground arith)
]

-- `first_one` returns the index of the lowest bit that is set, for every 32-bit word but 0: its
-- loop ends, and never reaches its panic.
pub first_one-lowest :
    (word : ℕ)
    → word < 2 ^ 32
    → 0 < word
    → (b : ℕ) × (first_one word ≡ ok b) × (b < 32) × (word % 2 ^ b ≡ 0) × (test word b ≡ 1)
unfolding first_one
first_one-lowest word h k =
    let (b, e, e1, e2, e3) = lowest 32 0 word h k in (b, e ∙ ap ok (omega arith), e1, e2, e3)

-- What delivery of a source promises: it is pending and enabled, and its priority exceeds the threshold.
unfoldable pub IsDeliverable : Plic → List ℕ → ℕ → ℕ → Type 0
IsDeliverable p enable threshold id =
    (word mask level : ℕ) × (get_elem? p.pending (id / 32) ≡ some word)
    × (get_elem? enable (id / 32) ≡ some mask)
    × (get_elem? p.priority id ≡ some level)
    × (test word (id % 32) ≡ 1)
    × (test mask (id % 32) ≡ 1)
    × (threshold < level)

returned :
    (fuel ret word r : ℕ)
    → first_one_from fuel ret word ≡ ok r
    → (b : ℕ) × (r ≡ ret + b) × (b < fuel) × (test word b ≡ 1)
unfolding first_one_from test
returned zero ret word r h = absurd (ground (arith, h))
returned (suc fuel) ret word r h = elim (Bool-cases (word % 2 == 0)) [
  | inl e ↦
      let (b, e1, e2, e3) = returned fuel (ret + 1) (word / 2) r (ground (arith, h, e)) in
      (suc b, omega arith, omega arith, e3)
  | inr e ↦ (0, ground arith, omega arith, ground arith)
]

both_set :
    (word mask b : ℕ) → test (bit_and word mask) b ≡ 1 → (test word b ≡ 1) × (test mask b ≡ 1)
both_set word mask b h = (
  ground (arith, test-bit_and word mask b, test-lt word b, test-lt mask b),
  ground (arith, test-bit_and word mask b, test-lt word b, test-lt mask b),
)

module _ (p : Plic) (enable : List ℕ) (threshold : ℕ) where
  -- The rest of a round, once the word has a source that is pending and enabled.
  hit :
      (left i id : ℕ)
      → (word mask : ℕ) → get_elem? p.pending i ≡ some word
      → get_elem? enable i ≡ some mask
      → (scan p enable threshold left (i + 1) ≡ ok (some id) → IsDeliverable p enable threshold id)
      → (found : Outcome ℕ) → first_one (bit_and word mask) ≡ found
      → elim found [
        | ok bit ↦ elim (get_elem? p.priority (i * 32 + bit)) [
          | none ↦ undefined
          | some level ↦
              if ltb threshold level
              then ok (some (i * 32 + bit))
              else scan p enable threshold left (i + 1)
        ]
        | panicked ↦ panicked
        | undefined ↦ undefined
      ]
        ≡ ok (some id)
      → IsDeliverable p enable threshold id
  unfolding first_one IsDeliverable
  hit left i id word mask ew em ih panicked ef h = absurd (ground (arith, h))
  hit left i id word mask ew em ih undefined ef h = absurd (ground (arith, h))
  hit left i id word mask ew em ih (ok r) ef h =
      let (b, eb, hb, set) = returned 32 0 (bit_and word mask) r ef in
      let (set_word, set_mask) =
        both_set word mask r (ap (test (bit_and word mask)) (omega arith) ∙ set) in
      elim (Option-cases (get_elem? p.priority (i * 32 + r))) [
        | inl e ↦ absurd (ground (arith, e, h))
        | inr (level, el) ↦ elim (Bool-cases (ltb threshold level)) [
          | inl e ↦
              let same : id ≡ i * 32 + r = ground (arith, e, el, h) in
              let at_word : id / 32 ≡ i = omega (arith, same, eb, hb) in
              let at_bit : id % 32 ≡ r = omega (arith, same, eb, hb) in
              (
                word,
                mask,
                level,
                ap (get_elem? p.pending) at_word ∙ ew,
                ap (get_elem? enable) at_word ∙ em,
                ap (get_elem? p.priority) same ∙ el,
                ap (test word) at_bit ∙ set_word,
                ap (test mask) at_bit ∙ set_mask,
                ltb→lt threshold level e,
              )
          | inr e ↦ ih (ground (arith, e, el, h))
        ]
      ]

  scan-IsDeliverable :
      (left i id : ℕ)
      → scan p enable threshold left i ≡ ok (some id)
      → IsDeliverable p enable threshold id
  unfolding scan IsDeliverable
  scan-IsDeliverable zero i id h = absurd (ground (arith, h))
  scan-IsDeliverable (suc left) i id h = elim (Option-cases (get_elem? p.pending i)) [
    | inl e ↦ absurd (ground (arith, e, h))
    | inr (word, ew) ↦ elim (Option-cases (get_elem? enable i)) [
      | inl e ↦ absurd (ground (arith, e, ew, h))
      | inr (mask, em) ↦ elim (Bool-cases (bit_and word mask == 0)) [
        | inl e ↦ scan-IsDeliverable left (i + 1) id (ground (arith, e, ew, em, h))
        | inr e ↦
            hit left i id word mask ew em (scan-IsDeliverable left (i + 1) id)
              (first_one (bit_and word mask)) refl (ground (arith, e, ew, em, h))
      ]
    ]
  ]

-- The source that plic_interrupt delivers to the supervisor is pending and enabled there, its
-- priority exceeds the threshold `spt`, and it is remembered in `scc` while nothing else changes.
pub deliver_supervisor :
    (p p' : Plic) (id : ℕ)
    → 0 < id
    → deliver Cause.s_mode p ≡ ok (id, p')
    → IsDeliverable p p.sie p.spt id × (p' ≡ record p { scc = id })
unfolding deliver
deliver_supervisor p p' id k h = go (scan p p.sie p.spt 5 0) refl h
  where
    go :
        (found : Outcome (Option ℕ))
        → scan p p.sie p.spt 5 0 ≡ found
        → remember (λ id. record p { scc = id }) p found ≡ ok (id, p')
        → IsDeliverable p p.sie p.spt id × (p' ≡ record p { scc = id })
    go panicked e h = absurd (ground (arith, h))
    go undefined e h = absurd (ground (arith, h))
    go (ok none) e h = absurd (ground (arith, h))
    go (ok (some r)) e h =
        let same : r ≡ id = cc in
        (
          scan-IsDeliverable p p.sie p.spt 5 0 id (e ∙ ap (λ i. ok (some i)) same),
          ground (arith, h, same),
        )

-- The same of the machine mode, with `mie`, `mpt` and `mcc`.
pub deliver_machine :
    (p p' : Plic) (id : ℕ)
    → 0 < id
    → deliver Cause.m_mode p ≡ ok (id, p')
    → IsDeliverable p p.mie p.mpt id × (p' ≡ record p { mcc = id })
unfolding deliver
deliver_machine p p' id k h = go (scan p p.mie p.mpt 5 0) refl h
  where
    go :
        (found : Outcome (Option ℕ))
        → scan p p.mie p.mpt 5 0 ≡ found
        → remember (λ id. record p { mcc = id }) p found ≡ ok (id, p')
        → IsDeliverable p p.mie p.mpt id × (p' ≡ record p { mcc = id })
    go panicked e h = absurd (ground (arith, h))
    go undefined e h = absurd (ground (arith, h))
    go (ok none) e h = absurd (ground (arith, h))
    go (ok (some r)) e h =
        let same : r ≡ id = cc in
        (
          scan-IsDeliverable p p.mie p.mpt 5 0 id (e ∙ ap (λ i. ok (some i)) same),
          ground (arith, h, same),
        )
