-- ===== src/Plic.antt =====
-- plic.c: the interrupt controller. Its mutex makes the accesses to `pending` atomic; here every
-- function is one step.
pub mod Delivery
pub mod Claim
use xemu.Base.{
  ℕ, zero, suc, ◌+◌, ◌-◌, ◌*◌, ◌/◌, ◌%◌, ◌^◌, bit_and, bit_or, Bool, true, false, ◌&&◌, ltb, leb,
  ◌==◌, if◌then◌else◌, List, get_elem?, set, replicate, Option, none, some, Outcome, ok, panicked,
  undefined, or_undefined, M, lift, pure, ◌>>=◌, ◌>>◌,
}
use xemu.Csr.{CsrFile}
use xemu.Csr.Cause
use xemu.Interrupt.{external, intr_next_priv}
use xemu.Space.{Params}

-- The arrays have 128 and 5 entries.
pub record Plic : Type 0 where
  pub priority : List ℕ
  pub mpt : ℕ
  pub spt : ℕ
  pub mcc : ℕ
  pub scc : ℕ
  pub mie : List ℕ
  pub sie : List ℕ
  pub pending : List ℕ

-- `calloc` of plic_init.
unfoldable pub plic_init : Plic
plic_init = record {
  priority = replicate 128 0;
  mpt = 0;
  spt = 0;
  mcc = 0;
  scc = 0;
  mie = replicate 5 0;
  sie = replicate 5 0;
  pending = replicate 5 0;
}

-- `~(1U << offset)`.
unfoldable pub not32 : ℕ → ℕ
not32 x = 2 ^ 32 - 1 - x

-- A write to an array: past its end it is undefined.
store : List ℕ → ℕ → ℕ → Outcome (List ℕ)
store xs i v = elim (get_elem? xs i) [ none ↦ undefined | some _ ↦ ok (set xs i v) ]

-- Both change the word of `pending` that holds the bit of interrupt `id` (`_bit_pos`).
change_pending : (ℕ → ℕ → ℕ) → ℕ → M Plic (Unit {0})
unfolding store
change_pending f id p =
    if id == 0
    then panicked
    else (do
      word ← lift (or_undefined (get_elem? p.pending (id / 32)))
      pending ← lift (store p.pending (id / 32) (f word (2 ^ (id % 32))))
      (λ _. ok (tt, record p { pending = pending })))
        p

unfoldable pub plic_signal : ℕ → M Plic (Unit {0})
unfolding change_pending
plic_signal = change_pending bit_or

unfoldable pub clear_pending_bit : ℕ → M Plic (Unit {0})
unfolding change_pending not32
clear_pending_bit = change_pending (λ word flag. bit_and word (not32 flag))

unfoldable pub claim : ℕ → M Plic ℕ
claim id = do clear_pending_bit id; pure id

between : ℕ → ℕ → ℕ → Bool
between lo hi a = leb lo a && leb a hi

unfoldable pub plic_read : ℕ → ℕ → Params → M Plic ℕ
unfolding claim between
plic_read addr size _ p =
    if addr % 4 == 0
    then if between 0x2080 0x2090 addr
      then lift (or_undefined (get_elem? p.sie ((addr - 0x2080) / 4))) p
      else if addr == 0x200004
      then (if p.mcc == 0 then panicked else claim p.mcc p)
      else if addr == 0x201004
      then (if p.scc == 0 then ok (0, p) else claim p.scc p)
      else panicked
    else panicked

with_array : (List ℕ → Plic) → Outcome (List ℕ) → Outcome (ℕ × Plic)
with_array f (ok xs) = ok (0, f xs)
with_array f panicked = panicked
with_array f undefined = undefined

unfoldable pub plic_write : ℕ → ℕ → ℕ → Params → M Plic ℕ
unfolding with_array store between
plic_write addr value size _ p =
    let word = value % 2 ^ 32 in
    if addr % 4 == 0
    then if leb addr 0x210
      then with_array (λ xs. record p { priority = xs })
          (store p.priority (addr / 4) (bit_and value 0x7))
      else if between 0x2000 0x2010 addr
      then with_array (λ xs. record p { mie = xs }) (store p.mie ((addr - 0x2000) / 4) word)
      else if between 0x2080 0x2090 addr
      then with_array (λ xs. record p { sie = xs }) (store p.sie ((addr - 0x2080) / 4) word)
      else if addr == 0x200000
      then ok (0, record p { mpt = word })
      else if addr == 0x201000
      then ok (0, record p { spt = word })
      else if addr == 0x200004
      then (if p.mcc == word then ok (0, record p { mcc = 0 }) else panicked)
      else if addr == 0x201004
      then (if p.scc == word then ok (0, record p { scc = 0 }) else panicked)
      else panicked
    else panicked

-- The loop of `first_one` with `fuel` rounds left; it starts with 32.
unfoldable pub first_one_from : ℕ → ℕ → ℕ → Outcome ℕ
first_one_from zero ret word = panicked
first_one_from (suc fuel) ret word = elim (word % 2 == 0) [
  | true ↦ first_one_from fuel (ret + 1) (word / 2)
  | false ↦ ok ret
]

unfoldable pub first_one : ℕ → Outcome ℕ
unfolding first_one_from
first_one word = first_one_from 32 0 word

-- The loop of `plic_interrupt` at word `i`, with `left` words to go; none if nothing is delivered.
unfoldable pub scan : Plic → List ℕ → ℕ → ℕ → ℕ → Outcome (Option ℕ)
scan p enable threshold zero i = ok none
scan p enable threshold (suc left) i =
    let rest = scan p enable threshold left (i + 1) in
    elim (get_elem? p.pending i) [
      | none ↦ undefined
      | some word ↦ elim (get_elem? enable i) [
        | none ↦ undefined
        | some mask ↦
            if bit_and word mask == 0 then rest else elim (first_one (bit_and word mask)) [
              | ok bit ↦ elim (get_elem? p.priority (i * 32 + bit)) [
                | none ↦ undefined
                | some level ↦ if ltb threshold level then ok (some (i * 32 + bit)) else rest
              ]
              | panicked ↦ panicked
              | undefined ↦ undefined
            ]
      ]
    ]

-- The return value, and `*xcc = id` where the loop breaks off at a source.
abbrev pub remember : (ℕ → Plic) → Plic → Outcome (Option ℕ) → Outcome (ℕ × Plic)
remember with_xcc p (ok none) = ok (0, p)
remember with_xcc p (ok (some id)) = ok (id, with_xcc id)
remember with_xcc p panicked = panicked
remember with_xcc p undefined = undefined

-- The part of `plic_interrupt` after the mode that handles the interrupt is known.
unfoldable pub deliver : ℕ → M Plic ℕ
deliver next_priv p =
    if next_priv == Cause.s_mode
    then remember (λ id. record p { scc = id }) p (scan p p.sie p.spt 5 0)
    else remember (λ id. record p { mcc = id }) p (scan p p.mie p.mpt 5 0)

unfoldable pub plic_interrupt : CsrFile → M Plic ℕ
plic_interrupt c p = elim (intr_next_priv external c.priv c) [
  | ok (next_priv, _) ↦ deliver next_priv p
  | panicked ↦ panicked
  | undefined ↦ undefined
]
