-- ===== src/Trace/Match/Countdown.antt =====
-- How long an entry stays in process.
use xemu.Base.{
  ℕ, zero, suc, ◌<◌, List, [], ◌∷◌, length, get_elem?, set, get_elem?-set_self, Option, some, ok, M,
  pure, ◌>>=◌, ◌≡◌, refl, sym, ap, ◌∙◌, arith, >>=-ok,
}
use xemu.Base.Int.{pos}
use xemu.Trace.Config.{TraceItem, Tracer}
use xemu.Trace.Match.{search_table, match_pc}

-- The calls for a sequence of instructions.
unfoldable pub match_all : List ℕ → M Tracer (List (Option TraceItem))
match_all [] = pure []
match_all (pc ∷ pcs) = do found ← match_pc pc; rest ← match_all pcs; pure (found ∷ rest)

-- The entry, with the counts that are left of `n`.
abbrev pub counted : TraceItem → ℕ → TraceItem
counted item n = record item { ninst = pos n }

abbrev pub countdown : TraceItem → ℕ → List (Option TraceItem)
countdown item zero = []
countdown item (suc n) = some (counted item n) ∷ countdown item n

abbrev pub after : Tracer → ℕ → TraceItem → Tracer
after t i item = record t { table = set t.table i (counted item 0) }

set-set : (xs : List TraceItem) (i : ℕ) (a b : TraceItem) → set (set xs i a) i b ≡ set xs i b
set-set [] i a b = refl
set-set (x ∷ xs) zero a b = refl
set-set (x ∷ xs) (suc i) a b = ap (λ t. x ∷ t) (set-set xs i a b)

get_elem?-lt :
    (xs : List TraceItem) (i : ℕ) {a : TraceItem} → get_elem? xs i ≡ some a → i < length xs
get_elem?-lt [] i e = absurd (cc)
get_elem?-lt (x ∷ xs) zero e = omega arith
get_elem?-lt (x ∷ xs) (suc i) e = omega (arith, get_elem?-lt xs i e)

set_same : (xs : List TraceItem) (i : ℕ) {a : TraceItem} → get_elem? xs i ≡ some a → set xs i a ≡ xs
set_same [] i e = refl
set_same (x ∷ xs) zero e = ground arith
set_same (x ∷ xs) (suc i) e = ap (λ t. x ∷ t) (set_same xs i e)

match_pc-counts :
    (pc i n : ℕ) (item : TraceItem) (t : Tracer)
    → t.in_process ≡ some i
    → get_elem? t.table i ≡ some item
    → item.ninst ≡ pos (suc n)
    → match_pc pc t
      ≡ ok (some (counted item n), record t { table = set t.table i (counted item n) })
unfolding match_pc
match_pc-counts pc i n item t p e h = ground arith

match_pc-ended :
    (pc i : ℕ) (item : TraceItem) (t : Tracer)
    → t.in_process ≡ some i
    → get_elem? t.table i ≡ some item
    → item.ninst ≡ pos 0
    → match_pc pc t ≡ search_table pc t
unfolding match_pc
match_pc-ended pc i item t p e h = ground arith

counted_same : (item : TraceItem) (n : ℕ) → item.ninst ≡ pos n → counted item n ≡ item
counted_same item n h = ground arith

after_step :
    (t : Tracer) (i n : ℕ) (item : TraceItem)
    → after (record t { table = set t.table i (counted item n) }) i (counted item n)
      ≡ after t i item
after_step t i n item =
    ap (λ xs. record t { table = xs }) (set-set t.table i (counted item n) (counted item 0))

countdown-counted : (item : TraceItem) (k n : ℕ) → countdown (counted item k) n ≡ countdown item n
countdown-counted item k zero = refl
countdown-counted item k (suc n) =
    ap (λ rest. some (counted item n) ∷ rest) (countdown-counted item k n)

match_all-counts :
    (n i : ℕ) (pcs : List ℕ) (item : TraceItem) (t : Tracer)
    → t.in_process ≡ some i
    → get_elem? t.table i ≡ some item
    → item.ninst ≡ pos n
    → length pcs ≡ n
    → match_all pcs t ≡ ok (countdown item n, after t i item)
unfolding match_all
match_all-counts zero i [] item t p e h l =
    ap (λ xs. ok ([], record t { table = xs }))
      (sym (ap (set t.table i) (counted_same item 0 h) ∙ set_same t.table i e))
match_all-counts zero i (c ∷ cs) item t p e h l = absurd (omega (arith, l))
match_all-counts (suc n) i [] item t p e h l = absurd (omega (arith, l))
match_all-counts (suc n) i (c ∷ cs) item t p e h l =
    let t' = record t { table = set t.table i (counted item n) } in
    let first = match_pc-counts c i n item t p e h in
    let rest =
      match_all-counts n i cs (counted item n) t' p
        (get_elem?-set_self t.table i (counted item n) (get_elem?-lt t.table i e)) refl
        (omega (arith, l)) in
    >>=-ok (match_pc c) (λ found. match_all cs >>= λ others. pure (found ∷ others)) t first
      (>>=-ok (match_all cs) (λ others. pure (some (counted item n) ∷ others)) t' rest
        (ap (λ others. ok (some (counted item n) ∷ others, after t' i (counted item n)))
          (countdown-counted item n n)))
    ∙ ap (λ q. ok (countdown item (suc n), q)) (after_step t i n item)

-- While an entry with the count `n` is in process, `_match_pc` gives this entry for the next `n`
-- instructions, whatever their addresses are, with its count taken down by one each time; then the
-- addresses are looked up again, in a table where its count is 0.
pub match_all-countdown :
    (n i : ℕ) (pcs : List ℕ) (item : TraceItem) (t : Tracer)
    → t.in_process ≡ some i
    → get_elem? t.table i ≡ some item
    → item.ninst ≡ pos n
    → length pcs ≡ n
    → (match_all pcs t ≡ ok (countdown item n, after t i item))
      × ((pc : ℕ) → match_pc pc (after t i item) ≡ search_table pc (after t i item))
match_all-countdown n i pcs item t p e h l = (
  match_all-counts n i pcs item t p e h l,
  λ pc.
      match_pc-ended pc i (counted item 0) (after t i item) p
        (get_elem?-set_self t.table i (counted item 0) (get_elem?-lt t.table i e)) refl,
)
