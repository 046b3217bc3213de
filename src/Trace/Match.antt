-- ===== src/Trace/Match.antt =====
-- _match_pc of trace.c.
pub mod Countdown
use xemu.Base.{
  ℕ, zero, suc, ◌==◌, if◌then◌else◌, List, [], ◌∷◌, get_elem?, set, Option, none, some, Outcome, ok,
  panicked, undefined, M,
}
use xemu.Base.Int.{ℤ, pos, negsuc}
use xemu.Trace.Config.{TraceItem, Tracer}

-- The first entry for the address, by its index from `i` on.
unfoldable pub find_pc : ℕ → ℕ → List TraceItem → Option (ℕ × TraceItem)
find_pc i pc [] = none
find_pc i pc (item ∷ items) = if pc == item.addr then some (i, item) else find_pc (suc i) pc items

-- The search in the table, when no entry is in process.
unfoldable pub search_table : ℕ → M Tracer (Option TraceItem)
search_table pc t = elim (find_pc 0 pc t.table) [
  | none ↦ ok (none, record t { in_process = none })
  | some (i, item) ↦ elim item.ninst [
    | pos (suc n) ↦ ok (some item, record t { in_process = some i })
    | pos zero ↦ ok (some item, record t { in_process = none })
    | negsuc n ↦ ok (some item, record t { in_process = none })
  ]
]

-- The entry in process is shown again as long as its count lasts, whatever the address.
unfoldable pub match_pc : ℕ → M Tracer (Option TraceItem)
unfolding find_pc search_table
match_pc pc t = elim t.in_process [
  | none ↦ search_table pc t
  | some i ↦ elim (get_elem? t.table i) [
    | none ↦ undefined
    | some item ↦ elim item.ninst [
      | pos (suc n) ↦
          let counted = record item { ninst = pos n } in
          ok (some counted, record t { table = set t.table i counted })
      | pos zero ↦ search_table pc t
      | negsuc n ↦ search_table pc t
    ]
  ]
]
