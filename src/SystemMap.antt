-- ===== src/SystemMap.antt =====
-- system_map.c: the table of the names and addresses of ./image/System.map.
pub mod Render
use xemu.Base.{
  ℕ, ◌+◌, Bool, ltb, leb, ◌==◌, if◌then◌else◌, List, [], ◌∷◌, Option, none, some, Outcome, ok,
  panicked, undefined, map_outcome, true, false,
}
use xemu.Module.Names.{Name, same_name}
use xemu.Text.{c_string, strchr, slice, strtoul16}
use xemu.Text.Lines.{lines}

-- `system_map_item`; the table is the list of its `last` entries.
pub record MapItem : Type 0 where
  pub name : Name
  pub addr : ℕ

-- The name of a line whose address ends at `end`, where the newline is at `newline`: from three bytes
-- behind the address on. Where it starts behind the NUL, it is what the buffer held before.
unfoldable pub item_name : Name → ℕ → ℕ → Outcome Name
item_name line end newline =
    if leb (end + 3) newline
    then ok (slice line (end + 3) newline)
    else if end + 3 == newline + 1
    then ok []
    else undefined

-- The body of the loop of `setup_system_map`: the entry of a line, or none for a line without a
-- space. A line without a newline hands NULL to the subtraction.
unfoldable pub line_item : Name → Outcome (Option MapItem)
line_item line = elim (strchr line b' ') [
  | none ↦ ok none
  | some _ ↦
      let (addr, end) = strtoul16 line in
      elim (strchr line b'\n') [
        | none ↦ undefined
        | some newline ↦
            map_outcome (λ name. some (record { name = name; addr = addr }))
              (item_name line end newline)
      ]
]

-- An entry behind those of the lines before it.
abbrev pub with_item : Option MapItem → List MapItem → List MapItem
with_item none items = items
with_item (some item) items = item ∷ items

unfoldable pub read_lines : List (List ℕ) → Outcome (List MapItem)
read_lines [] = ok []
read_lines (line ∷ rest) = elim (line_item (c_string line)) [
  | ok item ↦ map_outcome (with_item item) (read_lines rest)
  | panicked ↦ panicked
  | undefined ↦ undefined
]

-- `setup_system_map`, for the bytes of the file, or none if it cannot be opened. A failure of
-- `realloc` is left out.
unfoldable pub setup_system_map : Option (List ℕ) → Outcome (List MapItem)
setup_system_map none = panicked
setup_system_map (some file) = read_lines (lines file)

-- The first entry of the name, with its address.
unfoldable pub match_in_system_map : List MapItem → Name → Option MapItem
match_in_system_map [] name = none
match_in_system_map (item ∷ items) name =
    if same_name name item.name then some item else match_in_system_map items name
