-- ===== src/Trace/Config.antt =====
-- The table of trace.c, and trace_parse_cb, which fills it from the lines of trace.yml.
pub mod Filled
use xemu.Base.{
  ℕ, zero, suc, ◌+◌, ◌-◌, ◌%◌, ◌^◌, Bool, true, false, ltb, leb, ◌==◌, if◌then◌else◌, List, [], ◌∷◌,
  ◌++◌, length, Option, none, some, Outcome, ok, panicked, undefined, M, lift, pure, ◌>>=◌, ◌>>◌,
}
use xemu.Base.Int.{ℤ, pos}
use xemu.Module.Names.{Name, same_name}
use xemu.Space.{drop}
use xemu.Text.{codes, strchr, take, atoi}
use xemu.SystemMap.{MapItem, match_in_system_map}
use xemu.Yaml.{Token, token_none, token_obj, token_kv, parse_yaml}

-- `watch_item`; the kind is a byte, NUL where nothing follows the comma.
pub record Watch : Type 0 where
  pub name : Name
  pub kind : ℕ

pub record TraceItem : Type 0 where
  pub name : Name
  pub enabled : Bool
  pub addr : ℕ
  pub no_mmu : Bool
  pub stack : ℤ
  pub ninst : ℤ
  pub watch_list : List Watch

-- `trace_table` as the list of its first `trace_num` entries, and `item_in_process` as an index of it.
pub record Tracer : Type 0 where
  pub table : List TraceItem
  pub in_process : Option ℕ

abbrev pub item_maxnum : ℕ
item_maxnum = 64

-- The state before `setup_trace_table`.
abbrev pub no_items : Tracer
no_items = record { table = []; in_process = none }

-- `va_pa_offset`, and the address that it is taken from.
abbrev pub va_pa_offset : ℕ
va_pa_offset = 0xffffffe000000000 - 0x80200000

unfoldable pub va_to_pa : ℕ → ℕ
va_to_pa va = (va + 2 ^ 64 - va_pa_offset) % 2 ^ 64

-- An entry as the table holds it before it is used.
abbrev pub new_item : MapItem → TraceItem
new_item found = record {
  name = found.name;
  enabled = false;
  addr = found.addr;
  no_mmu = false;
  stack = pos 0;
  ninst = pos 0;
  watch_list = [];
}

abbrev pub first_byte : Name → ℕ
first_byte [] = 0
first_byte (c ∷ cs) = c

-- The value of a `watch`: a name, and behind a comma its kind.
unfoldable pub watch_of : Name → Watch
watch_of value = elim (strchr value b',') [
  | some end ↦ record { name = take end value; kind = first_byte (drop (suc end) value) }
  | none ↦ record { name = value; kind = b'd' }
]

-- The branches for the settings. A key that is not known changes nothing.
unfoldable pub set_field : Name → Name → TraceItem → Outcome TraceItem
unfolding va_to_pa watch_of
set_field key value item =
    if same_name key (codes "enabled")
    then ok (record item { enabled = same_name value (codes "true") })
    else if same_name key (codes "no_mmu")
    then ok (record item { no_mmu = same_name value (codes "true"); addr = va_to_pa item.addr })
    else if same_name key (codes "stack")
    then (elim (atoi value) [
      | ok n ↦ ok (record item { stack = n })
      | panicked ↦ panicked
      | undefined ↦ undefined
    ])
    else if same_name key (codes "ninst")
    then (elim (atoi value) [
      | ok n ↦ ok (record item { ninst = n })
      | panicked ↦ panicked
      | undefined ↦ undefined
    ])
    else if same_name key (codes "watch")
    then ok (record item { watch_list = item.watch_list ++ watch_of value ∷ [] })
    else ok item

-- A change of the last entry, `trace_table[trace_num - 1]`; without any it lies before the array.
unfoldable pub change_last :
    (TraceItem → Outcome TraceItem) → List TraceItem → Outcome (List TraceItem)
change_last f [] = undefined
change_last f (item ∷ []) = elim (f item) [
  | ok changed ↦ ok (changed ∷ [])
  | panicked ↦ panicked
  | undefined ↦ undefined
]
change_last f (item ∷ next ∷ items) = elim (change_last f (next ∷ items)) [
  | ok changed ↦ ok (item ∷ changed)
  | panicked ↦ panicked
  | undefined ↦ undefined
]

-- An object: the next entry, which past the end of the array is another variable.
unfoldable pub add_item : List MapItem → Name → List TraceItem → Outcome (List TraceItem)
add_item map name table =
    if ltb (length table) item_maxnum
    then (elim (match_in_system_map map name) [
      | some found ↦ ok (table ++ new_item found ∷ [])
      | none ↦ panicked
    ])
    else undefined

abbrev pub in_table : (List TraceItem → Outcome (List TraceItem)) → M Tracer (Unit {0})
in_table f t = elim (f t.table) [
  | ok table ↦ ok (tt, record t { table = table })
  | panicked ↦ panicked
  | undefined ↦ undefined
]

unfoldable pub trace_parse_cb : List MapItem → Token → Name → Name → M Tracer (Unit {0})
trace_parse_cb map token_none key value = pure tt
trace_parse_cb map token_obj key value = in_table (add_item map key)
trace_parse_cb map token_kv key value = in_table (change_last (set_field key value))

-- `setup_trace_table`, for the bytes of ./conf/trace.yml.
unfoldable pub setup_trace_table : List MapItem → Option (List ℕ) → M Tracer (Unit {0})
setup_trace_table map file = parse_yaml (trace_parse_cb map) file
