-- ===== src/Trace/Config/Filled.antt =====
-- The table that setup_trace_table makes of a file in the format of trace.yml.
use mathlib.Core.List.{append_assoc, append-nil}
use xemu.Base.{
  ℕ, ◌+◌, ◌≤◌, ◌<◌, List, [], ◌∷◌, ◌++◌, length, Option, some, Outcome, ok, panicked, undefined, M,
  map_outcome, ◌≡◌, refl, ap, ◌∙◌, arith, length-append, >>=-ok,
}
use xemu.Module.Names.{Name}
use xemu.SystemMap.{MapItem, match_in_system_map}
use xemu.Yaml.{token_obj, token_kv}
use xemu.Yaml.Render.{Content, object, setting, render, AllPrintable, calls, parse_yaml-render}
use xemu.Trace.Config.{
  TraceItem, Tracer, new_item, set_field, change_last, add_item, trace_parse_cb, setup_trace_table,
  no_items, item_maxnum,
}

-- An object of the file, the entry of System.map that has its name, and its settings.
pub record Section : Type 0 where
  pub found : MapItem
  pub settings : List (Name × Name)

-- The lines of the file, with the indentation of the settings.
abbrev pub setting_lines : ℕ → List (Name × Name) → List (ℕ × Content) → List (ℕ × Content)
setting_lines indent [] rest = rest
setting_lines indent ((key, value) ∷ settings) rest =
    (indent, setting key value) ∷ setting_lines indent settings rest

abbrev pub section_lines : ℕ → List (Name × Section) → List (ℕ × Content)
section_lines indent [] = []
section_lines indent ((name, section) ∷ sections) =
    (0, object name) ∷ setting_lines indent section.settings (section_lines indent sections)

-- What follows a value.
abbrev and_then : {A B : Type 0} → Outcome A → (A → Outcome B) → Outcome B
and_then (ok a) f = f a
and_then panicked f = panicked
and_then undefined f = undefined

-- What the settings make of an entry, one after the other.
unfoldable pub with_settings : List (Name × Name) → TraceItem → Outcome TraceItem
with_settings [] item = ok item
with_settings ((key, value) ∷ settings) item =
    and_then (set_field key value item) (with_settings settings)

-- The entries of the sections.
unfoldable pub table_of : List (Name × Section) → Outcome (List TraceItem)
table_of [] = ok []
table_of ((name, section) ∷ sections) =
    and_then (with_settings section.settings (new_item section.found))
      λ item. map_outcome (λ items. item ∷ items) (table_of sections)

-- Each name is one of System.map.
abbrev pub AllFound : List MapItem → List (Name × Section) → Type 0
AllFound map [] = Unit
AllFound map ((name, section) ∷ sections) =
    (match_in_system_map map name ≡ some section.found) × AllFound map sections

abbrev filled : List TraceItem → Outcome (List TraceItem) → Outcome (Unit {0} × Tracer)
filled done items =
    map_outcome (λ xs. (tt, record { table = done ++ xs; in_process = Option.none })) items

change_last-append :
    (f : TraceItem → Outcome TraceItem) (done : List TraceItem) (item : TraceItem)
    → change_last f (done ++ item ∷ []) ≡ map_outcome (λ changed. done ++ changed ∷ []) (f item)
unfolding change_last
change_last-append f [] item = ground arith
change_last-append f (x ∷ []) item = ground arith
change_last-append f (x ∷ y ∷ done) item = ground (arith, change_last-append f (y ∷ done) item)

abbrev state : List TraceItem → Tracer
state table = record { table = table; in_process = Option.none }

-- The end of the callback.
abbrev result : List TraceItem → Outcome (Unit {0} × Tracer)
result table = ok (tt, state table)

with_result :
    (r : Outcome (List TraceItem))
    → and_then r result
      ≡ map_outcome (λ items. (tt, record { table = items; in_process = Option.none })) r
with_result (ok items) = refl
with_result panicked = refl
with_result undefined = refl

put_behind :
    (done : List TraceItem) (item : TraceItem) (r : Outcome (List TraceItem))
    → and_then r (λ items. result ((done ++ item ∷ []) ++ items))
      ≡ and_then (map_outcome (λ items. item ∷ items) r) (λ items. result (done ++ items))
put_behind done item (ok items) = ap result (append_assoc done (item ∷ []) items)
put_behind done item panicked = refl
put_behind done item undefined = refl

module _ (map : List MapItem) (indent : ℕ) where
  parsed_setting :
      (key value : Name) (done : List TraceItem) (item : TraceItem)
      → trace_parse_cb map token_kv key value (state (done ++ item ∷ []))
        ≡ and_then (set_field key value item) (λ changed. result (done ++ changed ∷ []))
  unfolding trace_parse_cb
  parsed_setting key value done item =
      ap stored (change_last-append (set_field key value) done item) ∙ go (set_field key value item)
    where
      stored : Outcome (List TraceItem) → Outcome (Unit {0} × Tracer)
      stored (ok table) = ok (tt, state table)
      stored panicked = panicked
      stored undefined = undefined

      go :
          (r : Outcome TraceItem)
          → stored (map_outcome (λ changed. done ++ changed ∷ []) r)
            ≡ and_then r (λ changed. result (done ++ changed ∷ []))
      go (ok changed) = refl
      go panicked = refl
      go undefined = refl

  -- The settings of an entry, and then the other lines.
  calls-settings :
      (settings : List (Name × Name)) (rest : List (ℕ × Content)) (done : List TraceItem)
      (item : TraceItem)
      → calls (trace_parse_cb map) (setting_lines indent settings rest) (state (done ++ item ∷ []))
        ≡ and_then
            (with_settings settings item)
            (λ changed. calls (trace_parse_cb map) rest (state (done ++ changed ∷ [])))
  unfolding calls with_settings
  calls-settings [] rest done item = refl
  calls-settings ((key, value) ∷ settings) rest done item =
      ap continue (parsed_setting key value done item)
      ∙ go (calls-settings settings rest done) (set_field key value item)
    where
      later : M Tracer (Unit {0})
      later = calls (trace_parse_cb map) (setting_lines indent settings rest)

      continue : Outcome (Unit {0} × Tracer) → Outcome (Unit {0} × Tracer)
      continue (ok (_, t)) = later t
      continue panicked = panicked
      continue undefined = undefined

      go :
          ((next : TraceItem)
            → later (state (done ++ next ∷ []))
              ≡ and_then
                  (with_settings settings next)
                  (λ changed. calls (trace_parse_cb map) rest (state (done ++ changed ∷ []))))
          → (r : Outcome TraceItem)
          → continue (and_then r (λ changed. result (done ++ changed ∷ [])))
            ≡ and_then
                (and_then r (with_settings settings))
                (λ changed. calls (trace_parse_cb map) rest (state (done ++ changed ∷ [])))
      go ih (ok changed) = ih changed
      go ih panicked = refl
      go ih undefined = refl

  parsed_object :
      (name : Name) (found : MapItem) (done : List TraceItem)
      → match_in_system_map map name ≡ some found
      → length done < item_maxnum
      → trace_parse_cb map token_obj name [] (state done)
        ≡ ok (tt, state (done ++ new_item found ∷ []))
  unfolding trace_parse_cb add_item
  parsed_object name found done e h = ground arith

  calls-sections :
      (sections : List (Name × Section)) (done : List TraceItem)
      → AllFound map sections
      → length done + length sections ≤ item_maxnum
      → calls (trace_parse_cb map) (section_lines indent sections) (state done)
        ≡ and_then (table_of sections) (λ items. result (done ++ items))
  unfolding calls table_of
  calls-sections [] done found h = rw append-nil refl
  calls-sections ((name, section) ∷ sections) done (e, found) h =
      >>=-ok (trace_parse_cb map token_obj name [])
        (λ _.
          calls (trace_parse_cb map)
            (setting_lines indent section.settings (section_lines indent sections)))
        (state done) (parsed_object name section.found done e (omega arith))
        (calls-settings section.settings (section_lines indent sections) done
            (new_item section.found)
          ∙ go (with_settings section.settings (new_item section.found)) (λ item.
            calls-sections sections (done ++ item ∷ []) found
              (omega (arith, length-append {0} done (item ∷ [])))))
    where
      go :
          (r : Outcome TraceItem)
          → ((item : TraceItem)
              → calls
                  (trace_parse_cb map)
                  (section_lines indent sections)
                  (state (done ++ item ∷ []))
                ≡ and_then (table_of sections) (λ items. result ((done ++ item ∷ []) ++ items)))
          → and_then r (λ item.
            calls (trace_parse_cb map) (section_lines indent sections) (state (done ++ item ∷ [])))
            ≡ and_then
                (and_then r (λ item. map_outcome (λ items. item ∷ items) (table_of sections)))
                (λ items. result (done ++ items))
      go (ok item) ih = ih item ∙ put_behind done item (table_of sections)
      go panicked ih = refl
      go undefined ih = refl

-- setup_trace_table makes one entry of each object of a file, in their order: with the name and address
-- of System.map, changed by the object's settings one after the other, and shows nothing yet; the first
-- setting that fails is how it ends. The names are in System.map, there are at most 64 objects, and the
-- lines can be expressed in the format.
pub setup_trace_table-render :
    (map : List MapItem) (indent : ℕ) (sections : List (Name × Section))
    → AllFound map sections
    → length sections ≤ item_maxnum
    → AllPrintable (section_lines indent sections)
    → setup_trace_table map (some (render (section_lines indent sections))) no_items
      ≡ map_outcome
          (λ items. (tt, record { table = items; in_process = Option.none }))
          (table_of sections)
unfolding setup_trace_table
setup_trace_table-render map indent sections found h p =
    ap (λ f. f no_items) (parse_yaml-render (trace_parse_cb map) (section_lines indent sections) p)
    ∙ calls-sections map indent sections [] found (omega arith)
    ∙ with_result (table_of sections)
