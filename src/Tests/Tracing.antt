-- ===== src/Tests/Tracing.antt =====
-- Runs of the theorems on system_map.c, yaml.c and trace.c.
use xemu.Base.{
  ℕ, ◌*◌, ◌≡◌, refl, arith, true, false, List, [], ◌∷◌, none, some, ok, panicked, pure,
  if◌then◌else◌, ◌==◌, map_outcome,
}
use xemu.Base.Int.{pos, signed, to_u64}
use xemu.Isa
use xemu.Op
use xemu.Interrupt.{no_intr}
use xemu.Bus.{Bus}
use xemu.Mmu.{mmu, as_read, at_physical}
use xemu.Machine.{Machine}
use xemu.Text.{
  codes, c_string, strchr, take, slice, strtoul16, scan, digits, digit, spaces, sign, hex_prefix,
  atoi,
}
use xemu.Text.Lines.{lines_from}
use xemu.Space.{drop}
use xemu.SystemMap.{
  MapItem, item_name, line_item, read_lines, setup_system_map, match_in_system_map,
}
use xemu.SystemMap.Render.{setup_system_map-render}
use xemu.SystemMap.Render as MapFile
use xemu.Yaml.Render as YamlFile
use xemu.Trace.Config.{
  TraceItem, Tracer, no_items, va_to_pa, watch_of, set_field, setup_trace_table,
}
use xemu.Trace.Config.Filled.{
  Section, section_lines, table_of, with_settings, setup_trace_table-render,
}
use xemu.Trace.Match.{find_pc, search_table, match_pc}
use xemu.Trace.Match.Countdown.{match_all, countdown, after, match_all-countdown}
use xemu.Trace.Names.{op_name, reg_name}
use xemu.Trace.Show.{
  Inst, Line, read_number, string_from, stack_from, watched, base_of, watches, conv_to_size,
  describe, registers, show, show_if, trace,
}
use xemu.Trace.Show.Opcodes.{AllOf, unhandled, trace-unhandled}
use xemu.Trace.Show.Strings.{string_from_lem}

abbrev start_entry : MapItem
start_entry = record { name = codes "start"; addr = 0xffffffe000000000 }

abbrev jiffies_entry : MapItem
jiffies_entry = record { name = codes "jiffies"; addr = 0xffffffe00000a0c0 }

abbrev map_entries : List MapItem
map_entries = start_entry ∷ jiffies_entry ∷ []

abbrev map_lines : List (ℕ × MapItem)
map_lines = (b'T', start_entry) ∷ (b'd', jiffies_entry) ∷ []

setup_system_map-render_example :
    setup_system_map (some (MapFile.render map_lines)) ≡ ok map_entries
setup_system_map-render_example =
    setup_system_map-render map_lines (ground arith, (ground arith, tt))

-- A line of a symbol without an address: the name starts three bytes behind the start of the line.
undefined_symbol :
    setup_system_map (some (codes "                 U printk\n"))
    ≡ ok (record { name = codes "              U printk"; addr = 0 } ∷ [])
unfolding setup_system_map lines_from read_lines c_string line_item strchr strtoul16 scan spaces
    sign drop hex_prefix digits digit item_name slice take
undefined_symbol = refl

-- The file
--   start:
--       enabled: true
--       ninst: 2
--       watch: jiffies,w
abbrev sections : List (List ℕ × Section)
sections =
    (
      codes "start",
      record {
        found = start_entry;
        settings =
            (codes "enabled", codes "true")
            ∷ (codes "ninst", codes "2")
            ∷ (codes "watch", codes "jiffies,w")
            ∷ [];
      },
    )
    ∷ []

abbrev start_item : TraceItem
start_item = record {
  name = codes "start";
  enabled = true;
  addr = 0xffffffe000000000;
  no_mmu = false;
  stack = pos 0;
  ninst = pos 2;
  watch_list = record { name = codes "jiffies"; kind = b'w' } ∷ [];
}

abbrev started : Tracer
started = record { table = start_item ∷ []; in_process = none }

table_of-sections : table_of sections ≡ ok (start_item ∷ [])
unfolding table_of with_settings set_field watch_of strchr take drop atoi scan spaces sign digits
    digit
table_of-sections = refl

found_start : match_in_system_map map_entries (codes "start") ≡ some start_entry
unfolding match_in_system_map
found_start = refl

setup_trace_table-render_example :
    setup_trace_table map_entries (some (YamlFile.render (section_lines 4 sections))) no_items
    ≡ map_outcome (λ items. (tt, record { table = items; in_process = none })) (table_of sections)
setup_trace_table-render_example =
    setup_trace_table-render map_entries 4 sections (found_start, tt) (omega arith) (ground arith)

-- `no_mmu: false` moves the address, as `no_mmu: true` does.
no_mmu_false :
    set_field (codes "no_mmu") (codes "false") start_item
    ≡ ok (record start_item { addr = 0x80200000 })
unfolding set_field va_to_pa
no_mmu_false = refl

-- After the first instruction the entry is in process for two more.
abbrev in_process : Tracer
in_process = record started { in_process = some 0 }

match_all-countdown_example :
    (match_all (0x80000000 ∷ 0x10 ∷ []) in_process
      ≡ ok (countdown start_item 2, after in_process 0 start_item))
    × ((pc : ℕ)
        → match_pc pc (after in_process 0 start_item)
          ≡ search_table pc (after in_process 0 start_item))
match_all-countdown_example =
    match_all-countdown 2 0 (0x80000000 ∷ 0x10 ∷ []) start_item in_process refl refl refl refl

-- A memory that holds "ok" at 0x1000, and the number 7 elsewhere.
abbrev cells : ℕ → ℕ
cells a = if a == 0x1000 then b'o' else if a == 0x1001 then b'k' else if a == 0x1002 then 0 else 7

abbrev quiet : Bus (Unit {0})
quiet = record {
  read_nommu = λ a _ _. pure (cells a);
  write_nommu = λ _ _ _ _. pure 0;
  plic_interrupt = λ _. pure 0;
  clint_interrupt = λ _. no_intr;
}

abbrev machine : Machine (Unit {0})
machine = record {
  pc = 0xffffffe000000000;
  reg = λ r. r * 16;
  freg = λ _. 0;
  csrs = record { priv = 3; csr = λ _. 0; rtc = 0; ticks = 0 };
  dev = tt;
}

-- `addi x1, x0, 5`.
abbrev inst : Inst
inst = record {
  op = Op.addi;
  rd = 1;
  rs1 = 0;
  rs2 = 5;
  imm = 5;
  csr_addr = 5;
  opcode = Isa.op_imm;
  inst = 0x00500093;
}

abbrev physical : TraceItem
physical = record start_item { no_mmu = true; stack = pos 1 }

abbrev watching : Tracer
watching = record { table = physical ∷ []; in_process = none }

abbrev printed : List Line
printed =
    Line.rule
    ∷ Line.at 0xffffffe000000000
    ∷ Line.immediate_form "addi" "ra" "zero" (pos 5)
    ∷ Line.word 0x00500093
    ∷ Line.register "ra" 16
    ∷ Line.newline
    ∷ Line.stack_pointer 32
    ∷ Line.stack_slot 7
    ∷ Line.newline
    ∷ Line.thread_pointer 64
    ∷ Line.watched_number (codes "jiffies") 7
    ∷ Line.rule
    ∷ []

traced :
    trace quiet map_entries 0xffffffe000000000 inst (watching, machine)
    ≡ ok (printed, (record watching { in_process = some 0 }, machine))
unfolding trace match_pc search_table find_pc show_if show describe registers stack_from read_number
    watches base_of match_in_system_map watched conv_to_size op_name reg_name signed to_u64 va_to_pa
traced = refl

matched :
    match_pc 0xffffffe000000000 watching
    ≡ ok (some physical, record watching { in_process = some 0 })
unfolding match_pc search_table find_pc
matched = refl

trace-unhandled_example :
    AllOf
      (λ opcode.
        trace quiet map_entries 0xffffffe000000000
          (record inst { opcode = opcode })
          (watching, machine)
        ≡ panicked)
      unhandled
trace-unhandled_example =
    trace-unhandled quiet map_entries 0xffffffe000000000 inst watching
      (record watching { in_process = some 0 }) machine physical matched refl

read_cell : (addr : ℕ) → read_number quiet false addr 1 machine ≡ ok (cells addr, machine)
unfolding read_number as_read mmu at_physical
read_cell addr = refl

-- In M mode the MMU leaves the address as it is.
string_from_lem_example : string_from quiet 256 false 0x1000 machine ≡ ok (codes "ok", machine)
string_from_lem_example =
    string_from_lem quiet machine false 256 0x1000 (codes "ok") (ground arith)
      (read_cell 0x1000, omega arith, (read_cell 0x1001, omega arith, read_cell 0x1002))
