-- ===== src/Trace/Show.antt =====
-- What `trace` of trace.c prints of an instruction: each call of `printf` is a line, with the values
-- that its format takes.
pub mod Opcodes
pub mod Strings
use Prim.Native.String.{String}
use xemu.Base.{
  ℕ, zero, suc, ◌+◌, ◌*◌, ◌%◌, ◌^◌, bit_and, Bool, true, false, not, ◌&&◌, ◌||◌, ◌==◌,
  if◌then◌else◌, List, [], ◌∷◌, ◌++◌, Option, none, some, Outcome, ok, panicked, undefined, M, lift,
  pure, ◌>>=◌,
}
use xemu.Base.Int.{ℤ, signed, to_u64}
use xemu.Module.Names.{Name}
use xemu.Op.{Op}
use xemu.Isa
use xemu.Space.{no_params}
use xemu.Bus.{Bus}
use xemu.Machine.{Machine, in_dev, get}
use xemu.Mmu.{as_read}
use xemu.SystemMap.{MapItem, match_in_system_map}
use xemu.Trace.Config.{Watch, TraceItem, Tracer, va_to_pa}
use xemu.Trace.Names.{op_name, reg_name, csr_name}
use xemu.Trace.Match.{match_pc}

-- `rule` is the line of `=`. The first six of the other lines are the forms of an instruction:
-- "%s %s, %ld(%s)", "%s %s, %s, %ld", "%s %s, 0x%lx", "%s %s, %s, %s", "%s %s, %s, 0x%lx" and "%s".
pub data Line : Type 0 where
  rule newline : Line
  at : ℕ → Line
  offset_form : String → String → ℤ → String → Line
  immediate_form : String → String → String → ℤ → Line
  address_form : String → String → ℕ → Line
  register_form : String → String → String → String → Line
  branch_form : String → String → String → ℕ → Line
  plain_form : String → Line
  word half : ℕ → Line
  register : String → ℕ → Line
  stack_pointer thread_pointer stack_slot : ℕ → Line
  watched_string : Name → Name → Line
  watched_number : Name → ℕ → Line

-- The arguments of `trace` but for `pc`.
pub record Inst : Type 0 where
  pub op : Op
  pub rd : ℕ
  pub rs1 : ℕ
  pub rs2 : ℕ
  pub imm : ℕ
  pub csr_addr : ℕ
  pub opcode : ℕ
  pub inst : ℕ

-- `flag`: HAS_RD, HAS_RS1 and HAS_RS2.
pub record Flags : Type 0 where
  pub has_rd : Bool
  pub has_rs1 : Bool
  pub has_rs2 : Bool

abbrev flags : Bool → Bool → Bool → Flags
flags rd rs1 rs2 = record { has_rd = rd; has_rs1 = rs1; has_rs2 = rs2 }

module _ {S : Type 0} (i : Inst) where
  offset_line : ℕ → M S Line
  offset_line r = do
    op ← lift (op_name i.op)
    a ← lift (reg_name r)
    base ← lift (reg_name i.rs1)
    pure (offset_form op a (signed 64 i.imm) base)

  immediate_line : M S Line
  immediate_line = do
    op ← lift (op_name i.op)
    d ← lift (reg_name i.rd)
    a ← lift (reg_name i.rs1)
    pure (immediate_form op d a (signed 64 i.imm))

  address_line : ℕ → M S Line
  address_line address = do
    op ← lift (op_name i.op)
    d ← lift (reg_name i.rd)
    pure (address_form op d address)

  register_line : ℕ → M S Line
  register_line r = do
    op ← lift (op_name i.op)
    d ← lift (reg_name i.rd)
    a ← lift (reg_name i.rs1)
    b ← lift (reg_name r)
    pure (register_form op d a b)

  system_line : M S Line
  system_line = do
    op ← lift (op_name i.op)
    d ← lift (reg_name i.rd)
    a ← lift (reg_name i.rs1)
    pure (register_form op d (csr_name i.csr_addr) a)

  branch_line : ℕ → M S Line
  branch_line target = do
    op ← lift (op_name i.op)
    a ← lift (reg_name i.rs1)
    b ← lift (reg_name i.rs2)
    pure (branch_form op a b target)

  plain_line : M S Line
  plain_line = do op ← lift (op_name i.op); pure (plain_form op)

  -- The line of a branch of the switch, with the flags that it sets.
  setting : Flags → M S Line → M S (Line × Flags)
  setting f line = do l ← line; pure (l, f)

  -- The switch on the opcode.
  unfoldable pub describe : ℕ → M S (Line × Flags)
  unfolding offset_line immediate_line address_line register_line system_line branch_line plain_line
      setting
  describe pc =
      let opcode = i.opcode in
      let target = (i.imm + pc) % 2 ^ 64 in
      if opcode == Isa.op_load || opcode == Isa.op_load_fp || opcode == Isa.op_jalr
      then setting (flags true true false) (offset_line i.rd)
      else if opcode == Isa.op_imm || opcode == Isa.op_imm_w
      then setting (flags true true false) immediate_line
      else if opcode == Isa.op_auipc
      then setting (flags true false false) (address_line i.imm)
      else if opcode == Isa.op_store || opcode == Isa.op_store_fp
      then setting (flags false true true) (offset_line i.rs2)
      else if opcode == Isa.op_reg
      then setting (flags true true true) (register_line i.rs2)
      else if opcode == Isa.op_branch
      then setting (flags false true true) (branch_line target)
      else if opcode == Isa.op_jal
      then setting (flags true false false) (address_line target)
      else if opcode == Isa.op_system
      then setting (flags true true false) system_line
      else if opcode == Isa.op_nop
      then setting (flags false false false) plain_line
      else lift panicked

-- A call that uses the table only, or the machine only.
module _ {S A : Type 0} where
  abbrev pub in_tracer : M Tracer A → M (Tracer × Machine S) A
  in_tracer m (t, s) = elim (m t) [
    | ok (a, t') ↦ ok (a, (t', s))
    | panicked ↦ panicked
    | undefined ↦ undefined
  ]

  abbrev pub in_machine : M (Machine S) A → M (Tracer × Machine S) A
  in_machine m (t, s) = elim (m s) [
    | ok (a, s') ↦ ok (a, (t, s'))
    | panicked ↦ panicked
    | undefined ↦ undefined
  ]

-- The instruction itself: a compressed one has 16 bits.
abbrev code_line : Inst → Line
code_line i = if i.inst % 4 == 3 then word i.inst else half (i.inst % 2 ^ 16)

-- Where a flag is set, and the register is not x0 nor, for a source, the destination.
abbrev is_shown : ℕ → Bool → Bool
is_shown r flag = not (r == 0) && flag

module _ {S : Type 0} where
  register_value : ℕ → Bool → M (Machine S) (List Line)
  register_value r shown =
      if shown
      then (do name ← lift (reg_name r); s ← get; pure (register name (s.reg r) ∷ []))
      else pure []

  -- The registers of the instruction, after it was executed.
  unfoldable pub registers : Inst → Flags → M (Machine S) (List Line)
  unfolding register_value
  registers i f = do
    d ← register_value i.rd (is_shown i.rd f.has_rd)
    a ← register_value i.rs1 (is_shown i.rs1 f.has_rs1 && not (i.rs1 == i.rd))
    b ← register_value i.rs2 (is_shown i.rs2 f.has_rs2 && not (i.rs2 == i.rd))
    pure (d ++ (a ++ b))

module _ {S : Type 0} (bus : Bus S) where
  -- `_read_number`: a page fault reads as 0.
  unfoldable pub read_number : Bool → ℕ → ℕ → M (Machine S) ℕ
  read_number no_mmu addr size =
      if no_mmu
      then in_dev (bus.read_nommu addr size no_params)
      else (do (v, _) ← as_read bus addr size no_params; pure v)

  -- The loop of `_show_string`, where `str` has room for `room` more bytes.
  unfoldable pub string_from : ℕ → Bool → ℕ → M (Machine S) Name
  unfolding read_number
  string_from zero no_mmu addr = do _ ← read_number no_mmu addr 1; lift panicked
  string_from (suc room) no_mmu addr = do
    v ← read_number no_mmu addr 1
    let c = v % 256
    let rest = string_from room no_mmu ((addr + 1) % 2 ^ 64)
    if c == 0 then pure [] else (do cs ← rest; pure (c ∷ cs))

  -- The words of the stack: `rounds` is what is left of `item->stack`.
  unfoldable pub stack_from : ℕ → Bool → ℕ → M (Machine S) (List Line)
  stack_from zero no_mmu addr = pure []
  stack_from (suc rounds) no_mmu addr = do
    v ← read_number no_mmu addr 8
    rest ← stack_from rounds no_mmu ((addr + 8) % 2 ^ 64)
    pure (stack_slot v ∷ rest)

-- `_conv_to_size`.
unfoldable pub conv_to_size : ℕ → Outcome ℕ
conv_to_size c =
    if c == b'd'
    then ok 8
    else if c == b'w'
    then ok 4
    else if c == b'h'
    then ok 2
    else if c == b'b'
    then ok 1
    else panicked

module _ {S : Type 0} (bus : Bus S) where
  -- A name of the watch list, at its address.
  unfoldable pub watched : Bool → Watch → ℕ → M (Machine S) Line
  watched no_mmu w base =
      if w.kind == b's'
      then (do s ← string_from bus 256 no_mmu base; pure (watched_string w.name s))
      else (do
        size ← lift (conv_to_size w.kind)
        v ← read_number bus no_mmu base size
        pure (watched_number w.name v))

module _ {S : Type 0} (bus : Bus S) (map : List MapItem) where
  -- The address of a watched name; a name that System.map does not have ends the emulator.
  unfoldable pub base_of : Bool → Name → Outcome ℕ
  base_of no_mmu name = elim (match_in_system_map map name) [
    | none ↦ panicked
    | some found ↦ ok (if no_mmu then va_to_pa found.addr else found.addr)
  ]

  unfoldable pub watches : Bool → List Watch → M (Machine S) (List Line)
  watches no_mmu [] = pure []
  watches no_mmu (w ∷ ws) = do
    base ← lift (base_of no_mmu w.name)
    line ← watched bus no_mmu w base
    rest ← watches no_mmu ws
    pure (line ∷ rest)

  -- What is printed for an entry. The count of the stack is an `int`, and the loop compares it as an
  -- unsigned number.
  unfoldable pub show : TraceItem → ℕ → Inst → M (Machine S) (List Line)
  show item pc i = do
    (form, f) ← describe i pc
    values ← registers i f
    s ← get
    slots ← stack_from bus (to_u64 item.stack) item.no_mmu (s.reg 2)
    names ← watches item.no_mmu item.watch_list
    pure (
        rule
        ∷ at pc
        ∷ form
        ∷ code_line i
        ∷ (values
            ++ (newline
                ∷ stack_pointer (s.reg 2)
                ∷ (slots ++ (newline ∷ thread_pointer (s.reg 4) ∷ (names ++ rule ∷ []))))))

  -- An entry that is found and enabled is shown.
  unfoldable pub show_if : Option TraceItem → ℕ → Inst → M (Machine S) (List Line)
  show_if none pc i = pure []
  show_if (some item) pc i = if item.enabled then show item pc i else pure []

  -- `trace`, with the table of trace.c and the machine as its state.
  unfoldable pub trace : ℕ → Inst → M (Tracer × Machine S) (List Line)
  trace pc i = do found ← in_tracer (match_pc pc); in_machine (show_if found pc i)
