-- ===== src/Trace/Show/Opcodes.antt =====
-- For which instructions a trace ends the emulator.
use xemu.Base.{ℕ, true, List, [], ◌∷◌, some, ok, panicked, ◌≡◌, refl, arith}
use xemu.Isa
use xemu.Bus.{Bus}
use xemu.Machine.{Machine}
use xemu.SystemMap.{MapItem}
use xemu.Trace.Config.{TraceItem, Tracer}
use xemu.Trace.Match.{match_pc}
use xemu.Trace.Show.{Inst, describe, show, show_if, trace}

abbrev pub AllOf : (ℕ → Type 0) → List ℕ → Type 0
AllOf P [] = Unit
AllOf P (x ∷ xs) = P x × AllOf P xs

-- The opcodes of isa.h that the switch of `trace` has no case for.
abbrev pub unhandled : List ℕ
unhandled = Isa.op_misc ∷ Isa.op_amo ∷ Isa.op_lui ∷ Isa.op_reg_w ∷ Isa.op_fp ∷ []

module _ {S : Type 0} (bus : Bus S) (map : List MapItem) (pc : ℕ) (i : Inst) (t t' : Tracer)
    (s : Machine S) where
  trace_panics :
      (item : TraceItem) (j : Inst)
      → match_pc pc t ≡ ok (some item, t')
      → item.enabled ≡ true
      → show bus map item pc j s ≡ panicked
      → trace bus map pc j (t, s) ≡ panicked
  unfolding trace show_if
  trace_panics item j e h p = ground arith

  -- Where the address has an entry that is enabled, an instruction of the opcodes OP_LUI, OP_REG_W,
  -- OP_MISC, OP_AMO and OP_FP ends the emulator instead of being shown.
  pub trace-unhandled :
      (item : TraceItem)
      → match_pc pc t ≡ ok (some item, t')
      → item.enabled ≡ true
      → AllOf
          (λ opcode. trace bus map pc (record i { opcode = opcode }) (t, s) ≡ panicked)
          unhandled
  unfolding show describe
  trace-unhandled item e h =
      let ends : (opcode : ℕ)
          → show bus map item pc (record i { opcode = opcode }) s ≡ panicked
          → trace bus map pc (record i { opcode = opcode }) (t, s) ≡ panicked =
        λ opcode. trace_panics item (record i { opcode = opcode }) e h in
      (
        ends Isa.op_misc refl,
        (
          ends Isa.op_amo refl,
          (ends Isa.op_lui refl, (ends Isa.op_reg_w refl, (ends Isa.op_fp refl, tt))),
        ),
      )
