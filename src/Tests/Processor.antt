-- ===== src/Tests/Processor.antt =====
-- Runs of the theorems on the decoders, mmu.c, execute.c and xemu.c.
use xemu.Base.{
  ℕ, ◌+◌, ◌-◌, ◌*◌, ◌^◌, ◌==◌, if◌then◌else◌, ◌≡◌, ◌≢◌, ◌⊎◌, inl, refl, arith, some, ok, pure,
  update,
}
use xemu.Op.{Op}
use xemu.Csr.{CsrFile, csr_read, kind, is_stored}
use xemu.Csr.Number
use xemu.Interrupt.{no_intr, timer}
use xemu.Bus.{Bus}
use xemu.Machine.{Machine}
use xemu.Mmu.{mmu, as_read, at_physical, level0, level1, level2, is_fault, is_leaf}
use xemu.Word.Bits.{test}
use xemu.Word.{bits, bit, expand_bit, ◌<<<◌}
use xemu.Decode.{Decode, decode}
use xemu.Decode.Bounds.{InRange}
use xemu.Decode.Total.{decode-InRange}
use xemu.Decode.Encode.{b_type}
use xemu.Decode.Dec32.{dec32, defaults, dec_imm, imm_op}
use xemu.Decode.Imm32.{i_imm}
use xemu.Decode.RoundTrip.{equal, dec32-b_type}
use xemu.Execute.{execute, write_back}
use xemu.Execute.Arith.{exec_arith, add}
use xemu.Execute.Memory.{exec_memory, exec_control}
use xemu.Execute.Locals.{Args, compute, outcome_of}
use xemu.Execute.Zero.{execute_registers}
use xemu.Execute.MulDiv.{mul, mulh, mulhu}
use xemu.Execute.Multiply.{mul_lem}
use xemu.Execute.Products.{mulh-unsigned}
use xemu.Xemu.{round, run_inst, fetch, source, handle_interrupt, handle_type}
use xemu.Xemu.Interrupts.{handle_interrupt-delegated, handle_interrupt-machine}
use xemu.Xemu.Round.{start, device, next, Reaches-x0}

-- Page tables at 0x1000, 0x2000 and 0x3000, which map the second page to 0x80000; at 0x80238 two
-- instructions.
abbrev words : ℕ → ℕ
words a =
    if a == 0x1000
    then 2 * 1024 + 1
    else if a == 0x2000
    then 3 * 1024 + 1
    else if a == 0x3008
    then 0x80 * 1024 + 0xF
    else 0x00500093

-- A bus to such a memory, without interrupts.
abbrev memory : Bus (Unit {0})
memory = record {
  read_nommu = λ a _ _. pure (words a);
  write_nommu = λ _ _ _ _. pure 0;
  plic_interrupt = λ _. pure 0;
  clint_interrupt = λ _. no_intr;
}

abbrev paged : Machine (Unit {0})
paged = record {
  pc = 0x1238;
  reg = λ _. 0;
  freg = λ _. 0;
  csrs = record {
    priv = 1;
    csr = λ a.
        if a == Number.satp
        then 8 * 2 ^ 60 + 1
        else if a == Number.sstatus
        then 2
        else if a == Number.sie
        then 0x20
        else 0;
    rtc = 0;
    ticks = 0;
  };
  dev = tt;
}

mmu-paged : mmu memory 0x1238 paged ≡ ok (some 0x80238, paged)
unfolding mmu level2 level1 level0 is_fault is_leaf csr_read kind is_stored bits bit ◌<<<◌
mmu-paged = refl

-- `addi x1, x0, 5`.
abbrev addi_x1 : Args
addi_x1 = record { pc = 0x1238; next_pc = 0x123C; rd = 1; rs1 = 0; rs2 = 5; imm = 5; csr_addr = 5 }

abbrev after_addi : Machine (Unit {0})
after_addi = record paged { reg = update (paged.reg) 1 5 }

executed : execute memory Op.addi addi_x1 paged ≡ ok (0x123C, after_addi)
unfolding execute exec_control exec_memory exec_arith compute write_back outcome_of add
executed = refl

execute_registers_example :
    (after_addi.reg 0 ≡ paged.reg 0)
    × (after_addi.pc ≡ paged.pc)
    × (◌≡◌ {A = ℕ} 2 1 ⊎ (after_addi.reg 2 ≡ paged.reg 2))
execute_registers_example =
    execute_registers memory Op.addi addi_x1 2 0x123C paged after_addi executed

abbrev after_round : Machine (Unit {0})
after_round = record after_addi { pc = 0x123C }

one_round : round memory paged ≡ ok (tt, after_round)
unfolding round handle_interrupt source handle_type fetch as_read mmu csr_read kind is_stored bits
    level2 is_fault bit ◌<<<◌ is_leaf level1 level0 at_physical run_inst decode dec32 defaults
    dec_imm imm_op i_imm expand_bit execute exec_control exec_memory exec_arith compute write_back
    outcome_of add
one_round = refl

Reaches-x0_example : after_round.reg 0 ≡ 0
Reaches-x0_example = Reaches-x0 memory paged after_round refl (next (device tt start) one_round)

-- The word 0x00500093 of the instruction.
abbrev decoded : Decode
decoded = record {
  fields = record { op = Op.addi; rd = 1; rs1 = 0; rs2 = 5; imm = 5; csr_addr = 0; opcode = 0x13 };
  next_pc = 0x123C;
}

decodes : decode 0x1238 0x00500093 ≡ ok decoded
unfolding decode dec32 defaults dec_imm imm_op i_imm expand_bit bits bit ◌<<<◌
decodes = refl

decode-InRange_example : InRange (decoded.fields) × (decoded.next_pc ≡ 0x123C)
decode-InRange_example = decode-InRange 0x1238 0x00500093 decoded decodes

-- `beq x1, x2, -4`, `sd x2, -8(x1)`, `lw x3, 16(x1)` and `jal x1, 2048`.
dec32-b_type_example :
    dec32 (b_type 0x63 0 1 2 0x1FFC)
    ≡ ok (record {
      op = Op.beq;
      rd = 0;
      rs1 = 1;
      rs2 = 2;
      imm = 2 ^ 64 - 4;
      csr_addr = 0;
      opcode = 0x63;
    })
dec32-b_type_example = dec32-b_type equal 1 2 0x1FFC (omega arith) (omega arith) (omega arith) refl

mulh-unsigned_example : mulh (2 ^ 64 - 1) 2 ≡ mulhu (2 ^ 64 - 1) 2
mulh-unsigned_example = mulh-unsigned (2 ^ 64 - 1) 2 (omega arith) (omega arith)

-- The deadline of the timer has passed. In S mode the interrupt is delegated and enabled; in M mode it
-- is enabled too. The handlers are at 0x4000 and 0x5000.
abbrev ticking : Bus (Unit {0})
ticking = record memory { clint_interrupt = λ _. timer }

abbrev interruptible : ℕ → Machine (Unit {0})
interruptible mode = record paged {
  csrs = record {
    priv = mode;
    csr = λ a.
        if a == Number.sstatus
        then 2
        else if a == Number.sie
        then 0x20
        else if a == Number.mideleg
        then 0x20
        else if a == Number.stvec
        then 0x4000
        else if a == Number.mstatus
        then 8
        else if a == Number.mie
        then 0x80
        else if a == Number.mtvec
        then 0x5000
        else 0;
    rtc = 0;
    ticks = 0;
  };
}

timer_source : (mode : ℕ) → source ticking (interruptible mode) ≡ ok (timer, interruptible mode)
unfolding source
timer_source mode = refl

timer-ne-no_intr : timer ≢ no_intr
timer-ne-no_intr e = cc

handle_interrupt-delegated_example :
    (c' : CsrFile) × (handle_interrupt ticking 0x1238 (interruptible 1)
      ≡ ok (0x4000, record (interruptible 1) { csrs = c' }))
    × (c'.priv ≡ 1)
    × (test (c'.csr Number.sip) 5 ≡ 1)
    × (test (c'.csr Number.sstatus) 5 ≡ 1)
    × (c'.csr Number.scause ≡ 2 ^ 63 + 5)
unfolding test
handle_interrupt-delegated_example =
    handle_interrupt-delegated ticking 0x1238 Number.scause 5 timer (interruptible 1)
      (interruptible 1) (timer_source 1) timer-ne-no_intr (omega arith) (omega arith) refl
      (omega arith)

handle_interrupt-machine_example :
    (c' : CsrFile) × (handle_interrupt ticking 0x1238 (interruptible 3)
      ≡ ok (0x5000, record (interruptible 3) { csrs = c' }))
    × (c'.priv ≡ 3)
    × (test (c'.csr Number.mip) 7 ≡ 1)
    × (test (c'.csr Number.mstatus) 7 ≡ 1)
    × (c'.csr Number.mcause ≡ 2 ^ 63 + 7)
unfolding test
handle_interrupt-machine_example =
    handle_interrupt-machine ticking 0x1238 Number.mcause 7 timer (interruptible 3)
      (interruptible 3) (timer_source 3) timer-ne-no_intr (omega arith) (inl refl) (omega arith)
      (omega arith)

-- -1 times 2.
mul_lem_example : mul (2 ^ 64 - 1) 2 ≡ 2 ^ 64 - 2
mul_lem_example = mul_lem (2 ^ 64 - 1) 2 (omega arith) (omega arith)
