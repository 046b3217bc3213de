-- ===== src/Bus.antt =====
-- What the processor needs of the rest of the machine, with its state `S`: physical memory, and the
-- two sources of interrupts. System.antt fills it.
use xemu.Base.{ℕ, M}
use xemu.Csr.{CsrFile}
use xemu.Interrupt.{IntrType}
use xemu.Space.{Params}

pub record Bus (S : Type 0) : Type 0 where
  -- `as_read_nommu(&root_as, addr, size, params)`, `as_write_nommu(&root_as, addr, size, data, params)`.
  pub read_nommu : ℕ → ℕ → Params → M S ℕ
  pub write_nommu : ℕ → ℕ → ℕ → Params → M S ℕ
  -- `plic_interrupt()`, which reads `mideleg` and the mode, and `clint_interrupt()`.
  pub plic_interrupt : CsrFile → M S ℕ
  pub clint_interrupt : S → IntrType
