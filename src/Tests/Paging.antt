-- ===== src/Tests/Paging.antt =====
-- Runs of the theorems on mmu.c, with the page tables in the RAM of the whole machine.
use xemu.Base.{ℕ, ◌+◌, ◌*◌, ◌^◌, ◌==◌, if◌then◌else◌}
use xemu.Csr.Number
use xemu.Machine.{Machine}
use xemu.System.{Devices}
use xemu.Tests.Devices.{started}

-- Page tables at 0x80001000, 0x80002000 and 0x80003000, which map the second page to 0x80080000: the
-- bytes of RAM that are not 0.
abbrev tables : ℕ → ℕ
tables a =
    if a == 0x1000
    then 0x01
    else if a == 0x1001
    then 0x08
    else if a == 0x1003
    then 0x20
    else if a == 0x2000
    then 0x01
    else if a == 0x2001
    then 0x0C
    else if a == 0x2003
    then 0x20
    else if a == 0x3008
    then 0x0F
    else if a == 0x300A
    then 0x02
    else if a == 0x300B
    then 0x20
    else 0

abbrev supervisor : Machine (Devices (Unit {0}))
supervisor = record {
  pc = 0x1238;
  reg = λ _. 0;
  freg = λ _. 0;
  csrs = record {
    priv = 1;
    csr = λ a. if a == Number.satp then 8 * 2 ^ 60 + 0x80001 else 0;
    rtc = 0;
    ticks = 0;
  };
  dev = record started { ram_state = record { mem = tables; mem_size = 0x80000000 } };
}
