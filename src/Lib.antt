-- ===== src/Lib.antt =====
-- xemu, an emulator of a 64-bit RISC-V machine: the processor (decoders, execution, traps, paging),
-- the bus, and the devices: PLIC, CLINT, RAM, ROM, flash memory, clocks, the serial port, the PCI host
-- and the virtio disk; and the loader of the kernel modules that go into the flash memory.
--
-- The parts, and the files of the repository that they translate:
--   Word       util.h: the bit macros. Word/Bits, Word/Fields and Word/Set are their arithmetic.
--   Op, Isa    operation.h and isa.h.
--   Decode     decode.c; Decode/Dec32 and Decode/Imm32 are dec32.c, Decode/Dec16 and Decode/Imm16 are
--              dec16.c. Decode/Encode has encoders of the instruction formats, for the round trips of
--              Decode/RoundTrip; Decode/Bounds, Bounds16 and Total are about the ranges of the fields.
--   Csr        csr.c; Csr/Number and Csr/Cause are the constants of csr.h.
--   Interrupt  interrupt.h. Trap is trap.c and trap.h, but handle_interrupt, which is in Xemu.
--   Space      address_space.h, and the accesses to physical addresses of address_space.c.
--   Ram        ram.c. Plic is plic.c, Clint is clint.c.
--   Bus        the interface between the processor and the rest: physical reads and writes, and the
--              two sources of interrupts. Machine is the state of the processor: regfile.c, csr.c and
--              _pc of xemu.c, with the state of the devices behind the bus.
--   Mmu        mmu.c, and as_read and as_write of address_space.c.
--   Execute    execute.c. Its children follow the groups of the switch; each group hands the
--              operations that are not its own to the next.
--   Image      the memories of rom.c and flash.c, with ROUND_UP of util.h. Rom is rom.c, Flash is flash.c
--              and elf.h.
--   Rtc        rtc.c. Clock is the clock of util.c, PciHost is pci_host.c and pci.h, FwCfg is fw_cfg.c.
--   Uart       uart.c, with the interrupt controller and the bytes that are put out.
--   Virtio     virtio.h; Virtio/Queue is virtio.c, over the interface Memory to the rest of the machine.
--   VirtioMmio virtio_mmio.c. VirtioBlk is virtio_blk.c, whose loop over the vectors of a request is in
--              VirtioBlk/Scatter and VirtioBlk/Gather; VirtioBlk/Disk is about the file, VirtioBlk/Kept about
--              a write request, and VirtioBlk/Steps has its two threads, and the loop
--              of QUEUE_NOTIFY, as a step relation.
--   Module     module.c and module.h: Module/Names and Module/Symbols are the tables of names,
--              Module/Sort the graph of the modules and sort_modules. Module/Order, Visit, Traverse, Ends, Kept and
--              Sorted are about the order; Resolve, Checked and Table about the symbols.
--              Module/Discover reads the directory, System.map and startup.bin, Module/Analysis the ELF
--              sections, and Module/Load is sort_modules from these files on; Discover/Range and
--              Load/Ordered are about them.
--   Text       the functions of the C library on strings, with Text/Lines for fgets; Text/Positions and
--              Text/Digits are their laws.
--   SystemMap  system_map.c. Yaml is yaml.c. The children named Render print files in their formats.
--   Trace      trace.c: Trace/Config the table and its settings, Trace/Match the search for an address,
--              Trace/Show what is printed; Trace/Names is operation.c, and the names of regfile.c and csr.c.
--   System     the setup in main of xemu.c: the tree of address spaces, a Bus made of it and the
--              devices, and the files of the ROM. System/Map and System/Modules are about accesses through it.
--   Blob       as_read_blob and as_write_blob over a stretch of plain memory: the interface Flat, what the
--              two leave and return (Write, Read), and RAM behind the bus as a Flat (InRam).
--   Xemu       fetch and the loop of main (xemu.c), and handle_interrupt (trap.c).
--   Tests      runs at concrete inputs.
--
-- A C function that changes state is a function of the monad `M` of Base/Result: it returns a value
-- and the new state, or it ends in `panicked` (panic of util.c) or `undefined` (undefined behaviour of
-- C: an index out of an array, a variable never set, a shift by the width or more). A w-bit integer is
-- a native number below 2 ^ w, and every wrap-around is written out. An int that overflows is taken to
-- wrap, as gcc without optimisation has it; a signed number is an integer of Base/Int.
--
-- A round of the main loop asks the PLIC and then the CLINT for an interrupt (Xemu.source), enters the
-- handler if it is enabled, else fetches through the MMU, decodes, and executes; a fault at any point
-- goes to trap_enter. Between rounds other threads change the devices: they are steps of their own
-- (plic_signal, Clint.routine).
--
-- Loops: first_one of plic.c runs on 32 rounds of fuel, the bits of its word; the rounding of Execute/Float
-- on 64, the bits of its operand; the walks of the page tables and of the address spaces end by their
-- structure; the main loop is one round at a time. traverse_dependency of module.c runs on fuel that bounds the
-- depth of its recursion, enough for a graph whose chains of dependencies are shorter;
-- the walk of an indirect table of virtio.c on 1024 rounds, the entries of the array that it
-- fills, past which it is undefined; ctz32 of util.h on 32, the bits of its word.
--
-- Lines of text files are read into 256 bytes, which Text/Lines follows; _show_string of trace.c runs on
-- the 256 bytes of its buffer.
--
-- Files of the host are lists of bytes or, where they cannot be opened, none; the disk is a file that
-- fread and fwrite of the C library read and change in place. A thread other than the
-- processor's is a step of its own: the timer (Clint.routine), the receiver of the serial port
-- (Uart.routine), and the disk (VirtioBlk/Steps), whose steps are taken as atomic.
--
-- Not modelled: the virtio transports behind the bus, whose accesses are a parameter of System, since they
-- reach the memory through the bus themselves, and a virtio device
-- that is made to read or write its own registers; trace_decode and trace_execute of trace.c, which
-- nothing calls, and the call of trace in the main loop, which DISABLE_TRACE leaves out; the texts of messages; and the host's clocks,
-- which are fields that the environment moves. Lists of list.h, which is a copy of Linux's, are lists.
-- The mutexes are left out, each operation being one step.
pub mod Base
pub mod Word
pub mod Op
pub mod Isa
pub mod Decode
pub mod Csr
pub mod Interrupt
pub mod Trap
pub mod Space
pub mod Ram
pub mod Bus
pub mod Machine
pub mod Mmu
pub mod Execute
pub mod Plic
pub mod Clint
pub mod Image
pub mod Rom
pub mod Rtc
pub mod Clock
pub mod PciHost
pub mod FwCfg
pub mod Uart
pub mod Virtio
pub mod VirtioMmio
pub mod VirtioBlk
pub mod Module
pub mod Flash
pub mod Text
pub mod SystemMap
pub mod Yaml
pub mod Trace
pub mod Blob
pub mod System
pub mod Xemu
pub mod Tests
