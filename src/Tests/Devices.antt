-- ===== src/Tests/Devices.antt =====
-- Runs of the theorems on ram.c, plic.c, clint.c, address_space.c and the setup of xemu.c.
use xemu.Base.{
  replicate, inr, some, List, ◌++◌, ℕ, ◌+◌, ◌%◌, ◌^◌, ◌<◌, ◌≤◌, ◌≡◌, ◌⊎◌, refl, inl, arith, true,
  false, [], ◌∷◌, Returns, ok, pure, ◌>>=◌,
}
use xemu.Csr.Cause
use xemu.Base.Int.{signed}
use xemu.Word.Bits.{test}
use xemu.Space.{
  as_read_blob, as_write_blob, space, null, no_params, amo_add, amo_swap, amo_xor, amo_or, amo_and,
  amo_min, amo_max, amo_minu, amo_maxu, Ops, resolve_root, init_address_space,
  register_address_space,
}
use xemu.Space.Lookup.{resolve-register}
use xemu.Ram.{Ram, ram_read, ram_write, load_le, amo, modified, is_lr_sc}
use xemu.Ram.Atomic.{ℤ_le, ram_read-ram_write, amo_extremes}
use xemu.Plic.{Plic, not32, plic_read, plic_write, first_one, deliver, scan}
use xemu.Plic.Delivery.{IsDeliverable, first_one-lowest, deliver_supervisor}
use xemu.Plic.Claim.{plic_write-plic_read}
use xemu.Clint.{Clint, clint_write, routine, routine-clint_write}
use xemu.Image.{file_byte}
use xemu.Rom.{rom_init}
use xemu.Flash.{flash_init, flash_add_file}
use xemu.Uart.{uart_init}
use xemu.System.Modules.{read_nommu-flash_add_file}
use xemu.System.{in_flash, ram, rom, uart, Devices, system_bus}
use xemu.Virtio.{Iovec}
use xemu.VirtioBlk.{DiskFile, read_segments, disk_read}
use xemu.VirtioBlk.Scatter.{gather}
use xemu.VirtioBlk.Gather.{read_segments-gather}
use xemu.Blob.InRam.{as_read_blob-as_write_blob, with_mem, flat_ram}

first_one-lowest_example :
    (b : ℕ) × (first_one 0xA8 ≡ ok b) × (b < 32) × (0xA8 % 2 ^ b ≡ 0) × (test 0xA8 b ≡ 1)
first_one-lowest_example = first_one-lowest 0xA8 (omega arith) (omega arith)

-- Source 10, the UART's, is pending, and enabled in both modes with priority 1.
abbrev waiting : Plic
waiting = record {
  priority = 0 ∷ 0 ∷ 0 ∷ 0 ∷ 0 ∷ 0 ∷ 0 ∷ 0 ∷ 0 ∷ 0 ∷ 1 ∷ [];
  mpt = 0;
  spt = 0;
  mcc = 0;
  scc = 0;
  mie = 0x400 ∷ 0 ∷ 0 ∷ 0 ∷ 0 ∷ [];
  sie = 0x400 ∷ 0 ∷ 0 ∷ 0 ∷ 0 ∷ [];
  pending = 0x400 ∷ 0 ∷ 0 ∷ 0 ∷ 0 ∷ [];
}

delivers_s : deliver Cause.s_mode waiting ≡ ok (10, record waiting { scc = 10 })
unfolding deliver scan first_one
delivers_s = refl

delivers_m : deliver Cause.m_mode waiting ≡ ok (10, record waiting { mcc = 10 })
unfolding deliver scan first_one
delivers_m = refl

deliver_supervisor_example :
    IsDeliverable waiting (waiting.sie) 0 10
    × (record waiting { scc = 10 } ≡ record waiting { scc = 10 })
deliver_supervisor_example =
    deliver_supervisor waiting (record waiting { scc = 10 }) 10 (omega arith) delivers_s

plic_write-plic_read_example :
    (plic_read 0x201004 4 no_params >>= λ id. plic_write 0x201004 id 4 no_params)
      (record waiting { scc = 10 })
    ≡ ok (0, record waiting { pending = 0 ∷ 0 ∷ 0 ∷ 0 ∷ 0 ∷ [] })
unfolding not32
plic_write-plic_read_example =
    plic_write-plic_read (record waiting { scc = 10 }) 0x400 (omega arith) (omega arith) refl

abbrev timer_off : Clint
timer_off = record {
  software_intr = true;
  timer_intr = false;
  timer_running = false;
  mtimecmp = 0;
  rtc = 100;
}

routine-clint_write_example :
    Returns
      (λ (_, c'). ((routine c').timer_intr ≡ false) × ((routine c').software_intr ≡ true))
      (clint_write 0x4000 200 8 no_params timer_off)
routine-clint_write_example = routine-clint_write timer_off 200 8

abbrev small_ram : Ram
small_ram = record { mem = λ a. a + 1; mem_size = 64 }

ram_read-ram_write_example :
    (ram' : Ram) × (ram_write 8 3 4 amo_add small_ram ≡ ok (load_le small_ram.mem 8 4, ram'))
    × (ram_read 8 4 no_params ram' ≡ ok (0x0C0B0A0C, ram'))
    × (ram_read 0 8 no_params ram' ≡ ok (load_le small_ram.mem 0 8, ram'))
unfolding modified load_le amo is_lr_sc
ram_read-ram_write_example =
    ram_read-ram_write 8 3 4 0 8 amo_add small_ram (omega arith) (inl (omega arith)) (omega arith)

-- 0x80 is -128 as a signed byte.
amo_extremes_example :
    ((amo 8 0x80 0x7F amo_min ≡ 0x80) ⊎ (amo 8 0x80 0x7F amo_min ≡ 0x7F))
    × ((amo 8 0x80 0x7F amo_max ≡ 0x80) ⊎ (amo 8 0x80 0x7F amo_max ≡ 0x7F))
    × ℤ_le (signed 8 (amo 8 0x80 0x7F amo_min)) (signed 8 0x80)
    × ℤ_le (signed 8 (amo 8 0x80 0x7F amo_min)) (signed 8 0x7F)
    × ℤ_le (signed 8 0x80) (signed 8 (amo 8 0x80 0x7F amo_max))
    × ℤ_le (signed 8 0x7F) (signed 8 (amo 8 0x80 0x7F amo_max))
    × ((amo 8 0x80 0x7F amo_minu ≡ 0x80) ⊎ (amo 8 0x80 0x7F amo_minu ≡ 0x7F))
    × ((amo 8 0x80 0x7F amo_maxu ≡ 0x80) ⊎ (amo 8 0x80 0x7F amo_maxu ≡ 0x7F))
    × (amo 8 0x80 0x7F amo_minu ≤ 0x80)
    × (amo 8 0x80 0x7F amo_minu ≤ 0x7F)
    × (0x80 ≤ amo 8 0x80 0x7F amo_maxu)
    × (0x7F ≤ amo 8 0x80 0x7F amo_maxu)
    × (amo 8 0x80 0x7F amo_add ≡ 0xFF)
    × (amo 8 0x80 0x7F amo_swap ≡ 0x7F)
    × (test (amo 8 0x80 0x7F amo_xor) 7 ≡ 1)
    × (test (amo 8 0x80 0x7F amo_or) 7 ≡ 1)
    × (test (amo 8 0x80 0x7F amo_and) 7 ≡ 0)
unfolding test
amo_extremes_example = amo_extremes 8 0x80 0x7F 7

-- A serial port that is registered after the memory, over part of its range.
resolve-register_example :
    resolve_root
      (register_address_space
        (space 0 0xFFFF rom (init_address_space 0x1000 0x1FFF ram) null)
        (init_address_space 0x1800 0x18FF uart))
      0x1810
    ≡ ok (uart, 0x10)
resolve-register_example =
    resolve-register 0 0xFFFF rom (init_address_space 0x1000 0x1FFF ram) null 0x1800 0x18FF uart
      0x1810

-- The virtio transports answer 0.
abbrev pub silent : Ops ℕ (Unit {0})
silent = record { read_op = λ _ _ _ _. pure 0; write_op = λ _ _ _ _ _. pure 0 }

abbrev pub started : Devices (Unit {0})
started = record {
  ram_state = record { mem = λ _. 0; mem_size = 0x80000000 };
  plic_state = waiting;
  clint_state = timer_off;
  rom_state = rom_init;
  flash_state = flash_init;
  rtc_state = record { time_high = 0; alarm_next = 0; alarm_running = 0; now = 0 };
  pci_host_state = record { command = 0; status = 0; class_id = 0 };
  uart_state = uart_init 10;
  output = [];
  others = tt;
}

-- Eleven bytes: one write of eight, and three of one.
abbrev eleven : List ℕ
eleven = 1 ∷ 2 ∷ 3 ∷ 4 ∷ 5 ∷ 6 ∷ 7 ∷ 8 ∷ 9 ∷ 10 ∷ 255 ∷ []

as_read_blob-as_write_blob_example :
    (f : ℕ → ℕ) × ((as_write_blob (system_bus silent).write_nommu 0x80000010 eleven >>= λ _.
    as_read_blob (system_bus silent).read_nommu 0x80000010 11)
        started
      ≡ ok (eleven, with_mem silent started f))
    × ((j : ℕ) → (j < 0x10) ⊎ (0x1B ≤ j) → f j ≡ started.ram_state.mem j)
as_read_blob-as_write_blob_example =
    as_read_blob-as_write_blob silent started 0x80000010 eleven refl refl (omega arith)
      (omega arith) refl

-- A disk of 1 KiB, and two vectors of which the second lies below the first in memory.
abbrev pub small_disk : DiskFile
small_disk = record { contents = λ j. j; size = 0x400 }

abbrev two_vectors : List Iovec
two_vectors =
    record { base = 0x80000100; len = 0x20; flags = 2 }
    ∷ record { base = 0x80000010; len = 11; flags = 2 }
    ∷ []

read_segments-gather_example :
    (f : ℕ → ℕ) × (bytes : List ℕ) × (read_segments
        (record {
          read_nommu = (system_bus silent).read_nommu;
          write_nommu = (system_bus silent).write_nommu;
          signal = λ n. pure tt;
        })
        small_disk
        0x200
        two_vectors
        started
      ≡ ok (tt, with_mem silent started f))
    × (gather (system_bus silent).read_nommu two_vectors (with_mem silent started f)
        ≡ ok (bytes, with_mem silent started f))
    × (disk_read small_disk 0x200 43 ≡ ok bytes)
read_segments-gather_example =
    read_segments-gather (flat_ram silent) (omega arith) (λ n. pure tt) small_disk 0x200 two_vectors
      started refl (refl, omega arith, omega arith, (refl, omega arith, omega arith, tt))
      ((inl (omega arith), tt), (tt, tt)) (omega arith)

-- A module of 44 bytes that starts with the magic number of ELF.
abbrev module_file : List ℕ
module_file = 0x7F ∷ 0x45 ∷ 0x4C ∷ 0x46 ∷ replicate 36 1 ++ 7 ∷ 8 ∷ 9 ∷ 10 ∷ []

read_nommu-flash_add_file_example :
    (s' : Devices (Unit {0})) × (in_flash (flash_add_file (some module_file)) started ≡ ok (tt, s'))
    × ((system_bus silent).read_nommu (0x20000000 + 0x100 + 41) 1 no_params s'
        ≡ ok (file_byte module_file 41 % 256, s'))
read_nommu-flash_add_file_example =
    read_nommu-flash_add_file silent started module_file 41 (omega arith) (omega arith)
      (omega arith) (omega arith) (omega arith) (inr (omega arith))
