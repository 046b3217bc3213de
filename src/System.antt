-- ===== src/System.antt =====
-- The devices together, as main of xemu.c sets them up: the tree of address spaces, and the bus that
-- the processor sees. The virtio transports are a parameter, with a state of their own, since they reach
-- the memory through the bus themselves.
pub mod Map
pub mod Modules
use xemu.Base.{
  ℕ, ◌+◌, ◌*◌, ◌^◌, ◌-◌, List, [], ◌∷◌, Outcome, ok, panicked, undefined, M, lift, Option, ◌>>=◌,
  ◌>>◌,
}
use xemu.Csr.{CsrFile}
use xemu.Interrupt.{IntrType}
use xemu.Space.{
  Params, Space, init_address_space, register_address_space, Ops, as_read_nommu, as_write_nommu,
}
use xemu.Ram.{Ram, ram_read, ram_write}
use xemu.Plic.{Plic, plic_read, plic_write, plic_interrupt}
use xemu.Clint.{Clint, clint_read, clint_write, clint_interrupt}
use xemu.Image.{Image}
use xemu.Rom.{rom_read, rom_write, rom_add_file}
use xemu.Flash.{flash_read, flash_write}
use xemu.Rtc.{Rtc, rtc_read, rtc_write}
use xemu.PciHost.{PciHost, pci_host_read, pci_host_write}
use xemu.Uart.{Uart, Port, uart_read, uart_write}
use xemu.Bus.{Bus}

-- `root_as` has the callbacks of init_address_space, which panic.
pub data Device : Type 0 where
  root rtc pci_host plic clint rom flash ram uart : Device
  virtio_mmio : ℕ → Device

-- The ranges, in the order in which main registers them.
register_all : Space Device → List (ℕ × ℕ × Device) → Space Device
register_all tree [] = tree
register_all tree ((start, end, device) ∷ rest) =
    register_all (register_address_space tree (init_address_space start end device)) rest

abbrev virtio_range : ℕ → ℕ × ℕ × Device
virtio_range i = (0x10001000 + i * 0x1000, 0x10001FFF + i * 0x1000, virtio_mmio i)

unfoldable pub root_as : Space Device
unfolding register_all
root_as = register_all (init_address_space 0 0x7FFFFFFFFF root) (
    (0x101000, 0x101FFF, rtc)
    ∷ (0x30000000, 0x3FFFFFFF, pci_host)
    ∷ (0x0C000000, 0x0C20FFFF, plic)
    ∷ (0x02000000, 0x0200FFFF, clint)
    ∷ (0x1000, 0xFFFFF, rom)
    ∷ (0x20000000, 0x23FFFFFF, flash)
    ∷ (0x80000000, 0xFFFFFFFF, ram)
    ∷ (0x10000000, 0x100000FF, uart)
    ∷ virtio_range 0
    ∷ virtio_range 1
    ∷ virtio_range 2
    ∷ virtio_range 3
    ∷ virtio_range 4
    ∷ virtio_range 5
    ∷ virtio_range 6
    ∷ virtio_range 7
    ∷ [])

-- `O` is the state of the virtio transports.
pub record Devices (O : Type 0) : Type 0 where
  pub ram_state : Ram
  pub plic_state : Plic
  pub clint_state : Clint
  pub rom_state : Image
  pub flash_state : Image
  pub rtc_state : Rtc
  pub pci_host_state : PciHost
  pub uart_state : Uart
  -- What the serial port has put out, the last byte first.
  pub output : List ℕ
  pub others : O

module _ {O : Type 0} where
  -- An operation on a part of the machine.
  abbrev pub in_part :
      {T A : Type 0} → (Devices O → T) → (T → Devices O → Devices O) → M T A → M (Devices O) A
  in_part part with_part m s = elim (m (part s)) [
    | ok (a, t) ↦ ok (a, with_part t s)
    | panicked ↦ panicked
    | undefined ↦ undefined
  ]

  abbrev pub in_ram : {A : Type 0} → M Ram A → M (Devices O) A
  in_ram = in_part (λ s. s.ram_state) (λ t s. record s { ram_state = t })

  abbrev in_plic : {A : Type 0} → M Plic A → M (Devices O) A
  in_plic = in_part (λ s. s.plic_state) (λ t s. record s { plic_state = t })

  abbrev in_clint : {A : Type 0} → M Clint A → M (Devices O) A
  in_clint = in_part (λ s. s.clint_state) (λ t s. record s { clint_state = t })

  abbrev in_rom : {A : Type 0} → M Image A → M (Devices O) A
  in_rom = in_part (λ s. s.rom_state) (λ t s. record s { rom_state = t })

  abbrev pub in_flash : {A : Type 0} → M Image A → M (Devices O) A
  in_flash = in_part (λ s. s.flash_state) (λ t s. record s { flash_state = t })

  abbrev in_rtc : {A : Type 0} → M Rtc A → M (Devices O) A
  in_rtc = in_part (λ s. s.rtc_state) (λ t s. record s { rtc_state = t })

  abbrev in_pci_host : {A : Type 0} → M PciHost A → M (Devices O) A
  in_pci_host = in_part (λ s. s.pci_host_state) (λ t s. record s { pci_host_state = t })

  -- The serial port acts on the interrupt controller too.
  abbrev pub in_port : {A : Type 0} → M Port A → M (Devices O) A
  in_port =
      in_part (λ s. record { uart = s.uart_state; plic = s.plic_state; output = s.output })
        (λ p s. record s { uart_state = p.uart; plic_state = p.plic; output = p.output })

  abbrev in_others : {A : Type 0} → M O A → M (Devices O) A
  in_others = in_part (λ s. s.others) (λ t s. record s { others = t })

  -- The callbacks that the devices' `_init` functions set; `virtio` has those of the transports.
  unfoldable pub ops : Ops ℕ O → Ops Device (Devices O)
  ops virtio = record { read_op = read; write_op = write }
    where
      read : Device → ℕ → ℕ → Params → M (Devices O) ℕ
      read root addr size p = lift panicked
      read ram addr size p = in_ram (ram_read addr size p)
      read plic addr size p = in_plic (plic_read addr size p)
      read clint addr size p = in_clint (clint_read addr size p)
      read rom addr size p = in_rom (rom_read addr size p)
      read flash addr size p = in_flash (flash_read addr size p)
      read rtc addr size p = in_rtc (rtc_read addr size p)
      read pci_host addr size p = in_pci_host (pci_host_read addr size p)
      read uart addr size p = in_port (uart_read addr size p)
      read (virtio_mmio i) addr size p = in_others (virtio.read_op i addr size p)

      write : Device → ℕ → ℕ → ℕ → Params → M (Devices O) ℕ
      write root addr v size p = lift panicked
      write ram addr v size p = in_ram (ram_write addr v size p)
      write plic addr v size p = in_plic (plic_write addr v size p)
      write clint addr v size p = in_clint (clint_write addr v size p)
      write rom addr v size p = in_rom (rom_write addr v size p)
      write flash addr v size p = in_flash (flash_write addr v size p)
      write rtc addr v size p = in_rtc (rtc_write addr v size p)
      write pci_host addr v size p = in_pci_host (pci_host_write addr v size p)
      write uart addr v size p = in_port (uart_write addr v size p)
      write (virtio_mmio i) addr v size p = in_others (virtio.write_op i addr v size p)

  unfoldable pub system_bus : Ops ℕ O → Bus (Devices O)
  system_bus virtio = record {
    read_nommu = as_read_nommu (ops virtio) root_as;
    write_nommu = λ addr size value. as_write_nommu (ops virtio) root_as addr size value;
    plic_interrupt = λ c. in_plic (plic_interrupt c);
    clint_interrupt = λ s. clint_interrupt s.clint_state;
  }

-- The files that main puts into the ROM.
unfoldable pub load_rom : (bios tree jump : Option (List ℕ)) → M Image (Unit {0})
load_rom bios tree jump = do rom_add_file bios 0; rom_add_file tree 0x100; rom_add_file jump 0x2000
