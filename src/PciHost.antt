-- ===== src/PciHost.antt =====
-- pci_host.c: the configuration space of the PCI host bridge. The offsets are those of pci.h.
pub mod Number
use xemu.Base.{
  ℕ, ◌+◌, ◌-◌, ◌*◌, ◌%◌, ◌^◌, bit_or, Bool, true, false, ◌||◌, leb, ◌==◌, if◌then◌else◌, ◌≡◌, refl,
  arith, Returns, Outcome, ok, panicked, undefined, M,
}
use xemu.Space.{Params, no_params}
use xemu.PciHost.Number.{
  pci_vendor_id, pci_device_id, pci_command, pci_status, pci_class_revision, pci_class_device,
  pci_header_type, pci_base_address_0, pci_base_address_1, pci_base_address_2, pci_base_address_3,
  pci_base_address_4, pci_base_address_5, pci_subsystem_vendor_id, pci_subsystem_id,
  pci_rom_address, pci_interrupt_pin,
}

pub record PciHost : Type 0 where
  pub command : ℕ
  pub status : ℕ
  pub class_id : ℕ

-- PCI_BASE_ADDRESS_0 to PCI_BASE_ADDRESS_5.
abbrev pub is_base_address : ℕ → Bool
is_base_address addr =
    addr == pci_base_address_0
    || addr == pci_base_address_1
    || addr == pci_base_address_2
    || addr == pci_base_address_3
    || addr == pci_base_address_4
    || addr == pci_base_address_5

unfoldable pub pci_host_read : ℕ → ℕ → Params → M PciHost ℕ
pci_host_read addr size _ p =
    if leb 256 addr
    then ok (2 ^ 64 - 1, p)
    else if addr == pci_vendor_id
    then ok ((if size == 4 then bit_or 0x1b36 (0x0008 * 2 ^ 16) else 0x1b36), p)
    else if addr == pci_device_id
    then ok (0x0008, p)
    else if addr == pci_command
    then ok (p.command, p)
    else if addr == pci_status
    then ok (p.status, p)
    else if addr == pci_class_revision
    then ok ((if size == 4 then bit_or 0 (0x0600 * 2 ^ 16) else 0), p)
    else if addr == pci_class_device
    then ok (0x0600, p)
    else if addr == pci_header_type || is_base_address addr
    then ok (0, p)
    else if addr == pci_subsystem_vendor_id
    then ok (0x1af4, p)
    else if addr == pci_subsystem_id
    then ok (0x1100, p)
    else if addr == pci_rom_address || addr == pci_interrupt_pin
    then ok (0, p)
    else panicked

unfoldable pub pci_host_write : ℕ → ℕ → ℕ → Params → M PciHost ℕ
pci_host_write addr value size _ p =
    if addr == pci_command
    then ok (0, record p { command = value % 2 ^ 16 })
    else if is_base_address addr || addr == pci_rom_address
    then ok (0, p)
    else panicked

-- What is read after a write that does not panic, at the place of the write: the command is kept, cut
-- to 16 bits, and the base addresses and the ROM address stay 0, so that the driver sees no BAR.
pub pci_host_read-pci_host_write :
    (p : PciHost) (addr value size read_size : ℕ)
    → (is_base_address addr || addr == pci_rom_address || addr == pci_command) ≡ true
    → Returns
        (λ (_, q).
          pci_host_read addr read_size no_params q
          ≡ ok ((if addr == pci_command then value % 2 ^ 16 else 0), q))
        (pci_host_write addr value size no_params p)
unfolding pci_host_read pci_host_write
pci_host_read-pci_host_write p addr value size read_size h = ground (arith, h)
