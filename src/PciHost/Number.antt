-- ===== src/PciHost/Number.antt =====
-- The offsets of pci.h in the configuration space.
use xemu.Base.{ℕ}

abbrev pub pci_vendor_id : ℕ
pci_vendor_id = 0x00

abbrev pub pci_device_id : ℕ
pci_device_id = 0x02

abbrev pub pci_command : ℕ
pci_command = 0x04

abbrev pub pci_status : ℕ
pci_status = 0x06

abbrev pub pci_class_revision : ℕ
pci_class_revision = 0x08

abbrev pub pci_class_device : ℕ
pci_class_device = 0x0a

abbrev pub pci_header_type : ℕ
pci_header_type = 0x0e

abbrev pub pci_base_address_0 : ℕ
pci_base_address_0 = 0x10

abbrev pub pci_base_address_1 : ℕ
pci_base_address_1 = 0x14

abbrev pub pci_base_address_2 : ℕ
pci_base_address_2 = 0x18

abbrev pub pci_base_address_3 : ℕ
pci_base_address_3 = 0x1c

abbrev pub pci_base_address_4 : ℕ
pci_base_address_4 = 0x20

abbrev pub pci_base_address_5 : ℕ
pci_base_address_5 = 0x24

abbrev pub pci_subsystem_vendor_id : ℕ
pci_subsystem_vendor_id = 0x2c

abbrev pub pci_subsystem_id : ℕ
pci_subsystem_id = 0x2e

abbrev pub pci_rom_address : ℕ
pci_rom_address = 0x30

abbrev pub pci_interrupt_pin : ℕ
pci_interrupt_pin = 0x3d
