-- ===== src/Virtio/Number.antt =====
-- The constants of virtio.h that the devices use.
use xemu.Base.{ℕ}

abbrev pub vring_desc_f_next : ℕ
vring_desc_f_next = 0x1

abbrev pub vring_desc_f_write : ℕ
vring_desc_f_write = 0x2

abbrev pub vring_desc_f_indirect : ℕ
vring_desc_f_indirect = 0x4

abbrev pub virtio_mmio_magic_value : ℕ
virtio_mmio_magic_value = 0x000

abbrev pub virtio_mmio_version : ℕ
virtio_mmio_version = 0x004

abbrev pub virtio_mmio_device_id : ℕ
virtio_mmio_device_id = 0x008

abbrev pub virtio_mmio_vendor_id : ℕ
virtio_mmio_vendor_id = 0x00c

abbrev pub virtio_mmio_device_features : ℕ
virtio_mmio_device_features = 0x010

abbrev pub virtio_mmio_device_features_sel : ℕ
virtio_mmio_device_features_sel = 0x014

abbrev pub virtio_mmio_driver_features : ℕ
virtio_mmio_driver_features = 0x020

abbrev pub virtio_mmio_driver_features_sel : ℕ
virtio_mmio_driver_features_sel = 0x024

abbrev pub virtio_mmio_guest_page_size : ℕ
virtio_mmio_guest_page_size = 0x028

abbrev pub virtio_mmio_queue_sel : ℕ
virtio_mmio_queue_sel = 0x030

abbrev pub virtio_mmio_queue_num_max : ℕ
virtio_mmio_queue_num_max = 0x034

abbrev pub virtio_mmio_queue_num : ℕ
virtio_mmio_queue_num = 0x038

abbrev pub virtio_mmio_queue_align : ℕ
virtio_mmio_queue_align = 0x03c

abbrev pub virtio_mmio_queue_pfn : ℕ
virtio_mmio_queue_pfn = 0x040

abbrev pub virtio_mmio_queue_notify : ℕ
virtio_mmio_queue_notify = 0x050

abbrev pub virtio_mmio_interrupt_status : ℕ
virtio_mmio_interrupt_status = 0x060

abbrev pub virtio_mmio_interrupt_ack : ℕ
virtio_mmio_interrupt_ack = 0x064

abbrev pub virtio_mmio_status : ℕ
virtio_mmio_status = 0x070

abbrev pub virtio_mmio_config : ℕ
virtio_mmio_config = 0x100

abbrev pub virt_magic : ℕ
virt_magic = 0x74726976

abbrev pub virt_vendor : ℕ
virt_vendor = 0x554D4558

abbrev pub virt_version_legacy : ℕ
virt_version_legacy = 1

abbrev pub virtio_id_block : ℕ
virtio_id_block = 2

abbrev pub virtio_f_notify_on_empty : ℕ
virtio_f_notify_on_empty = 0x01000000

abbrev pub virtio_f_any_layout : ℕ
virtio_f_any_layout = 0x08000000

abbrev pub virtio_ring_f_indirect_desc : ℕ
virtio_ring_f_indirect_desc = 0x10000000

abbrev pub virtio_ring_f_event_idx : ℕ
virtio_ring_f_event_idx = 0x20000000

abbrev pub virtio_f_version_1 : ℕ
virtio_f_version_1 = 0x100000000

abbrev pub virtio_queue_max : ℕ
virtio_queue_max = 1024

abbrev pub virtqueue_max_size : ℕ
virtqueue_max_size = 1024
