-- ===== src/VirtioMmio.antt =====
-- virtio_mmio.c: the registers of a virtio device.
use xemu.Base.{
  ℕ, zero, suc, ◌+◌, ◌-◌, ◌/◌, ◌%◌, ◌^◌, bit_and, Bool, true, false, not, ◌&&◌, ◌||◌, ltb, leb,
  ◌==◌, if◌then◌else◌, get_elem?, Option, none, some, Outcome, ok, panicked, undefined,
  or_undefined, map_outcome,
}
use xemu.Virtio.{Vring, VirtioDev}
use xemu.Virtio.Queue.{vring_init}
use xemu.Virtio.Number.{
  virtio_mmio_magic_value, virtio_mmio_version, virtio_mmio_device_id, virtio_mmio_vendor_id,
  virtio_mmio_device_features, virtio_mmio_device_features_sel, virtio_mmio_driver_features,
  virtio_mmio_driver_features_sel, virtio_mmio_guest_page_size, virtio_mmio_queue_sel,
  virtio_mmio_queue_num_max, virtio_mmio_queue_num, virtio_mmio_queue_align, virtio_mmio_queue_pfn,
  virtio_mmio_queue_notify, virtio_mmio_interrupt_status, virtio_mmio_interrupt_ack,
  virtio_mmio_status, virtio_mmio_config, virt_magic, virt_vendor, virt_version_legacy,
  virtio_queue_max, virtqueue_max_size,
}

-- `ctz32` of util.h, on 32 rounds of fuel.
unfoldable pub ctz_from : ℕ → ℕ → ℕ
ctz_from zero x = 0
ctz_from (suc fuel) x = if x % 2 == 0 then 1 + ctz_from fuel (x / 2) else 0

abbrev pub ctz32 : ℕ → ℕ
ctz32 x = if x == 0 then 32 else ctz_from 32 x

-- `backend` is none for NULL, and `features` is what its callback `get_features` returns.
unfoldable pub virtio_mmio_read : ℕ → Option VirtioDev → ℕ → ℕ → Outcome ℕ
virtio_mmio_read features none addr size =
    if leb virtio_mmio_config addr
    then panicked
    else if size == 4
    then if addr == virtio_mmio_magic_value
      then ok virt_magic
      else if addr == virtio_mmio_version
      then ok virt_version_legacy
      else if addr == virtio_mmio_device_id
      then ok 0
      else if addr == virtio_mmio_vendor_id
      then ok virt_vendor
      else if addr == virtio_mmio_device_features
      then undefined
      else if addr == virtio_mmio_queue_num_max
      then ok virtqueue_max_size
      else if addr == virtio_mmio_queue_pfn
      then undefined
      else if addr == virtio_mmio_interrupt_status
      then undefined
      else if addr == virtio_mmio_status
      then undefined
      else panicked
    else panicked
virtio_mmio_read features (some vdev) addr size =
    if leb virtio_mmio_config addr
    then (if size == 1
        then or_undefined (get_elem? vdev.config (addr - virtio_mmio_config))
        else panicked)
    else if size == 4
    then if addr == virtio_mmio_magic_value
      then ok virt_magic
      else if addr == virtio_mmio_version
      then ok virt_version_legacy
      else if addr == virtio_mmio_device_id
      then ok vdev.id
      else if addr == virtio_mmio_vendor_id
      then ok virt_vendor
      else if addr == virtio_mmio_device_features
      then ok (if vdev.host_features_sel then 0 else features)
      else if addr == virtio_mmio_queue_num_max
      then ok virtqueue_max_size
      else if addr == virtio_mmio_queue_pfn
      then ok (vdev.vq.vring.desc / 2 ^ vdev.guest_page_shift)
      else if addr == virtio_mmio_interrupt_status
      then ok vdev.isr
      else if addr == virtio_mmio_status
      then ok vdev.status
      else panicked
    else panicked

-- A change of the queue's ring.
abbrev pub with_vring : VirtioDev → Vring → VirtioDev
with_vring vdev vring = record vdev { vq = record vdev.vq { vring = vring } }

abbrev page_shift_of : ℕ → ℕ
page_shift_of value = if ltb 31 (ctz32 (value % 2 ^ 32)) then 0 else ctz32 (value % 2 ^ 32)

-- The result is the device, and whether the loop of VIRTIO_MMIO_QUEUE_NOTIFY begins, whose rounds are
-- steps of VirtioBlk/Steps.
unfoldable pub write_register : VirtioDev → ℕ → ℕ → Outcome (VirtioDev × Bool)
unfolding ctz_from
write_register vdev addr value =
    let vring = vdev.vq.vring in
    if addr == virtio_mmio_device_features_sel
    then ok (record vdev { host_features_sel = not (value == 0) }, false)
    else if addr == virtio_mmio_driver_features
    then ok
        ((if vdev.guest_features_sel then vdev else record vdev { guest_features = value }), false)
    else if addr == virtio_mmio_driver_features_sel
    then ok (record vdev { guest_features_sel = not (value == 0) }, false)
    else if addr == virtio_mmio_guest_page_size
    then ok (record vdev { guest_page_shift = page_shift_of value }, false)
    else if addr == virtio_mmio_queue_sel
    then ok
        ((if ltb value virtio_queue_max then record vdev { queue_sel = value } else vdev), false)
    else if addr == virtio_mmio_queue_pfn
    then (if value == 0
        then ok (with_vring vdev (record vring { desc = 0 }), false)
        else map_outcome (λ r. (with_vring vdev r, false))
            (vring_init vring value vdev.guest_page_shift))
    else if addr == virtio_mmio_queue_num
    then ok (with_vring vdev (record vring { num = value % 2 ^ 32 }), false)
    else if addr == virtio_mmio_queue_align
    then ok (with_vring vdev (record vring { align = value % 2 ^ 32 }), false)
    else if addr == virtio_mmio_queue_notify
    then ok (vdev, true)
    else if addr == virtio_mmio_interrupt_ack
    then ok (record vdev { isr = bit_and vdev.isr (255 - value % 256) }, false)
    else if addr == virtio_mmio_status
    then ok (record vdev { status = value % 256 }, false)
    else panicked

-- The registers whose write reaches through the pointer to the backend.
abbrev is_register : ℕ → ℕ → Bool
is_register addr value =
    addr == virtio_mmio_device_features_sel
    || addr == virtio_mmio_driver_features
    || addr == virtio_mmio_driver_features_sel
    || addr == virtio_mmio_guest_page_size
    || (addr == virtio_mmio_queue_sel && ltb value virtio_queue_max)
    || addr == virtio_mmio_queue_pfn
    || addr == virtio_mmio_queue_num
    || addr == virtio_mmio_queue_align
    || addr == virtio_mmio_queue_notify
    || addr == virtio_mmio_interrupt_ack
    || addr == virtio_mmio_status

unfoldable pub virtio_mmio_write : Option VirtioDev → ℕ → ℕ → ℕ → Outcome (Option VirtioDev × Bool)
unfolding write_register
virtio_mmio_write none addr value size =
    if size == 4
    then if is_register addr value
      then undefined
      else if addr == virtio_mmio_queue_sel
      then ok (none, false)
      else panicked
    else panicked
virtio_mmio_write (some vdev) addr value size =
    if size == 4
    then map_outcome (λ (v, notified). (some v, notified)) (write_register vdev addr value)
    else panicked
