-- ===== src/VirtioBlk/Number.antt =====
-- The constants of virtio_blk.c.
use xemu.Base.{ℕ}

abbrev pub virtio_blk_f_seg_max : ℕ
virtio_blk_f_seg_max = 0x4

abbrev pub virtio_blk_f_geometry : ℕ
virtio_blk_f_geometry = 0x10

abbrev pub virtio_blk_f_blk_size : ℕ
virtio_blk_f_blk_size = 0x40

abbrev pub virtio_blk_f_scsi : ℕ
virtio_blk_f_scsi = 0x80

abbrev pub virtio_blk_f_flush : ℕ
virtio_blk_f_flush = 0x200

abbrev pub virtio_blk_f_topology : ℕ
virtio_blk_f_topology = 0x400

abbrev pub virtio_blk_f_config_wce : ℕ
virtio_blk_f_config_wce = 0x800

abbrev pub virtio_blk_f_discard : ℕ
virtio_blk_f_discard = 0x2000

abbrev pub virtio_blk_f_write_zeroes : ℕ
virtio_blk_f_write_zeroes = 0x4000

abbrev pub virtio_blk_s_ok : ℕ
virtio_blk_s_ok = 0

abbrev pub virtio_blk_t_in : ℕ
virtio_blk_t_in = 0

abbrev pub virtio_blk_t_out : ℕ
virtio_blk_t_out = 1

abbrev pub virtio_blk_t_flush : ℕ
virtio_blk_t_flush = 4

abbrev pub virtio_blk_queue_size : ℕ
virtio_blk_queue_size = 256

abbrev pub virtio_blk_block_size : ℕ
virtio_blk_block_size = 512
