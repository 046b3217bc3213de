-- ===== src/VirtioBlk.antt =====
-- virtio_blk.c: the disk. The thread `_routine` and the two threads' hand-over of requests are the
-- steps of VirtioBlk/Steps.
pub mod Number
pub mod Scatter
pub mod Gather
pub mod Steps
pub mod Advance
pub mod Indices
pub mod Disk
pub mod Kept
use xemu.Base.{
  ℕ, zero, suc, ◌+◌, ◌-◌, ◌*◌, ◌/◌, ◌%◌, ◌^◌, bit_and, bit_or, Bool, true, false, not, ◌&&◌, ◌||◌,
  ltb, leb, ◌==◌, if◌then◌else◌, List, [], ◌∷◌, ◌++◌, length, replicate, get_elem?, Option, none,
  some, Outcome, ok, panicked, undefined, or_undefined, M, lift, pure, ◌>>=◌, ◌>>◌,
}
use xemu.Space.{Params, no_params, as_read_blob, as_write_blob, to_bytes, from_bytes, drop}
use xemu.Virtio.{Iovec, VqRequest, Vring, Vqueue, VirtioDev, Memory}
use xemu.Virtio.Queue.{vring_used_write, has_flag}
use xemu.VirtioBlk.Number.{
  virtio_blk_f_seg_max, virtio_blk_f_geometry, virtio_blk_f_blk_size, virtio_blk_f_scsi,
  virtio_blk_f_flush, virtio_blk_f_topology, virtio_blk_f_config_wce, virtio_blk_f_discard,
  virtio_blk_f_write_zeroes, virtio_blk_s_ok, virtio_blk_t_in, virtio_blk_t_out, virtio_blk_t_flush,
  virtio_blk_queue_size, virtio_blk_block_size,
}
use xemu.Virtio.Number.{
  virtio_id_block, virtio_f_notify_on_empty, virtio_f_any_layout, virtio_ring_f_indirect_desc,
  virtio_ring_f_event_idx, virtio_f_version_1,
}

-- The bytes of the file `filename`.
pub record DiskFile : Type 0 where
  pub contents : ℕ → ℕ
  pub size : ℕ

-- The request that waits is in VirtioBlk/Steps. A file that cannot be opened is none.
pub record VirtioBlk : Type 0 where
  pub vdev : VirtioDev
  pub file : Option DiskFile

-- `virtio_blk_init_config`: the 60 bytes of `virtio_blk_config_t` in the 256 of `config`.
unfoldable pub virtio_blk_init_config : ℕ → List ℕ
virtio_blk_init_config size =
    to_bytes 8 (size / 2 ^ 9)
    ++ to_bytes 4 0
    ++ to_bytes 4 (virtio_blk_queue_size - 2)
    ++ to_bytes 4 0
    ++ to_bytes 4 virtio_blk_block_size
    ++ to_bytes 8 0
    ++ to_bytes 1 1
    ++ to_bytes 3 0
    ++ to_bytes 4 0x3FFFFF
    ++ to_bytes 4 1
    ++ to_bytes 4 1
    ++ to_bytes 4 0x3FFFFF
    ++ to_bytes 4 0
    ++ to_bytes 4 0
    ++ replicate 196 0

-- VIRTIO_COMMON_FEATURES and VIRTIO_BLK_FEATURES.
abbrev common_features : ℕ
common_features =
    bit_or (bit_or virtio_f_notify_on_empty virtio_f_any_layout)
      (bit_or virtio_ring_f_indirect_desc virtio_ring_f_event_idx)

abbrev blk_features : ℕ
blk_features =
    bit_or
      (bit_or (bit_or virtio_blk_f_seg_max virtio_blk_f_geometry)
        (bit_or virtio_blk_f_blk_size virtio_blk_f_flush))
      (bit_or (bit_or virtio_blk_f_topology virtio_blk_f_config_wce)
        (bit_or virtio_blk_f_discard virtio_blk_f_write_zeroes))

unfoldable pub virtio_blk_get_features : ℕ
virtio_blk_get_features =
    bit_or
      (if bit_and common_features virtio_f_version_1 == 0
        then bit_or (bit_and common_features (2 ^ 32 - 1 - virtio_f_any_layout)) virtio_blk_f_scsi
        else common_features)
      blk_features

-- `virtio_blk_init`, for a file whose size can be read.
unfoldable pub virtio_blk_init : DiskFile → ℕ → VirtioBlk
virtio_blk_init file irq_num = record {
  vdev = record {
    id = virtio_id_block;
    irq_num = irq_num;
    isr = 0;
    host_features_sel = false;
    guest_features = 0;
    guest_features_sel = false;
    guest_page_shift = 0;
    queue_sel = 0;
    status = 0;
    vq = record {
      vring = record { num = 0; align = 0; desc = 0; avail = 0; used = 0 };
      last_avail_idx = 0;
      used_idx = 0;
    };
    config = virtio_blk_init_config file.size;
  };
  file = some file;
}

-- `fseek(fp, (long)sector * 512, SEEK_SET)`, with the position that it sets.
unfoldable pub seek : ℕ → Outcome ℕ
seek sector =
    let offset = sector * 512 % 2 ^ 64 in if leb (2 ^ 63) offset then panicked else ok offset

-- `fread` of `n` bytes at a position: a read that comes short panics.
unfoldable pub bytes_at : (ℕ → ℕ) → ℕ → ℕ → List ℕ
bytes_at contents pos zero = []
bytes_at contents pos (suc n) = contents pos % 256 ∷ bytes_at contents (pos + 1) n

unfoldable pub disk_read : DiskFile → ℕ → ℕ → Outcome (List ℕ)
unfolding bytes_at
disk_read file pos n =
    if n == 0 || leb (pos + n) file.size then ok (bytes_at file.contents pos n) else panicked

-- `fwrite` at a position, in "r+b": it overwrites, and makes the file longer at its end; a gap before
-- the position is filled with zeros.
abbrev pub overwritten : DiskFile → ℕ → List ℕ → ℕ → ℕ
overwritten file pos bytes j =
    if leb pos j && ltb j (pos + length bytes)
    then elim (get_elem? bytes (j - pos)) [ some byte ↦ byte % 256 | none ↦ 0 ]
    else if ltb j file.size
    then file.contents j
    else 0

unfoldable pub disk_write : DiskFile → ℕ → List ℕ → DiskFile
disk_write file pos bytes = if length bytes == 0 then file else record {
  contents = overwritten file pos bytes;
  size = if ltb file.size (pos + length bytes) then pos + length bytes else file.size;
}

-- The vectors between the first and the last.
abbrev pub without_last : List Iovec → List Iovec
without_last [] = []
without_last (v ∷ []) = []
without_last (v ∷ w ∷ vs) = v ∷ without_last (w ∷ vs)

abbrev pub middle : List Iovec → List Iovec
middle [] = []
middle (v ∷ vs) = without_last vs

module _ {S : Type 0} (mem : Memory S) where
  -- `_complete`.
  unfoldable pub complete : VirtioBlk → VqRequest → M S VirtioBlk
  complete blk req = do
    status ← lift (or_undefined (get_elem? req.iov (length req.iov - 1)))
    _ ← mem.write_nommu status.base 1 virtio_blk_s_ok no_params
    vq ← vring_used_write mem blk.vdev.vq req
    mem.signal blk.vdev.irq_num
    pure (record blk { vdev = record blk.vdev { vq = vq; isr = bit_or blk.vdev.isr 0x1 } })

  -- The loop of `_handle_read`, from a position of the file.
  unfoldable pub read_segments : DiskFile → ℕ → List Iovec → M S (Unit {0})
  read_segments file pos [] = pure tt
  read_segments file pos (v ∷ vs) = do
    bytes ← lift (disk_read file pos v.len)
    as_write_blob mem.write_nommu v.base bytes
    read_segments file (pos + v.len) vs

  unfoldable pub handle_read : VirtioBlk → VqRequest → ℕ → M S VirtioBlk
  unfolding read_segments complete
  handle_read blk req sector = if ltb (length req.iov) 3 then lift panicked else elim blk.file [
    | none ↦ lift panicked
    | some file ↦ do
      pos ← lift (seek sector)
      read_segments file pos (middle req.iov)
      complete blk req
  ]

  unfoldable pub handle_write : VirtioBlk → VqRequest → ℕ → M S VirtioBlk
  unfolding complete
  handle_write blk req sector =
      if length req.iov == 3
      then (do
        v ← lift (or_undefined (get_elem? req.iov 1))
        bytes ← as_read_blob mem.read_nommu v.base v.len
        file ← lift (elim blk.file [ none ↦ panicked | some file ↦ ok file ])
        pos ← lift (seek sector)
        complete (record blk { file = some (disk_write file pos bytes) }) req)
      else lift panicked

  unfoldable pub handle_flush : VirtioBlk → VqRequest → M S VirtioBlk
  unfolding complete
  handle_flush blk req = if length req.iov == 2 then complete blk req else lift panicked

  -- The header of a request: `type` in its first four bytes, `sector` in the last eight.
  abbrev pub request_of : VirtioBlk → VqRequest → ℕ → ℕ → M S VirtioBlk
  request_of blk req kind sector =
      if bit_and kind 0x7FFFFFFE == virtio_blk_t_in
      then if has_flag kind virtio_blk_t_out
        then handle_write blk req sector
        else handle_read blk req sector
      else if bit_and kind 0x7FFFFFFE == virtio_blk_t_flush
      then handle_flush blk req
      else lift panicked

  -- `_do_request`.
  unfoldable pub do_request : VirtioBlk → VqRequest → M S VirtioBlk
  unfolding handle_read handle_write handle_flush
  do_request blk req = do
    v ← lift (or_undefined (get_elem? req.iov 0))
    if v.len == 16 && has_flag v.flags 0x1 then pure tt else lift panicked
    header ← as_read_blob mem.read_nommu v.base 16
    request_of blk req (from_bytes 4 header) (from_bytes 8 (drop 8 header))
