-- ===== src/Virtio/Queue.antt =====
-- virtio.c: the queue between the driver and a device.
use xemu.Base.{
  ℕ, zero, suc, ◌+◌, ◌-◌, ◌*◌, ◌/◌, ◌%◌, ◌^◌, bit_and, Bool, true, false, not, ◌||◌, leb, ◌==◌,
  if◌then◌else◌, List, [], ◌∷◌, Option, none, some, Outcome, ok, panicked, undefined, M, lift, pure,
  ◌>>=◌, ◌>>◌,
}
use xemu.Space.{no_params, as_read_blob, from_bytes, drop}
use xemu.Virtio.{VringDesc, Vring, Vqueue, Iovec, VqRequest, VirtioDev, Memory}
use xemu.Virtio.Number.{
  vring_desc_f_next, vring_desc_f_write, vring_desc_f_indirect, virtio_ring_f_event_idx,
  virtqueue_max_size,
}

abbrev pub has_flag : ℕ → ℕ → Bool
has_flag flags flag = not (bit_and flags flag == 0)

-- The fields of `vring_desc_t` in its 16 bytes.
unfoldable pub desc_of : List ℕ → VringDesc
unfolding from_bytes drop
desc_of bytes = record {
  addr = from_bytes 8 bytes;
  len = from_bytes 4 (drop 8 bytes);
  flags = from_bytes 2 (drop 12 bytes);
  next = from_bytes 2 (drop 14 bytes);
}

-- `vring_init`.
abbrev pub align_up : ℕ → ℕ → ℕ
align_up n m = (n + m - 1) % 2 ^ 64 / m * m

unfoldable pub vring_init : Vring → ℕ → ℕ → Outcome Vring
vring_init vring pfn page_shift =
    let desc = pfn * 2 ^ page_shift % 2 ^ 64 in
    let avail = (desc + vring.num * 16) % 2 ^ 64 in
    if vring.num == 0 || desc == 0 || vring.align == 0
    then panicked
    else ok (record vring {
      desc = desc;
      avail = avail;
      used = align_up ((avail + (4 + 2 * vring.num)) % 2 ^ 64) vring.align;
    })

module _ {S : Type 0} (mem : Memory S) where
  unfoldable pub vring_avail_idx : Vqueue → M S ℕ
  vring_avail_idx vq = do
    v ← mem.read_nommu ((vq.vring.avail + 2) % 2 ^ 64) 2 no_params
    pure (v % 2 ^ 16)

  unfoldable pub virtio_queue_empty : Vqueue → M S Bool
  virtio_queue_empty vq = do idx ← vring_avail_idx vq; pure (idx == vq.last_avail_idx)

  unfoldable pub vring_avail_ring : Vqueue → ℕ → M S ℕ
  vring_avail_ring vq i = do
    v ← mem.read_nommu ((vq.vring.avail + (4 + 2 * i)) % 2 ^ 64) 2 no_params
    pure (v % 2 ^ 16)

  -- `vqueue_get_head`: a division by zero is undefined.
  unfoldable pub vqueue_get_head : Vqueue → ℕ → M S ℕ
  vqueue_get_head vq idx = if vq.vring.num == 0 then lift undefined else (do
    head ← vring_avail_ring vq (idx % vq.vring.num)
    if leb vq.vring.num head then lift panicked else pure head)

  unfoldable pub vring_desc_read : Vqueue → ℕ → M S VringDesc
  vring_desc_read vq idx = do
    bytes ← as_read_blob mem.read_nommu ((vq.vring.desc + idx * 16) % 2 ^ 64) 16
    pure (desc_of bytes)

  -- The vector of a descriptor, with IO_VEC_F_WRITE or IO_VEC_F_READ.
  abbrev pub iovec_of : VringDesc → Iovec
  iovec_of desc = record {
    base = desc.addr;
    len = desc.len;
    flags = if has_flag desc.flags vring_desc_f_write then 0x2 else 0x1;
  }

  -- The loop of `vring_desc_read_indirect`, for the array `iov` with `room` entries left, and the sum
  -- `in_len`. A chain that is longer than the array leaves it.
  unfoldable pub read_chain : ℕ → ℕ → ℕ → ℕ → M S (ℕ × List Iovec)
  read_chain zero addr offset in_len = do
    _ ← as_read_blob mem.read_nommu ((addr + offset) % 2 ^ 64) 16
    lift undefined
  read_chain (suc room) addr offset in_len = do
    bytes ← as_read_blob mem.read_nommu ((addr + offset) % 2 ^ 64) 16
    let desc = desc_of bytes
    let total =
        if has_flag desc.flags vring_desc_f_write then (in_len + desc.len) % 2 ^ 32 else in_len
    (sum, rest) ← elim (has_flag desc.flags vring_desc_f_next) [
      | false ↦ pure (total, [])
      | true ↦ read_chain room addr (desc.next * 16) total
    ]
    pure (sum, iovec_of desc ∷ rest)

  unfoldable pub vring_desc_read_indirect : ℕ → ℕ → ℕ → M S VqRequest
  unfolding read_chain
  vring_desc_read_indirect head addr len =
      if len == 0 || not (len % 16 == 0) then lift panicked else (do
        (in_len, iov) ← read_chain virtqueue_max_size addr 0 0
        pure (record { index = head; in_len = in_len; iov = iov }))

  unfoldable pub vring_set_avail_event : Vqueue → ℕ → M S (Unit {0})
  vring_set_avail_event vq val = do
    _ ← mem.write_nommu ((vq.vring.used + (4 + 8 * vq.vring.num)) % 2 ^ 64) 2 val no_params
    pure tt

  abbrev pub read_request : Vqueue → ℕ → VringDesc → M S (Option VqRequest × Vqueue)
  read_request vq head desc = do
    req ← vring_desc_read_indirect head desc.addr desc.len
    pure (some req, vq)

  -- The rest of `vqueue_pop` for a queue that is not empty.
  unfoldable pub pop_head : VirtioDev → Vqueue → M S (Option VqRequest × Vqueue)
  unfolding vqueue_get_head vring_set_avail_event vring_desc_read vring_desc_read_indirect
  pop_head vdev vq = do
    let next = record vq { last_avail_idx = (vq.last_avail_idx + 1) % 2 ^ 16 }
    head ← vqueue_get_head next vq.last_avail_idx
    if has_flag vdev.guest_features virtio_ring_f_event_idx
        then vring_set_avail_event next next.last_avail_idx
        else pure tt
    desc ← vring_desc_read next head
    if has_flag desc.flags vring_desc_f_indirect then read_request next head desc else lift panicked

  -- `vqueue_pop`: the request, or none for NULL, and the queue with its index moved on.
  unfoldable pub vqueue_pop : VirtioDev → Vqueue → M S (Option VqRequest × Vqueue)
  unfolding virtio_queue_empty pop_head
  vqueue_pop vdev vq = do
    empty ← virtio_queue_empty vq
    if empty then pure (none, vq) else pop_head vdev vq

  unfoldable pub vring_used_idx_set : Vqueue → ℕ → M S (Unit {0})
  vring_used_idx_set vq val = do
    _ ← mem.write_nommu ((vq.vring.used + 2) % 2 ^ 64) 2 val no_params
    pure tt

  unfoldable pub vring_used_write : Vqueue → VqRequest → M S Vqueue
  unfolding vring_used_idx_set
  vring_used_write vq req = if vq.vring.num == 0 then lift undefined else (do
    let pa = (vq.vring.used + (4 + 8 * (vq.used_idx % vq.vring.num))) % 2 ^ 64
    _ ← mem.write_nommu pa 4 req.index no_params
    _ ← mem.write_nommu ((pa + 4) % 2 ^ 64) 4 req.in_len no_params
    let next = record vq { used_idx = (vq.used_idx + 1) % 2 ^ 16 }
    vring_used_idx_set next next.used_idx
    pure next)
