-- ===== src/VirtioBlk/Advance.antt =====
-- What a pop, a request and a register do to the indices of the queue.
use xemu.Base.{
  ℕ, ◌+◌, ◌%◌, ◌^◌, Bool, true, false, ◌==◌, if◌then◌else◌, ◌≡◌, refl, ap, subst, arith, Option,
  none, some, Outcome, ok, panicked, undefined, M, lift, map_outcome, ◌>>=◌, ◌>>◌, Always-if,
  Always-panicked, >>=-eq-ok, Always, always_rules,
}
use xemu.Virtio.{Vqueue, VqRequest, VirtioDev, Memory}
use xemu.Virtio.Queue.{pop_head, vqueue_pop, vring_used_write}
use xemu.VirtioMmio.{virtio_mmio_write, write_register}
use xemu.VirtioBlk.{
  DiskFile, seek, read_segments, middle, VirtioBlk, do_request, complete, handle_read, handle_write,
  handle_flush, request_of,
}

-- How a queue's index moves on.
abbrev pub next_index : ℕ → ℕ
next_index i = (i + 1) % 2 ^ 16

abbrev pub IsPopped : Vqueue → Option VqRequest × Vqueue → Type 0
IsPopped vq (r, vq') =
    vq'
    ≡ elim r [ none ↦ vq | some _ ↦ record vq { last_avail_idx = next_index vq.last_avail_idx } ]

abbrev IsUsed : Vqueue → Vqueue → Type 0
IsUsed vq vq' = vq' ≡ record vq { used_idx = next_index vq.used_idx }

-- What carrying out a request leaves of the indices.
abbrev pub IsDone : VirtioBlk → VirtioBlk → Type 0
IsDone blk blk' =
    (blk'.vdev.vq.used_idx ≡ next_index blk.vdev.vq.used_idx)
    × (blk'.vdev.vq.last_avail_idx ≡ blk.vdev.vq.last_avail_idx)

module _ {S : Type 0} (mem : Memory S) where
  pop_head-Always :
      (vdev : VirtioDev) (vq : Vqueue) → Always {S = S} (IsPopped vq) (pop_head mem vdev vq)
  unfolding pop_head
  pop_head-Always vdev vq = search always_rules depth 14

  pub vqueue_pop-Always :
      (vdev : VirtioDev) (vq : Vqueue) → Always {S = S} (IsPopped vq) (vqueue_pop mem vdev vq)
  unfolding vqueue_pop
  vqueue_pop-Always vdev vq = search (always_rules, pop_head-Always) depth 14

  vring_used_write-Always :
      (vq : Vqueue) (req : VqRequest) → Always {S = S} (IsUsed vq) (vring_used_write mem vq req)
  unfolding vring_used_write
  vring_used_write-Always vq req = search always_rules depth 14

  Always-used :
      {A : Type 0} (P : A → Type 0) (vq : Vqueue) (req : VqRequest) (f : Vqueue → M S A)
      → ((vq' : Vqueue) → IsUsed vq vq' → Always P (f vq'))
      → Always P (vring_used_write mem vq req >>= f)
  Always-used P vq req f all = record {
    always = λ s a s' e.
        let (vq', t, ran, rest) = >>=-eq-ok (vring_used_write mem vq req) f s e in
        (all vq' ((vring_used_write-Always vq req).always s vq' t ran)).always t a s' rest;
  }

  IsDone-used :
      (blk : VirtioBlk) (vq : Vqueue) (isr : ℕ)
      → IsUsed blk.vdev.vq vq
      → IsDone blk (record blk { vdev = record blk.vdev { vq = vq; isr = isr } })
  IsDone-used blk vq isr h = (ap (λ v. v.used_idx) h, ap (λ v. v.last_avail_idx) h)

  complete-Always :
      (blk : VirtioBlk) (req : VqRequest) → Always {S = S} (IsDone blk) (complete mem blk req)
  unfolding complete
  complete-Always blk req = search (Always-used, IsDone-used, always_rules) depth 16

  complete_file-Always :
      (blk : VirtioBlk) (file : Option DiskFile) (req : VqRequest)
      → Always {S = S} (IsDone blk) (complete mem (record blk { file = file }) req)
  complete_file-Always blk file req = complete-Always (record blk { file = file }) req

  handle_flush-Always :
      (blk : VirtioBlk) (req : VqRequest) → Always {S = S} (IsDone blk) (handle_flush mem blk req)
  unfolding handle_flush
  handle_flush-Always blk req = search (complete-Always, always_rules) depth 16

  handle_write-Always :
      (blk : VirtioBlk) (req : VqRequest) (sector : ℕ)
      → Always {S = S} (IsDone blk) (handle_write mem blk req sector)
  unfolding handle_write
  handle_write-Always blk req sector = search (complete_file-Always, always_rules) depth 20

  handle_read-Always :
      (blk : VirtioBlk) (req : VqRequest) (sector : ℕ)
      → Always {S = S} (IsDone blk) (handle_read mem blk req sector)
  unfolding handle_read
  handle_read-Always blk req sector = Always-if _ _ _ _ (Always-panicked _) (by_file blk.file)
    where
      by_file :
          (o : Option DiskFile)
          → Always {S = S} (IsDone blk) (elim o [
            | none ↦ lift panicked
            | some file ↦ do
              pos ← lift (seek sector)
              read_segments mem file pos (middle req.iov)
              complete mem blk req
          ])
      by_file none = search always_rules
      by_file (some file) = search (complete-Always, always_rules) depth 16

  request_of-Always :
      (blk : VirtioBlk) (req : VqRequest) (kind sector : ℕ)
      → Always {S = S} (IsDone blk) (request_of mem blk req kind sector)
  request_of-Always blk req kind sector =
      search (handle_read-Always, handle_write-Always, handle_flush-Always, always_rules) depth 16

  pub do_request-Always :
      (blk : VirtioBlk) (req : VqRequest) → Always {S = S} (IsDone blk) (do_request mem blk req)
  unfolding do_request
  do_request-Always blk req = search (request_of-Always, always_rules) depth 16

abbrev pub SameIndices : VirtioDev → VirtioDev → Type 0
SameIndices v w = (w.vq.used_idx ≡ v.vq.used_idx) × (w.vq.last_avail_idx ≡ v.vq.last_avail_idx)

write_register-SameIndices :
    (v w : VirtioDev) (addr value : ℕ) (notified : Bool)
    → write_register v addr value ≡ ok (w, notified)
    → SameIndices v w
unfolding write_register
write_register-SameIndices v w addr value notified e = ground (arith, e)

pub virtio_mmio_write-SameIndices :
    (v w : VirtioDev) (addr value size : ℕ) (notified : Bool)
    → virtio_mmio_write (some v) addr value size ≡ ok (some w, notified)
    → SameIndices v w
unfolding virtio_mmio_write
virtio_mmio_write-SameIndices v w addr value size notified e = by_size (size == 4) e
  where
    by_outcome :
        (r : Outcome (VirtioDev × Bool))
        → write_register v addr value ≡ r
        → map_outcome {B = Option VirtioDev × Bool} (λ (x, n). (some x, n)) r
          ≡ ok (some w, notified)
        → SameIndices v w
    by_outcome (ok (x, n)) ran q =
        let same : x ≡ w = cc in
        subst (λ w. SameIndices v w) same (write_register-SameIndices v x addr value n ran)
    by_outcome panicked ran q = cc
    by_outcome undefined ran q = cc

    by_size :
        (b : Bool)
        → (if b
            then map_outcome {B = Option VirtioDev × Bool}
                (λ (x, n). (some x, n))
                (write_register v addr value)
            else panicked)
          ≡ ok (some w, notified)
        → SameIndices v w
    by_size true q = by_outcome (write_register v addr value) refl q
    by_size false q = cc
