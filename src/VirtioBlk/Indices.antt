-- ===== src/VirtioBlk/Indices.antt =====
-- The indices of the queue count the requests.
use xemu.Base.{
  ℕ, ◌+◌, ◌%◌, ◌^◌, ◌≤◌, ◌≡◌, ap, ◌∙◌, arith, ◌++◌, length, length-append, Option, none, some,
}
use xemu.Virtio.{VqRequest, Memory}
use xemu.VirtioBlk.{VirtioBlk}
use xemu.VirtioBlk.Steps.{
  Engine, Step, guest, register, pop, end_loop, hand_over, take, work, Reachable, here, after,
  listed, pending, idle, Reachable-pending,
}
use xemu.VirtioBlk.Advance.{vqueue_pop-Always, do_request-Always, virtio_mmio_write-SameIndices}

-- The device's index of the available ring counts the requests that were popped, that of the used
-- ring those that are done.
pub record IsCounted {S : Type 0} (e : Engine S) : Type 0 where
  pub available : e.blk.vdev.vq.last_avail_idx ≡ length e.popped % 2 ^ 16
  pub used : e.blk.vdev.vq.used_idx ≡ length e.completed % 2 ^ 16

Step-IsCounted :
    {S : Type 0} (mem : Memory S) (e f : Engine S) → Step mem e f → IsCounted e → IsCounted f
Step-IsCounted mem _ _ (guest e machine) h = record { available = h.available; used = h.used }
Step-IsCounted mem _ _ (register e addr value size vdev notified off written) h =
    let (u, a) = virtio_mmio_write-SameIndices e.blk.vdev vdev addr value size notified written in
    record { available = a ∙ h.available; used = u ∙ h.used }
Step-IsCounted mem _ _ (pop e req vq machine on free got) h =
    let moved =
      (vqueue_pop-Always mem e.blk.vdev e.blk.vdev.vq).always e.machine (some req, vq) machine
        got in
    record {
      available = ap (λ v. v.last_avail_idx) moved ∙ omega (arith, h.available);
      used = ap (λ v. v.used_idx) moved ∙ h.used;
    }
Step-IsCounted mem _ _ (end_loop e vq machine on free got) h =
    let moved =
      (vqueue_pop-Always mem e.blk.vdev e.blk.vdev.vq).always e.machine (none, vq) machine got in
    record {
      available = ap (λ v. v.last_avail_idx) moved ∙ h.available;
      used = ap (λ v. v.used_idx) moved ∙ h.used;
    }
Step-IsCounted mem _ _ (hand_over e req held free) h = record {
  available = h.available;
  used = h.used;
}
Step-IsCounted mem _ _ (take e req slot free) h = record { available = h.available; used = h.used }
Step-IsCounted mem _ _ (work e req blk machine working did) h =
    let (u, a) = (do_request-Always mem e.blk req).always e.machine blk machine did in
    record { available = a ∙ h.available; used = u ∙ omega (arith, h.used) }

Reachable-IsCounted :
    {S : Type 0} (mem : Memory S) (d e : Engine S) → Reachable mem d e → IsCounted d → IsCounted e
Reachable-IsCounted mem d _ (here _) h = h
Reachable-IsCounted mem d _ (after _ f g before step) h =
    Step-IsCounted mem f g step (Reachable-IsCounted mem d f before h)

-- How many requests were popped and are not done.
abbrev pub in_flight : {S : Type 0} → Engine S → ℕ
in_flight e = length (listed e.held) + (length (listed e.slot) + length (listed e.working))

length-listed : (r : Option VqRequest) → length (listed r) ≤ 1
length-listed none = omega arith
length-listed (some req) = omega arith

length-pending : {S : Type 0} (e : Engine S) → length (pending e) ≡ in_flight e + length e.completed
length-pending e = omega (
  arith,
  length-append (listed e.held) (listed e.slot ++ (listed e.working ++ e.completed)),
  length-append (listed e.slot) (listed e.working ++ e.completed),
  length-append (listed e.working) e.completed,
)

-- A disk that starts with both indices 0: whatever the two threads and the guest do, the index of
-- the used ring and the number of requests under way, of which there are at most three, make the
-- index of the available ring, as 16-bit numbers.
pub Reachable-indices :
    {S : Type 0} (mem : Memory S) (machine : S) (blk : VirtioBlk) (e : Engine S)
    → blk.vdev.vq.last_avail_idx ≡ 0
    → blk.vdev.vq.used_idx ≡ 0
    → Reachable mem (idle machine blk) e
    → ((e.blk.vdev.vq.used_idx + in_flight e) % 2 ^ 16 ≡ e.blk.vdev.vq.last_avail_idx)
      × (in_flight e ≤ 3)
Reachable-indices mem machine blk e zero_available zero_used reached =
    let c =
      Reachable-IsCounted mem (idle machine blk) e reached
        (record { available = zero_available ∙ omega arith; used = zero_used ∙ omega arith }) in
    let whole : length e.popped ≡ in_flight e + length e.completed =
      ap length (Reachable-pending mem machine blk e reached) ∙ length-pending e in
    (
      omega (arith, c.available, c.used, whole),
      omega (arith, length-listed e.held, length-listed e.slot, length-listed e.working),
    )
