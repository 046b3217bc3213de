-- ===== src/VirtioBlk/Steps.antt =====
-- The two threads of a disk: the processor's, which pops requests in the loop of virtio_mmio_write and
-- hands them over in virtio_blk_handle_request, and `_routine`, which takes and carries them out.
use xemu.Base.{
  ℕ, Bool, true, false, ◌≡◌, refl, ap, ◌∙◌, List, [], ◌∷◌, ◌++◌, Option, none, some, ok,
}
use xemu.Virtio.{Vqueue, VqRequest, VirtioDev, Memory}
use xemu.Virtio.Queue.{vqueue_pop}
use xemu.VirtioMmio.{virtio_mmio_write}
use xemu.VirtioBlk.{VirtioBlk, do_request}

-- `notified` holds in the loop of VIRTIO_MMIO_QUEUE_NOTIFY. `held` is the request that the loop has
-- popped and that is not yet handed over, `slot` the field `_req`, and `working` the request of
-- `_routine`. The requests that were popped and those that are done are kept, the last one first.
pub record Engine (S : Type 0) : Type 0 where
  pub machine : S
  pub blk : VirtioBlk
  pub notified : Bool
  pub held : Option VqRequest
  pub slot : Option VqRequest
  pub working : Option VqRequest
  pub popped : List VqRequest
  pub completed : List VqRequest

abbrev pub with_vq : VirtioBlk → Vqueue → VirtioBlk
with_vq blk vq = record blk { vdev = record blk.vdev { vq = vq } }

module _ {S : Type 0} (mem : Memory S) where
  -- The steps are taken as atomic. The guest changes the machine, but not the device, in any way.
  pub data Step : Engine S → Engine S → Type 0 where
    guest : (e : Engine S) (machine : S) → Step e (record e { machine = machine })
    register :
        (e : Engine S) (addr value size : ℕ) (vdev : VirtioDev) (notified : Bool)
        → e.notified ≡ false
        → virtio_mmio_write (some e.blk.vdev) addr value size ≡ ok (some vdev, notified)
        → Step e (record e { blk = record e.blk { vdev = vdev }; notified = notified })
    pop :
        (e : Engine S) (req : VqRequest) (vq : Vqueue) (machine : S)
        → e.notified ≡ true
        → e.held ≡ none
        → vqueue_pop mem e.blk.vdev e.blk.vdev.vq e.machine ≡ ok ((some req, vq), machine)
        → Step e (record e {
          machine = machine;
          blk = with_vq e.blk vq;
          held = some req;
          popped = req ∷ e.popped;
        })
    end_loop :
        (e : Engine S) (vq : Vqueue) (machine : S)
        → e.notified ≡ true
        → e.held ≡ none
        → vqueue_pop mem e.blk.vdev e.blk.vdev.vq e.machine ≡ ok ((none, vq), machine)
        → Step e (record e { machine = machine; blk = with_vq e.blk vq; notified = false })
    -- `virtio_blk_handle_request` goes on when `_req` is NULL.
    hand_over :
        (e : Engine S) (req : VqRequest)
        → e.held ≡ some req
        → e.slot ≡ none
        → Step e (record e { held = none; slot = some req })
    take :
        (e : Engine S) (req : VqRequest)
        → e.slot ≡ some req
        → e.working ≡ none
        → Step e (record e { slot = none; working = some req })
    work :
        (e : Engine S) (req : VqRequest) (blk : VirtioBlk) (machine : S)
        → e.working ≡ some req
        → do_request mem e.blk req e.machine ≡ ok (blk, machine)
        → Step e (record e {
          machine = machine;
          blk = blk;
          working = none;
          completed = req ∷ e.completed;
        })

  pub data Reachable : Engine S → Engine S → Type 0 where
    here : (e : Engine S) → Reachable e e
    after : (e f g : Engine S) → Reachable e f → Step f g → Reachable e g

-- The requests on their way, the last one first.
abbrev pub listed : Option VqRequest → List VqRequest
listed none = []
listed (some req) = req ∷ []

abbrev pub pending : {S : Type 0} → Engine S → List VqRequest
pending e = listed e.held ++ (listed e.slot ++ (listed e.working ++ e.completed))

-- The device at rest: nothing was popped.
abbrev pub idle : {S : Type 0} → S → VirtioBlk → Engine S
idle machine blk = record {
  machine = machine;
  blk = blk;
  notified = false;
  held = none;
  slot = none;
  working = none;
  popped = [];
  completed = [];
}

Step-pending :
    {S : Type 0} (mem : Memory S) (e f : Engine S)
    → Step mem e f
    → e.popped ≡ pending e
    → f.popped ≡ pending f
Step-pending mem _ _ (guest e machine) h = h
Step-pending mem _ _ (register e addr value size vdev notified off written) h = h
Step-pending mem _ _ (pop e req vq machine on free got) h = ap (λ rs. req ∷ rs) (h ∙ rw free refl)
Step-pending mem _ _ (end_loop e vq machine on free got) h = h
Step-pending mem _ _ (hand_over e req held free) h = h ∙ rw (held, free) refl
Step-pending mem _ _ (take e req slot free) h = h ∙ rw (slot, free) refl
Step-pending mem _ _ (work e req blk machine working did) h = h ∙ rw working refl

-- However the steps of the two threads and of the guest follow each other, the requests that the disk
-- has carried out are those that were popped from the queue, in the same order, none twice and none
-- left out, but for at most three at the end: the one held by the loop, the one in the field _req, and
-- the one that _routine works on.
pub Reachable-pending :
    {S : Type 0} (mem : Memory S) (machine : S) (blk : VirtioBlk) (e : Engine S)
    → Reachable mem (idle machine blk) e
    → e.popped ≡ pending e
Reachable-pending mem machine blk _ (here _) = refl
Reachable-pending mem machine blk _ (after _ f g before step) =
    Step-pending mem f g step (Reachable-pending mem machine blk f before)
