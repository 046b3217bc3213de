-- ===== src/Virtio.antt =====
-- virtio.h: the virtio devices and their queues, and the memory that they share with the driver.
pub mod Number
pub mod Queue
pub mod Layout
use xemu.Base.{ℕ, Bool, true, false, List, Option, none, some, Outcome, ok, panicked, undefined, M}
use xemu.Space.{Params}

-- A descriptor, of 16 bytes.
pub record VringDesc : Type 0 where
  pub addr : ℕ
  pub len : ℕ
  pub flags : ℕ
  pub next : ℕ

-- The field num_default is never used.
pub record Vring : Type 0 where
  pub num : ℕ
  pub align : ℕ
  pub desc : ℕ
  pub avail : ℕ
  pub used : ℕ

pub record Vqueue : Type 0 where
  pub vring : Vring
  pub last_avail_idx : ℕ
  pub used_idx : ℕ

-- `iovec_t` of util.h.
pub record Iovec : Type 0 where
  pub base : ℕ
  pub len : ℕ
  pub flags : ℕ

-- The field num is the length of `iov`.
pub record VqRequest : Type 0 where
  pub index : ℕ
  pub in_len : ℕ
  pub iov : List Iovec

-- `num_queues` and the callbacks for the configuration are never used.
pub record VirtioDev : Type 0 where
  pub id : ℕ
  pub irq_num : ℕ
  pub isr : ℕ
  pub host_features_sel : Bool
  pub guest_features : ℕ
  pub guest_features_sel : Bool
  pub guest_page_shift : ℕ
  pub queue_sel : ℕ
  pub status : ℕ
  pub vq : Vqueue
  pub config : List ℕ

-- What a device reaches of the machine: `as_read_nommu(NULL, ...)`, `as_write_nommu(NULL, ...)` and
-- `plic_signal`.
pub record Memory (S : Type 0) : Type 0 where
  pub read_nommu : ℕ → ℕ → Params → M S ℕ
  pub write_nommu : ℕ → ℕ → ℕ → Params → M S ℕ
  pub signal : ℕ → M S (Unit {0})
