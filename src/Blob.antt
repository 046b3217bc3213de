-- ===== src/Blob.antt =====
-- as_read_blob and as_write_blob of address_space.c over a stretch of plain memory, such as RAM.
pub mod Bytes
pub mod Write
pub mod Read
pub mod InRam
use xemu.Base.{ℕ, ◌+◌, ◌≤◌, ◌≡◌, ◌⊎◌, ok, M}
use xemu.Space.{Params, no_params}
use xemu.Ram.{load_le, store_le}

-- The sizes of the accesses that a blob is moved with.
abbrev pub IsSize : ℕ → Type 0
IsSize size = (size ≡ 1) ⊎ (size ≡ 8)

-- What the two accesses are over the `len` addresses from `base` on, where `Holds` holds of the state:
-- reads and writes of the bytes that `view` gives, by their distance from `base`, and no effect on
-- the rest of the state.
pub record Flat {S : Type 0} (read : ℕ → ℕ → Params → M S ℕ) (write : ℕ → ℕ → ℕ → Params → M S ℕ)
    (base len : ℕ) : Type 1 where
  pub Holds : S → Type 0
  pub view : S → ℕ → ℕ
  pub put : S → (ℕ → ℕ) → S
  pub put-Holds : (s : S) (f : ℕ → ℕ) → Holds s → Holds (put s f)
  pub view-put : (s : S) (f : ℕ → ℕ) → view (put s f) ≡ f
  pub put-put : (s : S) (f g : ℕ → ℕ) → put (put s f) g ≡ put s g
  pub put-view : (s : S) → put s (view s) ≡ s
  pub reads :
      (s : S) (addr size : ℕ)
      → Holds s
      → IsSize size
      → addr + size ≤ len
      → read (base + addr) size no_params s ≡ ok (load_le (view s) addr size, s)
  pub writes :
      (s : S) (addr size value : ℕ)
      → Holds s
      → IsSize size
      → addr + size ≤ len
      → write (base + addr) size value no_params s
        ≡ ok (load_le (view s) addr size, put s (store_le (view s) addr size value))
