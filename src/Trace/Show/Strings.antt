-- ===== src/Trace/Show/Strings.antt =====
-- The strings that a trace shows, as they stand in memory.
use xemu.Base.{
  ℕ, zero, suc, ◌+◌, ◌%◌, ◌^◌, ◌<◌, Bool, List, [], ◌∷◌, length, ok, panicked, ◌≡◌, arith,
  if◌then◌else◌, ltb,
}
use xemu.Bus.{Bus}
use xemu.Machine.{Machine}
use xemu.Text.Lines.{Without}
use xemu.Trace.Show.{read_number, string_from}

-- The bytes of a string and its NUL, or as many as the loop reads into a buffer with `room` bytes, and
-- one more where the buffer is full: they are read from `addr` on, and the reads change nothing.
abbrev pub StringAt : {S : Type 0} → Bus S → Machine S → Bool → ℕ → ℕ → List ℕ → Type 0
StringAt bus s no_mmu zero addr str = (c : ℕ) × (read_number bus no_mmu addr 1 s ≡ ok (c, s))
StringAt bus s no_mmu (suc room) addr [] = read_number bus no_mmu addr 1 s ≡ ok (0, s)
StringAt bus s no_mmu (suc room) addr (c ∷ cs) =
    (read_number bus no_mmu addr 1 s ≡ ok (c, s))
    × (c < 256)
    × StringAt bus s no_mmu room ((addr + 1) % 2 ^ 64) cs

module _ {S : Type 0} (bus : Bus S) (s : Machine S) (no_mmu : Bool) where
  -- With the MMU or without it, where the bytes are read without changing the machine: the loop of
  -- `_show_string` gives the string that stands at an address, if it is shorter than the `room` bytes
  -- of the buffer; one whose first `room` bytes have no NUL ends the emulator.
  pub string_from_lem :
      (room addr : ℕ) (str : List ℕ)
      → Without 0 str
      → StringAt bus s no_mmu room addr str
      → string_from bus room no_mmu addr s
        ≡ (if ltb (length str) room then ok (str, s) else panicked)
  unfolding string_from
  string_from_lem zero addr [] w h = ground (arith, h.1)
  string_from_lem zero addr (c ∷ cs) w h = ground (arith, h.1)
  string_from_lem (suc room) addr [] w h = ground arith
  string_from_lem (suc room) addr (c ∷ cs) w h =
      ground (arith, string_from_lem room ((addr + 1) % 2 ^ 64) cs w.1 h.2)
