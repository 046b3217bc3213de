-- ===== src/Mmu.antt =====
-- mmu.c, and the accesses to virtual addresses of address_space.c.
pub mod Walk
use xemu.Base.{
  ℕ, ◌+◌, ◌*◌, ◌^◌, bit_or, Bool, true, false, ◌&&◌, ◌||◌, ◌==◌, if◌then◌else◌, Option, none, some,
  Outcome, ok, panicked, undefined, M, lift, pure, ◌>>=◌,
}
use xemu.Word.{bits, bit, ◌<<<◌}
use xemu.Csr.{CsrFile, csr_read}
use xemu.Csr.Number
use xemu.Csr.Cause
use xemu.Space.{Params, no_params}
use xemu.Bus.{Bus}
use xemu.Machine.{Machine, in_csrs, in_dev, get}

-- A page-table entry that faults, and one that maps a page: `PTE_V`, `PTE_R`, `PTE_W`, `PTE_X`.
unfoldable pub is_fault : ℕ → Bool
is_fault pte = bit pte 0 == 0 || bit pte 1 == 0 && bit pte 2 == 1

unfoldable pub is_leaf : ℕ → Bool
is_leaf pte = if bit pte 1 == 0 then (if bit pte 3 == 0 then false else true) else true

-- The access, where `mmu` found an address.
unfoldable pub at_physical : {S : Type 0} → Option ℕ → (ℕ → M S ℕ) → M (Machine S) (ℕ × Bool)
at_physical none access = pure (0, true)
at_physical (some paddr) access = do v ← in_dev (access paddr); pure (v, false)

module _ {S : Type 0} (bus : Bus S) where
  read_pte : ℕ → M (Machine S) ℕ
  read_pte paddr = in_dev (bus.read_nommu paddr 8 no_params)

  -- What each level does with an entry: `none` is the result -1, a page fault.
  use_pte : ℕ → ℕ → M (Machine S) (Option ℕ) → M (Machine S) (Option ℕ)
  use_pte pte leaf next =
      if is_fault pte then pure none else if is_leaf pte then pure (some leaf) else next

  -- The three levels of the walk.
  unfoldable pub level0 : ℕ → ℕ → M (Machine S) (Option ℕ)
  unfolding read_pte use_pte
  level0 vaddr table = do
    pte ← read_pte (bit_or (table <<< 12) (bits vaddr 20 12 <<< 3))
    use_pte pte (bit_or (bits pte 53 10 <<< 12) (bits vaddr 11 0)) (pure none)

  unfoldable pub level1 : ℕ → ℕ → M (Machine S) (Option ℕ)
  unfolding read_pte use_pte
  level1 vaddr table = do
    pte ← read_pte (bit_or (table <<< 12) (bits vaddr 29 21 <<< 3))
    use_pte pte (bit_or (bits pte 53 19 <<< 21) (bits vaddr 20 0)) (level0 vaddr (bits pte 53 10))

  unfoldable pub level2 : ℕ → ℕ → M (Machine S) (Option ℕ)
  unfolding read_pte use_pte
  level2 vaddr table = do
    pte ← read_pte (bit_or (table <<< 12) (bits vaddr 38 30 <<< 3))
    use_pte pte (bit_or (bits pte 53 28 <<< 30) (bits vaddr 29 0)) (level1 vaddr (bits pte 53 10))

  -- Outside M mode the mode field of satp decides; the walk reads satp a second time.
  unfoldable pub mmu : ℕ → M (Machine S) (Option ℕ)
  mmu vaddr = do
    s ← get
    if s.csrs.priv == Cause.m_mode then pure (some vaddr) else do
      (satp, raised) ← in_csrs (csr_read Number.satp false)
      if bits satp 63 60 == 0
          then pure (some vaddr)
          else do (satp', _) ← in_csrs (csr_read Number.satp raised); level2 vaddr (bits satp' 43 0)

  -- The value, and `*has_except`, which is false before every call.
  unfoldable pub as_read : ℕ → ℕ → Params → M (Machine S) (ℕ × Bool)
  as_read vaddr size params = do
    found ← mmu vaddr
    at_physical found (λ paddr. bus.read_nommu paddr size params)

  unfoldable pub as_write : ℕ → ℕ → ℕ → Params → M (Machine S) (ℕ × Bool)
  as_write vaddr size value params = do
    found ← mmu vaddr
    at_physical found (λ paddr. bus.write_nommu paddr size value params)
