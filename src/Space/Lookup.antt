-- ===== src/Space/Lookup.antt =====
-- Which device an address reaches.
use xemu.Base.{ℕ, ◌-◌, ◌<◌, ◌&&◌, leb, if◌then◌else◌, ◌≡◌, ◌⊎◌, arith, ok}
use xemu.Space.{
  Space, null, space, init_address_space, register_address_space, resolve, resolve_root,
}

module _ {D : Type 0} where
  -- The device that is registered last is asked first: inside its range an address reaches it,
  -- with the distance from its start, and elsewhere it reaches what it reached before.
  pub resolve-register :
      (start end : ℕ) (d : D) (children sibling : Space D) (s e : ℕ) (device : D) (addr : ℕ)
      → resolve_root
          (register_address_space
            (space start end d children sibling)
            (init_address_space s e device))
          addr
        ≡ (if leb s addr && leb addr e
            then ok (device, addr - s)
            else resolve_root (space start end d children sibling) addr)
  unfolding resolve register_address_space
  resolve-register start end d null sibling s e device addr = ground arith
  resolve-register start end d (space s' e' d' cs' sib') sibling s e device addr = ground arith

  -- Two devices whose ranges do not overlap can be registered in either order.
  pub register_comm :
      (start end : ℕ) (d : D) (children sibling : Space D) (s e s' e' : ℕ) (d₁ d₂ : D) (addr : ℕ)
      → (e < s') ⊎ (e' < s)
      → let root = space start end d children sibling in
        let first = init_address_space s e d₁ in
        let second = init_address_space s' e' d₂ in
        resolve_root (register_address_space (register_address_space root first) second) addr
        ≡ resolve_root (register_address_space (register_address_space root second) first) addr
  unfolding resolve register_address_space
  register_comm start end d null sibling s e s' e' d₁ d₂ addr apart = ground arith
  register_comm start end d (space p q d' cs sib') sibling s e s' e' d₁ d₂ addr apart = ground arith
