-- ===== src/System/Map.antt =====
-- The memory map of xemu.c.
use xemu.Base.{
  ℕ, ◌+◌, ◌-◌, ◌/◌, ◌%◌, ◌^◌, ◌≤◌, ◌<◌, ◌≡◌, refl, ◌∙◌, ap, arith, inl, ok, panicked, undefined, M,
  ◌>>=◌,
}
use xemu.Space.{
  no_params, Ops, resolve, resolve_root, register_address_space, as_read_nommu, as_write_nommu,
}
use xemu.Ram.{Ram, ram_read, ram_write, load_le, modified, amo}
use xemu.Ram.Atomic.{ram_read-ram_write}
use xemu.Bus.{Bus}
use xemu.System.{in_ram, ram, virtio_mmio, Devices, root_as, ops, system_bus}

-- In the tree that main builds, an address of the first 2 GiB above 0x80000000 reaches RAM, with its
-- distance from there.
pub resolve-ram :
    (addr : ℕ)
    → 0x80000000 ≤ addr
    → addr ≤ 0xFFFFFFFF
    → resolve_root root_as addr ≡ ok (ram, addr - 0x80000000)
unfolding root_as resolve register_address_space
resolve-ram addr h k = ground arith

-- The eight virtio transports lie one after the other from 0x10001000, 4 KiB each: the number of the
-- page is the number of the transport.
pub resolve-virtio_mmio :
    (addr : ℕ)
    → 0x10001000 ≤ addr
    → addr < 0x10009000
    → resolve_root root_as addr ≡ ok (virtio_mmio ((addr - 0x10001000) / 0x1000), addr % 0x1000)
unfolding root_as resolve register_address_space
resolve-virtio_mmio addr h k = ground arith

module _ {O : Type 0} (other : Ops ℕ O) (s : Devices O) where
  abbrev bus : Bus (Devices O)
  bus = system_bus other

  -- The RAM behind the bus.
  abbrev with_ram : Ram → Devices O
  with_ram r = record s { ram_state = r }

  in_ram_lem :
      (m : M Ram ℕ) (v : ℕ) (r : Ram) → m s.ram_state ≡ ok (v, r) → in_ram m s ≡ ok (v, with_ram r)
  in_ram_lem m v r h = ground (arith, h)

  read_ram :
      (addr v : ℕ) (r : Ram)
      → resolve_root root_as addr ≡ ok (ram, addr - 0x80000000)
      → ram_read (addr - 0x80000000) 8 no_params s.ram_state ≡ ok (v, r)
      → bus.read_nommu addr 8 no_params s ≡ ok (v, with_ram r)
  unfolding system_bus as_read_nommu ops
  read_ram addr v r h k = rw h (in_ram_lem (ram_read (addr - 0x80000000) 8 no_params) v r k)

  write_ram :
      (addr value v : ℕ) (r : Ram)
      → resolve_root root_as addr ≡ ok (ram, addr - 0x80000000)
      → ram_write (addr - 0x80000000) value 8 no_params s.ram_state ≡ ok (v, r)
      → bus.write_nommu addr 8 value no_params s ≡ ok (v, with_ram r)
  unfolding system_bus as_write_nommu ops
  write_ram addr value v r h k =
      rw h (in_ram_lem (ram_write (addr - 0x80000000) value 8 no_params) v r k)

-- A double word that is read from RAM, through the bus of the whole machine.
pub read_nommu-ram :
    {O : Type 0} (other : Ops ℕ O) (s : Devices O) (addr : ℕ)
    → 0x80000000 ≤ addr
    → addr + 8 ≤ 0x100000000
    → s.ram_state.mem_size ≡ 0x80000000
    → (system_bus other).read_nommu addr 8 no_params s
      ≡ ok (load_le s.ram_state.mem (addr - 0x80000000) 8, s)
read_nommu-ram other s addr h k e =
    read_ram other s addr (load_le s.ram_state.mem (addr - 0x80000000) 8) s.ram_state
      (resolve-ram addr h (omega arith)) (unfold ram_read in ground (arith, h, k, e))

then_lem :
    {S A B : Type 0} (m : M S A) (k : A → M S B) (s : S) {a : A} {t : S}
    → m s ≡ ok (a, t)
    → (m >>= k) s ≡ k a t
then_lem m k s h =
    ap (λ r. elim r [ ok (a, t) ↦ k a t | panicked ↦ panicked | undefined ↦ undefined ]) h

plain : (value : ℕ) → value < 2 ^ 64 → value % 256 ^ 8 ≡ value
plain value h = omega arith

-- Through the bus of the whole machine: the double word that is written to an address of RAM is what
-- a read of the address then gives, and the PLIC, the CLINT and the other devices stay as they are.
pub read_nommu-write_nommu :
    {O : Type 0} (other : Ops ℕ O) (s : Devices O) (addr value : ℕ)
    → 0x80000000 ≤ addr
    → addr + 8 ≤ 0x100000000
    → value < 2 ^ 64
    → s.ram_state.mem_size ≡ 0x80000000
    → (s' : Devices O) × (((system_bus other).write_nommu addr 8 value no_params >>= λ _.
            (system_bus other).read_nommu addr 8 no_params)
          s
        ≡ ok (value, s'))
      × (s'.plic_state ≡ s.plic_state)
      × (s'.clint_state ≡ s.clint_state)
      × (s'.others ≡ s.others)
unfolding modified amo
read_nommu-write_nommu other s addr value h k fits e =
    let at = resolve-ram addr h (omega arith) in
    let off = addr - 0x80000000 in
    let (r, w, v, _) =
      ram_read-ram_write off value 8 0 0 no_params s.ram_state (omega arith) (inl (omega arith))
        (omega arith) in
    (
      record s { ram_state = r },
      then_lem (λ s. (system_bus other).write_nommu addr 8 value no_params s) _ s
            (write_ram other s addr value _ r at w)
          ∙ read_ram other (record s { ram_state = r }) addr value r at
              (v ∙ ap (λ (n : ℕ). ok (n, r)) (plain value fits)),
      refl,
      refl,
      refl,
    )
