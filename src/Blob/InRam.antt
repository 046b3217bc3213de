-- ===== src/Blob/InRam.antt =====
-- as_write_blob and as_read_blob through the bus of the whole machine, in RAM.
use xemu.Base.{
  ℕ, ◌+◌, ◌-◌, ◌%◌, ◌≤◌, ◌<◌, ◌⊎◌, inl, inr, List, length, map, ok, M, ◌>>=◌, >>=-ok, ◌≡◌, refl,
  sym, ap, ◌∙◌, arith, leb, true, panicked, undefined, lift,
}
use xemu.Space.{
  no_params, Ops, Space, Params, resolve_root, as_read_nommu, as_write_nommu, as_read_blob,
  as_write_blob,
}
use xemu.Ram.{Ram, ram_read, ram_write, is_lr_sc, load_le, store_le, modified, amo}
use xemu.Bus.{Bus}
use xemu.System.{Devices, system_bus, ops, ram, root_as, in_ram}
use xemu.System.Map.{resolve-ram}
use xemu.Blob.{Flat, IsSize}
use xemu.Blob.Bytes.{load_bytes-store_bytes, store_bytes, store_bytes-outside}
use xemu.Blob.Write.{as_write_blob-stored}
use xemu.Blob.Read.{as_read_blob-loaded}

reach-ram :
    (addr : ℕ) → addr < 0x80000000 → resolve_root root_as (0x80000000 + addr) ≡ ok (ram, addr)
reach-ram addr k =
    let distance : 0x80000000 + addr - 0x80000000 ≡ addr = omega arith in
    resolve-ram (0x80000000 + addr) (omega arith) (omega (arith, k))
    ∙ ap (λ (a : ℕ). ok (ram, a)) distance

-- The test of the size holds.
module _ {D S : Type 0} (ops : Ops D S) (root : Space D) (addr size : ℕ) (params : Params) where
  as_read_nommu-IsSize :
      IsSize size
      → as_read_nommu ops root addr size params
        ≡ (lift (resolve_root root addr) >>= λ x. ops.read_op x.0 x.1 size params)
  unfolding as_read_nommu
  as_read_nommu-IsSize (inl u) = rw u
  as_read_nommu-IsSize (inr u) = rw u

  as_write_nommu-IsSize :
      (value : ℕ)
      → IsSize size
      → as_write_nommu ops root addr size value params
        ≡ (lift (resolve_root root addr) >>= λ x. ops.write_op x.0 x.1 value size params)
  unfolding as_write_nommu
  as_write_nommu-IsSize value (inl u) = rw u
  as_write_nommu-IsSize value (inr u) = rw u

module _ {O : Type 0} (other : Ops ℕ O) where
  abbrev bus : Bus (Devices O)
  bus = system_bus other

  abbrev pub Installed : Devices O → Type 0
  Installed s = s.ram_state.mem_size ≡ 0x80000000

  abbrev pub with_mem : Devices O → (ℕ → ℕ) → Devices O
  with_mem s f = record s { ram_state = record s.ram_state { mem = f } }

  ram_read_lem :
      (r : Ram) (addr size : ℕ)
      → addr + size ≤ r.mem_size
      → ram_read addr size no_params r ≡ ok (load_le r.mem addr size, r)
  unfolding ram_read
  ram_read_lem r addr size k = ground (arith, k)

  ram_write_lem :
      (r : Ram) (addr size value : ℕ)
      → IsSize size
      → addr + size ≤ r.mem_size
      → ram_write addr value size no_params r
        ≡ ok (load_le r.mem addr size, record r { mem = store_le r.mem addr size value })
  unfolding ram_write modified amo is_lr_sc
  ram_write_lem r addr size value (inl z) k =
      let room : leb (addr + 1) r.mem_size ≡ true = grind (arith, k, z) in rw (z, room) refl
  ram_write_lem r addr size value (inr z) k =
      let room : leb (addr + 8) r.mem_size ≡ true = grind (arith, k, z) in rw (z, room) refl

  in_ram_lem :
      (s : Devices O) (m : M Ram ℕ) (v : ℕ) (r : Ram)
      → m s.ram_state ≡ ok (v, r)
      → in_ram m s ≡ ok (v, record s { ram_state = r })
  in_ram_lem s m v r h =
      ap
        (λ x. elim x [
          | ok (a, t) ↦ ok (a, record s { ram_state = t })
          | panicked ↦ panicked
          | undefined ↦ undefined
        ])
        h

  room_lem : (addr size : ℕ) → IsSize size → addr + size ≤ 0x80000000 → addr < 0x80000000
  room_lem addr size (inl u) k = omega (arith, u, k)
  room_lem addr size (inr u) k = omega (arith, u, k)

  pub reads_ram :
      (s : Devices O) (addr size : ℕ)
      → Installed s
      → IsSize size
      → addr + size ≤ 0x80000000
      → bus.read_nommu (0x80000000 + addr) size no_params s
        ≡ ok (load_le s.ram_state.mem addr size, s)
  unfolding system_bus ops
  reads_ram s addr size e z k =
      let at = reach-ram addr (room_lem addr size z k) in
      let copied = ram_read_lem s.ram_state addr size (omega (arith, k, e)) in
      ap (λ m. m s) (as_read_nommu-IsSize (ops other) root_as (0x80000000 + addr) size no_params z)
      ∙ rw at (in_ram_lem s (ram_read addr size no_params) _ _ copied)

  pub writes_ram :
      (s : Devices O) (addr size value : ℕ)
      → Installed s
      → IsSize size
      → addr + size ≤ 0x80000000
      → bus.write_nommu (0x80000000 + addr) size value no_params s
        ≡ ok (
          load_le s.ram_state.mem addr size,
          with_mem s (store_le s.ram_state.mem addr size value),
        )
  unfolding system_bus ops
  writes_ram s addr size value e z k =
      let at = reach-ram addr (room_lem addr size z k) in
      let copied = ram_write_lem s.ram_state addr size value z (omega (arith, k, e)) in
      ap (λ m. m s)
        (as_write_nommu-IsSize (ops other) root_as (0x80000000 + addr) size no_params value z)
      ∙ rw at (in_ram_lem s (ram_write addr value size no_params) _ _ copied)

  -- RAM behind the bus of the whole machine, while its size is 2 GiB.
  abbrev pub flat_ram : Flat bus.read_nommu bus.write_nommu 0x80000000 0x80000000
  flat_ram = record {
    Holds = Installed;
    view = λ s. s.ram_state.mem;
    put = with_mem;
    put-Holds = λ s f h. h;
    view-put = λ s f. refl;
    put-put = λ s f g. refl;
    put-view = λ s. refl;
    reads = reads_ram;
    writes = writes_ram;
  }

  -- Through the bus of the whole machine, with 2 GiB of RAM: as_write_blob of bytes (below 256) at
  -- an address that is a multiple of 8, within RAM, returns; as_read_blob of as many bytes at the
  -- address then gives them back; and the state differs from the one before in RAM alone, where the
  -- bytes before and behind the blob are as they were.
  pub as_read_blob-as_write_blob :
      (s : Devices O) (addr : ℕ) (bytes : List ℕ)
      → s.ram_state.mem_size ≡ 0x80000000
      → addr % 8 ≡ 0
      → 0x80000000 ≤ addr
      → addr + length bytes ≤ 0x100000000
      → map (λ b. b % 256) bytes ≡ bytes
      → (f : ℕ → ℕ) × ((as_write_blob bus.write_nommu addr bytes >>= λ _.
              as_read_blob bus.read_nommu addr (length bytes))
            s
          ≡ ok (bytes, with_mem s f))
        × ((j : ℕ)
            → (j < addr - 0x80000000) ⊎ (addr - 0x80000000 + length bytes ≤ j)
            → f j ≡ s.ram_state.mem j)
  as_read_blob-as_write_blob s addr bytes e aligned low k small =
      let off = addr - 0x80000000 in
      let split : 0x80000000 + off ≡ addr = omega (arith, low) in
      let fits : off + length bytes ≤ 0x80000000 = omega (arith, low, k) in
      let whole : (0x80000000 + off) % 8 ≡ 0 = omega (arith, aligned, low) in
      let f = store_bytes s.ram_state.mem off bytes in
      let wrote = as_write_blob-stored flat_ram (omega arith) s off bytes e whole fits in
      let gave =
        as_read_blob-loaded flat_ram (omega arith) (with_mem s f) off (length bytes) e whole fits in
      (
        f,
        >>=-ok (as_write_blob bus.write_nommu addr bytes)
            (λ _. as_read_blob bus.read_nommu addr (length bytes)) s
            (ap (λ a. as_write_blob bus.write_nommu a bytes s) (sym split) ∙ wrote)
            (ap (λ a. as_read_blob bus.read_nommu a (length bytes) (with_mem s f)) (sym split)
              ∙ gave
              ∙ ap (λ t. ok (t, with_mem s f))
                  (load_bytes-store_bytes s.ram_state.mem off bytes ∙ small)),
        λ j out. store_bytes-outside s.ram_state.mem off bytes j out,
      )
