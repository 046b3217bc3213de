-- ===== src/System/Modules.antt =====
-- What the processor reads of the files in the flash memory.
use xemu.Base.{
  ℕ, ◌+◌, ◌-◌, ◌%◌, ◌≤◌, ◌<◌, ◌⊎◌, ◌≡◌, ◌∙◌, ap, arith, List, length, some, Outcome, ok, panicked,
  undefined, M, Returns-ok,
}
use xemu.Space.{no_params, Ops, resolve, resolve_root, register_address_space, as_read_nommu}
use xemu.Image.{Image, file_byte}
use xemu.Flash.{flash_read, flash_add_file}
use xemu.Flash.Files.{flash_read-flash_add_file}
use xemu.System.{in_flash, flash, Devices, root_as, ops, system_bus}

resolve-flash :
    (addr : ℕ)
    → 0x20000000 ≤ addr
    → addr ≤ 0x23FFFFFF
    → resolve_root root_as addr ≡ ok (flash, addr - 0x20000000)
unfolding root_as resolve register_address_space
resolve-flash addr h k = ground arith

module _ {O : Type 0} (virtio : Ops ℕ O) (s : Devices O) where
  abbrev with_flash : Image → Devices O
  with_flash r = record s { flash_state = r }

  in_flash_lem :
      {A : Type 0} (m : M Image A) (a : A) (r : Image)
      → m s.flash_state ≡ ok (a, r)
      → in_flash m s ≡ ok (a, with_flash r)
  in_flash_lem {A} m a r h =
      ap
        (λ x. elim x as (λ _. Outcome (A × Devices O)) [
          | ok (a, t) ↦ ok (a, with_flash t)
          | panicked ↦ panicked
          | undefined ↦ undefined
        ])
        h

  read_flash :
      (addr v : ℕ) (r : Image)
      → resolve_root root_as addr ≡ ok (flash, addr - 0x20000000)
      → flash_read (addr - 0x20000000) 1 no_params s.flash_state ≡ ok (v, r)
      → (system_bus virtio).read_nommu addr 1 no_params s ≡ ok (v, with_flash r)
  unfolding system_bus as_read_nommu ops
  read_flash addr v r h k = rw h (in_flash_lem (flash_read (addr - 0x20000000) 1 no_params) v r k)

-- A file of at least 40 bytes that is put behind those in the flash memory, where it fits: it is put
-- there, and the processor then reads its byte `j`, outside the field e_phoff of an ELF header, through
-- the bus at 0x20000000, plus the size of what was there before, plus `j`.
pub read_nommu-flash_add_file :
    {O : Type 0} (virtio : Ops ℕ O) (s : Devices O) (file : List ℕ) (j : ℕ)
    → 0 < s.flash_state.mem_size
    → s.flash_state.mem_size % 8 ≡ 0
    → s.flash_state.mem_size + length file ≤ 0x4000000
    → 40 ≤ length file
    → j < length file
    → (j < 32) ⊎ (40 ≤ j)
    → (s' : Devices O) × (in_flash (flash_add_file (some file)) s ≡ ok (tt, s'))
      × ((system_bus virtio).read_nommu (0x20000000 + s.flash_state.mem_size + j) 1 no_params s'
          ≡ ok (file_byte file j % 256, s'))
read_nommu-flash_add_file virtio s file j some_size even fits long inside outside =
    let ((_, r), added, (read, _, _)) =
      Returns-ok (flash_add_file (some file) s.flash_state) (
        flash_read-flash_add_file s.flash_state file j 0 fits long inside outside some_size even) in
    let addr = 0x20000000 + s.flash_state.mem_size + j in
    let place : addr - 0x20000000 ≡ s.flash_state.mem_size + j = omega arith in
    (
      with_flash virtio s r,
      in_flash_lem virtio s (flash_add_file (some file)) tt r added,
      read_flash virtio (record s { flash_state = r }) addr (file_byte file j % 256) r
          (resolve-flash addr (omega arith) (omega (arith, fits, inside)))
          (ap (λ (a : ℕ). flash_read a 1 no_params r) place ∙ read),
    )
