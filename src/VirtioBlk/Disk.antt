-- ===== src/VirtioBlk/Disk.antt =====
-- The file of the disk keeps what is written to it.
use xemu.Base.{
  ℕ, zero, suc, ◌+◌, ◌-◌, ◌%◌, ◌≤◌, ◌<◌, ◌⊎◌, Bool, true, false, ◌&&◌, ◌||◌, ltb, leb, ◌==◌,
  if◌then◌else◌, ◌≡◌, refl, ap, sym, ◌∙◌, arith, List, [], ◌∷◌, map, length, get_elem?, Option,
  none, some, ok, panicked,
}
use xemu.VirtioBlk.{DiskFile, bytes_at, disk_read, disk_write, overwritten}

bytes_at-eq :
    (f g : ℕ → ℕ) (pos n : ℕ)
    → ((j : ℕ) → pos ≤ j → j < pos + n → f j % 256 ≡ g j % 256)
    → bytes_at f pos n ≡ bytes_at g pos n
unfolding bytes_at
bytes_at-eq f g pos zero same = refl
bytes_at-eq f g pos (suc n) same =
    rw
      (
        same pos (omega arith) (omega arith),
        bytes_at-eq f g (pos + 1) n (λ j lo hi. same j (omega (arith, lo)) (omega (arith, hi))),
      )
      refl

abbrev byte_of : List ℕ → ℕ → ℕ
byte_of bytes j = elim (get_elem? bytes j) [ some byte ↦ byte % 256 | none ↦ 0 ]

bytes_at-list :
    (f : ℕ → ℕ) (pos : ℕ) (bytes : List ℕ)
    → ((j : ℕ) → j < length bytes → f (pos + j) % 256 ≡ byte_of bytes j)
    → bytes_at f pos (length bytes) ≡ map (λ b. b % 256) bytes
unfolding bytes_at
bytes_at-list f pos [] all = refl
bytes_at-list f pos (b ∷ bs) all =
    let head : f pos % 256 ≡ b % 256 =
      ap (λ (p : ℕ). f p % 256) (omega arith) ∙ all 0 (omega arith) in
    let tail =
      bytes_at-list f (pos + 1) bs
        (λ j h. ap (λ (p : ℕ). f p % 256) (omega arith) ∙ all (suc j) (omega (arith, h))) in
    rw (head, tail) refl

byte_of-mod : (bytes : List ℕ) (j : ℕ) → byte_of bytes j % 256 ≡ byte_of bytes j
byte_of-mod bytes j = by_element (get_elem? bytes j)
  where
    by_element :
        (o : Option ℕ)
        → (elim o [ some byte ↦ byte % 256 | none ↦ 0 ]) % 256
          ≡ elim o [ some byte ↦ byte % 256 | none ↦ 0 ]
    by_element none = omega arith
    by_element (some byte) = omega arith

overwritten-inside :
    (file : DiskFile) (pos : ℕ) (bytes : List ℕ) (j : ℕ)
    → j < length bytes
    → overwritten file pos bytes (pos + j) % 256 ≡ byte_of bytes j
overwritten-inside file pos bytes j h =
    let place : pos + j - pos ≡ j = omega arith in
    let g1 : leb pos (pos + j) ≡ true = ground arith in
    let g2 : ltb (pos + j) (pos + length bytes) ≡ true = ground (arith, h) in
    rw (g1, g2, place) (byte_of-mod bytes j)

overwritten-outside :
    (file : DiskFile) (pos : ℕ) (bytes : List ℕ) (j : ℕ)
    → (j < pos) ⊎ (pos + length bytes ≤ j)
    → j < file.size
    → overwritten file pos bytes j ≡ file.contents j
overwritten-outside file pos bytes j away old =
    let g1 : (leb pos j && ltb j (pos + length bytes)) ≡ false = ground (arith, away) in
    let g2 : ltb j file.size ≡ true = ground (arith, old) in rw (g1, g2) refl

disk_read-ok :
    (file : DiskFile) (pos n : ℕ)
    → pos + n ≤ file.size
    → disk_read file pos n ≡ ok (bytes_at file.contents pos n)
unfolding disk_read
disk_read-ok file pos n h =
    let g : leb (pos + n) file.size ≡ true = ground (arith, h) in
    rw (disk_read, g) (by_test (n == 0))
  where
    by_test :
        (b : Bool)
        → (if b || true then ok (bytes_at file.contents pos n) else panicked)
          ≡ ok (bytes_at file.contents pos n)
    by_test true = refl
    by_test false = refl

abbrev written : DiskFile → ℕ → List ℕ → DiskFile
written file pos bytes = record {
  contents = overwritten file pos bytes;
  size = if ltb file.size (pos + length bytes) then pos + length bytes else file.size;
}

disk_write-∷ :
    (file : DiskFile) (pos b : ℕ) (bs : List ℕ)
    → disk_write file pos (b ∷ bs) ≡ written file pos (b ∷ bs)
unfolding disk_write
disk_write-∷ file pos b bs =
    let g : (length (b ∷ bs) == 0) ≡ false = ground arith in rw (disk_write, g) refl

-- What is written at a position of the disk is what a read of as many bytes there gives, each cut to
-- eight bits; and a read of bytes that the disk had, before or after those, gives the
-- same as before the write.
pub disk_read-disk_write :
    (file : DiskFile) (pos : ℕ) (bytes : List ℕ) (other n : ℕ)
    → (other + n ≤ pos) ⊎ (pos + length bytes ≤ other)
    → other + n ≤ file.size
    → (disk_read (disk_write file pos bytes) pos (length bytes) ≡ ok (map (λ b. b % 256) bytes))
      × (disk_read (disk_write file pos bytes) other n ≡ disk_read file other n)
unfolding disk_read disk_write bytes_at
disk_read-disk_write file pos [] other n away old = (refl, refl)
disk_read-disk_write file pos (b ∷ bs) other n away old =
    let w = written file pos (b ∷ bs) in
    let fits : pos + length (b ∷ bs) ≤ w.size = ground arith in
    let kept : other + n ≤ w.size = ground (arith, old) in
    let same : bytes_at (overwritten file pos (b ∷ bs)) other n ≡ bytes_at file.contents other n =
      bytes_at-eq (overwritten file pos (b ∷ bs)) file.contents other n (λ j lo hi.
        ap (λ (v : ℕ). v % 256)
          (overwritten-outside file pos (b ∷ bs) j (omega (arith, away, lo, hi))
            (omega (arith, hi, old)))) in
    (
      ap (λ f. disk_read f pos (length (b ∷ bs))) (disk_write-∷ file pos b bs)
          ∙ disk_read-ok w pos (length (b ∷ bs)) fits
          ∙ ap ok (
              bytes_at-list (overwritten file pos (b ∷ bs)) pos (b ∷ bs)
                (overwritten-inside file pos (b ∷ bs))),
      ap (λ f. disk_read f other n) (disk_write-∷ file pos b bs)
          ∙ disk_read-ok w other n kept
          ∙ ap ok same
          ∙ sym (disk_read-ok file other n old),
    )
