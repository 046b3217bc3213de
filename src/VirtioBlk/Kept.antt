-- ===== src/VirtioBlk/Kept.antt =====
-- A write request of virtio_blk.c, from its header on, and what the disk then holds.
use xemu.Base.{
  ℕ, ◌+◌, ◌-◌, ◌*◌, ◌%◌, ◌^◌, ◌≤◌, ◌<◌, ◌⊎◌, true, List, [], ◌∷◌, length, some, ok, M, >>=-ok, map,
  ◌≡◌, refl, sym, ap, ◌∙◌, arith,
}
use xemu.Space.{Params, as_read_blob, from_bytes, drop}
use xemu.Virtio.{Iovec, VqRequest, Memory}
use xemu.Virtio.Queue.{has_flag}
use xemu.VirtioBlk.{
  DiskFile, VirtioBlk, disk_read, disk_write, seek, complete, handle_write, do_request,
}
use xemu.VirtioBlk.Disk.{disk_read-disk_write}
use xemu.VirtioBlk.Scatter.{length-bytes_at, bytes_at-small, bytes_at-load_bytes}
use xemu.Blob.{Flat}
use xemu.Blob.Bytes.{load_bytes}
use xemu.Blob.Read.{as_read_blob-loaded}

seek_lem : (sector : ℕ) → sector * 512 < 2 ^ 63 → seek sector ≡ ok (sector * 512)
unfolding seek
seek_lem sector h = ground arith

load_bytes-small :
    (f : ℕ → ℕ) (pos n : ℕ) → map (λ b. b % 256) (load_bytes f pos n) ≡ load_bytes f pos n
load_bytes-small f pos n =
    ap (map (λ b. b % 256)) (bytes_at-load_bytes f pos n)
    ∙ bytes_at-small f pos n
    ∙ sym (bytes_at-load_bytes f pos n)

module _ {S : Type 0} (mem : Memory S) (blk : VirtioBlk) (req : VqRequest) (sector : ℕ)
    (head v status : Iovec) (iov : req.iov ≡ head ∷ v ∷ status ∷ []) (file : DiskFile)
    (opened : blk.file ≡ some file) (s : S) (bytes : List ℕ)
    (held : as_read_blob mem.read_nommu v.base v.len s ≡ ok (bytes, s)) where
  handle_write-complete :
      sector * 512 < 2 ^ 63
      → handle_write mem blk req sector s
        ≡ complete mem (record blk { file = some (disk_write file (sector * 512) bytes) }) req s
  unfolding handle_write
  handle_write-complete low = rw iov (
      >>=-ok (as_read_blob mem.read_nommu v.base v.len) _ s held
        (rw (opened, seek_lem sector low) refl))

  do_request-handle_write :
      (header : List ℕ)
      → head.len ≡ 16
      → has_flag head.flags 1 ≡ true
      → as_read_blob mem.read_nommu head.base 16 s ≡ ok (header, s)
      → from_bytes 4 header ≡ 1
      → from_bytes 8 (drop 8 header) ≡ sector
      → do_request mem blk req s ≡ handle_write mem blk req sector s
  unfolding do_request
  do_request-handle_write header len flag read kind at = rw iov (
      rw (len, flag)
        (>>=-ok (as_read_blob mem.read_nommu head.base 16) _ s read (rw (kind, at) refl)))

module _ {S : Type 0} {read : ℕ → ℕ → Params → M S ℕ} {write : ℕ → ℕ → ℕ → Params → M S ℕ}
    {base len : ℕ} (flat : Flat read write base len) (fits : base + len ≤ 2 ^ 63) where
  open flat use {Holds, view}

  pub vector_bytes :
      (v : Iovec) (s : S)
      → Holds s
      → v.base % 8 ≡ 0
      → base ≤ v.base
      → v.base + v.len ≤ base + len
      → as_read_blob read v.base v.len s ≡ ok (load_bytes (view s) (v.base - base) v.len, s)
  vector_bytes v s good aligned low high =
      let off = v.base - base in
      let split : base + off ≡ v.base = omega (arith, low) in
      ap (λ a. as_read_blob read a v.len s) (sym split)
      ∙ as_read_blob-loaded flat fits s off v.len good (omega (arith, split, aligned))
          (omega (arith, low, high))

  -- A write request of three vectors, with the disk open: its header has 16 bytes that the device may
  -- read, the type VIRTIO_BLK_T_OUT and a sector whose place in the file is below 2 ^ 63, and its
  -- second vector is aligned and lies in a stretch of plain memory. _do_request ends as _complete does
  -- on a disk from which, at 512 times the sector, exactly the bytes of the vector are read; and from
  -- the bytes that the disk had, before or after those, the same is read as before.
  pub do_request-disk_read :
      (signal : ℕ → M S (Unit {0})) (blk : VirtioBlk) (req : VqRequest) (sector : ℕ)
      (head v status : Iovec) (file : DiskFile) (s : S) (header : List ℕ) (other n : ℕ)
      → Holds s
      → req.iov ≡ head ∷ v ∷ status ∷ []
      → blk.file ≡ some file
      → head.len ≡ 16
      → has_flag head.flags 1 ≡ true
      → as_read_blob read head.base 16 s ≡ ok (header, s)
      → from_bytes 4 header ≡ 1
      → from_bytes 8 (drop 8 header) ≡ sector
      → sector * 512 < 2 ^ 63
      → v.base % 8 ≡ 0
      → base ≤ v.base
      → v.base + v.len ≤ base + len
      → (other + n ≤ sector * 512) ⊎ (sector * 512 + v.len ≤ other)
      → other + n ≤ file.size
      → (bytes : List ℕ) × (file' : DiskFile) × (as_read_blob read v.base v.len s ≡ ok (bytes, s))
        × (do_request (record { read_nommu = read; write_nommu = write; signal = signal }) blk req s
            ≡ complete
                (record { read_nommu = read; write_nommu = write; signal = signal })
                (record blk { file = some file' })
                req
                s)
        × (disk_read file' (sector * 512) v.len ≡ ok bytes)
        × (disk_read file' other n ≡ disk_read file other n)
  do_request-disk_read signal blk req sector head v status file s header other n good iov opened
        size flag got kind at low aligned above below away old =
      let mem : Memory S = record { read_nommu = read; write_nommu = write; signal = signal } in
      let bytes = load_bytes (view s) (v.base - base) v.len in
      let count : length bytes ≡ v.len =
        ap length (bytes_at-load_bytes (view s) (v.base - base) v.len)
        ∙ length-bytes_at (view s) (v.base - base) v.len in
      let held = vector_bytes v s good aligned above below in
      let (put, kept) =
        disk_read-disk_write file (sector * 512) bytes other n (omega (arith, away, count)) old in
      (
        bytes,
        disk_write file (sector * 512) bytes,
        held,
        do_request-handle_write mem blk req sector head v status iov file opened s bytes held header
              size flag got kind at
            ∙ handle_write-complete mem blk req sector head v status iov file opened s bytes held
                low,
        ap (disk_read (disk_write file (sector * 512) bytes) (sector * 512)) (sym count)
            ∙ put
            ∙ ap ok (load_bytes-small (view s) (v.base - base) v.len),
        kept,
      )
