-- ===== src/VirtioBlk/Gather.antt =====
-- The loop of _handle_read of virtio_blk.c over a stretch of plain memory.
use xemu.Base.{
  ℕ, ◌+◌, ◌-◌, ◌%◌, ◌^◌, ◌≤◌, List, [], ◌∷◌, ◌++◌, length, ok, M, pure, lift, ◌>>=◌, >>=-ok, ◌≡◌,
  refl, sym, ap, ◌∙◌, arith,
}
use xemu.Space.{Params, as_read_blob, as_write_blob}
use xemu.Virtio.{Iovec, Memory}
use xemu.VirtioBlk.{DiskFile, bytes_at, disk_read, read_segments}
use xemu.Blob.{Flat}
use xemu.Blob.Bytes.{load_bytes, store_bytes}
use xemu.Blob.Write.{stored, stored-Holds, as_write_blob-stored}
use xemu.Blob.Read.{as_read_blob-loaded}
use xemu.VirtioBlk.Scatter.{
  total, Placed, Disjoint, gather, scatter, loaded, loaded-scatter, disk_read-held, length-bytes_at,
}

module _ {S : Type 0} {read : ℕ → ℕ → Params → M S ℕ} {write : ℕ → ℕ → ℕ → Params → M S ℕ}
    {base len : ℕ} (flat : Flat read write base len) (fits : base + len ≤ 2 ^ 63) where
  open flat use {Holds, view, put, put-Holds, view-put, put-put, put-view}

  read_segments-scatter :
      (signal : ℕ → M S (Unit {0})) (file : DiskFile) (pos : ℕ) (vs : List Iovec) (s : S)
      → Holds s
      → Placed base len vs
      → pos + total vs ≤ file.size
      → read_segments
          (record { read_nommu = read; write_nommu = write; signal = signal })
          file
          pos
          vs
          s
        ≡ ok (tt, put s (scatter base file.contents (view s) pos vs))
  unfolding read_segments
  read_segments-scatter signal file pos [] s good placed room =
      ap (λ t. ok (tt, t)) (sym (put-view s))
  read_segments-scatter signal file pos (v ∷ vs) s good (aligned, low, high, placed) room =
      let bytes = bytes_at file.contents pos v.len in
      let off = v.base - base in
      let split : base + off ≡ v.base = omega (arith, low) in
      let size = length-bytes_at file.contents pos v.len in
      let within : off + length bytes ≤ len = omega (arith, size, low, high) in
      let whole : (base + off) % 8 ≡ 0 = omega (arith, split, aligned) in
      let wrote = as_write_blob-stored flat fits s off bytes good whole within in
      let rest =
        read_segments-scatter signal file (pos + v.len) vs (stored flat fits s off bytes)
          (stored-Holds flat fits s off bytes good) placed (omega (arith, room)) in
      let f = store_bytes (view s) off bytes in
      let mem : Memory S = record { read_nommu = read; write_nommu = write; signal = signal } in
      >>=-ok (lift (disk_read file pos v.len))
        (λ bytes. as_write_blob write v.base bytes >>= λ _. read_segments mem file (pos + v.len) vs)
        s (ap (λ o. lift o s) (disk_read-held file pos v.len (omega (arith, room))))
        (>>=-ok (as_write_blob write v.base bytes) (λ _. read_segments mem file (pos + v.len) vs) s
          (ap (λ a. as_write_blob write a bytes s) (sym split) ∙ wrote)
          (rest
            ∙ ap (λ t. ok (tt, t))
                (put-put s f _
                  ∙ ap (λ g. put s (scatter base file.contents g (pos + v.len) vs))
                      (view-put s f))))

  gather-loaded :
      (vs : List Iovec) (s : S)
      → Holds s
      → Placed base len vs
      → gather read vs s ≡ ok (loaded base (view s) vs, s)
  gather-loaded [] s good placed = refl
  gather-loaded (v ∷ vs) s good (aligned, low, high, placed) =
      let off = v.base - base in
      let split : base + off ≡ v.base = omega (arith, low) in
      let within : off + v.len ≤ len = omega (arith, low, high) in
      let whole : (base + off) % 8 ≡ 0 = omega (arith, split, aligned) in
      >>=-ok (as_read_blob read v.base v.len)
        (λ bytes. gather read vs >>= λ rest. pure (bytes ++ rest)) s
        (ap (λ a. as_read_blob read a v.len s) (sym split)
          ∙ as_read_blob-loaded flat fits s off v.len good whole within)
        (>>=-ok (gather read vs) (λ rest. pure (load_bytes (view s) off v.len ++ rest)) s
          (gather-loaded vs s good placed) refl)

  -- Over a memory that is plain from `base` on, for vectors that are aligned, lie within it and do not
  -- overlap, and a disk that holds as many bytes from the position on as they have room for: the loop of
  -- _handle_read returns, with a change of nothing but the memory, and the vectors, read one after the
  -- other, then give exactly what one read of the disk gives.
  pub read_segments-gather :
      (signal : ℕ → M S (Unit {0})) (file : DiskFile) (pos : ℕ) (vs : List Iovec) (s : S)
      → Holds s
      → Placed base len vs
      → Disjoint vs
      → pos + total vs ≤ file.size
      → (f : ℕ → ℕ) × (bytes : List ℕ) × (read_segments
            (record { read_nommu = read; write_nommu = write; signal = signal })
            file
            pos
            vs
            s
          ≡ ok (tt, put s f))
        × (gather read vs (put s f) ≡ ok (bytes, put s f))
        × (disk_read file pos (total vs) ≡ ok bytes)
  read_segments-gather signal file pos vs s good placed disjoint room =
      let f = scatter base file.contents (view s) pos vs in
      (
        f,
        bytes_at file.contents pos (total vs),
        read_segments-scatter signal file pos vs s good placed room,
        gather-loaded vs (put s f) (put-Holds s f good) placed
            ∙ ap (λ t. ok (t, put s f))
                (ap (λ g. loaded base g vs) (view-put s f)
                  ∙ loaded-scatter base len file.contents (view s) pos vs placed disjoint),
        disk_read-held file pos (total vs) room,
      )
