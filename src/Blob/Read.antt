-- ===== src/Blob/Read.antt =====
-- What as_read_blob returns.
use xemu.Base.{
  true, ℕ, zero, suc, ◌+◌, ◌*◌, ◌/◌, ◌%◌, ◌^◌, ◌≤◌, inl, inr, ◌∷◌, ◌++◌, ok, M, pure, ◌>>=◌, >>=-ok,
  ◌≡◌, refl, sym, ap, ◌∙◌, arith, ◌==◌,
}
use xemu.Ram.{load_le}
use xemu.Space.{Params, no_params, to_bytes, read_dwords, read_bytes, as_read_blob}
use xemu.Blob.{Flat}
use xemu.Blob.Bytes.{load_bytes, load_bytes-append, to_bytes-load_le}

module _ {S : Type 0} {read : ℕ → ℕ → Params → M S ℕ} {write : ℕ → ℕ → ℕ → Params → M S ℕ}
    {base len : ℕ} (flat : Flat read write base len) (fits : base + len ≤ 2 ^ 63) where
  open flat use {Holds, view, reads}

  read_bytes-loaded :
      (n : ℕ) (s : S) (addr : ℕ)
      → Holds s
      → addr + n ≤ len
      → read_bytes read n (base + addr) s ≡ ok (load_bytes (view s) addr n, s)
  unfolding read_bytes load_le
  read_bytes-loaded zero s addr good k = refl
  read_bytes-loaded (suc n) s addr good k =
      let next : (base + addr + 1) % 2 ^ 64 ≡ base + (addr + 1) = omega (arith, k, fits) in
      let low : (view s addr % 256 + 256 * 0) % 256 ≡ view s addr % 256 = omega arith in
      let rest = read_bytes-loaded n s (addr + 1) good (omega (arith, k)) in
      >>=-ok (read (base + addr) 1 no_params)
        (λ byte.
          read_bytes read n ((base + addr + 1) % 2 ^ 64) >>= (λ rest. pure (byte % 256 ∷ rest)))
        s (reads s addr 1 good (inl refl) (omega (arith, k)))
        (rw (next) (
          >>=-ok (read_bytes read n (base + (addr + 1)))
            (λ rest. pure ((view s addr % 256 + 256 * 0) % 256 ∷ rest)) s rest
            (ap (λ b. ok (b ∷ load_bytes (view s) (addr + 1) n, s)) low)))

  read_dwords-loaded :
      (n : ℕ) (s : S) (addr : ℕ)
      → Holds s
      → addr + n * 8 ≤ len
      → read_dwords read n (base + addr) s ≡ ok (load_bytes (view s) addr (n * 8), s)
  unfolding read_dwords
  read_dwords-loaded zero s addr good k = refl
  read_dwords-loaded (suc n) s addr good k =
      let next : (base + addr + 8) % 2 ^ 64 ≡ base + (addr + 8) = omega (arith, k, fits) in
      let count : 8 + n * 8 ≡ suc n * 8 = omega arith in
      let rest = read_dwords-loaded n s (addr + 8) good (omega (arith, k)) in
      let dword = load_le (view s) addr 8 in
      let joined =
        ap (λ t. t ++ load_bytes (view s) (addr + 8) (n * 8)) (to_bytes-load_le (view s) addr 8)
        ∙ sym (load_bytes-append (view s) addr 8 (n * 8))
        ∙ ap (load_bytes (view s) addr) count in
      >>=-ok (read (base + addr) 8 no_params)
        (λ dword.
          read_dwords read n ((base + addr + 8) % 2 ^ 64)
          >>= (λ rest. pure (to_bytes 8 dword ++ rest)))
        s (reads s addr 8 good (inr refl) (omega (arith, k)))
        (rw (next) (
          >>=-ok (read_dwords read n (base + (addr + 8))) (λ rest. pure (to_bytes 8 dword ++ rest))
            s rest (ap (λ t. ok (t, s)) joined)))

  -- Within the stretch, as_read_blob at an aligned address returns the bytes that stand there.
  pub as_read_blob-loaded :
      (s : S) (addr size : ℕ)
      → Holds s
      → (base + addr) % 8 ≡ 0
      → addr + size ≤ len
      → as_read_blob read (base + addr) size s ≡ ok (load_bytes (view s) addr size, s)
  unfolding as_read_blob
  as_read_blob-loaded s addr size good aligned k =
      let whole = size / 8 * 8 in
      let next : (base + addr + whole) % 2 ^ 64 ≡ base + (addr + whole) = omega (arith, k, fits) in
      let test : ((base + addr) % 8 == 0) ≡ true = grind arith in
      let count : whole + size % 8 ≡ size = omega arith in
      let dwords = read_dwords-loaded (size / 8) s addr good (omega (arith, k)) in
      let rest = read_bytes-loaded (size % 8) s (addr + whole) good (omega (arith, k)) in
      let joined =
        sym (load_bytes-append (view s) addr whole (size % 8))
        ∙ ap (load_bytes (view s) addr) count in
      rw (test) (
        >>=-ok (read_dwords read (size / 8) (base + addr))
          (λ dwords.
            read_bytes read (size % 8) ((base + addr + whole) % 2 ^ 64)
            >>= (λ bytes. pure (dwords ++ bytes)))
          s dwords
          (rw (next) (
            >>=-ok (read_bytes read (size % 8) (base + (addr + whole)))
              (λ bytes. pure (load_bytes (view s) addr whole ++ bytes)) s rest
              (ap (λ t. ok (t, s)) joined))))
