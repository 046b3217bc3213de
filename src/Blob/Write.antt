-- ===== src/Blob/Write.antt =====
-- What as_write_blob leaves.
use xemu.Base.{
  true, ℕ, zero, suc, ◌+◌, ◌-◌, ◌*◌, ◌/◌, ◌%◌, ◌^◌, ◌≤◌, inl, inr, List, [], ◌∷◌, ◌++◌, length, ok,
  M, ◌>>=◌, >>=-ok, ◌≡◌, refl, sym, ap, Outcome, ◌∙◌, arith, ◌==◌,
}
use xemu.Space.{Params, no_params, from_bytes, drop, write_dwords, write_bytes, as_write_blob}
use xemu.Text.{take}
use xemu.Blob.{Flat, IsSize}
use xemu.Blob.Bytes.{store_bytes, store_bytes-append, store_le-from_bytes, take-drop, take_add}

length-drop : (n : ℕ) (bytes : List ℕ) → length (drop n bytes) ≡ length bytes - n
unfolding drop
length-drop zero bytes = omega arith
length-drop (suc n) [] = omega arith
length-drop (suc n) (b ∷ bs) = omega (arith, length-drop n bs)

length-take : (n : ℕ) (bytes : List ℕ) → n ≤ length bytes → length (take n bytes) ≡ n
unfolding take
length-take zero bytes h = refl
length-take (suc n) [] h = absurd (omega (arith, h))
length-take (suc n) (b ∷ bs) h = omega (arith, length-take n bs (omega arith))

module _ {S : Type 0} {read : ℕ → ℕ → Params → M S ℕ} {write : ℕ → ℕ → ℕ → Params → M S ℕ}
    {base len : ℕ} (flat : Flat read write base len) (fits : base + len ≤ 2 ^ 63) where
  open flat use {Holds, view, put, put-Holds, view-put, put-put, put-view, writes}

  -- The state with bytes stored from an address on.
  abbrev pub stored : S → ℕ → List ℕ → S
  stored s addr bytes = put s (store_bytes (view s) addr bytes)

  pub stored-Holds : (s : S) (addr : ℕ) (bytes : List ℕ) → Holds s → Holds (stored s addr bytes)
  stored-Holds s addr bytes = put-Holds s (store_bytes (view s) addr bytes)

  stored-append :
      (s : S) (addr : ℕ) (xs ys : List ℕ)
      → stored (stored s addr xs) (addr + length xs) ys ≡ stored s addr (xs ++ ys)
  stored-append s addr xs ys =
      put-put s (store_bytes (view s) addr xs) _
      ∙ ap (λ f. put s (store_bytes f (addr + length xs) ys))
          (view-put s (store_bytes (view s) addr xs))
      ∙ ap (put s) (sym (store_bytes-append (view s) addr xs ys))

  -- One write of the next `n` bytes, and what follows it.
  write-stored :
      (n : ℕ) (s : S) (addr : ℕ) (bytes : List ℕ) (rest : M S (Unit {0}))
      {r : Outcome (Unit {0} × S)}
      → Holds s
      → IsSize n
      → addr + n ≤ len
      → n ≤ length bytes
      → rest (stored s addr (take n bytes)) ≡ r
      → (write (base + addr) n (from_bytes n bytes) no_params >>= (λ _. rest)) s ≡ r
  write-stored n s addr bytes rest good size k l e =
      >>=-ok (write (base + addr) n (from_bytes n bytes) no_params) (λ _. rest) s
        (writes s addr n (from_bytes n bytes) good size k)
        (ap (λ f. rest (put s f)) (store_le-from_bytes (view s) addr n bytes l) ∙ e)

  write_bytes-stored :
      (s : S) (addr : ℕ) (bytes : List ℕ)
      → Holds s
      → addr + length bytes ≤ len
      → write_bytes write (base + addr) bytes s ≡ ok (tt, stored s addr bytes)
  unfolding write_bytes from_bytes take
  write_bytes-stored s addr [] good k = ap (λ t. ok (tt, t)) (sym (put-view s))
  write_bytes-stored s addr (b ∷ bs) good k =
      let one : List ℕ = b ∷ [] in
      let room : addr + 1 + length bs ≤ len = omega (arith, k) in
      let next : (base + addr + 1) % 2 ^ 64 ≡ base + (addr + 1) = omega (arith, room, fits) in
      let value : b % 256 ≡ b % 256 + 256 * 0 = omega arith in
      let rest =
        write_bytes-stored (stored s addr one) (addr + 1) bs (stored-Holds s addr one good) room in
      ap
        (λ v.
          (write (base + addr) 1 v no_params
              >>= (λ _. write_bytes write ((base + addr + 1) % 2 ^ 64) bs))
            s)
        value
      ∙ write-stored 1 s addr (b ∷ bs) (write_bytes write ((base + addr + 1) % 2 ^ 64) bs) good
          (inl refl) (omega (arith, room)) (omega arith)
          (rw (next) (rest ∙ ap (λ t. ok (tt, t)) (stored-append s addr one bs)))

  write_dwords-stored :
      (n : ℕ) (s : S) (addr : ℕ) (bytes : List ℕ)
      → Holds s
      → addr + n * 8 ≤ len
      → n * 8 ≤ length bytes
      → write_dwords write n (base + addr) bytes s ≡ ok (tt, stored s addr (take (n * 8) bytes))
  unfolding write_dwords take
  write_dwords-stored zero s addr bytes good k l = ap (λ t. ok (tt, t)) (sym (put-view s))
  write_dwords-stored (suc n) s addr bytes good k l =
      let next : (base + addr + 8) % 2 ^ 64 ≡ base + (addr + 8) = omega (arith, k, fits) in
      let left = length-drop 8 bytes in
      let first = length-take 8 bytes (omega (arith, l)) in
      let rest =
        write_dwords-stored n (stored s addr (take 8 bytes)) (addr + 8) (drop 8 bytes)
          (stored-Holds s addr (take 8 bytes) good) (omega (arith, k)) (omega (arith, l, left)) in
      let past : addr + 8 ≡ addr + length (take 8 bytes) = omega (arith, first) in
      let count : 8 + n * 8 ≡ suc n * 8 = omega arith in
      let appended =
        ap (λ a. stored (stored s addr (take 8 bytes)) a (take (n * 8) (drop 8 bytes))) past
        ∙ stored-append s addr (take 8 bytes) (take (n * 8) (drop 8 bytes))
        ∙ ap (stored s addr) (sym (take_add 8 (n * 8) bytes) ∙ ap (λ k. take k bytes) count) in
      write-stored 8 s addr bytes (write_dwords write n ((base + addr + 8) % 2 ^ 64) (drop 8 bytes))
        good (inr refl) (omega (arith, k)) (omega (arith, l))
        (rw (next) (rest ∙ ap (λ t. ok (tt, t)) appended))

  -- Within the stretch, as_write_blob at an aligned address stores its bytes and nothing else.
  pub as_write_blob-stored :
      (s : S) (addr : ℕ) (bytes : List ℕ)
      → Holds s
      → (base + addr) % 8 ≡ 0
      → addr + length bytes ≤ len
      → as_write_blob write (base + addr) bytes s ≡ ok (tt, stored s addr bytes)
  unfolding as_write_blob
  as_write_blob-stored s addr bytes good aligned k =
      let size = length bytes in
      let whole = size / 8 * 8 in
      let part : whole ≤ size = omega arith in
      let tail = length-drop whole bytes in
      let first = length-take whole bytes part in
      let next : (base + addr + whole) % 2 ^ 64 ≡ base + (addr + whole) =
        omega (arith, k, part, fits) in
      let test : ((base + addr) % 8 == 0) ≡ true = grind arith in
      let past : addr + whole ≡ addr + length (take whole bytes) = omega (arith, first) in
      let appended =
        ap (λ a. stored (stored s addr (take whole bytes)) a (drop whole bytes)) past
        ∙ stored-append s addr (take whole bytes) (drop whole bytes)
        ∙ ap (stored s addr) (take-drop whole bytes) in
      let dwords =
        write_dwords-stored (size / 8) s addr bytes good (omega (arith, k, part))
          (omega (arith, part)) in
      let rest =
        write_bytes-stored (stored s addr (take whole bytes)) (addr + whole) (drop whole bytes)
          (stored-Holds s addr (take whole bytes) good) (omega (arith, k, tail, part)) in
      rw (test) (
        >>=-ok (write_dwords write (size / 8) (base + addr) bytes)
          (λ _. write_bytes write ((base + addr + whole) % 2 ^ 64) (drop whole bytes)) s dwords
          (rw (next) (rest ∙ ap (λ t. ok (tt, t)) appended)))
