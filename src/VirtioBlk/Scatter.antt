-- ===== src/VirtioBlk/Scatter.antt =====
-- The vectors of a request, and the piece of the disk that the loop of _handle_read spreads over them.
use xemu.Base.{
  ℕ, zero, suc, ◌+◌, ◌-◌, ◌%◌, ◌≤◌, ◌<◌, ◌⊎◌, inl, inr, List, [], ◌∷◌, ◌++◌, length, map, ok, M,
  pure, ◌>>=◌, ◌≡◌, refl, sym, ap, ◌∙◌, arith, leb, true, ◌==◌, ◌||◌,
}
use xemu.Space.{Params, as_read_blob}
use xemu.Virtio.{Iovec}
use xemu.VirtioBlk.{DiskFile, bytes_at, disk_read}
use xemu.Blob.Bytes.{
  load_bytes, load_bytes-append, load_bytes-store_bytes, store_bytes, store_bytes-outside,
}

-- The sum of the lengths.
abbrev pub total : List Iovec → ℕ
total [] = 0
total (v ∷ vs) = v.len + total vs

-- Every vector is aligned and lies within the stretch.
abbrev pub Placed : ℕ → ℕ → List Iovec → Type 0
Placed base len [] = Unit {0}
Placed base len (v ∷ vs) =
    (v.base % 8 ≡ 0) × (base ≤ v.base) × (v.base + v.len ≤ base + len) × Placed base len vs

-- No two vectors overlap.
abbrev pub Apart : Iovec → List Iovec → Type 0
Apart v [] = Unit {0}
Apart v (w ∷ ws) = ((w.base + w.len ≤ v.base) ⊎ (v.base + v.len ≤ w.base)) × Apart v ws

abbrev pub Disjoint : List Iovec → Type 0
Disjoint [] = Unit {0}
Disjoint (v ∷ vs) = Apart v vs × Disjoint vs

-- The driver's view: the vectors read one after the other.
abbrev pub gather : {S : Type 0} → (ℕ → ℕ → Params → M S ℕ) → List Iovec → M S (List ℕ)
gather read [] = pure []
gather read (v ∷ vs) = do
  bytes ← as_read_blob read v.base v.len
  rest ← gather read vs
  pure (bytes ++ rest)

pub length-bytes_at : (contents : ℕ → ℕ) (pos n : ℕ) → length (bytes_at contents pos n) ≡ n
unfolding bytes_at
length-bytes_at contents pos zero = refl
length-bytes_at contents pos (suc n) = omega (arith, length-bytes_at contents (pos + 1) n)

pub bytes_at-small :
    (contents : ℕ → ℕ) (pos n : ℕ)
    → map (λ b. b % 256) (bytes_at contents pos n) ≡ bytes_at contents pos n
unfolding bytes_at
bytes_at-small contents pos zero = refl
bytes_at-small contents pos (suc n) =
    let low : contents pos % 256 % 256 ≡ contents pos % 256 = omega arith in
    λ i. low i ∷ bytes_at-small contents (pos + 1) n i

pub bytes_at-load_bytes :
    (contents : ℕ → ℕ) (pos n : ℕ) → load_bytes contents pos n ≡ bytes_at contents pos n
unfolding bytes_at
bytes_at-load_bytes contents pos zero = refl
bytes_at-load_bytes contents pos (suc n) =
    ap (λ t. contents pos % 256 ∷ t) (bytes_at-load_bytes contents (pos + 1) n)

load_bytes-eq :
    (f g : ℕ → ℕ) (addr n : ℕ)
    → ((j : ℕ) → addr ≤ j → j < addr + n → f j ≡ g j)
    → load_bytes f addr n ≡ load_bytes g addr n
load_bytes-eq f g addr zero same = refl
load_bytes-eq f g addr (suc n) same =
    let first = same addr (omega arith) (omega arith) in
    let rest =
      load_bytes-eq f g (addr + 1) n (λ j lo hi. same j (omega (arith, lo)) (omega (arith, hi))) in
    λ i. first i % 256 ∷ rest i

pub disk_read-held :
    (file : DiskFile) (pos n : ℕ)
    → pos + n ≤ file.size
    → disk_read file pos n ≡ ok (bytes_at file.contents pos n)
unfolding disk_read
disk_read-held file pos n room =
    let held : (n == 0 || leb (pos + n) file.size) ≡ true = grind (arith, room) in rw held

-- The memory after the loop.
abbrev pub scatter : ℕ → (ℕ → ℕ) → (ℕ → ℕ) → ℕ → List Iovec → ℕ → ℕ
scatter base contents f pos [] = f
scatter base contents f pos (v ∷ vs) =
    scatter base contents (store_bytes f (v.base - base) (bytes_at contents pos v.len))
      (pos + v.len) vs

-- What stands in the vectors.
abbrev pub loaded : ℕ → (ℕ → ℕ) → List Iovec → List ℕ
loaded base g [] = []
loaded base g (v ∷ vs) = load_bytes g (v.base - base) v.len ++ loaded base g vs

module _ (base len : ℕ) (contents : ℕ → ℕ) where
  -- What stands in a vector that is apart from all others stays.
  scatter-Apart :
      (f : ℕ → ℕ) (pos : ℕ) (v : Iovec) (vs : List Iovec) (j : ℕ)
      → base ≤ v.base
      → Placed base len vs
      → Apart v vs
      → v.base - base ≤ j
      → j < v.base - base + v.len
      → scatter base contents f pos vs j ≡ f j
  scatter-Apart f pos v [] j low placed apart lo hi = refl
  scatter-Apart f pos v (w ∷ ws) j low (_, above, _, placed) (side, apart) lo hi =
      let stored = bytes_at contents pos w.len in
      let size = length-bytes_at contents pos w.len in
      scatter-Apart (store_bytes f (w.base - base) stored) (pos + w.len) v ws j low placed apart lo
        hi
      ∙ store_bytes-outside f (w.base - base) stored j (elim side [
        | inl before ↦ inr (omega (arith, before, size, above, low, lo))
        | inr behind ↦ inl (omega (arith, behind, above, low, hi))
      ])

  load_bytes-scatter :
      (f : ℕ → ℕ) (pos : ℕ) (v : Iovec) (vs : List Iovec)
      → base ≤ v.base
      → Placed base len vs
      → Apart v vs
      → load_bytes
          (scatter base contents
            (store_bytes f (v.base - base) (bytes_at contents pos v.len))
            (pos + v.len)
            vs)
          (v.base - base)
          v.len
        ≡ bytes_at contents pos v.len
  load_bytes-scatter f pos v vs low placed apart =
      let bytes = bytes_at contents pos v.len in
      let g = store_bytes f (v.base - base) bytes in
      load_bytes-eq (scatter base contents g (pos + v.len) vs) g (v.base - base) v.len
        (λ j lo hi. scatter-Apart g (pos + v.len) v vs j low placed apart lo hi)
      ∙ ap (load_bytes g (v.base - base)) (sym (length-bytes_at contents pos v.len))
      ∙ load_bytes-store_bytes f (v.base - base) bytes
      ∙ bytes_at-small contents pos v.len

  pub loaded-scatter :
      (f : ℕ → ℕ) (pos : ℕ) (vs : List Iovec)
      → Placed base len vs
      → Disjoint vs
      → loaded base (scatter base contents f pos vs) vs ≡ bytes_at contents pos (total vs)
  unfolding bytes_at
  loaded-scatter f pos [] placed disjoint = refl
  loaded-scatter f pos (v ∷ vs) (_, low, _, placed) (apart, disjoint) =
      let g = store_bytes f (v.base - base) (bytes_at contents pos v.len) in
      let first = load_bytes-scatter f pos v vs low placed apart in
      let rest = loaded-scatter g (pos + v.len) vs placed disjoint in
      ap (λ t. t ++ loaded base (scatter base contents g (pos + v.len) vs) vs) first
      ∙ ap (λ t. bytes_at contents pos v.len ++ t) rest
      ∙ ap (λ t. t ++ bytes_at contents (pos + v.len) (total vs))
          (sym (bytes_at-load_bytes contents pos v.len))
      ∙ ap (λ t. load_bytes contents pos v.len ++ t)
          (sym (bytes_at-load_bytes contents (pos + v.len) (total vs)))
      ∙ sym (load_bytes-append contents pos v.len (total vs))
      ∙ bytes_at-load_bytes contents pos (v.len + total vs)
