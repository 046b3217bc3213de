-- ===== src/Virtio/Layout.antt =====
-- Where vring_init puts the three rings of a queue.
use native.Mathlib.Nat.{div-add-mod', mod-lt, mul-mod_left}
use xemu.Base.{ℕ, ◌+◌, ◌-◌, ◌*◌, ◌/◌, ◌%◌, ◌^◌, ◌<◌, ◌≤◌, false, ◌==◌, ◌≡◌, refl, arith, Returns}
use xemu.Virtio.{Vring}
use xemu.Virtio.Queue.{vring_init, align_up}

-- Rounding up gives the least multiple that is not below.
align_up_bounds :
    (n m : ℕ)
    → 0 < m
    → n + m ≤ 2 ^ 64
    → (n ≤ align_up n m) × (align_up n m < n + m) × (align_up n m % m ≡ 0)
align_up_bounds n m positive fits =
    let cut : (n + m - 1) % 2 ^ 64 ≡ n + m - 1 = omega (arith, positive, fits) in
    let whole = div-add-mod' (n + m - 1) m in
    let small : (n + m - 1) % m < m = mod-lt (n + m - 1) positive in
    rw cut (
      omega (arith, whole, small, positive),
      omega (arith, whole, small, positive),
      mul-mod_left ((n + m - 1) / m) m,
    )

-- A queue with entries, an alignment and a page that is not 0, whose rings end below 2 ^ 64: the
-- descriptors are at the page, the available ring follows the last of them, and the used ring starts
-- at the next multiple of the alignment after the available ring, so that the rings do not overlap.
pub vring_init_layout :
    (vring : Vring) (pfn page_shift : ℕ)
    → 0 < vring.num
    → 0 < vring.align
    → 0 < pfn * 2 ^ page_shift
    → pfn * 2 ^ page_shift + vring.num * 16 + (4 + 2 * vring.num) + vring.align ≤ 2 ^ 64
    → Returns
        (λ r.
          (r.desc ≡ pfn * 2 ^ page_shift)
          × (r.avail ≡ r.desc + vring.num * 16)
          × (r.avail + (4 + 2 * vring.num) ≤ r.used)
          × (r.used < r.avail + (4 + 2 * vring.num) + vring.align)
          × (r.used % vring.align ≡ 0))
        (vring_init vring pfn page_shift)
unfolding vring_init
vring_init_layout vring pfn page_shift entries aligned page fits =
    let desc = pfn * 2 ^ page_shift in
    let avail = desc + vring.num * 16 in
    let c1 : desc % 2 ^ 64 ≡ desc = omega (arith, fits, aligned) in
    let c2 : avail % 2 ^ 64 ≡ avail = omega (arith, fits, aligned) in
    let c3 : (avail + (4 + 2 * vring.num)) % 2 ^ 64 ≡ avail + (4 + 2 * vring.num) =
      omega (arith, fits, aligned) in
    let g1 : (vring.num == 0) ≡ false = ground (arith, entries) in
    let g2 : (desc == 0) ≡ false = ground (arith, page) in
    let g3 : (vring.align == 0) ≡ false = ground (arith, aligned) in
    let (above, below, multiple) =
      align_up_bounds (avail + (4 + 2 * vring.num)) vring.align aligned fits in
    rw (vring_init, c1, c2, c3, g1, g2, g3) (refl, refl, above, below, multiple)
