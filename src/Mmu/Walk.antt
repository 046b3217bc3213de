-- ===== src/Mmu/Walk.antt =====
-- The page-table walk against the translation scheme that it implements, Sv39, in arithmetic: a
-- table of 512 entries of eight bytes at each of three levels, and pages of 4 KiB, 2 MiB and 1 GiB.
use xemu.Base.{
  ℕ, zero, suc, ◌+◌, ◌*◌, ◌/◌, ◌%◌, ◌^◌, ◌<◌, ◌≡◌, arith, bit_or, Bool, true, ◌&&◌, ◌||◌, not, leb,
  ◌-◌, false, ◌==◌, if◌then◌else◌, Option, none, some, ok, ◌⊎◌,
}
use xemu.Word.{◌<<<◌}
use xemu.Word.Fields.{bits_lem, bit_lem, bit_or_disjoint}
use xemu.Csr.{CsrFile, csr_read, kind, is_stored}
use xemu.Csr.Number
use xemu.Csr.Cause
use xemu.Space.{no_params, Ops}
use xemu.Ram.{load_le}
use xemu.Bus.{Bus}
use xemu.System.{Devices, system_bus}
use xemu.System.Map.{read_nommu-ram}
use xemu.Machine.{Machine}
use xemu.Mmu.{is_fault, is_leaf, level0, level1, level2, mmu}

-- Bit `i` of an entry, and its page number.
abbrev flag : ℕ → ℕ → Bool
flag pte i = pte / 2 ^ i % 2 == 1

abbrev ppn : ℕ → ℕ
ppn pte = pte / 2 ^ 10 % 2 ^ 44

-- The size of a page at a level: 2 ^ 12, 2 ^ 21, 2 ^ 30.
abbrev page : ℕ → ℕ
page level = 2 ^ (12 + 9 * level)

-- Valid, and not writable without being readable; a leaf can be read or executed.
abbrev is_valid : ℕ → Bool
is_valid pte = flag pte 0 && (flag pte 1 || not (flag pte 2))

abbrev maps_page : ℕ → Bool
maps_page pte = flag pte 1 || flag pte 3

-- The translation of `vaddr` with the table of page number `table`, `mem` being the 64-bit words of
-- memory. A leaf gives the page number, without the low bits that a large page ignores, and the
-- offset in the page.
unfoldable pub sv39 : (ℕ → ℕ) → ℕ → ℕ → ℕ → Option ℕ
sv39 mem vaddr table zero =
    let pte = mem (table * 4096 + vaddr / page 0 % 512 * 8) in
    if is_valid pte && maps_page pte then some (ppn pte * 4096 + vaddr % page 0) else none
sv39 mem vaddr table (suc level) =
    let pte = mem (table * 4096 + vaddr / page (suc level) % 512 * 8) in
    let below = sv39 mem vaddr (ppn pte) level in
    if is_valid pte
    then if maps_page pte
      then some (ppn pte / 512 ^ suc level * page (suc level) + vaddr % page (suc level))
      else below
    else none

-- The walk reads only entries at addresses that pass the test: it goes on below an entry that points to
-- a table.
unfoldable pub walks_in : (ℕ → Bool) → (ℕ → ℕ) → ℕ → ℕ → ℕ → Bool
walks_in inside mem vaddr table zero = inside (table * 4096 + vaddr / page 0 % 512 * 8)
walks_in inside mem vaddr table (suc level) =
    let entry = table * 4096 + vaddr / page (suc level) % 512 * 8 in
    let below = walks_in inside mem vaddr (ppn (mem entry)) level in
    if inside entry
    then if is_valid (mem entry) && not (maps_page (mem entry)) then below else true
    else false

is_fault-eq-is_valid : (pte : ℕ) → is_fault pte ≡ not (is_valid pte)
unfolding is_fault
is_fault-eq-is_valid pte = ground (arith, bit_lem pte 0, bit_lem pte 1, bit_lem pte 2)

is_leaf-eq-maps_page : (pte : ℕ) → is_leaf pte ≡ maps_page pte
unfolding is_leaf
is_leaf-eq-maps_page pte = ground (arith, bit_lem pte 1, bit_lem pte 3)

-- The address of an entry, and of a mapped byte.
entry_address :
    (table index : ℕ)
    → table < 2 ^ 44
    → index < 512
    → bit_or (table <<< 12) (index <<< 3) ≡ table * 4096 + index * 8
unfolding ◌<<<◌
entry_address table index h k = ground (arith, bit_or_disjoint 12 (table * 4096) (index * 8))

leaf12 : (q r : ℕ) → q < 2 ^ 44 → r < 2 ^ 12 → bit_or (q <<< 12) r ≡ q * 2 ^ 12 + r
unfolding ◌<<<◌
leaf12 q r h k = ground (arith, bit_or_disjoint 12 (q * 2 ^ 12) r)

leaf21 : (q r : ℕ) → q < 2 ^ 35 → r < 2 ^ 21 → bit_or (q <<< 21) r ≡ q * 2 ^ 21 + r
unfolding ◌<<<◌
leaf21 q r h k = ground (arith, bit_or_disjoint 21 (q * 2 ^ 21) r)

leaf30 : (q r : ℕ) → q < 2 ^ 26 → r < 2 ^ 30 → bit_or (q <<< 30) r ≡ q * 2 ^ 30 + r
unfolding ◌<<<◌
leaf30 q r h k = ground (arith, bit_or_disjoint 30 (q * 2 ^ 30) r)

-- Addresses are physical in M mode and where the mode field of satp is 0.
unfoldable pub is_bare : CsrFile → Bool
is_bare c = c.priv == Cause.m_mode || c.csr Number.satp / 2 ^ 60 % 16 == 0

unfoldable pub translate : (ℕ → ℕ) → CsrFile → ℕ → Option ℕ
translate mem c vaddr =
    if is_bare c then some vaddr else sv39 mem vaddr (c.csr Number.satp % 2 ^ 44) 2

module _ {S : Type 0} (bus : Bus S) (mem : ℕ → ℕ) (s : Machine S) (inside : ℕ → Bool)
    (reads : (a : ℕ) → inside a ≡ true → bus.read_nommu a 8 no_params s.dev ≡ ok (mem a, s.dev))
    (vaddr : ℕ) where
  level0-sv39 :
      (table : ℕ)
      → table < 2 ^ 44
      → walks_in inside mem vaddr table 0 ≡ true
      → level0 bus vaddr table s ≡ ok (sv39 mem vaddr table 0, s)
  unfolding level0 sv39 walks_in
  level0-sv39 table fits walks =
      let index = vaddr / 2 ^ 12 % 512 in
      let pte = mem (table * 4096 + index * 8) in
      ground (
        arith,
        bits_lem vaddr 20 12,
        entry_address table index,
        reads (table * 4096 + index * 8),
        is_fault-eq-is_valid pte,
        is_leaf-eq-maps_page pte,
        bits_lem pte 53 10,
        bits_lem vaddr 11 0,
        leaf12 (ppn pte) (vaddr % 2 ^ 12),
      )

  level1-sv39 :
      (table : ℕ)
      → table < 2 ^ 44
      → walks_in inside mem vaddr table 1 ≡ true
      → level1 bus vaddr table s ≡ ok (sv39 mem vaddr table 1, s)
  unfolding level1 sv39 walks_in
  level1-sv39 table fits walks =
      let index = vaddr / 2 ^ 21 % 512 in
      let pte = mem (table * 4096 + index * 8) in
      ground (
        arith,
        bits_lem vaddr 29 21,
        entry_address table index,
        reads (table * 4096 + index * 8),
        is_fault-eq-is_valid pte,
        is_leaf-eq-maps_page pte,
        bits_lem pte 53 10,
        bits_lem pte 53 19,
        bits_lem vaddr 20 0,
        leaf21 (ppn pte / 512) (vaddr % 2 ^ 21),
        level0-sv39 (ppn pte),
      )

  level2-sv39 :
      (table : ℕ)
      → table < 2 ^ 44
      → walks_in inside mem vaddr table 2 ≡ true
      → level2 bus vaddr table s ≡ ok (sv39 mem vaddr table 2, s)
  unfolding level2 sv39 walks_in
  level2-sv39 table fits walks =
      let index = vaddr / 2 ^ 30 % 512 in
      let pte = mem (table * 4096 + index * 8) in
      ground (
        arith,
        bits_lem vaddr 38 30,
        entry_address table index,
        reads (table * 4096 + index * 8),
        is_fault-eq-is_valid pte,
        is_leaf-eq-maps_page pte,
        bits_lem pte 53 10,
        bits_lem pte 53 28,
        bits_lem vaddr 29 0,
        leaf30 (ppn pte / 512 / 512) (vaddr % 2 ^ 30),
        level1-sv39 (ppn pte),
      )

  mmu-sv39 :
      (is_bare s.csrs || walks_in inside mem vaddr (s.csrs.csr Number.satp % 2 ^ 44) 2) ≡ true
      → mmu bus vaddr s ≡ ok (translate mem s.csrs vaddr, s)
  unfolding mmu translate is_bare csr_read kind is_stored
  mmu-sv39 walks =
      let satp = s.csrs.csr Number.satp in
      ground (arith, bits_lem satp 63 60, bits_lem satp 43 0, level2-sv39 (satp % 2 ^ 44))

sv39_page0 :
    (mem : ℕ → ℕ) (vaddr table p : ℕ)
    → sv39 mem vaddr table 0 ≡ some p
    → (p % 4096 ≡ vaddr % 4096) × (p < 2 ^ 56)
unfolding sv39
sv39_page0 mem vaddr table p h = ground arith

sv39_page1 :
    (mem : ℕ → ℕ) (vaddr table p : ℕ)
    → sv39 mem vaddr table 1 ≡ some p
    → (p % 4096 ≡ vaddr % 4096) × (p < 2 ^ 56)
unfolding sv39
sv39_page1 mem vaddr table p h =
    ground (arith, sv39_page0 mem vaddr (ppn (mem (table * 4096 + vaddr / 2 ^ 21 % 512 * 8))) p)

sv39_page :
    (mem : ℕ → ℕ) (vaddr table p : ℕ)
    → sv39 mem vaddr table 2 ≡ some p
    → (p % 4096 ≡ vaddr % 4096) × (p < 2 ^ 56)
unfolding sv39
sv39_page mem vaddr table p h =
    ground (arith, sv39_page1 mem vaddr (ppn (mem (table * 4096 + vaddr / 2 ^ 30 % 512 * 8))) p)

-- The addresses of RAM at which a double word ends within it, and the double words.
abbrev pub in_ram : ℕ → Bool
in_ram a = leb 0x80000000 a && leb (a + 8) 0x100000000

abbrev pub words_of : {O : Type 0} → Devices O → ℕ → ℕ
words_of d a = load_le d.ram_state.mem (a - 0x80000000) 8

module _ {O : Type 0} (other : Ops ℕ O) (s : Machine (Devices O)) (vaddr : ℕ)
    (size : s.dev.ram_state.mem_size ≡ 0x80000000)
    (walks : (is_bare s.csrs
        || walks_in in_ram (words_of s.dev) vaddr (s.csrs.csr Number.satp % 2 ^ 44) 2)
      ≡ true) where
  pub mmu-translate :
      mmu (system_bus other) vaddr s ≡ ok (translate (words_of s.dev) s.csrs vaddr, s)
  mmu-translate =
      mmu-sv39 (system_bus other) (words_of s.dev) s in_ram
        (λ a inside.
          read_nommu-ram other s.dev a (ground (arith, inside)) (ground (arith, inside)) size)
        vaddr walks

  -- A translated address is at the same place of its page as the virtual one, and has 56 bits if
  -- the walk was made.
  pub mmu_page :
      (p : ℕ) (s' : Machine (Devices O))
      → mmu (system_bus other) vaddr s ≡ ok (some p, s')
      → (p % 4096 ≡ vaddr % 4096) × ((is_bare s.csrs ≡ true) ⊎ (p < 2 ^ 56))
  unfolding translate
  mmu_page p s' h =
      ground
        (arith, mmu-translate, sv39_page (words_of s.dev) vaddr (s.csrs.csr Number.satp % 2 ^ 44) p)
