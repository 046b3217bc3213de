-- ===== src/SystemMap/Render.antt =====
-- A file in the format of System.map, as `nm` prints it, and what setup_system_map makes of it.
use mathlib.Core.List.{append_assoc}
use xemu.Base.{
  ℕ, ◌+◌, ◌^◌, ◌<◌, List, [], ◌∷◌, ◌++◌, length, some, ok, ◌≡◌, ◌≢◌, refl, sym, ap, ◌∙◌, arith,
  length-append,
}
use xemu.Space.{drop}
use xemu.Text.{strtoul16, strchr, take, slice, c_string}
use xemu.Text.Lines.{Without, lines, lines_from, lines_from-append}
use xemu.Text.Digits.{hex, length-hex, hex-Without, strtoul16-hex}
use xemu.Text.Positions.{Without-append, strchr-append, c_string-Without, take-append, drop-append}
use xemu.SystemMap.{MapItem, item_name, line_item, read_lines, setup_system_map}

-- A line without its newline: the address in 16 digits, the kind of the symbol, and its name.
abbrev pub line_of : ℕ → MapItem → List ℕ
line_of kind item = hex 16 item.addr ++ (b' ' ∷ kind ∷ b' ' ∷ item.name)

-- The file, with the kind of each symbol.
unfoldable pub render : List (ℕ × MapItem) → List ℕ
render [] = []
render ((kind, item) ∷ items) = line_of kind item ++ (b'\n' ∷ render items)

-- The entries whose lines the format can express: the line fits into the buffer.
pub record IsPrintable (kind : ℕ) (item : MapItem) : Type 0 where
  pub addr_fits : item.addr < 2 ^ 64
  pub kind_ne : (kind ≢ 0) × (kind ≢ b'\n')
  pub no_nul : Without 0 item.name
  pub no_newline : Without b'\n' item.name
  pub name_fits : length item.name < 236

abbrev pub AllPrintable : List (ℕ × MapItem) → Type 0
AllPrintable [] = Unit
AllPrintable ((kind, item) ∷ items) = IsPrintable kind item × AllPrintable items

abbrev pub items_of : List (ℕ × MapItem) → List MapItem
items_of [] = []
items_of ((kind, item) ∷ items) = item ∷ items_of items

module _ (kind : ℕ) (item : MapItem) where
  line-Without : (c : ℕ) → kind ≢ c → c < 32 → Without c item.name → Without c (line_of kind item)
  line-Without c k h w =
      Without-append c (hex 16 item.addr) (b' ' ∷ kind ∷ b' ' ∷ item.name)
        (hex-Without c 16 item.addr (omega arith))
        (λ e. absurd (omega arith), (k, (λ e. absurd (omega arith), w)))

  length-line : length (line_of kind item) ≡ 19 + length item.name
  length-line = omega (
    arith,
    length-append {0} (hex 16 item.addr) (b' ' ∷ kind ∷ b' ' ∷ item.name),
    length-hex 16 item.addr,
  )

  pub strtoul16-line :
      item.addr < 2 ^ 64 → strtoul16 (line_of kind item ++ b'\n' ∷ []) ≡ (item.addr, 16)
  strtoul16-line h = rw append_assoc (strtoul16-hex item.addr _ h)

  -- What stands in front of the name.
  slice-line : slice (line_of kind item ++ b'\n' ∷ []) 19 (19 + length item.name) ≡ item.name
  unfolding slice
  slice-line =
      let front = hex 16 item.addr ++ b' ' ∷ kind ∷ b' ' ∷ [] in
      let e : line_of kind item ++ b'\n' ∷ [] ≡ front ++ (item.name ++ b'\n' ∷ []) =
        simp append_assoc in
      let n : length front ≡ 19 = omega (
        arith,
        length-append {0} (hex 16 item.addr) (b' ' ∷ kind ∷ b' ' ∷ []),
        length-hex 16 item.addr,
      ) in
      ap (λ t. take t (drop 19 (line_of kind item ++ b'\n' ∷ []))) (omega arith)
      ∙ ap (λ t. take (length item.name) (drop 19 t)) e
      ∙ ap (λ t. take (length item.name) (drop t (front ++ (item.name ++ b'\n' ∷ [])))) (sym n)
      ∙ ap (take (length item.name)) (drop-append front (item.name ++ b'\n' ∷ []))
      ∙ take-append item.name (b'\n' ∷ [])

  line_item-line :
      IsPrintable kind item → line_item (line_of kind item ++ b'\n' ∷ []) ≡ ok (some item)
  unfolding line_item item_name
  line_item-line p =
      let space : strchr (line_of kind item ++ b'\n' ∷ []) b' ' ≡ some (length (hex 16 item.addr)) =
        rw append_assoc
          (strchr-append b' ' (hex 16 item.addr) _ (hex-Without b' ' 16 item.addr (omega arith))) in
      let newline : strchr (line_of kind item ++ b'\n' ∷ []) b'\n' ≡ some (19 + length item.name) =
        strchr-append b'\n' (line_of kind item) []
          (line-Without b'\n' p.kind_ne.1 (omega arith) p.no_newline)
        ∙ ap some length-line in
      rw (space, newline, line_item) (simp (strtoul16-line p.addr_fits, slice-line) (ground arith))

module _ (kind : ℕ) (item : MapItem) (p : IsPrintable kind item) where
  -- A line of the file as `fgets` gives it.
  pub lines-render :
      (items : List (ℕ × MapItem))
      → lines (render ((kind, item) ∷ items))
        ≡ (line_of kind item ++ b'\n' ∷ []) ∷ lines (render items)
  unfolding render
  lines-render items =
      lines_from-append 255 (line_of kind item) (render items)
        (line-Without kind item b'\n' p.kind_ne.1 (omega arith) p.no_newline)
        (omega (arith, length-line kind item, p.name_fits))

  pub c_string-line : c_string (line_of kind item ++ b'\n' ∷ []) ≡ line_of kind item ++ b'\n' ∷ []
  c_string-line = c_string-Without (line_of kind item ++ b'\n' ∷ []) (
      Without-append 0 (line_of kind item) (b'\n' ∷ [])
        (line-Without kind item 0 p.kind_ne.0 (omega arith) p.no_nul)
        (λ e. absurd (omega arith), tt))

read_lines-render :
    (items : List (ℕ × MapItem))
    → AllPrintable items
    → read_lines (lines (render items)) ≡ ok (items_of items)
unfolding read_lines render lines_from
read_lines-render [] p = refl
read_lines-render ((kind, item) ∷ items) (p, ps) =
    rw
      (
        lines-render kind item p items,
        read_lines,
        c_string-line kind item p,
        line_item-line kind item p,
        read_lines-render items ps,
      )
      refl

-- setup_system_map gives the entries of a file in the format of `nm`, in their order: every name with
-- its address, if the addresses have 64 bits and each line fits into the buffer of 256 bytes.
pub setup_system_map-render :
    (items : List (ℕ × MapItem))
    → AllPrintable items
    → setup_system_map (some (render items)) ≡ ok (items_of items)
unfolding setup_system_map
setup_system_map-render items p = read_lines-render items p
