-- ===== src/Module/Discover/Range.antt =====
-- The range that detect_syms_range finds in a file in the format of `nm`.
use mathlib.Core.List.{append_assoc}
use xemu.Base.{
  ℕ, ◌+◌, ◌-◌, ◌%◌, ◌^◌, ◌<◌, Bool, true, false, ◌&&◌, ltb, if◌then◌else◌, List, [], ◌∷◌, ◌++◌,
  some, ok, ◌≡◌, ◌≢◌, refl, ap, ◌∙◌, arith,
}
use xemu.Module.Names.{Name, starts_with}
use xemu.Text.{codes, strstr}
use xemu.Text.Positions.{Without-append}
use xemu.Text.Digits.{hex, hex-NoUnderscore}
use xemu.Text.Lines.{Without, lines}
use xemu.SystemMap.{MapItem}
use xemu.SystemMap.Render.{
  line_of, render, IsPrintable, AllPrintable, lines-render, c_string-line, strtoul16-line,
}
use xemu.Module.Discover.{
  Directory, system_map, page_offset, start_mark, end_mark, with_line, range_from,
  detect_syms_range,
}

starts_with-ends :
    (s part : Name) → Without b'\n' part → starts_with (s ++ b'\n' ∷ []) part ≡ starts_with s part
starts_with-ends s [] w = refl
starts_with-ends [] (p ∷ ps) w = ground arith
starts_with-ends (c ∷ cs) (p ∷ ps) w = ground (arith, starts_with-ends cs ps w.1)

-- A newline behind a string does not matter to `strstr`, nor do bytes in front of it that do not begin
-- the text.
strstr-ends :
    (s : Name) (p : ℕ) (ps : Name)
    → Without b'\n' (p ∷ ps)
    → strstr (s ++ b'\n' ∷ []) (p ∷ ps) ≡ strstr s (p ∷ ps)
unfolding strstr
strstr-ends [] p ps w = ground arith
strstr-ends (c ∷ cs) p ps w =
    ground (arith, strstr-ends cs p ps w, starts_with-ends (c ∷ cs) (p ∷ ps) w)

strstr-behind :
    (xs s : Name) (p : ℕ) (ps : Name) → Without p xs → strstr (xs ++ s) (p ∷ ps) ≡ strstr s (p ∷ ps)
unfolding strstr
strstr-behind [] s p ps w = refl
strstr-behind (x ∷ xs) s p ps w = ground (arith, strstr-behind xs s p ps w.1)

strstr-line :
    (kind : ℕ) (item : MapItem) (ps : Name)
    → kind ≢ b'_'
    → Without b'\n' (b'_' ∷ ps)
    → strstr (line_of kind item ++ b'\n' ∷ []) (b'_' ∷ ps) ≡ strstr item.name (b'_' ∷ ps)
strstr-line kind item ps k w =
    let front = hex 16 item.addr ++ b' ' ∷ kind ∷ b' ' ∷ [] in
    let e : line_of kind item ++ b'\n' ∷ [] ≡ front ++ (item.name ++ b'\n' ∷ []) =
      simp append_assoc in
    ap (λ t. strstr t (b'_' ∷ ps)) e
    ∙ strstr-behind front (item.name ++ b'\n' ∷ []) b'_' ps (
        Without-append b'_' (hex 16 item.addr) (b' ' ∷ kind ∷ b' ' ∷ [])
          (hex-NoUnderscore 16 item.addr)
          (λ q. absurd (omega arith), (k, (λ q. absurd (omega arith), tt))))
    ∙ strstr-ends item.name b'_' ps w

-- What `with_line` makes of a line, by the name on it.
module _ (kind : ℕ) (item : MapItem) (p : IsPrintable kind item) (k : kind ≢ b'_')
    (range : ℕ × ℕ) where
  with_line-render : with_line (line_of kind item ++ b'\n' ∷ []) range ≡ (
      if strstr item.name start_mark
      then (item.addr, range.1)
      else if strstr item.name end_mark
      then (range.0, item.addr)
      else range)
  unfolding with_line
  with_line-render =
      let starts = strstr-line kind item (codes "start_ksymtab_strings") k (ground arith) in
      let ends = strstr-line kind item (codes "end_ksymtab_strings") k (ground arith) in
      let value = strtoul16-line kind item p.addr_fits in
      λ j.
        if starts j
        then ((value j).0, range.1)
        else if ends j
        then (range.0, (value j).0)
        else range

-- No entry has a name in which one of the two marks stands.
abbrev pub Unmarked : List (ℕ × MapItem) → Type 0
Unmarked [] = Unit
Unmarked ((kind, item) ∷ items) =
    ((kind ≢ b'_') × (strstr item.name start_mark ≡ false) × (strstr item.name end_mark ≡ false))
    × Unmarked items

abbrev is_whole : ℕ × ℕ → Bool
is_whole range = ltb 0 range.0 && ltb 0 range.1

-- The end of a round: the loop stops with both addresses.
abbrev continue : List (ℕ × MapItem) → ℕ × ℕ → ℕ × ℕ
continue rest next = elim (is_whole next) [
  | true ↦ next
  | false ↦ range_from (lines (render rest)) next
]

range_from-line :
    (kind : ℕ) (item : MapItem) (rest : List (ℕ × MapItem)) (range next : ℕ × ℕ)
    → IsPrintable kind item
    → with_line (line_of kind item ++ b'\n' ∷ []) range ≡ next
    → range_from (lines (render ((kind, item) ∷ rest))) range ≡ continue rest next
unfolding range_from
range_from-line kind item rest range next p e =
    let read = ap (λ t. with_line t range) (c_string-line kind item p) ∙ e in
    ap (λ ls. range_from ls range) (lines-render kind item p rest) ∙ ap (λ n. continue rest n) read

unmarked :
    {b c : Bool} (x y z : ℕ × ℕ) → b ≡ false → c ≡ false → (if b then x else if c then y else z) ≡ z
unmarked x y z s e = rw (s, e) refl

start_marked : {name : Name} → name ≡ start_mark → strstr name start_mark ≡ true
unfolding strstr
start_marked e = ap (λ n. strstr n start_mark) e

end_marked :
    {name : Name}
    → name ≡ end_mark
    → (strstr name start_mark ≡ false) × (strstr name end_mark ≡ true)
unfolding strstr
end_marked e = (ap (λ n. strstr n start_mark) e, ap (λ n. strstr n end_mark) e)

range_from-Unmarked :
    (items rest : List (ℕ × MapItem)) (range : ℕ × ℕ)
    → AllPrintable items
    → Unmarked items
    → is_whole range ≡ false
    → range_from (lines (render (items ++ rest))) range ≡ range_from (lines (render rest)) range
range_from-Unmarked [] rest range p u h = refl
range_from-Unmarked ((kind, item) ∷ items) rest range (p, ps) ((k, s, e), us) h =
    range_from-line kind item (items ++ rest) range range p (
      with_line-render kind item p k range
      ∙ unmarked (item.addr, range.1) (range.0, item.addr) range s e)
    ∙ ap (λ b. elim b [ true ↦ range | false ↦ range_from (lines (render (items ++ rest))) range ])
        h
    ∙ range_from-Unmarked items rest range ps us h

-- detect_syms_range finds the addresses of the two marks in a file in the format of `nm` in which the
-- start stands before the end and no other line up to there has a mark in its name, if both addresses
-- are above 0 and the letter in front of neither mark is an underscore: `ksym_ptr` is the offset of the
-- start from `PAGE_OFFSET` and `ksym_num` the distance of the two, both cut to 32 bits.
pub detect_syms_range-render :
    (dir : Directory) (before mid after : List (ℕ × MapItem)) (i j : ℕ) (start end : MapItem)
    → AllPrintable before
    → AllPrintable mid
    → IsPrintable i start
    → IsPrintable j end
    → Unmarked before
    → Unmarked mid
    → (i ≢ b'_') × (j ≢ b'_')
    → start.name ≡ start_mark
    → end.name ≡ end_mark
    → (0 < start.addr) × (0 < end.addr)
    → dir.file system_map ≡ some (render (before ++ ((i, start) ∷ (mid ++ ((j, end) ∷ after)))))
    → detect_syms_range dir
      ≡ ok (
        (start.addr + 2 ^ 64 - page_offset) % 2 ^ 64 % 2 ^ 32,
        (end.addr + 2 ^ 64 - start.addr) % 2 ^ 64 % 2 ^ 32,
      )
unfolding detect_syms_range
detect_syms_range-render dir before mid after i j start end pb pm ps pe ub um k ns ne h file =
    let tail = mid ++ ((j, end) ∷ after) in
    let half : is_whole (start.addr, 0) ≡ false = ground arith in
    let both : is_whole (start.addr, end.addr) ≡ true = ground arith in
    let found : range_from (lines (render (before ++ ((i, start) ∷ tail)))) (0, 0)
        ≡ (start.addr, end.addr) =
      range_from-Unmarked before ((i, start) ∷ tail) (0, 0) pb ub refl
      ∙ range_from-line i start tail (0, 0) (start.addr, 0) ps
          (with_line-render i start ps k.0 (0, 0)
            ∙ ap
                (λ b.
                  if b
                  then (start.addr, 0)
                  else if strstr start.name end_mark
                  then (0, start.addr)
                  else (0, 0))
                (start_marked ns))
      ∙ ap
          (λ b. elim b [
            | true ↦ (start.addr, 0)
            | false ↦ range_from (lines (render tail)) (start.addr, 0)
          ])
          half
      ∙ range_from-Unmarked mid ((j, end) ∷ after) (start.addr, 0) pm um half
      ∙ range_from-line j end after (start.addr, 0) (start.addr, end.addr) pe
          (with_line-render j end pe k.1 (start.addr, 0)
            ∙ ap
                (λ b.
                  if b
                  then (end.addr, 0)
                  else if strstr end.name end_mark
                  then (start.addr, end.addr)
                  else (start.addr, 0))
                (end_marked ne).0
            ∙ ap (λ b. if b then (start.addr, end.addr) else (start.addr, 0)) (end_marked ne).1)
      ∙ ap
          (λ b. elim b [
            | true ↦ (start.addr, end.addr)
            | false ↦ range_from (lines (render after)) (start.addr, end.addr)
          ])
          both in
    rw (file, detect_syms_range)
      (ap
        (λ range. ok (
          (range.0 + 2 ^ 64 - page_offset) % 2 ^ 64 % 2 ^ 32,
          (range.1 + 2 ^ 64 - range.0) % 2 ^ 64 % 2 ^ 32,
        ))
        found)
