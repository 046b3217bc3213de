-- ===== src/Text.antt =====
-- The C library on strings, as far as system_map.c, yaml.c, trace.c and module.c call it. A string is
-- the list of its bytes without the NUL at its end; a position is a number of bytes from its start.
pub mod Lines
pub mod Positions
pub mod Digits
use Prim.Native.Char.{code}
use Prim.Native.String.{String}
use xemu.Base.{
  ℕ, zero, suc, ◌+◌, ◌-◌, ◌*◌, ◌^◌, Bool, true, false, ◌&&◌, ◌||◌, ltb, leb, ◌==◌, if◌then◌else◌,
  List, [], ◌∷◌, Option, none, some, Outcome, ok, undefined,
}
use xemu.Base.Int.{ℤ, pos, sub_ℕ}
use xemu.Space.{drop}
use xemu.Module.Names.{Name, starts_with}

-- A string literal.
abbrev pub codes : String → Name
codes String.[] = []
codes (String.◌∷◌ c s) = code c ∷ codes s

-- An array of bytes as a string: what stands before the first NUL.
unfoldable pub c_string : List ℕ → Name
c_string [] = []
c_string (c ∷ cs) = if c == 0 then [] else c ∷ c_string cs

unfoldable pub take : ℕ → Name → Name
take zero s = []
take (suc n) [] = []
take (suc n) (c ∷ cs) = c ∷ take n cs

-- `strchr(s, c)`, as a position.
unfoldable pub strchr : Name → ℕ → Option ℕ
strchr [] c = none
strchr (x ∷ xs) c = elim (x == c) [
  | true ↦ some 0
  | false ↦ elim (strchr xs c) [ some i ↦ some (suc i) | none ↦ none ]
]

-- `strndup(s + from, to - from)`, for a position `to` that is not before `from`.
unfoldable pub slice : Name → ℕ → ℕ → Name
unfolding take
slice s from to = take (to - from) (drop from s)

-- `strstr(s, part) != NULL`.
unfoldable pub strstr : Name → Name → Bool
strstr [] part = starts_with [] part
strstr (c ∷ cs) part = starts_with (c ∷ cs) part || strstr cs part

abbrev pub is_space : ℕ → Bool
is_space c = c == b' ' || leb 9 c && leb c 13

unfoldable pub spaces : Name → ℕ
spaces [] = 0
spaces (c ∷ cs) = elim (is_space c) [ true ↦ suc (spaces cs) | false ↦ 0 ]

-- The value of a digit in any base up to 16.
unfoldable pub digit : ℕ → ℕ → Option ℕ
digit base c =
    let d =
      if leb b'0' c && leb c b'9'
      then c - b'0'
      else if leb b'a' c && leb c b'f'
      then c - b'a' + 10
      else if leb b'A' c && leb c b'F'
      then c - b'A' + 10
      else 16 in
    if ltb d base then some d else none

-- The digits at the start of a string: the number they make with those before, and how many there
-- are with those before.
unfoldable pub digits : ℕ → ℕ → ℕ → Name → ℕ × ℕ
digits base acc count [] = (acc, count)
digits base acc count (c ∷ cs) = elim (digit base c) [
  | some d ↦ digits base (acc * base + d) (suc count) cs
  | none ↦ (acc, count)
]

-- The number of bytes of a sign, and whether it is a minus.
unfoldable pub sign : Name → ℕ × Bool
sign [] = (0, false)
sign (c ∷ cs) = (if c == b'+' || c == b'-' then 1 else 0, c == b'-')

-- The number of bytes of the prefix that base 16 allows: "0x" before a digit.
unfoldable pub hex_prefix : Name → ℕ
hex_prefix (z ∷ x ∷ c ∷ cs) = elim (digit 16 c) [
  | some d ↦ if z == b'0' && (x == b'x' || x == b'X') then 2 else 0
  | none ↦ 0
]
hex_prefix _ = 0

-- What `strtoul` and `strtol` read: whether a minus stands before the digits, the number that the
-- digits make, and the position behind them, which is 0 where there is no digit.
unfoldable pub scan : ℕ → Name → Bool × ℕ × ℕ
scan base s =
    let blank = spaces s in
    let signed = sign (drop blank s) in
    let unsigned = drop (blank + signed.0) s in
    let prefix = (if base == 16 then hex_prefix unsigned else 0) in
    let read = digits base 0 0 (drop prefix unsigned) in
    if read.1 == 0 then (false, 0, 0) else (signed.1, read.0, blank + signed.0 + prefix + read.1)

-- `strtoul(s, &end, 16)`: the value, which stops at `ULONG_MAX`, and `end`.
unfoldable pub strtoul16 : Name → ℕ × ℕ
unfolding scan
strtoul16 s =
    let read = scan 16 s in
    let value =
      if leb (2 ^ 64) read.1
      then 2 ^ 64 - 1
      else if read.0 && ltb 0 read.1
      then 2 ^ 64 - read.1
      else read.1 in
    (value, read.2)

-- `atoi(s)`: a number that an `int` cannot hold is undefined.
unfoldable pub atoi : Name → Outcome ℤ
unfolding scan
atoi s =
    let read = scan 10 s in
    if read.0
    then (if leb read.1 (2 ^ 31) then ok (sub_ℕ 0 read.1) else undefined)
    else if ltb read.1 (2 ^ 31)
    then ok (pos read.1)
    else undefined
