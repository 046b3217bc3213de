-- ===== src/Yaml.antt =====
-- yaml.c and yaml.h: the lines of ./conf/trace.yml, each handed to a callback. Only the two levels of
-- the file's format are known: a line is the name of an object, or a key with its value.
pub mod Render
use xemu.Base.{
  ℕ, suc, ◌==◌, ◌||◌, if◌then◌else◌, List, [], ◌∷◌, Option, none, some, ok, panicked, undefined, M,
  lift, pure, ◌>>=◌, ◌>>◌, true, false,
}
use xemu.Module.Names.{Name}
use xemu.Space.{drop}
use xemu.Text.{c_string, strchr, slice, take}
use xemu.Text.Lines.{lines}

pub data Token : Type 0 where
  token_none token_obj token_kv : Token

-- What stands behind the spaces at the start of a line.
unfoldable pub skip_spaces : Name → Name
skip_spaces [] = []
skip_spaces (c ∷ cs) = elim (c == b' ') [ true ↦ skip_spaces cs | false ↦ c ∷ cs ]

module _ {S : Type 0} (cb : Token → Name → Name → M S (Unit {0})) where
  -- What follows the colon: an object, or a space and a value. A value whose line has no newline
  -- hands NULL to the subtraction.
  unfoldable pub after_colon : Name → Name → M S (Unit {0})
  after_colon name [] = lift panicked
  after_colon name (c ∷ value) =
      if c == b'\n'
      then cb token_obj name []
      else if c == b' '
      then (elim (strchr value b'\n') [
        | some end ↦ cb token_kv name (take end value)
        | none ↦ lift undefined
      ])
      else lift panicked

  -- `parse_line`, from the first byte that is no space. The result of the callback is not read.
  unfoldable pub parse_begin : Name → M S (Unit {0})
  parse_begin [] = pure tt
  parse_begin (c ∷ cs) = if c == b'#' then pure tt else elim (strchr (c ∷ cs) b':') [
    | some end ↦ after_colon (take end (c ∷ cs)) (drop (suc end) (c ∷ cs))
    | none ↦ pure tt
  ]

  unfoldable pub parse_line : Name → M S (Unit {0})
  parse_line line = parse_begin (skip_spaces line)

  unfoldable pub parse_lines : List (List ℕ) → M S (Unit {0})
  parse_lines [] = pure tt
  parse_lines (line ∷ rest) = do parse_line (c_string line); parse_lines rest

  -- `parse_yaml`, for the bytes of the file, or none if it cannot be opened.
  unfoldable pub parse_yaml : Option (List ℕ) → M S (Unit {0})
  parse_yaml none = lift panicked
  parse_yaml (some file) = parse_lines (lines file)
