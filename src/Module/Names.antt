-- ===== src/Module/Names.antt =====
-- The names of module.c: C strings as lists of bytes without the NUL at their end.
use xemu.Base.{
  ℕ, Bool, true, false, ◌&&◌, ◌==◌, if◌then◌else◌, List, [], ◌∷◌, Option, none, some, Outcome, ok,
  undefined,
}

abbrev pub Name : Type 0
Name = List ℕ

-- `strcmp(a, b) == 0`.
abbrev pub same_name : Name → Name → Bool
same_name [] [] = true
same_name [] (b ∷ bs) = false
same_name (a ∷ as') [] = false
same_name (a ∷ as') (b ∷ bs) = a == b && same_name as' bs

-- `strncmp(name, prefix, strlen(prefix)) == 0`.
abbrev pub starts_with : Name → Name → Bool
starts_with name [] = true
starts_with [] (b ∷ bs) = false
starts_with (a ∷ as') (b ∷ bs) = a == b && starts_with as' bs

-- `strrchr(name, '.')`.
unfoldable pub from_last_dot : Name → Option Name
from_last_dot [] = none
from_last_dot (c ∷ cs) = elim (from_last_dot cs) [
  | some rest ↦ some rest
  | none ↦ if c == 46 then some (c ∷ cs) else none
]

-- "test_" and ".ko".
abbrev pub test_prefix : Name
test_prefix = 116 ∷ 101 ∷ 115 ∷ 116 ∷ 95 ∷ []

abbrev pub suffix_ko : Name
suffix_ko = 46 ∷ 107 ∷ 111 ∷ []

-- `check_module`, where `startpoint` is `_startpoint`. A name without a dot is handed to `strcmp` as
-- NULL.
unfoldable pub check_module : Option Name → Name → Outcome Bool
check_module startpoint name =
    if (elim startpoint [ some start ↦ starts_with name start | none ↦ false ])
    then ok true
    else if starts_with name test_prefix
    then ok false
    else elim (from_last_dot name) [
      | some suffix ↦ ok (same_name suffix suffix_ko)
      | none ↦ undefined
    ]
