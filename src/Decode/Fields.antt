-- ===== src/Decode/Fields.antt =====
-- What the decoders write through their pointers.
use xemu.Base.{ℕ, List, [], ◌∷◌, ◌==◌, if◌then◌else◌}
use xemu.Op.{Op}

pub record Decoded : Type 0 where
  pub op : Op
  pub rd : ℕ
  pub rs1 : ℕ
  pub rs2 : ℕ
  pub imm : ℕ
  pub csr_addr : ℕ
  pub opcode : ℕ

-- A `switch` whose cases all break.
abbrev pub switch {ℓ} : {A : Type ℓ} → ℕ → List (ℕ × A) → A → A
switch key [] otherwise = otherwise
switch key ((label, value) ∷ cases) otherwise =
    if key == label then value else switch key cases otherwise
