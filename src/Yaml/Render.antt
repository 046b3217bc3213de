-- ===== src/Yaml/Render.antt =====
-- A file in the format of trace.yml, and what parse_yaml hands to the callback.
use mathlib.Core.List.{append_assoc}
use xemu.Base.{
  ℕ, zero, suc, ◌<◌, List, [], ◌∷◌, ◌++◌, length, replicate, some, ◌≡◌, ◌≢◌, refl, ap, ◌∙◌, arith,
  M, pure, ◌>>◌, ◌==◌, false,
}
use xemu.Module.Names.{Name}
use xemu.Space.{drop}
use xemu.Text.{take}
use xemu.Text.Lines.{Without, lines, lines_from, lines_from-append}
use xemu.Text.Positions.{
  Without-append, strchr-append, c_string-Without, take-append, drop-suc-append,
}
use xemu.Yaml.{
  Token, token_obj, token_kv, skip_spaces, after_colon, parse_begin, parse_line, parse_lines,
  parse_yaml,
}

pub data Content : Type 0 where
  object : Name → Content
  setting : Name → Name → Content

-- A line without its newline, behind `indent` spaces.
abbrev pub text_of : Content → List ℕ
text_of (object name) = name ++ b':' ∷ []
text_of (setting key value) = key ++ (b':' ∷ b' ' ∷ value)

abbrev pub line_of : ℕ → Content → List ℕ
line_of indent content = replicate indent b' ' ++ text_of content

unfoldable pub render : List (ℕ × Content) → List ℕ
render [] = []
render ((indent, content) ∷ rest) = line_of indent content ++ (b'\n' ∷ render rest)

-- A key that the format can express.
abbrev pub Starts : Name → Type 0
Starts [] = Unit
Starts (c ∷ cs) = (c ≢ b' ') × (c ≢ b'#')

pub record IsKey (key : Name) : Type 0 where
  pub starts : Starts key
  pub no_nul : Without 0 key
  pub no_newline : Without b'\n' key
  pub no_colon : Without b':' key

abbrev pub Expressible : Content → Type 0
Expressible (object name) = IsKey name
Expressible (setting key value) = IsKey key × Without 0 value × Without b'\n' value

abbrev pub AllPrintable : List (ℕ × Content) → Type 0
AllPrintable [] = Unit
AllPrintable ((indent, content) ∷ rest) =
    Expressible content × (length (line_of indent content) < 255) × AllPrintable rest

skip_spaces-replicate :
    (indent : ℕ) (s : List ℕ) → skip_spaces (replicate indent b' ' ++ s) ≡ skip_spaces s
unfolding skip_spaces
skip_spaces-replicate zero s = refl
skip_spaces-replicate (suc n) s = skip_spaces-replicate n s

skip_spaces-key :
    (key rest : Name) → Starts key → skip_spaces (key ++ (b':' ∷ rest)) ≡ key ++ (b':' ∷ rest)
unfolding skip_spaces
skip_spaces-key [] rest h = refl
skip_spaces-key (c ∷ cs) rest h = ground arith

module _ {S : Type 0} (cb : Token → Name → Name → M S (Unit {0})) where
  -- The call of the callback for a line.
  abbrev pub call : Content → M S (Unit {0})
  call (object name) = cb token_obj name []
  call (setting key value) = cb token_kv key value

  unfoldable pub calls : List (ℕ × Content) → M S (Unit {0})
  calls [] = pure tt
  calls ((indent, content) ∷ rest) = do call content; calls rest

  parse_begin-key :
      (key rest : Name)
      → IsKey key
      → parse_begin cb (key ++ (b':' ∷ rest)) ≡ after_colon cb key rest
  unfolding parse_begin
  parse_begin-key [] rest k = rw (strchr-append b':' [] rest tt) (unfold take drop in refl)
  parse_begin-key (c ∷ cs) rest k =
      let text = c ∷ cs in
      let plain : (c == b'#') ≡ false = ground arith in
      rw (plain, strchr-append b':' text rest k.no_colon)
        (ap (λ t. after_colon cb t (drop (suc (length text)) (text ++ (b':' ∷ rest))))
            (take-append text (b':' ∷ rest))
          ∙ ap (after_colon cb text) (drop-suc-append text rest b':'))

  after_colon-value :
      (key value : Name)
      → Without b'\n' value
      → after_colon cb key (b' ' ∷ (value ++ b'\n' ∷ [])) ≡ cb token_kv key value
  unfolding after_colon
  after_colon-value key value w =
      rw (strchr-append b'\n' value [] w) (ap (cb token_kv key) (take-append value (b'\n' ∷ [])))

  parse_line-content :
      (indent : ℕ) (content : Content)
      → Expressible content
      → parse_line cb (line_of indent content ++ b'\n' ∷ []) ≡ call content
  unfolding parse_line
  parse_line-content indent (object name) k =
      ap (λ t. parse_begin cb (skip_spaces t)) (simp append_assoc)
      ∙ ap (parse_begin cb) (
          skip_spaces-replicate indent (name ++ (b':' ∷ b'\n' ∷ []))
          ∙ skip_spaces-key name (b'\n' ∷ []) k.starts)
      ∙ parse_begin-key name (b'\n' ∷ []) k
      ∙ unfold after_colon in refl
  parse_line-content indent (setting key value) (k, _, w) =
      ap (λ t. parse_begin cb (skip_spaces t)) (simp append_assoc)
      ∙ ap (parse_begin cb) (
          skip_spaces-replicate indent (key ++ (b':' ∷ b' ' ∷ (value ++ b'\n' ∷ [])))
          ∙ skip_spaces-key key (b' ' ∷ (value ++ b'\n' ∷ [])) k.starts)
      ∙ parse_begin-key key (b' ' ∷ (value ++ b'\n' ∷ [])) k
      ∙ after_colon-value key value w

Without-blanks : (c n : ℕ) → c < b' ' → Without c (replicate n b' ')
Without-blanks c zero h = tt
Without-blanks c (suc n) h = (λ e. absurd (omega arith), Without-blanks c n h)

-- NUL and the newline are in no line.
Without-line :
    (c indent : ℕ) (content : Content)
    → c < b' '
    → Without c (text_of content)
    → Without c (line_of indent content)
Without-line c indent content h w =
    Without-append c (replicate indent b' ') (text_of content) (Without-blanks c indent h) w

no_newline-text : (content : Content) → Expressible content → Without b'\n' (text_of content)
no_newline-text (object name) k =
    Without-append b'\n' name (b':' ∷ []) k.no_newline (λ e. absurd (omega arith), tt)
no_newline-text (setting key value) (k, _, w) =
    Without-append b'\n' key (b':' ∷ b' ' ∷ value) k.no_newline
      (λ e. absurd (omega arith), (λ e. absurd (omega arith), w))

no_nul-text : (content : Content) → Expressible content → Without 0 (text_of content)
no_nul-text (object name) k =
    Without-append 0 name (b':' ∷ []) k.no_nul (λ e. absurd (omega arith), tt)
no_nul-text (setting key value) (k, w, _) =
    Without-append 0 key (b':' ∷ b' ' ∷ value) k.no_nul
      (λ e. absurd (omega arith), (λ e. absurd (omega arith), w))

module _ {S : Type 0} (cb : Token → Name → Name → M S (Unit {0})) where
  parse_lines-render :
      (file : List (ℕ × Content))
      → AllPrintable file
      → parse_lines cb (lines (render file)) ≡ calls cb file
  unfolding parse_lines render lines_from calls
  parse_lines-render [] p = refl
  parse_lines-render ((indent, content) ∷ rest) (k, fits, ps) =
      let line = line_of indent content in
      let split =
        lines_from-append 255 line (render rest)
          (Without-line b'\n' indent content (omega arith) (no_newline-text content k)) fits in
      let whole = c_string-Without (line ++ b'\n' ∷ []) (
        Without-append 0 line (b'\n' ∷ [])
          (Without-line 0 indent content (omega arith) (no_nul-text content k))
          (λ e. absurd (omega arith), tt)) in
      rw (split, parse_lines, whole, parse_line-content cb indent content k)
        (ap (λ t. call cb content >> t) (parse_lines-render rest ps))

  -- parse_yaml hands every object and every setting of a file to the callback, in their order, if the
  -- keys and values can be told apart in the format and each line fits into the buffer of 256 bytes.
  pub parse_yaml-render :
      (file : List (ℕ × Content))
      → AllPrintable file
      → parse_yaml cb (some (render file)) ≡ calls cb file
  unfolding parse_yaml
  parse_yaml-render file p = parse_lines-render file p
