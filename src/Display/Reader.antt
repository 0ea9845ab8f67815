-- ===== src/Display/Reader.antt =====
-- DisplayReader of lib/Display/DisplayReader.cpp, over the whole text of a display. `read` has the
-- characters before `index`, the last one first; the index is their number.
use dr_lojekyll.Prelude.{
  ℕ, zero, suc, ◌+◌, ◌-◌, Bool, true, false, Option, none, some, List, [], ◌∷◌, length, ◌==◌,
  if◌then◌else◌,
}
use dr_lojekyll.Display.Position.{Position, emplace}

-- `failed` says that the display's stream has an error message.
pub record Reader : Type 0 where
  pub display_id : ℕ
  pub failed : Bool
  pub read : List ℕ
  pub rest : List ℕ
  pub line : ℕ
  pub column : ℕ

abbrev pub start_reader : ℕ → Bool → List ℕ → Reader
start_reader display_id failed text = record {
  display_id = display_id;
  failed = failed;
  read = [];
  rest = text;
  line = 1;
  column = 1;
}

-- Past character `c`.
unfoldable pub step : ℕ → List ℕ → Reader → Reader
step c rest r = record r {
  read = c ∷ r.read;
  rest = rest;
  line = if c == b'\n' then r.line + 1 else r.line;
  column = if c == b'\n' then 1 else r.column + 1;
}

unfoldable pub try_read_char : Reader → Option (ℕ × Reader)
try_read_char r = elim r.rest [ [] ↦ none | c ∷ rest ↦ some (c, step c rest r) ]

-- The characters since the last line break.
unfoldable pub tail_width : List ℕ → ℕ
tail_width [] = 0
tail_width (c ∷ read) = if c == b'\n' then 0 else tail_width read + 1

unfoldable pub back : ℕ → List ℕ → Reader → Reader
back c read r = record r {
  read = read;
  rest = c ∷ r.rest;
  line = if c == b'\n' then r.line - 1 else r.line;
  column = if c == b'\n' then 1 + tail_width read else r.column - 1;
}

unfoldable pub unread_char : Reader → Reader
unread_char r = elim r.read [ [] ↦ r | c ∷ read ↦ back c read r ]

unfoldable pub current_position : Reader → Position
current_position r = emplace r.display_id (length r.read) r.line r.column

-- The loop of `accumulate_if`: what it collects, and the reader after it.
unfoldable pub accumulate : ℕ → (ℕ → Bool) → Reader → List ℕ × Reader
accumulate zero accept r = ([], r)
accumulate (suc fuel) accept r = elim (try_read_char r) [
  | none ↦ ([], r)
  | some (c, r') ↦ elim (accept c) [
    | false ↦ ([], unread_char r')
    | true ↦ let more = accumulate fuel accept r' in (c ∷ more.0, more.1)
  ]
]

-- Each round reads a character: there are at most as many rounds as characters left.
unfoldable pub accumulate_if : (ℕ → Bool) → Reader → List ℕ × Reader
accumulate_if accept r = accumulate (length r.rest) accept r
