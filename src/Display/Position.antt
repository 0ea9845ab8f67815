-- ===== src/Display/Position.antt =====
-- DisplayPosition of include/drlojekyll/Display, lib/Display/DisplayPosition.cpp. The fields are those
-- of display::Position; a status bit is a Boolean.
use native.Mathlib.Nat.{mod-eq_of_lt}
use dr_lojekyll.Prelude.{
  ℕ, ◌-◌, ◌%◌, ◌^◌, ◌<◌, ◌≡◌, refl, Bool, true, false, not, ◌&&◌, ◌||◌, arith, ltb, ◌==◌, ==_refl,
  if◌then◌else◌,
}

pub record Position : Type 0 where
  pub display_id : ℕ
  pub index : ℕ
  pub line : ℕ
  pub column : ℕ
  pub id_overflow : Bool
  pub index_overflow : Bool
  pub line_overflow : Bool
  pub column_overflow : Bool

-- `DisplayPosition()`
abbrev pub no_position : Position
no_position = record {
  display_id = 0;
  index = 0;
  line = 0;
  column = 0;
  id_overflow = false;
  index_overflow = false;
  line_overflow = false;
  column_overflow = false;
}

-- `~0u`
abbrev pub invalid_field : ℕ
invalid_field = 2 ^ 32 - 1

-- A stored field, and whether it lost bits: then it gets `other`.
unfoldable pub kept_or : ℕ → ℕ → ℕ → ℕ
kept_or bits other x = if x % 2 ^ bits == x then x % 2 ^ bits else other

unfoldable pub loses : ℕ → ℕ → Bool
loses bits x = not (x % 2 ^ bits == x)

unfoldable pub emplace : ℕ → ℕ → ℕ → ℕ → Position
emplace display_id index line column = record {
  display_id = kept_or 16 0 display_id;
  index = kept_or 32 invalid_field index;
  line = kept_or 32 0 line;
  column = kept_or 32 0 column;
  id_overflow = loses 16 display_id;
  index_overflow = loses 32 index;
  line_overflow = loses 32 line;
  column_overflow = loses 32 column;
}

unfoldable pub has_data : Position → Bool
has_data p = ltb 0 p.column && ltb 0 p.line && ltb 0 p.display_id

unfoldable pub is_valid : Position → Bool
is_valid p =
    not (p.id_overflow || p.index_overflow || p.line_overflow || p.column_overflow) && has_data p

-- The readers DisplayId, Index, Line and Column.
unfoldable pub field : Bool → Position → ℕ → ℕ
field overflow p x = if overflow then invalid_field else if has_data p then x else invalid_field

unfoldable pub id_of : Position → ℕ
id_of p = field p.id_overflow p p.display_id

unfoldable pub index_of : Position → ℕ
index_of p = field p.index_overflow p p.index

unfoldable pub line_of : Position → ℕ
line_of p = field p.line_overflow p p.line

unfoldable pub column_of : Position → ℕ
column_of p = field p.column_overflow p p.column

-- Positions that a display can have: all fields fit, and all but the index count from 1.
pub record Fits (display_id index line column : ℕ) : Type 0 where
  pub id_pos : 0 < display_id
  pub id_small : display_id < 2 ^ 16
  pub index_small : index < 2 ^ 32
  pub line_pos : 0 < line
  pub line_small : line < 2 ^ 32
  pub column_pos : 0 < column
  pub column_small : column < 2 ^ 32

kept_lem : (bits other x : ℕ) → x < 2 ^ bits → (kept_or bits other x ≡ x) × (loses bits x ≡ false)
unfolding kept_or loses
kept_lem bits other x h = rw (mod-eq_of_lt h, ==_refl x) (refl, refl)

-- A position that fits is valid, and reads back as it was made.
pub record ReadsBack (i x l c : ℕ) (p : Position) : Type 0 where
  pub valid : is_valid p ≡ true
  pub id : id_of p ≡ i
  pub index : index_of p ≡ x
  pub line : line_of p ≡ l
  pub column : column_of p ≡ c

-- A position whose display id fits in 16 bits, whose index, line and column fit in 32, and of
-- which all but the index are positive, is valid, and its four readers give back what was
-- stored.
pub emplace-ReadsBack :
    (display_id index line column : ℕ)
    → Fits display_id index line column
    → ReadsBack display_id index line column (emplace display_id index line column)
unfolding emplace is_valid has_data field id_of index_of line_of column_of
emplace-ReadsBack i x l c f =
    let i' = kept_lem 16 0 i f.id_small in
    let x' = kept_lem 32 invalid_field x f.index_small in
    let l' = kept_lem 32 0 l f.line_small in
    let c' = kept_lem 32 0 c f.column_small in
    let i'' : ltb 0 i ≡ true = ground (arith, f.id_pos) in
    let l'' : ltb 0 l ≡ true = ground (arith, f.line_pos) in
    let c'' : ltb 0 c ≡ true = ground (arith, f.column_pos) in
    record {
      valid = rw (i'.0, i'.1, x'.1, l'.0, l'.1, c'.0, c'.1, i'', l'', c'') refl;
      id = rw (i'.0, i'.1, l'.0, c'.0, i'', l'', c'') refl;
      index = rw (i'.0, x'.0, x'.1, l'.0, c'.0, i'', l'', c'') refl;
      line = rw (i'.0, l'.0, l'.1, c'.0, i'', l'', c'') refl;
      column = rw (i'.0, l'.0, c'.0, c'.1, i'', l'', c'') refl;
    }
