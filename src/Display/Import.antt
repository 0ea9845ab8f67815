-- ===== src/Display/Import.antt =====
-- DisplayImpl::TryReadChar of lib/Display/Display.cpp: how the text of a stream becomes the characters of
-- a display. Here the whole stream is read. `read` has the characters so far, the last one first.
pub mod Counts
use dr_lojekyll.Prelude.{
  ℕ, zero, suc, ◌+◌, ◌-◌, ◌*◌, ◌/◌, ◌%◌, ◌^◌, Bool, true, false, ◌||◌, Option, none, some, take,
  get_elem?, List, [], ◌∷◌, ◌++◌, length, if◌then◌else◌, ltb, ◌==◌,
}
use dr_lojekyll.Display.Position.{Position, emplace, is_valid, index_of, line_of, column_of}
use dr_lojekyll.Display.Reads.{onto}

pub record Configuration : Type 0 where
  pub num_spaces_in_tab : ℕ
  pub use_tab_stops : Bool

pub record Import : Type 0 where
  pub display_id : ℕ
  pub read : List ℕ
  pub waypoints : List Position
  pub next_line : ℕ
  pub next_column : ℕ
  pub failed : Bool

abbrev pub start_import : ℕ → Import
start_import display_id = record {
  display_id = display_id;
  read = [];
  waypoints = [];
  next_line = 1;
  next_column = 1;
  failed = false;
}

-- A character, and a waypoint at every 256th.
unfoldable pub put : ℕ → Import → Import
put c s = record s {
  read = c ∷ s.read;
  waypoints =
      if length s.read % 256 == 0
      then s.waypoints ++ emplace s.display_id (length s.read) s.next_line s.next_column ∷ []
      else s.waypoints;
}

unfoldable pub put_spaces : ℕ → Import → Import
put_spaces zero s = s
put_spaces (suc k) s = put_spaces k (put b' ' s)

unfoldable pub tab_column : Configuration → ℕ → ℕ
tab_column config column =
    let next = (column + config.num_spaces_in_tab) % 2 ^ 32 in
    if config.use_tab_stops
    then next / config.num_spaces_in_tab * config.num_spaces_in_tab
    else next

unfoldable pub import_tab : Configuration → Import → Import
import_tab config s =
    let next = tab_column config s.next_column in
    put_spaces ((next + 2 ^ 32 - s.next_column) % 2 ^ 32) (record s { next_column = next })

unfoldable pub import_break : Import → Import
import_break s = record (put b'\n' s) { next_line = (s.next_line + 1) % 2 ^ 32; next_column = 1 }

unfoldable pub import_printable : ℕ → Import → Import
import_printable c s = record (put c s) { next_column = (s.next_column + 1) % 2 ^ 32 }

-- An invalid character puts an error in the place of the stream.
unfoldable pub import_char : Configuration → ℕ → Import → Import
import_char config c s =
    if c == b'\r'
    then s
    else if c == b'\n'
    then import_break s
    else if c == b'\t'
    then import_tab config s
    else if ltb c b' ' || ltb b'~' c
    then record s { failed = true }
    else import_printable c s

unfoldable pub import_text : Configuration → List ℕ → Import → Import
import_text config [] s = s
import_text config (c ∷ text) s =
    let s' = import_char config c s in
    let rest = import_text config text s' in if s'.failed then s' else rest

-- `TryGetPosition`: from the waypoint before the index, over the characters up to it.
unfoldable pub drop_chars : ℕ → List ℕ → List ℕ
drop_chars zero cs = cs
drop_chars (suc n) [] = []
drop_chars (suc n) (c ∷ cs) = drop_chars n cs

unfoldable pub advance : List ℕ → ℕ × ℕ → ℕ × ℕ
advance [] place = place
advance (c ∷ cs) place =
    advance cs (if c == b'\n' then (place.0 + 1, 1) else (place.0, place.1 + 1))

unfoldable pub position_from : Import → ℕ → Position → Option Position
position_from s index p =
    let chars = take (index - index_of p) (drop_chars (index_of p) (onto s.read [])) in
    let place = advance chars (line_of p, column_of p) in
    if is_valid p then some (emplace s.display_id index place.0 place.1) else none

unfoldable pub try_get_position : ℕ → Import → Option Position
try_get_position index s = elim (get_elem? s.waypoints (index / 256)) [
  | none ↦ none
  | some p ↦ if ltb index (length s.read) then position_from s index p else none
]
