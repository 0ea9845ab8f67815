-- ===== src/Lex/StringPool.antt =====
-- StringPool of lib/Lex/StringPool.cpp: all strings, each with a NUL after it, in one string of bytes.
-- Its Ids are offsets of 32 bits.
pub mod Search
pub mod Intern
pub mod Ids
use dr_lojekyll.Prelude.{
  ℕ, zero, suc, ◌+◌, ◌%◌, ◌^◌, Bool, true, false, ◌||◌, Option, none, some, List, [], ◌∷◌, ◌++◌,
  length, get_elem?, take, if◌then◌else◌, ltb, ◌==◌,
}

pub record StringPool : Type 0 where
  pub pool : List ℕ
  pub code_blocks : List (List ℕ)

abbrev pub underscore_id : ℕ
underscore_id = 1

abbrev pub true_id : ℕ
true_id = 3

abbrev pub false_id : ℕ
false_id = 8

-- What the constructor pushes: a NUL, `_`, `true` and `false`.
abbrev pub start_pool : StringPool
start_pool = record {
  pool = 0 ∷ b'_' ∷ 0 ∷ b't' ∷ b'r' ∷ b'u' ∷ b'e' ∷ 0 ∷ b'f' ∷ b'a' ∷ b'l' ∷ b's' ∷ b'e' ∷ 0 ∷ [];
  code_blocks = [];
}

unfoldable pub intern_code : List ℕ → StringPool → ℕ × StringPool
intern_code code p =
    ((length p.code_blocks + 1) % 2 ^ 32, record p { code_blocks = p.code_blocks ++ code ∷ [] })

unfoldable pub try_read_code : ℕ → StringPool → Option (List ℕ)
try_read_code zero p = none
try_read_code (suc id) p = get_elem? p.code_blocks id

-- Whether `text` matches at the front of `xs`: if so, whether `xs` ends there, or a NUL follows.
pub data Match : Type 0 where
  missed : Match
  ends : Match
  terminated : Match

unfoldable pub match_at : List ℕ → List ℕ → Match
match_at [] [] = Match.ends
match_at [] (zero ∷ xs) = Match.terminated
match_at [] (suc x ∷ xs) = Match.missed
match_at (d ∷ text) [] = Match.missed
match_at (d ∷ text) (x ∷ xs) = if d == x then match_at text xs else Match.missed

-- The loop of `InternString` from offset `pos`, where the pool goes on with `xs`.
unfoldable pub search : List ℕ → ℕ → List ℕ → Option ℕ
search text pos [] = none
search text pos (x ∷ xs) =
    let later = search text (suc pos) xs in
    elim (match_at text (x ∷ xs)) [
      | Match.missed ↦ later
      | Match.ends ↦ none
      | Match.terminated ↦ some pos
    ]

unfoldable pub drop : ℕ → List ℕ → List ℕ
drop zero xs = xs
drop (suc n) [] = []
drop (suc n) (x ∷ xs) = drop n xs

unfoldable pub append_string : List ℕ → StringPool → ℕ × StringPool
append_string text p = (length p.pool % 2 ^ 32, record p { pool = p.pool ++ text ++ 0 ∷ [] })

-- `InternString`, where `force` skips the search.
unfoldable pub intern_string : Bool → List ℕ → StringPool → ℕ × StringPool
intern_string true text p = append_string text p
intern_string false text p = elim (search text 1 (drop 1 p.pool)) [
  | some pos ↦ (pos % 2 ^ 32, p)
  | none ↦ append_string text p
]

-- `TryReadString`, with the exception of `substr` for an offset past the end.
pub data ReadString : Type 0 where
  refused : ReadString
  out_of_range : ReadString
  found : List ℕ → ReadString

unfoldable pub try_read_string : ℕ → ℕ → StringPool → ReadString
try_read_string index len p =
    if (index == 0) || ltb (length p.pool) ((index + len) % 2 ^ 32)
    then ReadString.refused
    else if ltb (length p.pool) index
    then ReadString.out_of_range
    else ReadString.found (take len (drop index p.pool))
