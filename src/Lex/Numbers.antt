-- ===== src/Lex/Numbers.antt =====
-- Number literals of TryGetNextToken of lib/Lex/Lexer.cpp. `r` is the reader in front of the number, `text`
-- what is read of it and `r'` the reader behind that text.
use dr_lojekyll.Prelude.{
  ℕ, ◌+◌, Bool, true, false, ◌&&◌, ◌||◌, Option, none, some, List, [], ◌∷◌, ◌++◌, length,
  if◌then◌else◌, ◌==◌,
}
use dr_lojekyll.Display.Position.{column_of}
use dr_lojekyll.Display.Reader.{Reader, try_read_char, unread_char, current_position, accumulate_if}
use dr_lojekyll.Lex.Lexeme.{Lexeme, NumberSpellingKind}
use dr_lojekyll.Lex.Token.{disp, to_16, Repr}
use dr_lojekyll.Lex.StringPool.{StringPool}
use dr_lojekyll.Lex.Words.{is_digit, is_hex, in_number, in_token, within}
use dr_lojekyll.Lex.Branches.{Lexed, next_of, error_at}

unfoldable pub number : ℕ → NumberSpellingKind → Bool → ℕ → Repr
number width kind has_point prefix_width =
    Repr.number_token Lexeme.literal_number (to_16 width) kind has_point prefix_width

unfoldable pub all_of : (ℕ → Bool) → List ℕ → Bool
all_of accept [] = true
all_of accept (c ∷ text) = accept c && all_of accept text

-- The index, from `i`, and the character of the first that is not accepted.
unfoldable pub first_refused : (ℕ → Bool) → ℕ → List ℕ → Option (ℕ × ℕ)
first_refused accept i [] = none
first_refused accept i (c ∷ text) =
    let later = first_refused accept (i + 1) text in if accept c then later else some (i, c)

unfoldable pub is_binary : ℕ → Bool
is_binary c = (c == b'0') || (c == b'1')

unfoldable pub is_octal : ℕ → Bool
is_octal c = within b'0' b'7' c

-- A leading zero is refused, too.
unfoldable pub first_not_octal : List ℕ → Option (ℕ × ℕ)
first_not_octal [] = none
first_not_octal (c ∷ text) =
    if within b'1' b'7' c then first_refused is_octal 2 text else some (1, c)

-- A literal of the given kind, or an error at the refused character.
unfoldable pub literal_or :
    Reader → List ℕ → NumberSpellingKind → ℕ → Lexeme → Option (ℕ × ℕ) → Reader → Repr
literal_or r text kind prefix_width lexeme refused r' = elim refused [
  | none ↦ number (length text) kind false prefix_width
  | some (i, c) ↦ error_at r lexeme c i r'
]

unfoldable pub two_digits : Reader → ℕ → Repr
two_digits r d =
    if within b'1' b'7' d
    then number 2 NumberSpellingKind.octal false 1
    else Repr.error_token Lexeme.invalid_octal_number d
        (disp 1 0 (column_of (current_position r) + 1))
        (disp 2 0 (column_of (current_position r) + 2))

-- A number that starts with `0`: `digits` follow.
unfoldable pub zero_repr : Reader → ℕ → List ℕ → Reader → Repr
zero_repr r c [] r' = number 1 NumberSpellingKind.decimal false 0
zero_repr r c (d ∷ []) r' = two_digits r d
zero_repr r c (d ∷ e ∷ digits) r' =
    if (d == b'x') || (d == b'X')
    then literal_or r (c ∷ d ∷ e ∷ digits) NumberSpellingKind.hexadecimal 2
        Lexeme.invalid_hexadecimal_number (first_refused is_hex 2 (e ∷ digits)) r'
    else if (d == b'b') || (d == b'B')
    then literal_or r (c ∷ d ∷ e ∷ digits) NumberSpellingKind.binary 2 Lexeme.invalid_binary_number
        (first_refused is_binary 2 (e ∷ digits)) r'
    else literal_or r (c ∷ d ∷ e ∷ digits) NumberSpellingKind.octal 1 Lexeme.invalid_octal_number
        (first_not_octal (d ∷ e ∷ digits)) r'

-- Without a refused character the source would read the terminator of its string.
unfoldable pub mixed_repr : Reader → List ℕ → Reader → Repr
mixed_repr r text r' = elim (first_refused is_digit 0 text) [
  | some (i, c) ↦ error_at r Lexeme.invalid_number c i r'
  | none ↦ error_at r Lexeme.invalid_number 0 (length text) r'
]

unfoldable pub decimal : List ℕ → Bool → Repr
decimal text has_point = number (length text) NumberSpellingKind.decimal has_point 0

-- What follows the number's digits would continue it: the error is at `r'`.
unfoldable pub fraction_attached : Reader → ℕ → List ℕ → Reader → Repr × Reader
fraction_attached r c text r' =
    let more = accumulate_if in_token r' in
    (
      Repr.error_token Lexeme.invalid_number c
          (disp (length text) 0 (column_of (current_position r'))) (next_of r more.1),
      more.1,
    )

unfoldable pub fraction_end : Reader → List ℕ → Reader → Repr × Reader
fraction_end r text r' = elim (try_read_char r') [
  | none ↦ (decimal text true, r')
  | some (c, r'') ↦ elim (in_token c) [
    | true ↦ fraction_attached r c text (unread_char r'')
    | false ↦ (decimal text true, unread_char r'')
  ]
]

unfoldable pub fraction : Reader → List ℕ → Reader → Repr × Reader
fraction r text r' = let more = accumulate_if is_digit r' in fraction_end r (text ++ more.0) more.1

-- A point, and whether a digit follows it.
unfoldable pub after_point : Reader → List ℕ → Reader → Repr × Reader
after_point r text r' = elim (try_read_char r') [
  | none ↦ (decimal text false, unread_char r')
  | some (d, r'') ↦ elim (is_digit d) [
    | true ↦ fraction r (text ++ b'.' ∷ d ∷ []) r''
    | false ↦ (decimal text false, unread_char (unread_char r''))
  ]
]

unfoldable pub lex_decimal : Reader → List ℕ → Reader → Repr × Reader
lex_decimal r text r' = elim (try_read_char r') [
  | none ↦ (decimal text false, r')
  | some (c, r'') ↦ elim (c == b'.') [
    | true ↦ after_point r text r''
    | false ↦ (decimal text false, unread_char r'')
  ]
]

unfoldable pub lex_digits : Reader → ℕ → List ℕ → Reader → Repr × Reader
lex_digits r c digits r' = elim (c == b'0') [
  | true ↦ (zero_repr r c digits r', r')
  | false ↦ elim (all_of is_digit digits) [
    | true ↦ lex_decimal r (c ∷ digits) r'
    | false ↦ (mixed_repr r (c ∷ digits) r', r')
  ]
]

unfoldable pub attached : Reader → ℕ → Reader → Repr × Reader
attached r c r' =
    let more = accumulate_if in_token r' in
    (Repr.error_token Lexeme.invalid_number c (next_of r r') (next_of r more.1), more.1)

unfoldable pub number_end : Reader → ℕ → List ℕ → Reader → Repr × Reader
number_end r c digits r' = elim (try_read_char r') [
  | none ↦ lex_digits r c digits r'
  | some (d, r'') ↦ elim (in_token d) [
    | true ↦ attached r d (unread_char r'')
    | false ↦ lex_digits r c digits (unread_char r'')
  ]
]

unfoldable pub lex_number : StringPool → Reader → ℕ → Reader → Lexed
lex_number pool r c r' =
    let more = accumulate_if in_number r' in
    let o = number_end r c more.0 more.1 in record { repr = o.0; reader = o.1; pool = pool }
