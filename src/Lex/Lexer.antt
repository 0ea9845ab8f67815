-- ===== src/Lex/Lexer.antt =====
-- Lexer of lib/Lex/Lexer.cpp: a reader until the end of its display.
use dr_lojekyll.Prelude.{
  ℕ, zero, suc, true, false, Option, none, some, List, [], ◌∷◌, if◌then◌else◌, ◌==◌,
}
use dr_lojekyll.Display.Position.{column_of}
use dr_lojekyll.Display.Reader.{Reader, try_read_char, current_position}
use dr_lojekyll.Lex.Lexeme.{Lexeme}
use dr_lojekyll.Lex.Token.{disp, Repr, Token}
use dr_lojekyll.Lex.StringPool.{StringPool}
use dr_lojekyll.Lex.Words.{pick, punctuation, is_space, is_lower, is_upper, is_digit}
use dr_lojekyll.Lex.Branches.{
  Lexed, basic, Tentative, lex_whitespace, lex_exclaim, lex_pragma, lex_word, lex_comment,
  lex_unknown,
}
use dr_lojekyll.Lex.Literals.{lex_string, lex_code}
use dr_lojekyll.Lex.Numbers.{lex_number}

-- What the first character says of the token.
pub data Start : Type 0 where
  space : Start
  punct : Lexeme → Start
  exclaim : Start
  back_quote : Start
  quote : Start
  pragma : Start
  word : Tentative → Start
  digit : Start
  comment : Start
  unknown : Start

unfoldable pub start_of : ℕ → Start
start_of c =
    if is_space c
    then Start.space
    else if c == b'!'
    then Start.exclaim
    else if c == b'`'
    then Start.back_quote
    else if c == b'"'
    then Start.quote
    else if c == b'@'
    then Start.pragma
    else if c == b'#'
    then Start.word Tentative.directive
    else if is_lower c
    then Start.word Tentative.atom
    else if c == b'_'
    then Start.word Tentative.unnamed_variable
    else if is_upper c
    then Start.word Tentative.variable
    else if is_digit c
    then Start.digit
    else if c == b';'
    then Start.comment
    else elim (pick c punctuation) [ some lexeme ↦ Start.punct lexeme | none ↦ Start.unknown ]

-- The switch over the first character `c`, from `r` to `r'`.
unfoldable pub lex_from : Start → StringPool → Reader → ℕ → Reader → Lexed
lex_from Start.space pool r c r' = lex_whitespace pool r c r'
lex_from (Start.punct lexeme) pool r c r' = record {
  repr = basic lexeme 1;
  reader = r';
  pool = pool;
}
lex_from Start.exclaim pool r c r' = lex_exclaim pool r'
lex_from Start.back_quote pool r c r' = lex_code pool r r'
lex_from Start.quote pool r c r' = lex_string pool r c r'
lex_from Start.pragma pool r c r' = lex_pragma pool r c r'
lex_from (Start.word tentative) pool r c r' = lex_word tentative pool r c r'
lex_from Start.digit pool r c r' = lex_number pool r c r'
lex_from Start.comment pool r c r' = lex_comment pool c r'
lex_from Start.unknown pool r c r' = lex_unknown pool r c r'

-- The end of the display, or an error of its stream.
unfoldable pub end_repr : Reader → Repr
end_repr r = elim r.failed [
  | true ↦
      Repr.error_token Lexeme.invalid_stream_or_display 0
        (disp 0 0 (column_of (current_position r))) (disp 0 0 (column_of (current_position r)))
  | false ↦ Repr.basic_token Lexeme.end_of_file 0
]

-- A lexer lets go of its reader at the end of the display.
pub record Lexer : Type 0 where
  pub reader : Option Reader
  pub pool : StringPool

unfoldable pub token_at : Reader → Repr → Token
token_at r repr = record { position = current_position r; repr = repr }

unfoldable pub next_token : Reader → StringPool → Token × Lexer
next_token r pool = elim (try_read_char r) [
  | none ↦ (token_at r (end_repr r), record { reader = none; pool = pool })
  | some (c, r') ↦
      let o = lex_from (start_of c) pool r c r' in
      (token_at r o.repr, record { reader = some o.reader; pool = o.pool })
]

unfoldable pub try_get_next_token : Lexer → Option (Token × Lexer)
try_get_next_token lexer = elim lexer.reader [
  | none ↦ none
  | some r ↦ some (next_token r lexer.pool)
]

-- The tokens of a display, as the callers of `TryGetNextToken` read them.
unfoldable pub tokens : ℕ → Lexer → List Token × Lexer
tokens zero lexer = ([], lexer)
tokens (suc fuel) lexer = elim (try_get_next_token lexer) [
  | none ↦ ([], lexer)
  | some (t, lexer') ↦ let more = tokens fuel lexer' in (t ∷ more.0, more.1)
]
