-- ===== src/Lex/Tests.antt =====
-- Runs of the models of lib/Lex and lib/Display on small texts.
use dr_lojekyll.Prelude.{
  true, some, inl, ℕ, ◌^◌, ◌↔◌, ◌≡◌, ◌<◌, refl, false, List, [], ◌∷◌, ◌++◌, map, length, arith,
}
use dr_lojekyll.Display.Position.{
  is_valid, emplace, kept_or, loses, has_data, field, id_of, index_of, line_of, column_of,
  ReadsBack, emplace-ReadsBack,
}
use dr_lojekyll.Display.Reader.{
  Reader, start_reader, step, try_read_char, tail_width, back, unread_char, current_position,
  accumulate, accumulate_if,
}
use dr_lojekyll.Display.Reads.{Accumulates, accumulate_if-Accumulates, start_reader-IsPlaced}
use dr_lojekyll.Display.Import.{
  Configuration, start_import, put, put_spaces, tab_column, import_tab, import_break,
  import_printable, import_char, import_text, advance, drop_chars, position_from, try_get_position,
}
use dr_lojekyll.Display.Import.Counts.{Counts, import_text-Counts}
use dr_lojekyll.Lex.Lexeme.{Lexeme}
use dr_lojekyll.Lex.Token.{identifier_id, identifier_length, between, lexeme_of}
use dr_lojekyll.Lex.StringPool.{
  start_pool, search, match_at, drop, append_string, intern_string, intern_code, try_read_string,
  ReadString, StringPool,
}
use dr_lojekyll.Lex.StringPool.Search.{NulFree}
use dr_lojekyll.Lex.StringPool.Intern.{start_pool-IsPool, intern_string-Interns}
use dr_lojekyll.Lex.StringPool.Ids.{
  intern_string-try_read_string, intern_string-again, intern_string_iff,
}
use dr_lojekyll.Lex.Words.{
  codes, same, lookup, contains, pick, stop_chars, is_stop, within, is_digit, is_lower, is_upper,
  is_hex, in_number, in_word, is_space, in_token, punctuation, pragmas, words, types, escapes,
}
use dr_lojekyll.Lex.Branches.{
  Tentative, next_of, error_at, basic, leading_spaces, lex_whitespace, lex_exclaim, pragma_char,
  pragma_repr, lex_pragma, identifier, lex_identifier, lex_name, word_repr, lex_word, not_break,
  lex_comment, unknown_end, lex_unknown,
}
use dr_lojekyll.Lex.Literals.{
  error_repr, fail_with, push_char, string_error, escaped_char, string_char, take_char, scan_string,
  lex_string_end, lex_string, third_quote, second_quote, code_round, scan_code, starts_with,
  code_literal, invalid_code, lex_code_end, lex_code,
}
use dr_lojekyll.Lex.Numbers.{
  number, all_of, first_refused, is_binary, is_octal, first_not_octal, literal_or, two_digits,
  zero_repr, mixed_repr, decimal, fraction_attached, fraction_end, fraction, after_point,
  lex_decimal, lex_digits, attached, number_end, lex_number,
}
use dr_lojekyll.Lex.Lexer.{
  start_of, lex_from, end_repr, token_at, next_token, try_get_next_token, tokens,
}
use dr_lojekyll.Lex.Typed.{IsTyped}
use dr_lojekyll.Lex.Typed.Lexer.{try_get_next_token-IsTyped}
use dr_lojekyll.Lex.Spelled.{lex_name-try_read_string}
use dr_lojekyll.Lex.Tiling.Lexer.{lexing, Completes, tokens-Completes}
use dr_lojekyll.Lex.Tiling.Joined.{Joined, StartsAt, tokens-Joined}

lexer_program : Unit {0}
unfolding kept_or loses emplace has_data field id_of index_of line_of column_of step try_read_char
    tail_width back unread_char current_position accumulate accumulate_if between lexeme_of search
    match_at drop append_string intern_string intern_code codes same lookup contains pick stop_chars
    is_stop within is_digit is_lower is_upper is_hex in_number in_word is_space in_token punctuation
    pragmas words types escapes next_of error_at basic leading_spaces lex_whitespace lex_exclaim
    pragma_char pragma_repr lex_pragma identifier lex_identifier lex_name word_repr lex_word
    not_break lex_comment unknown_end lex_unknown error_repr fail_with push_char string_error
    escaped_char string_char take_char scan_string lex_string_end lex_string third_quote
    second_quote code_round scan_code starts_with code_literal invalid_code lex_code_end lex_code
    number all_of first_refused is_binary is_octal first_not_octal literal_or two_digits zero_repr
    mixed_repr decimal fraction_attached fraction_end fraction after_point lex_decimal lex_digits
    attached number_end lex_number start_of lex_from end_repr token_at next_token try_get_next_token
    tokens
lexer_program = tt

text_reader : List ℕ → Reader
text_reader text = start_reader 1 false text

lexemes : List ℕ → List Lexeme
unfolding lexeme_of
lexemes text =
    map (λ t. lexeme_of t.repr) (tokens 40 (lexing (start_reader 1 false text) start_pool)).0

lexemes_of_a_rule :
    lexemes (codes "p(X) : q(X), X != 1.")
    ≡ Lexeme.identifier_atom ∷ Lexeme.punc_open_paren ∷ Lexeme.identifier_variable
      ∷ Lexeme.punc_close_paren ∷ Lexeme.whitespace ∷ Lexeme.punc_colon ∷ Lexeme.whitespace
      ∷ Lexeme.identifier_atom ∷ Lexeme.punc_open_paren ∷ Lexeme.identifier_variable
      ∷ Lexeme.punc_close_paren ∷ Lexeme.punc_comma ∷ Lexeme.whitespace ∷ Lexeme.identifier_variable
      ∷ Lexeme.whitespace ∷ Lexeme.punc_not_equal ∷ Lexeme.whitespace ∷ Lexeme.literal_number
      ∷ Lexeme.punc_period ∷ Lexeme.end_of_file ∷ []
unfolding lexer_program lexemes
lexemes_of_a_rule = refl

lexemes_of_literals :
    lexemes (codes "0x1F 0b2 017 1.5 1x @first @frist #query \"a\\n\" \"")
    ≡ Lexeme.literal_number ∷ Lexeme.whitespace ∷ Lexeme.invalid_binary_number ∷ Lexeme.whitespace
      ∷ Lexeme.literal_number ∷ Lexeme.whitespace ∷ Lexeme.literal_number ∷ Lexeme.whitespace
      ∷ Lexeme.invalid_number ∷ Lexeme.whitespace ∷ Lexeme.pragma_code_gen_first ∷ Lexeme.whitespace
      ∷ Lexeme.invalid_pragma ∷ Lexeme.whitespace ∷ Lexeme.hash_query_decl ∷ Lexeme.whitespace
      ∷ Lexeme.literal_string ∷ Lexeme.whitespace ∷ Lexeme.invalid_unterminated_string
      ∷ Lexeme.end_of_file ∷ []
unfolding lexer_program lexemes
lexemes_of_literals = refl

-- A lone back quote in a code literal is lost.
quoted_code :
    map
      (λ text. text)
      (next_token (start_reader 1 false (codes "```a`b```")) start_pool).1.pool.code_blocks
    ≡ codes "ab" ∷ []
unfolding lexer_program
quoted_code = refl

abbrev short_text : List ℕ
short_text = b'p' ∷ b'\n' ∷ b'1' ∷ []

tokens-Completes_example :
    Completes
      (start_reader 1 false short_text)
      (tokens 4 (lexing (start_reader 1 false short_text) start_pool))
tokens-Completes_example =
    tokens-Completes 4 (start_reader 1 false short_text) start_pool
      (start_reader-IsPlaced 1 false short_text) (omega arith)

tokens-Joined_example :
    StartsAt
      (start_reader 1 false short_text)
      (tokens 4 (lexing (start_reader 1 false short_text) start_pool)).0
    × Joined (tokens 4 (lexing (start_reader 1 false short_text) start_pool)).0
tokens-Joined_example =
    tokens-Joined 4 1 false short_text start_pool (omega arith) (omega arith) (omega arith)
      (omega arith)

abbrev word_foo : List ℕ
word_foo = b'f' ∷ b'o' ∷ b'o' ∷ []

abbrev word_bar : List ℕ
word_bar = b'b' ∷ b'a' ∷ b'r' ∷ []

word_foo-NulFree : NulFree word_foo
word_foo-NulFree = (omega arith, (omega arith, (omega arith, tt)))

word_bar-NulFree : NulFree word_bar
word_bar-NulFree = (omega arith, (omega arith, (omega arith, tt)))

abbrev foo_pool : ℕ × StringPool
foo_pool = intern_string false word_foo start_pool

foo_pool_lem : foo_pool ≡ (14, record start_pool { pool = start_pool.pool ++ (word_foo ++ 0 ∷ []) })
unfolding lexer_program
foo_pool_lem = refl

start_pool_small : length start_pool.pool < 2 ^ 32
start_pool_small = omega arith

foo_pool_small : length foo_pool.1.pool < 2 ^ 32
unfolding lexer_program
foo_pool_small = omega arith

intern_string-try_read_string_example :
    try_read_string foo_pool.0 3 foo_pool.1 ≡ ReadString.found word_foo
unfolding lexer_program
intern_string-try_read_string_example =
    intern_string-try_read_string false word_foo start_pool foo_pool.1 start_pool-IsPool
      foo_pool_small ([], refl) start_pool_small

intern_string-again_example : intern_string false word_foo foo_pool.1 ≡ (foo_pool.0, foo_pool.1)
unfolding lexer_program
intern_string-again_example =
    intern_string-again word_foo start_pool foo_pool.1 start_pool-IsPool
      (intern_string-Interns false word_foo start_pool start_pool-IsPool start_pool_small).is_pool
      word_foo-NulFree ([], refl)

intern_string_iff_example :
    (foo_pool.0 ≡ (intern_string false word_bar foo_pool.1).0) ↔ (word_foo ≡ word_bar)
intern_string_iff_example =
    intern_string_iff word_foo word_bar start_pool start_pool-IsPool word_foo-NulFree
      word_bar-NulFree start_pool_small foo_pool_small

emplace-ReadsBack_example : ReadsBack 3 100 7 65536 (emplace 3 100 7 65536)
emplace-ReadsBack_example = emplace-ReadsBack 3 100 7 65536 (record {
  id_pos = omega arith;
  id_small = omega arith;
  index_small = omega arith;
  line_pos = omega arith;
  line_small = omega arith;
  column_pos = omega arith;
  column_small = omega arith;
})

accumulate_if-Accumulates_example :
    Accumulates is_digit
      (start_reader 1 false (b'4' ∷ b'2' ∷ b'.' ∷ []))
      (accumulate_if is_digit (start_reader 1 false (b'4' ∷ b'2' ∷ b'.' ∷ [])))
accumulate_if-Accumulates_example =
    accumulate_if-Accumulates is_digit (start_reader 1 false (b'4' ∷ b'2' ∷ b'.' ∷ []))
      (start_reader-IsPlaced 1 false (b'4' ∷ b'2' ∷ b'.' ∷ []))

abbrev default_configuration : Configuration
default_configuration = record { num_spaces_in_tab = 2; use_tab_stops = true }

abbrev tabbed_text : List ℕ
tabbed_text = b'\t' ∷ b'a' ∷ b'\r' ∷ b'\n' ∷ b'\t' ∷ b'b' ∷ []

importing : Unit {0}
unfolding put put_spaces tab_column import_tab import_break import_printable import_char import_text
    advance drop_chars position_from try_get_position kept_or loses emplace has_data field id_of
    index_of line_of column_of is_valid
importing = tt

tabbed_text_read :
    (import_text default_configuration tabbed_text (start_import 1)).read
    ≡ b'b' ∷ b' ' ∷ b'\n' ∷ b'a' ∷ b' ' ∷ []
unfolding importing
tabbed_text_read = refl

-- The first character of the text stands in column 1; its waypoint has the column behind the tab.
tabbed_text_position :
    try_get_position 0 (import_text default_configuration tabbed_text (start_import 1))
    ≡ some (emplace 1 0 1 2)
unfolding importing
tabbed_text_position = refl

import_text-Counts_example : Counts (import_text default_configuration tabbed_text (start_import 1))
unfolding importing
import_text-Counts_example =
    import_text-Counts default_configuration 1 tabbed_text (omega arith) (omega arith)

abbrev foo_reader : Reader
foo_reader = start_reader 1 false word_foo

lex_name-try_read_string_example :
    try_read_string
      (identifier_id
        (lex_name Tentative.atom start_pool foo_reader b'f' (b'o' ∷ b'o' ∷ []) foo_reader).repr)
      (identifier_length
        (lex_name Tentative.atom start_pool foo_reader b'f' (b'o' ∷ b'o' ∷ []) foo_reader).repr)
      foo_pool.1
    ≡ ReadString.found word_foo
unfolding lexer_program
lex_name-try_read_string_example =
    lex_name-try_read_string Tentative.atom start_pool foo_pool.1 foo_reader b'f' (b'o' ∷ b'o' ∷ [])
      foo_reader (inl refl) start_pool-IsPool (omega arith) (omega arith) (omega arith)
      (omega arith) ([], refl)

try_get_next_token-IsTyped_example :
    IsTyped (next_token (start_reader 1 false short_text) start_pool).0.repr
unfolding try_get_next_token
try_get_next_token-IsTyped_example =
    try_get_next_token-IsTyped (lexing (start_reader 1 false short_text) start_pool)
      (next_token (start_reader 1 false short_text) start_pool).0
      (next_token (start_reader 1 false short_text) start_pool).1 refl
