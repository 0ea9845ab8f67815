-- ===== src/Lex/Literals.antt =====
-- String and code literals of TryGetNextToken of lib/Lex/Lexer.cpp. `r` is the reader in front of the
-- literal.
use dr_lojekyll.Prelude.{
  ℕ, zero, suc, ◌+◌, Bool, true, false, ◌||◌, Option, none, some, List, [], ◌∷◌, ◌++◌, length,
  if◌then◌else◌, ◌==◌,
}
use dr_lojekyll.Display.Reader.{Reader, try_read_char}
use dr_lojekyll.Lex.Lexeme.{Lexeme}
use dr_lojekyll.Lex.Token.{Disp, to_16, to_32, Repr}
use dr_lojekyll.Lex.StringPool.{StringPool, intern_string, intern_code, drop}
use dr_lojekyll.Lex.Words.{codes, pick, escapes}
use dr_lojekyll.Lex.Branches.{Lexed, next_of}

-- What an error token stores before the end of the token is known.
pub record Error : Type 0 where
  pub lexeme : Lexeme
  pub char : ℕ
  pub place : Disp

unfoldable pub error_repr : Reader → Error → Reader → Repr
error_repr r e r' = Repr.error_token e.lexeme e.char e.place (next_of r r')

-- The loop's variables; `char` is the character read last.
pub record StringScan : Type 0 where
  pub width : ℕ
  pub prev_was_escape : Bool
  pub error : Option Error
  pub is_finished : Bool
  pub text : List ℕ
  pub char : ℕ
  pub reader : Reader

abbrev pub start_scan : ℕ → Reader → StringScan
start_scan c r' = record {
  width = 1;
  prev_was_escape = false;
  error = none;
  is_finished = false;
  text = [];
  char = c;
  reader = r';
}

-- The first error stays.
unfoldable pub fail_with : Error → StringScan → StringScan
fail_with e s = record s { error = elim s.error [ none ↦ some e | some first ↦ some first ] }

-- After an error nothing is collected.
unfoldable pub push_char : ℕ → StringScan → StringScan
push_char c s = record s { text = elim s.error [ none ↦ s.text ++ c ∷ [] | some first ↦ s.text ] }

unfoldable pub string_error : Reader → Lexeme → StringScan → Error
string_error r lexeme s = record { lexeme = lexeme; char = s.char; place = next_of r s.reader }

unfoldable pub escaped_char : Reader → ℕ → StringScan → StringScan
escaped_char r c s = elim (pick c escapes) [
  | some meant ↦ push_char meant s
  | none ↦ fail_with (string_error r Lexeme.invalid_escape_in_string s) s
]

-- The loop's body, once the character `c` is read.
unfoldable pub string_char : Reader → ℕ → StringScan → StringScan
string_char r c s =
    if (c == b'\n') || (c == b'\r')
    then fail_with (string_error r Lexeme.invalid_new_line_in_string s) s
    else if c == b'\\'
    then (if s.prev_was_escape
        then push_char b'\\' (record s { prev_was_escape = false })
        else record s { prev_was_escape = true })
    else if s.prev_was_escape
    then escaped_char r c (record s { prev_was_escape = false })
    else if c == b'"'
    then record s { is_finished = true }
    else push_char c s

unfoldable pub take_char : ℕ → Reader → StringScan → StringScan
take_char c r' s = record s { width = s.width + 1; char = c; reader = r' }

unfoldable pub scan_string : ℕ → Reader → StringScan → StringScan
scan_string zero r s = s
scan_string (suc fuel) r s = elim (try_read_char s.reader) [
  | none ↦ s
  | some (c, r') ↦
      let s' = string_char r c (take_char c r' s) in
      let rest = scan_string fuel r s' in if s'.is_finished then s' else rest
]

unfoldable pub lex_string_end : StringPool → Reader → StringScan → Lexed
lex_string_end pool r s = elim s.error [
  | some e ↦ record { repr = error_repr r e s.reader; reader = s.reader; pool = pool }
  | none ↦ elim s.is_finished [
    | true ↦
        let interned = intern_string false s.text pool in
        record {
          repr =
              Repr.string_token Lexeme.literal_string (to_16 s.width) (to_32 interned.0)
                (to_16 (length s.text));
          reader = s.reader;
          pool = interned.1;
        }
    | false ↦ record {
      repr = error_repr r (string_error r Lexeme.invalid_unterminated_string s) s.reader;
      reader = s.reader;
      pool = pool;
    }
  ]
]

-- There are at most as many rounds as characters left.
unfoldable pub lex_string : StringPool → Reader → ℕ → Reader → Lexed
lex_string pool r c r' = lex_string_end pool r (scan_string (length r'.rest) r (start_scan c r'))

-- A round of the code literal's loop: the text ends, maybe inside of the closing back quotes, a character
-- is pushed, or the literal is closed.
pub data CodeRound : Type 0 where
  ended : CodeRound
  cut : Reader → CodeRound
  pushed : ℕ → Reader → CodeRound
  closed : Reader → CodeRound

unfoldable pub third_quote : Reader → CodeRound
third_quote r = elim (try_read_char r) [
  | none ↦ CodeRound.cut r
  | some (c, r') ↦ if c == b'`' then CodeRound.closed r' else CodeRound.pushed c r'
]

unfoldable pub second_quote : Reader → CodeRound
second_quote r = elim (try_read_char r) [
  | none ↦ CodeRound.cut r
  | some (c, r') ↦ if c == b'`' then third_quote r' else CodeRound.pushed c r'
]

unfoldable pub code_round : Reader → CodeRound
code_round r = elim (try_read_char r) [
  | none ↦ CodeRound.ended
  | some (c, r') ↦ if c == b'`' then second_quote r' else CodeRound.pushed c r'
]

-- How the loop ends: with the last character read, or with the literal's text.
pub data CodeEnd : Type 0 where
  broken : ℕ → Reader → CodeEnd
  whole : List ℕ → Reader → CodeEnd

unfoldable pub scan_code : ℕ → ℕ → List ℕ → Reader → CodeEnd
scan_code zero last text r = CodeEnd.broken last r
scan_code (suc fuel) last text r = elim (code_round r) [
  | CodeRound.ended ↦ CodeEnd.broken last r
  | CodeRound.cut r' ↦ CodeEnd.broken b'`' r'
  | CodeRound.pushed c r' ↦ scan_code fuel c (text ++ c ∷ []) r'
  | CodeRound.closed r' ↦ CodeEnd.whole text r'
]

unfoldable pub starts_with : List ℕ → List ℕ → Bool
starts_with [] text = true
starts_with (x ∷ xs) [] = false
starts_with (x ∷ xs) (c ∷ text) = if x == c then starts_with xs text else false

-- `make_literal`
unfoldable pub code_literal : Lexeme → ℕ → StringPool → Reader → List ℕ → Reader → Lexed
code_literal lexeme prefix_len pool r text r' =
    let interned = intern_code (drop prefix_len text) pool in
    record {
      repr =
          Repr.code_token lexeme (to_32 interned.0) (to_16 (length (drop prefix_len text)))
            (next_of r r');
      reader = r';
      pool = interned.1;
    }

unfoldable pub invalid_code : StringPool → Reader → ℕ → Reader → Lexed
invalid_code pool r last r' = record {
  repr =
      error_repr r
        (record { lexeme = Lexeme.invalid_unterminated_code; char = last; place = next_of r r' })
        r';
  reader = r';
  pool = pool;
}

unfoldable pub lex_code_end : StringPool → Reader → CodeEnd → Lexed
lex_code_end pool r (CodeEnd.broken last r') = invalid_code pool r last r'
lex_code_end pool r (CodeEnd.whole text r') =
    if starts_with (codes "c++") text
    then code_literal Lexeme.literal_cxx_code 3 pool r text r'
    else if starts_with (codes "python") text
    then code_literal Lexeme.literal_python_code 6 pool r text r'
    else code_literal Lexeme.literal_code 0 pool r text r'

-- The two quotes after the first, and the literal behind them.
unfoldable pub lex_code : StringPool → Reader → Reader → Lexed
lex_code pool r r1 = elim (try_read_char r1) [
  | none ↦ invalid_code pool r b'`' r1
  | some (c, r2) ↦ elim (c == b'`') [
    | false ↦ invalid_code pool r c r2
    | true ↦ elim (try_read_char r2) [
      | none ↦ invalid_code pool r b'`' r2
      | some (d, r3) ↦ elim (d == b'`') [
        | false ↦ invalid_code pool r d r3
        | true ↦ lex_code_end pool r (scan_code (suc (length r3.rest)) b'`' [] r3)
      ]
    ]
  ]
]
