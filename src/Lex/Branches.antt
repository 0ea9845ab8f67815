-- ===== src/Lex/Branches.antt =====
-- The branches of TryGetNextToken of lib/Lex/Lexer.cpp that read a whole token at once: whitespace,
-- `!`, pragmas, words, comments and unknown text. `r` is the reader in front of the token, `c` its first
-- character and `r'` the reader behind it.
use dr_lojekyll.Prelude.{
  ℕ, ◌+◌, Bool, true, false, not, Option, none, some, List, [], ◌∷◌, length, if◌then◌else◌, ◌==◌,
}
use dr_lojekyll.Display.Position.{column_of}
use dr_lojekyll.Display.Reader.{Reader, try_read_char, unread_char, current_position, accumulate_if}
use dr_lojekyll.Lex.Lexeme.{Lexeme, TypeKind}
use dr_lojekyll.Lex.Token.{Disp, disp, between, to_16, to_32, Repr}
use dr_lojekyll.Lex.StringPool.{StringPool, intern_string, underscore_id, true_id, false_id}
use dr_lojekyll.Lex.Words.{
  codes, same, lookup, is_space, is_stop, in_token, in_word, pragmas, words, types,
}

-- What a token stores, and the reader and the pool after it.
pub record Lexed : Type 0 where
  pub repr : Repr
  pub reader : Reader
  pub pool : StringPool

unfoldable pub next_of : Reader → Reader → Disp
next_of r r' = between (current_position r) (current_position r')

-- An error that names the character at index `i` of the token.
unfoldable pub error_at : Reader → Lexeme → ℕ → ℕ → Reader → Repr
error_at r lexeme c i r' =
    Repr.error_token lexeme c (disp i 0 (column_of (current_position r) + i)) (next_of r r')

unfoldable pub basic : Lexeme → ℕ → Repr
basic lexeme width = Repr.basic_token lexeme (to_16 width)

-- Spaces after the last line break.
unfoldable pub leading_spaces : ℕ → List ℕ → ℕ
leading_spaces n [] = n
leading_spaces n (c ∷ text) =
    if c == b' ' then leading_spaces (n + 1) text else leading_spaces 0 text

unfoldable pub lex_whitespace : StringPool → Reader → ℕ → Reader → Lexed
lex_whitespace pool r c r' =
    let more = accumulate_if is_space r' in
    record {
      repr =
          Repr.whitespace_token Lexeme.whitespace (to_16 (leading_spaces 0 (c ∷ more.0)))
            (next_of r more.1);
      reader = more.1;
      pool = pool;
    }

unfoldable pub lex_exclaim : StringPool → Reader → Lexed
lex_exclaim pool r' = elim (try_read_char r') [
  | none ↦ record { repr = basic Lexeme.punc_exclaim 1; reader = r'; pool = pool }
  | some (c, r'') ↦ elim (c == b'=') [
    | true ↦ record { repr = basic Lexeme.punc_not_equal 2; reader = r''; pool = pool }
    | false ↦ record { repr = basic Lexeme.punc_exclaim 1; reader = unread_char r''; pool = pool }
  ]
]

-- For a lone `@` the source reads the terminator of its string.
unfoldable pub pragma_char : List ℕ → ℕ
pragma_char [] = 0
pragma_char (c ∷ []) = 0
pragma_char (c ∷ d ∷ text) = c

unfoldable pub pragma_repr : Reader → List ℕ → Reader → Repr
pragma_repr r text r' = elim (lookup text pragmas) [
  | some lexeme ↦ basic lexeme (length text)
  | none ↦ error_at r Lexeme.invalid_pragma (pragma_char text) 1 r'
]

unfoldable pub lex_pragma : StringPool → Reader → ℕ → Reader → Lexed
lex_pragma pool r c r' =
    let more = accumulate_if in_token r' in
    record { repr = pragma_repr r (c ∷ more.0) more.1; reader = more.1; pool = pool }

unfoldable pub identifier : Lexeme → ℕ → ℕ → TypeKind → Repr
identifier lexeme width id kind = Repr.identifier_token lexeme (to_16 width) (to_32 id) kind

unfoldable pub lex_identifier : Lexeme → List ℕ → StringPool → Reader → Lexed
lex_identifier lexeme text pool r' =
    let interned = intern_string false text pool in
    record {
      repr = identifier lexeme (length text) interned.0 TypeKind.invalid;
      reader = r';
      pool = interned.1;
    }

-- What a word is that is no keyword, by its first character.
pub data Tentative : Type 0 where
  directive : Tentative
  atom : Tentative
  variable : Tentative
  unnamed_variable : Tentative

unfoldable pub lex_name : Tentative → StringPool → Reader → ℕ → List ℕ → Reader → Lexed
lex_name Tentative.directive pool r c text r' = record {
  repr = error_at r Lexeme.invalid_directive c 1 r';
  reader = r';
  pool = pool;
}
lex_name Tentative.atom pool r c text r' = lex_identifier Lexeme.identifier_atom (c ∷ text) pool r'
lex_name Tentative.variable pool r c text r' =
    lex_identifier Lexeme.identifier_variable (c ∷ text) pool r'
lex_name Tentative.unnamed_variable pool r c [] r' = record {
  repr = identifier Lexeme.identifier_unnamed_variable 1 underscore_id TypeKind.invalid;
  reader = r';
  pool = pool;
}
lex_name Tentative.unnamed_variable pool r c (d ∷ text) r' =
    lex_identifier Lexeme.identifier_unnamed_variable (c ∷ d ∷ text) pool r'

-- Literals, types, keywords and directives.
unfoldable pub word_repr : List ℕ → Option Repr
word_repr text =
    if same text (codes "true")
    then some (identifier Lexeme.literal_true 4 true_id TypeKind.boolean)
    else if same text (codes "false")
    then some (identifier Lexeme.literal_false 5 false_id TypeKind.boolean)
    else elim (lookup text types) [
      | some (lexeme, kind) ↦ some (Repr.type_token lexeme (to_16 (length text)) kind)
      | none ↦ elim (lookup text words) [
        | some lexeme ↦ some (basic lexeme (length text))
        | none ↦ none
      ]
    ]

unfoldable pub lex_word : Tentative → StringPool → Reader → ℕ → Reader → Lexed
lex_word tentative pool r c r' =
    let more = accumulate_if in_word r' in
    elim (word_repr (c ∷ more.0)) [
      | some repr ↦ record { repr = repr; reader = more.1; pool = pool }
      | none ↦ lex_name tentative pool r c more.0 more.1
    ]

unfoldable pub not_break : ℕ → Bool
not_break c = not (c == b'\n')

unfoldable pub lex_comment : StringPool → ℕ → Reader → Lexed
lex_comment pool c r' =
    let more = accumulate_if not_break r' in
    record { repr = basic Lexeme.comment (length (c ∷ more.0)); reader = more.1; pool = pool }

unfoldable pub unknown_end : ℕ → Reader → Reader
unknown_end c r' = elim (is_stop c) [ true ↦ r' | false ↦ (accumulate_if in_token r').1 ]

unfoldable pub lex_unknown : StringPool → Reader → ℕ → Reader → Lexed
lex_unknown pool r c r' = record {
  repr = error_at r Lexeme.invalid_unknown c 0 (unknown_end c r');
  reader = unknown_end c r';
  pool = pool;
}
