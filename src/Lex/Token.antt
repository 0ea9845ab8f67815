-- ===== src/Lex/Token.antt =====
-- Tokens of lib/Lex/Token.cpp and lib/Lex/Token.h: the structs over the 128 bits of a token are the
-- constructors of Repr. A field that is stored is cut to its width.
use dr_lojekyll.Prelude.{ℕ, ◌+◌, ◌-◌, ◌%◌, ◌^◌, Bool, true, false, not, if◌then◌else◌}
use dr_lojekyll.Display.Position.{
  Position, no_position, emplace, id_of, index_of, line_of, column_of, is_valid,
}
use dr_lojekyll.Lex.Lexeme.{Lexeme, TypeKind, NumberSpellingKind}

-- Where something stands, from the start of a token: only the column counts from the line's start.
pub record Disp : Type 0 where
  pub index : ℕ
  pub line : ℕ
  pub column : ℕ

pub data Repr : Type 0 where
  basic_token : Lexeme → ℕ → Repr
  error_token : Lexeme → ℕ → Disp → Disp → Repr
  type_token : Lexeme → ℕ → TypeKind → Repr
  whitespace_token : Lexeme → ℕ → Disp → Repr
  number_token : Lexeme → ℕ → NumberSpellingKind → Bool → ℕ → Repr
  string_token : Lexeme → ℕ → ℕ → ℕ → Repr
  code_token : Lexeme → ℕ → ℕ → Disp → Repr
  identifier_token : Lexeme → ℕ → ℕ → TypeKind → Repr

pub record Token : Type 0 where
  pub position : Position
  pub repr : Repr

-- A store to a field of 16 bits, and one to a field of 32.
abbrev pub to_16 : ℕ → ℕ
to_16 n = n % 2 ^ 16

abbrev pub to_32 : ℕ → ℕ
to_32 n = n % 2 ^ 32

abbrev pub disp : ℕ → ℕ → ℕ → Disp
disp index line column = record { index = to_16 index; line = to_16 line; column = to_16 column }

-- The difference of two 64-bit numbers, which wraps around.
abbrev pub minus_64 : ℕ → ℕ → ℕ
minus_64 a b = (a + 2 ^ 64 - b) % 2 ^ 64

unfoldable pub between : Position → Position → Disp
between p q =
    disp (minus_64 (index_of q) (index_of p)) (minus_64 (line_of q) (line_of p)) (column_of q)

unfoldable pub lexeme_of : Repr → Lexeme
lexeme_of (basic_token l w) = l
lexeme_of (error_token l c e d) = l
lexeme_of (type_token l w k) = l
lexeme_of (whitespace_token l w d) = l
lexeme_of (number_token l w k b p) = l
lexeme_of (string_token l w i n) = l
lexeme_of (code_token l i n d) = l
lexeme_of (identifier_token l w i k) = l

-- Lexemes that `IsValid` refuses.
unfoldable pub names_error : Lexeme → Bool
names_error Lexeme.invalid = true
names_error Lexeme.invalid_directive = true
names_error Lexeme.invalid_number = true
names_error Lexeme.invalid_octal_number = true
names_error Lexeme.invalid_hexadecimal_number = true
names_error Lexeme.invalid_binary_number = true
names_error Lexeme.invalid_new_line_in_string = true
names_error Lexeme.invalid_escape_in_string = true
names_error Lexeme.invalid_unterminated_string = true
names_error Lexeme.invalid_unterminated_code = true
names_error Lexeme.invalid_unterminated_cxx_code = true
names_error Lexeme.invalid_unterminated_python_code = true
names_error Lexeme.invalid_stream_or_display = true
names_error Lexeme.invalid_type_name = true
names_error Lexeme.invalid_unknown = true
names_error Lexeme.invalid_pragma = true
names_error _ = false

unfoldable pub is_valid_token : Token → Bool
is_valid_token t = not (names_error (lexeme_of t.repr))

-- The cases of `NextPosition`.
pub data Shape : Type 0 where
  nowhere : Shape
  here : Shape
  measured : Shape
  flat : Shape

unfoldable pub shape : Lexeme → Shape
shape Lexeme.invalid = Shape.nowhere
shape Lexeme.end_of_file = Shape.here
shape Lexeme.whitespace = Shape.measured
shape Lexeme.literal_code = Shape.measured
shape Lexeme.literal_cxx_code = Shape.measured
shape Lexeme.literal_python_code = Shape.measured
shape Lexeme.invalid_directive = Shape.measured
shape Lexeme.invalid_number = Shape.measured
shape Lexeme.invalid_octal_number = Shape.measured
shape Lexeme.invalid_hexadecimal_number = Shape.measured
shape Lexeme.invalid_binary_number = Shape.measured
shape Lexeme.invalid_new_line_in_string = Shape.measured
shape Lexeme.invalid_escape_in_string = Shape.measured
shape Lexeme.invalid_unterminated_string = Shape.measured
shape Lexeme.invalid_unterminated_code = Shape.measured
shape Lexeme.invalid_unterminated_cxx_code = Shape.measured
shape Lexeme.invalid_unterminated_python_code = Shape.measured
shape Lexeme.invalid_stream_or_display = Shape.measured
shape Lexeme.invalid_type_name = Shape.measured
shape Lexeme.invalid_unknown = Shape.measured
shape Lexeme.invalid_pragma = Shape.measured
shape _ = Shape.flat

-- The fields that NextPosition loads. A struct without such a field is not read with these lexemes.
unfoldable pub spelling_width : Repr → ℕ
spelling_width (basic_token l w) = w
spelling_width (type_token l w k) = w
spelling_width (whitespace_token l w d) = w
spelling_width (number_token l w k b p) = w
spelling_width (string_token l w i n) = w
spelling_width (identifier_token l w i k) = w
spelling_width _ = 0

unfoldable pub next_disp : Repr → Disp
next_disp (error_token l c e d) = d
next_disp (whitespace_token l w d) = d
next_disp (code_token l i n d) = d
next_disp _ = disp 0 0 0

unfoldable pub after_flat : Position → ℕ → Position
after_flat p w = emplace (id_of p) (index_of p + w) (line_of p) (column_of p + w)

unfoldable pub after_disp : Position → Disp → Position
after_disp p d = emplace (id_of p) (index_of p + d.index) (line_of p + d.line) d.column

unfoldable pub next_position : Token → Position
next_position t = elim (shape (lexeme_of t.repr)) [
  | Shape.nowhere ↦ no_position
  | Shape.here ↦ t.position
  | Shape.measured ↦ after_disp t.position (next_disp t.repr)
  | Shape.flat ↦ after_flat t.position (spelling_width t.repr)
]

unfoldable pub error_disp : Repr → Disp
error_disp (error_token l c e d) = e
error_disp _ = disp 0 0 0

unfoldable pub error_position : Token → Position
error_position t =
    if is_valid_token t
    then no_position
    else if not (is_valid t.position)
    then no_position
    else after_disp t.position (error_disp t.repr)

unfoldable pub is_type : Token → Bool
is_type t = elim (lexeme_of t.repr) [
  | Lexeme.type_boolean ↦ true
  | Lexeme.type_un ↦ true
  | Lexeme.type_in ↦ true
  | Lexeme.type_fn ↦ true
  | Lexeme.identifier_type ↦ true
  | _ ↦ false
]

-- `StringId` and `IdentifierId`, `StringLength` and `IdentifierLength`, `CodeId`.
unfoldable pub string_id : Repr → ℕ
string_id (string_token Lexeme.literal_string w i n) = i
string_id _ = 0

unfoldable pub string_length : Repr → ℕ
string_length (string_token Lexeme.literal_string w i n) = n
string_length _ = 0

unfoldable pub code_id : Repr → ℕ
code_id (code_token Lexeme.literal_code i n d) = i
code_id (code_token Lexeme.literal_cxx_code i n d) = i
code_id (code_token Lexeme.literal_python_code i n d) = i
code_id _ = 0

unfoldable pub identifier_id : Repr → ℕ
identifier_id (identifier_token Lexeme.identifier_atom w i k) = i
identifier_id (identifier_token Lexeme.identifier_variable w i k) = i
identifier_id (identifier_token Lexeme.identifier_constant w i k) = i
identifier_id (identifier_token Lexeme.identifier_type w i k) = i
identifier_id _ = 0

unfoldable pub identifier_length : Repr → ℕ
identifier_length (identifier_token Lexeme.identifier_atom w i k) = w
identifier_length (identifier_token Lexeme.identifier_variable w i k) = w
identifier_length (identifier_token Lexeme.identifier_constant w i k) = w
identifier_length (identifier_token Lexeme.identifier_type w i k) = w
identifier_length _ = 0

unfoldable pub error_char : Repr → ℕ
error_char (error_token l c e d) = c
error_char _ = 0

unfoldable pub invalid_char : Token → ℕ
invalid_char t = if is_valid_token t then 0 else error_char t.repr
