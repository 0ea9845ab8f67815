-- ===== src/Lex/Lexeme.antt =====
-- The lexemes of include/drlojekyll/Lex/Token.h, the kinds of types of include/drlojekyll/Parse/Type.h
-- and the kinds of number spellings of lib/Lex/Token.h.
use dr_lojekyll.Prelude.{ℕ}

pub data Lexeme : Type 0 where
  invalid : Lexeme
  invalid_directive : Lexeme
  invalid_number : Lexeme
  invalid_octal_number : Lexeme
  invalid_hexadecimal_number : Lexeme
  invalid_binary_number : Lexeme
  invalid_new_line_in_string : Lexeme
  invalid_escape_in_string : Lexeme
  invalid_unterminated_string : Lexeme
  invalid_unterminated_code : Lexeme
  invalid_unterminated_cxx_code : Lexeme
  invalid_unterminated_python_code : Lexeme
  invalid_stream_or_display : Lexeme
  invalid_type_name : Lexeme
  invalid_unknown : Lexeme
  invalid_pragma : Lexeme
  end_of_file : Lexeme
  whitespace : Lexeme
  comment : Lexeme
  hash_local_decl : Lexeme
  hash_export_decl : Lexeme
  hash_query_decl : Lexeme
  hash_message_decl : Lexeme
  hash_functor_decl : Lexeme
  hash_foreign_type_decl : Lexeme
  hash_foreign_constant_decl : Lexeme
  hash_import_module_stmt : Lexeme
  hash_inline_stmt : Lexeme
  hash_database : Lexeme
  hash_enum : Lexeme
  type_boolean : Lexeme
  type_in : Lexeme
  type_un : Lexeme
  type_fn : Lexeme
  keyword_bound : Lexeme
  keyword_free : Lexeme
  keyword_aggregate : Lexeme
  keyword_summary : Lexeme
  keyword_mutable : Lexeme
  keyword_over : Lexeme
  punc_open_paren : Lexeme
  punc_close_paren : Lexeme
  punc_open_brace : Lexeme
  punc_close_brace : Lexeme
  punc_period : Lexeme
  punc_comma : Lexeme
  punc_colon : Lexeme
  punc_question : Lexeme
  punc_plus : Lexeme
  punc_star : Lexeme
  punc_equal : Lexeme
  punc_not_equal : Lexeme
  punc_less : Lexeme
  punc_greater : Lexeme
  punc_exclaim : Lexeme
  literal_number : Lexeme
  literal_string : Lexeme
  literal_true : Lexeme
  literal_false : Lexeme
  literal_code : Lexeme
  literal_cxx_code : Lexeme
  literal_python_code : Lexeme
  identifier_atom : Lexeme
  identifier_unnamed_atom : Lexeme
  identifier_variable : Lexeme
  identifier_unnamed_variable : Lexeme
  identifier_type : Lexeme
  identifier_constant : Lexeme
  pragma_differential : Lexeme
  pragma_debug_highlight : Lexeme
  pragma_hint_impure : Lexeme
  pragma_perf_product : Lexeme
  pragma_perf_range : Lexeme
  pragma_perf_inline : Lexeme
  pragma_perf_transparent : Lexeme
  pragma_perf_unique : Lexeme
  pragma_perf_never : Lexeme
  pragma_code_gen_first : Lexeme
  pragma_perf_barrier : Lexeme
  pragma_perf_nullable : Lexeme
  pragma_algebra_invertible : Lexeme
  pragma_algebra_recompute : Lexeme
  pragma_algebra_commutative : Lexeme
  pragma_algebra_associative : Lexeme
  pragma_algebra_idempotent : Lexeme

-- A foreign type carries the id of its name in the high 24 bits.
pub data TypeKind : Type 0 where
  invalid : TypeKind
  boolean : TypeKind
  signed_8 : TypeKind
  signed_16 : TypeKind
  signed_32 : TypeKind
  signed_64 : TypeKind
  unsigned_8 : TypeKind
  unsigned_16 : TypeKind
  unsigned_32 : TypeKind
  unsigned_64 : TypeKind
  float : TypeKind
  double : TypeKind
  foreign_type : ℕ → TypeKind

pub data NumberSpellingKind : Type 0 where
  invalid : NumberSpellingKind
  binary : NumberSpellingKind
  octal : NumberSpellingKind
  decimal : NumberSpellingKind
  hexadecimal : NumberSpellingKind
