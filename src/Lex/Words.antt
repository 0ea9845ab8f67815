-- ===== src/Lex/Words.antt =====
-- The words and the characters that TryGetNextToken of lib/Lex/Lexer.cpp knows. The source narrows the
-- comparisons by a word's size and first character.
use Prim.Native.Char.{code}
use Prim.Native.String.{String}
use dr_lojekyll.Prelude.{
  ℕ, Bool, true, false, not, ◌&&◌, ◌||◌, Option, none, some, List, [], ◌∷◌, if◌then◌else◌, leb,
  ◌==◌,
}
use dr_lojekyll.Lex.Lexeme.{Lexeme, TypeKind}

unfoldable pub codes : String → List ℕ
codes String.[] = []
codes (String.◌∷◌ c s) = code c ∷ codes s

unfoldable pub same : List ℕ → List ℕ → Bool
same [] [] = true
same [] (y ∷ ys) = false
same (x ∷ xs) [] = false
same (x ∷ xs) (y ∷ ys) = (x == y) && same xs ys

unfoldable pub lookup {ℓ} : {A : Type ℓ} → List ℕ → List (List ℕ × A) → Option A
lookup text [] = none
lookup text (w ∷ ws) = if same text w.0 then some w.1 else lookup text ws

unfoldable pub contains : List ℕ → ℕ → Bool
contains [] c = false
contains (x ∷ xs) c = if x == c then true else contains xs c

unfoldable pub pick {ℓ} : {A : Type ℓ} → ℕ → List (ℕ × A) → Option A
pick c [] = none
pick c (w ∷ ws) = if c == w.0 then some w.1 else pick c ws

-- `kStopChars`
unfoldable pub stop_chars : List ℕ
stop_chars = codes " \r\t\n,.()!#{}[]<>:;=-+*/?\\|&^$%\"'~`@_"

unfoldable pub is_stop : ℕ → Bool
is_stop c = contains stop_chars c

unfoldable pub within : ℕ → ℕ → ℕ → Bool
within low high c = leb low c && leb c high

unfoldable pub is_digit : ℕ → Bool
is_digit c = within b'0' b'9' c

unfoldable pub is_lower : ℕ → Bool
is_lower c = within b'a' b'z' c

unfoldable pub is_upper : ℕ → Bool
is_upper c = within b'A' b'Z' c

unfoldable pub is_hex : ℕ → Bool
is_hex c = is_digit c || within b'a' b'f' c || within b'A' b'F' c

unfoldable pub in_number : ℕ → Bool
in_number c = is_hex c || (c == b'x') || (c == b'X')

-- `next_ch == '_' || std::isalnum(next_ch)`
unfoldable pub in_word : ℕ → Bool
in_word c = (c == b'_') || is_digit c || is_lower c || is_upper c

unfoldable pub is_space : ℕ → Bool
is_space c = (c == b' ') || (c == b'\n')

unfoldable pub in_token : ℕ → Bool
in_token c = not (is_stop c)

unfoldable pub punctuation : List (ℕ × Lexeme)
punctuation =
    (b'(', Lexeme.punc_open_paren)
    ∷ (b')', Lexeme.punc_close_paren)
    ∷ (b'{', Lexeme.punc_open_brace)
    ∷ (b'}', Lexeme.punc_close_brace)
    ∷ (b'.', Lexeme.punc_period)
    ∷ (b',', Lexeme.punc_comma)
    ∷ (b'=', Lexeme.punc_equal)
    ∷ (b'?', Lexeme.punc_question)
    ∷ (b'*', Lexeme.punc_star)
    ∷ (b'+', Lexeme.punc_plus)
    ∷ (b'<', Lexeme.punc_less)
    ∷ (b'>', Lexeme.punc_greater)
    ∷ (b':', Lexeme.punc_colon)
    ∷ []

unfoldable pub pragmas : List (List ℕ × Lexeme)
pragmas =
    (codes "@highlight", Lexeme.pragma_debug_highlight)
    ∷ (codes "@product", Lexeme.pragma_perf_product)
    ∷ (codes "@impure", Lexeme.pragma_hint_impure)
    ∷ (codes "@range", Lexeme.pragma_perf_range)
    ∷ (codes "@inline", Lexeme.pragma_perf_inline)
    ∷ (codes "@transparent", Lexeme.pragma_perf_transparent)
    ∷ (codes "@differential", Lexeme.pragma_differential)
    ∷ (codes "@unique", Lexeme.pragma_perf_unique)
    ∷ (codes "@never", Lexeme.pragma_perf_never)
    ∷ (codes "@first", Lexeme.pragma_code_gen_first)
    ∷ (codes "@barrier", Lexeme.pragma_perf_barrier)
    ∷ (codes "@nullable", Lexeme.pragma_perf_nullable)
    ∷ (codes "@invertible", Lexeme.pragma_algebra_invertible)
    ∷ (codes "@recompute", Lexeme.pragma_algebra_recompute)
    ∷ (codes "@commutative", Lexeme.pragma_algebra_commutative)
    ∷ (codes "@associative", Lexeme.pragma_algebra_associative)
    ∷ (codes "@idempotent", Lexeme.pragma_algebra_idempotent)
    ∷ []

unfoldable pub words : List (List ℕ × Lexeme)
words =
    (codes "free", Lexeme.keyword_free)
    ∷ (codes "over", Lexeme.keyword_over)
    ∷ (codes "bound", Lexeme.keyword_bound)
    ∷ (codes "#enum", Lexeme.hash_enum)
    ∷ (codes "#query", Lexeme.hash_query_decl)
    ∷ (codes "#local", Lexeme.hash_local_decl)
    ∷ (codes "#export", Lexeme.hash_export_decl)
    ∷ (codes "#import", Lexeme.hash_import_module_stmt)
    ∷ (codes "#inline", Lexeme.hash_inline_stmt)
    ∷ (codes "summary", Lexeme.keyword_summary)
    ∷ (codes "mutable", Lexeme.keyword_mutable)
    ∷ (codes "#message", Lexeme.hash_message_decl)
    ∷ (codes "#functor", Lexeme.hash_functor_decl)
    ∷ (codes "#foreign", Lexeme.hash_foreign_type_decl)
    ∷ (codes "aggregate", Lexeme.keyword_aggregate)
    ∷ (codes "#constant", Lexeme.hash_foreign_constant_decl)
    ∷ (codes "#database", Lexeme.hash_database)
    ∷ []

unfoldable pub types : List (List ℕ × (Lexeme × TypeKind))
types =
    (codes "i8", (Lexeme.type_in, TypeKind.signed_8))
    ∷ (codes "u8", (Lexeme.type_un, TypeKind.unsigned_8))
    ∷ (codes "f32", (Lexeme.type_fn, TypeKind.float))
    ∷ (codes "f64", (Lexeme.type_fn, TypeKind.double))
    ∷ (codes "i16", (Lexeme.type_in, TypeKind.signed_16))
    ∷ (codes "i32", (Lexeme.type_in, TypeKind.signed_32))
    ∷ (codes "i64", (Lexeme.type_in, TypeKind.signed_64))
    ∷ (codes "u16", (Lexeme.type_un, TypeKind.unsigned_16))
    ∷ (codes "u32", (Lexeme.type_un, TypeKind.unsigned_32))
    ∷ (codes "u64", (Lexeme.type_un, TypeKind.unsigned_64))
    ∷ (codes "bool", (Lexeme.type_boolean, TypeKind.boolean))
    ∷ []

-- What follows a backslash in a string literal, and the character that it stands for.
unfoldable pub escapes : List (ℕ × ℕ)
escapes =
    (b'a', 7)
    ∷ (b'e', 27)
    ∷ (b'n', b'\n')
    ∷ (b'r', b'\r')
    ∷ (b't', b'\t')
    ∷ (b'0', 0)
    ∷ (b'"', b'"')
    ∷ []
