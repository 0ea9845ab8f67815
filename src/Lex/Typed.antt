-- ===== src/Lex/Typed.antt =====
-- The struct that a token is stored as is the one that its lexeme says.
pub mod Literals
pub mod Lexer
use dr_lojekyll.Prelude.{
  ℕ, ◌≡◌, refl, sym, subst, Bool, true, false, ◌&&◌, some, List, [], ◌∷◌, length, ◌==◌, Bool-cases,
  Option-cases, inl, inr, arith,
}
use dr_lojekyll.Display.Reader.{Reader, accumulate_if}
use dr_lojekyll.Lex.Lexeme.{Lexeme, TypeKind}
use dr_lojekyll.Lex.Token.{to_16, Repr, lexeme_of}
use dr_lojekyll.Lex.StringPool.{StringPool}
use dr_lojekyll.Lex.Words.{codes, same, lookup, pick, pragmas, words, types, punctuation, in_word}
use dr_lojekyll.Lex.Tiling.Branches.{and_both}
use dr_lojekyll.Lex.Branches.{
  error_at, basic, lex_exclaim, pragma_repr, identifier, lex_identifier, Tentative, lex_name,
  word_repr, lex_word, lex_unknown,
}

-- The structs of lib/Lex/Token.h over the bits of a token.
pub data Struct : Type 0 where
  basic_struct : Struct
  error_struct : Struct
  type_struct : Struct
  whitespace_struct : Struct
  number_struct : Struct
  string_struct : Struct
  code_struct : Struct
  identifier_struct : Struct

unfoldable pub stored_as : Repr → Struct
stored_as (Repr.basic_token l w) = Struct.basic_struct
stored_as (Repr.error_token l c e d) = Struct.error_struct
stored_as (Repr.type_token l w k) = Struct.type_struct
stored_as (Repr.whitespace_token l w d) = Struct.whitespace_struct
stored_as (Repr.number_token l w k b p) = Struct.number_struct
stored_as (Repr.string_token l w i n) = Struct.string_struct
stored_as (Repr.code_token l i n d) = Struct.code_struct
stored_as (Repr.identifier_token l w i k) = Struct.identifier_struct

unfoldable pub struct_of : Lexeme → Struct
struct_of Lexeme.invalid_directive = Struct.error_struct
struct_of Lexeme.invalid_number = Struct.error_struct
struct_of Lexeme.invalid_octal_number = Struct.error_struct
struct_of Lexeme.invalid_hexadecimal_number = Struct.error_struct
struct_of Lexeme.invalid_binary_number = Struct.error_struct
struct_of Lexeme.invalid_new_line_in_string = Struct.error_struct
struct_of Lexeme.invalid_escape_in_string = Struct.error_struct
struct_of Lexeme.invalid_unterminated_string = Struct.error_struct
struct_of Lexeme.invalid_unterminated_code = Struct.error_struct
struct_of Lexeme.invalid_stream_or_display = Struct.error_struct
struct_of Lexeme.invalid_unknown = Struct.error_struct
struct_of Lexeme.invalid_pragma = Struct.error_struct
struct_of Lexeme.whitespace = Struct.whitespace_struct
struct_of Lexeme.type_boolean = Struct.type_struct
struct_of Lexeme.type_in = Struct.type_struct
struct_of Lexeme.type_un = Struct.type_struct
struct_of Lexeme.type_fn = Struct.type_struct
struct_of Lexeme.literal_number = Struct.number_struct
struct_of Lexeme.literal_string = Struct.string_struct
struct_of Lexeme.literal_code = Struct.code_struct
struct_of Lexeme.literal_cxx_code = Struct.code_struct
struct_of Lexeme.literal_python_code = Struct.code_struct
struct_of Lexeme.literal_true = Struct.identifier_struct
struct_of Lexeme.literal_false = Struct.identifier_struct
struct_of Lexeme.identifier_atom = Struct.identifier_struct
struct_of Lexeme.identifier_variable = Struct.identifier_struct
struct_of Lexeme.identifier_unnamed_variable = Struct.identifier_struct
struct_of _ = Struct.basic_struct

abbrev pub IsTyped : Repr → Type 0
IsTyped repr = stored_as repr ≡ struct_of (lexeme_of repr)

pub exclaim-IsTyped : (pool : StringPool) (r' : Reader) → IsTyped (lex_exclaim pool r').repr
unfolding lex_exclaim basic stored_as struct_of lexeme_of
exclaim-IsTyped pool r' = ground arith

pub unknown-IsTyped :
    (pool : StringPool) (r : Reader) (c : ℕ) (r' : Reader) → IsTyped (lex_unknown pool r c r').repr
unfolding lex_unknown error_at stored_as struct_of lexeme_of
unknown-IsTyped pool r c r' = refl

name-IsTyped :
    (t : Tentative) (pool : StringPool) (r : Reader) (c : ℕ) (text : List ℕ) (r' : Reader)
    → IsTyped (lex_name t pool r c text r').repr
unfolding lex_name lex_identifier identifier error_at stored_as struct_of lexeme_of
name-IsTyped t pool r c text r' = ground arith

-- Tests of the tables.
unfoldable is_basic : Struct → Bool
is_basic Struct.basic_struct = true
is_basic _ = false

unfoldable is_type : Struct → Bool
is_type Struct.type_struct = true
is_type _ = false

is_basic_lem : (s : Struct) → is_basic s ≡ true → s ≡ Struct.basic_struct
unfolding is_basic
is_basic_lem s e = ground (arith, e)

is_type_lem : (s : Struct) → is_type s ≡ true → s ≡ Struct.type_struct
unfolding is_type
is_type_lem s e = ground (arith, e)

module _ {A B : Type 0} (test : B → Bool) where
  abbrev all_pass : List (A × B) → Bool
  all_pass [] = true
  all_pass (w ∷ ws) = test w.1 && all_pass ws

lookup_pass :
    {B : Type 0} (test : B → Bool) (ws : List (List ℕ × B)) (text : List ℕ) (b : B)
    → all_pass test ws ≡ true
    → lookup text ws ≡ some b
    → test b ≡ true
unfolding lookup
lookup_pass test [] text b h e = absurd (cc e)
lookup_pass test (w ∷ ws) text b h e = elim (Bool-cases (same text w.0)) [
  | inl t ↦
      let q : w.1 ≡ b = cc (rw t at e) in
      subst (λ x. test x ≡ true) q (and_both (test w.1) (all_pass test ws) h).0
  | inr g ↦ lookup_pass test ws text b (and_both (test w.1) (all_pass test ws) h).1 (rw g at e)
]

pick_pass :
    {B : Type 0} (test : B → Bool) (ws : List (ℕ × B)) (c : ℕ) (b : B)
    → all_pass test ws ≡ true
    → pick c ws ≡ some b
    → test b ≡ true
unfolding pick
pick_pass test [] c b h e = absurd (cc e)
pick_pass test (w ∷ ws) c b h e = elim (Bool-cases (c == w.0)) [
  | inl t ↦
      let q : w.1 ≡ b = cc (rw t at e) in
      subst (λ x. test x ≡ true) q (and_both (test w.1) (all_pass test ws) h).0
  | inr g ↦ pick_pass test ws c b (and_both (test w.1) (all_pass test ws) h).1 (rw g at e)
]

pragma-basic :
    (text : List ℕ) (l : Lexeme) → lookup text pragmas ≡ some l → struct_of l ≡ Struct.basic_struct
unfolding pragmas is_basic struct_of
pragma-basic text l e =
    is_basic_lem (struct_of l) (lookup_pass (λ x. is_basic (struct_of x)) pragmas text l refl e)

word-basic :
    (text : List ℕ) (l : Lexeme) → lookup text words ≡ some l → struct_of l ≡ Struct.basic_struct
unfolding words is_basic struct_of
word-basic text l e =
    is_basic_lem (struct_of l) (lookup_pass (λ x. is_basic (struct_of x)) words text l refl e)

type-struct_of :
    (text : List ℕ) (l : Lexeme × TypeKind)
    → lookup text types ≡ some l
    → struct_of l.0 ≡ Struct.type_struct
unfolding types is_type struct_of
type-struct_of text l e =
    is_type_lem (struct_of l.0) (lookup_pass (λ x. is_type (struct_of x.0)) types text l refl e)

pub punctuation-basic :
    (c : ℕ) (l : Lexeme) → pick c punctuation ≡ some l → struct_of l ≡ Struct.basic_struct
unfolding punctuation is_basic struct_of
punctuation-basic c l e =
    is_basic_lem (struct_of l) (pick_pass (λ x. is_basic (struct_of x)) punctuation c l refl e)

pub basic-IsTyped : (l : Lexeme) (n : ℕ) → struct_of l ≡ Struct.basic_struct → IsTyped (basic l n)
unfolding basic stored_as lexeme_of
basic-IsTyped l n e = sym e

pub pragma-IsTyped : (r : Reader) (text : List ℕ) (r' : Reader) → IsTyped (pragma_repr r text r')
unfolding pragma_repr error_at stored_as struct_of lexeme_of
pragma-IsTyped r text r' = elim (Option-cases (lookup text pragmas)) [
  | inl e ↦ rw (e, pragma_repr) refl
  | inr (l, e) ↦ rw (e, pragma_repr) (basic-IsTyped l (length text) (pragma-basic text l e))
]

some-IsTyped : (o p : Repr) → some o ≡ some p → IsTyped o → IsTyped p
some-IsTyped o p e h = let q : o ≡ p = cc e in subst IsTyped q h

word-IsTyped : (text : List ℕ) (p : Repr) → word_repr text ≡ some p → IsTyped p
unfolding word_repr identifier stored_as struct_of lexeme_of
word-IsTyped text p e = elim (Bool-cases (same text (codes "true"))) [
  | inl t ↦ some-IsTyped _ p (rw (t, word_repr) at e) refl
  | inr f ↦ elim (Bool-cases (same text (codes "false"))) [
    | inl t ↦ some-IsTyped _ p (rw (f, t, word_repr) at e) refl
    | inr g ↦ elim (Option-cases (lookup text types)) [
      | inr ((l, k), h) ↦
          some-IsTyped (Repr.type_token l (to_16 (length text)) k) p (rw (f, g, h, word_repr) at e)
            (sym (type-struct_of text (l, k) h))
      | inl h ↦ elim (Option-cases (lookup text words)) [
        | inr (l, m) ↦
            some-IsTyped (basic l (length text)) p (rw (f, g, h, m, word_repr) at e)
              (basic-IsTyped l (length text) (word-basic text l m))
        | inl m ↦ absurd (cc (rw (f, g, h, m, word_repr) at e))
      ]
    ]
  ]
]

pub lex_word-IsTyped :
    (t : Tentative) (pool : StringPool) (r : Reader) (c : ℕ) (r' : Reader)
    → IsTyped (lex_word t pool r c r').repr
unfolding lex_word
lex_word-IsTyped t pool r c r' =
    let more = accumulate_if in_word r' in
    elim (Option-cases (word_repr (c ∷ more.0))) [
      | inl e ↦ rw (e, lex_word) (name-IsTyped t pool r c more.0 more.1)
      | inr (p, e) ↦ rw (e, lex_word) (word-IsTyped (c ∷ more.0) p e)
    ]
