-- ===== src/Lex/Typed/Lexer.antt =====
-- Every token of the lexer is stored as its lexeme says.
use dr_lojekyll.Prelude.{
  ℕ, ◌≡◌, refl, Bool, true, false, Option, none, some, Option-cases, arith, inl, inr, subst,
  if◌then◌else◌, ◌==◌,
}
use dr_lojekyll.Display.Reader.{Reader, try_read_char}
use dr_lojekyll.Lex.Lexeme.{Lexeme}
use dr_lojekyll.Lex.Token.{Token, lexeme_of}
use dr_lojekyll.Lex.StringPool.{StringPool}
use dr_lojekyll.Lex.Words.{pick, punctuation, is_space, is_lower, is_upper, is_digit}
use dr_lojekyll.Lex.Branches.{Tentative, lex_whitespace, lex_pragma, lex_comment}
use dr_lojekyll.Lex.Lexer.{
  Start, start_of, lex_from, end_repr, token_at, next_token, Lexer, try_get_next_token,
}
use dr_lojekyll.Lex.Typed.{
  Struct, IsTyped, stored_as, struct_of, exclaim-IsTyped, unknown-IsTyped, pragma-IsTyped,
  lex_word-IsTyped, basic-IsTyped, punctuation-basic,
}
use dr_lojekyll.Lex.Typed.Literals.{number-IsTyped, code-IsTyped, string-IsTyped}

-- A start of punctuation has a lexeme of punctuation.
abbrev StartTyped : Start → Type 0
StartTyped (Start.punct l) = struct_of l ≡ Struct.basic_struct
StartTyped _ = Unit {0}

record Starts (s : Start) : Type 0 where
  typed : StartTyped s

if-Starts : (c : Bool) (s t : Start) → Starts s → Starts t → Starts (if c then s else t)
if-Starts true s t h k = h
if-Starts false s t h k = k

plain-Starts : (b : Bool) (s t : Start) → StartTyped s → Starts t → Starts (if b then s else t)
plain-Starts b s t h k = if-Starts b s t (record { typed = h }) k

punct-Starts :
    (c : ℕ)
    → Starts (elim (pick c punctuation) [ some lexeme ↦ Start.punct lexeme | none ↦ Start.unknown ])
punct-Starts c = typed (pick c punctuation) (λ l e. punctuation-basic c l e)
  where
    typed :
        (o : Option Lexeme)
        → ((l : Lexeme) → o ≡ some l → struct_of l ≡ Struct.basic_struct)
        → Starts (elim o [ some lexeme ↦ Start.punct lexeme | none ↦ Start.unknown ])
    typed none h = record { typed = tt }
    typed (some l) h = record { typed = h l refl }

start-Starts : (c : ℕ) → Starts (start_of c)
unfolding start_of
start-Starts c = plain-Starts (is_space c) Start.space _ tt (
    plain-Starts (c == b'!') Start.exclaim _ tt (
      plain-Starts (c == b'`') Start.back_quote _ tt (
        plain-Starts (c == b'"') Start.quote _ tt (
          plain-Starts (c == b'@') Start.pragma _ tt (
            plain-Starts (c == b'#') (Start.word Tentative.directive) _ tt (
              plain-Starts (is_lower c) (Start.word Tentative.atom) _ tt (
                plain-Starts (c == b'_') (Start.word Tentative.unnamed_variable) _ tt (
                  plain-Starts (is_upper c) (Start.word Tentative.variable) _ tt (
                    plain-Starts (is_digit c) Start.digit _ tt
                      (plain-Starts (c == b';') Start.comment _ tt (punct-Starts c)))))))))))

lex_from-IsTyped :
    (s : Start) (pool : StringPool) (r : Reader) (c : ℕ) (r' : Reader)
    → StartTyped s
    → IsTyped (lex_from s pool r c r').repr
unfolding lex_from lex_whitespace lex_pragma lex_comment stored_as struct_of lexeme_of
lex_from-IsTyped Start.space pool r c r' h = refl
lex_from-IsTyped (Start.punct l) pool r c r' h = basic-IsTyped l 1 h
lex_from-IsTyped Start.exclaim pool r c r' h = exclaim-IsTyped pool r'
lex_from-IsTyped Start.back_quote pool r c r' h = code-IsTyped pool r r'
lex_from-IsTyped Start.quote pool r c r' h = string-IsTyped pool r c r'
lex_from-IsTyped Start.pragma pool r c r' h = pragma-IsTyped r _ _
lex_from-IsTyped (Start.word t) pool r c r' h = lex_word-IsTyped t pool r c r'
lex_from-IsTyped Start.digit pool r c r' h = number-IsTyped pool r c r'
lex_from-IsTyped Start.comment pool r c r' h = basic-IsTyped Lexeme.comment _ refl
lex_from-IsTyped Start.unknown pool r c r' h = unknown-IsTyped pool r c r'

end-IsTyped : (r : Reader) → IsTyped (end_repr r)
unfolding end_repr stored_as struct_of lexeme_of
end-IsTyped r = ground arith

next-IsTyped : (r : Reader) (pool : StringPool) → IsTyped (next_token r pool).0.repr
unfolding next_token token_at
next-IsTyped r pool = elim (Option-cases (try_read_char r)) [
  | inl e ↦ rw (e, next_token) (end-IsTyped r)
  | inr ((c, r'), e) ↦
      rw (e, next_token) (lex_from-IsTyped (start_of c) pool r c r' (start-Starts c).typed)
]

-- A token that TryGetNextToken returns is stored as the struct that its lexeme belongs to: an
-- error, a type, whitespace, a number, a string, a code literal, an identifier or literal truth
-- value, and a basic token for all other lexemes.
pub try_get_next_token-IsTyped :
    (lexer : Lexer) (t : Token) (lexer' : Lexer)
    → try_get_next_token lexer ≡ some (t, lexer')
    → IsTyped t.repr
unfolding try_get_next_token
try_get_next_token-IsTyped lexer t lexer' e = elim (Option-cases lexer.reader) [
  | inl n ↦ absurd (cc (rw (n, try_get_next_token) at e))
  | inr (r, n) ↦
      let q : next_token r lexer.pool ≡ (t, lexer') = cc (rw (n, try_get_next_token) at e) in
      subst (λ (p : Token × Lexer). IsTyped p.0.repr) q (next-IsTyped r lexer.pool)
]
