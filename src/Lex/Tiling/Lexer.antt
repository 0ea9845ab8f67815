-- ===== src/Lex/Tiling/Lexer.antt =====
-- Each token is the text that the lexer reads for it, the tokens together are the display's text.
use dr_lojekyll.Prelude.{
  ℕ, zero, suc, ◌<◌, ◌≡◌, refl, sym, ap, Bool, true, false, none, some, List, [], ◌∷◌, length,
  length-append, arith, if◌then◌else◌, ◌==◌, Bool-cases, Option-cases, inl, inr, ==_iff, ◌&&◌,
}
use dr_lojekyll.Display.Reader.{Reader, try_read_char, current_position}
use dr_lojekyll.Display.Reads.{num_breaks, IsPlaced, ReadsOne, try_read_char-cases}
use dr_lojekyll.Lex.Lexeme.{Lexeme}
use dr_lojekyll.Lex.Token.{Token, lexeme_of, Repr, Shape, shape}
use dr_lojekyll.Lex.StringPool.{StringPool}
use dr_lojekyll.Lex.Words.{pick, punctuation, is_space, is_lower, is_upper, is_digit}
use dr_lojekyll.Lex.Lexer.{
  Lexer, Start, start_of, lex_from, end_repr, token_at, next_token, try_get_next_token, tokens,
}
use dr_lojekyll.Lex.Tiling.{Tiles, breaks-cons}
use dr_lojekyll.Lex.Tiling.Branches.{
  basic-Tiles, lex_whitespace-Tiles, lex_exclaim-Tiles, lex_word-Tiles, lex_pragma-Tiles,
  lex_comment-Tiles, lex_unknown-Tiles, is_flat, is_flat_lem, and_both,
}
use dr_lojekyll.Lex.Tiling.Literals.{lex_string-Tiles}
use dr_lojekyll.Lex.Tiling.Code.{lex_code-Tiles}
use dr_lojekyll.Lex.Tiling.Numbers.{lex_number-Tiles}

-- What a start says of the character: only whitespace starts with a line break.
abbrev Fit : ℕ → Start → Type 0
Fit c Start.space = Unit {0}
Fit c (Start.punct lexeme) = ((c == b'\n') ≡ false) × (shape lexeme ≡ Shape.flat)
Fit c Start.exclaim = c ≡ b'!'
Fit c Start.back_quote = Unit {0}
Fit c Start.quote = (c == b'\n') ≡ false
Fit c Start.pragma = (c == b'\n') ≡ false
Fit c (Start.word t) = (c == b'\n') ≡ false
Fit c Start.digit = (c == b'\n') ≡ false
Fit c Start.comment = (c == b'\n') ≡ false
Fit c Start.unknown = Unit {0}

if-Fit :
    (c : ℕ) (b : Bool) (x y : Start)
    → (b ≡ true → Fit c x)
    → (b ≡ false → Fit c y)
    → Fit c (if b then x else y)
if-Fit c true x y h k = h refl
if-Fit c false x y h k = k refl

all_flat : List (ℕ × Lexeme) → Bool
all_flat [] = true
all_flat (w ∷ ws) = is_flat (shape w.1) && all_flat ws

pick-flat :
    (c : ℕ) (ws : List (ℕ × Lexeme)) {l : Lexeme}
    → all_flat ws ≡ true
    → pick c ws ≡ some l
    → shape l ≡ Shape.flat
unfolding pick all_flat
pick-flat c [] h e = absurd (cc e)
pick-flat c (w ∷ ws) {l} h e = elim (Bool-cases (c == w.0)) [
  | inl t ↦
      let q : w.1 ≡ l = cc (rw t at e) in
      rw (sym q) (is_flat_lem (shape w.1) (and_both (is_flat (shape w.1)) (all_flat ws) h).0)
  | inr g ↦ pick-flat c ws (and_both (is_flat (shape w.1)) (all_flat ws) h).1 (rw g at e)
]

space_lem : (c : ℕ) → is_space c ≡ false → (c == b'\n') ≡ false
unfolding is_space
space_lem c f = elim (Bool-cases (c == b' ')) [
  | inl t ↦ absurd (cc (rw t at f))
  | inr g ↦ rw g at f
]

punct-Fit :
    (c : ℕ)
    → (c == b'\n') ≡ false
    → Fit c (elim (pick c punctuation) [ some lexeme ↦ Start.punct lexeme | none ↦ Start.unknown ])
unfolding punctuation is_flat shape all_flat
punct-Fit c k = elim (Option-cases (pick c punctuation)) [
  | inl e ↦ rw e tt
  | inr (l, e) ↦ rw e (k, pick-flat c punctuation refl e)
]

start_of-Fit : (c : ℕ) → Fit c (start_of c)
unfolding start_of
start_of-Fit c =
    if-Fit c (is_space c) _ _ (λ t. tt)
      (λ f.
        let k = space_lem c f in
        if-Fit c (c == b'!') _ _ (λ t. (==_iff c b'!').0 t)
          (λ f1.
            if-Fit c (c == b'`') _ _ (λ t. tt)
              (λ f2.
                if-Fit c (c == b'"') _ _ (λ t. k)
                  (λ f3.
                    if-Fit c (c == b'@') _ _ (λ t. k)
                      (λ f4.
                        if-Fit c (c == b'#') _ _ (λ t. k)
                          (λ f5.
                            if-Fit c (is_lower c) _ _ (λ t. k)
                              (λ f6.
                                if-Fit c (c == b'_') _ _ (λ t. k)
                                  (λ f7.
                                    if-Fit c (is_upper c) _ _ (λ t. k)
                                      (λ f8.
                                        if-Fit c (is_digit c) _ _ (λ t. k)
                                          (λ f9.
                                            if-Fit c (c == b';') _ _ (λ t. k)
                                              (λ f10. punct-Fit c k)))))))))))

lex_from-Tiles :
    (start : Start) (pool : StringPool) (r : Reader) (c : ℕ) (r' : Reader)
    → IsPlaced r
    → ReadsOne r c r'
    → Fit c start
    → Tiles r c (lex_from start pool r c r').repr (lex_from start pool r c r').reader
unfolding lex_from num_breaks
lex_from-Tiles Start.space pool r c r' p one f = lex_whitespace-Tiles r c r' p one pool
lex_from-Tiles (Start.punct lexeme) pool r c r' p one f =
    basic-Tiles r r' lexeme c [] p one.reads (breaks-cons c [] f.0 refl) f.1
lex_from-Tiles Start.exclaim pool r c r' p one f = lex_exclaim-Tiles r c r' p one pool f
lex_from-Tiles Start.back_quote pool r c r' p one f = lex_code-Tiles r c r' p one pool
lex_from-Tiles Start.quote pool r c r' p one f = lex_string-Tiles r c r' p one pool f
lex_from-Tiles Start.pragma pool r c r' p one f = lex_pragma-Tiles r c r' p one pool f
lex_from-Tiles (Start.word t) pool r c r' p one f = lex_word-Tiles r c r' p one pool t f
lex_from-Tiles Start.digit pool r c r' p one f = lex_number-Tiles r c p r' pool f one
lex_from-Tiles Start.comment pool r c r' p one f = lex_comment-Tiles r c r' p one pool f
lex_from-Tiles Start.unknown pool r c r' p one f = lex_unknown-Tiles r c r' p one pool

-- The token at the end of the display.
pub record IsLast (r : Reader) (t : Token) : Type 0 where
  pub rest : r.rest ≡ []
  pub position : t.position ≡ current_position r
  lexeme :
      lexeme_of t.repr ≡ (if r.failed then Lexeme.invalid_stream_or_display else Lexeme.end_of_file)

-- The tokens from `r` on: each tiles the text that is read for it, and the last one stands at the end.
pub data Tiling : Reader → List Token → Type 0 where
  ends_with : {r : Reader} {t : Token} → IsLast r t → Tiling r (t ∷ [])
  goes_on :
      {r : Reader} {c : ℕ} {repr : Repr} {r' : Reader} {ts : List Token}
      → Tiles r c repr r'
      → Tiling r' ts
      → Tiling r (token_at r repr ∷ ts)

abbrev pub lexing : Reader → StringPool → Lexer
lexing r pool = record { reader = some r; pool = pool }

end_repr-IsLast : (r : Reader) → r.rest ≡ [] → IsLast r (token_at r (end_repr r))
unfolding token_at end_repr lexeme_of
end_repr-IsLast r e = record {
  rest = e;
  position = refl;
  lexeme = elim (Bool-cases r.failed) [ inl t ↦ rw t refl | inr f ↦ rw f refl ];
}

pub record Completes (r : Reader) (o : List Token × Lexer) : Type 0 where
  pub tiling : Tiling r o.0
  pub finished : o.1.reader ≡ none

tokens_finished :
    (fuel : ℕ) (pool : StringPool)
    → tokens fuel (record { reader = none; pool = pool })
      ≡ ([], record { reader = none; pool = pool })
unfolding tokens try_get_next_token
tokens_finished zero pool = refl
tokens_finished (suc fuel) pool = refl

tokens_end :
    (fuel : ℕ) (r : Reader) (pool : StringPool)
    → try_read_char r ≡ none
    → tokens (suc fuel) (lexing r pool)
      ≡ (token_at r (end_repr r) ∷ [], record { reader = none; pool = pool })
unfolding tokens try_get_next_token next_token
tokens_end fuel r pool e = rw (e, next_token, tokens_finished fuel pool) refl

tokens_next :
    (fuel : ℕ) (r : Reader) (pool : StringPool) {c : ℕ} {r' : Reader}
    → try_read_char r ≡ some (c, r')
    → (let o = lex_from (start_of c) pool r c r' in
        let more = tokens fuel (lexing o.reader o.pool) in
        tokens (suc fuel) (lexing r pool) ≡ (token_at r o.repr ∷ more.0, more.1))
unfolding tokens try_get_next_token next_token
tokens_next fuel r pool e = rw (e, next_token) refl

Tiles-fewer :
    {r r' : Reader} {c : ℕ} {repr : Repr} → Tiles r c repr r' → length r'.rest < length r.rest
Tiles-fewer {r} {r'} {c} t =
    let a = ap length t.reads.split in let b = length-append t.text r'.rest in omega arith

-- From a reader whose line and column count what was read, more calls of TryGetNextToken than
-- there are characters left end the display and let go of its reader. Every token but the last
-- reads at least one character, in order and without a gap; its NextPosition is where the reader
-- then stands, if positions and widths fit their fields. The last token is the end of the file,
-- or the stream error, at the end of the text.
pub tokens-Completes :
    (fuel : ℕ) (r : Reader) (pool : StringPool)
    → IsPlaced r
    → length r.rest < fuel
    → Completes r (tokens fuel (lexing r pool))
tokens-Completes zero r pool p h = absurd (omega arith)
tokens-Completes (suc fuel) r pool p h = elim (try_read_char-cases r p) [
  | inl (e, f) ↦
      rw (tokens_end fuel r pool f)
        (record { tiling = Tiling.ends_with (end_repr-IsLast r e); finished = refl })
  | inr (c, r', one) ↦
      let o = lex_from (start_of c) pool r c r' in
      let t = lex_from-Tiles (start_of c) pool r c r' p one (start_of-Fit c) in
      let more =
        tokens-Completes fuel o.reader o.pool t.reads.placed
          (let l = Tiles-fewer t in omega arith) in
      rw (tokens_next fuel r pool one.run)
        (record { tiling = Tiling.goes_on t more.tiling; finished = more.finished })
]
