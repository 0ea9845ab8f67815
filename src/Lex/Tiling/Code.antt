-- ===== src/Lex/Tiling/Code.antt =====
-- Code literals end where their tokens say, and only the display's end leaves one open.
use dr_lojekyll.Prelude.{
  ℕ, zero, suc, ◌≤◌, ◌<◌, ◌≡◌, refl, ◌⊎◌, List, [], ◌∷◌, ◌++◌, length, arith, ◌==◌, Bool, true,
  false, if◌then◌else◌, Bool-cases, inl, inr,
}
use dr_lojekyll.Display.Reader.{Reader}
use dr_lojekyll.Display.Reads.{
  IsPlaced, Reads, ReadsOne, Reads-trans, Reads-nil, try_read_char-cases, ReadsOne-length,
}
use dr_lojekyll.Lex.Lexeme.{Lexeme}
use dr_lojekyll.Lex.Token.{Shape, shape, lexeme_of, next_disp}
use dr_lojekyll.Lex.StringPool.{StringPool}
use dr_lojekyll.Lex.Branches.{Lexed, next_of}
use dr_lojekyll.Lex.Literals.{
  error_repr, CodeRound, third_quote, second_quote, code_round, CodeEnd, scan_code, code_literal,
  invalid_code, lex_code_end, lex_code,
}
use dr_lojekyll.Lex.Tiling.{Tiles, measured-Tiles, Reads-cons}

-- From `r` some text is read up to `r'`.
record Reaches (r r' : Reader) : Type 0 where
  text : List ℕ
  reads : Reads r text r'
  fewer : length r'.rest ≤ length r.rest

Reaches-refl : (r : Reader) → IsPlaced r → Reaches r r
Reaches-refl r p = record { text = []; reads = Reads-nil r p; fewer = omega arith }

Reaches-trans : (r r' r'' : Reader) → Reaches r r' → Reaches r' r'' → Reaches r r''
Reaches-trans r r' r'' h k = record {
  text = h.text ++ k.text;
  reads = Reads-trans r r' r'' h.text k.text h.reads k.reads;
  fewer = let a = h.fewer in let b = k.fewer in omega arith;
}

Reaches-one : (r r' : Reader) (c : ℕ) → ReadsOne r c r' → Reaches r r'
Reaches-one r r' c one = record {
  text = c ∷ [];
  reads = one.reads;
  fewer = let e = ReadsOne-length c r r' one in omega arith;
}

-- Where a round of the loop leads that reads a character.
data Leads (r : Reader) : CodeRound → Type 0 where
  cut_at : {r' : Reader} → Reaches r r' → r'.rest ≡ [] → Leads r (CodeRound.cut r')
  pushed_at :
      {c : ℕ} {r' : Reader}
      → Reaches r r'
      → length r'.rest < length r.rest
      → Leads r (CodeRound.pushed c r')
  closed_at : {r' : Reader} → Reaches r r' → Leads r (CodeRound.closed r')

Leads-trans : (r r' : Reader) (x : CodeRound) → Reaches r r' → Leads r' x → Leads r x
Leads-trans r r' _ h (Leads.cut_at k e) = Leads.cut_at (Reaches-trans r r' _ h k) e
Leads-trans r r' _ h (Leads.pushed_at k l) =
    Leads.pushed_at (Reaches-trans r r' _ h k) (let a = h.fewer in omega arith)
Leads-trans r r' _ h (Leads.closed_at k) = Leads.closed_at (Reaches-trans r r' _ h k)

pushed-Leads : (r r' : Reader) (c : ℕ) → ReadsOne r c r' → Leads r (CodeRound.pushed c r')
pushed-Leads r r' c one =
    Leads.pushed_at (Reaches-one r r' c one) (let e = ReadsOne-length c r r' one in omega arith)

third_quote-Leads : (r : Reader) → IsPlaced r → Leads r (third_quote r)
unfolding third_quote
third_quote-Leads r p = elim (try_read_char-cases r p) [
  | inl (e, f) ↦ rw (f, third_quote) (Leads.cut_at (Reaches-refl r p) e)
  | inr (c, r', one) ↦ elim (Bool-cases (c == b'`')) [
    | inl t ↦ rw (one.run, third_quote, t) (Leads.closed_at (Reaches-one r r' c one))
    | inr f ↦ rw (one.run, third_quote, f) (pushed-Leads r r' c one)
  ]
]

second_quote-Leads : (r : Reader) → IsPlaced r → Leads r (second_quote r)
unfolding second_quote
second_quote-Leads r p = elim (try_read_char-cases r p) [
  | inl (e, f) ↦ rw (f, second_quote) (Leads.cut_at (Reaches-refl r p) e)
  | inr (c, r', one) ↦ elim (Bool-cases (c == b'`')) [
    | inl t ↦
        rw (one.run, second_quote, t)
          (Leads-trans r r' (third_quote r') (Reaches-one r r' c one)
            (third_quote-Leads r' one.reads.placed))
    | inr f ↦ rw (one.run, second_quote, f) (pushed-Leads r r' c one)
  ]
]

code_round-cases :
    (r : Reader)
    → IsPlaced r
    → ((code_round r ≡ CodeRound.ended) × (r.rest ≡ [])) ⊎ Leads r (code_round r)
unfolding code_round
code_round-cases r p = elim (try_read_char-cases r p) [
  | inl (e, f) ↦ inl (rw (f, code_round) refl, e)
  | inr (c, r', one) ↦ elim (Bool-cases (c == b'`')) [
    | inl t ↦ inr (
        rw (one.run, code_round, t)
          (Leads-trans r r' (second_quote r') (Reaches-one r r' c one)
            (second_quote-Leads r' one.reads.placed)))
    | inr f ↦ inr (rw (one.run, code_round, f) (pushed-Leads r r' c one))
  ]
]

-- How the loop ends: only at the end of the display is the literal broken.
data Ends (r : Reader) : CodeEnd → Type 0 where
  broken_at : {c : ℕ} {r' : Reader} → Reaches r r' → r'.rest ≡ [] → Ends r (CodeEnd.broken c r')
  whole_at : {text : List ℕ} {r' : Reader} → Reaches r r' → Ends r (CodeEnd.whole text r')

Ends-trans : (r r' : Reader) (x : CodeEnd) → Reaches r r' → Ends r' x → Ends r x
Ends-trans r r' _ h (Ends.broken_at k e) = Ends.broken_at (Reaches-trans r r' _ h k) e
Ends-trans r r' _ h (Ends.whole_at k) = Ends.whole_at (Reaches-trans r r' _ h k)

-- What is left to do after a round.
code_rest : ℕ → ℕ → List ℕ → Reader → CodeRound → CodeEnd
code_rest fuel last text r x = elim x [
  | CodeRound.ended ↦ CodeEnd.broken last r
  | CodeRound.cut r' ↦ CodeEnd.broken b'`' r'
  | CodeRound.pushed c r' ↦ scan_code fuel c (text ++ c ∷ []) r'
  | CodeRound.closed r' ↦ CodeEnd.whole text r'
]

code_rest-Ends :
    (fuel last : ℕ) (text : List ℕ) (r : Reader) (x : CodeRound)
    → length r.rest ≤ fuel
    → ((r' : Reader) (c : ℕ)
        → IsPlaced r'
        → length r'.rest < fuel
        → Ends r' (scan_code fuel c (text ++ c ∷ []) r'))
    → Leads r x
    → Ends r (code_rest fuel last text r x)
unfolding code_rest
code_rest-Ends fuel last text r _ h ih (Leads.cut_at k e) = Ends.broken_at k e
code_rest-Ends fuel last text r _ h ih (Leads.pushed_at {c} {r'} k l) =
    Ends-trans r r' _ k (ih r' c k.reads.placed (omega arith))
code_rest-Ends fuel last text r _ h ih (Leads.closed_at k) = Ends.whole_at k

scan_code-Ends :
    (fuel last : ℕ) (text : List ℕ) (r : Reader)
    → IsPlaced r
    → length r.rest < fuel
    → Ends r (scan_code fuel last text r)
unfolding scan_code code_rest
scan_code-Ends zero last text r p h = absurd (omega arith)
scan_code-Ends (suc fuel) last text r p h = elim (code_round-cases r p) [
  | inl (e, f) ↦ rw (e, scan_code) (Ends.broken_at (Reaches-refl r p) f)
  | inr l ↦
      code_rest-Ends fuel last text r (code_round r) (omega arith)
        (λ r' c q k. scan_code-Ends fuel c (text ++ c ∷ []) r' q k) l
]

module _ (r : Reader) (c : ℕ) (r1 : Reader) (p : IsPlaced r) (one : ReadsOne r c r1)
    (pool : StringPool) where
  abbrev CodeTiles : Lexed → Type 0
  CodeTiles o = Tiles r c o.repr o.reader

  invalid_code-Tiles : (d : ℕ) (r' : Reader) → Reaches r1 r' → CodeTiles (invalid_code pool r d r')
  unfolding invalid_code error_repr next_of shape lexeme_of next_disp
  invalid_code-Tiles d r' h =
      measured-Tiles r r' _ c h.text p (Reads-cons r r1 r' c h.text one h.reads) refl refl

  code_literal-Tiles :
      (lexeme : Lexeme) (prefix_len : ℕ) (text : List ℕ) (r' : Reader)
      → shape lexeme ≡ Shape.measured
      → Reaches r1 r'
      → CodeTiles (code_literal lexeme prefix_len pool r text r')
  unfolding code_literal next_of lexeme_of next_disp
  code_literal-Tiles lexeme prefix_len text r' e h =
      measured-Tiles r r' _ c h.text p (Reads-cons r r1 r' c h.text one h.reads) e refl

  if-CodeTiles :
      (b : Bool) (x y : Lexed) → CodeTiles x → CodeTiles y → CodeTiles (if b then x else y)
  if-CodeTiles true x y h k = h
  if-CodeTiles false x y h k = k

  lex_code_end-Tiles : (x : CodeEnd) → Ends r1 x → CodeTiles (lex_code_end pool r x)
  unfolding lex_code_end shape
  lex_code_end-Tiles _ (Ends.broken_at {c = d} {r'} k e) = invalid_code-Tiles d r' k
  lex_code_end-Tiles _ (Ends.whole_at {text} {r'} k) =
      if-CodeTiles _ _ _ (code_literal-Tiles Lexeme.literal_cxx_code 3 text r' refl k) (
        if-CodeTiles _ _ _ (code_literal-Tiles Lexeme.literal_python_code 6 text r' refl k)
          (code_literal-Tiles Lexeme.literal_code 0 text r' refl k))

  pub lex_code-Tiles : CodeTiles (lex_code pool r r1)
  unfolding lex_code
  lex_code-Tiles = elim (try_read_char-cases r1 one.reads.placed) [
    | inl (e, f) ↦ rw (f, lex_code) (invalid_code-Tiles b'`' r1 (Reaches-refl r1 one.reads.placed))
    | inr (d, r2, two) ↦
        let h = Reaches-one r1 r2 d two in
        elim (Bool-cases (d == b'`')) [
          | inr f ↦ rw (two.run, lex_code, f) (invalid_code-Tiles d r2 h)
          | inl t ↦ elim (try_read_char-cases r2 two.reads.placed) [
            | inl (e, f) ↦ rw (two.run, lex_code, t, f) (invalid_code-Tiles b'`' r2 h)
            | inr (b, r3, three) ↦
                let k = Reaches-trans r1 r2 r3 h (Reaches-one r2 r3 b three) in
                elim (Bool-cases (b == b'`')) [
                  | inr f ↦ rw (two.run, lex_code, t, three.run, f) (invalid_code-Tiles b r3 k)
                  | inl u ↦
                      rw (two.run, lex_code, t, three.run, u)
                        (lex_code_end-Tiles _ (
                          Ends-trans r1 r3 _ k (
                            scan_code-Ends (suc (length r3.rest)) b'`' [] r3 three.reads.placed
                              (omega arith))))
                ]
          ]
        ]
  ]
