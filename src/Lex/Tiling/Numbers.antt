-- ===== src/Lex/Tiling/Numbers.antt =====
-- Numbers, and errors in numbers, end where their tokens say.
use dr_lojekyll.Prelude.{
  ℕ, ◌≡◌, refl, subst, Bool, true, false, ◌||◌, Option, none, some, List, [], ◌∷◌, ◌++◌, length,
  arith, ◌==◌, Bool-cases, Option-cases, inl, inr, ==_iff,
}
use dr_lojekyll.Display.Reader.{Reader, accumulate_if}
use dr_lojekyll.Display.Reads.{
  num_breaks, IsPlaced, Reads, ReadsOne, Reads-trans, try_read_char-cases,
  accumulate_if-Accumulates,
}
use dr_lojekyll.Lex.Lexeme.{Lexeme, NumberSpellingKind}
use dr_lojekyll.Lex.Token.{Disp, Repr, Shape, shape, lexeme_of, spelling_width, next_disp}
use dr_lojekyll.Lex.StringPool.{StringPool}
use dr_lojekyll.Lex.Words.{in_token, within, is_digit, is_hex, in_number}
use dr_lojekyll.Lex.Branches.{next_of}
use dr_lojekyll.Lex.Numbers.{
  number, all_of, first_refused, literal_or, two_digits, zero_repr, mixed_repr, decimal,
  fraction_attached, fraction_end, fraction, after_point, lex_decimal, lex_digits, attached,
  number_end, lex_number,
}
use dr_lojekyll.Lex.Tiling.{
  Tiles, flat-Tiles, measured-Tiles, counted-Tiles, Reads-cons, All-breaks, breaks-cons,
  breaks-append,
}
use dr_lojekyll.Lex.Tiling.Branches.{error_at-Tiles}

-- A number from `r` to `r'` with the text `c ∷ cs`.
module _ (r : Reader) (c : ℕ) (p : IsPlaced r) where
  number-Tiles :
      (r' : Reader) (cs : List ℕ) (kind : NumberSpellingKind) (point : Bool) (width : ℕ)
      → Reads r (c ∷ cs) r'
      → num_breaks (c ∷ cs) ≡ 0
      → Tiles r c (number (length (c ∷ cs)) kind point width) r'
  unfolding number shape lexeme_of spelling_width
  number-Tiles r' cs kind point width d z = flat-Tiles r r' _ c cs p d z refl refl

  literal_or-Tiles :
      (r' : Reader) (cs : List ℕ) (kind : NumberSpellingKind) (width : ℕ) (lexeme : Lexeme)
      (o : Option (ℕ × ℕ))
      → shape lexeme ≡ Shape.measured
      → Reads r (c ∷ cs) r'
      → num_breaks (c ∷ cs) ≡ 0
      → Tiles r c (literal_or r (c ∷ cs) kind width lexeme o r') r'
  unfolding literal_or
  literal_or-Tiles r' cs kind width lexeme none e d z = number-Tiles r' cs kind false width d z
  literal_or-Tiles r' cs kind width lexeme (some (i, b)) e d z =
      error_at-Tiles r r' lexeme b i c cs p d e

  two_digits-Tiles :
      (r' : Reader) (d : ℕ)
      → Reads r (c ∷ d ∷ []) r'
      → num_breaks (c ∷ d ∷ []) ≡ 0
      → Tiles r c (two_digits r d) r'
  unfolding two_digits shape lexeme_of next_disp
  two_digits-Tiles r' d h z = elim (Bool-cases (within b'1' b'7' d)) [
    | inl t ↦ rw (t, two_digits) (number-Tiles r' (d ∷ []) NumberSpellingKind.octal false 1 h z)
    | inr f ↦ rw (f, two_digits) (counted-Tiles r r' _ c (d ∷ []) p h z refl refl)
  ]

  zero_repr-Tiles :
      (r' : Reader) (cs : List ℕ)
      → Reads r (c ∷ cs) r'
      → num_breaks (c ∷ cs) ≡ 0
      → Tiles r c (zero_repr r c cs r') r'
  unfolding zero_repr shape
  zero_repr-Tiles r' [] d z = number-Tiles r' [] NumberSpellingKind.decimal false 0 d z
  zero_repr-Tiles r' (a ∷ []) d z = two_digits-Tiles r' a d z
  zero_repr-Tiles r' (a ∷ b ∷ cs) d z = elim (Bool-cases ((a == b'x') || (a == b'X'))) [
    | inl t ↦ rw (t, zero_repr) (literal_or-Tiles r' (a ∷ b ∷ cs) _ _ _ _ refl d z)
    | inr f ↦ elim (Bool-cases ((a == b'b') || (a == b'B'))) [
      | inl t ↦ rw (f, t, zero_repr) (literal_or-Tiles r' (a ∷ b ∷ cs) _ _ _ _ refl d z)
      | inr g ↦ rw (f, g, zero_repr) (literal_or-Tiles r' (a ∷ b ∷ cs) _ _ _ _ refl d z)
    ]
  ]

  mixed_repr-Tiles :
      (r' : Reader) (cs : List ℕ) → Reads r (c ∷ cs) r' → Tiles r c (mixed_repr r (c ∷ cs) r') r'
  unfolding mixed_repr shape
  mixed_repr-Tiles r' cs d = elim (Option-cases (first_refused is_digit 0 (c ∷ cs))) [
    | inl e ↦ rw (e, mixed_repr) (error_at-Tiles r r' Lexeme.invalid_number 0 _ c cs p d refl)
    | inr (o, e) ↦
        rw (e, mixed_repr) (error_at-Tiles r r' Lexeme.invalid_number o.1 o.0 c cs p d refl)
  ]

  abbrev PairTiles : Repr × Reader → Type 0
  PairTiles o = Tiles r c o.0 o.1

  error-Tiles :
      (r' : Reader) (cs : List ℕ) (b : ℕ) (place : Disp)
      → Reads r (c ∷ cs) r'
      → Tiles r c (Repr.error_token Lexeme.invalid_number b place (next_of r r')) r'
  unfolding next_of shape lexeme_of next_disp
  error-Tiles r' cs b place d = measured-Tiles r r' _ c cs p d refl refl

  decimal-Tiles :
      (r' : Reader) (cs : List ℕ) (point : Bool)
      → Reads r (c ∷ cs) r'
      → num_breaks (c ∷ cs) ≡ 0
      → Tiles r c (decimal (c ∷ cs) point) r'
  unfolding decimal
  decimal-Tiles r' cs point d z = number-Tiles r' cs NumberSpellingKind.decimal point 0 d z

  -- More characters behind `r'`.
  more-Reads :
      (accept : ℕ → Bool) (r' : Reader) (cs : List ℕ)
      → Reads r (c ∷ cs) r'
      → Reads r (c ∷ (cs ++ (accumulate_if accept r').0)) (accumulate_if accept r').1
  more-Reads accept r' cs d =
      Reads-trans r r' _ (c ∷ cs) _ d (accumulate_if-Accumulates accept r' d.placed).reads

  more-breaks :
      (accept : ℕ → Bool) (r' : Reader) (cs : List ℕ)
      → IsPlaced r'
      → accept b'\n' ≡ false
      → num_breaks (c ∷ cs) ≡ 0
      → num_breaks (c ∷ (cs ++ (accumulate_if accept r').0)) ≡ 0
  more-breaks accept r' cs q h z =
      let a = breaks-append (c ∷ cs) (accumulate_if accept r').0 in
      let b = All-breaks accept _ h (accumulate_if-Accumulates accept r' q).all in omega arith

  fraction_attached-Tiles :
      (r' : Reader) (cs : List ℕ) (b : ℕ)
      → Reads r (c ∷ cs) r'
      → PairTiles (fraction_attached r b (c ∷ cs) r')
  unfolding fraction_attached
  fraction_attached-Tiles r' cs b d = error-Tiles _ _ b _ (more-Reads in_token r' cs d)

  fraction_end-Tiles :
      (r' : Reader) (cs : List ℕ)
      → Reads r (c ∷ cs) r'
      → num_breaks (c ∷ cs) ≡ 0
      → PairTiles (fraction_end r (c ∷ cs) r')
  unfolding fraction_end
  fraction_end-Tiles r' cs d z = elim (try_read_char-cases r' d.placed) [
    | inl (e, f) ↦ rw (f, fraction_end) (decimal-Tiles r' cs true d z)
    | inr (b, r'', one) ↦ elim (Bool-cases (in_token b)) [
      | inl t ↦ rw (one.run, fraction_end, t, one.unread) (fraction_attached-Tiles r' cs b d)
      | inr f ↦ rw (one.run, fraction_end, f, one.unread) (decimal-Tiles r' cs true d z)
    ]
  ]

  fraction-Tiles :
      (r' : Reader) (cs : List ℕ)
      → Reads r (c ∷ cs) r'
      → num_breaks (c ∷ cs) ≡ 0
      → PairTiles (fraction r (c ∷ cs) r')
  unfolding fraction is_digit within
  fraction-Tiles r' cs d z =
      fraction_end-Tiles _ _ (more-Reads is_digit r' cs d)
        (more-breaks is_digit r' cs d.placed refl z)

  digit_breaks : (b : ℕ) → is_digit b ≡ true → num_breaks (b ∷ []) ≡ 0
  unfolding is_digit within
  digit_breaks b h = All-breaks is_digit (b ∷ []) refl (h, tt)

  after_point-Tiles :
      (r' r'' : Reader) (cs : List ℕ)
      → Reads r (c ∷ cs) r'
      → num_breaks (c ∷ cs) ≡ 0
      → ReadsOne r' b'.' r''
      → PairTiles (after_point r (c ∷ cs) r'')
  unfolding after_point
  after_point-Tiles r' r'' cs d z one = elim (try_read_char-cases r'' one.reads.placed) [
    | inl (e, f) ↦ rw (f, after_point, one.unread) (decimal-Tiles r' cs false d z)
    | inr (b, r3, two) ↦ elim (Bool-cases (is_digit b)) [
      | inl t ↦
          rw (two.run, after_point, t)
            (fraction-Tiles r3 (cs ++ b'.' ∷ b ∷ [])
              (Reads-trans r r' r3 (c ∷ cs) (b'.' ∷ b ∷ []) d
                (Reads-cons r' r'' r3 b'.' (b ∷ []) one two.reads))
              (let a = breaks-append (c ∷ cs) (b'.' ∷ b ∷ []) in
                let e = breaks-cons b'.' (b ∷ []) refl (digit_breaks b t) in omega arith))
      | inr f ↦ rw (two.run, after_point, f, two.unread, one.unread) (decimal-Tiles r' cs false d z)
    ]
  ]

  lex_decimal-Tiles :
      (r' : Reader) (cs : List ℕ)
      → Reads r (c ∷ cs) r'
      → num_breaks (c ∷ cs) ≡ 0
      → PairTiles (lex_decimal r (c ∷ cs) r')
  unfolding lex_decimal
  lex_decimal-Tiles r' cs d z = elim (try_read_char-cases r' d.placed) [
    | inl (e, f) ↦ rw (f, lex_decimal) (decimal-Tiles r' cs false d z)
    | inr (b, r'', one) ↦ elim (Bool-cases (b == b'.')) [
      | inl t ↦
          rw (one.run, lex_decimal, t)
            (after_point-Tiles r' r'' cs d z
              (subst (λ x. ReadsOne r' x r'') ((==_iff b b'.').0 t) one))
      | inr f ↦ rw (one.run, lex_decimal, f, one.unread) (decimal-Tiles r' cs false d z)
    ]
  ]

  lex_digits-Tiles :
      (r' : Reader) (cs : List ℕ)
      → Reads r (c ∷ cs) r'
      → num_breaks (c ∷ cs) ≡ 0
      → PairTiles (lex_digits r c cs r')
  unfolding lex_digits
  lex_digits-Tiles r' cs d z = elim (Bool-cases (c == b'0')) [
    | inl t ↦ rw (t, lex_digits) (zero_repr-Tiles r' cs d z)
    | inr f ↦ elim (Bool-cases (all_of is_digit cs)) [
      | inl t ↦ rw (f, t, lex_digits) (lex_decimal-Tiles r' cs d z)
      | inr g ↦ rw (f, g, lex_digits) (mixed_repr-Tiles r' cs d)
    ]
  ]

  number_end-Tiles :
      (r' : Reader) (cs : List ℕ)
      → Reads r (c ∷ cs) r'
      → num_breaks (c ∷ cs) ≡ 0
      → PairTiles (number_end r c cs r')
  unfolding number_end attached
  number_end-Tiles r' cs d z = elim (try_read_char-cases r' d.placed) [
    | inl (e, f) ↦ rw (f, number_end) (lex_digits-Tiles r' cs d z)
    | inr (b, r'', one) ↦ elim (Bool-cases (in_token b)) [
      | inl t ↦
          rw (one.run, number_end, t, one.unread)
            (error-Tiles _ _ b _ (more-Reads in_token r' cs d))
      | inr f ↦ rw (one.run, number_end, f, one.unread) (lex_digits-Tiles r' cs d z)
    ]
  ]

  pub lex_number-Tiles :
      (r' : Reader) (pool : StringPool)
      → (c == b'\n') ≡ false
      → ReadsOne r c r'
      → Tiles r c (lex_number pool r c r').repr (lex_number pool r c r').reader
  unfolding lex_number in_number is_hex is_digit within num_breaks
  lex_number-Tiles r' pool f one =
      number_end-Tiles _ _ (more-Reads in_number r' [] one.reads)
        (more-breaks in_number r' [] one.reads.placed refl (rw f refl))
