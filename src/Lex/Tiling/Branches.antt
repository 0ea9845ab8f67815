-- ===== src/Lex/Tiling/Branches.antt =====
-- Whitespace, `!`, pragmas, words, comments and unknown text end where their tokens say.
use dr_lojekyll.Prelude.{
  ℕ, ◌≡◌, refl, sym, ap, subst, ◌∙◌, Bool, true, false, ◌&&◌, Option, none, some, List, [], ◌∷◌,
  length, ◌==◌, Bool-cases, Option-cases, inl, inr, ==_iff,
}
use dr_lojekyll.Display.Reader.{Reader, accumulate_if}
use dr_lojekyll.Display.Reads.{
  num_breaks, IsPlaced, Reads, ReadsOne, try_read_char-cases, accumulate_if-Accumulates,
}
use dr_lojekyll.Lex.Lexeme.{Lexeme, TypeKind}
use dr_lojekyll.Lex.Token.{to_16, Repr, Shape, shape, lexeme_of, spelling_width, next_disp}
use dr_lojekyll.Lex.StringPool.{StringPool, true_id, false_id, underscore_id}
use dr_lojekyll.Lex.Words.{
  codes, same, lookup, contains, is_space, is_stop, stop_chars, in_token, in_word, pragmas, words,
  types, within, is_digit, is_lower, is_upper,
}
use dr_lojekyll.Lex.Branches.{
  next_of, error_at, basic, lex_whitespace, lex_exclaim, pragma_char, pragma_repr, lex_pragma,
  identifier, lex_identifier, Tentative, lex_name, word_repr, lex_word, not_break, lex_comment,
  unknown_end, lex_unknown,
}
use dr_lojekyll.Lex.Tiling.{Tiles, flat-Tiles, measured-Tiles, Reads-cons, All-breaks, breaks-cons}

pub error_at-Tiles :
    (r r' : Reader) (lexeme : Lexeme) (d i c : ℕ) (cs : List ℕ)
    → IsPlaced r
    → Reads r (c ∷ cs) r'
    → shape lexeme ≡ Shape.measured
    → Tiles r c (error_at r lexeme d i r') r'
unfolding error_at next_of lexeme_of next_disp
error_at-Tiles r r' lexeme d i c cs p h e =
    measured-Tiles r r' (error_at r lexeme d i r') c cs p h e refl

pub basic-Tiles :
    (r r' : Reader) (lexeme : Lexeme) (c : ℕ) (cs : List ℕ)
    → IsPlaced r
    → Reads r (c ∷ cs) r'
    → num_breaks (c ∷ cs) ≡ 0
    → shape lexeme ≡ Shape.flat
    → Tiles r c (basic lexeme (length (c ∷ cs))) r'
unfolding basic lexeme_of spelling_width
basic-Tiles r r' lexeme c cs p h z e =
    flat-Tiles r r' (basic lexeme (length (c ∷ cs))) c cs p h z e refl

pub and_both : (a b : Bool) → (a && b) ≡ true → (a ≡ true) × (b ≡ true)
and_both true b h = (refl, h)
and_both false b h = absurd (cc h)

-- The tables hold lexemes of texts without line breaks.
unfoldable pub is_flat : Shape → Bool
is_flat Shape.flat = true
is_flat _ = false

pub is_flat_lem : (s : Shape) → is_flat s ≡ true → s ≡ Shape.flat
unfolding is_flat
is_flat_lem Shape.nowhere e = absurd (cc e)
is_flat_lem Shape.here e = absurd (cc e)
is_flat_lem Shape.measured e = absurd (cc e)
is_flat_lem Shape.flat e = refl

all_flat {ℓ} : {A : Type ℓ} → (A → Lexeme) → List (List ℕ × A) → Bool
all_flat f [] = true
all_flat f (w ∷ ws) = is_flat (shape (f w.1)) && all_flat f ws

lookup-flat {ℓ} :
    {A : Type ℓ} (f : A → Lexeme) (ws : List (List ℕ × A)) (text : List ℕ) {a : A}
    → all_flat f ws ≡ true
    → lookup text ws ≡ some a
    → shape (f a) ≡ Shape.flat
unfolding all_flat lookup
lookup-flat f [] text h e = absurd (cc e)
lookup-flat f (w ∷ ws) text {a} h e = elim (Bool-cases (same text w.0)) [
  | inl t ↦
      let q : w.1 ≡ a = cc (rw t at e) in
      rw (sym q)
        (is_flat_lem (shape (f w.1)) (and_both (is_flat (shape (f w.1))) (all_flat f ws) h).0)
  | inr g ↦
      lookup-flat f ws text (and_both (is_flat (shape (f w.1))) (all_flat f ws) h).1 (rw g at e)
]

pragmas_flat : (text : List ℕ) {l : Lexeme} → lookup text pragmas ≡ some l → shape l ≡ Shape.flat
unfolding pragmas all_flat is_flat shape
pragmas_flat text e = lookup-flat (λ l. l) pragmas text refl e

words_flat : (text : List ℕ) {l : Lexeme} → lookup text words ≡ some l → shape l ≡ Shape.flat
unfolding words all_flat is_flat shape
words_flat text e = lookup-flat (λ l. l) words text refl e

types_flat :
    (text : List ℕ) {l : Lexeme × TypeKind} → lookup text types ≡ some l → shape l.0 ≡ Shape.flat
unfolding types all_flat is_flat shape
types_flat text e = lookup-flat (λ l. l.0) types text refl e

same_lem : (s t : List ℕ) → same s t ≡ true → s ≡ t
unfolding same
same_lem [] [] e = refl
same_lem [] (y ∷ t) e = absurd (cc e)
same_lem (x ∷ s) [] e = absurd (cc e)
same_lem (x ∷ s) (y ∷ t) e =
    rw
      (
        (==_iff x y).0 (and_both (x == y) (same s t) e).0,
        same_lem s t (and_both (x == y) (same s t) e).1,
      )
      refl

-- What holds of a result, if there is one.
abbrev pub AllSome {ℓ} : {A : Type ℓ} → (A → Type 0) → Option A → Type 0
AllSome P none = Unit {0}
AllSome P (some a) = P a

-- A branch that starts with the character `c`.
module _ (r : Reader) (c : ℕ) (r' : Reader) (p : IsPlaced r) (one : ReadsOne r c r')
    (pool : StringPool) where
  more-Reads :
      (accept : ℕ → Bool) → Reads r (c ∷ (accumulate_if accept r').0) (accumulate_if accept r').1
  more-Reads accept =
      Reads-cons r r' _ c _ one (accumulate_if-Accumulates accept r' one.reads.placed).reads

  more-breaks :
      (accept : ℕ → Bool)
      → (c == b'\n') ≡ false
      → accept b'\n' ≡ false
      → num_breaks (c ∷ (accumulate_if accept r').0) ≡ 0
  more-breaks accept f h =
      breaks-cons c _ f
        (All-breaks accept _ h (accumulate_if-Accumulates accept r' one.reads.placed).all)

  pub lex_whitespace-Tiles :
      Tiles r c (lex_whitespace pool r c r').repr (lex_whitespace pool r c r').reader
  unfolding lex_whitespace next_of shape lexeme_of next_disp
  lex_whitespace-Tiles = measured-Tiles r _ _ c _ p (more-Reads is_space) refl refl

  pub lex_comment-Tiles :
      (c == b'\n') ≡ false → Tiles r c (lex_comment pool c r').repr (lex_comment pool c r').reader
  unfolding lex_comment shape not_break
  lex_comment-Tiles f =
      basic-Tiles r _ Lexeme.comment c _ p (more-Reads not_break) (more-breaks not_break f refl)
        refl

  unknown_end-Reads : (cs : List ℕ) × Reads r (c ∷ cs) (unknown_end c r')
  unfolding unknown_end
  unknown_end-Reads = elim (Bool-cases (is_stop c)) [
    | inl t ↦ ([], rw (t, unknown_end) one.reads)
    | inr f ↦ ((accumulate_if in_token r').0, rw (f, unknown_end) (more-Reads in_token))
  ]

  pub lex_unknown-Tiles : Tiles r c (lex_unknown pool r c r').repr (lex_unknown pool r c r').reader
  unfolding lex_unknown shape
  lex_unknown-Tiles =
      let u = unknown_end-Reads in
      error_at-Tiles r (unknown_end c r') Lexeme.invalid_unknown c 0 c u.0 p u.1 refl

  exclaim-Tiles : c ≡ b'!' → Tiles r c (basic Lexeme.punc_exclaim 1) r'
  unfolding shape num_breaks
  exclaim-Tiles e = basic-Tiles r r' Lexeme.punc_exclaim c [] p one.reads (rw e refl) refl

  pub lex_exclaim-Tiles :
      c ≡ b'!' → Tiles r c (lex_exclaim pool r').repr (lex_exclaim pool r').reader
  unfolding lex_exclaim shape num_breaks
  lex_exclaim-Tiles e = elim (try_read_char-cases r' one.reads.placed) [
    | inl (h, k) ↦ rw (k, lex_exclaim) (exclaim-Tiles e)
    | inr (d, r'', two) ↦ elim (Bool-cases (d == b'=')) [
      | inl t ↦
          rw (two.run, lex_exclaim, t)
            (basic-Tiles r r'' Lexeme.punc_not_equal c (d ∷ []) p
              (Reads-cons r r' r'' c (d ∷ []) one two.reads) (rw (e, (==_iff d b'=').0 t) refl)
              refl)
      | inr f ↦ rw (two.run, lex_exclaim, f, two.unread) (exclaim-Tiles e)
    ]
  ]

  -- Text of characters that are no line breaks.
  module _ (cs : List ℕ) (r'' : Reader) (d : Reads r (c ∷ cs) r'')
      (z : num_breaks (c ∷ cs) ≡ 0) where
    pragma-Tiles : Tiles r c (pragma_repr r (c ∷ cs) r'') r''
    unfolding pragma_repr shape
    pragma-Tiles = elim (Option-cases (lookup (c ∷ cs) pragmas)) [
      | inl e ↦
          rw (e, pragma_repr)
            (error_at-Tiles r r'' Lexeme.invalid_pragma (pragma_char (c ∷ cs)) 1 c cs p d refl)
      | inr (lexeme, e) ↦
          rw (e, pragma_repr) (basic-Tiles r r'' lexeme c cs p d z (pragmas_flat (c ∷ cs) e))
    ]

    identifier-Tiles :
        (lexeme : Lexeme) (id : ℕ) (kind : TypeKind)
        → shape lexeme ≡ Shape.flat
        → Tiles r c (identifier lexeme (length (c ∷ cs)) id kind) r''
    unfolding identifier lexeme_of spelling_width
    identifier-Tiles lexeme id kind e = flat-Tiles r r'' _ c cs p d z e refl

    literal-Tiles :
        (lexeme : Lexeme) (id width : ℕ) (word : List ℕ)
        → shape lexeme ≡ Shape.flat
        → c ∷ cs ≡ word
        → length word ≡ width
        → Tiles r c (identifier lexeme width id TypeKind.boolean) r''
    literal-Tiles lexeme id width word e q k =
        subst (λ n. Tiles r c (identifier lexeme n id TypeKind.boolean) r'') (ap length q ∙ k)
          (identifier-Tiles lexeme id TypeKind.boolean e)

    type-Tiles :
        (w : Lexeme × TypeKind)
        → lookup (c ∷ cs) types ≡ some w
        → Tiles r c (Repr.type_token w.0 (to_16 (length (c ∷ cs))) w.1) r''
    unfolding lexeme_of spelling_width
    type-Tiles w e = flat-Tiles r r'' _ c cs p d z (types_flat (c ∷ cs) e) refl

    word-Tiles : AllSome (λ repr. Tiles r c repr r'') (word_repr (c ∷ cs))
    unfolding word_repr shape codes
    word-Tiles = elim (Bool-cases (same (c ∷ cs) (codes "true"))) [
      | inl t ↦
          rw (t, word_repr)
            (literal-Tiles Lexeme.literal_true true_id 4 (codes "true") refl
              (same_lem (c ∷ cs) (codes "true") t) refl)
      | inr f ↦ elim (Bool-cases (same (c ∷ cs) (codes "false"))) [
        | inl t ↦
            rw (f, t, word_repr)
              (literal-Tiles Lexeme.literal_false false_id 5 (codes "false") refl
                (same_lem (c ∷ cs) (codes "false") t) refl)
        | inr g ↦ elim (Option-cases (lookup (c ∷ cs) types)) [
          | inr (w, e) ↦ rw (f, g, e, word_repr) (type-Tiles w e)
          | inl e ↦ elim (Option-cases (lookup (c ∷ cs) words)) [
            | inl h ↦ rw (f, g, e, h, word_repr) tt
            | inr (l, h) ↦
                rw (f, g, e, h, word_repr) (basic-Tiles r r'' l c cs p d z (words_flat (c ∷ cs) h))
          ]
        ]
      ]
    ]

  name-Tiles :
      (t : Tentative) (cs : List ℕ) (r'' : Reader)
      → Reads r (c ∷ cs) r''
      → num_breaks (c ∷ cs) ≡ 0
      → Tiles r c (lex_name t pool r c cs r'').repr (lex_name t pool r c cs r'').reader
  unfolding lex_name lex_identifier shape
  name-Tiles Tentative.directive cs r'' d z =
      error_at-Tiles r r'' Lexeme.invalid_directive c 1 c cs p d refl
  name-Tiles Tentative.atom cs r'' d z =
      identifier-Tiles cs r'' d z Lexeme.identifier_atom _ TypeKind.invalid refl
  name-Tiles Tentative.variable cs r'' d z =
      identifier-Tiles cs r'' d z Lexeme.identifier_variable _ TypeKind.invalid refl
  name-Tiles Tentative.unnamed_variable [] r'' d z =
      identifier-Tiles [] r'' d z Lexeme.identifier_unnamed_variable underscore_id TypeKind.invalid
        refl
  name-Tiles Tentative.unnamed_variable (e ∷ cs) r'' d z =
      identifier-Tiles (e ∷ cs) r'' d z Lexeme.identifier_unnamed_variable _ TypeKind.invalid refl

  pub lex_word-Tiles :
      (t : Tentative)
      → (c == b'\n') ≡ false
      → Tiles r c (lex_word t pool r c r').repr (lex_word t pool r c r').reader
  unfolding lex_word in_word within is_digit is_lower is_upper
  lex_word-Tiles t f =
      let more = accumulate_if in_word r' in
      let d = more-Reads in_word in
      let z = more-breaks in_word f refl in
      elim (Option-cases (word_repr (c ∷ more.0))) [
        | inl e ↦ rw (e, lex_word) (name-Tiles t more.0 more.1 d z)
        | inr (repr, e) ↦
            rw (e, lex_word)
              (subst (AllSome (λ x. Tiles r c x more.1)) e (word-Tiles more.0 more.1 d z))
      ]

  pub lex_pragma-Tiles :
      (c == b'\n') ≡ false → Tiles r c (lex_pragma pool r c r').repr (lex_pragma pool r c r').reader
  unfolding lex_pragma in_token is_stop contains stop_chars codes
  lex_pragma-Tiles f =
      pragma-Tiles (accumulate_if in_token r').0 (accumulate_if in_token r').1 (more-Reads in_token)
        (more-breaks in_token f refl)
