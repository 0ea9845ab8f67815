-- ===== src/Lex/Tiling.antt =====
-- Where a token ends: `NextPosition` of lib/Lex/Token.cpp against the lexer's reader.
pub mod Branches
pub mod Literals
pub mod Code
pub mod Numbers
pub mod Lexer
pub mod Joined
use native.Mathlib.Nat.{mod-eq_of_lt}
use dr_lojekyll.Prelude.{
  ℕ, suc, ◌+◌, ◌-◌, ◌%◌, ◌^◌, ◌<◌, ◌≤◌, ◌≡◌, refl, sym, ap, ◌∙◌, Bool, true, false, List, [], ◌∷◌,
  ◌++◌, length, length-append, arith, if◌then◌else◌, ◌==◌, Bool-cases, inl, inr, ==_iff,
}
use dr_lojekyll.Display.Position.{
  Position, emplace, id_of, index_of, line_of, column_of, Fits, ReadsBack, emplace-ReadsBack,
}
use dr_lojekyll.Display.Reader.{Reader, current_position, tail_width}
use dr_lojekyll.Display.Reads.{num_breaks, onto, IsPlaced, Reads, ReadsOne, Reads-trans, All}
use dr_lojekyll.Lex.Token.{
  Disp, disp, minus_64, between, to_16, after_flat, after_disp, next_position, Repr, Shape, shape,
  lexeme_of, spelling_width, next_disp,
}

pub length-onto : (cs read : List ℕ) → length (onto cs read) ≡ length cs + length read
length-onto [] read = omega arith
length-onto (c ∷ cs) read = let e = length-onto cs (c ∷ read) in omega arith

breaks-onto : (cs read : List ℕ) → num_breaks (onto cs read) ≡ num_breaks cs + num_breaks read
unfolding num_breaks
breaks-onto [] read = omega arith
breaks-onto (c ∷ cs) read = let e = breaks-onto cs (c ∷ read) in ground (arith, e)

pub breaks-length : (cs : List ℕ) → num_breaks cs ≤ length cs
unfolding num_breaks
breaks-length [] = omega arith
breaks-length (c ∷ cs) = let e = breaks-length cs in ground (arith, e)

width-onto :
    (cs read : List ℕ) → num_breaks cs ≡ 0 → tail_width (onto cs read) ≡ length cs + tail_width read
unfolding num_breaks tail_width
width-onto [] read h = omega arith
width-onto (c ∷ cs) read h =
    let f : (c == b'\n') ≡ false = ground (arith, h) in
    let k : num_breaks cs ≡ 0 = omega (arith, rw f at h) in
    let e = width-onto cs (c ∷ read) k in
    let g : tail_width (c ∷ read) ≡ tail_width read + 1 = rw (f, tail_width) refl in omega arith

-- A token from `r` to `r'` is shorter than 2 ^ 16 characters, and ends in a column below 2 ^ 16; positions fit.
pub record Small (r r' : Reader) : Type 0 where
  pub id_pos : 0 < r.display_id
  pub id_small : r.display_id < 2 ^ 16
  pub index_small : length r'.read < 2 ^ 32
  pub line_small : r'.line < 2 ^ 32
  pub column_small : r.column < 2 ^ 32
  pub end_column_small : r'.column < 2 ^ 16
  pub width_small : length r'.read < length r.read + 2 ^ 16

record Moves (r : Reader) (cs : List ℕ) (r' : Reader) : Type 0 where
  index : length r'.read ≡ length cs + length r.read
  line : r'.line ≡ num_breaks cs + r.line
  lines : num_breaks cs ≤ length cs

Reads-Moves : (r r' : Reader) (cs : List ℕ) → IsPlaced r → Reads r cs r' → Moves r cs r'
Reads-Moves r r' cs p d = record {
  index = rw d.read (length-onto cs r.read);
  line =
      let a = d.placed.line in
      let b = p.line in
      let c : num_breaks r'.read ≡ num_breaks cs + num_breaks r.read =
        rw d.read (breaks-onto cs r.read) in
      omega arith;
  lines = breaks-length cs;
}

record Backs (r : Reader) : Type 0 where
  backs : ReadsBack r.display_id (length r.read) r.line r.column (current_position r)

current_position-Backs : (r : Reader) → Fits r.display_id (length r.read) r.line r.column → Backs r
unfolding current_position
current_position-Backs r f = record {
  backs = emplace-ReadsBack r.display_id (length r.read) r.line r.column f;
}

Small-start : (r r' : Reader) (cs : List ℕ) → IsPlaced r → Reads r cs r' → Small r r' → Backs r
Small-start r r' cs p d s =
    let m = Reads-Moves r r' cs p d in
    current_position-Backs r (record {
      id_pos = s.id_pos;
      id_small = s.id_small;
      index_small = let h = s.index_small in let e = m.index in omega arith;
      line_pos = let h = p.line in omega arith;
      line_small = let h = s.line_small in let e = m.line in omega arith;
      column_pos = let h = p.column in omega arith;
      column_small = s.column_small;
    })

Small-end : (r r' : Reader) (cs : List ℕ) → IsPlaced r → Reads r cs r' → Small r r' → Backs r'
Small-end r r' cs p d s = current_position-Backs r' (record {
  id_pos = rw d.display_id s.id_pos;
  id_small = rw d.display_id s.id_small;
  index_small = s.index_small;
  line_pos = let h = d.placed.line in omega arith;
  line_small = s.line_small;
  column_pos = let h = d.placed.column in omega arith;
  column_small = let h = s.end_column_small in omega arith;
})

emplace_congr :
    (i i' x x' l l' c c' : ℕ)
    → i ≡ i'
    → x ≡ x'
    → l ≡ l'
    → c ≡ c'
    → emplace i x l c ≡ emplace i' x' l' c'
emplace_congr i i' x x' l l' c c' e f g h = rw (e, f, g, h) refl

pub flat-next :
    (r r' : Reader) (cs : List ℕ)
    → IsPlaced r
    → Reads r cs r'
    → num_breaks cs ≡ 0
    → Small r r'
    → after_flat (current_position r) (to_16 (length cs)) ≡ current_position r'
unfolding after_flat current_position
flat-next r r' cs p d z s =
    let b = (Small-start r r' cs p d s).backs in
    let m = Reads-Moves r r' cs p d in
    let w : length cs % 2 ^ 16 ≡ length cs =
      mod-eq_of_lt (let h = s.width_small in let e = m.index in omega arith) in
    let e = m.index in
    let l = m.line in
    let k = d.placed.column in
    let k' = p.column in
    let q : tail_width r'.read ≡ length cs + tail_width r.read =
      rw d.read (width-onto cs r.read z) in
    let i = b.index in
    let j = b.line in
    let c = b.column in
    emplace_congr _ _ _ _ _ _ _ _ (b.id ∙ sym d.display_id) (rw w (omega arith)) (omega arith)
      (rw w (omega arith))

minus_lem : (a b : ℕ) → a ≤ b → b < a + 2 ^ 16 → b < 2 ^ 32 → a + to_16 (minus_64 b a) ≡ b
minus_lem a b h k l = omega arith

pub measured-next :
    (r r' : Reader) (cs : List ℕ)
    → IsPlaced r
    → Reads r cs r'
    → Small r r'
    → after_disp (current_position r) (between (current_position r) (current_position r'))
      ≡ current_position r'
unfolding after_disp between current_position
measured-next r r' cs p d s =
    let b = (Small-start r r' cs p d s).backs in
    let b' = (Small-end r r' cs p d s).backs in
    let m = Reads-Moves r r' cs p d in
    let e = m.index in
    let l = m.line in
    let n = m.lines in
    let w = s.width_small in
    let w' = s.index_small in
    let w'' = s.line_small in
    let q : r'.column % 2 ^ 16 ≡ r'.column = mod-eq_of_lt s.end_column_small in
    emplace_congr _ _ _ _ _ _ _ _ (b.id ∙ sym d.display_id)
      (rw (b.index, b'.index)
        (minus_lem (length r.read) (length r'.read) (omega arith) (omega arith) (omega arith)))
      (rw (b.line, b'.line) (minus_lem r.line r'.line (omega arith) (omega arith) (omega arith)))
      (rw b'.column q)

-- A token of the character `c` and those of `text`, whose next position is where the reader then stands.
pub record Tiles (r : Reader) (c : ℕ) (repr : Repr) (r' : Reader) : Type 0 where
  pub text : List ℕ
  pub reads : Reads r (c ∷ text) r'
  pub next :
      Small r r'
      → next_position (record { position = current_position r; repr = repr }) ≡ current_position r'

pub flat-Tiles :
    (r r' : Reader) (repr : Repr) (c : ℕ) (cs : List ℕ)
    → IsPlaced r
    → Reads r (c ∷ cs) r'
    → num_breaks (c ∷ cs) ≡ 0
    → shape (lexeme_of repr) ≡ Shape.flat
    → spelling_width repr ≡ to_16 (length (c ∷ cs))
    → Tiles r c repr r'
unfolding next_position
flat-Tiles r r' repr c cs p d z e w = record {
  text = cs;
  reads = d;
  next = λ s. rw (e, w, next_position) (flat-next r r' (c ∷ cs) p d z s);
}

pub measured-Tiles :
    (r r' : Reader) (repr : Repr) (c : ℕ) (cs : List ℕ)
    → IsPlaced r
    → Reads r (c ∷ cs) r'
    → shape (lexeme_of repr) ≡ Shape.measured
    → next_disp repr ≡ between (current_position r) (current_position r')
    → Tiles r c repr r'
unfolding next_position
measured-Tiles r r' repr c cs p d e w = record {
  text = cs;
  reads = d;
  next = λ s. rw (e, w, next_position) (measured-next r r' (c ∷ cs) p d s);
}

-- A read character, and more of them.
pub Reads-cons :
    (r r' r'' : Reader) (c : ℕ) (cs : List ℕ)
    → ReadsOne r c r'
    → Reads r' cs r''
    → Reads r (c ∷ cs) r''
Reads-cons r r' r'' c cs one d = Reads-trans r r' r'' (c ∷ []) cs one.reads d

pub All-breaks :
    (accept : ℕ → Bool) (cs : List ℕ) → accept b'\n' ≡ false → All accept cs → num_breaks cs ≡ 0
unfolding num_breaks
All-breaks accept [] h a = refl
All-breaks accept (c ∷ cs) h a = elim (Bool-cases (c == b'\n')) [
  | inl t ↦
      let q : accept c ≡ accept b'\n' = ap accept ((==_iff c b'\n').0 t) in absurd (cc (a.0, q, h))
  | inr f ↦ rw f (let e = All-breaks accept cs h a.1 in omega arith)
]

pub breaks-cons :
    (c : ℕ) (cs : List ℕ) → (c == b'\n') ≡ false → num_breaks cs ≡ 0 → num_breaks (c ∷ cs) ≡ 0
unfolding num_breaks
breaks-cons c cs f h = rw f (omega arith)

pub breaks-append : (xs ys : List ℕ) → num_breaks (xs ++ ys) ≡ num_breaks xs + num_breaks ys
unfolding num_breaks
breaks-append [] ys = omega arith
breaks-append (x ∷ xs) ys = let e = breaks-append xs ys in omega arith

-- Behind text without line breaks the column counts its characters.
pub column-next :
    (r r' : Reader) (cs : List ℕ)
    → IsPlaced r
    → Reads r cs r'
    → num_breaks cs ≡ 0
    → Small r r'
    → column_of (current_position r') ≡ column_of (current_position r) + length cs
column-next r r' cs p d z s =
    let b = (Small-start r r' cs p d s).backs in
    let b' = (Small-end r r' cs p d s).backs in
    let k = d.placed.column in
    let k' = p.column in
    let q : tail_width r'.read ≡ length cs + tail_width r.read =
      rw d.read (width-onto cs r.read z) in
    rw (b.column, b'.column) (omega arith)

-- A token that counts its characters itself.
pub counted-Tiles :
    (r r' : Reader) (repr : Repr) (c : ℕ) (cs : List ℕ)
    → IsPlaced r
    → Reads r (c ∷ cs) r'
    → num_breaks (c ∷ cs) ≡ 0
    → shape (lexeme_of repr) ≡ Shape.measured
    → next_disp repr ≡ disp (length (c ∷ cs)) 0 (column_of (current_position r) + length (c ∷ cs))
    → Tiles r c repr r'
unfolding next_position after_disp after_flat
counted-Tiles r r' repr c cs p d z e w = record {
  text = cs;
  reads = d;
  next = λ s.
      let h = column-next r r' (c ∷ cs) p d z s in
      let b' = (Small-end r r' (c ∷ cs) p d s).backs in
      let k = s.end_column_small in
      let k' = b'.column in
      rw (e, w, next_position)
        (emplace_congr _ _ _ _ _ _ _ _ refl refl (omega arith) (omega arith)
          ∙ flat-next r r' (c ∷ cs) p d z s);
}
