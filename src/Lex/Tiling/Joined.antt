-- ===== src/Lex/Tiling/Joined.antt =====
-- On a short display each token starts where the one before it ends.
use dr_lojekyll.Prelude.{
  ℕ, ◌+◌, ◌^◌, ◌<◌, ◌≤◌, ◌≡◌, refl, sym, ap, ◌∙◌, Bool, List, [], ◌∷◌, length, length-append, arith,
}
use dr_lojekyll.Display.Reader.{Reader, start_reader, current_position, tail_width}
use dr_lojekyll.Display.Reads.{IsPlaced, start_reader-IsPlaced}
use dr_lojekyll.Lex.Token.{Token, next_position}
use dr_lojekyll.Lex.StringPool.{StringPool}
use dr_lojekyll.Lex.Lexer.{tokens, token_at}
use dr_lojekyll.Lex.Tiling.{Tiles, Small, breaks-length, length-onto}
use dr_lojekyll.Lex.Tiling.Lexer.{Tiling, lexing, tokens-Completes}

-- There is a token, and the first one stands at `r`.
abbrev pub StartsAt : Reader → List Token → Type 0
StartsAt r [] = ⊥
StartsAt r (t ∷ ts) = t.position ≡ current_position r

abbrev pub Joined : List Token → Type 0
Joined [] = Unit {0}
Joined (t ∷ []) = Unit {0}
Joined (t ∷ u ∷ ts) = (next_position t ≡ u.position) × Joined (u ∷ ts)

-- The text of a display with this reader is short.
record IsShort (r : Reader) : Type 0 where
  id_pos : 0 < r.display_id
  id_small : r.display_id < 2 ^ 16
  short : length r.read + length r.rest + 1 < 2 ^ 16

width-length : (cs : List ℕ) → tail_width cs ≤ length cs
unfolding tail_width
width-length [] = omega arith
width-length (c ∷ cs) = let e = width-length cs in ground (arith, e)

Tiles-length :
    {r r' : Reader} {c : ℕ} {repr : _}
    → Tiles r c repr r'
    → length r'.read + length r'.rest ≡ length r.read + length r.rest
Tiles-length {r} {r'} {c} t =
    let a = ap length t.reads.split in
    let b = length-append t.text r'.rest in
    let d = ap length t.reads.read in let e = length-onto t.text (c ∷ r.read) in omega arith

Tiles-Small :
    {r r' : Reader} {c : ℕ} {repr : _} → IsPlaced r → IsShort r → Tiles r c repr r' → Small r r'
Tiles-Small {r} {r'} p s t =
    let e = Tiles-length t in
    let h = s.short in
    let q = t.reads.placed in
    let l = q.line in
    let k = q.column in
    let k' = p.column in
    let a = breaks-length r'.read in
    let b = width-length r'.read in
    let b' = width-length r.read in
    record {
      id_pos = s.id_pos;
      id_small = s.id_small;
      index_small = omega arith;
      line_small = omega arith;
      column_small = omega arith;
      end_column_small = omega arith;
      width_small = omega arith;
    }

Tiles-IsShort : {r r' : Reader} {c : ℕ} {repr : _} → IsShort r → Tiles r c repr r' → IsShort r'
Tiles-IsShort s t =
    let e = Tiles-length t in
    let i = t.reads.display_id in
    record {
      id_pos = let a = s.id_pos in omega arith;
      id_small = let a = s.id_small in omega arith;
      short = let a = s.short in omega arith;
    }

Tiling-StartsAt : {r : Reader} {ts : List Token} → Tiling r ts → StartsAt r ts
unfolding token_at
Tiling-StartsAt (Tiling.ends_with l) = l.position
Tiling-StartsAt (Tiling.goes_on t rest) = refl

Joined-cons :
    (r : Reader) (t : Token) (ts : List Token)
    → next_position t ≡ current_position r
    → StartsAt r ts
    → Joined ts
    → Joined (t ∷ ts)
Joined-cons r t [] e s j = tt
Joined-cons r t (u ∷ ts) e s j = (e ∙ sym s, j)

Tiling-Joined : {r : Reader} {ts : List Token} → IsPlaced r → IsShort r → Tiling r ts → Joined ts
unfolding token_at
Tiling-Joined p s (Tiling.ends_with l) = tt
Tiling-Joined p s (Tiling.goes_on {r} {c} {repr} {r'} {ts} t rest) =
    Joined-cons r' (token_at r repr) ts (t.next (Tiles-Small p s t)) (Tiling-StartsAt rest)
      (Tiling-Joined t.reads.placed (Tiles-IsShort s t) rest)

-- On a display with fewer than 2 ^ 16 - 1 characters and an id between 1 and 2 ^ 16 - 1, more
-- calls of TryGetNextToken than characters give at least one token, the first token stands at
-- the start of the text, and each other token stands at the position that NextPosition gives for
-- the token in front of it.
pub tokens-Joined :
    (fuel id : ℕ) (failed : Bool) (text : List ℕ) (pool : StringPool)
    → 0 < id
    → id < 2 ^ 16
    → length text + 1 < 2 ^ 16
    → length text < fuel
    → (let ts = (tokens fuel (lexing (start_reader id failed text) pool)).0 in
        StartsAt (start_reader id failed text) ts × Joined ts)
tokens-Joined fuel id failed text pool h k l m =
    let r = start_reader id failed text in
    let p = start_reader-IsPlaced id failed text in
    let t = (tokens-Completes fuel r pool p m).tiling in
    (
      Tiling-StartsAt t,
      Tiling-Joined p (record { id_pos = h; id_small = k; short = omega arith }) t,
    )
