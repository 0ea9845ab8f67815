-- ===== src/Lex/StringPool/Intern.antt =====
-- Interned strings: they read back, and a text without NUL keeps its id.
use mathlib.Core.List.{append_assoc, append-nil}
use native.Mathlib.Nat.{mod-eq_of_lt}
use dr_lojekyll.Prelude.{
  ℕ, suc, ◌+◌, ◌%◌, ◌^◌, ◌<◌, ◌≡◌, refl, sym, ap, ◌∙◌, inl, inr, Bool, true, false, List, [], ◌∷◌,
  ◌++◌, length, length-append, take, arith, Option-cases, ◌==◌, ltb,
}
use dr_lojekyll.Lex.StringPool.{
  StringPool, start_pool, search, drop, append_string, intern_string, try_read_string, ReadString,
}
use dr_lojekyll.Lex.StringPool.Search.{StandsAt, search-StandsAt}

-- A pool starts with a NUL, and ends with another.
pub record IsPool (p : StringPool) : Type 0 where
  pub body : List ℕ
  pub split : p.pool ≡ 0 ∷ body ++ 0 ∷ []

pub start_pool-IsPool : IsPool start_pool
start_pool-IsPool = record {
  body = b'_' ∷ 0 ∷ b't' ∷ b'r' ∷ b'u' ∷ b'e' ∷ 0 ∷ b'f' ∷ b'a' ∷ b'l' ∷ b's' ∷ b'e' ∷ [];
  split = refl;
}

-- `id` names `text` in `p`, and in every pool that starts with `p`.
pub record Names (p : StringPool) (id : ℕ) (text : List ℕ) : Type 0 where
  pub id_pos : 0 < id
  pub before : List ℕ
  pub after : List ℕ
  pub split : p.pool ≡ before ++ (text ++ 0 ∷ after)
  pub place : id ≡ length before

pub drop-append : (xs ys : List ℕ) → drop (length xs) (xs ++ ys) ≡ ys
unfolding drop
drop-append [] ys = refl
drop-append (x ∷ xs) ys = drop-append xs ys

take-append : (xs ys : List ℕ) → take (length xs) (xs ++ ys) ≡ xs
take-append [] ys = refl
take-append (x ∷ xs) ys = ap (λ zs. x ∷ zs) (take-append xs ys)

pub Names-length :
    (p : StringPool) (id : ℕ) (text : List ℕ) → Names p id text → id + length text < length p.pool
Names-length p id text n =
    let a = ap length n.split in
    let b = length-append n.before (text ++ 0 ∷ n.after) in
    let c : length (text ++ 0 ∷ n.after) ≡ length text + suc (length n.after) =
      length-append text (0 ∷ n.after) in
    let d = n.place in omega arith

-- A named text is what `TryReadString` reads.
pub try_read_string-Names :
    (p : StringPool) (id : ℕ) (text : List ℕ)
    → length p.pool < 2 ^ 32
    → Names p id text
    → try_read_string id (length text) p ≡ ReadString.found text
unfolding try_read_string
try_read_string-Names p id text h n =
    let l = Names-length p id text n in
    let e : (id + length text) % 2 ^ 32 ≡ id + length text = mod-eq_of_lt (omega arith) in
    let a : (id == 0) ≡ false = ground (arith, n.id_pos) in
    let b : ltb (length p.pool) (id + length text) ≡ false = ground arith in
    let c : ltb (length p.pool) id ≡ false = ground arith in
    let d : drop id p.pool ≡ text ++ 0 ∷ n.after =
      rw (n.place, n.split) (drop-append n.before (text ++ 0 ∷ n.after)) in
    rw (e, a, b, c, d, take-append text (0 ∷ n.after)) refl

abbrev pub StartsWith : List ℕ → List ℕ → Type 0
StartsWith xs ys = (more : List ℕ) × (xs ≡ ys ++ more)

pub Names-StartsWith :
    (p q : StringPool) (id : ℕ) (text : List ℕ)
    → Names p id text
    → StartsWith q.pool p.pool
    → Names q id text
Names-StartsWith p q id text n m = record {
  id_pos = n.id_pos;
  before = n.before;
  after = n.after ++ m.0;
  split =
      m.1
      ∙ rw n.split (
          append_assoc n.before (text ++ 0 ∷ n.after) m.0
          ∙ ap (λ xs. n.before ++ xs) (append_assoc text (0 ∷ n.after) m.0));
  place = n.place;
}

-- What `InternString` does to a pool, whatever was searched for.
pub record Interns (p : StringPool) (text : List ℕ) (o : ℕ × StringPool) : Type 0 where
  pub is_pool : IsPool o.1
  pub names : Names o.1 o.0 text
  pub starts : StartsWith o.1.pool p.pool

append_string-Interns :
    (text : List ℕ) (p : StringPool)
    → IsPool p
    → length p.pool < 2 ^ 32
    → Interns p text (append_string text p)
unfolding append_string
append_string-Interns text p i h = rw (mod-eq_of_lt h) (record {
  is_pool = record {
    body = i.body ++ 0 ∷ text;
    split = rw i.split (ap (λ xs. 0 ∷ xs ++ 0 ∷ []) (append_assoc i.body (0 ∷ []) text));
  };
  names = record {
    id_pos = let e = ap length i.split in omega arith;
    before = p.pool;
    after = [];
    split = append_assoc p.pool text (0 ∷ []);
    place = refl;
  };
  starts = (text ++ 0 ∷ [], append_assoc p.pool text (0 ∷ []));
})

found-Interns :
    (text : List ℕ) (p : StringPool) {pos : ℕ}
    → (i : IsPool p) → length p.pool < 2 ^ 32
    → StandsAt text 1 (i.body ++ 0 ∷ []) pos
    → Interns p text (pos % 2 ^ 32, p)
found-Interns text p {pos} i h a =
    let n : Names p pos text = record {
      id_pos = let e = a.place in omega arith;
      before = 0 ∷ a.front;
      after = a.tail;
      split = i.split ∙ ap (λ xs. 0 ∷ xs) a.split;
      place = a.place ∙ omega arith;
    } in
    let small : pos < 2 ^ 32 = let l = Names-length p pos text n in omega arith in
    rw (mod-eq_of_lt small)
      (record { is_pool = i; names = n; starts = ([], sym (append-nil p.pool)) })

pub drop_1 : (p : StringPool) → (i : IsPool p) → drop 1 p.pool ≡ i.body ++ 0 ∷ []
unfolding drop
drop_1 p i = rw i.split refl

-- Interning: the text has the returned id, in a pool that goes on from the old one.
pub intern_string-Interns :
    (force : Bool) (text : List ℕ) (p : StringPool)
    → IsPool p
    → length p.pool < 2 ^ 32
    → Interns p text (intern_string force text p)
unfolding intern_string
intern_string-Interns true text p i h = append_string-Interns text p i h
intern_string-Interns false text p i h = elim (Option-cases (search text 1 (drop 1 p.pool))) [
  | inl e ↦ rw (e, intern_string) (append_string-Interns text p i h)
  | inr (pos, e) ↦
      rw (e, intern_string)
        (found-Interns text p i h
          (search-StandsAt text 1 (i.body ++ 0 ∷ []) (rw (drop_1 p i) at e)))
]
