-- ===== src/Lex/StringPool/Ids.antt =====
-- Ids of texts without NUL: the same text has the same id at any time, and two texts have two ids.
use mathlib.Core.List.{append_assoc, append-nil, head-eq_of_cons-eq, tail-eq_of_cons-eq}
use dr_lojekyll.Prelude.{
  ℕ, suc, ◌+◌, ◌%◌, ◌^◌, ◌<◌, ◌≡◌, refl, sym, ap, subst, ◌∙◌, inl, inr, Bool, false, none, some,
  List, [], ◌∷◌, ◌++◌, length, length-append, arith, Option-cases, ◌↔◌,
}
use dr_lojekyll.Lex.StringPool.{
  StringPool, search, drop, append_string, intern_string, try_read_string, ReadString,
}
use dr_lojekyll.Lex.StringPool.Search.{
  NulFree, or_else, search-append, match_at_refl, search_terminated,
}
use dr_lojekyll.Lex.StringPool.Intern.{
  IsPool, intern_string-Interns, try_read_string-Names, Names-StartsWith, StartsWith, drop_1, Names,
  drop-append,
}

search_refl :
    (text : List ℕ) (pos : ℕ) (tail : List ℕ) → search text pos (text ++ 0 ∷ tail) ≡ some pos
search_refl [] pos tail = search_terminated [] pos 0 tail (match_at_refl [] tail)
search_refl (d ∷ text) pos tail =
    search_terminated (d ∷ text) pos d (text ++ 0 ∷ tail) (match_at_refl (d ∷ text) tail)

-- The search finds `text` at `pos`.
abbrev pub Finds : StringPool → List ℕ → ℕ → Type 0
Finds p text pos = search text 1 (drop 1 p.pool) ≡ some pos

drop_1-StartsWith :
    (p q : StringPool)
    → (i : IsPool p) → (m : StartsWith q.pool p.pool) → drop 1 q.pool ≡ i.body ++ 0 ∷ m.0
unfolding drop
drop_1-StartsWith p q i m = rw (m.1, i.split) (append_assoc i.body (0 ∷ []) m.0)

search-more :
    (p q : StringPool) (text : List ℕ)
    → (i : IsPool p) → (m : StartsWith q.pool p.pool) → NulFree text
    → search text 1 (drop 1 q.pool)
      ≡ or_else (search text 1 (drop 1 p.pool)) (search text (length p.pool) m.0)
search-more p q text i m n =
    let e : length p.pool ≡ 1 + suc (length i.body) =
      let a = ap length i.split in let b = length-append i.body (0 ∷ []) in omega arith in
    rw (drop_1-StartsWith p q i m, drop_1 p i, e) (search-append text 1 i.body m.0 n)

Finds-StartsWith :
    (p q : StringPool) (text : List ℕ) (pos : ℕ)
    → IsPool p
    → StartsWith q.pool p.pool
    → NulFree text
    → Finds p text pos
    → Finds q text pos
Finds-StartsWith p q text pos i m n f = search-more p q text i m n ∙ rw f refl

append_string-Finds :
    (text : List ℕ) (p : StringPool)
    → IsPool p
    → NulFree text
    → search text 1 (drop 1 p.pool) ≡ none
    → Finds (append_string text p).1 text (length p.pool)
unfolding append_string
append_string-Finds text p i n f =
    search-more p (append_string text p).1 text i
      (text ++ 0 ∷ [], append_assoc p.pool text (0 ∷ [])) n
    ∙ rw f (search_refl text (length p.pool) [])

intern_string_found :
    (text : List ℕ) (p : StringPool) (pos : ℕ)
    → Finds p text pos
    → intern_string false text p ≡ (pos % 2 ^ 32, p)
unfolding intern_string
intern_string_found text p pos f = rw (f, intern_string) refl

intern_string_new :
    (text : List ℕ) (p : StringPool)
    → search text 1 (drop 1 p.pool) ≡ none
    → intern_string false text p ≡ append_string text p
unfolding intern_string
intern_string_new text p f = rw (f, intern_string) refl

intern_string-Finds :
    (text : List ℕ) (p : StringPool)
    → IsPool p
    → NulFree text
    → (pos : ℕ) × Finds (intern_string false text p).1 text pos
      × ((intern_string false text p).0 ≡ pos % 2 ^ 32)
unfolding append_string
intern_string-Finds text p i n = elim (Option-cases (search text 1 (drop 1 p.pool))) [
  | inl e ↦ (
    length p.pool,
    rw (intern_string_new text p e) (append_string-Finds text p i n e),
    rw (intern_string_new text p e) refl,
  )
  | inr (pos, e) ↦
      (pos, rw (intern_string_found text p pos e) e, rw (intern_string_found text p pos e) refl)
]

-- Once a text without NUL is interned without force, interning it again gives the same id and
-- leaves the pool as it is, in every pool that goes on from the one after the first call.
pub intern_string-again :
    (text : List ℕ) (p q : StringPool)
    → IsPool p
    → IsPool (intern_string false text p).1
    → NulFree text
    → StartsWith q.pool (intern_string false text p).1.pool
    → intern_string false text q ≡ ((intern_string false text p).0, q)
intern_string-again text p q i j n m =
    let f = intern_string-Finds text p i n in
    intern_string_found text q f.0
      (Finds-StartsWith (intern_string false text p).1 q text f.0 j m n f.1)
    ∙ ap (λ id. (id, q)) (sym f.2)

NulFree-unique : (s t xs ys : List ℕ) → NulFree s → NulFree t → s ++ 0 ∷ xs ≡ t ++ 0 ∷ ys → s ≡ t
NulFree-unique [] [] xs ys n m e = refl
NulFree-unique [] (d ∷ t) xs ys n m e =
    let h = head-eq_of_cons-eq e in absurd (omega (arith, m.0, h))
NulFree-unique (c ∷ s) [] xs ys n m e =
    let h = head-eq_of_cons-eq e in absurd (omega (arith, n.0, h))
NulFree-unique (c ∷ s) (d ∷ t) xs ys n m e =
    ap (λ c. c ∷ s) (head-eq_of_cons-eq e)
    ∙ ap (λ u. d ∷ u) (NulFree-unique s t xs ys n.1 m.1 (tail-eq_of_cons-eq e))

drop-Names :
    (p : StringPool) (id : ℕ) (s : List ℕ) → (n : Names p id s) → drop id p.pool ≡ s ++ 0 ∷ n.after
drop-Names p id s n = rw (n.place, n.split) (drop-append n.before (s ++ 0 ∷ n.after))

-- One id names one text without NUL.
pub Names-unique :
    (p : StringPool) (id : ℕ) (s t : List ℕ)
    → NulFree s
    → NulFree t
    → Names p id s
    → Names p id t
    → s ≡ t
Names-unique p id s t n m a b =
    NulFree-unique s t a.after b.after n m (sym (drop-Names p id s a) ∙ drop-Names p id t b)

-- An interned text, with or without force, is what TryReadString reads with the id and the
-- length, in every pool of fewer than 2 ^ 32 bytes that goes on from the one after the call.
pub intern_string-try_read_string :
    (force : Bool) (text : List ℕ) (p q : StringPool)
    → IsPool p
    → length q.pool < 2 ^ 32
    → StartsWith q.pool (intern_string force text p).1.pool
    → length p.pool < 2 ^ 32
    → try_read_string (intern_string force text p).0 (length text) q ≡ ReadString.found text
intern_string-try_read_string force text p q i h m k =
    let o = intern_string-Interns force text p i k in
    try_read_string-Names q (intern_string force text p).0 text h (
      Names-StartsWith (intern_string force text p).1 q (intern_string force text p).0 text o.names
        m)

-- Two texts without NUL, interned one after the other without force in a pool whose size fits in
-- 32 bits before each, get the same id exactly when they are equal.
pub intern_string_iff :
    (s t : List ℕ) (p : StringPool)
    → IsPool p
    → NulFree s
    → NulFree t
    → length p.pool < 2 ^ 32
    → length (intern_string false s p).1.pool < 2 ^ 32
    → ((intern_string false s p).0 ≡ (intern_string false t (intern_string false s p).1).0)
      ↔ (s ≡ t)
intern_string_iff s t p i n m k h =
    let q = intern_string false s p in
    let o = intern_string-Interns false s p i k in
    let r = intern_string false t q.1 in
    let u = intern_string-Interns false t q.1 o.is_pool h in
    (
      λ e.
          Names-unique r.1 r.0 s t n m
            (subst (λ id. Names r.1 id s) e (Names-StartsWith q.1 r.1 q.0 s o.names u.starts))
            u.names,
      λ e. sym (
          ap (λ z. z.0)
            (subst (λ x. intern_string false x q.1 ≡ (q.0, q.1)) e
              (intern_string-again s p q.1 i o.is_pool n ([], sym (append-nil q.1.pool))))),
    )
