-- ===== src/Lex/StringPool/Search.antt =====
-- What the search of `InternString` finds, and that it depends on no text after a terminated string.
use dr_lojekyll.Prelude.{
  ℕ, zero, suc, ◌+◌, ◌<◌, ◌≡◌, refl, sym, ap, subst, ◌⊎◌, inl, inr, ◌∙◌, ◌≢◌, false, Option, none,
  some, List, [], ◌∷◌, ◌++◌, length, arith, Bool-cases, ◌==◌, ==_iff, ==_refl, if◌then◌else◌,
}
use dr_lojekyll.Lex.StringPool.{Match, match_at, search}

abbrev pub NulFree : List ℕ → Type 0
NulFree [] = Unit {0}
NulFree (d ∷ text) = (0 < d) × NulFree text

pub match_at-terminated :
    (text xs : List ℕ)
    → match_at text xs ≡ Match.terminated
    → (tail : List ℕ) × (xs ≡ text ++ 0 ∷ tail)
unfolding match_at
match_at-terminated [] [] e = absurd (cc e)
match_at-terminated [] (zero ∷ xs) e = (xs, refl)
match_at-terminated [] (suc x ∷ xs) e = absurd (cc e)
match_at-terminated (d ∷ text) [] e = absurd (cc e)
match_at-terminated (d ∷ text) (x ∷ xs) e = elim (Bool-cases (d == x)) [
  | inl t ↦
      let m = match_at-terminated text xs (rw t at e) in
      let q : d ≡ x = (==_iff d x).0 t in
      (m.0, ap (λ ys. x ∷ ys) m.1 ∙ ap (λ c. c ∷ text ++ 0 ∷ m.0) (sym q))
  | inr f ↦ absurd (cc (rw f at e))
]

pub match_at_refl : (text tail : List ℕ) → match_at text (text ++ 0 ∷ tail) ≡ Match.terminated
unfolding match_at
match_at_refl [] tail = refl
match_at_refl (d ∷ text) tail = rw (==_refl d) (match_at_refl text tail)

pub match_at-append :
    (text us ys : List ℕ)
    → NulFree text
    → match_at text (us ++ 0 ∷ ys) ≡ match_at text (us ++ 0 ∷ [])
unfolding match_at
match_at-append [] [] ys n = refl
match_at-append [] (zero ∷ us) ys n = refl
match_at-append [] (suc u ∷ us) ys n = refl
match_at-append (d ∷ text) [] ys n = let f : (d == 0) ≡ false = ground (arith, n.0) in rw f refl
match_at-append (d ∷ text) (u ∷ us) ys n =
    ap (λ m. if d == u then m else Match.missed) (match_at-append text us ys n.1)

-- The first of two results.
abbrev pub or_else : Option ℕ → Option ℕ → Option ℕ
or_else none o = o
or_else (some p) o = some p

match_at-full : (text us : List ℕ) → NulFree text → match_at text (us ++ 0 ∷ []) ≢ Match.ends
unfolding match_at
match_at-full [] [] n e = absurd (cc e)
match_at-full [] (zero ∷ us) n e = absurd (cc e)
match_at-full [] (suc u ∷ us) n e = absurd (cc e)
match_at-full (d ∷ text) [] n e =
    let f : (d == 0) ≡ false = ground (arith, n.0) in absurd (cc (rw f at e))
match_at-full (d ∷ text) (u ∷ us) n e = elim (Bool-cases (d == u)) [
  | inl t ↦ match_at-full text us n.1 (rw t at e)
  | inr f ↦ absurd (cc (rw f at e))
]

all_matches : (m : Match) → (m ≡ Match.missed) ⊎ ((m ≡ Match.ends) ⊎ (m ≡ Match.terminated))
all_matches Match.missed = inl refl
all_matches Match.ends = inr (inl refl)
all_matches Match.terminated = inr (inr refl)

Match-cases : (m : Match) → m ≢ Match.ends → (m ≡ Match.missed) ⊎ (m ≡ Match.terminated)
Match-cases Match.missed n = inl refl
Match-cases Match.ends n = absurd (n refl)
Match-cases Match.terminated n = inr refl

search_missed :
    (text : List ℕ) (pos x : ℕ) (xs : List ℕ)
    → match_at text (x ∷ xs) ≡ Match.missed
    → search text pos (x ∷ xs) ≡ search text (suc pos) xs
unfolding search
search_missed text pos x xs e = rw (e, search) refl

pub search_terminated :
    (text : List ℕ) (pos x : ℕ) (xs : List ℕ)
    → match_at text (x ∷ xs) ≡ Match.terminated
    → search text pos (x ∷ xs) ≡ some pos
unfolding search
search_terminated text pos x xs e = rw (e, search) refl

search_end : (text : List ℕ) (pos : ℕ) → search text pos [] ≡ none
unfolding search
search_end text pos = refl

search-append_missed :
    (text : List ℕ) (pos u : ℕ) (us vs ys : List ℕ) (m : ℕ)
    → match_at text (u ∷ us) ≡ Match.missed
    → match_at text (u ∷ vs) ≡ Match.missed
    → search text (suc pos) us ≡ or_else (search text (suc pos) vs) (search text (suc pos + m) ys)
    → search text pos (u ∷ us) ≡ or_else (search text pos (u ∷ vs)) (search text (pos + suc m) ys)
search-append_missed text pos u us vs ys m e f r =
    let q : pos + suc m ≡ suc pos + m = omega arith in
    rw (search_missed text pos u us e, search_missed text pos u vs f, q) r

search-append_terminated :
    (text : List ℕ) (pos u : ℕ) (us vs : List ℕ) (o : Option ℕ)
    → match_at text (u ∷ us) ≡ Match.terminated
    → match_at text (u ∷ vs) ≡ Match.terminated
    → search text pos (u ∷ us) ≡ or_else (search text pos (u ∷ vs)) o
search-append_terminated text pos u us vs o e f =
    rw (search_terminated text pos u us e, search_terminated text pos u vs f) refl

search-cases :
    (text : List ℕ) (pos x : ℕ) (xs : List ℕ)
    → ((match_at text (x ∷ xs) ≡ Match.terminated) × (search text pos (x ∷ xs) ≡ some pos))
      ⊎ ((search text pos (x ∷ xs) ≡ none) ⊎ (search text pos (x ∷ xs) ≡ search text (suc pos) xs))
unfolding search
search-cases text pos x xs = elim (all_matches (match_at text (x ∷ xs))) [
  | inl m ↦ inr (inr (search_missed text pos x xs m))
  | inr (inl m) ↦ inr (inl (rw (m, search) refl))
  | inr (inr m) ↦ inl (m, search_terminated text pos x xs m)
]

-- A text without NUL is searched in front of and behind a NUL apart.
pub search-append :
    (text : List ℕ) (pos : ℕ) (us ys : List ℕ)
    → NulFree text
    → search text pos (us ++ 0 ∷ ys)
      ≡ or_else (search text pos (us ++ 0 ∷ [])) (search text (pos + suc (length us)) ys)
search-append text pos [] ys n =
    elim (Match-cases (match_at text (0 ∷ [])) (match_at-full text [] n)) [
      | inl m ↦
          search-append_missed text pos 0 ys [] ys 0 (match_at-append text [] ys n ∙ m) m
            (let q : suc pos + 0 ≡ suc pos = omega arith in rw (search_end text (suc pos), q) refl)
      | inr m ↦ search-append_terminated text pos 0 ys [] _ (match_at-append text [] ys n ∙ m) m
    ]
search-append text pos (u ∷ us) ys n =
    elim (Match-cases (match_at text (u ∷ us ++ 0 ∷ [])) (match_at-full text (u ∷ us) n)) [
      | inl m ↦
          search-append_missed text pos u (us ++ 0 ∷ ys) (us ++ 0 ∷ []) ys (suc (length us))
            (match_at-append text (u ∷ us) ys n ∙ m) m (search-append text (suc pos) us ys n)
      | inr m ↦
          search-append_terminated text pos u (us ++ 0 ∷ ys) (us ++ 0 ∷ []) _
            (match_at-append text (u ∷ us) ys n ∙ m) m
    ]

-- `text` stands at `p` in `xs`, which starts at `pos`, and a NUL stands behind it.
pub record StandsAt (text : List ℕ) (pos : ℕ) (xs : List ℕ) (p : ℕ) : Type 0 where
  pub front : List ℕ
  pub tail : List ℕ
  pub split : xs ≡ front ++ (text ++ 0 ∷ tail)
  pub place : p ≡ pos + length front

StandsAt-here :
    (text : List ℕ) (pos : ℕ) (xs : List ℕ)
    → match_at text xs ≡ Match.terminated
    → StandsAt text pos xs pos
StandsAt-here text pos xs e =
    let m = match_at-terminated text xs e in
    record { front = []; tail = m.0; split = m.1; place = omega arith }

StandsAt-later :
    (text : List ℕ) (pos x : ℕ) (xs : List ℕ) {p : ℕ}
    → StandsAt text (suc pos) xs p
    → StandsAt text pos (x ∷ xs) p
StandsAt-later text pos x xs a = record {
  front = x ∷ a.front;
  tail = a.tail;
  split = ap (λ ys. x ∷ ys) a.split;
  place = let h = a.place in omega arith;
}

-- What the search finds stands at its place.
pub search-StandsAt :
    (text : List ℕ) (pos : ℕ) (xs : List ℕ) {p : ℕ}
    → search text pos xs ≡ some p
    → StandsAt text pos xs p
unfolding search
search-StandsAt text pos [] e = absurd (cc e)
search-StandsAt text pos (x ∷ xs) {p} e = elim (search-cases text pos x xs) [
  | inl (m, f) ↦
      let q : pos ≡ p = cc (e, f) in
      subst (StandsAt text pos (x ∷ xs)) q (StandsAt-here text pos (x ∷ xs) m)
  | inr (inl f) ↦ absurd (cc (e, f))
  | inr (inr f) ↦ StandsAt-later text pos x xs (search-StandsAt text (suc pos) xs (sym f ∙ e))
]
