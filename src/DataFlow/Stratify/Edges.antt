-- ===== src/DataFlow/Stratify/Edges.antt =====
-- What a view depends on, and that the lists of sources say so.
use dr_lojekyll.Prelude.{
  ℕ, zero, suc, ◌+◌, ◌<◌, ◌≡◌, ◌↔◌, ◌⊎◌, refl, ap, subst, ◌∙◌, sym, inl, inr, Bool, true, false,
  Option, none, some, List, [], ◌∷◌, ◌++◌, get_elem?, length, arith, if◌then◌else◌, ltb, ◌==◌,
}
use dr_lojekyll.DataFlow.Stratify.Reaches.{In}
use dr_lojekyll.DataFlow.Stratify.Pass.{Kind, View, live, is_writing, inserts_of}

-- The edges: the columns, the absence that a NEGATE reads, and the declaration seams.
pub data Edge (views : List View) : ℕ → ℕ → Type 0 where
  column :
      (v u : ℕ) (w : View)
      → get_elem? views v ≡ some w
      → In u w.predecessors
      → u < length views
      → Edge views v u
  absence :
      (v u : ℕ) (w : View) (predicates : List ℕ)
      → get_elem? views v ≡ some w
      → w.kind ≡ Kind.negation u predicates
      → u < length views
      → Edge views v u
  seam :
      (v u d : ℕ) (w x : View)
      → get_elem? views v ≡ some w
      → get_elem? views u ≡ some x
      → w.reads ≡ some d
      → x.writes ≡ some d
      → Edge views v u

-- `v` depends on `u`.
pub data Depends (views : List View) : ℕ → ℕ → Type 0 where
  self : (v : ℕ) → Depends views v v
  through : (v u w : ℕ) → Edge views v u → Depends views u w → Depends views v w

pub In-append : (x : ℕ) (xs ys : List ℕ) → In x (xs ++ ys) → In x xs ⊎ In x ys
In-append x [] ys h = inr h
In-append x (y ∷ xs) ys (inl e) = inl (inl e)
In-append x (y ∷ xs) ys (inr h) = elim (In-append x xs ys h) [ inl k ↦ inl (inr k) | inr k ↦ inr k ]

pub In-left : (x : ℕ) (xs ys : List ℕ) → In x xs → In x (xs ++ ys)
In-left x [] ys h = absurd h
In-left x (y ∷ xs) ys (inl e) = inl e
In-left x (y ∷ xs) ys (inr h) = inr (In-left x xs ys h)

pub In-right : (x : ℕ) (xs ys : List ℕ) → In x ys → In x (xs ++ ys)
In-right x [] ys h = h
In-right x (y ∷ xs) ys h = inr (In-right x xs ys h)

pub get-In : (xs : List ℕ) (i x : ℕ) → get_elem? xs i ≡ some x → In x xs
get-In [] i x e = absurd (cc e)
get-In (y ∷ xs) zero x e = let q : x ≡ y = cc e in inl q
get-In (y ∷ xs) (suc i) x e = inr (get-In xs i x e)

pub In-get : (xs : List ℕ) (x : ℕ) → In x xs → (i : ℕ) × (get_elem? xs i ≡ some x)
In-get [] x h = absurd h
In-get (y ∷ xs) x (inl e) = (0, ap some (sym e))
In-get (y ∷ xs) x (inr h) = let (i, e) = In-get xs x h in (suc i, e)

pub if-In :
    (x : ℕ) (c : Bool) (xs ys : List ℕ)
    → In x (if c then xs else ys)
    → ((c ≡ true) × In x xs) ⊎ ((c ≡ false) × In x ys)
if-In x true xs ys h = inl (refl, h)
if-In x false xs ys h = inr (refl, h)

pub live-In : (n x : ℕ) (us : List ℕ) → In x (live n us) → In x us × (x < n)
unfolding live
live-In n x [] h = absurd h
live-In n x (u ∷ us) h = elim (if-In x (ltb u n) (u ∷ live n us) (live n us) h) [
  | inl (t, inl e) ↦ (inl e, ground (arith, t, e))
  | inl (t, inr k) ↦ let (a, b) = live-In n x us k in (inr a, b)
  | inr (f, k) ↦ let (a, b) = live-In n x us k in (inr a, b)
]

pub if_then : (c : Bool) (xs ys : List ℕ) → c ≡ true → (if c then xs else ys) ≡ xs
if_then true xs ys e = refl
if_then false xs ys e = absurd (cc e)

pub if_kept : (x u : ℕ) (c : Bool) (xs : List ℕ) → In x xs → In x (if c then u ∷ xs else xs)
if_kept x u true xs h = inr h
if_kept x u false xs h = h

pub In-live : (n x : ℕ) (us : List ℕ) → In x us → x < n → In x (live n us)
unfolding live
In-live n x [] h lt = absurd h
In-live n x (u ∷ us) (inl e) lt =
    subst (In x) (sym (if_then (ltb u n) (u ∷ live n us) (live n us) (ground (arith, e, lt))))
      (inl e)
In-live n x (u ∷ us) (inr h) lt = if_kept x u (ltb u n) (live n us) (In-live n x us h lt)

writing_iff : (d : ℕ) (w : View) → (is_writing d w ≡ true) ↔ (w.writes ≡ some d)
unfolding is_writing
writing_iff d w = (there w.writes, back w.writes)
  where
    there : (o : Option ℕ) → elim o [ none ↦ false | some c ↦ c == d ] ≡ true → o ≡ some d
    there none e = absurd (cc e)
    there (some c) e = let q : c ≡ d = ground (arith, e) in ap some q

    back : (o : Option ℕ) → o ≡ some d → elim o [ none ↦ false | some c ↦ c == d ] ≡ true
    back none e = absurd (cc e)
    back (some c) e = let q : c ≡ d = cc e in ground (arith, q)

-- The place `x` is that of a writer, counted from `j` on.
abbrev pub Writes : ℕ → ℕ → ℕ → List View → Type 0
Writes d j x views =
    (k : ℕ) × (x ≡ j + k) × (w : View) × (get_elem? views k ≡ some w) × (w.writes ≡ some d)

Writes-next :
    (d j x : ℕ) (w : View) (views : List View) → Writes d (j + 1) x views → Writes d j x (w ∷ views)
Writes-next d j x w views (k, e, y, g, q) = (suc k, omega (arith, e), y, g, q)

pub inserts-In : (d j x : ℕ) (views : List View) → In x (inserts_of d j views) → Writes d j x views
unfolding inserts_of
inserts-In d j x [] h = absurd h
inserts-In d j x (w ∷ views) h =
    elim (if-In x (is_writing d w) (j ∷ inserts_of d (j + 1) views) (inserts_of d (j + 1) views)
      h) [
        | inl (t, inl e) ↦ (0, omega (arith, e), w, refl, (writing_iff d w).0 t)
        | inl (t, inr k) ↦ Writes-next d j x w views (inserts-In d (j + 1) x views k)
        | inr (f, k) ↦ Writes-next d j x w views (inserts-In d (j + 1) x views k)
      ]

pub In-inserts :
    (d j k : ℕ) (views : List View) (x : View)
    → get_elem? views k ≡ some x
    → x.writes ≡ some d
    → In (j + k) (inserts_of d j views)
unfolding inserts_of
In-inserts d j k [] x g e = absurd (cc g)
In-inserts d j zero (w ∷ views) x g e =
    let q : w ≡ x = cc g in
    let t = (writing_iff d w).1 (ap (λ (y : View). y.writes) q ∙ e) in
    subst (In (j + 0))
      (sym
        (if_then (is_writing d w) (j ∷ inserts_of d (j + 1) views) (inserts_of d (j + 1) views) t))
      (inl (omega arith))
In-inserts d j (suc k) (w ∷ views) x g e =
    let q : j + 1 + k ≡ j + suc k = omega arith in
    if_kept (j + suc k) j (is_writing d w) (inserts_of d (j + 1) views)
      (subst (λ m. In m (inserts_of d (j + 1) views)) q (In-inserts d (j + 1) k views x g e))
