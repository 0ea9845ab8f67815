-- ===== src/DataFlow/Stratify/Ranges.antt =====
-- The range of a data model in the list of ranges.
use dr_lojekyll.Prelude.{
  same_or_other, ℕ, ◌≡◌, ◌≢◌, ◌↔◌, ◌⊎◌, refl, subst, sym, inl, inr, Bool, true, false, Option, none,
  some, List, [], ◌∷◌, arith, Bool-cases, if◌then◌else◌, leb, ◌==◌, ==_refl, ==_ne,
}
use dr_lojekyll.DataFlow.Stratify.{min}
use dr_lojekyll.DataFlow.Stratify.Reaches.{In}
use dr_lojekyll.DataFlow.Stratify.Pass.{Range, max, add_stratum, insert_model, straddling}

abbrev pub find_range : ℕ → List Range → Option Range
find_range m [] = none
find_range m (r ∷ ranges) = if r.model == m then some r else find_range m ranges

abbrev pub models_of : List Range → List ℕ
models_of [] = []
models_of (r ∷ ranges) = r.model ∷ models_of ranges

abbrev pub Distinct : List Range → Type 0
Distinct [] = Unit {0}
Distinct (r ∷ ranges) = ¬ In r.model (models_of ranges) × Distinct ranges

-- The range with one more stratum.
abbrev pub widen : ℕ → ℕ → Option Range → Range
widen m k none = record { model = m; low = k; high = k }
widen m k (some r) = record { model = m; low = min r.low k; high = max r.high k }

pub find-add_same :
    (m k : ℕ) (ranges : List Range)
    → find_range m (add_stratum m k ranges) ≡ some (widen m k (find_range m ranges))
unfolding add_stratum
find-add_same m k [] = rw (==_refl m) refl
find-add_same m k (r ∷ ranges) = elim (Bool-cases (r.model == m)) [
  | inl t ↦ rw (t, ==_refl m) refl
  | inr f ↦ rw (f, f) (find-add_same m k ranges)
]

pub find-add_other :
    (m o k : ℕ) (ranges : List Range)
    → o ≢ m
    → find_range o (add_stratum m k ranges) ≡ find_range o ranges
unfolding add_stratum
find-add_other m o k [] ne = rw (==_ne m o (λ e. ne (sym e))) refl
find-add_other m o k (r ∷ ranges) ne = elim (Bool-cases (r.model == m)) [
  | inl t ↦
      let g : (r.model == o) ≡ false = ground (arith, t, ne) in
      rw (t, g, ==_ne m o (λ e. ne (sym e))) refl
  | inr f ↦ elim (Bool-cases (r.model == o)) [
    | inl t ↦ rw (f, t) refl
    | inr g ↦ rw (f, g) (find-add_other m o k ranges ne)
  ]
]

models-add :
    (x m k : ℕ) (ranges : List Range)
    → In x (models_of (add_stratum m k ranges))
    → (x ≡ m) ⊎ In x (models_of ranges)
unfolding add_stratum
models-add x m k [] h = h
models-add x m k (r ∷ ranges) h = elim (Bool-cases (r.model == m)) [
  | inl t ↦
      elim (subst
        (λ (c : Bool). In x (
          models_of (
            if c
            then record { model = m; low = min r.low k; high = max r.high k } ∷ ranges
            else r ∷ add_stratum m k ranges)))
        t h) [ inl e ↦ inl e | inr j ↦ inr (inr j) ]
  | inr f ↦
      elim (subst
        (λ (c : Bool). In x (
          models_of (
            if c
            then record { model = m; low = min r.low k; high = max r.high k } ∷ ranges
            else r ∷ add_stratum m k ranges)))
        f h) [
          | inl e ↦ inr (inl e)
          | inr j ↦ elim (models-add x m k ranges j) [ inl e ↦ inl e | inr q ↦ inr (inr q) ]
        ]
]

pub add-Distinct :
    (m k : ℕ) (ranges : List Range) → Distinct ranges → Distinct (add_stratum m k ranges)
unfolding add_stratum
add-Distinct m k [] h = ((λ n. n), tt)
add-Distinct m k (r ∷ ranges) (fresh, h) = elim (Bool-cases (r.model == m)) [
  | inl t ↦
      let q : r.model ≡ m = ground (arith, t) in
      rw t ((λ j. fresh (subst (λ x. In x (models_of ranges)) (sym q) j)), h)
  | inr f ↦ rw f (
    (λ j. elim (models-add r.model m k ranges j) [
      | inl e ↦ absurd (ground (arith, f, e))
      | inr q ↦ fresh q
    ]),
    add-Distinct m k ranges h,
  )
]

pub find-In :
    (m : ℕ) (r : Range) (ranges : List Range)
    → find_range m ranges ≡ some r
    → In m (models_of ranges)
find-In m r [] e = absurd (cc e)
find-In m r (y ∷ ranges) e = elim (same_or_other y.model m) [
  | inl q ↦ inl (sym q)
  | inr ne ↦ inr (find-In m r ranges (rw (==_ne y.model m ne) at e))
]

swap_or : {A B C D : Type 0} → (D ↔ (A ⊎ C)) → (B ⊎ D) ↔ (A ⊎ B ⊎ C)
swap_or h = (there h.0, back h.1)
  where
    there : {A B C D : Type 0} → (D → A ⊎ C) → B ⊎ D → A ⊎ B ⊎ C
    there f (inl b) = inr (inl b)
    there f (inr d) = elim (f d) [ inl a ↦ inl a | inr c ↦ inr (inr c) ]

    back : {A B C D : Type 0} → (A ⊎ C → D) → A ⊎ B ⊎ C → B ⊎ D
    back g (inl a) = inr (g (inl a))
    back g (inr (inl b)) = inl b
    back g (inr (inr c)) = inr (g (inr c))

insert-In : (m x : ℕ) (xs : List ℕ) → In x (insert_model m xs) ↔ ((x ≡ m) ⊎ In x xs)
unfolding insert_model
insert-In m x [] = ((λ h. h), λ h. h)
insert-In m x (y ∷ xs) = elim (Bool-cases (leb m y)) [
  | inl t ↦ rw t ((λ h. h), λ h. h)
  | inr f ↦ rw f (swap_or (insert-In m x xs))
]

abbrev pub Straddles : ℕ → List Range → Type 0
Straddles m ranges = (r : Range) × (find_range m ranges ≡ some r) × (r.low ≢ r.high)

==_refl_of : (a b : ℕ) → b ≡ a → (a == b) ≡ true
==_refl_of a b e = ground (arith, e)

if-straddling :
    (x m : ℕ) (c : Bool) (ms : List ℕ)
    → In x (if c then ms else insert_model m ms) ↔ (((c ≡ false) × (x ≡ m)) ⊎ In x ms)
if-straddling x m true ms = ((λ h. inr h), λ h. elim h [ inl (e, q) ↦ absurd (cc e) | inr k ↦ k ])
if-straddling x m false ms = (
  (λ h. elim ((insert-In m x ms).0 h) [ inl e ↦ inl (refl, e) | inr k ↦ inr k ]),
  λ h. (insert-In m x ms).1 (elim h [ inl (e, q) ↦ inl q | inr k ↦ inr k ]),
)

-- The models that are listed are those whose range is not a single stratum.
pub straddling-Straddles :
    (m : ℕ) (ranges : List Range) → Distinct ranges → In m (straddling ranges) → Straddles m ranges
unfolding straddling
straddling-Straddles m [] d h = absurd h
straddling-Straddles m (r ∷ ranges) (fresh, d) h =
    elim ((if-straddling m r.model (r.low == r.high) (straddling ranges)).0 h) [
      | inl (f, e) ↦ (r, rw (==_refl_of r.model m e) refl, λ q. absurd (ground (arith, f, q)))
      | inr k ↦
          let (y, g, ne) = straddling-Straddles m ranges d k in
          elim (same_or_other r.model m) [
            | inl q ↦
                absurd (fresh (subst (λ x. In x (models_of ranges)) (sym q) (find-In m y ranges g)))
            | inr o ↦ (y, rw (==_ne r.model m o) g, ne)
          ]
    ]

pub Straddles-straddling :
    (m : ℕ) (ranges : List Range) → Straddles m ranges → In m (straddling ranges)
unfolding straddling
Straddles-straddling m [] (y, g, ne) = absurd (cc g)
Straddles-straddling m (r ∷ ranges) (y, g, ne) =
    (if-straddling m r.model (r.low == r.high) (straddling ranges)).1
      (elim (same_or_other r.model m) [
        | inl q ↦
            let e : r ≡ y = cc (rw (==_refl_of r.model m (sym q)) at g) in
            let o = subst (λ (x : Range). x.low ≢ x.high) (sym e) ne in
            inl (==_ne r.low r.high o, sym q)
        | inr o ↦ inr (Straddles-straddling m ranges (y, rw (==_ne r.model m o) at g, ne))
      ])
