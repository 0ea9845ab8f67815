-- ===== src/DataFlow/Stratify/Popped.antt =====
-- What popping up to a view does to the views of the stack.
use dr_lojekyll.Prelude.{
  ℕ, ◌<◌, ◌≤◌, ◌≡◌, ◌≢◌, refl, ap, subst, ◌∙◌, inl, inr, Bool, true, false, Option, some, List, [],
  ◌∷◌, arith, if◌then◌else◌, ◌==◌,
}
use dr_lojekyll.DataFlow.Stratify.{Walk, pop_component, store}
use dr_lojekyll.DataFlow.Stratify.Reaches.{In}
use dr_lojekyll.DataFlow.Stratify.Stored.{store_same, store_other, differ_lt}
use dr_lojekyll.DataFlow.Stratify.Invariant.{Below}

pub Below-In :
    (index : ℕ → Option ℕ) (b x : ℕ) (xs : List ℕ)
    → Below index b xs
    → In x xs
    → (j : ℕ) × (index x ≡ some j) × (j < b)
Below-In index b x [] h k = absurd k
Below-In index b x (y ∷ xs) (j, e, lt, h) (inl q) = (j, ap index q ∙ e, lt)
Below-In index b x (y ∷ xs) (j, e, lt, h) (inr k) =
    let (i, f, less) = Below-In index j x xs h k in (i, f, omega arith)

pub Below-mono :
    (index : ℕ → Option ℕ) (b c : ℕ) (xs : List ℕ) → b ≤ c → Below index b xs → Below index c xs
Below-mono index b c [] le h = h
Below-mono index b c (y ∷ xs) le (j, e, lt, h) = (j, e, omega arith, h)

pub record Pops (s t : Walk) (stack : List ℕ) (i : ℕ) : Type 0 where
  pub index : t.index ≡ s.index
  pub lowlink : t.lowlink ≡ s.lowlink
  pub next_index : t.next_index ≡ s.next_index
  pub next_stratum : t.next_stratum ≡ s.next_stratum
  pub frames : t.frames ≡ s.frames
  pub falling : Below s.index i t.scc_stack
  pub subset : (u : ℕ) → In u t.scc_stack → In u stack
  pub kept : (u j : ℕ) → In u stack → s.index u ≡ some j → j < i → In u t.scc_stack
  pub below :
      (u j : ℕ)
      → s.index u ≡ some j
      → j < i
      → (t.on_stack u ≡ s.on_stack u) × (t.stratum u ≡ s.stratum u)
  pub popped :
      (u j : ℕ)
      → In u stack
      → s.index u ≡ some j
      → i ≤ j
      → (t.on_stack u ≡ false) × (t.stratum u ≡ some s.next_stratum)
  pub outside : (u : ℕ) → ¬ In u stack → (t.on_stack u ≡ s.on_stack u) × (t.stratum u ≡ s.stratum u)

if-Pops :
    (c : Bool) (s a b : Walk) (stack : List ℕ) (i : ℕ)
    → (c ≡ true → Pops s a stack i)
    → (c ≡ false → Pops s b stack i)
    → Pops s (if c then a else b) stack i
if-Pops true s a b stack i h k = h refl
if-Pops false s a b stack i h k = k refl

abbrev pop_one : ℕ → List ℕ → Walk → Walk
pop_one w stack s = record s {
  on_stack = store w false s.on_stack;
  stratum = store w (some s.next_stratum) s.stratum;
  scc_stack = stack;
}

module _ (s : Walk) (w : ℕ) (stack : List ℕ) where
  one_other :
      (u : ℕ)
      → u ≢ w
      → ((pop_one w stack s).on_stack u ≡ s.on_stack u)
        × ((pop_one w stack s).stratum u ≡ s.stratum u)
  one_other u ne =
      (store_other w u false s.on_stack ne, store_other w u (some s.next_stratum) s.stratum ne)

  one_same :
      (u : ℕ)
      → u ≡ w
      → ((pop_one w stack s).on_stack u ≡ false)
        × ((pop_one w stack s).stratum u ≡ some s.next_stratum)
  one_same u e = (
    ap (store w false s.on_stack) e ∙ store_same w false s.on_stack,
    ap (store w (some s.next_stratum) s.stratum) e ∙ store_same w (some s.next_stratum) s.stratum,
  )

  last-Pops :
      (i : ℕ)
      → s.index w ≡ some i
      → Below s.index i stack
      → Pops s (pop_one w stack s) (w ∷ stack) i
  last-Pops i at h = record {
    index = refl;
    lowlink = refl;
    next_index = refl;
    next_stratum = refl;
    frames = refl;
    falling = h;
    subset = λ u k. inr k;
    kept = λ u j k e lt. elim k [
      | inl q ↦ absurd (differ_lt s.index u w i j at e (omega arith) q)
      | inr m ↦ m
    ];
    below = λ u j e lt. one_other u (differ_lt s.index u w i j at e (omega arith));
    popped = λ u j k e le. elim k [
      | inl q ↦ one_same u q
      | inr m ↦
          let (l, f, less) = Below-In s.index i u stack h m in
          let q : j ≡ l = cc (e, f) in absurd (omega (arith, q))
    ];
    outside = λ u no. one_other u (λ q. no (inl q));
  }

  more-Pops :
      (t : Walk) (i jw : ℕ)
      → s.index w ≡ some jw
      → i < jw
      → Below s.index jw stack
      → Pops (pop_one w stack s) t stack i
      → Pops s t (w ∷ stack) i
  more-Pops t i jw at less falls h = record {
    index = h.index;
    lowlink = h.lowlink;
    next_index = h.next_index;
    next_stratum = h.next_stratum;
    frames = h.frames;
    falling = h.falling;
    subset = λ u k. inr (h.subset u k);
    kept = λ u j k e lt. elim k [
      | inl q ↦ absurd (differ_lt s.index u w jw j at e (omega arith) q)
      | inr m ↦ h.kept u j m e lt
    ];
    below = λ u j e lt.
        let o = one_other u (differ_lt s.index u w jw j at e (omega arith)) in
        let b = h.below u j e lt in (b.0 ∙ o.0, b.1 ∙ o.1);
    popped = λ u j k e le. elim k [
      | inl q ↦
          let o = one_same u q in
          let b = h.outside u (λ m.
            let (l, f, lt) = Below-In s.index jw u stack falls m in
            let k : l ≡ jw = cc (at, f, ap s.index q) in omega (arith, k)) in
          (b.0 ∙ o.0, b.1 ∙ o.1)
      | inr m ↦ h.popped u j m e le
    ];
    outside = λ u no.
        let o = one_other u (λ q. no (inl q)) in
        let b = h.outside u (λ m. no (inr m)) in (b.0 ∙ o.0, b.1 ∙ o.1);
  }

pub pop_component-Pops :
    (v i b : ℕ) (stack : List ℕ) (s : Walk)
    → s.index v ≡ some i
    → In v stack
    → Below s.index b stack
    → Pops s (pop_component v stack s) stack i
unfolding pop_component
pop_component-Pops v i b [] s at k h = absurd k
pop_component-Pops v i b (w ∷ stack) s at k (j, e, lt, h) =
    if-Pops (w == v) s (pop_one w stack s) (pop_component v stack (pop_one w stack s)) (w ∷ stack) i
      (λ t.
        let q : w ≡ v = ground (arith, t) in
        let l : j ≡ i = cc (at, e, ap s.index q) in
        last-Pops s w stack i (ap s.index q ∙ at) (subst (λ n. Below s.index n stack) l h))
      (λ f. elim k [
        | inl q ↦ absurd (ground (arith, f, q))
        | inr m ↦
            let (l, g, less) = Below-In s.index j v stack h m in
            let q : l ≡ i = cc (at, g) in
            more-Pops s w stack (pop_component v stack (pop_one w stack s)) i j e (omega (arith, q))
              h (pop_component-Pops v i j stack (pop_one w stack s) at m h)
      ])
