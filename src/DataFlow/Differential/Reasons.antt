-- ===== src/DataFlow/Differential/Reasons.antt =====
-- Why a view receives or produces deletions, and that the pass sets a flag only for a reason.
use dr_lojekyll.Prelude.{
  ℕ, zero, suc, ◌+◌, ◌≡◌, refl, sym, ap, subst, ◌⊎◌, inl, inr, Bool, true, false, ◌||◌, some, List,
  [], ◌∷◌, map, get_elem?, set, arith, if◌then◌else◌, Bool-cases, Option-cases,
}
use dr_lojekyll.DataFlow.Differential.{
  Negate, View, Marks, seam, is_set, is_unset, raise_receive, raise_produce, raise_all,
  report_never, visit_negate, visit_negation, visit_receive, visit_produce, visit, sweep,
  start_marks, rounds, track_updates,
}
use dr_lojekyll.DataFlow.Differential.Seams.{seam-Reads}

pub data Direction : Type 0 where
  receive : Direction
  produce : Direction

-- The reasons: a `@differential` message, churn of a summary, a negation without `@never`, what a view
-- receives it produces, and what it produces the SELECTs of its declaration and its users receive.
pub data Reason (views : List View) : Direction → ℕ → Type 0 where
  message :
      (d : Direction) (v : ℕ) (w : View)
      → get_elem? views v ≡ some w
      → w.receives_differential ≡ true
      → Reason views d v
  churn :
      (v : ℕ) (w : View)
      → get_elem? views v ≡ some w
      → w.churns ≡ true
      → Reason views Direction.produce v
  negation :
      (v : ℕ) (w : View) (n : Negate)
      → get_elem? views v ≡ some w
      → w.negate ≡ some n
      → n.is_never ≡ false
      → Reason views Direction.produce v
  forward : (v : ℕ) → Reason views Direction.receive v → Reason views Direction.produce v
  across :
      (v u d : ℕ) (w x : View)
      → get_elem? views v ≡ some w
      → get_elem? views u ≡ some x
      → w.writes ≡ some d
      → x.reads ≡ some d
      → Reason views Direction.produce v
      → Reason views Direction.receive u
  use_of :
      (v i u : ℕ) (w : View)
      → get_elem? views v ≡ some w
      → Reason views Direction.produce v
      → get_elem? w.users i ≡ some u
      → Reason views Direction.receive u

-- Each flag that is set has a reason.
pub record IsSound (views : List View) (s : Marks) : Type 0 where
  pub received : (v : ℕ) → is_set v s.can_receive ≡ true → Reason views Direction.receive v
  pub produced : (v : ℕ) → is_set v s.can_produce ≡ true → Reason views Direction.produce v

is_set-set :
    (v u : ℕ) (bs : List Bool) → is_set u (set bs v true) ≡ true → (u ≡ v) ⊎ (is_set u bs ≡ true)
unfolding is_set
is_set-set v u [] h = absurd (cc h)
is_set-set zero zero (b ∷ bs) h = inl refl
is_set-set zero (suc u) (b ∷ bs) h = inr h
is_set-set (suc v) zero (b ∷ bs) h = inr h
is_set-set (suc v) (suc u) (b ∷ bs) h = elim (is_set-set v u bs h) [
  | inl e ↦ inl (ap suc e)
  | inr k ↦ inr k
]

is_set-map :
    (p : View → Bool) (ws : List View) (v : ℕ)
    → is_set v (map p ws) ≡ true
    → (w : View) × (get_elem? ws v ≡ some w) × (p w ≡ true)
unfolding is_set
is_set-map p [] v e = absurd (cc e)
is_set-map p (w ∷ ws) zero e = (w, refl, e)
is_set-map p (w ∷ ws) (suc v) e = is_set-map p ws v e

module _ (views : List View) where
  set_sound :
      (d : Direction) (v : ℕ) (bs : List Bool)
      → Reason views d v
      → ((u : ℕ) → is_set u bs ≡ true → Reason views d u)
      → (u : ℕ) → is_set u (set bs v true) ≡ true
      → Reason views d u
  set_sound d v bs r h u e = elim (is_set-set v u bs e) [
    | inl q ↦ subst (Reason views d) (sym q) r
    | inr k ↦ h u k
  ]

  if-IsSound :
      (b : Bool) (s t : Marks)
      → (b ≡ true → IsSound views s)
      → (b ≡ false → IsSound views t)
      → IsSound views (if b then s else t)
  if-IsSound true s t h k = h refl
  if-IsSound false s t h k = k refl

  raise_receive-IsSound :
      (v : ℕ) (s : Marks)
      → Reason views Direction.receive v
      → IsSound views s
      → IsSound views (raise_receive v s)
  unfolding raise_receive
  raise_receive-IsSound v s r h = elim (Bool-cases (is_unset v s.can_receive)) [
    | inr f ↦ rw (f, raise_receive) h
    | inl t ↦
        rw (t, raise_receive)
          (record {
            received = set_sound Direction.receive v s.can_receive r h.received;
            produced = h.produced;
          })
  ]

  raise_produce-IsSound :
      (v : ℕ) (s : Marks)
      → Reason views Direction.produce v
      → IsSound views s
      → IsSound views (raise_produce v s)
  unfolding raise_produce
  raise_produce-IsSound v s r h = elim (Bool-cases (is_unset v s.can_produce)) [
    | inr f ↦ rw (f, raise_produce) h
    | inl t ↦
        rw (t, raise_produce)
          (record {
            received = h.received;
            produced = set_sound Direction.produce v s.can_produce r h.produced;
          })
  ]

  raise_all-IsSound :
      (vs : List ℕ) (s : Marks)
      → ((i u : ℕ) → get_elem? vs i ≡ some u → Reason views Direction.receive u)
      → IsSound views s
      → IsSound views (raise_all vs s)
  unfolding raise_all
  raise_all-IsSound [] s r h = h
  raise_all-IsSound (v ∷ vs) s r h =
      raise_all-IsSound vs (raise_receive v s) (λ i u e. r (suc i) u e)
        (raise_receive-IsSound v s (r 0 v refl) h)

  visit_receive-IsSound : (v : ℕ) (s : Marks) → IsSound views s → IsSound views (visit_receive v s)
  unfolding visit_receive
  visit_receive-IsSound v s h = elim (Bool-cases (is_set v s.can_receive)) [
    | inr f ↦ rw (f, visit_receive) h
    | inl t ↦
        rw (t, visit_receive) (raise_produce-IsSound v s (Reason.forward v (h.received v t)) h)
  ]

  visit_produce-IsSound :
      (v : ℕ) (us : List ℕ) (s : Marks)
      → (Reason views Direction.produce v
          → (i u : ℕ) → get_elem? us i ≡ some u
          → Reason views Direction.receive u)
      → IsSound views s
      → IsSound views (visit_produce v us s)
  unfolding visit_produce
  visit_produce-IsSound v us s r h = elim (Bool-cases (is_set v s.can_produce)) [
    | inr f ↦ rw (f, visit_produce) h
    | inl t ↦ rw (t, visit_produce) (raise_all-IsSound us s (r (h.produced v t)) h)
  ]

  report_never-IsSound :
      (n : Negate) (s : Marks) → IsSound views s → IsSound views (report_never n s)
  unfolding report_never
  report_never-IsSound n s h = elim (Bool-cases (is_set n.negated_view s.can_produce)) [
    | inr f ↦ rw (f, report_never) h
    | inl t ↦ rw (t, report_never) (record { received = h.received; produced = h.produced })
  ]

  visit_negate-IsSound :
      (v : ℕ) (w : View) (n : Negate) (s : Marks)
      → get_elem? views v ≡ some w
      → w.negate ≡ some n
      → IsSound views s
      → IsSound views (visit_negate v n s)
  unfolding visit_negate visit_receive
  visit_negate-IsSound v w n s g e h =
      if-IsSound n.is_never (report_never n (visit_receive v s)) (raise_produce v s)
        (λ t. report_never-IsSound n (visit_receive v s) (visit_receive-IsSound v s h))
        (λ f. raise_produce-IsSound v s (Reason.negation v w n g e f) h)

  visit_negation-IsSound :
      (v : ℕ) (w : View) (s : Marks)
      → get_elem? views v ≡ some w
      → IsSound views s
      → IsSound views (visit_negation v w s)
  unfolding visit_negation
  visit_negation-IsSound v w s g h = elim (Bool-cases (is_set v s.can_produce)) [
    | inl t ↦ rw (t, visit_negation) h
    | inr f ↦ elim (Option-cases w.negate) [
      | inl e ↦ rw (f, visit_negation, e) h
      | inr (n, e) ↦ rw (f, visit_negation, e) (visit_negate-IsSound v w n s g e h)
    ]
  ]

  across_seam :
      (v : ℕ) (w : View)
      → get_elem? views v ≡ some w
      → Reason views Direction.produce v
      → (i u : ℕ) → get_elem? (seam views w) i ≡ some u
      → Reason views Direction.receive u
  across_seam v w g r i u e =
      let (d, x, at, q, t) = seam-Reads views w i u e in Reason.across v u d w x g at q t r

  visit-IsSound :
      (v : ℕ) (w : View) (s : Marks)
      → get_elem? views v ≡ some w
      → IsSound views s
      → IsSound views (visit views v w s)
  unfolding visit
  visit-IsSound v w s g h =
      visit_produce-IsSound v w.users _ (λ r i u e. Reason.use_of v i u w g r e)
        (visit_produce-IsSound v (seam views w) _ (across_seam v w g)
          (visit_receive-IsSound v _ (visit_negation-IsSound v w s g h)))

  -- The views from place `v` on.
  abbrev pub StandsFrom : ℕ → List View → Type 0
  StandsFrom v ws = (i : ℕ) (w : View) → get_elem? ws i ≡ some w → get_elem? views (v + i) ≡ some w

  pub StandsFrom-tail :
      (v : ℕ) (w : View) (ws : List View) → StandsFrom v (w ∷ ws) → StandsFrom (v + 1) ws
  StandsFrom-tail v w ws h i x e =
      let q : v + suc i ≡ v + 1 + i = omega arith in
      subst (λ n. get_elem? views n ≡ some x) q (h (suc i) x e)

  pub StandsFrom-head :
      (v : ℕ) (w : View) (ws : List View) → StandsFrom v (w ∷ ws) → get_elem? views v ≡ some w
  StandsFrom-head v w ws h =
      let q : v + 0 ≡ v = omega arith in subst (λ n. get_elem? views n ≡ some w) q (h 0 w refl)

  pub StandsFrom-all : StandsFrom 0 views
  StandsFrom-all i w e =
      let q : i ≡ 0 + i = omega arith in subst (λ n. get_elem? views n ≡ some w) q e

  sweep-IsSound :
      (v : ℕ) (ws : List View) (s : Marks)
      → StandsFrom v ws
      → IsSound views s
      → IsSound views (sweep views v ws s)
  unfolding sweep
  sweep-IsSound v [] s g h = h
  sweep-IsSound v (w ∷ ws) s g h =
      sweep-IsSound (v + 1) ws (visit views v w s) (StandsFrom-tail v w ws g)
        (visit-IsSound v w s (StandsFrom-head v w ws g) h)

  rounds-IsSound : (fuel : ℕ) (s : Marks) → IsSound views s → IsSound views (rounds fuel views s)
  unfolding rounds
  rounds-IsSound zero s h = h
  rounds-IsSound (suc fuel) s h =
      if-IsSound _ _ _
        (λ t. rounds-IsSound fuel _ (
          sweep-IsSound 0 views (record s { changed = false }) StandsFrom-all
            (record { received = h.received; produced = h.produced })))
        (λ f. h)

  start-IsSound : (num_errors : ℕ) → IsSound views (start_marks num_errors views)
  unfolding start_marks
  start-IsSound num_errors = record {
    received = λ v e.
        let k = is_set-map (λ w. w.receives_differential) views v e in
        Reason.message Direction.receive v k.0 k.1 k.2;
    produced = λ v e.
        let k = is_set-map (λ w. w.receives_differential || w.churns) views v e in
        elim (Bool-cases k.0.receives_differential) [
          | inl t ↦ Reason.message Direction.produce v k.0 k.1 t
          | inr f ↦ Reason.churn v k.0 k.1 (rw f at k.2)
        ];
  }

  pub track_updates-IsSound : (num_errors : ℕ) → IsSound views (track_updates num_errors views)
  unfolding track_updates
  track_updates-IsSound num_errors = rounds-IsSound _ _ (start-IsSound num_errors)
