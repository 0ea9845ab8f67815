-- ===== src/DataFlow/Stratify/Rejects.antt =====
-- The errors of the whole pass, and the derivation class of an edge into a data model.
use dr_lojekyll.Prelude.{
  ℕ, zero, suc, ◌+◌, ◌<◌, ◌≡◌, ◌↔◌, refl, ap, subst, ◌∙◌, sym, inl, inr, Option, some, List, [],
  ◌∷◌, ◌++◌, get_elem?, get_elem?-lt, length, arith,
}
use dr_lojekyll.DataFlow.Stratify.Reaches.{In}
use dr_lojekyll.DataFlow.Stratify.Pass.{
  Kind, View, Message, reject_negation, reject_aggregate, reject_kv_index, reject_all, stratify,
}
use dr_lojekyll.DataFlow.Stratify.Edges.{Edge, Depends}
use dr_lojekyll.DataFlow.Stratify.Condensation.{same_stratum_iff}
use dr_lojekyll.DataFlow.Stratify.Errors.{
  Reported, awaits, Reported-append, Reported-left, Reported-right, Meets, negation-Meets,
  aggregate-Meets, kv_index-Meets, Meets-Reported,
}

-- What a loop over the views reports is about the view that it is at.
abbrev Rejected : (ℕ → View → List Message) → ℕ → ℕ → List View → Type 0
Rejected reject x i views =
    (k : ℕ) × (x ≡ i + k) × (w : View) × (get_elem? views k ≡ some w) × Reported x (reject x w)

module _ (reject : ℕ → View → List Message)
    (own : (x i : ℕ) (w : View) → Reported x (reject i w) → x ≡ i) where
  Rejected-next :
      (x i : ℕ) (w : View) (views : List View)
      → Rejected reject x (i + 1) views
      → Rejected reject x i (w ∷ views)
  Rejected-next x i w views (k, e, y, g, h) = (suc k, omega (arith, e), y, g, h)

  reject_all-Rejected :
      (x i : ℕ) (views : List View)
      → Reported x (reject_all reject i views)
      → Rejected reject x i views
  unfolding reject_all
  reject_all-Rejected x i [] h = absurd h
  reject_all-Rejected x i (w ∷ views) h =
      elim (Reported-append x (reject i w) (reject_all reject (i + 1) views) h) [
        | inl m ↦
            let e = own x i w m in
            (0, omega (arith, e), w, refl, subst (λ j. Reported x (reject j w)) (sym e) m)
        | inr m ↦ Rejected-next x i w views (reject_all-Rejected x (i + 1) views m)
      ]

module _ (reject : ℕ → View → List Message) where
  Rejected-reject_all :
      (i k : ℕ) (w : View) (views : List View)
      → get_elem? views k ≡ some w
      → Reported (i + k) (reject (i + k) w)
      → Reported (i + k) (reject_all reject i views)
  unfolding reject_all
  Rejected-reject_all i k w [] g h = absurd (cc g)
  Rejected-reject_all i zero w (y ∷ views) g h =
      let q : w ≡ y = cc g in
      let z : i + 0 ≡ i = omega arith in
      Reported-left (i + 0) (reject i y) (reject_all reject (i + 1) views) (
        subst (λ j. Reported (i + 0) (reject j y)) z
          (subst (λ u. Reported (i + 0) (reject (i + 0) u)) q h))
  Rejected-reject_all i (suc k) w (y ∷ views) g h =
      let z : i + 1 + k ≡ i + suc k = omega arith in
      Reported-right (i + suc k) (reject i y) (reject_all reject (i + 1) views) (
        subst (λ j. Reported j (reject_all reject (i + 1) views)) z
          (Rejected-reject_all (i + 1) k w views g
            (subst (λ j. Reported j (reject j w)) (sym z) h)))

-- A view that needs `u` complete, where `u` depends on the view.
abbrev pub Unstratified : List View → ℕ → Type 0
Unstratified views v =
    (w : View) × (u : ℕ) × (get_elem? views v ≡ some w)
    × In u (awaits w.kind w.predecessors)
    × (u < length views)
    × Depends views u v

-- A view that is awaited is an edge.
awaits-Edge :
    (views : List View) (v u : ℕ) (w : View) (k : Kind) (us : List ℕ)
    → get_elem? views v ≡ some w
    → w.kind ≡ k
    → w.predecessors ≡ us
    → In u (awaits k us)
    → u < length views
    → Edge views v u
awaits-Edge views v u w (Kind.negation y ps) us g e p (inl q) lt =
    Edge.absence v u w ps g (e ∙ ap (λ z. Kind.negation z ps) (sym q)) lt
awaits-Edge views v u w (Kind.negation y ps) us g e p (inr h) lt = absurd h
awaits-Edge views v u w Kind.aggregate us g e p h lt =
    Edge.column v u w g (subst (In u) (sym p) h) lt
awaits-Edge views v u w Kind.kv_index us g e p h lt =
    Edge.column v u w g (subst (In u) (sym p) h) lt
awaits-Edge views v u w Kind.other us g e p h lt = absurd h

module _ (views : List View) where
  abbrev stratum : ℕ → Option ℕ
  stratum = (stratify views).stratum

  abbrev negations : ℕ → View → List Message
  negations v w = reject_negation stratum v w.kind

  abbrev aggregates : ℕ → View → List Message
  aggregates v w = reject_aggregate stratum v w.kind w.predecessors

  abbrev kv_indices : ℕ → View → List Message
  kv_indices v w = reject_kv_index stratum v w.kind w.predecessors

  errors_eq :
      (stratify views).errors
      ≡ reject_all negations 0 views
        ++ (reject_all aggregates 0 views ++ reject_all kv_indices 0 views)
  unfolding stratify
  errors_eq = refl

  Meets-Unstratified :
      (v : ℕ) (w : View)
      → get_elem? views v ≡ some w
      → Meets stratum v (awaits w.kind w.predecessors)
      → Unstratified views v
  Meets-Unstratified v w g (u, h, t) =
      let (lt, d, c) = (same_stratum_iff views v u (get_elem?-lt views v g)).0 t in
      (w, u, g, h, lt, c)

  -- A loop whose reports come from what meets its own stratum.
  loop-Unstratified :
      (reject : ℕ → View → List Message)
      → ((x i : ℕ) (w : View)
          → Reported x (reject i w)
          → (x ≡ i) × Meets stratum i (awaits w.kind w.predecessors))
      → (v : ℕ) → Reported v (reject_all reject 0 views)
      → Unstratified views v
  loop-Unstratified reject meets v h =
      let (k, e, w, g, m) = reject_all-Rejected reject (λ x i y r. (meets x i y r).0) v 0 views h in
      let q : k ≡ v = omega (arith, e) in
      Meets-Unstratified v w (ap (get_elem? views) (sym q) ∙ g) (meets v v w m).1

  errors-Unstratified : (v : ℕ) → Reported v (stratify views).errors → Unstratified views v
  errors-Unstratified v h =
      let ns = reject_all negations 0 views in
      let gs = reject_all aggregates 0 views in
      let ks = reject_all kv_indices 0 views in
      elim (Reported-append v ns (gs ++ ks) (subst (Reported v) errors_eq h)) [
        | inl a ↦
            loop-Unstratified negations (λ x i w. negation-Meets stratum i x w.kind w.predecessors)
              v a
        | inr b ↦ elim (Reported-append v gs ks b) [
          | inl a ↦
              loop-Unstratified aggregates
                (λ x i w. aggregate-Meets stratum i x w.kind w.predecessors) v a
          | inr c ↦
              loop-Unstratified kv_indices
                (λ x i w. kv_index-Meets stratum i x w.kind w.predecessors) v c
        ]
      ]

  in_loop :
      (reject : ℕ → View → List Message) (v : ℕ) (w : View)
      → get_elem? views v ≡ some w
      → Reported v (reject v w)
      → Reported v (reject_all reject 0 views)
  in_loop reject v w g h =
      let z : v ≡ 0 + v = omega arith in
      subst (λ j. Reported j (reject_all reject 0 views)) (sym z)
        (Rejected-reject_all reject 0 v w views g (subst (λ j. Reported j (reject j w)) z h))

  Unstratified-errors : (v : ℕ) → Unstratified views v → Reported v (stratify views).errors
  Unstratified-errors v (w, u, g, h, lt, c) =
      let ns = reject_all negations 0 views in
      let gs = reject_all aggregates 0 views in
      let ks = reject_all kv_indices 0 views in
      let edge = awaits-Edge views v u w w.kind w.predecessors g refl refl h lt in
      let t =
        (same_stratum_iff views v u (get_elem?-lt views v g)).1
          (lt, Depends.through v u u edge (Depends.self u), c) in
      subst (Reported v) (sym errors_eq)
        (elim (Meets-Reported stratum v w.kind w.predecessors (u, h, t)) [
          | inl m ↦ Reported-left v ns (gs ++ ks) (in_loop negations v w g m)
          | inr r ↦ Reported-right v ns (gs ++ ks) (elim r [
            | inl m ↦ Reported-left v gs ks (in_loop aggregates v w g m)
            | inr m ↦ Reported-right v gs ks (in_loop kv_indices v w g m)
          ])
        ])

  -- The pass reports an error about a view exactly if it is a live NEGATE whose negated view, or
  -- an AGGREGATE or KVINDEX one of whose predecessors, is live and depends on that view itself.
  pub stratify-errors_iff : (v : ℕ) → Reported v (stratify views).errors ↔ Unstratified views v
  stratify-errors_iff v = (errors-Unstratified v, Unstratified-errors v)
