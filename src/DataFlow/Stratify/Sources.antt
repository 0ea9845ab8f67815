-- ===== src/DataFlow/Stratify/Sources.antt =====
-- The lists of sources hold the edges, so that reaching is depending.
use dr_lojekyll.Prelude.{
  ℕ, ◌+◌, ◌<◌, ◌≡◌, refl, ap, subst, ◌∙◌, sym, inl, inr, none, some, List, [], ◌++◌, get_elem?,
  get_elem?-lt, length, arith, Option-cases,
}
use dr_lojekyll.DataFlow.Stratify.Reaches.{Reaches, In}
use dr_lojekyll.DataFlow.Stratify.Pass.{
  Kind, View, live, negated_views, inserts_of, seam_sources, view_sources, sources_of,
}
use dr_lojekyll.DataFlow.Stratify.Edges.{
  Edge, Depends, In-append, In-left, In-right, get-In, In-get, live-In, In-live, inserts-In,
  In-inserts,
}

sources_of_view :
    (views : List View) (v : ℕ) (w : View)
    → get_elem? views v ≡ some w
    → sources_of views v ≡ view_sources views w
unfolding sources_of
sources_of_view views v w e = rw (e, sources_of) refl

sources_of-none : (views : List View) (v : ℕ) → get_elem? views v ≡ none → sources_of views v ≡ []
unfolding sources_of
sources_of-none views v e = rw (e, sources_of) refl

seam_sources_eq :
    (views : List View) (w : View) (d : ℕ)
    → w.reads ≡ some d
    → seam_sources views w ≡ inserts_of d 0 views
unfolding seam_sources
seam_sources_eq views w d e = rw (e, seam_sources) refl

seam_sources-none : (views : List View) (w : View) → w.reads ≡ none → seam_sources views w ≡ []
unfolding seam_sources
seam_sources-none views w e = rw (e, seam_sources) refl

-- Only a NEGATE reads an absence.
negated-In : (k : Kind) (u : ℕ) → In u (negated_views k) → (ps : List ℕ) × (k ≡ Kind.negation u ps)
negated-In (Kind.negation y ps) u (inl e) = (ps, ap (λ z. Kind.negation z ps) (sym e))
negated-In (Kind.negation y ps) u (inr h) = absurd h
negated-In Kind.aggregate u h = absurd h
negated-In Kind.kv_index u h = absurd h
negated-In Kind.other u h = absurd h

module _ (views : List View) (v u : ℕ) (w : View) (at : get_elem? views v ≡ some w) where
  seam-Edge : In u (seam_sources views w) → Edge views v u
  seam-Edge h = elim (Option-cases w.reads) [
    | inl e ↦ absurd (subst (In u) (seam_sources-none views w e) h)
    | inr (d, e) ↦
        let (k, p, x, g, q) =
          inserts-In d 0 u views (subst (In u) (seam_sources_eq views w d e) h) in
        let r : k ≡ u = omega (arith, p) in
        Edge.seam v u d w x at (ap (get_elem? views) (sym r) ∙ g) e q
  ]

  view-Edge : In u (view_sources views w) → Edge views v u
  unfolding view_sources
  view-Edge h =
      let n = length views in
      let us = live n (negated_views w.kind) in
      elim (In-append u (live n w.predecessors) (us ++ seam_sources views w) h) [
        | inl a ↦ let (k, lt) = live-In n u w.predecessors a in Edge.column v u w at k lt
        | inr b ↦ elim (In-append u us (seam_sources views w) b) [
          | inl a ↦
              let (h, lt) = live-In n u (negated_views w.kind) a in
              let (ps, k) = negated-In w.kind u h in Edge.absence v u w ps at k lt
          | inr c ↦ seam-Edge c
        ]
      ]

source-Edge : (views : List View) (v u : ℕ) → In u (sources_of views v) → Edge views v u
source-Edge views v u h = elim (Option-cases (get_elem? views v)) [
  | inl e ↦ absurd (subst (In u) (sources_of-none views v e) h)
  | inr (w, e) ↦ view-Edge views v u w e (subst (In u) (sources_of_view views v w e) h)
]

Edge-source : (views : List View) (v u : ℕ) → Edge views v u → In u (sources_of views v)
unfolding view_sources
Edge-source views _ _ (Edge.column v u w at k lt) =
    let n = length views in
    let us = live n (negated_views w.kind) in
    subst (In u) (sym (sources_of_view views v w at)) (
      In-left u (live n w.predecessors) (us ++ seam_sources views w)
        (In-live n u w.predecessors k lt))
Edge-source views _ _ (Edge.absence v u w ps at k lt) =
    let n = length views in
    let h : In u (negated_views w.kind) =
      subst (λ (kind : Kind). In u (negated_views kind)) (sym k) (inl refl) in
    let us = live n (negated_views w.kind) in
    subst (In u) (sym (sources_of_view views v w at)) (
      In-right u (live n w.predecessors) (us ++ seam_sources views w)
        (In-left u us (seam_sources views w) (In-live n u (negated_views w.kind) h lt)))
Edge-source views _ _ (Edge.seam v u d w x at g e q) =
    let n = length views in
    let us = live n (negated_views w.kind) in
    let z : 0 + u ≡ u = omega arith in
    subst (In u) (sym (sources_of_view views v w at)) (
      In-right u (live n w.predecessors) (us ++ seam_sources views w) (
        In-right u us (seam_sources views w) (
          subst (In u) (sym (seam_sources_eq views w d e))
            (subst (λ m. In m (inserts_of d 0 views)) z (In-inserts d 0 u views x g q)))))

pub Edge-bound : (views : List View) (v u : ℕ) → Edge views v u → u < length views
Edge-bound views _ _ (Edge.column v u w at k lt) = lt
Edge-bound views _ _ (Edge.absence v u w ps at k lt) = lt
Edge-bound views _ _ (Edge.seam v u d w x at g e q) = get_elem?-lt views u g

pub sources-bound :
    (views : List View) (v i w : ℕ) → get_elem? (sources_of views v) i ≡ some w → w < length views
sources-bound views v i w e =
    Edge-bound views v w (source-Edge views v w (get-In (sources_of views v) i w e))

pub Reaches-Depends :
    (views : List View) (v u : ℕ) → Reaches (sources_of views) v u → Depends views v u
Reaches-Depends views _ u (Reaches.here v) = Depends.self v
Reaches-Depends views _ _ (Reaches.along v i w u e r) =
    Depends.through v w u (source-Edge views v w (get-In (sources_of views v) i w e))
      (Reaches-Depends views w u r)

pub Depends-Reaches :
    (views : List View) (v u : ℕ) → Depends views v u → Reaches (sources_of views) v u
Depends-Reaches views _ _ (Depends.self v) = Reaches.here v
Depends-Reaches views _ _ (Depends.through v u w e r) =
    let (i, g) = In-get (sources_of views v) u (Edge-source views v u e) in
    Reaches.along v i u w g (Depends-Reaches views u w r)
