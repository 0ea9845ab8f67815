-- ===== src/DataFlow/Stratify/Closing.antt =====
-- The state after a component is popped.
use dr_lojekyll.Prelude.{
  ℕ, ◌+◌, ◌<◌, ◌≤◌, ◌≡◌, ap, subst, ◌∙◌, sym, ◌⊎◌, inl, inr, true, false, Option, some, List, ◌∷◌,
  arith, Bool-cases,
}
use dr_lojekyll.DataFlow.Stratify.{Walk, Frame}
use dr_lojekyll.DataFlow.Stratify.Reaches.{Reaches, Reaches-trans}
use dr_lojekyll.DataFlow.Stratify.Stored.{le_or_lt}
use dr_lojekyll.DataFlow.Stratify.Invariant.{
  Seen, Done, Placed, Node, Below, Source, Sorted, Core, Grows, Grows-Placed, Framing,
  Grows-Framing,
}
use dr_lojekyll.DataFlow.Stratify.Popped.{Below-In, Below-mono, Pops}
use dr_lojekyll.DataFlow.Stratify.Component.{node-Joined, to_root}

-- `u` is popped from the stack of `s`.
record Gone (s t : Walk) (i u : ℕ) : Type 0 where
  at : ℕ
  is_at : s.index u ≡ some at
  on : s.on_stack u ≡ true
  high : i ≤ at
  off : t.on_stack u ≡ false
  last : t.stratum u ≡ some s.next_stratum

record Kept (s t : Walk) (i u : ℕ) : Type 0 where
  on : t.on_stack u ≡ s.on_stack u
  stratum : t.stratum u ≡ s.stratum u
  low : (j : ℕ) → s.on_stack u ≡ true → s.index u ≡ some j → j < i

module _ (sources : ℕ → List ℕ) (s t : Walk) (v i : ℕ) (vs : List ℕ)
    (core : Core sources s (v ∷ vs)) (v_at : s.index v ≡ some i) (v_on : s.on_stack v ≡ true)
    (v_low : s.lowlink v ≡ i) (v_done : Done sources s v) (pops : Pops s t s.scc_stack i) where
  fate_on : (u : ℕ) → s.on_stack u ≡ true → Gone s t i u ⊎ Kept s t i u
  fate_on u on =
      let n = core.nodes u on in
      let k = core.stacked u on in
      elim (le_or_lt i n.at) [
        | inl le ↦
            let q = pops.popped u n.at k n.is_at le in
            inl (record { at = n.at; is_at = n.is_at; on = on; high = le; off = q.0; last = q.1 })
        | inr lt ↦
            let q = pops.below u n.at n.is_at lt in
            inr (record {
              on = q.0;
              stratum = q.1;
              low = λ j o e. let r : n.at ≡ j = cc (e, n.is_at) in omega (arith, r);
            })
      ]

  fate : (u : ℕ) → Gone s t i u ⊎ Kept s t i u
  fate u = elim (Bool-cases (s.on_stack u)) [
    | inl on ↦ fate_on u on
    | inr off ↦
        let q = pops.outside u (λ k. absurd (cc (off, core.marked u k))) in
        inr (record { on = q.0; stratum = q.1; low = λ j o e. absurd (cc (off, o)) })
  ]

  abbrev closed_walk : Walk
  closed_walk = record t { next_stratum = t.next_stratum + 1 }

  index_of : (u : ℕ) → t.index u ≡ s.index u
  index_of u = ap (λ (f : ℕ → Option ℕ). f u) pops.index

  lowlink_of : (u : ℕ) → t.lowlink u ≡ s.lowlink u
  lowlink_of u = ap (λ (f : ℕ → ℕ). f u) pops.lowlink

  -- A view that is on the stack afterwards was kept.
  still_on : (u : ℕ) → t.on_stack u ≡ true → (s.on_stack u ≡ true) × Kept s t i u
  still_on u on = elim (fate u) [ inl g ↦ absurd (cc (on, g.off)) | inr k ↦ (sym k.on ∙ on, k) ]

  -- A stratum is the new one, of a popped view, or an old one.
  stratum_fate :
      (x k : ℕ)
      → t.stratum x ≡ some k
      → (Gone s t i x × (k ≡ s.next_stratum)) ⊎ (Kept s t i x × (s.stratum x ≡ some k))
  stratum_fate x k e = elim (fate x) [
    | inl g ↦ let q : k ≡ s.next_stratum = cc (e, g.last) in inl (g, q)
    | inr m ↦ inr (m, sym m.stratum ∙ e)
  ]

  -- What has a stratum keeps it.
  finished_kept : (x k : ℕ) → s.stratum x ≡ some k → t.stratum x ≡ some k
  finished_kept x k e = elim (fate x) [
    | inl g ↦ absurd (cc (g.on, core.sorted.off x k e))
    | inr m ↦ m.stratum ∙ e
  ]

  pub close-Grows : Grows s closed_walk
  close-Grows = record {
    index = λ x j e. index_of x ∙ e;
    lowlink = λ x j e. omega (arith, lowlink_of x);
    finished = finished_kept;
    waiting = λ x j on e. elim (fate x) [
      | inl g ↦ inr (record { at = s.next_stratum; is_at = g.last })
      | inr m ↦ inl (m.on ∙ on)
    ];
  }

  -- A popped view's edges lead to popped or to finished views.
  Gone-Source : (x w : ℕ) → Gone s t i x → Seen s x w → Source closed_walk s.next_stratum w
  Gone-Source x w g (inl f) = record {
    at = f.at;
    is_at = finished_kept w f.at f.is_at;
    lower = omega (arith, core.sorted.bound w f.at f.is_at);
  }
  Gone-Source x w g (inr h) =
      let j = node-Joined sources s v i vs core v_at v_low v_done x g.at g.on g.is_at g.high in
      elim (fate w) [
        | inl q ↦ record { at = s.next_stratum; is_at = q.last; lower = omega arith }
        | inr m ↦ absurd (omega (arith, m.low h.at h.on h.is_at, h.known, j.low))
      ]

  Gone-Done : (x : ℕ) → Gone s t i x → Done sources s x
  Gone-Done x g =
      (node-Joined sources s v i vs core v_at v_low v_done x g.at g.on g.is_at g.high).done

  Gone-Reaches : (x y : ℕ) → Gone s t i x → Gone s t i y → Reaches sources x y
  Gone-Reaches x y g h =
      Reaches-trans x v y
        (to_root sources s v i vs core v_at v_low v_done (g.at + 1) x g.at (omega arith) g.on
          g.is_at g.high)
        (node-Joined sources s v i vs core v_at v_low v_done y h.at h.on h.is_at h.high).from

  root_stratum : t.stratum v ≡ some s.next_stratum
  root_stratum = (pops.popped v i (core.stacked v v_on) v_at (omega arith)).1

  close-Sorted : Sorted sources closed_walk
  close-Sorted = record {
    bound = λ x k e. elim (stratum_fate x k e) [
      | inl (g, q) ↦ omega (arith, pops.next_stratum, q)
      | inr (m, q) ↦ omega (arith, pops.next_stratum, core.sorted.bound x k q)
    ];
    off = λ x k e. elim (stratum_fate x k e) [
      | inl (g, q) ↦ g.off
      | inr (m, q) ↦ m.on ∙ core.sorted.off x k q
    ];
    visited = λ x k e. elim (stratum_fate x k e) [
      | inl (g, q) ↦ (g.at, index_of x ∙ g.is_at)
      | inr (m, q) ↦ let (j, a) = core.sorted.visited x k q in (j, index_of x ∙ a)
    ];
    closed = λ x k n w e g. elim (stratum_fate x k e) [
      | inl (gone, q) ↦
          let r = Gone-Source x w gone (Gone-Done x gone n w g) in
          record { at = r.at; is_at = r.is_at; lower = omega (arith, q, r.lower) }
      | inr (m, q) ↦
          let r = core.sorted.closed x k n w q g in
          record { at = r.at; is_at = finished_kept w r.at r.is_at; lower = r.lower }
    ];
    used = λ k lt. elim (le_or_lt s.next_stratum k) [
      | inl le ↦
          let q : s.next_stratum ≡ k = omega (arith, pops.next_stratum) in
          (v, root_stratum ∙ ap some q)
      | inr less ↦ let (x, e) = core.sorted.used k less in (x, finished_kept x k e)
    ];
    connected = λ x y k e f. elim (stratum_fate x k e) [
      | inl (g, q) ↦ elim (stratum_fate y k f) [
        | inl (h, p) ↦ Gone-Reaches x y g h
        | inr (m, p) ↦ absurd (omega (arith, q, core.sorted.bound y k p))
      ]
      | inr (m, q) ↦ elim (stratum_fate y k f) [
        | inl (h, p) ↦ absurd (omega (arith, p, core.sorted.bound x k q))
        | inr (n, p) ↦ core.sorted.connected x y k q p
      ]
    ];
  }

  rest-Placed :
      (x j : ℕ)
      → s.index x ≡ some j
      → j < i
      → Placed sources s (v ∷ vs) x j
      → Placed sources s vs x j
  rest-Placed _ j e lt (Placed.active _ _ _) =
      let q : j ≡ i = cc (e, v_at) in absurd (omega (arith, q))
  rest-Placed _ _ e lt (Placed.covered _ _ x j k k_at l r lo un d) =
      let q : k ≡ i = cc (k_at, v_at) in absurd (omega (arith, q))
  rest-Placed _ _ e lt (Placed.deeper _ _ x j k k_at l p) = p

  close-Node : (x : ℕ) → t.on_stack x ≡ true → Node sources closed_walk vs x
  close-Node x o =
      let (on, m) = still_on x o in
      let n = core.nodes x on in
      let lt = m.low n.at on n.is_at in
      let b = pops.below n.target (s.lowlink x) n.target_at (omega (arith, n.low)) in
      record {
        at = n.at;
        is_at = index_of x ∙ n.is_at;
        bound = omega (arith, n.bound, pops.next_index);
        low = omega (arith, lowlink_of x, n.low);
        target = n.target;
        target_on = b.0 ∙ n.target_on;
        target_at = index_of n.target ∙ n.target_at ∙ ap some (sym (lowlink_of x));
        target_reached = n.target_reached;
        place =
            Grows-Placed close-Grows vs x n.at n.is_at (lowlink_of x)
              (rest-Placed x n.at n.is_at lt n.place);
      }

  pub close-Core : i < s.next_index → Core sources closed_walk vs
  close-Core less = record {
    stacked = λ u o.
        let (on, m) = still_on u o in
        let n = core.nodes u on in
        pops.kept u n.at (core.stacked u on) n.is_at (m.low n.at on n.is_at);
    marked = λ u k.
        let (j, e, lt) = Below-In s.index i u t.scc_stack pops.falling k in
        (pops.below u j e lt).0 ∙ core.marked u (pops.subset u k);
    falling =
        subst (λ f. Below f t.next_index t.scc_stack) (sym pops.index)
          (Below-mono s.index i t.next_index t.scc_stack (omega (arith, pops.next_index))
            pops.falling);
    nodes = close-Node;
    indexed = λ x j e. elim (fate x) [
      | inl g ↦ inr (record { at = s.next_stratum; is_at = g.last })
      | inr m ↦ elim (core.indexed x j (sym (index_of x) ∙ e)) [
        | inl on ↦ inl (m.on ∙ on)
        | inr f ↦ inr (record { at = f.at; is_at = finished_kept x f.at f.is_at })
      ]
    ];
    sorted = close-Sorted;
  }

  -- The frames below stay.
  pub close-Framing : (fs : List Frame) → Framing sources s i fs → Framing sources closed_walk i fs
  close-Framing fs h =
      Grows-Framing close-Grows i fs (λ x j on e lt. (pops.below x j e lt).0 ∙ on) h
