-- ===== src/DataFlow/Stratify/Lowered.antt =====
-- A low link that falls, a frame that moves on to its next edge, and a frame that is popped.
use dr_lojekyll.Prelude.{
  same_or_other, ℕ, ◌+◌, ◌<◌, ◌≤◌, ◌≡◌, ◌≢◌, ap, subst, ◌∙◌, sym, inl, inr, true, some, List, ◌∷◌,
  get_elem?, arith,
}
use dr_lojekyll.DataFlow.Stratify.{Walk, Frame, lower, min}
use dr_lojekyll.DataFlow.Stratify.Reaches.{Reaches, Reaches-trans}
use dr_lojekyll.DataFlow.Stratify.Stored.{
  le_or_le, store_same, store_other, min_le, min_first, min_second,
}
use dr_lojekyll.DataFlow.Stratify.Invariant.{
  Seen, Done, Placed, Node, Core, Grows, Grows-Placed, Framing,
}

module _ (p low : ℕ) (s : Walk) where
  pub low_other : (x : ℕ) → x ≢ p → (lower p low s).lowlink x ≡ s.lowlink x
  unfolding lower
  low_other x ne = store_other p x (min (s.lowlink p) low) s.lowlink ne

  pub low_same : (lower p low s).lowlink p ≡ min (s.lowlink p) low
  unfolding lower
  low_same = store_same p (min (s.lowlink p) low) s.lowlink

  low_le : (x : ℕ) → (lower p low s).lowlink x ≤ s.lowlink x
  low_le x = elim (same_or_other x p) [
    | inl e ↦
        subst (λ u. (lower p low s).lowlink u ≤ s.lowlink u) (sym e)
          (omega (arith, low_same, min_le (s.lowlink p) low))
    | inr ne ↦ omega (arith, low_other x ne)
  ]

  pub lower-Grows : Grows s (lower p low s)
  unfolding lower
  lower-Grows = record {
    index = λ x j e. e;
    lowlink = λ x j e. low_le x;
    finished = λ x k e. e;
    waiting = λ x j on e. inl on;
  }

  module _ (sources : ℕ → List ℕ) (vs : List ℕ) (core : Core sources s vs) (u : ℕ)
      (on : s.on_stack u ≡ true) (at : s.index u ≡ some low) (reached : Reaches sources p u)
      (place : (j : ℕ) → s.index p ≡ some j → Placed sources (lower p low s) vs p j) where
    other-Node : (x : ℕ) → x ≢ p → s.on_stack x ≡ true → Node sources (lower p low s) vs x
    unfolding lower
    other-Node x ne o =
        let n = core.nodes x o in
        let l = low_other x ne in
        record {
          at = n.at;
          is_at = n.is_at;
          bound = n.bound;
          low = omega (arith, n.low);
          target = n.target;
          target_on = n.target_on;
          target_at = n.target_at ∙ ap some (sym l);
          target_reached = n.target_reached;
          place = Grows-Placed lower-Grows vs x n.at n.is_at l n.place;
        }

    same-Node : s.on_stack p ≡ true → Node sources (lower p low s) vs p
    unfolding lower
    same-Node o =
        let n = core.nodes p o in
        elim (le_or_le (s.lowlink p) low) [
          | inl le ↦
              let l = low_same ∙ min_first (s.lowlink p) low le in
              record {
                at = n.at;
                is_at = n.is_at;
                bound = n.bound;
                low = omega (arith, n.low);
                target = n.target;
                target_on = n.target_on;
                target_at = n.target_at ∙ ap some (sym l);
                target_reached = n.target_reached;
                place = place n.at n.is_at;
              }
          | inr le ↦
              let l = low_same ∙ min_second (s.lowlink p) low le in
              record {
                at = n.at;
                is_at = n.is_at;
                bound = n.bound;
                low = omega (arith, n.low);
                target = u;
                target_on = on;
                target_at = at ∙ ap some (sym l);
                target_reached = reached;
                place = place n.at n.is_at;
              }
        ]

    pub lower-Core : Core sources (lower p low s) vs
    unfolding lower
    lower-Core = record {
      stacked = core.stacked;
      marked = core.marked;
      falling = core.falling;
      nodes = λ x o. elim (same_or_other x p) [
        | inl e ↦
            subst (Node sources (lower p low s) vs) (sym e)
              (same-Node (subst (λ y. s.on_stack y ≡ true) e o))
        | inr ne ↦ other-Node x ne o
      ];
      indexed = λ x j e. elim (core.indexed x j e) [
        | inl o ↦ inl o
        | inr f ↦ inr (record { at = f.at; is_at = f.is_at })
      ];
      sorted = record {
        bound = core.sorted.bound;
        off = core.sorted.off;
        visited = core.sorted.visited;
        closed = λ x k i w e g.
            let q = core.sorted.closed x k i w e g in
            record { at = q.at; is_at = q.is_at; lower = q.lower };
        used = core.sorted.used;
        connected = core.sorted.connected;
      };
    }

-- The next edge of the frame leads to a view that is seen.
pub bump-Framing :
    {sources : ℕ → List ℕ} {s : Walk} (b : ℕ) (f : Frame) (fs : List Frame) (w : ℕ)
    → get_elem? (sources f.view_index) f.next_edge ≡ some w
    → Seen s f.view_index w
    → Framing sources s b (f ∷ fs)
    → Framing sources s b (record f { next_edge = f.next_edge + 1 } ∷ fs)
bump-Framing {sources} {s} _ _ _ w e seen (Framing.frame b f fs h p) =
    Framing.frame b (record f { next_edge = f.next_edge + 1 }) fs
      (record {
        at = h.at;
        is_at = h.is_at;
        on = h.on;
        bound = h.bound;
        followed = λ i u lt g. elim (same_or_other i f.next_edge) [
          | inl q ↦
              let k : w ≡ u = cc (e, g, ap (get_elem? (sources f.view_index)) q) in
              subst (Seen s f.view_index) k seen
          | inr ne ↦ h.followed i u (omega arith) g
        ];
        link = h.link;
      })
      p

-- A view that is done goes over to the frame below.
module _ {sources : ℕ → List ℕ} {s : Walk} (v p : ℕ) (vs : List ℕ) (i j : ℕ)
    (is_at : s.index p ≡ some i) (lt : i < j) (reached : Reaches sources p v)
    (low : s.lowlink p ≤ s.lowlink v) (under : s.lowlink v < j) (done : Done sources s v)
    (v_at : s.index v ≡ some j) where
  drop-Placed :
      (x k : ℕ)
      → s.index x ≡ some k
      → Placed sources s (v ∷ p ∷ vs) x k
      → Placed sources s (p ∷ vs) x k
  drop-Placed _ k e (Placed.active _ _ _) =
      let q : j ≡ k = cc (e, v_at) in
      Placed.covered p vs v k i is_at (omega (arith, q)) reached low (omega (arith, q)) done
  drop-Placed x k e (Placed.covered _ _ _ _ m m_at l r lo un d) =
      let q : j ≡ m = cc (m_at, v_at) in
      Placed.covered p vs x k i is_at (omega (arith, q)) (Reaches-trans p v x reached r)
        (omega arith) un d
  drop-Placed x k e (Placed.deeper _ _ _ _ m m_at l q) = q

  pub drop-Core : Core sources s (v ∷ p ∷ vs) → Core sources s (p ∷ vs)
  drop-Core core = record {
    stacked = core.stacked;
    marked = core.marked;
    falling = core.falling;
    nodes = λ x o.
        let n = core.nodes x o in
        record {
          at = n.at;
          is_at = n.is_at;
          bound = n.bound;
          low = n.low;
          target = n.target;
          target_on = n.target_on;
          target_at = n.target_at;
          target_reached = n.target_reached;
          place = drop-Placed x n.at n.is_at n.place;
        };
    indexed = core.indexed;
    sorted = core.sorted;
  }
