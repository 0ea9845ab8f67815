-- ===== src/DataFlow/Stratify/Entered.antt =====
-- A view that is entered.
use dr_lojekyll.Prelude.{
  same_or_other, ℕ, ◌+◌, ◌≤◌, ◌≡◌, ◌≢◌, ap, subst, ◌∙◌, sym, ◌⊎◌, inl, inr, true, none, some, List,
  [], ◌∷◌, arith,
}
use dr_lojekyll.DataFlow.Stratify.{Walk, Frame, enter, store}
use dr_lojekyll.DataFlow.Stratify.Reaches.{Reaches}
use dr_lojekyll.DataFlow.Stratify.Stored.{store_same, store_other, differ_some}
use dr_lojekyll.DataFlow.Stratify.Invariant.{
  Finished, Seen, Placed, Node, Below, Sorted, Core, Grows, Grows-Placed, Framing, Grows-Framing,
  Link,
}

module _ (w : ℕ) (s : Walk) (new : s.index w ≡ none) where
  differs : (x j : ℕ) → s.index x ≡ some j → x ≢ w
  differs x j e = differ_some s.index x w j new e

  enter_index : (x j : ℕ) → s.index x ≡ some j → (enter w s).index x ≡ some j
  unfolding enter
  enter_index x j e = store_other w x (some s.next_index) s.index (differs x j e) ∙ e

  enter_lowlink : (x j : ℕ) → s.index x ≡ some j → (enter w s).lowlink x ≡ s.lowlink x
  unfolding enter
  enter_lowlink x j e = store_other w x s.next_index s.lowlink (differs x j e)

  enter_on : (x j : ℕ) → s.index x ≡ some j → (enter w s).on_stack x ≡ s.on_stack x
  unfolding enter
  enter_on x j e = store_other w x true s.on_stack (differs x j e)

  pub enter-Grows : Grows s (enter w s)
  unfolding enter
  enter-Grows = record {
    index = λ x j e. enter_index x j e;
    lowlink = λ x j e. omega (arith, enter_lowlink x j e);
    finished = λ x k e. e;
    waiting = λ x j on e. inl (enter_on x j e ∙ on);
  }

  Below-kept : (b : ℕ) (xs : List ℕ) → Below s.index b xs → Below (enter w s).index b xs
  Below-kept b [] h = h
  Below-kept b (x ∷ xs) (j, e, lt, h) = (j, enter_index x j e, lt, Below-kept j xs h)

  module _ (sources : ℕ → List ℕ) (vs : List ℕ) (core : Core sources s vs) where
    was_on : (x : ℕ) → x ≢ w → (enter w s).on_stack x ≡ true → s.on_stack x ≡ true
    unfolding enter
    was_on x ne on = sym (store_other w x true s.on_stack ne) ∙ on

    old-Node : (x : ℕ) → x ≢ w → (enter w s).on_stack x ≡ true → Node sources (enter w s) (w ∷ vs) x
    unfolding enter
    old-Node x ne on =
        let n = core.nodes x (was_on x ne on) in
        let l = enter_lowlink x n.at n.is_at in
        record {
          at = n.at;
          is_at = enter_index x n.at n.is_at;
          bound = omega (arith, n.bound);
          low = omega (arith, n.low);
          target = n.target;
          target_on = enter_on n.target (s.lowlink x) n.target_at ∙ n.target_on;
          target_at = enter_index n.target (s.lowlink x) n.target_at ∙ ap some (sym l);
          target_reached = n.target_reached;
          place =
              Placed.deeper w vs x n.at s.next_index (store_same w (some s.next_index) s.index)
                n.bound (Grows-Placed enter-Grows vs x n.at n.is_at l n.place);
        }

    new-Node : Node sources (enter w s) (w ∷ vs) w
    unfolding enter
    new-Node =
        let l = store_same w s.next_index s.lowlink in
        record {
          at = s.next_index;
          is_at = store_same w (some s.next_index) s.index;
          bound = omega arith;
          low = omega (arith, l);
          target = w;
          target_on = store_same w true s.on_stack;
          target_at = store_same w (some s.next_index) s.index ∙ ap some (sym l);
          target_reached = Reaches.here w;
          place = Placed.active w vs s.next_index;
        }

    enter-Sorted : Sorted sources (enter w s)
    unfolding enter
    enter-Sorted = record {
      bound = core.sorted.bound;
      off =
          λ x k e. let (j, i) = core.sorted.visited x k e in enter_on x j i ∙ core.sorted.off x k e;
      visited = λ x k e. let (j, i) = core.sorted.visited x k e in (j, enter_index x j i);
      closed = λ x k i u e g.
          let q = core.sorted.closed x k i u e g in
          record { at = q.at; is_at = q.is_at; lower = q.lower };
      used = core.sorted.used;
      connected = core.sorted.connected;
    }

    indexed :
        (x j : ℕ)
        → x ≢ w
        → (enter w s).index x ≡ some j
        → ((enter w s).on_stack x ≡ true) ⊎ Finished (enter w s) x
    unfolding enter
    indexed x j ne e =
        let i = sym (store_other w x (some s.next_index) s.index ne) ∙ e in
        elim (core.indexed x j i) [
          | inl on ↦ inl (enter_on x j i ∙ on)
          | inr f ↦ inr (record { at = f.at; is_at = f.is_at })
        ]

    pub enter-Core : Core sources (enter w s) (w ∷ vs)
    unfolding enter
    enter-Core = record {
      stacked = λ u on. elim (same_or_other u w) [
        | inl e ↦ inl e
        | inr ne ↦ inr (core.stacked u (was_on u ne on))
      ];
      marked = λ u h. elim h [
        | inl e ↦
            subst (λ x. store w true s.on_stack x ≡ true) (sym e) (store_same w true s.on_stack)
        | inr k ↦
            let on = core.marked u k in let n = core.nodes u on in enter_on u n.at n.is_at ∙ on
      ];
      falling = (
        s.next_index,
        store_same w (some s.next_index) s.index,
        omega arith,
        Below-kept s.next_index s.scc_stack core.falling,
      );
      nodes = λ x on. elim (same_or_other x w) [
        | inl e ↦ subst (Node sources (enter w s) (w ∷ vs)) (sym e) new-Node
        | inr ne ↦ old-Node x ne on
      ];
      indexed = λ x j e. elim (same_or_other x w) [
        | inl p ↦
            inl
              (subst (λ u. store w true s.on_stack u ≡ true) (sym p) (store_same w true s.on_stack))
        | inr ne ↦ indexed x j ne e
      ];
      sorted = enter-Sorted;
    }

    pub enter-stay :
        (fs : List Frame)
        → Framing sources s s.next_index fs
        → Framing sources (enter w s) s.next_index fs
    enter-stay fs h =
        Grows-Framing enter-Grows s.next_index fs (λ x j on e lt. enter_on x j e ∙ on) h

    -- A new frame is on top.
    pub enter-Framing :
        (fs : List Frame)
        → Link sources w fs
        → Framing sources (enter w s) s.next_index fs
        → Framing sources
            (enter w s)
            (s.next_index + 1)
            (record { view_index = w; next_edge = 0 } ∷ fs)
    unfolding enter
    enter-Framing fs link h =
        Framing.frame (s.next_index + 1) (record { view_index = w; next_edge = 0 }) fs
          (record {
            at = s.next_index;
            is_at = store_same w (some s.next_index) s.index;
            on = store_same w true s.on_stack;
            bound = omega arith;
            followed = λ i u lt e. absurd (omega arith);
            link = link;
          })
          h

    pub enter-Seen :
        (x j : ℕ) → s.index x ≡ some j → s.lowlink x ≤ s.next_index → Seen (enter w s) x w
    unfolding enter
    enter-Seen x j e le = inr (record {
      at = s.next_index;
      on = store_same w true s.on_stack;
      is_at = store_same w (some s.next_index) s.index;
      known = omega (arith, enter_lowlink x j e);
    })
