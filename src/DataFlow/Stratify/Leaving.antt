-- ===== src/DataFlow/Stratify/Leaving.antt =====
-- A frame all of whose edges are followed is popped.
use dr_lojekyll.Prelude.{
  ℕ, zero, suc, ◌<◌, ◌≤◌, ◌≡◌, ◌≢◌, refl, ◌∙◌, inl, inr, Bool, true, false, none, some, List, [],
  ◌∷◌, get_elem?, arith, if◌then◌else◌, ◌==◌,
}
use dr_lojekyll.DataFlow.Stratify.{
  Walk, Frame, lower, lower_parent, leave, close_component, is_root, pop_component,
}
use dr_lojekyll.DataFlow.Stratify.Reaches.{Reaches, Reaches-trans}
use dr_lojekyll.DataFlow.Stratify.Stored.{eq_or_lt, differ_lt, min_below}
use dr_lojekyll.DataFlow.Stratify.Invariant.{
  Link, Done, Placed, Core, Grows-Seen, Framing, Framed, Grows-Framing, Framing-mono, view_ids,
}
use dr_lojekyll.DataFlow.Stratify.Lowered.{lower-Grows, lower-Core, low_same, low_other, drop-Core}
use dr_lojekyll.DataFlow.Stratify.Popped.{pop_component-Pops}
use dr_lojekyll.DataFlow.Stratify.Put.{put-Grows, put-Core, put-Framing}
use dr_lojekyll.DataFlow.Stratify.Closing.{close-Core, close-Framing}

-- The state of the walk between two moves.
pub record Walks (sources : ℕ → List ℕ) (s : Walk) (fs : List Frame) : Type 0 where
  pub core : Core sources s (view_ids fs)
  pub framing : Framing sources s s.next_index fs
  pub frames : s.frames ≡ fs

-- A state that a frame's end leads to.
pub record Left (sources : ℕ → List ℕ) (s t : Walk) (fs : List Frame) : Type 0 where
  pub walks : Walks sources t fs
  pub index : t.index ≡ s.index

below_end : (xs : List ℕ) (i e w : ℕ) → get_elem? xs i ≡ some w → get_elem? xs e ≡ none → i < e
below_end [] i e w k n = absurd (cc k)
below_end (x ∷ xs) i zero w k n = absurd (cc n)
below_end (x ∷ xs) zero (suc e) w k n = omega arith
below_end (x ∷ xs) (suc i) (suc e) w k n = omega (arith, below_end xs i e w k n)

-- The frame of `v`, whose edges are all followed.
record Ending (sources : ℕ → List ℕ) (s : Walk) (v i : ℕ) (fs : List Frame) : Type 0 where
  core : Core sources s (v ∷ view_ids fs)
  framing : Framing sources s i fs
  frames : s.frames ≡ fs
  at : s.index v ≡ some i
  on : s.on_stack v ≡ true
  less : i < s.next_index
  done : Done sources s v

close-Left :
    (sources : ℕ → List ℕ) (s : Walk) (v i : ℕ) (fs : List Frame)
    → Ending sources s v i fs
    → s.lowlink v ≡ i
    → Left sources s (close_component v s) fs
unfolding close_component
close-Left sources s v i fs h low =
    let t = pop_component v s.scc_stack s in
    let p =
      pop_component-Pops v i s.next_index s.scc_stack s h.at (h.core.stacked v h.on)
        h.core.falling in
    record {
      walks = record {
        core = close-Core sources s t v i (view_ids fs) h.core h.at h.on low h.done p h.less;
        framing = Framing-mono _ i t.next_index fs (omega (arith, p.next_index, h.less)) (
            close-Framing sources s t v i (view_ids fs) h.core h.at h.on low h.done p fs h.framing);
        frames = p.frames ∙ h.frames;
      };
      index = p.index;
    }

is_root_eq : (v i : ℕ) (s : Walk) → s.index v ≡ some i → is_root v s ≡ (s.lowlink v == i)
unfolding is_root
is_root_eq v i s e = rw (e, is_root) refl

if-Left :
    (sources : ℕ → List ℕ) (fs : List Frame) (c : Bool) (s a b : Walk)
    → (c ≡ true → Left sources s a fs)
    → (c ≡ false → Left sources s b fs)
    → Left sources s (if c then a else b) fs
if-Left sources fs true s a b h k = h refl
if-Left sources fs false s a b h k = k refl

-- Without a frame below, the view is a root: nothing on the stack is older.
alone-root : (sources : ℕ → List ℕ) (s : Walk) (v i : ℕ) → Ending sources s v i [] → s.lowlink v ≡ i
alone-root sources s v i h =
    let n = h.core.nodes v h.on in
    let q : n.at ≡ i = cc (h.at, n.is_at) in
    elim (eq_or_lt (s.lowlink v) i (omega (arith, q, n.low))) [
      | inl e ↦ e
      | inr lt ↦
          let m = h.core.nodes n.target n.target_on in
          let l : m.at ≡ s.lowlink v = cc (m.is_at, n.target_at) in
          absurd (first m.at n.target m.is_at (omega (arith, l)) m.place)
    ]
  where
    first : (j x : ℕ) → s.index x ≡ some j → j < i → Placed sources s (v ∷ []) x j → ⊥
    first j _ e lt (Placed.active _ _ _) = let q : j ≡ i = cc (e, h.at) in omega (arith, q)
    first _ _ e lt (Placed.covered _ _ x j k k_at l r lo un d) =
        let q : k ≡ i = cc (k_at, h.at) in omega (arith, q)
    first _ _ e lt (Placed.deeper _ _ x j k k_at l p) = elim p [ ]

-- The frame below takes the low link over.
module _ (sources : ℕ → List ℕ) (s : Walk) (v i : ℕ) (p : Frame) (fs : List Frame)
    (h : Ending sources s v i (p ∷ fs)) (framed : Framed sources s i p fs)
    (reached : Reaches sources p.view_index v) where
  low_state : Walk
  low_state = lower p.view_index (s.lowlink v) s

  parent-Core : Core sources low_state (v ∷ p.view_index ∷ view_ids fs)
  unfolding low_state lower
  parent-Core =
      let n = h.core.nodes v h.on in
      lower-Core p.view_index (s.lowlink v) s sources (v ∷ p.view_index ∷ view_ids fs) h.core
        n.target n.target_on n.target_at
        (Reaches-trans p.view_index v n.target reached n.target_reached)
        (λ j e.
          let q : j ≡ framed.at = cc (e, framed.is_at) in
          Placed.deeper v (p.view_index ∷ view_ids fs) p.view_index j i h.at
            (omega (arith, q, framed.bound)) (Placed.active p.view_index (view_ids fs) j))

  parent-Done : Done sources low_state v
  unfolding low_state
  parent-Done k w e =
      Grows-Seen (lower-Grows p.view_index (s.lowlink v) s) v i w h.at (h.done k w e)

  parent-Framing : Framing sources low_state i (p ∷ fs)
  unfolding low_state lower
  parent-Framing =
      Grows-Framing (lower-Grows p.view_index (s.lowlink v) s) i (p ∷ fs) (λ x j on e lt. on)
        h.framing

  parent-Ending : Ending sources low_state v i (p ∷ fs)
  unfolding low_state lower
  parent-Ending = record {
    core = parent-Core;
    framing = parent-Framing;
    frames = h.frames;
    at = h.at;
    on = h.on;
    less = h.less;
    done = parent-Done;
  }

  low_parent : low_state.lowlink p.view_index ≤ low_state.lowlink v
  unfolding low_state
  low_parent = omega (
    arith,
    low_same p.view_index (s.lowlink v) s,
    min_below (s.lowlink p.view_index) (s.lowlink v),
    low_other p.view_index (s.lowlink v) s v (
        differ_lt s.index v p.view_index framed.at i framed.is_at h.at
          (omega (arith, framed.bound))),
  )

  stay-Left : low_state.lowlink v ≢ i → Left sources low_state low_state (p ∷ fs)
  unfolding low_state lower
  stay-Left ne =
      let n = parent-Core.nodes v parent-Ending.on in
      let q : n.at ≡ i = cc (parent-Ending.at, n.is_at) in
      record {
        walks = record {
          core =
              drop-Core v p.view_index (view_ids fs) framed.at i low_at framed.bound reached
                low_parent (omega (arith, q, n.low)) parent-Done parent-Ending.at parent-Core;
          framing =
              Framing-mono low_state i low_state.next_index (p ∷ fs)
                (omega (arith, parent-Ending.less)) parent-Framing;
          frames = parent-Ending.frames;
        };
        index = refl;
      }
    where
      low_at : low_state.index p.view_index ≡ some framed.at
      low_at = (lower-Grows p.view_index (s.lowlink v) s).index p.view_index framed.at framed.is_at

-- A low link of the number itself closes the component.
root-Left :
    (sources : ℕ → List ℕ) (s : Walk) (v i : ℕ) (fs : List Frame)
    → Ending sources s v i fs
    → (s.lowlink v ≢ i → Left sources s s fs)
    → Left sources s (if is_root v s then close_component v s else s) fs
root-Left sources s v i fs h k =
    if-Left sources fs (is_root v s) s (close_component v s) s
      (λ t. close-Left sources s v i fs h (ground (arith, t, is_root_eq v i s h.at)))
      (λ f. k (λ e. absurd (ground (arith, f, e, is_root_eq v i s h.at))))

ended :
    (sources : ℕ → List ℕ) (s : Walk) (v i : ℕ) (fs : List Frame)
    → Ending sources s v i fs
    → Framing sources s i fs
    → Link sources v fs
    → Left sources s
        (let s' = lower_parent v fs s in if is_root v s' then close_component v s' else s')
        fs
unfolding lower_parent low_state lower
ended sources s v i [] h framing link =
    root-Left sources s v i [] h (λ ne. absurd (ne (alone-root sources s v i h)))
ended sources s v i (p ∷ fs) h (Framing.frame _ _ _ framed _) link =
    let l =
      root-Left sources (low_state sources s v i p fs h framed link) v i (p ∷ fs)
        (parent-Ending sources s v i p fs h framed link)
        (stay-Left sources s v i p fs h framed link) in
    record { walks = l.walks; index = l.index }

-- The frame `f` is at its last edge.
pub leave-Left :
    (sources : ℕ → List ℕ) (s : Walk) (f : Frame) (fs : List Frame)
    → Core sources s (view_ids (f ∷ fs))
    → Framing sources s s.next_index (f ∷ fs)
    → get_elem? (sources f.view_index) f.next_edge ≡ none
    → Left sources s (leave f.view_index fs s) fs
unfolding leave
leave-Left sources s f fs core (Framing.frame _ _ _ h framing) e =
    let t = record s { frames = fs } in
    let v = f.view_index in
    let g = put-Framing fs s sources h.at fs framing in
    let l =
      ended sources t v h.at fs
        (record {
          core = put-Core fs s sources (view_ids (f ∷ fs)) core;
          framing = g;
          frames = refl;
          at = h.is_at;
          on = h.on;
          less = h.bound;
          done = λ i w k.
              Grows-Seen (put-Grows fs s) v h.at w h.is_at
                (h.followed i w (below_end (sources v) i f.next_edge w k e) k);
        })
        g h.link in
    record { walks = l.walks; index = l.index }
