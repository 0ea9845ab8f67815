-- ===== src/DataFlow/Stratify/Following.antt =====
-- An edge is followed, and the moves of the walk.
use dr_lojekyll.Prelude.{
  ℕ, ◌+◌, ◌≡◌, refl, ap, subst, sym, inl, inr, Bool, true, false, none, some, List, ◌∷◌, get_elem?,
  arith, Option-cases, if◌then◌else◌,
}
use dr_lojekyll.DataFlow.Stratify.{Walk, Frame, lower, enter, follow, advance, leave}
use dr_lojekyll.DataFlow.Stratify.Reaches.{Reaches-edge}
use dr_lojekyll.DataFlow.Stratify.Invariant.{Placed, Core, Framing, Framed, Grows-Framing, view_ids}
use dr_lojekyll.DataFlow.Stratify.Entered.{enter-Core, enter-stay, enter-Framing, enter-Seen}
use dr_lojekyll.DataFlow.Stratify.Lowered.{lower-Grows, lower-Core, low_same, bump-Framing}
use dr_lojekyll.DataFlow.Stratify.Stored.{min_below}
use dr_lojekyll.DataFlow.Stratify.Put.{put-Core, put-Framing}
use dr_lojekyll.DataFlow.Stratify.Leaving.{Walks, Left, leave-Left}

abbrev pub next_frame : Frame → Frame
next_frame f = record f { next_edge = f.next_edge + 1 }

-- The frame `f` is on top, and its next edge leads to `w`.
record Facing (sources : ℕ → List ℕ) (s : Walk) (f : Frame) (w : ℕ) (fs : List Frame) : Type 0 where
  core : Core sources s (view_ids (f ∷ fs))
  framing : Framing sources s s.next_index (f ∷ fs)
  frames : s.frames ≡ next_frame f ∷ fs
  edge : get_elem? (sources f.view_index) f.next_edge ≡ some w

first_frame :
    (sources : ℕ → List ℕ) (s : Walk) (b : ℕ) (f : Frame) (fs : List Frame)
    → Framing sources s b (f ∷ fs)
    → Framed sources s b f fs
first_frame sources s _ _ _ (Framing.frame b f fs h p) = h

module _ (sources : ℕ → List ℕ) (s : Walk) (f : Frame) (w : ℕ) (fs : List Frame)
    (h : Facing sources s f w fs) where
  framed : Framed sources s s.next_index f fs
  framed = first_frame sources s s.next_index f fs h.framing

  follow_new :
      s.index w ≡ none
      → Walks sources (enter w s) (record { view_index = w; next_edge = 0 } ∷ next_frame f ∷ fs)
  unfolding enter
  follow_new new =
      let vs = view_ids (f ∷ fs) in
      let n = h.core.nodes f.view_index framed.on in
      record {
        core = enter-Core w s new sources vs h.core;
        framing =
            enter-Framing w s new sources vs h.core (next_frame f ∷ fs)
              (Reaches-edge f.view_index f.next_edge w h.edge)
              (bump-Framing s.next_index f fs w h.edge
                (enter-Seen w s new sources vs h.core f.view_index n.at n.is_at
                  (omega (arith, n.low, n.bound)))
                (enter-stay w s new sources vs h.core (f ∷ fs) h.framing));
        frames = ap (λ gs. record { view_index = w; next_edge = 0 } ∷ gs) h.frames;
      }

  follow_on :
      (i : ℕ)
      → s.index w ≡ some i
      → s.on_stack w ≡ true
      → Walks sources (lower f.view_index i s) (next_frame f ∷ fs)
  unfolding lower
  follow_on i at on =
      let v = f.view_index in
      let g = lower-Grows v i s in
      record {
        core =
            lower-Core v i s sources (view_ids (f ∷ fs)) h.core w on at
              (Reaches-edge v f.next_edge w h.edge) (λ j e. Placed.active v (view_ids fs) j);
        framing =
            bump-Framing s.next_index f fs w h.edge
              (inr (record {
                at = i;
                on = on;
                is_at = at;
                known = omega (arith, low_same v i s, min_below (s.lowlink v) i);
              }))
              (Grows-Framing g s.next_index (f ∷ fs) (λ x j o e lt. o) h.framing);
        frames = h.frames;
      }

  follow_off :
      (i : ℕ) → s.index w ≡ some i → s.on_stack w ≡ false → Walks sources s (next_frame f ∷ fs)
  follow_off i at off = record {
    core = h.core;
    framing =
        bump-Framing s.next_index f fs w h.edge
          (elim (h.core.indexed w i at) [ inl on ↦ absurd (cc (on, off)) | inr k ↦ inl k ])
          h.framing;
    frames = h.frames;
  }

-- The two ends of an edge that is followed: a view is entered, or the indices stay.
pub data Follows (sources : ℕ → List ℕ) (s t : Walk) (f : Frame) (w : ℕ) (fs : List Frame)
    : Type 0 where
  entered :
      s.index w ≡ none
      → t.index ≡ (enter w s).index
      → Walks sources t (record { view_index = w; next_edge = 0 } ∷ next_frame f ∷ fs)
      → Follows sources s t f w fs
  passed : t.index ≡ s.index → Walks sources t (next_frame f ∷ fs) → Follows sources s t f w fs

follow-none : (v w : ℕ) (s : Walk) → s.index w ≡ none → follow v w s ≡ enter w s
unfolding follow
follow-none v w s e = rw (e, follow) refl

follow-some :
    (v w i : ℕ) (s : Walk)
    → s.index w ≡ some i
    → follow v w s ≡ (if s.on_stack w then lower v i s else s)
unfolding follow
follow-some v w i s e = rw (e, follow) refl

if-Follows :
    (sources : ℕ → List ℕ) (s a b : Walk) (f : Frame) (w : ℕ) (fs : List Frame) (c : Bool)
    → (c ≡ true → Follows sources s a f w fs)
    → (c ≡ false → Follows sources s b f w fs)
    → Follows sources s (if c then a else b) f w fs
if-Follows sources s a b f w fs true h k = h refl
if-Follows sources s a b f w fs false h k = k refl

follow-Follows :
    (sources : ℕ → List ℕ) (s : Walk) (f : Frame) (w : ℕ) (fs : List Frame)
    → Facing sources s f w fs
    → Follows sources s (follow f.view_index w s) f w fs
unfolding lower
follow-Follows sources s f w fs h = elim (Option-cases (s.index w)) [
  | inl new ↦
      subst (λ t. Follows sources s t f w fs) (sym (follow-none f.view_index w s new))
        (Follows.entered new refl (follow_new sources s f w fs h new))
  | inr (i, at) ↦
      subst (λ t. Follows sources s t f w fs) (sym (follow-some f.view_index w i s at))
        (if-Follows sources s (lower f.view_index i s) s f w fs (s.on_stack w)
          (λ on. Follows.passed refl (follow_on sources s f w fs h i at on))
          (λ off. Follows.passed refl (follow_off sources s f w fs h i at off)))
]

-- A round with its frame: an edge is followed, or the frame is left.
pub data Moves (sources : ℕ → List ℕ) (s t : Walk) (f : Frame) (fs : List Frame) : Type 0 where
  followed :
      (w : ℕ) (r : Walk)
      → get_elem? (sources f.view_index) f.next_edge ≡ some w
      → r.index ≡ s.index
      → Follows sources r t f w fs
      → Moves sources s t f fs
  left :
      get_elem? (sources f.view_index) f.next_edge ≡ none
      → Left sources s t fs
      → Moves sources s t f fs

advance-some :
    (sources : ℕ → List ℕ) (f : Frame) (fs : List Frame) (s : Walk) (w : ℕ)
    → get_elem? (sources f.view_index) f.next_edge ≡ some w
    → advance sources f fs s ≡ follow f.view_index w (record s { frames = next_frame f ∷ fs })
unfolding advance
advance-some sources f fs s w e = rw (e, advance) refl

advance-none :
    (sources : ℕ → List ℕ) (f : Frame) (fs : List Frame) (s : Walk)
    → get_elem? (sources f.view_index) f.next_edge ≡ none
    → advance sources f fs s ≡ leave f.view_index fs s
unfolding advance
advance-none sources f fs s e = rw (e, advance) refl

pub advance-Moves :
    (sources : ℕ → List ℕ) (s : Walk) (f : Frame) (fs : List Frame)
    → Walks sources s (f ∷ fs)
    → Moves sources s (advance sources f fs s) f fs
advance-Moves sources s f fs h =
    elim (Option-cases (get_elem? (sources f.view_index) f.next_edge)) [
      | inl e ↦
          subst (λ t. Moves sources s t f fs) (sym (advance-none sources f fs s e))
            (Moves.left e (leave-Left sources s f fs h.core h.framing e))
      | inr (w, e) ↦
          let r = record s { frames = next_frame f ∷ fs } in
          subst (λ t. Moves sources s t f fs) (sym (advance-some sources f fs s w e))
            (Moves.followed w r e refl (
              follow-Follows sources r f w fs (record {
                core = put-Core (next_frame f ∷ fs) s sources (view_ids (f ∷ fs)) h.core;
                framing = put-Framing (next_frame f ∷ fs) s sources s.next_index (f ∷ fs) h.framing;
                frames = refl;
                edge = e;
              })))
    ]
