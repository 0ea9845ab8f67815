-- ===== src/DataFlow/Stratify/Rounds.antt =====
-- The walk ends: each advance spends an edge or the frame of a view that was not visited before.
use dr_lojekyll.Prelude.{
  same_or_other, ℕ, zero, suc, ◌+◌, ◌-◌, ◌<◌, ◌≤◌, ◌≡◌, refl, ap, subst, ◌∙◌, sym, inl, inr, Option,
  none, some, List, [], ◌∷◌, get_elem?, get_elem?-lt, length, arith,
}
use dr_lojekyll.DataFlow.Stratify.{Walk, Frame, enter, store, walk, advance, num_rounds}
use dr_lojekyll.DataFlow.Stratify.Stored.{store_same, store_other, differ_some}
use dr_lojekyll.DataFlow.Stratify.Leaving.{Walks}
use dr_lojekyll.DataFlow.Stratify.Following.{Follows, Moves, advance-Moves, next_frame}

abbrev cost : Option ℕ → ℕ → ℕ
cost none d = d + 1
cost (some i) d = 0

module _ (sources : ℕ → List ℕ) where
  -- The rounds that the views below `n` can still ask for.
  abbrev pub unvisited : ℕ → (ℕ → Option ℕ) → ℕ
  unvisited zero index = 0
  unvisited (suc n) index = cost (index n) (length (sources n)) + unvisited n index

  abbrev pub weights : List Frame → ℕ
  weights [] = 0
  weights (f ∷ fs) = length (sources f.view_index) - f.next_edge + 1 + weights fs

  cost_le : (o : Option ℕ) (d : ℕ) → cost o d ≤ d + 1
  cost_le none d = omega arith
  cost_le (some i) d = omega arith

  pub unvisited_le : (n : ℕ) (index : ℕ → Option ℕ) → unvisited n index ≤ num_rounds n sources
  unfolding num_rounds
  unvisited_le zero index = omega arith
  unvisited_le (suc n) index =
      omega (arith, unvisited_le n index, cost_le (index n) (length (sources n)))

  unvisited_past :
      (n w k : ℕ) (index : ℕ → Option ℕ)
      → n ≤ w
      → unvisited n (store w (some k) index) ≡ unvisited n index
  unvisited_past zero w k index le = refl
  unvisited_past (suc n) w k index le =
      let e = store_other w n (some k) index (λ q. omega (arith, q)) in
      omega
        (arith, ap (λ o. cost o (length (sources n))) e, unvisited_past n w k index (omega arith))

  pub unvisited-store :
      (n w k : ℕ) (index : ℕ → Option ℕ)
      → w < n
      → index w ≡ none
      → unvisited n (store w (some k) index) + (length (sources w) + 1) ≡ unvisited n index
  unvisited-store zero w k index lt new = absurd (omega arith)
  unvisited-store (suc n) w k index lt new = elim (same_or_other n w) [
    | inl q ↦
        let a = ap (store w (some k) index) q ∙ store_same w (some k) index in
        let b = ap index q ∙ new in
        let c = ap (λ v. length (sources v)) q in
        omega (
          arith,
          ap (λ o. cost o (length (sources n))) a,
          ap (λ o. cost o (length (sources n))) b,
          c,
          unvisited_past n w k index (omega (arith, q)),
        )
    | inr ne ↦
        let e = store_other w n (some k) index ne in
        omega (
          arith,
          ap (λ o. cost o (length (sources n))) e,
          unvisited-store n w k index (omega (arith, ne)) new,
        )
  ]

-- A state that is reached from `s` with less to do.
record Steps (sources : ℕ → List ℕ) (n : ℕ) (s t : Walk) (fs : List Frame) : Type 0 where
  frames : List Frame
  walks : Walks sources t frames
  less :
      unvisited sources n t.index + weights sources frames
      < unvisited sources n s.index + weights sources fs
  kept : (x j : ℕ) → s.index x ≡ some j → t.index x ≡ some j
  outside : (x : ℕ) → n ≤ x → t.index x ≡ s.index x

-- What the walk does with all its rounds.
pub record Ran (sources : ℕ → List ℕ) (n : ℕ) (s t : Walk) : Type 0 where
  pub walks : Walks sources t []
  pub kept : (x j : ℕ) → s.index x ≡ some j → t.index x ≡ some j
  pub outside : (x : ℕ) → n ≤ x → t.index x ≡ s.index x

module _ (sources : ℕ → List ℕ) (n : ℕ)
    (bound : (v i w : ℕ) → get_elem? (sources v) i ≡ some w → w < n) where
  follows-Steps :
      (s r t : Walk) (f : Frame) (w : ℕ) (fs : List Frame)
      → get_elem? (sources f.view_index) f.next_edge ≡ some w
      → r.index ≡ s.index
      → Follows sources r t f w fs
      → Steps sources n s t (f ∷ fs)
  unfolding enter
  follows-Steps s r t f w fs e q (Follows.entered new ti walks) =
      let index = ti ∙ ap (store w (some r.next_index)) q in
      let none_at = sym (ap (λ (g : ℕ → Option ℕ). g w) q) ∙ new in
      record {
        frames = record { view_index = w; next_edge = 0 } ∷ next_frame f ∷ fs;
        walks = walks;
        less = omega (
          arith,
          ap (unvisited sources n) index,
          unvisited-store sources n w r.next_index s.index (bound f.view_index f.next_edge w e)
              none_at,
          get_elem?-lt (sources f.view_index) f.next_edge e,
        );
        kept = λ x j g.
            ap (λ (h : ℕ → Option ℕ). h x) index
            ∙ store_other w x (some r.next_index) s.index (differ_some s.index x w j none_at g)
            ∙ g;
        outside = λ x le.
            ap (λ (h : ℕ → Option ℕ). h x) index
            ∙ store_other w x (some r.next_index) s.index
                (λ p. omega (arith, p, bound f.view_index f.next_edge w e));
      }
  follows-Steps s r t f w fs e q (Follows.passed ti walks) =
      let index = ti ∙ q in
      record {
        frames = next_frame f ∷ fs;
        walks = walks;
        less = omega (
          arith,
          ap (unvisited sources n) index,
          get_elem?-lt (sources f.view_index) f.next_edge e,
        );
        kept = λ x j g. ap (λ (h : ℕ → Option ℕ). h x) index ∙ g;
        outside = λ x le. ap (λ (h : ℕ → Option ℕ). h x) index;
      }

  moves-Steps :
      (s t : Walk) (f : Frame) (fs : List Frame)
      → Moves sources s t f fs
      → Steps sources n s t (f ∷ fs)
  moves-Steps s t f fs (Moves.followed w r e q follows) = follows-Steps s r t f w fs e q follows
  moves-Steps s t f fs (Moves.left e l) = record {
    frames = fs;
    walks = l.walks;
    less = omega (arith, ap (unvisited sources n) l.index);
    kept = λ x j g. ap (λ (h : ℕ → Option ℕ). h x) l.index ∙ g;
    outside = λ x le. ap (λ (h : ℕ → Option ℕ). h x) l.index;
  }

  walk_idle : (fuel : ℕ) (s : Walk) → s.frames ≡ [] → walk (suc fuel) sources s ≡ s
  unfolding walk
  walk_idle fuel s e = simp (e, walk) refl

  walk_more :
      (fuel : ℕ) (s : Walk) (f : Frame) (fs : List Frame)
      → s.frames ≡ f ∷ fs
      → walk (suc fuel) sources s ≡ walk fuel sources (advance sources f fs s)
  unfolding walk
  walk_more fuel s f fs e = simp (e, walk) refl

  -- Enough rounds empty the frames.
  pub walk-Ran :
      (fuel : ℕ) (s : Walk) (fs : List Frame)
      → Walks sources s fs
      → unvisited sources n s.index + weights sources fs ≤ fuel
      → Ran sources n s (walk fuel sources s)
  unfolding walk
  walk-Ran zero s [] h le = record { walks = h; kept = λ x j e. e; outside = λ x le. refl }
  walk-Ran zero s (f ∷ fs) h le = absurd (omega arith)
  walk-Ran (suc fuel) s [] h le =
      subst (Ran sources n s) (sym (walk_idle fuel s h.frames))
        (record { walks = h; kept = λ x j e. e; outside = λ x le. refl })
  walk-Ran (suc fuel) s (f ∷ fs) h le =
      let t = advance sources f fs s in
      let step = moves-Steps s t f fs (advance-Moves sources s f fs h) in
      let r = walk-Ran fuel t step.frames step.walks (omega (arith, step.less)) in
      subst (Ran sources n s) (sym (walk_more fuel s f fs h.frames)) (record {
        walks = r.walks;
        kept = λ x j e. r.kept x j (step.kept x j e);
        outside = λ x le. r.outside x le ∙ step.outside x le;
      })
