-- ===== src/DataFlow/Differential/Exact.antt =====
-- The flags that the pass sets are those that have a reason.
use dr_lojekyll.Prelude.{
  ℕ, zero, suc, ◌+◌, ◌≡◌, refl, sym, ap, subst, ◌∙◌, ◌↔◌, inl, inr, Bool, true, false, ◌||◌, none,
  some, List, [], ◌∷◌, map, get_elem?, length, arith, if◌then◌else◌, Option-cases,
}
use dr_lojekyll.DataFlow.Differential.{
  View, Marks, is_set, is_unset, sweep, start_marks, rounds, num_flags, track_updates,
}
use dr_lojekyll.DataFlow.Differential.Moves.{sweep-Moves, track_updates-IsSettled}
use dr_lojekyll.DataFlow.Differential.Reasons.{Direction, Reason, track_updates-IsSound}
use dr_lojekyll.DataFlow.Differential.Seams.{Reads-seam}
use dr_lojekyll.DataFlow.Differential.Closed.{ClosedAt, AllClosed, sweep-quiet}

-- What the rounds keep from the marks `s0` on: as many flags, those raised, and closed views once nothing changes.
record Tracks (views : List View) (s0 s : Marks) : Type 0 where
  closed : s.changed ≡ false → AllClosed views 0 views s.can_receive s.can_produce
  lengths :
      (length s.can_receive ≡ length s0.can_receive)
      × (length s.can_produce ≡ length s0.can_produce)
  stay_received : (v : ℕ) → is_unset v s0.can_receive ≡ false → is_unset v s.can_receive ≡ false
  stay_produced : (v : ℕ) → is_unset v s0.can_produce ≡ false → is_unset v s.can_produce ≡ false

if-Tracks :
    (views : List View) (s0 : Marks) (b : Bool) (s t : Marks)
    → Tracks views s0 s
    → Tracks views s0 t
    → Tracks views s0 (if b then s else t)
if-Tracks views s0 true s t h k = h
if-Tracks views s0 false s t h k = k

sweep-Tracks :
    (views : List View) (s0 s : Marks)
    → Tracks views s0 s
    → Tracks views s0 (sweep views 0 views (record s { changed = false }))
sweep-Tracks views s0 s h =
    let t = record s { changed = false } in
    let m = sweep-Moves views 0 views t in
    record {
      closed = λ e.
          let q = m.quiet e in
          subst (λ bs. AllClosed views 0 views (sweep views 0 views t).can_receive bs) (sym q.2)
            (subst (λ bs. AllClosed views 0 views bs s.can_produce) (sym q.1)
              (sweep-quiet views 0 views t e));
      lengths = (m.lengths.0 ∙ h.lengths.0, m.lengths.1 ∙ h.lengths.1);
      stay_received = λ v e. m.stay_received v (h.stay_received v e);
      stay_produced = λ v e. m.stay_produced v (h.stay_produced v e);
    }

rounds-Tracks :
    (fuel : ℕ) (views : List View) (s0 s : Marks)
    → Tracks views s0 s
    → Tracks views s0 (rounds fuel views s)
unfolding rounds
rounds-Tracks zero views s0 s h = h
rounds-Tracks (suc fuel) views s0 s h =
    if-Tracks views s0 _ _ s
      (rounds-Tracks fuel views s0 (sweep views 0 views (record s { changed = false }))
        (sweep-Tracks views s0 s h))
      h

in_range :
    (views : List View) (bs : List Bool) (v : ℕ) (w : View)
    → length bs ≡ length views
    → get_elem? views v ≡ some w
    → is_unset v bs ≡ false
    → is_set v bs ≡ true
unfolding is_set is_unset
in_range [] bs v w l g e = absurd (cc g)
in_range (x ∷ views) [] v w l g e = absurd (omega arith)
in_range (x ∷ views) (true ∷ bs) zero w l g e = refl
in_range (x ∷ views) (false ∷ bs) zero w l g e = absurd (cc e)
in_range (x ∷ views) (b ∷ bs) (suc v) w l g e = in_range views bs v w (omega arith) g e

out_of_range :
    (views : List View) (bs : List Bool) (v : ℕ)
    → length bs ≡ length views
    → get_elem? views v ≡ none
    → is_unset v bs ≡ false
unfolding is_unset
out_of_range views [] v l g = refl
out_of_range [] (b ∷ bs) v l g = absurd (omega arith)
out_of_range (x ∷ views) (b ∷ bs) zero l g = absurd (cc g)
out_of_range (x ∷ views) (b ∷ bs) (suc v) l g = out_of_range views bs v (omega arith) g

length-map : (p : View → Bool) (views : List View) → length (map p views) ≡ length views
length-map p [] = refl
length-map p (w ∷ views) = ap suc (length-map p views)

map-set :
    (p : View → Bool) (views : List View) (v : ℕ) (w : View)
    → get_elem? views v ≡ some w
    → p w ≡ true
    → is_unset v (map p views) ≡ false
unfolding is_unset
map-set p [] v w g e = refl
map-set p (x ∷ views) zero w g e = let q : x ≡ w = cc g in rw (q, e) refl
map-set p (x ∷ views) (suc v) w g e = map-set p views v w g e

or_second : (a b : Bool) → b ≡ true → (a || b) ≡ true
or_second true b e = refl
or_second false b e = e

-- A settled pass without errors.
record Settled (views : List View) (num_errors : ℕ) (s : Marks) : Type 0 where
  tracks : Tracks views (start_marks num_errors views) s
  all_closed : AllClosed views 0 views s.can_receive s.can_produce

module _ (views : List View) (num_errors : ℕ) (s : Marks) (h : Settled views num_errors s) where
  abbrev flags : Direction → List Bool
  flags Direction.receive = s.can_receive
  flags Direction.produce = s.can_produce

  length-flags : (d : Direction) → length (flags d) ≡ length views
  unfolding start_marks
  length-flags Direction.receive =
      h.tracks.lengths.0 ∙ length-map (λ w. w.receives_differential) views
  length-flags Direction.produce =
      h.tracks.lengths.1 ∙ length-map (λ w. w.receives_differential || w.churns) views

  closed_at :
      (v : ℕ) (w : View)
      → get_elem? views v ≡ some w
      → ClosedAt views v w s.can_receive s.can_produce
  closed_at v w g =
      let q : 0 + v ≡ v = omega arith in
      subst (λ n. ClosedAt views n w s.can_receive s.can_produce) q (h.all_closed v w g)

  -- Every reason is heeded.
  Reason-flags : (d : Direction) (v : ℕ) → Reason views d v → is_unset v (flags d) ≡ false
  unfolding start_marks
  Reason-flags Direction.receive v (Reason.message _ _ w g e) =
      h.tracks.stay_received v (map-set (λ w. w.receives_differential) views v w g e)
  Reason-flags Direction.produce v (Reason.message _ _ w g e) =
      h.tracks.stay_produced v
        (map-set (λ w. w.receives_differential || w.churns) views v w g (rw e refl))
  Reason-flags _ v (Reason.churn _ w g e) = h.tracks.stay_produced v (
      map-set (λ w. w.receives_differential || w.churns) views v w g
        (or_second w.receives_differential w.churns e))
  Reason-flags _ v (Reason.negation _ w n g e f) = (closed_at v w g).negation n e f
  Reason-flags _ v (Reason.forward _ r) =
      let k = Reason-flags Direction.receive v r in
      elim (Option-cases (get_elem? views v)) [
        | inl g ↦ out_of_range views s.can_produce v (length-flags Direction.produce) g
        | inr (w, g) ↦
            (closed_at v w g).forward
              (in_range views s.can_receive v w (length-flags Direction.receive) g k)
      ]
  Reason-flags _ u (Reason.across v _ d w x g at q t r) =
      let (i, e) = Reads-seam views w x d u at q t in
      (closed_at v w g).across
        (in_range views s.can_produce v w (length-flags Direction.produce) g
          (Reason-flags Direction.produce v r))
        i u e
  Reason-flags _ u (Reason.use_of v i _ w g r e) =
      (closed_at v w g).use_of
        (in_range views s.can_produce v w (length-flags Direction.produce) g
          (Reason-flags Direction.produce v r))
        i u e

-- A view's flags are set exactly when there is a reason.
pub record Exact (views : List View) (s : Marks) : Type 0 where
  pub received :
      (v : ℕ) (w : View)
      → get_elem? views v ≡ some w
      → (is_set v s.can_receive ≡ true) ↔ Reason views Direction.receive v
  pub produced :
      (v : ℕ) (w : View)
      → get_elem? views v ≡ some w
      → (is_set v s.can_produce ≡ true) ↔ Reason views Direction.produce v

start-Tracks :
    (views : List View) (num_errors : ℕ)
    → Tracks views (start_marks num_errors views) (start_marks num_errors views)
unfolding start_marks
start-Tracks views num_errors = record {
  closed = λ e. absurd (cc e);
  lengths = (refl, refl);
  stay_received = λ v e. e;
  stay_produced = λ v e. e;
}

track_updates-Tracks :
    (num_errors : ℕ) (views : List View)
    → Tracks views (start_marks num_errors views) (track_updates num_errors views)
unfolding track_updates
track_updates-Tracks num_errors views =
    rounds-Tracks (num_flags views) views _ _ (start-Tracks views num_errors)

track_updates-Settled :
    (num_errors : ℕ) (views : List View)
    → (track_updates num_errors views).num_errors ≡ 0
    → Settled views num_errors (track_updates num_errors views)
track_updates-Settled num_errors views z =
    let t = track_updates-Tracks num_errors views in
    record {
      tracks = t;
      all_closed = t.closed (elim (track_updates-IsSettled num_errors views) [
        | inl l ↦ absurd (omega arith)
        | inr c ↦ c
      ]);
    }

-- When the pass ends without an error in the log, a view is marked as one that can receive or
-- produce deletions exactly if there is a reason: a differential message at the source, the
-- churn of an aggregate or key-value index, a negation without never, deletions that it receives
-- and so produces, or deletions produced by an INSERT into what it reads or by a view whose
-- columns it uses.
pub track_updates-Exact :
    (num_errors : ℕ) (views : List View)
    → (track_updates num_errors views).num_errors ≡ 0
    → Exact views (track_updates num_errors views)
track_updates-Exact num_errors views z =
    let s = track_updates num_errors views in
    let i = track_updates-IsSound views num_errors in
    let h = track_updates-Settled num_errors views z in
    record {
      received = λ v w g. (
        i.received v,
        λ r.
            in_range views s.can_receive v w (length-flags views num_errors s h Direction.receive) g
              (Reason-flags views num_errors s h Direction.receive v r),
      );
      produced = λ v w g. (
        i.produced v,
        λ r.
            in_range views s.can_produce v w (length-flags views num_errors s h Direction.produce) g
              (Reason-flags views num_errors s h Direction.produce v r),
      );
    }
