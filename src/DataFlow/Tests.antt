-- ===== src/DataFlow/Tests.antt =====
-- Runs of TrackDifferentialUpdates on a small query.
use dr_lojekyll.Prelude.{
  ℕ, ◌⊎◌, inl, inr, arith, ◌≡◌, ◌↔◌, refl, true, false, none, some, List, [], ◌∷◌,
}
use dr_lojekyll.Util.DisjointSet.{set_parent, find}
use dr_lojekyll.DataFlow.EquivalenceSet.{
  Models, find_set, add_views, make_parent, join_roots, force_union, set_induction, try_roots,
  try_union, try_set_induction_group, induction_view_of,
}
use dr_lojekyll.DataFlow.EquivalenceSet.Unions.{Holds}
use dr_lojekyll.DataFlow.EquivalenceSet.Tries.{Tries, try_union-Tries}
use dr_lojekyll.DataFlow.Differential.{
  View, is_reading, selects_of, seam, is_set, is_unset, raise_receive, raise_produce, raise_all,
  report_never, visit_negate, visit_negation, visit_receive, visit_produce, visit, sweep,
  start_marks, rounds, num_flags, track_updates, message_errors, track_differential_updates,
}
use dr_lojekyll.DataFlow.Differential.Exact.{Exact, track_updates-Exact}
use dr_lojekyll.DataFlow.Differential.Moves.{IsSettled, track_updates-IsSettled}
use dr_lojekyll.DataFlow.Differential.Messages.{IsFaithful, track_differential_updates_iff}

tracking : Unit {0}
unfolding is_reading selects_of seam is_set is_unset raise_receive raise_produce raise_all
    report_never visit_negate visit_negation visit_receive visit_produce visit sweep start_marks
    rounds num_flags track_updates message_errors track_differential_updates
tracking = tt

abbrev plain_view : List ℕ → View
plain_view users = record {
  reads = none;
  writes = none;
  receives_differential = false;
  churns = false;
  negate = none;
  users = users;
  sends = none;
}

-- A SELECT of a relation, an INSERT of that relation after it, fed by an aggregate; what the SELECT
-- feeds is sent as a message; a tuple that nothing feeds.
abbrev small_query : List View
small_query =
    record (plain_view (3 ∷ [])) { reads = some 7 }
    ∷ record (plain_view []) { writes = some 7 }
    ∷ record (plain_view (1 ∷ [])) { churns = true }
    ∷ record (plain_view []) { sends = some false }
    ∷ plain_view (3 ∷ [])
    ∷ []

small_query_marks : track_updates 0 small_query ≡ record {
  can_receive = true ∷ true ∷ false ∷ true ∷ false ∷ [];
  can_produce = true ∷ true ∷ true ∷ true ∷ false ∷ [];
  changed = false;
  num_errors = 0;
}
unfolding tracking
small_query_marks = refl

small_query_report : (track_differential_updates true 0 small_query).num_errors ≡ 1
unfolding tracking
small_query_report = refl

track_updates-Exact_example : Exact small_query (track_updates 0 small_query)
unfolding tracking
track_updates-Exact_example = track_updates-Exact 0 small_query refl

track_updates-IsSettled_example : IsSettled (track_updates 0 small_query)
track_updates-IsSettled_example = track_updates-IsSettled 0 small_query

track_differential_updates_iff_example :
    ((track_differential_updates true 0 small_query).num_errors ≡ 0) ↔ IsFaithful small_query
unfolding tracking
track_differential_updates_iff_example = track_differential_updates_iff 0 small_query refl

modelling : Unit {0}
unfolding set_parent find find_set add_views make_parent join_roots force_union set_induction
    try_roots try_union try_set_induction_group induction_view_of
modelling = tt

-- A data model for each view.
abbrev fresh_models : Models
fresh_models = record { parents = λ x. x; induction_view = λ x. none; views_in_set = λ x. x ∷ [] }

-- Two induction views, and three unions of which the last is refused.
abbrev some_models : Models
some_models =
    (try_union 9 (λ x. x) 4 5
      (try_set_induction_group 9 7 7
        (try_set_induction_group 9 5 5 fresh_models).models).models).models

some_models_view : induction_view_of 9 4 some_models ≡ some 5
unfolding modelling
some_models_view = refl

some_models_refused : (try_union 9 (λ x. x) 7 4 some_models).united ≡ false
unfolding modelling
some_models_refused = refl

some_models_forced : (find_set 9 7 (force_union 9 (λ x. x) 7 4 some_models)).root ≡ 5
unfolding modelling
some_models_forced = refl

fresh_models-Holds : Holds fresh_models (λ x. x) 0
fresh_models-Holds = record {
  forest = record { fixed = λ x. refl; climbs = λ x. refl };
  members = λ r v e. (only r v, λ q. inl q);
}
  where
    only : (r v : ℕ) → (v ≡ r) ⊎ ⊥ → v ≡ r
    only r v (inl e) = e
    only r v (inr n) = absurd n

try_union-Tries_example :
    Tries fresh_models (λ x. x) 0 4 5 none none (try_union 9 (λ x. x) 4 5 fresh_models)
try_union-Tries_example =
    try_union-Tries 9 (λ x. x) 4 5 fresh_models (λ x. x) 0 fresh_models-Holds (omega arith)
