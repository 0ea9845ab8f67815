-- ===== src/DataFlow/Differential.antt =====
-- TrackDifferentialUpdates of lib/DataFlow/Differential.cpp: which views can receive and which can
-- produce deletions. A view is its place in the list of all views, in the order of ForEachView.
pub mod Moves
pub mod Seams
pub mod Reasons
pub mod Closed
pub mod Exact
pub mod Messages
use dr_lojekyll.Prelude.{
  ℕ, zero, suc, ◌+◌, Bool, true, false, not, ◌&&◌, ◌||◌, Option, none, some, List, [], ◌∷◌, map,
  get_elem?, set, if◌then◌else◌, ◌==◌,
}

-- `num_never` counts the negated predicates that are marked with `@never`.
pub record Negate : Type 0 where
  pub is_never : Bool
  pub negated_view : ℕ
  pub num_never : ℕ

-- What the pass reads of a view: the declaration that a SELECT reads or an INSERT writes, whether it
-- receives a `@differential` message, whether it is an AGGREGATE or KVINDEX, the views that use its
-- columns, and for an INSERT into a message stream whether the message is `@differential`.
pub record View : Type 0 where
  pub reads : Option ℕ
  pub writes : Option ℕ
  pub receives_differential : Bool
  pub churns : Bool
  pub negate : Option Negate
  pub users : List ℕ
  pub sends : Option Bool

pub record Marks : Type 0 where
  pub can_receive : List Bool
  pub can_produce : List Bool
  pub changed : Bool
  pub num_errors : ℕ

unfoldable pub is_reading : ℕ → View → Bool
is_reading declaration w = elim w.reads [ none ↦ false | some d ↦ d == declaration ]

-- The SELECTs that read a declaration, from place `i` on.
unfoldable pub selects_of : ℕ → ℕ → List View → List ℕ
selects_of declaration i [] = []
selects_of declaration i (w ∷ views) =
    let rest = selects_of declaration (i + 1) views in
    if is_reading declaration w then i ∷ rest else rest

-- `insert_to_selects`
unfoldable pub seam : List View → View → List ℕ
seam views w = elim w.writes [ none ↦ [] | some declaration ↦ selects_of declaration 0 views ]

-- A flag of a view; there is no view behind the last.
unfoldable pub is_set : ℕ → List Bool → Bool
is_set v flags = elim (get_elem? flags v) [ none ↦ false | some b ↦ b ]

unfoldable pub is_unset : ℕ → List Bool → Bool
is_unset v flags = elim (get_elem? flags v) [ none ↦ false | some b ↦ not b ]

unfoldable pub raise_receive : ℕ → Marks → Marks
raise_receive v s =
    if is_unset v s.can_receive
    then record s { can_receive = set s.can_receive v true; changed = true }
    else s

unfoldable pub raise_produce : ℕ → Marks → Marks
raise_produce v s =
    if is_unset v s.can_produce
    then record s { can_produce = set s.can_produce v true; changed = true }
    else s

unfoldable pub raise_all : List ℕ → Marks → Marks
raise_all [] s = s
raise_all (v ∷ vs) s = raise_all vs (raise_receive v s)

-- A `@never` on something that can produce deletions is reported.
unfoldable pub report_never : Negate → Marks → Marks
report_never n s =
    if is_set n.negated_view s.can_produce
    then record s { num_errors = s.num_errors + n.num_never }
    else s

unfoldable pub visit_negate : ℕ → Negate → Marks → Marks
visit_negate v n s =
    if n.is_never
    then report_never n (if is_set v s.can_receive then raise_produce v s else s)
    else raise_produce v s

unfoldable pub visit_negation : ℕ → View → Marks → Marks
visit_negation v w s =
    if is_set v s.can_produce then s else elim w.negate [ none ↦ s | some n ↦ visit_negate v n s ]

unfoldable pub visit_receive : ℕ → Marks → Marks
visit_receive v s = if is_set v s.can_receive then raise_produce v s else s

unfoldable pub visit_produce : ℕ → List ℕ → Marks → Marks
visit_produce v users s = if is_set v s.can_produce then raise_all users s else s

-- What the pass does with a view.
unfoldable pub visit : List View → ℕ → View → Marks → Marks
visit views v w s =
    visit_produce v w.users
      (visit_produce v (seam views w) (visit_receive v (visit_negation v w s)))

unfoldable pub sweep : List View → ℕ → List View → Marks → Marks
sweep views v [] s = s
sweep views v (w ∷ ws) s = sweep views (v + 1) ws (visit views v w s)

-- All flags are reset, and those at the sources set.
unfoldable pub start_marks : ℕ → List View → Marks
start_marks num_errors views = record {
  can_receive = map (λ w. w.receives_differential) views;
  can_produce = map (λ w. w.receives_differential || w.churns) views;
  changed = true;
  num_errors = num_errors;
}

unfoldable pub rounds : ℕ → List View → Marks → Marks
rounds zero views s = s
rounds (suc fuel) views s =
    let rest = rounds fuel views (sweep views 0 views (record s { changed = false })) in
    if s.changed && (s.num_errors == 0) then rest else s

-- As many rounds as there are flags, and one to see that nothing changes.
unfoldable pub num_flags : List View → ℕ
num_flags [] = 1
num_flags (w ∷ views) = num_flags views + 2

unfoldable pub track_updates : ℕ → List View → Marks
track_updates num_errors views = rounds (num_flags views) views (start_marks num_errors views)

-- Messages that are sent with deletions, but are not marked for them.
unfoldable pub message_errors : ℕ → List View → Marks → ℕ
message_errors v [] s = 0
message_errors v (w ∷ views) s =
    let rest = message_errors (v + 1) views s in
    elim w.sends [
      | none ↦ rest
      | some is_differential ↦
          if not is_differential && is_set v s.can_produce then rest + 1 else rest
    ]

unfoldable pub track_differential_updates : Bool → ℕ → List View → Marks
track_differential_updates report_message_errors num_errors views =
    let s = track_updates num_errors views in
    if report_message_errors
    then record s { num_errors = s.num_errors + message_errors 0 views s }
    else s
