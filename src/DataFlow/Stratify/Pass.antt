-- ===== src/DataFlow/Stratify/Pass.antt =====
-- QueryImpl::Stratify as a whole: the sources of the views, their strata, the strata of the data
-- models, and the errors. QueryView::DerivationClassInto of lib/DataFlow/Query.cpp.
use dr_lojekyll.Prelude.{
  ℕ, ◌+◌, Bool, true, false, Option, none, some, List, [], ◌∷◌, ◌++◌, map, get_elem?, length,
  if◌then◌else◌, ltb, leb, ◌==◌,
}
use dr_lojekyll.DataFlow.Stratify.{Walk, strata, min}

-- A NEGATE with the view that it negates and the negated predicates.
pub data Kind : Type 0 where
  negation : ℕ → List ℕ → Kind
  aggregate : Kind
  kv_index : Kind
  other : Kind

-- A live view is its place in the list; a view that is not live has no place in it. `reads` and
-- `writes` are the declarations of a SELECT and of an INSERT, `model` is the id of the canonical set.
pub record View : Type 0 where
  pub predecessors : List ℕ
  pub reads : Option ℕ
  pub writes : Option ℕ
  pub kind : Kind
  pub model : ℕ

-- The views that `index_of` finds.
unfoldable pub live : ℕ → List ℕ → List ℕ
live num_views [] = []
live num_views (u ∷ us) = let rest = live num_views us in if ltb u num_views then u ∷ rest else rest

abbrev pub negated_views : Kind → List ℕ
negated_views (Kind.negation u predicates) = u ∷ []
negated_views Kind.aggregate = []
negated_views Kind.kv_index = []
negated_views Kind.other = []

unfoldable pub is_writing : ℕ → View → Bool
is_writing declaration w = elim w.writes [ none ↦ false | some d ↦ d == declaration ]

-- The INSERTs of a declaration, from place `i` on.
unfoldable pub inserts_of : ℕ → ℕ → List View → List ℕ
inserts_of declaration i [] = []
inserts_of declaration i (w ∷ views) =
    let rest = inserts_of declaration (i + 1) views in
    if is_writing declaration w then i ∷ rest else rest

unfoldable pub seam_sources : List View → View → List ℕ
seam_sources views w = elim w.reads [ none ↦ [] | some d ↦ inserts_of d 0 views ]

unfoldable pub view_sources : List View → View → List ℕ
view_sources views w =
    live (length views) w.predecessors
    ++ (live (length views) (negated_views w.kind) ++ seam_sources views w)

unfoldable pub sources_of : List View → ℕ → List ℕ
sources_of views v = elim (get_elem? views v) [ none ↦ [] | some w ↦ view_sources views w ]

abbrev pub no_stratum : ℕ
no_stratum = 4294967295

-- `state[v].stratum`, as a number.
unfoldable pub state_stratum : Walk → ℕ → ℕ
state_stratum s v = elim (s.stratum v) [ none ↦ no_stratum | some k ↦ k ]

-- `view->stratum` after the pass.
unfoldable pub stratum_of : ℕ → Walk → ℕ → Option ℕ
stratum_of num_views s v = if ltb v num_views then some (state_stratum s v) else none

-- The least and the highest stratum of a model's views.
pub record Range : Type 0 where
  pub model : ℕ
  pub low : ℕ
  pub high : ℕ

unfoldable pub max : ℕ → ℕ → ℕ
max a b = if ltb a b then b else a

unfoldable pub add_stratum : ℕ → ℕ → List Range → List Range
add_stratum model k [] = record { model = model; low = k; high = k } ∷ []
add_stratum model k (r ∷ ranges) =
    let rest = add_stratum model k ranges in
    if r.model == model
    then record { model = model; low = min r.low k; high = max r.high k } ∷ ranges
    else r ∷ rest

-- The loop over the views.
unfoldable pub model_strata : Walk → ℕ → List View → List Range → List Range
model_strata s i [] ranges = ranges
model_strata s i (w ∷ views) ranges =
    model_strata s (i + 1) views (add_stratum w.model (state_stratum s i) ranges)

unfoldable pub insert_model : ℕ → List ℕ → List ℕ
insert_model m [] = m ∷ []
insert_model m (x ∷ xs) = let rest = insert_model m xs in if leb m x then m ∷ x ∷ xs else x ∷ rest

-- `stratum_straddling_models`, sorted by id.
unfoldable pub straddling : List Range → List ℕ
straddling [] = []
straddling (r ∷ ranges) =
    let rest = straddling ranges in if r.low == r.high then rest else insert_model r.model rest

unfoldable pub same_stratum : Option ℕ → Option ℕ → Bool
same_stratum none none = true
same_stratum none (some l) = false
same_stratum (some k) none = false
same_stratum (some k) (some l) = k == l

pub data Input : Type 0 where
  summarized : Input
  keyed : Input

-- An error, about a view.
pub data Message : Type 0 where
  unstratified_negation : ℕ → Message
  negated_predicate : ℕ → ℕ → Message
  unstratified_aggregation : ℕ → Input → Message

unfoldable pub negation_messages : ℕ → List ℕ → List Message
negation_messages v [] = Message.unstratified_negation v ∷ []
negation_messages v (p ∷ predicates) = map (Message.negated_predicate v) (p ∷ predicates)

unfoldable pub reject_negation : (ℕ → Option ℕ) → ℕ → Kind → List Message
reject_negation stratum v (Kind.negation u predicates) =
    if same_stratum (stratum v) (stratum u) then negation_messages v predicates else []
reject_negation stratum v Kind.aggregate = []
reject_negation stratum v Kind.kv_index = []
reject_negation stratum v Kind.other = []

-- `reject_in_scc_agg`: one error for each aggregate.
unfoldable pub reject_in_scc_agg : (ℕ → Option ℕ) → ℕ → Input → List ℕ → List Message
reject_in_scc_agg stratum v input [] = []
reject_in_scc_agg stratum v input (u ∷ us) =
    let rest = reject_in_scc_agg stratum v input us in
    if same_stratum (stratum v) (stratum u)
    then Message.unstratified_aggregation v input ∷ []
    else rest

unfoldable pub reject_aggregate : (ℕ → Option ℕ) → ℕ → Kind → List ℕ → List Message
reject_aggregate stratum v Kind.aggregate us = reject_in_scc_agg stratum v Input.summarized us
reject_aggregate stratum v (Kind.negation u predicates) us = []
reject_aggregate stratum v Kind.kv_index us = []
reject_aggregate stratum v Kind.other us = []

unfoldable pub reject_kv_index : (ℕ → Option ℕ) → ℕ → Kind → List ℕ → List Message
reject_kv_index stratum v Kind.kv_index us = reject_in_scc_agg stratum v Input.keyed us
reject_kv_index stratum v (Kind.negation u predicates) us = []
reject_kv_index stratum v Kind.aggregate us = []
reject_kv_index stratum v Kind.other us = []

-- A loop over the views of the list, from place `i` on.
unfoldable pub reject_all : (ℕ → View → List Message) → ℕ → List View → List Message
reject_all reject i [] = []
reject_all reject i (w ∷ views) = reject i w ++ reject_all reject (i + 1) views

pub record Outcome : Type 0 where
  pub num_strata : ℕ
  pub stratum : ℕ → Option ℕ
  pub models : List Range
  pub straddling_models : List ℕ
  pub errors : List Message

unfoldable pub stratify : List View → Outcome
stratify views =
    let s = strata (length views) (sources_of views) in
    let stratum = stratum_of (length views) s in
    let models = model_strata s 0 views [] in
    record {
      num_strata = s.next_stratum;
      stratum = stratum;
      models = models;
      straddling_models = straddling models;
      errors =
          reject_all (λ v w. reject_negation stratum v w.kind) 0 views
          ++ (reject_all (λ v w. reject_aggregate stratum v w.kind w.predecessors) 0 views
              ++ reject_all (λ v w. reject_kv_index stratum v w.kind w.predecessors) 0 views);
    }

pub data DerivClass : Type 0 where
  non_recursive : DerivClass
  recursive : DerivClass

-- `members` are the views of the target's data model.
unfoldable pub derivation_class_into : (ℕ → Option ℕ) → ℕ → List ℕ → DerivClass
derivation_class_into stratum v [] = DerivClass.non_recursive
derivation_class_into stratum v (u ∷ members) =
    let rest = derivation_class_into stratum v members in
    if same_stratum (stratum u) (stratum v) then DerivClass.recursive else rest
