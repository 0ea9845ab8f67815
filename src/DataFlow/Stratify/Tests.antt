-- ===== src/DataFlow/Stratify/Tests.antt =====
-- Runs of Stratify on small queries.
use dr_lojekyll.Prelude.{ℕ, ◌≡◌, ◌↔◌, ◌<◌, refl, inl, inr, none, some, List, [], ◌∷◌, map, arith}
use dr_lojekyll.DataFlow.Stratify.{
  store, min, enter, lower, follow, pop_component, lower_parent, is_root, close_component, leave,
  advance, walk, num_rounds, walk_from, walk_roots, strata,
}
use dr_lojekyll.DataFlow.Stratify.Reaches.{In}
use dr_lojekyll.DataFlow.Stratify.Pass.{
  Kind, View, Message, DerivClass, live, is_writing, inserts_of, seam_sources, view_sources,
  sources_of, state_stratum, stratum_of, max, add_stratum, model_strata, insert_model, straddling,
  same_stratum, negation_messages, reject_negation, reject_in_scc_agg, reject_aggregate,
  reject_kv_index, reject_all, stratify, derivation_class_into,
}
use dr_lojekyll.DataFlow.Stratify.Result.{Strata, strata-Strata}
use dr_lojekyll.DataFlow.Stratify.Sources.{sources-bound}
use dr_lojekyll.DataFlow.Stratify.Condensation.{IsStratified, stratify-IsStratified}
use dr_lojekyll.DataFlow.Stratify.Owners.{IsOwned, stratify-IsOwned}
use dr_lojekyll.DataFlow.Stratify.Errors.{Reported}
use dr_lojekyll.DataFlow.Stratify.Rejects.{Unstratified, stratify-errors_iff}
use dr_lojekyll.DataFlow.Stratify.Classes.{Circulates, derivation_class_into_iff}

stratifying : Unit {0}
unfolding store min enter lower follow pop_component lower_parent is_root close_component leave
    advance walk num_rounds walk_from walk_roots strata live is_writing inserts_of seam_sources
    view_sources sources_of state_stratum stratum_of max add_stratum model_strata insert_model
    straddling same_stratum negation_messages reject_negation reject_in_scc_agg reject_aggregate
    reject_kv_index reject_all stratify derivation_class_into
stratifying = tt

abbrev plain_view : List ℕ → ℕ → View
plain_view predecessors model = record {
  predecessors = predecessors;
  reads = none;
  writes = none;
  kind = Kind.other;
  model = model;
}

-- Two receives with a tuple each, a union and a join that depend on each other, an INSERT, and a
-- SELECT of what it writes.
abbrev closure_query : List View
closure_query =
    plain_view [] 1
    ∷ plain_view [] 2
    ∷ plain_view (0 ∷ []) 1
    ∷ plain_view (1 ∷ []) 2
    ∷ plain_view (2 ∷ 5 ∷ []) 3
    ∷ plain_view (4 ∷ 3 ∷ []) 3
    ∷ record (plain_view (4 ∷ []) 3) { writes = some 7 }
    ∷ record (plain_view [] 3) { reads = some 7 }
    ∷ []

closure_query_strata :
    map (stratify closure_query).stratum (0 ∷ 1 ∷ 2 ∷ 3 ∷ 4 ∷ 5 ∷ 6 ∷ 7 ∷ 8 ∷ [])
    ≡ some 0 ∷ some 1 ∷ some 2 ∷ some 3 ∷ some 4 ∷ some 4 ∷ some 5 ∷ some 6 ∷ none ∷ []
unfolding stratifying
closure_query_strata = refl

closure_query_straddling : (stratify closure_query).straddling_models ≡ 1 ∷ 2 ∷ 3 ∷ []
unfolding stratifying
closure_query_straddling = refl

-- A union that feeds on a NEGATE of itself, and an aggregate of it.
abbrev negated_query : List View
negated_query =
    plain_view (1 ∷ []) 1
    ∷ record (plain_view [] 2) { kind = Kind.negation 0 (8 ∷ 9 ∷ []) }
    ∷ record (plain_view (1 ∷ 0 ∷ []) 3) { kind = Kind.aggregate }
    ∷ []

negated_query_errors :
    (stratify negated_query).errors
    ≡ Message.negated_predicate 1 8 ∷ Message.negated_predicate 1 9 ∷ []
unfolding stratifying
negated_query_errors = refl

stratify-IsStratified_example : IsStratified closure_query (stratify closure_query)
stratify-IsStratified_example = stratify-IsStratified closure_query

stratify-IsOwned_example : IsOwned closure_query (stratify closure_query)
stratify-IsOwned_example = stratify-IsOwned closure_query

stratify-errors_iff_example :
    Reported 1 (stratify negated_query).errors ↔ Unstratified negated_query 1
stratify-errors_iff_example = stratify-errors_iff negated_query 1

both_live : (u : ℕ) → In u (4 ∷ 5 ∷ []) → u < 8
both_live u (inl e) = omega (arith, e)
both_live u (inr (inl e)) = omega (arith, e)
both_live u (inr (inr h)) = absurd h

derivation_class_into_iff_example :
    (derivation_class_into (stratify closure_query).stratum 5 (4 ∷ 5 ∷ []) ≡ DerivClass.recursive)
    ↔ Circulates closure_query 5 (4 ∷ 5 ∷ [])
derivation_class_into_iff_example =
    derivation_class_into_iff closure_query 5 (4 ∷ 5 ∷ []) (omega arith) both_live

strata-Strata_example : Strata (sources_of closure_query) 8 (strata 8 (sources_of closure_query))
strata-Strata_example = strata-Strata 8 (sources_of closure_query) (sources-bound closure_query)
