-- ===== src/DataFlow/Stratify/Errors.antt =====
-- Which views the pass rejects, and the derivation classes.
use dr_lojekyll.Prelude.{
  ℕ, ◌≡◌, ◌⊎◌, refl, ap, subst, ◌∙◌, sym, inl, inr, Bool, true, false, Option, List, [], ◌∷◌, ◌++◌,
  map, Bool-cases, if◌then◌else◌,
}
use dr_lojekyll.DataFlow.Stratify.Reaches.{In}
use dr_lojekyll.DataFlow.Stratify.Pass.{
  Kind, Message, Input, same_stratum, negation_messages, reject_negation, reject_in_scc_agg,
  reject_aggregate, reject_kv_index,
}

abbrev pub about : Message → ℕ
about (Message.unstratified_negation v) = v
about (Message.negated_predicate v p) = v
about (Message.unstratified_aggregation v input) = v

-- Some message is about `v`.
abbrev pub Reported : ℕ → List Message → Type 0
Reported v [] = ⊥
Reported v (m ∷ ms) = (v ≡ about m) ⊎ Reported v ms

-- The views that have to be complete before a view runs.
abbrev pub awaits : Kind → List ℕ → List ℕ
awaits (Kind.negation u predicates) us = u ∷ []
awaits Kind.aggregate us = us
awaits Kind.kv_index us = us
awaits Kind.other us = []

pub Reported-append :
    (v : ℕ) (ms ns : List Message) → Reported v (ms ++ ns) → Reported v ms ⊎ Reported v ns
Reported-append v [] ns h = inr h
Reported-append v (m ∷ ms) ns (inl e) = inl (inl e)
Reported-append v (m ∷ ms) ns (inr h) = elim (Reported-append v ms ns h) [
  | inl k ↦ inl (inr k)
  | inr k ↦ inr k
]

pub Reported-left : (v : ℕ) (ms ns : List Message) → Reported v ms → Reported v (ms ++ ns)
Reported-left v [] ns h = absurd h
Reported-left v (m ∷ ms) ns (inl e) = inl e
Reported-left v (m ∷ ms) ns (inr h) = inr (Reported-left v ms ns h)

pub Reported-right : (v : ℕ) (ms ns : List Message) → Reported v ns → Reported v (ms ++ ns)
Reported-right v [] ns h = h
Reported-right v (m ∷ ms) ns h = inr (Reported-right v ms ns h)

-- A view that the test finds in the stratum of `v`.
abbrev pub Meets : (ℕ → Option ℕ) → ℕ → List ℕ → Type 0
Meets stratum v us = (u : ℕ) × In u us × (same_stratum (stratum v) (stratum u) ≡ true)

module _ (stratum : ℕ → Option ℕ) (v : ℕ) where
  predicates_about :
      (x : ℕ) (ps : List ℕ) → Reported x (map (Message.negated_predicate v) ps) → x ≡ v
  predicates_about x [] h = absurd h
  predicates_about x (p ∷ ps) (inl e) = e
  predicates_about x (p ∷ ps) (inr h) = predicates_about x ps h

  messages_about : (x : ℕ) (ps : List ℕ) → Reported x (negation_messages v ps) → x ≡ v
  unfolding negation_messages
  messages_about x [] (inl e) = e
  messages_about x [] (inr h) = absurd h
  messages_about x (p ∷ ps) h = predicates_about x (p ∷ ps) h

  messages_some : (ps : List ℕ) → Reported v (negation_messages v ps)
  unfolding negation_messages
  messages_some [] = inl refl
  messages_some (p ∷ ps) = inl refl

  if-Reported :
      (x : ℕ) (c : Bool) (ms ns : List Message)
      → Reported x (if c then ms else ns)
      → ((c ≡ true) × Reported x ms) ⊎ Reported x ns
  if-Reported x true ms ns h = inl (refl, h)
  if-Reported x false ms ns h = inr h

  if_messages : (c : Bool) (ms ns : List Message) → c ≡ true → (if c then ms else ns) ≡ ms
  if_messages true ms ns e = refl
  if_messages false ms ns e = absurd (cc e)

  pub negation-Meets :
      (x : ℕ) (k : Kind) (us : List ℕ)
      → Reported x (reject_negation stratum v k)
      → (x ≡ v) × Meets stratum v (awaits k us)
  unfolding reject_negation
  negation-Meets x (Kind.negation u ps) us h =
      elim (if-Reported x (same_stratum (stratum v) (stratum u)) (negation_messages v ps) [] h) [
        | inl (t, m) ↦ (messages_about x ps m, (u, inl refl, t))
        | inr n ↦ absurd n
      ]
  negation-Meets x Kind.aggregate us h = absurd h
  negation-Meets x Kind.kv_index us h = absurd h
  negation-Meets x Kind.other us h = absurd h

  scc_agg-Meets :
      (x : ℕ) (input : Input) (us : List ℕ)
      → Reported x (reject_in_scc_agg stratum v input us)
      → (x ≡ v) × Meets stratum v us
  unfolding reject_in_scc_agg
  scc_agg-Meets x input [] h = absurd h
  scc_agg-Meets x input (u ∷ us) h =
      elim (if-Reported x (same_stratum (stratum v) (stratum u))
        (Message.unstratified_aggregation v input ∷ []) (reject_in_scc_agg stratum v input us) h) [
          | inl (t, inl e) ↦ (e, (u, inl refl, t))
          | inl (t, inr n) ↦ absurd n
          | inr k ↦ let (e, (y, m, t)) = scc_agg-Meets x input us k in (e, (y, inr m, t))
        ]

  pub aggregate-Meets :
      (x : ℕ) (k : Kind) (us : List ℕ)
      → Reported x (reject_aggregate stratum v k us)
      → (x ≡ v) × Meets stratum v (awaits k us)
  unfolding reject_aggregate
  aggregate-Meets x (Kind.negation u ps) us h = absurd h
  aggregate-Meets x Kind.aggregate us h = scc_agg-Meets x Input.summarized us h
  aggregate-Meets x Kind.kv_index us h = absurd h
  aggregate-Meets x Kind.other us h = absurd h

  pub kv_index-Meets :
      (x : ℕ) (k : Kind) (us : List ℕ)
      → Reported x (reject_kv_index stratum v k us)
      → (x ≡ v) × Meets stratum v (awaits k us)
  unfolding reject_kv_index
  kv_index-Meets x (Kind.negation u ps) us h = absurd h
  kv_index-Meets x Kind.aggregate us h = absurd h
  kv_index-Meets x Kind.kv_index us h = scc_agg-Meets x Input.keyed us h
  kv_index-Meets x Kind.other us h = absurd h

  Meets-scc_agg :
      (input : Input) (us : List ℕ)
      → Meets stratum v us
      → Reported v (reject_in_scc_agg stratum v input us)
  unfolding reject_in_scc_agg
  Meets-scc_agg input [] (u, h, t) = absurd h
  Meets-scc_agg input (y ∷ us) (u, h, t) =
      elim (Bool-cases (same_stratum (stratum v) (stratum y))) [
        | inl s ↦ rw s (inl refl)
        | inr f ↦ rw f (elim h [
          | inl e ↦ absurd (cc (t, f, ap (λ z. same_stratum (stratum v) (stratum z)) e))
          | inr k ↦ Meets-scc_agg input us (u, k, t)
        ])
      ]

  -- What meets its own stratum is rejected by one of the three loops.
  pub Meets-Reported :
      (k : Kind) (us : List ℕ)
      → Meets stratum v (awaits k us)
      → Reported v (reject_negation stratum v k)
        ⊎ Reported v (reject_aggregate stratum v k us)
        ⊎ Reported v (reject_kv_index stratum v k us)
  unfolding reject_negation reject_aggregate reject_kv_index
  Meets-Reported (Kind.negation u ps) us (y, inl e, t) =
      let s = ap (λ z. same_stratum (stratum v) (stratum z)) (sym e) ∙ t in
      inl
        (subst (Reported v) (sym (if_messages _ (negation_messages v ps) [] s)) (messages_some ps))
  Meets-Reported (Kind.negation u ps) us (y, inr h, t) = absurd h
  Meets-Reported Kind.aggregate us h = inr (inl (Meets-scc_agg Input.summarized us h))
  Meets-Reported Kind.kv_index us h = inr (inr (Meets-scc_agg Input.keyed us h))
  Meets-Reported Kind.other us (y, h, t) = absurd h
