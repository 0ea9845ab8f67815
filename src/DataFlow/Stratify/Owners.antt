-- ===== src/DataFlow/Stratify/Owners.antt =====
-- The strata that own the tables of the data models, and the models that straddle strata.
use dr_lojekyll.Prelude.{
  ℕ, ◌+◌, ◌<◌, ◌≤◌, ◌≡◌, ◌≢◌, ◌↔◌, ap, subst, ◌∙◌, sym, inl, inr, some, List, [], get_elem?,
  get_elem?-lt, length, arith, Option-cases,
}
use dr_lojekyll.DataFlow.Stratify.Reaches.{In}
use dr_lojekyll.DataFlow.Stratify.Pass.{View, Range, Outcome, state_stratum, stratify, model_strata}
use dr_lojekyll.DataFlow.Stratify.Ranges.{
  find_range, Straddles, straddling-Straddles, Straddles-straddling,
}
use dr_lojekyll.DataFlow.Stratify.Models.{
  Member, Attained, Held, Summarizes, model_strata-Summarizes,
}
use dr_lojekyll.DataFlow.Stratify.Condensation.{
  stratify-IsStratified, walked, stratum_walked, state_stratum_eq,
}

-- A member of the model with the stratum.
pub record Has (views : List View) (o : Outcome) (m k : ℕ) : Type 0 where
  pub at : ℕ
  pub member : Member views m at
  pub is_it : o.stratum at ≡ some k

-- The range of a model spans the strata of its views, and both ends are taken.
pub record Spans (views : List View) (o : Outcome) (m : ℕ) (r : Range) : Type 0 where
  pub bounds : (v k : ℕ) → Member views m v → o.stratum v ≡ some k → (r.low ≤ k) × (k ≤ r.high)
  pub least : Has views o m r.low
  pub most : Has views o m r.high

pub record IsOwned (views : List View) (o : Outcome) : Type 0 where
  pub found : (m v : ℕ) → Member views m v → (r : Range) × (find_range m o.models ≡ some r)
  pub spans : (m : ℕ) (r : Range) → find_range m o.models ≡ some r → Spans views o m r
  pub straddles :
      (m : ℕ)
      → In m o.straddling_models ↔ ((k : ℕ) × (l : ℕ) × Has views o m k × Has views o m l × (k ≢ l))

module _ (views : List View) where
  abbrev numbers : ℕ → ℕ
  numbers = state_stratum (walked views)

  abbrev ranges : List Range
  ranges = model_strata (walked views) 0 views []

  member-lt : (m v : ℕ) → Member views m v → v < length views
  member-lt m v h = get_elem?-lt views v h.is_at

  -- The number that is read for a view is its stratum.
  number_of : (v : ℕ) → v < length views → (stratify views).stratum v ≡ some (numbers v)
  number_of v lt =
      let (k, e, less) = (stratify-IsStratified views).assigned v lt in
      e ∙ ap some (sym (state_stratum_eq (walked views) v k (stratum_walked views v k e)))

  start-Summarizes : Summarizes views (walked views) 0 []
  start-Summarizes = record {
    fits =
        λ m. record { absent = λ e v lt k. absurd (omega arith); present = λ r e. absurd (cc e) };
    distinct = tt;
  }

  all-Summarizes : Summarizes views (walked views) (length views) ranges
  all-Summarizes =
      let z : 0 + length views ≡ length views = omega arith in
      subst (λ j. Summarizes views (walked views) j ranges) z
        (model_strata-Summarizes views (walked views) 0 views []
          (λ j. let y : j ≡ 0 + j = omega arith in ap (get_elem? views) y) start-Summarizes)

  Attained-Has :
      (m k : ℕ) → Attained views numbers (length views) m k → Has views (stratify views) m k
  Attained-Has m k a = record {
    at = a.at;
    member = a.member;
    is_it = number_of a.at a.before ∙ ap some a.is_it;
  }

  Held-Spans :
      (m : ℕ) (r : Range) → Held views numbers (length views) m r → Spans views (stratify views) m r
  Held-Spans m r h = record {
    bounds = λ v k mem e.
        let lt = member-lt m v mem in
        let q : numbers v ≡ k = cc (e, number_of v lt) in
        let (a, b) = h.bounds v lt mem in (omega (arith, q), omega (arith, q));
    least = Attained-Has m r.low h.least;
    most = Attained-Has m r.high h.most;
  }

  found_range : (m v : ℕ) → Member views m v → (r : Range) × (find_range m ranges ≡ some r)
  found_range m v mem = elim (Option-cases (find_range m ranges)) [
    | inl e ↦ absurd ((all-Summarizes.fits m).absent e v (member-lt m v mem) mem)
    | inr h ↦ h
  ]

  range-Spans :
      (m : ℕ) (r : Range) → find_range m ranges ≡ some r → Spans views (stratify views) m r
  range-Spans m r e = Held-Spans m r ((all-Summarizes.fits m).present r e)

  -- Members with different strata give a range that is no single stratum.
  differ-Straddles :
      (m k l : ℕ)
      → Has views (stratify views) m k
      → Has views (stratify views) m l
      → k ≢ l
      → Straddles m ranges
  differ-Straddles m k l a b ne =
      let (r, e) = found_range m a.at a.member in
      let h = range-Spans m r e in
      let (x, y) = h.bounds a.at k a.member a.is_it in
      let (z, w) = h.bounds b.at l b.member b.is_it in (r, e, λ q. ne (omega (arith, q)))

  -- The model of every live view has a range; the range of a model bounds the strata of its
  -- views, and both ends are the strata of views of the model; and a model is listed as
  -- straddling exactly if two of its views have different strata.
  pub stratify-IsOwned : IsOwned views (stratify views)
  unfolding stratify
  stratify-IsOwned = record {
    found = found_range;
    spans = range-Spans;
    straddles = λ m. (
      λ h.
          let (r, e, ne) = straddling-Straddles m ranges all-Summarizes.distinct h in
          let s = range-Spans m r e in (r.low, r.high, s.least, s.most, ne),
      λ (k, l, a, b, ne). Straddles-straddling m ranges (differ-Straddles m k l a b ne),
    );
  }
