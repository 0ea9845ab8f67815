-- ===== src/DataFlow/Stratify/Condensation.antt =====
-- The strata that the pass writes to the views.
use dr_lojekyll.Prelude.{
  ℕ, ◌<◌, ◌≤◌, ◌≡◌, ◌↔◌, refl, ap, ◌∙◌, inl, inr, Bool, true, false, Option, none, some, List,
  length, arith, if◌then◌else◌, ltb,
}
use dr_lojekyll.DataFlow.Stratify.{Walk, strata}
use dr_lojekyll.DataFlow.Stratify.Stored.{le_or_lt}
use dr_lojekyll.DataFlow.Stratify.Result.{Strata, strata-Strata}
use dr_lojekyll.DataFlow.Stratify.Pass.{
  View, Outcome, sources_of, stratum_of, state_stratum, same_stratum, stratify,
}
use dr_lojekyll.DataFlow.Stratify.Edges.{Depends}
use dr_lojekyll.DataFlow.Stratify.Sources.{
  Edge-bound, sources-bound, Reaches-Depends, Depends-Reaches,
}

-- The strata are the classes of views that depend on each other, numbered so that no view depends
-- on a higher stratum.
pub record IsStratified (views : List View) (o : Outcome) : Type 0 where
  pub assigned : (v : ℕ) → v < length views → (k : ℕ) × (o.stratum v ≡ some k) × (k < o.num_strata)
  pub ordered :
      (v u k : ℕ)
      → Depends views v u
      → o.stratum v ≡ some k
      → (l : ℕ) × (o.stratum u ≡ some l) × (l ≤ k)
  pub same :
      (v u k l : ℕ)
      → o.stratum v ≡ some k
      → o.stratum u ≡ some l
      → (k ≡ l) ↔ (Depends views v u × Depends views u v)
  pub used : (k : ℕ) → k < o.num_strata → (v : ℕ) × (v < length views) × (o.stratum v ≡ some k)

if_some_then : (c : Bool) (x y : Option ℕ) → c ≡ true → (if c then x else y) ≡ x
if_some_then true x y e = refl
if_some_then false x y e = absurd (cc e)

if_some_else : (c : Bool) (x y : Option ℕ) → c ≡ false → (if c then x else y) ≡ y
if_some_else true x y e = absurd (cc e)
if_some_else false x y e = refl

pub state_stratum_eq : (s : Walk) (v k : ℕ) → s.stratum v ≡ some k → state_stratum s v ≡ k
unfolding state_stratum
state_stratum_eq s v k e = rw (e, state_stratum) refl

stratum_in : (n : ℕ) (s : Walk) (v k : ℕ) → v < n → s.stratum v ≡ some k → stratum_of n s v ≡ some k
unfolding stratum_of
stratum_in n s v k lt e =
    if_some_then (ltb v n) (some (state_stratum s v)) none (ground (arith, lt))
    ∙ ap some (state_stratum_eq s v k e)

stratum_out : (n : ℕ) (s : Walk) (v : ℕ) → n ≤ v → stratum_of n s v ≡ none
unfolding stratum_of
stratum_out n s v le = if_some_else (ltb v n) _ none (ground (arith, le))

module _ (views : List View) where
  run : Strata (sources_of views) (length views) (strata (length views) (sources_of views))
  run = strata-Strata (length views) (sources_of views) (sources-bound views)

  abbrev pub walked : Walk
  walked = strata (length views) (sources_of views)

  -- A stratum of the outcome is one of the walk.
  stratum_back :
      (v k : ℕ)
      → stratum_of (length views) walked v ≡ some k
      → (v < length views) × (walked.stratum v ≡ some k)
  stratum_back v k e = elim (le_or_lt (length views) v) [
    | inl le ↦ absurd (cc (e, stratum_out (length views) walked v le))
    | inr lt ↦
        let (l, f, less) = run.assigned v lt in
        let q : l ≡ k = cc (e, stratum_in (length views) walked v l lt f) in (lt, f ∙ ap some q)
  ]

  Depends-bound : (v u : ℕ) → Depends views v u → v < length views → u < length views
  Depends-bound _ _ (Depends.self v) lt = lt
  Depends-bound _ _ (Depends.through v u w e d) lt = Depends-bound u w d (Edge-bound views v u e)

  -- Every live view gets a stratum below the number of strata, and every one of these strata has
  -- a view; two views have the same stratum exactly if they depend on each other, by columns, by
  -- the absence that a NEGATE reads or by the seam from an INSERT to a SELECT of its
  -- declaration; and what a view depends on has no higher stratum.
  pub stratify-IsStratified : IsStratified views (stratify views)
  unfolding stratify
  stratify-IsStratified =
      let n = length views in
      record {
        assigned =
            λ v lt. let (k, e, less) = run.assigned v lt in (k, stratum_in n walked v k lt e, less);
        ordered = λ v u k d e.
            let (lt, f) = stratum_back v k e in
            let (l, g, le) = run.ordered v u k (Depends-Reaches views v u d) f in
            (l, stratum_in n walked u l (Depends-bound v u d lt) g, le);
        same = λ v u k l e f.
            let (a, ea) = stratum_back v k e in
            let (b, eb) = stratum_back u l f in
            let h = run.same v u k l ea eb in
            (
              λ q. let (x, y) = h.0 q in (Reaches-Depends views v u x, Reaches-Depends views u v y),
              λ (x, y). h.1 (Depends-Reaches views v u x, Depends-Reaches views u v y),
            );
        used =
            λ k lt. let (v, less, e) = run.used k lt in (v, less, stratum_in n walked v k less e);
      }

  same_some : (k l : ℕ) → (same_stratum (some k) (some l) ≡ true) ↔ (k ≡ l)
  unfolding same_stratum
  same_some k l = ground arith

  -- The test that the errors and the derivation classes use.
  pub same_stratum_iff :
      (v u : ℕ)
      → v < length views
      → (same_stratum ((stratify views).stratum v) ((stratify views).stratum u) ≡ true)
        ↔ ((u < length views) × Depends views v u × Depends views u v)
  unfolding stratify same_stratum
  same_stratum_iff v u lt =
      let o = stratify views in
      let h = stratify-IsStratified in
      let (k, e, less) = h.assigned v lt in
      elim (le_or_lt (length views) u) [
        | inl past ↦
            let out = stratum_out (length views) walked u past in
            (
              λ t. absurd (cc (rw (e, out, same_stratum) at t)),
              λ (b, d, c). absurd (omega (arith, b)),
            )
        | inr ok ↦
            let (l, f, m) = h.assigned u ok in
            (
              λ t.
                  let (d, c) =
                    (h.same v u k l e f).0 ((same_some k l).0 (rw (e, f, same_stratum) at t)) in
                  (ok, d, c),
              λ (b, d, c).
                  rw (e, f, same_stratum) ((same_some k l).1 ((h.same v u k l e f).1 (d, c))),
            )
      ]

  pub stratum_walked : (v k : ℕ) → (stratify views).stratum v ≡ some k → walked.stratum v ≡ some k
  unfolding stratify
  stratum_walked v k e = (stratum_back v k e).1
