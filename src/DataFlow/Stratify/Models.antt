-- ===== src/DataFlow/Stratify/Models.antt =====
-- The strata of the data models.
use dr_lojekyll.Prelude.{
  same_or_other, ℕ, suc, ◌+◌, ◌<◌, ◌≤◌, ◌≡◌, ◌≢◌, ◌⊎◌, refl, ap, subst, ◌∙◌, sym, inl, inr, Option,
  none, some, List, [], ◌∷◌, get_elem?, length, arith,
}
use dr_lojekyll.DataFlow.Stratify.{Walk, min}
use dr_lojekyll.DataFlow.Stratify.Stored.{min_le, min_below, min_first, min_second, le_or_le}
use dr_lojekyll.DataFlow.Stratify.Pass.{View, Range, max, add_stratum, state_stratum, model_strata}
use dr_lojekyll.DataFlow.Stratify.Ranges.{
  find_range, widen, Distinct, find-add_same, find-add_other, add-Distinct,
}

-- A view of the model `m`.
pub record Member (views : List View) (m v : ℕ) : Type 0 where
  pub view : View
  pub is_at : get_elem? views v ≡ some view
  pub is_in : view.model ≡ m

-- A view of the model below place `i` with the stratum `k`.
pub record Attained (views : List View) (stratum : ℕ → ℕ) (i m k : ℕ) : Type 0 where
  pub at : ℕ
  pub before : at < i
  pub member : Member views m at
  pub is_it : stratum at ≡ k

pub record Held (views : List View) (stratum : ℕ → ℕ) (i m : ℕ) (r : Range) : Type 0 where
  pub bounds : (v : ℕ) → v < i → Member views m v → (r.low ≤ stratum v) × (stratum v ≤ r.high)
  pub least : Attained views stratum i m r.low
  pub most : Attained views stratum i m r.high

pub record Fits (views : List View) (stratum : ℕ → ℕ) (i m : ℕ) (o : Option Range) : Type 0 where
  pub absent : o ≡ none → (v : ℕ) → v < i → ¬ Member views m v
  pub present : (r : Range) → o ≡ some r → Held views stratum i m r

max_cases : (a b : ℕ) → (a ≤ max a b) × (b ≤ max a b) × ((max a b ≡ a) ⊎ (max a b ≡ b))
unfolding max
max_cases a b = ground arith

min_cases : (a b : ℕ) → (min a b ≡ a) ⊎ (min a b ≡ b)
min_cases a b = elim (le_or_le a b) [
  | inl h ↦ inl (min_first a b h)
  | inr h ↦ inr (min_second a b h)
]

module _ (views : List View) (stratum : ℕ → ℕ) (i : ℕ) where
  later : (m k : ℕ) → Attained views stratum i m k → Attained views stratum (i + 1) m k
  later m k a = record {
    at = a.at;
    before = omega (arith, a.before);
    member = a.member;
    is_it = a.is_it;
  }

  module _ (w : View) (at : get_elem? views i ≡ some w) where
    same_view : (m : ℕ) → Member views m i → w.model ≡ m
    same_view m h = let q : w ≡ h.view = cc (at, h.is_at) in ap (λ (x : View). x.model) q ∙ h.is_in

    -- The view at `i` is of another model.
    other-Fits :
        (m : ℕ) (o : Option Range)
        → m ≢ w.model
        → Fits views stratum i m o
        → Fits views stratum (i + 1) m o
    other-Fits m o ne h = record {
      absent = λ e v lt k. elim (same_or_other v i) [
        | inl q ↦ absurd (ne (sym (same_view m (subst (Member views m) q k))))
        | inr d ↦ absurd (h.absent e v (omega (arith, d)) k)
      ];
      present = λ r e.
          let p = h.present r e in
          record {
            bounds = λ v lt k. elim (same_or_other v i) [
              | inl q ↦ absurd (ne (sym (same_view m (subst (Member views m) q k))))
              | inr d ↦ p.bounds v (omega (arith, d)) k
            ];
            least = later m r.low p.least;
            most = later m r.high p.most;
          };
    }

    here-Attained : Attained views stratum (i + 1) w.model (stratum i)
    here-Attained = record {
      at = i;
      before = omega arith;
      member = record { view = w; is_at = at; is_in = refl };
      is_it = refl;
    }

    choose :
        (k l : ℕ)
        → (l ≡ k) ⊎ (l ≡ stratum i)
        → Attained views stratum i w.model k
        → Attained views stratum (i + 1) w.model l
    choose k l (inl e) a =
        subst (Attained views stratum (i + 1) w.model) (sym e) (later w.model k a)
    choose k l (inr e) a = subst (Attained views stratum (i + 1) w.model) (sym e) here-Attained

    widen-Held :
        (o : Option Range)
        → Fits views stratum i w.model o
        → Held views stratum (i + 1) w.model (widen w.model (stratum i) o)
    widen-Held none h = record {
      bounds = λ v lt k. elim (same_or_other v i) [
        | inl q ↦ (omega (arith, ap stratum q), omega (arith, ap stratum q))
        | inr d ↦ absurd (h.absent refl v (omega (arith, d)) k)
      ];
      least = here-Attained;
      most = here-Attained;
    }
    widen-Held (some r) h =
        let p = h.present r refl in
        let (a, b, c) = max_cases r.high (stratum i) in
        record {
          bounds = λ v lt k. elim (same_or_other v i) [
            | inl q ↦ (
              omega (arith, ap stratum q, min_below r.low (stratum i)),
              omega (arith, ap stratum q),
            )
            | inr d ↦
                let (x, y) = p.bounds v (omega (arith, d)) k in
                (omega (arith, min_le r.low (stratum i)), omega arith)
          ];
          least = choose r.low (min r.low (stratum i)) (min_cases r.low (stratum i)) p.least;
          most = choose r.high (max r.high (stratum i)) c p.most;
        }

    same-Fits :
        (o : Option Range)
        → Fits views stratum i w.model o
        → Fits views stratum (i + 1) w.model (some (widen w.model (stratum i) o))
    same-Fits o h = record {
      absent = λ e. absurd (cc e);
      present = λ r e.
          let q : widen w.model (stratum i) o ≡ r = cc e in
          subst (Held views stratum (i + 1) w.model) q (widen-Held o h);
    }

    add-Fits :
        (m : ℕ) (ranges : List Range)
        → ((x : ℕ) → Fits views stratum i x (find_range x ranges))
        → Fits views stratum (i + 1) m (find_range m (add_stratum w.model (stratum i) ranges))
    add-Fits m ranges h = elim (same_or_other m w.model) [
      | inl q ↦
          subst
            (λ x.
              Fits views stratum (i + 1) x (find_range x (add_stratum w.model (stratum i) ranges)))
            (sym q)
            (subst (Fits views stratum (i + 1) w.model)
              (sym (find-add_same w.model (stratum i) ranges))
              (same-Fits (find_range w.model ranges) (h w.model)))
      | inr ne ↦
          subst (Fits views stratum (i + 1) m)
            (sym (find-add_other w.model m (stratum i) ranges ne))
            (other-Fits m (find_range m ranges) ne (h m))
    ]

-- The ranges after the views below `i`.
pub record Summarizes (views : List View) (s : Walk) (i : ℕ) (ranges : List Range) : Type 0 where
  pub fits : (m : ℕ) → Fits views (state_stratum s) i m (find_range m ranges)
  pub distinct : Distinct ranges

pub model_strata-Summarizes :
    (views : List View) (s : Walk) (i : ℕ) (ws : List View) (ranges : List Range)
    → ((j : ℕ) → get_elem? ws j ≡ get_elem? views (i + j))
    → Summarizes views s i ranges
    → Summarizes views s (i + length ws) (model_strata s i ws ranges)
unfolding model_strata
model_strata-Summarizes views s i [] ranges same h =
    let z : i ≡ i + 0 = omega arith in subst (λ j. Summarizes views s j ranges) z h
model_strata-Summarizes views s i (w ∷ ws) ranges same h =
    let z : i + 0 ≡ i = omega arith in
    let at = ap (get_elem? views) (sym z) ∙ sym (same 0) in
    let y : i + 1 + length ws ≡ i + suc (length ws) = omega arith in
    let rest = add_stratum w.model (state_stratum s i) ranges in
    subst (λ j. Summarizes views s j (model_strata s (i + 1) ws rest)) y
      (model_strata-Summarizes views s (i + 1) ws rest
        (λ j. let x : i + suc j ≡ i + 1 + j = omega arith in same (suc j) ∙ ap (get_elem? views) x)
        (record {
          fits = λ m. add-Fits views (state_stratum s) i w at m ranges h.fits;
          distinct = add-Distinct w.model (state_stratum s i) ranges h.distinct;
        }))
