-- ===== src/Runtime/DiffTable/Compact/Kept.antt =====
-- The in-place sweep of CompactRowsInPlace over the parallel arrays of a DiffTable.
use dr_lojekyll.Prelude.{
  ℕ, zero, suc, ◌≤◌, ◌<◌, ◌≡◌, refl, sym, ap, ◌∙◌, inl, inr, some, List, [], ◌∷◌, ◌++◌, arith,
  length, length-set, get_elem?, set, set_same, take, Bool-cases, ◌==◌, ==_iff, if◌then◌else◌,
}
use dr_lojekyll.Runtime.DiffTable.{Cell, is_present}
use dr_lojekyll.Runtime.RowStore.{move}

module _ {ℓ} {X : Type ℓ} where
  -- The entries of the rows that are present.
  abbrev pub kept : List Cell → List X → List X
  kept [] xs = []
  kept (c ∷ cells) [] = []
  kept (c ∷ cells) (x ∷ xs) = if is_present c then x ∷ kept cells xs else kept cells xs

  abbrev pub drop : ℕ → List X → List X
  drop zero xs = xs
  drop (suc n) [] = []
  drop (suc n) (x ∷ xs) = drop n xs

  pub drop_here : (r : ℕ) (xs ys : List X) (y : X) → drop r xs ≡ y ∷ ys → get_elem? xs r ≡ some y
  drop_here zero xs ys y e = rw e refl
  drop_here (suc r) [] ys y e = cc
  drop_here (suc r) (x ∷ xs) ys y e = drop_here r xs ys y e

  pub drop_next : (r : ℕ) (xs ys : List X) (y : X) → drop r xs ≡ y ∷ ys → drop (suc r) xs ≡ ys
  drop_next zero xs ys y e = rw e refl
  drop_next (suc r) [] ys y e = cc
  drop_next (suc r) (x ∷ xs) ys y e = drop_next r xs ys y e

  drop-set : (r w : ℕ) (xs : List X) (v : X) → w < r → drop r (set xs w v) ≡ drop r xs
  drop-set zero w xs v lt = absurd (omega arith)
  drop-set (suc r) w [] v lt = refl
  drop-set (suc r) zero (x ∷ xs) v lt = refl
  drop-set (suc r) (suc w) (x ∷ xs) v lt = drop-set r w xs v (omega arith)

  take-set :
      (w : ℕ) (xs : List X) (v y : X)
      → get_elem? xs w ≡ some y
      → take (suc w) (set xs w v) ≡ take w xs ++ v ∷ []
  take-set w [] v y e = cc
  take-set zero (x ∷ xs) v y e = refl
  take-set (suc w) (x ∷ xs) v y e = ap (λ ys. x ∷ ys) (take-set w xs v y e)

  get_elem?_below :
      (w r : ℕ) (xs : List X) (y : X)
      → w ≤ r
      → get_elem? xs r ≡ some y
      → (x : X) × (get_elem? xs w ≡ some x)
  get_elem?_below w r [] y le e = cc
  get_elem?_below zero r (x ∷ xs) y le e = (x, refl)
  get_elem?_below (suc w) zero (x ∷ xs) y le e = absurd (omega arith)
  get_elem?_below (suc w) (suc r) (x ∷ xs) y le e = get_elem?_below w r xs y (omega arith) e

  move_at :
      (r w : ℕ) (xs : List X) (y : X)
      → get_elem? xs r ≡ some y
      → move r w xs ≡ (if w == r then xs else set xs w y)
  unfolding move
  move_at r w xs y here = rw (move, here) refl

  -- A row that is kept moves to the end of the prefix, and what is still to be read stays.
  pub move_lem :
      (r w : ℕ) (xs ys : List X) (y : X)
      → w ≤ r
      → drop r xs ≡ y ∷ ys
      → (take (suc w) (move r w xs) ≡ take w xs ++ y ∷ [])
        × (drop (suc r) (move r w xs) ≡ ys)
        × (length (move r w xs) ≡ length xs)
  move_lem r w xs ys y le e =
      let here = drop_here r xs ys y e in
      elim (Bool-cases (w == r)) [
        | inl same ↦
            let q : w ≡ r = (==_iff w r).0 same in
            rw (move_at r w xs y here, same)
              (
                rw q (ap (take (suc r)) (sym (set_same xs r y here)) ∙ take-set r xs y y here),
                drop_next r xs ys y e,
                refl,
              )
        | inr other ↦
            let (x, at) = get_elem?_below w r xs y le here in
            let lt : w < suc r = omega arith in
            rw (move_at r w xs y here, other)
              (
                take-set w xs y x at,
                drop-set (suc r) w xs y lt ∙ drop_next r xs ys y e,
                length-set xs w y,
              )
      ]
