-- ===== src/Runtime/DiffTable/Rows.antt =====
-- The operations of a DiffTable that take a row, on the map from rows to cells.
use dr_lojekyll.Prelude.Int.{ℤ}
use dr_lojekyll.Prelude.{ℕ, ◌≡◌, refl, sym, ap, ◌∙◌, inl, inr, Bool, true, false, some, get_elem?}
use dr_lojekyll.Runtime.Counters.{DerivClass, non_recursive}
use dr_lojekyll.Runtime.DiffTable.Claims.{IsScratch, touch_set-Turns}
use dr_lojekyll.Runtime.DiffTable.Enter.{find_or_add-Enters}
use dr_lojekyll.Runtime.DiffTable.Fold.{Turns, IsUnit, Counted, crossing, fold_at-Folds}
use dr_lojekyll.Runtime.DiffTable.Invariant.{Inv, touched_cell}
use dr_lojekyll.Runtime.DiffTable.View.{view, entered, is_none, Turns-view}
use dr_lojekyll.Runtime.DiffTable.{Cell, DiffTable, Delta, fold_at, fold, touch, set_flags}
use dr_lojekyll.Runtime.Flags.{Flags}
use dr_lojekyll.Runtime.Hashed.{Hashed, ◌=ᵏ◌}
use dr_lojekyll.Runtime.RowStore.Lookup.{position}
use dr_lojekyll.Runtime.Run.{ok, Keeps}

module _ {ℓ} {A : Type ℓ} ⦃h : Hashed A⦄ where
  -- A fold of `delta` into class `cls` of one row, with `g` on its flags, seen on the map `before`
  -- and the table after: the row has the id, its counters and flags change so, the crossing is
  -- decided by the counters before and after, and no other row's cell changes.
  pub record RowFolds (before : A → Cell) (row : A) (cls : DerivClass) (delta : ℤ)
      (g : Flags → Flags) (id : ℕ) (crossed : Bool) (d' : DiffTable A) : Type ℓ where
    pub inv : Inv d'
    pub at : position row d'.store.rows ≡ some id
    pub counts : Counted cls delta (before row).count (view d' row).count
    pub flags : (view d' row).flags ≡ g (record (before row).flags { touched = true })
    pub decided :
        crossed ≡ crossing delta (before row).flags.in_i (before row).count (view d' row).count
    pub others : (b : A) → (row =ᵏ b) ≡ false → view d' b ≡ before b

  view_here :
      (d d' : DiffTable A) (row : A) (id : ℕ) (c' : Cell)
      → Inv d
      → position row d.store.rows ≡ some id
      → Turns d id c' d'
      → view d' row ≡ c'
  view_here d d' row id c' v e t = rw (Turns-view d d' row id c' v e t row, h.equal_refl row) refl

  view_there :
      (d d' : DiffTable A) (row : A) (id : ℕ) (c' : Cell)
      → Inv d
      → position row d.store.rows ≡ some id
      → Turns d id c' d'
      → (b : A) → (row =ᵏ b) ≡ false
      → view d' b ≡ view d b
  view_there d d' row id c' v e t b n = rw (Turns-view d d' row id c' v e t b, n) refl

  -- What a derivation fold returns.
  pub record Derives (d : DiffTable A) (row : A) (cls : DerivClass) (delta : ℤ)
      (r : Delta × DiffTable A) : Type ℓ where
    pub folds : RowFolds (view d) row cls delta (λ f. f) r.0.id r.0.crossed r.1
    pub added : r.0.added_row ≡ is_none (position row d.store.rows)

  -- A fold of +1, 0 or -1 on a table that satisfies the invariant aborts, or gives the row an
  -- id, moves exactly the addressed counter by the delta, sets `kTouched` and no other flag,
  -- leaves every other row alone, keeps the invariant, reports a crossing exactly if an addition
  -- made an absent row present, or a subtraction left a row of the batch's start without
  -- nonrecursive support, and reports a new row exactly if there was none.
  pub fold-Derives :
      (d : DiffTable A) (row : A) (cls : DerivClass) (delta : ℤ)
      → Inv d
      → IsUnit delta
      → Keeps (fold row cls delta d) (Derives d row cls delta)
  unfolding fold
  fold-Derives d row cls delta v u = elim (find_or_add-Enters d row v) [
    | inl run ↦ inl (rw run refl)
    | inr (((id, added), s), run, en) ↦
        let d₁ = entered d ((id, added), s) in
        elim (fold_at-Folds d₁ id cls delta (view d row) en.inv en.cell u) [
          | inl run₂ ↦ inl (rw (run, run₂) refl)
          | inr ((crossed, d₂), run₂, f) ↦
              let here = view_here d₁ d₂ row id f.cell en.inv en.at f.turns in
              inr (
                (record { crossed = crossed; added_row = added; id = id }, d₂),
                rw (run, run₂) refl,
                record {
                  folds = record {
                    inv = f.turns.inv;
                    at = rw f.turns.store en.at;
                    counts = rw here f.counts;
                    flags = rw here f.flags;
                    decided = rw here f.crossed;
                    others =
                        λ b n. view_there d₁ d₂ row id f.cell en.inv en.at f.turns b n ∙ en.same b;
                  };
                  added = en.added;
                },
              )
        ]
  ]

  -- The tail that both explicit operations share: Touch, the flag, and the fold.
  pub set_fold-RowFolds :
      (d : DiffTable A) (row : A) (id : ℕ) (delta : ℤ) (g : Flags → Flags)
      → IsScratch g
      → ((f : Flags) → g f ≡ record (g f) { touched = f.touched })
      → Inv d
      → position row d.store.rows ≡ some id
      → get_elem? d.cells id ≡ some (view d row)
      → IsUnit delta
      → (d₁ d₂ : DiffTable A) × (touch id d ≡ ok d₁)
        × (set_flags g id d₁ ≡ ok d₂)
        × Keeps
            (fold_at id non_recursive delta d₂)
            λ r. RowFolds (view d) row non_recursive delta g id r.0 r.1
  set_fold-RowFolds d row id delta g k idem v e ec u =
      let c = view d row in
      let (d₁, d₂, run₁, run₂, t) = touch_set-Turns g d id c k v ec in
      let c' : Cell = record c { flags = g (touched_cell c).flags } in
      let at : position row d₂.store.rows ≡ some id = rw t.store e in
      (
        d₁,
        d₂,
        run₁,
        run₂,
        elim (fold_at-Folds d₂ id non_recursive delta c' t.inv t.cell u) [
          | inl run₃ ↦ inl run₃
          | inr ((crossed, d₃), run₃, f) ↦
              let here = view_here d₂ d₃ row id f.cell t.inv at f.turns in
              inr (
                (crossed, d₃),
                run₃,
                record {
                  inv = f.turns.inv;
                  at = rw f.turns.store at;
                  counts = rw here f.counts;
                  flags = rw here (f.flags ∙ sym (idem (touched_cell c).flags));
                  decided = rw here (
                      f.crossed
                      ∙ ap (λ b. crossing delta b c.count f.cell.count)
                          (k (touched_cell c).flags).1);
                  others = λ b n.
                      view_there d₂ d₃ row id f.cell t.inv at f.turns b n
                      ∙ view_there d d₂ row id c' v e t b n;
                },
              )
        ],
      )
