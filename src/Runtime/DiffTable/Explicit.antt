-- ===== src/Runtime/DiffTable/Explicit.antt =====
-- Explicit (message) support of a row in a DiffTable: AddExplicit and SubExplicit.
use mathlib.Core.Path.{fun_ext}
use dr_lojekyll.Prelude.Int.{pos, negsuc}
use dr_lojekyll.Prelude.{
  ◌≡◌, refl, subst, inl, inr, Bool, true, false, some, arith, get_elem?, ==_ne, get_elem?-lt,
  get_elem?_of_lt, Bool-cases, Option-cases, if◌then◌else◌,
}
use dr_lojekyll.Runtime.Counters.{non_recursive}
use dr_lojekyll.Runtime.DiffTable.Enter.{find_or_add-Enters}
use dr_lojekyll.Runtime.DiffTable.Invariant.{Inv}
use dr_lojekyll.Runtime.DiffTable.View.{view, entered, is_none, cell_of_some}
use dr_lojekyll.Runtime.DiffTable.{Cell, DiffTable, Delta, cell_at, add_explicit, sub_explicit}
use dr_lojekyll.Runtime.Flags.{Flags}
use dr_lojekyll.Runtime.Hashed.{Hashed}
use dr_lojekyll.Runtime.RowStore.Lookup.{position, position-some, find-position}
use dr_lojekyll.Runtime.Run.{ok, Keeps}
use dr_lojekyll.Runtime.DiffTable.Rows.{RowFolds, set_fold-RowFolds}
use dr_lojekyll.Runtime.IdSlots.{no_id, is_free}
use dr_lojekyll.Runtime.RowStore.{find}

abbrev pub set_explicit : Bool → Flags → Flags
set_explicit b f = record f { explicit = b }

module _ {ℓ} {A : Type ℓ} ⦃h : Hashed A⦄ where
  -- Nothing is recorded, except that a row may have got its id.
  pub record Unchanged (before : A → Cell) (crossed : Bool) (d' : DiffTable A) : Type ℓ where
    pub inv : Inv d'
    pub same : (b : A) → view d' b ≡ before b
    pub silent : crossed ≡ false

  -- `AddExplicit` is idempotent: it counts a row's explicit support once.
  pub record AddsExplicit (d : DiffTable A) (row : A) (r : Delta × DiffTable A) : Type ℓ where
    pub at : position row r.1.store.rows ≡ some r.0.id
    pub added : r.0.added_row ≡ is_none (position row d.store.rows)
    pub effect :
        if (view d row).flags.explicit
        then Unchanged (view d) r.0.crossed r.1
        else RowFolds (view d) row non_recursive (pos 1) (set_explicit true) r.0.id r.0.crossed r.1

  -- On a table that satisfies the invariant `AddExplicit` aborts, or returns the row's id and
  -- whether the row is new; a row with explicit support keeps its cell and does not cross, and
  -- any other row gets the flag and one more nonrecursive derivation, while no other row
  -- changes.
  pub add_explicit-AddsExplicit :
      (d : DiffTable A) (row : A) → Inv d → Keeps (add_explicit row d) (AddsExplicit d row)
  unfolding add_explicit cell_at
  add_explicit-AddsExplicit d row v = elim (find_or_add-Enters d row v) [
    | inl run ↦ inl (rw run refl)
    | inr (((id, added), s), run, en) ↦
        let d₁ = entered d ((id, added), s) in
        elim (Bool-cases (view d row).flags.explicit) [
          | inl t ↦ inr (
            (record { crossed = false; added_row = added; id = id }, d₁),
            rw (run, en.cell, t) refl,
            record {
              at = en.at;
              added = en.added;
              effect = rw t (record { inv = en.inv; same = en.same; silent = refl });
            },
          )
          | inr f ↦
              let c_eq : get_elem? d₁.cells id ≡ some (view d₁ row) = rw (en.same row) en.cell in
              let (d₂, d₃, run₂, run₃, out) =
                set_fold-RowFolds d₁ row id (pos 1) (set_explicit true) (λ _. (refl, refl))
                  (λ _. refl) en.inv en.at c_eq (omega arith) in
              elim out [
                | inl run₄ ↦ inl (rw (run, en.cell, f, run₂, run₃, run₄) refl)
                | inr ((crossed, d₄), run₄, folds) ↦ inr (
                  (record { crossed = crossed; added_row = added; id = id }, d₄),
                  rw (run, en.cell, f, run₂, run₃, run₄) refl,
                  record {
                    at = folds.at;
                    added = en.added;
                    effect = rw f (
                        subst
                          (λ before.
                            RowFolds before row non_recursive (pos 1) (set_explicit true) id crossed
                              d₄)
                          (fun_ext en.same) folds);
                  },
                )
              ]
        ]
  ]

  -- `SubExplicit` takes back a row's explicit support, if it has any, and never adds a row.
  pub record SubsExplicit (d : DiffTable A) (row : A) (r : Delta × DiffTable A) : Type ℓ where
    pub added : r.0.added_row ≡ false
    pub effect :
        if (view d row).flags.explicit
        then RowFolds
            (view d)
            row
            non_recursive
            (negsuc 0)
            (set_explicit false)
            r.0.id
            r.0.crossed
            r.1
        else (r.1 ≡ d) × (r.0.crossed ≡ false)

  -- On a table that satisfies the invariant `SubExplicit` aborts, or never adds a row: a row
  -- without explicit support (or without an id) leaves the table as it is and does not cross,
  -- and any other row loses the flag and one nonrecursive derivation, while no other row
  -- changes.
  pub sub_explicit-SubsExplicit :
      (d : DiffTable A) (row : A) → Inv d → Keeps (sub_explicit row d) (SubsExplicit d row)
  unfolding sub_explicit cell_at
  sub_explicit-SubsExplicit d row v = elim (Option-cases (position row d.store.rows)) [
    | inl n ↦ inr (
      (record { crossed = false; added_row = false; id = no_id }, d),
      rw (find-position d.store row v.valid, n) refl,
      record { added = refl; effect = rw n (refl, refl) },
    )
    | inr (id, e) ↦
        let (a, at, _) = position-some row d.store.rows id e in
        let lt = get_elem?-lt d.store.rows id at in
        let real : is_free id ≡ false = ==_ne id no_id (omega (arith, lt, v.valid.small)) in
        let (c, ec) = get_elem?_of_lt d.cells id (rw v.parallel lt) in
        let here : view d row ≡ c = rw e (cell_of_some d.cells id ec) in
        let run : find d.store row ≡ ok id = rw (find-position d.store row v.valid, e) refl in
        elim (Bool-cases c.flags.explicit) [
          | inr f ↦ inr (
            (record { crossed = false; added_row = false; id = id }, d),
            rw (run, real, ec, f) refl,
            record { added = refl; effect = rw (here, f) (refl, refl) },
          )
          | inl t ↦
              let (d₁, d₂, run₁, run₂, out) =
                set_fold-RowFolds d row id (negsuc 0) (set_explicit false) (λ _. (refl, refl))
                  (λ _. refl) v e (rw here ec) (omega arith) in
              elim out [
                | inl run₃ ↦ inl (rw (run, real, ec, t, run₁, run₂, run₃) refl)
                | inr ((crossed, d₃), run₃, folds) ↦ inr (
                  (record { crossed = crossed; added_row = false; id = id }, d₃),
                  rw (run, real, ec, t, run₁, run₂, run₃) refl,
                  record { added = refl; effect = rw (here, t) folds },
                )
              ]
        ]
  ]
