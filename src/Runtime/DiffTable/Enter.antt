-- ===== src/Runtime/DiffTable/Enter.antt =====
-- FindOrAdd and GrowTo on a DiffTable: a row that is new gets the fresh cell that it had in the
-- map already.
use mathlib.Core.List.{append-nil}
use dr_lojekyll.Prelude.{
  ℕ, ◌+◌, ◌-◌, ◌<◌, ◌≡◌, refl, sym, ap, ◌∙◌, inl, inr, Bool, true, false, none, some, List, [], ◌∷◌,
  ◌++◌, arith, length, length-append, get_elem?, get_elem?-lt, get_elem?_of_lt,
  get_elem?-append_left, get_elem?-append_last, get_elem?-append_cases, Bool-cases, Option-cases,
}
use dr_lojekyll.Runtime.Counters.{counters_zero}
use dr_lojekyll.Runtime.DiffTable.Commit.Loop.{num_in_i-append, elem, AllBelow}
use dr_lojekyll.Runtime.DiffTable.Invariant.{Inv, IsSettled, InRanges}
use dr_lojekyll.Runtime.DiffTable.{DiffTable, fresh_cell, grow_to, is_present}
use dr_lojekyll.Runtime.Hashed.{Hashed, ◌=ᵏ◌}
use dr_lojekyll.Runtime.RowStore.Add.{find_or_add-Adds}
use dr_lojekyll.Runtime.RowStore.Lookup.{IsValid, position, position-some}
use dr_lojekyll.Runtime.RowStore.{RowStore, find_or_add}
use dr_lojekyll.Runtime.Run.{ok, Keeps}
use dr_lojekyll.Runtime.DiffTable.View.{view, Enters, cell_of_some, cell_congr, position-append}

fresh-InRanges : InRanges 0
fresh-InRanges = rw (counters_zero.0, counters_zero.1) (omega arith)

pub fresh-IsSettled : IsSettled fresh_cell
unfolding is_present
fresh-IsSettled = record {
  in_i = rw counters_zero.2 refl;
  del = refl;
  add = refl;
  del_now = refl;
  add_now = refl;
}

elem_past : (n : ℕ) (ids : List ℕ) → AllBelow n ids → elem n ids ≡ false
unfolding elem
elem_past n [] b = refl
elem_past n (i ∷ ids) b = ground (arith, elem_past n ids b.1, b.0)

AllBelow-suc : (n : ℕ) (ids : List ℕ) → AllBelow n ids → AllBelow (n + 1) ids
AllBelow-suc n [] b = tt
AllBelow-suc n (i ∷ ids) b = (omega (arith, b.0), AllBelow-suc n ids b.1)

module _ {ℓ} {A : Type ℓ} ⦃h : Hashed A⦄ where
  grow_to_old : (d : DiffTable A) (id : ℕ) → id < length d.cells → grow_to id d ≡ d
  unfolding grow_to
  grow_to_old d id lt =
      rw (let q : id + 1 - length d.cells ≡ 0 = omega arith in q)
        (λ i. record d { cells = append-nil d.cells i })

  grow_to_new :
      (d : DiffTable A) (s : RowStore A)
      → length d.cells ≡ length d.store.rows
      → grow_to (length d.store.rows) (record d { store = s })
        ≡ record d { store = s; cells = d.cells ++ fresh_cell ∷ [] }
  unfolding grow_to
  grow_to_new d s e =
      rw (let q : length d.store.rows + 1 - length d.cells ≡ 1 = omega arith in q) refl

  grown_view :
      (d : DiffTable A) (row : A) (s : RowStore A)
      → Inv d
      → s.rows ≡ d.store.rows ++ row ∷ []
      → get_elem? (d.cells ++ fresh_cell ∷ []) (length d.store.rows) ≡ some fresh_cell
      → (b : A) → view (record d { store = s; cells = d.cells ++ fresh_cell ∷ [] }) b ≡ view d b
  grown_view d row s v rows end b =
      rw (rows, position-append b row d.store.rows)
        (elim (Option-cases (position b d.store.rows)) [
          | inr (j, p) ↦
              let (a, at, _) = position-some b d.store.rows j p in
              let lt : j < length d.cells = rw v.parallel (get_elem?-lt d.store.rows j at) in
              rw p (
                cell_congr (d.cells ++ fresh_cell ∷ []) d.cells j
                  (get_elem?-append_left d.cells (fresh_cell ∷ []) j lt))
          | inl n ↦ elim (Bool-cases (row =ᵏ b)) [
            | inl t ↦
                rw (n, t) (cell_of_some (d.cells ++ fresh_cell ∷ []) (length d.store.rows) end)
            | inr f ↦ rw (n, f) refl
          ]
        ])

  -- A fresh cell at the end is settled, and not live.
  grown-Inv :
      (d : DiffTable A) (row : A) (s : RowStore A)
      → Inv d
      → s.rows ≡ d.store.rows ++ row ∷ []
      → IsValid s
      → Inv (record d { store = s; cells = d.cells ++ fresh_cell ∷ [] })
  grown-Inv d row s v rows valid = record {
    valid = valid;
    parallel =
        length-append d.cells (fresh_cell ∷ [])
        ∙ ap (λ n. n + 1) v.parallel
        ∙ sym (ap length rows ∙ length-append d.store.rows (row ∷ []));
    ranges = λ i c q. elim (get_elem?-append_cases d.cells fresh_cell i c q) [
      | inl old ↦ v.ranges i c old
      | inr (_, p) ↦ rw p fresh-InRanges
    ];
    settled = λ i c q t. elim (get_elem?-append_cases d.cells fresh_cell i c q) [
      | inl old ↦ v.settled i c old t
      | inr (_, p) ↦ rw p fresh-IsSettled
    ];
    listed = λ i c q. elim (get_elem?-append_cases d.cells fresh_cell i c q) [
      | inl old ↦ v.listed i c old
      | inr (n, p) ↦ rw (p, n, v.parallel) (sym (elem_past _ d.touched v.below))
    ];
    below = rw (rows, length-append d.store.rows (row ∷ [])) (AllBelow-suc _ d.touched v.below);
    live = v.live ∙ sym (num_in_i-append d.cells fresh_cell refl);
  }

  grow_to-Enters_old :
      (d : DiffTable A) (row : A) (id : ℕ)
      → Inv d
      → position row d.store.rows ≡ some id
      → Enters d row ((id, false), d.store)
  grow_to-Enters_old d row id v e =
      let (a, at, _) = position-some row d.store.rows id e in
      let lt : id < length d.cells = rw v.parallel (get_elem?-lt d.store.rows id at) in
      let (c, ec) = get_elem?_of_lt d.cells id lt in
      let g = grow_to_old d id lt in
      record {
        inv = rw g v;
        at = rw g e;
        cell = rw (g, e) (ec ∙ ap some (sym (cell_of_some d.cells id ec)));
        same = λ b. rw g refl;
        added = rw e refl;
      }

  grow_to-Enters_new :
      (d : DiffTable A) (row : A) (s : RowStore A)
      → Inv d
      → position row d.store.rows ≡ none
      → s.rows ≡ d.store.rows ++ row ∷ []
      → IsValid s
      → Enters d row ((length d.store.rows, true), s)
  grow_to-Enters_new d row s v e rows valid =
      let g = grow_to_new d s v.parallel in
      let end : get_elem? (d.cells ++ fresh_cell ∷ []) (length d.store.rows) ≡ some fresh_cell =
        rw (← v.parallel) (get_elem?-append_last d.cells fresh_cell) in
      record {
        inv = rw g (grown-Inv d row s v rows valid);
        at = rw (g, rows, position-append row row d.store.rows, e, h.equal_refl row) refl;
        cell = rw (g, e) end;
        same = λ b. rw g (grown_view d row s v rows end b);
        added = rw e refl;
      }

  pub find_or_add-Enters :
      (d : DiffTable A) (row : A) → Inv d → Keeps (find_or_add d.store row) (Enters d row)
  find_or_add-Enters d row v = elim (Option-cases (position row d.store.rows)) [
    | inl e ↦ elim (rw e at (find_or_add-Adds d.store row v.valid)) [
      | inl (_, run) ↦ inl run
      | inr (((id, added), s), run, (r, rows, valid)) ↦ inr (
        ((length d.store.rows, true), s),
        run ∙ ap (λ (x : ℕ × Bool). ok (x, s)) r,
        grow_to-Enters_new d row s v e rows valid,
      )
    ]
    | inr (i, e) ↦
        let run = rw e at (find_or_add-Adds d.store row v.valid) in
        inr (((i, false), d.store), run, grow_to-Enters_old d row i v e)
  ]
