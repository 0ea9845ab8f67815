-- ===== src/Runtime/MonotoneTable/Batch.antt =====
-- A batch of insertions into a monotone table: what is there, and what is new.
use mathlib.Core.List.{append-nil, append_assoc}
use native.Mathlib.Nat.{mod-eq_of_lt}
use dr_lojekyll.Prelude.{
  ℕ, ◌≡◌, refl, sym, ◌∙◌, inl, inr, true, false, not, ◌||◌, List, [], ◌∷◌, ◌++◌, arith, length, ltb,
  Bool-cases, Option-cases,
}
use dr_lojekyll.Runtime.Hashed.{Hashed, ◌=ᵏ◌}
use dr_lojekyll.Runtime.Members.{occurs, occurs_congr, occurs-snoc, occurs-position-some}
use dr_lojekyll.Runtime.MonotoneTable.{
  Table, table_in_i, table_net_added, seal_table, try_add, try_add_all,
}
use dr_lojekyll.Runtime.RowStore.Add.{find_or_add-Adds}
use dr_lojekyll.Runtime.RowStore.Lookup.{IsValid, position}
use dr_lojekyll.Runtime.RowStore.{num_rows}
use dr_lojekyll.Runtime.Run.{Keeps}

module _ {ℓ} {A : Type ℓ} ⦃h : Hashed A⦄ where
  -- From `t` to `t'` the log grows by `fresh`, the watermark stays, and exactly the rows of `rows`
  -- come to be there.
  pub record Gains (t : Table A) (rows : List A) (t' : Table A) : Type ℓ where
    pub valid : IsValid t'.store
    pub fresh : List A
    pub log : t'.store.rows ≡ t.store.rows ++ fresh
    pub sealed : t'.sealed ≡ t.sealed
    pub there : (x : A) → occurs x t'.store.rows ≡ occurs x t.store.rows || occurs x rows

  known :
      (t : Table A) (row x : A)
      → occurs row t.store.rows ≡ true
      → occurs x t.store.rows ≡ occurs x t.store.rows || occurs x (row ∷ [])
  unfolding occurs
  known t row x e = elim (Bool-cases (row =ᵏ x)) [
    | inl s ↦ rw (s, ← occurs_congr row x t.store.rows s, e) refl
    | inr f ↦ rw f (ground arith)
  ]

  try_add-Gains :
      (row : A) (t : Table A) → IsValid t.store → Keeps (try_add row t) λ r. Gains t (row ∷ []) r.1
  unfolding try_add occurs
  try_add-Gains row t v = elim (Option-cases (position row t.store.rows)) [
    | inr (i, e) ↦ inr (
      (record { added = false; id = i }, t),
      rw (rw e at (find_or_add-Adds t.store row v)) refl,
      record {
        valid = v;
        fresh = [];
        log = sym (append-nil t.store.rows);
        sealed = refl;
        there = λ x. known t row x (occurs-position-some row t.store.rows i e);
      },
    )
    | inl e ↦ elim (rw e at (find_or_add-Adds t.store row v)) [
      | inl (_, run) ↦ inl (rw run refl)
      | inr (((id, added), s), run, (r, rows, valid)) ↦ inr (
        (record { added = added; id = id }, record t { store = s }),
        rw run refl,
        record {
          valid = valid;
          fresh = row ∷ [];
          log = rows;
          sealed = refl;
          there = λ x. rw (rows, occurs-snoc x row t.store.rows) (ground arith);
        },
      )
    ]
  ]

  Gains-trans :
      (row : A) (rows : List A) (t t' t'' : Table A)
      → Gains t (row ∷ []) t'
      → Gains t' rows t''
      → Gains t (row ∷ rows) t''
  unfolding occurs
  Gains-trans row rows t t' t'' g g' = record {
    valid = g'.valid;
    fresh = g.fresh ++ g'.fresh;
    log = rw (g'.log, g.log) (append_assoc t.store.rows g.fresh g'.fresh);
    sealed = g'.sealed ∙ g.sealed;
    there = λ x. ground (arith, g'.there x, g.there x);
  }

  try_add_all-Gains :
      (rows : List A) (t : Table A) → IsValid t.store → Keeps (try_add_all rows t) (Gains t rows)
  unfolding try_add_all occurs
  try_add_all-Gains [] t v = inr (
    t,
    refl,
    record {
      valid = v;
      fresh = [];
      log = sym (append-nil t.store.rows);
      sealed = refl;
      there = λ x. ground arith;
    },
  )
  try_add_all-Gains (row ∷ rows) t v = elim (try_add-Gains row t v) [
    | inl run ↦ inl (rw run refl)
    | inr ((i, t'), run, g) ↦ elim (try_add_all-Gains rows t' g.valid) [
      | inl run' ↦ inl (rw (run, run') refl)
      | inr (t'', run', g') ↦ inr (t'', rw (run, run') refl, Gains-trans row rows t t' t'' g g')
    ]
  ]

  -- What a batch leaves in a table that was sealed before it.
  pub record Batched (t : Table A) (rows : List A) (t' : Table A) : Type ℓ where
    pub gains : Gains (seal_table t) rows t'
    pub old : (id : ℕ) → table_in_i t' id ≡ ltb id (length t.store.rows)
    pub new : (id : ℕ) → table_net_added t' id ≡ not (ltb id (length t.store.rows))

  -- A batch of `TryAdd` calls after `Seal` on a valid monotone table aborts, or keeps the store
  -- valid and extends the row log, so that exactly the rows of the table and of the batch are
  -- there; `InI` then holds of exactly the ids that were given out before the batch, and
  -- `NetAdded` of the others.
  pub try_add_all-Batched :
      (rows : List A) (t : Table A)
      → IsValid t.store
      → Keeps (try_add_all rows (seal_table t)) (Batched t rows)
  unfolding seal_table table_in_i table_net_added num_rows
  try_add_all-Batched rows t v = elim (try_add_all-Gains rows (seal_table t) v) [
    | inl run ↦ inl run
    | inr (t', run, g) ↦
        let e : t'.sealed ≡ length t.store.rows =
          g.sealed ∙ mod-eq_of_lt (omega (arith, v.small)) in
        inr (t', run, record { gains = g; old = λ id. rw e refl; new = λ id. rw e refl })
  ]
