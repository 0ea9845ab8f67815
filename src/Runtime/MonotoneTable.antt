-- ===== src/Runtime/MonotoneTable.antt =====
-- Table of Runtime/Table.h, the monotone relation: a row log with the watermark `sealed`.
pub mod Batch
use dr_lojekyll.Prelude.{ℕ, Bool, not, List, [], ◌∷◌, ltb}
use dr_lojekyll.Runtime.Hashed.{Hashed}
use dr_lojekyll.Runtime.RowStore.{RowStore, num_rows, find_or_add}
use dr_lojekyll.Runtime.Run.{Run, ok, ◌>>=◌}

pub record Table {ℓ} (A : Type ℓ) : Type ℓ where
  pub store : RowStore A
  pub sealed : ℕ

-- `added`, and the row id.
pub record Insert : Type 0 where
  pub added : Bool
  pub id : ℕ

module _ {ℓ} {A : Type ℓ} where
  -- The membership reads of Table.
  unfoldable pub table_in_i : Table A → ℕ → Bool
  table_in_i t id = ltb id t.sealed

  unfoldable pub table_net_added : Table A → ℕ → Bool
  table_net_added t id = not (ltb id t.sealed)

  unfoldable pub seal_table : Table A → Table A
  seal_table t = record t { sealed = num_rows t.store }

  unfoldable pub try_add : ⦃h : Hashed A⦄ → A → Table A → Run (Insert × Table A)
  try_add row t = do
    ((id, added), store) ← find_or_add t.store row
    ok (record { added = added; id = id }, record t { store = store })

  -- A batch of insertions.
  unfoldable pub try_add_all : ⦃h : Hashed A⦄ → List A → Table A → Run (Table A)
  try_add_all [] t = ok t
  try_add_all (row ∷ rows) t = do (_, t') ← try_add row t; try_add_all rows t'
