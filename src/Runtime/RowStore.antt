-- ===== src/Runtime/RowStore.antt =====
-- RowStore of Runtime/Table.h: the row log and the hash set of row ids over it.
pub mod Lookup
pub mod Add
use dr_lojekyll.Prelude.{
  ℕ, zero, suc, ◌%◌, ◌^◌, Bool, true, false, ◌&&◌, Option, none, some, List, [], ◌∷◌, ◌++◌, length,
  get_elem?, set, take, replicate, ◌==◌, if◌then◌else◌,
}
use dr_lojekyll.Runtime.Hashed.{Hashed, ◌=ᵏ◌}
use dr_lojekyll.Runtime.IdSlots.{no_id, is_free, find_id, link_from, insert_slot}
use dr_lojekyll.Runtime.Run.{Run, ok, abort, ◌>>=◌, or_abort}

-- `slot_capacity` is the length of `slots`; it is 0 while `slots` is null.
pub record RowStore {ℓ} (A : Type ℓ) : Type ℓ where
  pub rows : List A
  pub hashes : List ℕ
  pub slots : List ℕ

module _ {ℓ} {A : Type ℓ} where
  abbrev pub empty_store : RowStore A
  empty_store = record { rows = []; hashes = []; slots = [] }

  unfoldable pub num_rows : RowStore A → ℕ
  num_rows s = length s.rows % 2 ^ 32

  -- `hashes[id] == hash && rows[id] == row`
  unfoldable pub row_hit : ⦃h : Hashed A⦄ → RowStore A → A → ℕ → ℕ → Bool
  row_hit s row hash id = elim (get_elem? s.hashes id) [
    | none ↦ false
    | some hash' ↦ elim (get_elem? s.rows id) [
      | none ↦ false
      | some row' ↦ (hash' == hash) && (row' =ᵏ row)
    ]
  ]

  unfoldable pub find_with_hash : ⦃h : Hashed A⦄ → RowStore A → A → ℕ → Run ℕ
  find_with_hash s row hash = find_id (row_hit s row hash) s.slots hash

  unfoldable pub find : ⦃h : Hashed A⦄ → RowStore A → A → Run ℕ
  find ⦃h⦄ s row = find_with_hash s row (h.hash row)

  -- A fresh entry of the log. The id `~0u` is reserved.
  unfoldable pub add_row : RowStore A → A → ℕ → Run ((ℕ × Bool) × RowStore A)
  add_row s row hash =
      let id = num_rows s in
      or_abort (id == no_id) (do
        slots ← insert_slot (s.hashes ++ hash ∷ []) s.slots id hash
        ok (
          (id, true),
          record { rows = s.rows ++ row ∷ []; hashes = s.hashes ++ hash ∷ []; slots = slots },
        ))

  unfoldable pub find_or_add : ⦃h : Hashed A⦄ → RowStore A → A → Run ((ℕ × Bool) × RowStore A)
  find_or_add ⦃h⦄ s row = do
    id ← find_with_hash s row (h.hash row)
    if is_free id then add_row s row (h.hash row) else ok ((id, false), s)

-- `if (w != r) { a[w] = a[r]; }`
unfoldable pub move {ℓ} : {A : Type ℓ} → ℕ → ℕ → List A → List A
move r w xs = elim (get_elem? xs r) [ none ↦ xs | some x ↦ if w == r then xs else set xs w x ]

module _ {ℓ κ} {A : Type ℓ} {S : Type κ} (dead : S → ℕ → Bool) (moved : ℕ → ℕ → S → S) where
  -- The first loop of CompactRowsInPlace, with `left` rounds to go at row `r`. The callbacks read
  -- and write the side arrays `S` of the derived class.
  unfoldable pub compact_loop : ℕ → ℕ → ℕ → RowStore A → S → ℕ × RowStore A × S
  compact_loop zero r w s side = (w, s, side)
  compact_loop (suc left) r w s side = elim (dead side r) [
    | true ↦ compact_loop left (suc r) w s side
    | false ↦
        compact_loop left (suc r) (suc w)
          (record s { rows = move r w s.rows; hashes = move r w s.hashes }) (moved r w side)
  ]

  -- Truncation, and the second loop: every surviving id goes back into the cleared slots.
  unfoldable pub compact_rows_in_place : RowStore A → S → Run (ℕ × RowStore A × S)
  compact_rows_in_place s side =
      let (w, s', side') = compact_loop (num_rows s) 0 0 s side in
      do
        slots ← link_from 0 (take w s'.hashes) (replicate (length s'.slots) no_id)
        ok (w, record { rows = take w s'.rows; hashes = take w s'.hashes; slots = slots }, side')
