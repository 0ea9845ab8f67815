-- ===== src/Runtime/DiffTable/Compact.antt =====
-- DiffTable::NeedsCompaction and CompactDead, at the end of an epoch. `HYDE_RT_COMPACT_ALWAYS` is
-- not defined here.
pub mod Kept
pub mod Loop
pub mod Dense
use dr_lojekyll.Prelude.{
  ℕ, ◌+◌, ◌-◌, ◌*◌, ◌/◌, ◌%◌, ◌^◌, Bool, true, false, not, ◌&&◌, ◌||◌, none, some, List, get_elem?,
  take, length, leb, ◌==◌, if◌then◌else◌,
}
use dr_lojekyll.Runtime.DiffTable.{Cell, DiffTable, is_present}
use dr_lojekyll.Runtime.RowStore.{num_rows, compact_rows_in_place, move}
use dr_lojekyll.Runtime.Run.{Run, ok, ◌>>=◌}

-- `Total(counts[id]) <= 0`
unfoldable pub is_dead : List Cell → ℕ → Bool
is_dead cells id = elim (get_elem? cells id) [ none ↦ false | some c ↦ not (is_present c) ]

module _ {ℓ} {A : Type ℓ} where
  unfoldable pub num_dead : DiffTable A → ℕ
  num_dead d = (num_rows d.store + 2 ^ 32 - d.num_live) % 2 ^ 32

  unfoldable pub needs_compaction : DiffTable A → Bool
  needs_compaction d =
      let n = num_rows d.store in
      let dead = num_dead d in
      not (dead == 0)
      && ((leb d.num_live dead && leb 4096 dead)
          || (leb (length d.store.slots * 7 % 2 ^ 64 / 8) n && leb (n / 2) dead))

  -- Whether rows moved.
  unfoldable pub compact_dead : DiffTable A → Run (Bool × DiffTable A)
  compact_dead d = if not (needs_compaction d) then ok (false, d) else (do
    (w, store, cells) ← compact_rows_in_place is_dead move d.store d.cells
    ok (true, record d { store = store; cells = take w cells }))
