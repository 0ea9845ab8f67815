-- ===== src/Runtime/IdSlots.antt =====
-- The array `slots` of row ids that RowStore (Runtime/Table.h) and StateCellStore
-- (Runtime/StateCell.h) keep: an open-addressing set of ids, in parallel with their hashes.
pub mod Link
pub mod Find
use dr_lojekyll.Prelude.{
  ℕ, suc, ◌+◌, ◌-◌, ◌*◌, ◌/◌, ◌^◌, Bool, ◌||◌, List, [], ◌∷◌, length, set, replicate, ◌==◌, leb,
  if◌then◌else◌,
}
use dr_lojekyll.Runtime.Probe.{probe_from}
use dr_lojekyll.Runtime.Run.{Run, ok, ◌>>=◌, or_lost}

-- `~0u`: no row, no group, a free slot.
abbrev pub no_id : ℕ
no_id = 2 ^ 32 - 1

abbrev pub is_free : ℕ → Bool
is_free id = id == no_id

-- The lookup's loop. It ends at a free slot, whose contents `no_id` it returns, or at a hit.
unfoldable pub find_id : (ℕ → Bool) → List ℕ → ℕ → Run ℕ
find_id hit slots hash =
    if length slots == 0
    then ok no_id
    else (do found ← or_lost (probe_from (λ id. is_free id || hit id) slots hash); ok found.1)

-- `id` goes to the first free slot from its hash.
unfoldable pub place : List ℕ → ℕ → ℕ → Run (List ℕ)
place slots id hash = do found ← or_lost (probe_from is_free slots hash); ok (set slots found.0 id)

-- The loop over all ids, in order.
unfoldable pub link_from : ℕ → List ℕ → List ℕ → Run (List ℕ)
link_from id [] slots = ok slots
link_from id (hash ∷ hashes) slots = do
  slots' ← place slots id hash
  link_from (suc id) hashes slots'

unfoldable pub grown : ℕ → ℕ
grown capacity = if capacity == 0 then 64 else capacity * 2

unfoldable pub rehash : List ℕ → List ℕ → Run (List ℕ)
rehash hashes slots = link_from 0 hashes (replicate (grown (length slots)) no_id)

-- `hashes` has the hash of `id` already, as its last.
unfoldable pub insert_slot : List ℕ → List ℕ → ℕ → ℕ → Run (List ℕ)
insert_slot hashes slots id hash =
    let n = length hashes in
    if leb (length slots) (n + n / 8) then rehash hashes slots else place slots id hash
