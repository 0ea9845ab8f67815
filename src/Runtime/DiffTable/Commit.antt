-- ===== src/Runtime/DiffTable/Commit.antt =====
-- DiffTable::Commit: the sweep over the touched rows at the end of a batch.
pub mod Loop
pub mod Sweeps
use dr_lojekyll.Prelude.{
  ℕ, ◌+◌, ◌-◌, ◌%◌, ◌^◌, Bool, true, false, List, [], ◌∷◌, ◌++◌, get_elem?, set, if◌then◌else◌,
}
use dr_lojekyll.Runtime.DiffTable.{Cell, DiffTable, is_present}
use dr_lojekyll.Runtime.Flags.{sealed_flags}
use dr_lojekyll.Runtime.Run.{Run, ok, ◌>>=◌, or_lost}

-- The state of the sweep, with what the sink has been given so far.
pub record Sweep {ℓ} (A : Type ℓ) : Type ℓ where
  pub cells : List Cell
  pub live : ℕ
  pub sink : List (A × Bool)

-- `was != now`
unfoldable pub differs : Bool → Bool → Bool
differs true now = if now then false else true
differs false now = now

-- `kInI := now`, and every scratch flag cleared.
unfoldable pub seal_cell : Cell → Cell
seal_cell c = record c { flags = sealed_flags (is_present c) c.flags }

-- `++num_live` and `--num_live` on 32 bits.
unfoldable pub count_live : Bool → ℕ → ℕ
count_live true live = (live + 1) % 2 ^ 32
count_live false live = (live + 2 ^ 32 - 1) % 2 ^ 32

module _ {ℓ} {A : Type ℓ} where
  unfoldable pub publish : List A → ℕ → Bool → Sweep A → Run (Sweep A)
  publish rows id now s = do
    row ← or_lost (get_elem? rows id)
    ok (record s { live = count_live now s.live; sink = s.sink ++ (row, now) ∷ [] })

  unfoldable pub commit_one : List A → ℕ → Sweep A → Run (Sweep A)
  commit_one rows id s = do
    c ← or_lost (get_elem? s.cells id)
    s' ← if differs c.flags.in_i (is_present c) then publish rows id (is_present c) s else ok s
    ok (record s' { cells = set s'.cells id (seal_cell c) })

  unfoldable pub commit_loop : List A → List ℕ → Sweep A → Run (Sweep A)
  commit_loop rows [] s = ok s
  commit_loop rows (id ∷ ids) s = do s' ← commit_one rows id s; commit_loop rows ids s'

  unfoldable pub commit : DiffTable A → Run (DiffTable A × List (A × Bool))
  commit d = do
    s ←
        commit_loop d.store.rows d.touched
          (record { cells = d.cells; live = d.num_live; sink = [] })
    ok (record d { cells = s.cells; touched = []; num_live = s.live }, s.sink)
