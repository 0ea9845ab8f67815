-- ===== src/Runtime/DiffTable.antt =====
-- DiffTable of Runtime/Table.h: rows with derivation counters and per-batch flags. The parallel
-- vectors `counts` and `flags` are one list of cells here. `abort` stands for the counter overflow.
pub mod Commit
pub mod Compact
pub mod Invariant
pub mod Fold
pub mod Claims
pub mod View
pub mod Enter
pub mod Rows
pub mod Reach
pub mod Seals
pub mod Explicit
use dr_lojekyll.Prelude.Int.{ℤ, pos, negsuc, ◌+ℤ◌, is_pos}
use dr_lojekyll.Prelude.{
  ℕ, suc, ◌+◌, ◌-◌, ◌*◌, ◌/◌, ◌%◌, ◌^◌, Bool, true, false, not, ◌&&◌, ◌||◌, Option, none, some,
  List, [], ◌∷◌, ◌++◌, length, get_elem?, set, take, replicate, ltb, leb, ◌==◌, if◌then◌else◌,
}
use dr_lojekyll.Runtime.Counters.{
  DerivClass, non_recursive, recursive, count_nr, count_r, pack, total, at_limit,
}
use dr_lojekyll.Runtime.Flags.{Flags, no_flags, claimed_del, claimed_add, sealed_flags}
use dr_lojekyll.Runtime.Hashed.{Hashed}
use dr_lojekyll.Runtime.IdSlots.{is_free}
use dr_lojekyll.Runtime.RowStore.{
  RowStore, empty_store, num_rows, find, find_or_add, compact_rows_in_place, move,
}
use dr_lojekyll.Runtime.Run.{Run, ok, abort, lost, ◌>>=◌, or_lost, or_abort}

pub record Cell : Type 0 where
  pub count : ℕ
  pub flags : Flags

abbrev pub fresh_cell : Cell
fresh_cell = record { count = 0; flags = no_flags }

pub record DiffTable {ℓ} (A : Type ℓ) : Type ℓ where
  pub store : RowStore A
  pub cells : List Cell
  pub touched : List ℕ
  pub num_live : ℕ

abbrev pub empty_table {ℓ} : {A : Type ℓ} → DiffTable A
empty_table = record { store = empty_store; cells = []; touched = []; num_live = 0 }

-- The named membership reads.
pub is_in_i : Cell → Bool
is_in_i c = c.flags.in_i

pub is_in_new : Cell → Bool
is_in_new c = (c.flags.in_i && not c.flags.del) || c.flags.add

pub survives_so_far : Cell → Bool
survives_so_far c = c.flags.in_i && not c.flags.del

pub alive_at_claim : Cell → Bool
alive_at_claim c = c.flags.in_i && (not c.flags.del || c.flags.del_now)

pub in_new_sans_frontier : Cell → Bool
in_new_sans_frontier c = (c.flags.in_i && not c.flags.del) || (c.flags.add && not c.flags.add_now)

unfoldable pub is_present : Cell → Bool
is_present c = is_pos (total c.count)

pub recursively_supported : Cell → Bool
recursively_supported c = is_pos (count_r c.count)

pub net_deleted : Cell → Bool
net_deleted c = c.flags.del && not c.flags.add

pub net_added : Cell → Bool
net_added c = c.flags.add && not c.flags.del && not c.flags.in_i

-- The counters after a fold of `delta` on one class.
unfoldable pub folded : DerivClass → ℤ → ℕ → ℤ × ℤ
folded non_recursive delta w = (count_nr w +ℤ delta, count_r w)
folded recursive delta w = (count_nr w, count_r w +ℤ delta)

unfoldable pub target : DerivClass → ℤ × ℤ → ℤ
target non_recursive (nr, r) = nr
target recursive (nr, r) = r

-- `crossed`, from the counters before and after and the batch-frozen flag.
unfoldable pub crosses : ℤ → Bool → ℕ → ℤ × ℤ → Bool
crosses delta in_i before (nr, r) =
    if is_pos delta
    then not (is_pos (total before)) && is_pos (nr +ℤ r)
    else in_i && not (is_pos nr)

module _ {ℓ} {A : Type ℓ} where
  unfoldable pub cell_at : DiffTable A → ℕ → Run Cell
  cell_at d id = or_lost (get_elem? d.cells id)

  -- The extension of the side arrays to cover `id`.
  unfoldable pub grow_to : ℕ → DiffTable A → DiffTable A
  grow_to id d = record d { cells = d.cells ++ replicate (id + 1 - length d.cells) fresh_cell }

  unfoldable pub touch : ℕ → DiffTable A → Run (DiffTable A)
  touch id d = do
    c ← cell_at d id
    ok (
        if c.flags.touched then d else record d {
          cells = set d.cells id (record c { flags = record c.flags { touched = true } });
          touched = d.touched ++ id ∷ [];
        })

  unfoldable pub set_flags : (Flags → Flags) → ℕ → DiffTable A → Run (DiffTable A)
  set_flags g id d = do
    c ← cell_at d id
    ok (record d { cells = set d.cells id (record c { flags = g c.flags }) })

  unfoldable pub fold_at : ℕ → DerivClass → ℤ → DiffTable A → Run (Bool × DiffTable A)
  fold_at id cls delta d = do
    d₁ ← touch id d
    c ← cell_at d₁ id
    let after = folded cls delta c.count
    or_abort (at_limit (target cls after)) (
        ok (
          crosses delta c.flags.in_i c.count after,
          record d₁ { cells = set d₁.cells id (record c { count = pack after.0 after.1 }) },
        ))

  -- Claims. The result says whether the row joined the frontier.
  unfoldable pub try_claim_del : ℕ → DiffTable A → Run (Bool × DiffTable A)
  try_claim_del id d = do
    c ← cell_at d id
    if c.flags.del || is_pos (count_nr c.count)
        then ok (false, d)
        else (do d₁ ← touch id d; d₂ ← set_flags claimed_del id d₁; ok (true, d₂))

  unfoldable pub try_claim_add : ℕ → DiffTable A → Run (Bool × DiffTable A)
  try_claim_add id d = do
    c ← cell_at d id
    if c.flags.add || not (is_pos (total c.count))
        then ok (false, d)
        else (do d₁ ← touch id d; d₂ ← set_flags claimed_add id d₁; ok (true, d₂))

  unfoldable pub retire_del : ℕ → DiffTable A → Run (DiffTable A)
  retire_del = set_flags (λ f. record f { del_now = false })

  unfoldable pub retire_add : ℕ → DiffTable A → Run (DiffTable A)
  retire_add = set_flags (λ f. record f { add_now = false })

-- The result of a fold: `crossed`, `added_row` and the row's id.
pub record Delta : Type 0 where
  pub crossed : Bool
  pub added_row : Bool
  pub id : ℕ

module _ {ℓ} {A : Type ℓ} ⦃h : Hashed A⦄ where
  unfoldable pub fold : A → DerivClass → ℤ → DiffTable A → Run (Delta × DiffTable A)
  fold row cls delta d = do
    ((id, added), store) ← find_or_add d.store row
    (crossed, d') ← fold_at id cls delta (grow_to id (record d { store = store }))
    ok (record { crossed = crossed; added_row = added; id = id }, d')

  unfoldable pub add_derivation : A → DerivClass → DiffTable A → Run (Delta × DiffTable A)
  add_derivation row cls = fold row cls (pos 1)

  unfoldable pub sub_derivation : A → DerivClass → DiffTable A → Run (Delta × DiffTable A)
  sub_derivation row cls = fold row cls (negsuc 0)

  unfoldable pub add_explicit : A → DiffTable A → Run (Delta × DiffTable A)
  add_explicit row d = do
    ((id, added), store) ← find_or_add d.store row
    let d₁ = grow_to id (record d { store = store })
    c ← cell_at d₁ id
    if c.flags.explicit
        then ok (record { crossed = false; added_row = added; id = id }, d₁)
        else (do
          d₂ ← touch id d₁
          d₃ ← set_flags (λ f. record f { explicit = true }) id d₂
          (crossed, d₄) ← fold_at id non_recursive (pos 1) d₃
          ok (record { crossed = crossed; added_row = added; id = id }, d₄))

  -- The row is looked up, never added.
  unfoldable pub sub_explicit : A → DiffTable A → Run (Delta × DiffTable A)
  sub_explicit row d = do
    id ← find d.store row
    let unchanged : Run (Delta × DiffTable A) =
        ok (record { crossed = false; added_row = false; id = id }, d)
    if is_free id then unchanged else (do
      c ← cell_at d id
      if not c.flags.explicit then unchanged else (do
        d₁ ← touch id d
        d₂ ← set_flags (λ f. record f { explicit = false }) id d₁
        (crossed, d₃) ← fold_at id non_recursive (negsuc 0) d₂
        ok (record { crossed = crossed; added_row = false; id = id }, d₃)))
