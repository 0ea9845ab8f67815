-- ===== src/Runtime/StateCell.antt =====
-- StateCellStore of Runtime/StateCell.h: the standing value of each group of an aggregate. Its keys,
-- hashes and slots are those of a row log. The columns over the group ids are one list of groups.
pub mod Policies
pub mod Epoch
pub mod Seals
use dr_lojekyll.Prelude.Int.{ℤ, pos, negsuc, ◌+ℤ◌, is_pos}
use dr_lojekyll.Prelude.{
  ℕ, ◌^◌, Bool, true, false, List, [], ◌∷◌, ◌++◌, get_elem?, set, ltb, if◌then◌else◌,
}
use dr_lojekyll.Runtime.Hashed.{Hashed}
use dr_lojekyll.Runtime.RowStore.{RowStore, empty_store, find, find_or_add}
use dr_lojekyll.Runtime.Run.{Run, ok, lost, ◌>>=◌, or_lost}
use dr_lojekyll.Runtime.StateCell.Policies.{Algebra}

-- `working`, `working_count`, `sealed`, `sealed_occupied` and `touched_flag` of a group.
pub record Group {ℓ κ} (W : Type ℓ) (S : Type κ) : Type (ℓ ⊔ κ) where
  pub working : W
  pub members : ℤ
  pub sealed : S
  pub occupied : Bool
  pub touched : Bool

pub record StateCellStore {ℓ κ μ} (K : Type ℓ) (W : Type κ) (S : Type μ) : Type (ℓ ⊔ κ ⊔ μ) where
  pub keys : RowStore K
  pub groups : List (Group W S)
  pub touched : List ℕ

-- A signed 32-bit number can hold it.
unfoldable pub fits : ℤ → Bool
fits (pos n) = ltb n (2 ^ 31)
fits (negsuc n) = ltb n (2 ^ 31)

unfoldable pub working_occupied {ℓ κ} : {W : Type ℓ} {S : Type κ} → Group W S → Bool
working_occupied g = is_pos g.members

module _ {ℓ κ μ} {K : Type ℓ} {W : Type κ} {S : Type μ} where
  unfoldable pub group_at : StateCellStore K W S → ℕ → Run (Group W S)
  group_at s gid = or_lost (get_elem? s.groups gid)

  unfoldable pub touch_group : ℕ → StateCellStore K W S → Run (StateCellStore K W S)
  touch_group gid s = do
    g ← group_at s gid
    ok (
        if g.touched then s else record s {
          groups = set s.groups gid (record g { touched = true });
          touched = s.touched ++ gid ∷ [];
        })

module _ {ℓ κ} {W : Type ℓ} {S : Type κ} (alg : Algebra W S) where
  unfoldable pub fresh_group : Group W S
  fresh_group = record {
    working = alg.identity;
    members = pos 0;
    sealed = alg.emit alg.identity;
    occupied = false;
    touched = false;
  }

  -- SealOne, which is the body of the loop of Seal.
  unfoldable pub sealed_group : Group W S → Group W S
  sealed_group g = record g {
    sealed = alg.emit g.working;
    occupied = working_occupied g;
    touched = false;
  }

  unfoldable pub seal_loop : List ℕ → List (Group W S) → Run (List (Group W S))
  seal_loop [] groups = ok groups
  seal_loop (gid ∷ gids) groups = do
    g ← or_lost (get_elem? groups gid)
    seal_loop gids (set groups gid (sealed_group g))

module _ {ℓ κ μ} {K : Type ℓ} {W : Type κ} {S : Type μ} (alg : Algebra W S) where
  unfoldable pub find_or_add_group :
      ⦃h : Hashed K⦄ → K → StateCellStore K W S → Run (ℕ × StateCellStore K W S)
  find_or_add_group key s = do
    ((gid, added), keys) ← find_or_add s.keys key
    let groups = if added then s.groups ++ fresh_group alg ∷ [] else s.groups
    ok (gid, record s { keys = keys; groups = groups })

  -- The count of members is signed: its overflow is undefined.
  unfoldable pub fold_group : ℕ → ℤ → S → StateCellStore K W S → Run (StateCellStore K W S)
  fold_group gid sign v s = do
    s₁ ← touch_group gid s
    g ← group_at s₁ gid
    let members = g.members +ℤ sign
    if fits members
        then ok (record s₁ {
          groups =
              set s₁.groups gid
                (record g { working = alg.fold_value g.working sign v; members = members });
        })
        else lost

  unfoldable pub emit_group : ℕ → StateCellStore K W S → Run S
  emit_group gid s = do g ← group_at s gid; ok (alg.emit g.working)

  unfoldable pub old_group : ℕ → StateCellStore K W S → Run S
  old_group gid s = do g ← group_at s gid; ok g.sealed

  unfoldable pub seal_groups : StateCellStore K W S → Run (StateCellStore K W S)
  seal_groups s = do
    groups ← seal_loop alg s.touched s.groups
    ok (record s { groups = groups; touched = [] })

  -- The folds of a batch, in order: group, sign and value.
  unfoldable pub fold_all : List (ℕ × ℤ × S) → StateCellStore K W S → Run (StateCellStore K W S)
  fold_all [] s = ok s
  fold_all ((gid, sign, v) ∷ folds) s = do s' ← fold_group gid sign v s; fold_all folds s'
