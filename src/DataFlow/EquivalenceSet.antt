-- ===== src/DataFlow/EquivalenceSet.antt =====
-- EquivalenceSet of lib/DataFlow/EquivalenceSet.h: the data models of the views. A set is the place of
-- the view that it was made for; the ids do not change. Find is that of DisjointSet.
pub mod Unions
pub mod Merged
pub mod Tries
use dr_lojekyll.Prelude.{
  ℕ, Bool, true, false, Option, none, some, List, ◌++◌, if◌then◌else◌, ltb, ◌==◌,
}
use dr_lojekyll.Util.DisjointSet.{find, set_parent}

pub record Models : Type 0 where
  pub parents : ℕ → ℕ
  pub induction_view : ℕ → Option ℕ
  pub views_in_set : ℕ → List ℕ

pub record Canonical : Type 0 where
  pub root : ℕ
  pub models : Models

unfoldable pub find_set : ℕ → ℕ → Models → Canonical
find_set fuel x s =
    let f = find fuel x s.parents in
    record { root = f.root; models = record s { parents = f.parents } }

unfoldable pub add_views : ℕ → List ℕ → (ℕ → List ℕ) → ℕ → List ℕ
add_views x vs views y = if y == x then views y ++ vs else views y

unfoldable pub make_parent : ℕ → ℕ → Models → Models
make_parent old_set new_parent s = record s {
  parents = set_parent old_set new_parent s.parents;
  views_in_set = add_views new_parent (s.views_in_set old_set) s.views_in_set;
}

-- The set with the smaller id becomes the parent.
unfoldable pub join_roots : (ℕ → ℕ) → ℕ → ℕ → Models → Models
join_roots id a b s = if ltb (id b) (id a) then make_parent a b s else make_parent b a s

unfoldable pub force_union : ℕ → (ℕ → ℕ) → ℕ → ℕ → Models → Models
force_union fuel id x y s =
    let a = find_set fuel x s in
    let b = find_set fuel y a.models in
    if a.root == b.root then b.models else join_roots id a.root b.root b.models

unfoldable pub set_induction : ℕ → Option ℕ → Models → Models
set_induction x o s = record s { induction_view = λ y. if y == x then o else s.induction_view y }

pub record Tried : Type 0 where
  pub united : Bool
  pub models : Models

-- Two different roots: at most one of them may have an induction view, or both the same.
unfoldable pub try_roots : (ℕ → ℕ) → ℕ → ℕ → Option ℕ → Option ℕ → Models → Tried
try_roots id a b none none s = record { united = true; models = join_roots id a b s }
try_roots id a b (some v) none s = record {
  united = true;
  models = make_parent b a (set_induction b (some v) s);
}
try_roots id a b none (some w) s = record {
  united = true;
  models = make_parent a b (set_induction a (some w) s);
}
try_roots id a b (some v) (some w) s =
    if v == w
    then record { united = true; models = join_roots id a b s }
    else record { united = false; models = s }

unfoldable pub try_union : ℕ → (ℕ → ℕ) → ℕ → ℕ → Models → Tried
try_union fuel id x y s =
    let a = find_set fuel x s in
    let b = find_set fuel y a.models in
    if a.root == b.root
    then record { united = true; models = b.models }
    else try_roots id a.root b.root (s.induction_view a.root) (s.induction_view b.root) b.models

unfoldable pub try_set_induction_group : ℕ → ℕ → ℕ → Models → Tried
try_set_induction_group fuel x view s =
    let self = find_set fuel x s in
    elim (s.induction_view self.root) [
      | some v ↦ record { united = false; models = self.models }
      | none ↦ record {
        united = true;
        models = set_induction self.root (some view) (set_induction x (some view) self.models);
      }
    ]

unfoldable pub induction_view_of : ℕ → ℕ → Models → Option ℕ
induction_view_of fuel x s = s.induction_view (find_set fuel x s).root
