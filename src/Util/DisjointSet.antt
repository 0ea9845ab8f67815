-- ===== src/Util/DisjointSet.antt =====
-- DisjointSet of lib/Util/DisjointSet.cpp: union-find with path compression. A set is its place, and
-- the parents of the sets are a function; the ids do not change.
pub mod Forest
pub mod Joins
pub mod Classes
use dr_lojekyll.Prelude.{ℕ, zero, suc, ◌+◌, List, [], ◌∷◌, length, if◌then◌else◌, ltb, ◌==◌}

-- The set that a call returns, and the parents that it leaves.
pub record Found : Type 0 where
  pub root : ℕ
  pub parents : ℕ → ℕ

unfoldable pub set_parent : ℕ → ℕ → (ℕ → ℕ) → ℕ → ℕ
set_parent x r parents y = if y == x then r else parents y

-- The recursion of the source has no bound.
unfoldable pub find : ℕ → ℕ → (ℕ → ℕ) → Found
find zero x parents = record { root = x; parents = parents }
find (suc fuel) x parents =
    let f = find fuel (parents x) parents in
    if parents x == x
    then record { root = x; parents = parents }
    else record { root = f.root; parents = set_parent x f.root f.parents }

-- `lhs` and `rhs` are roots.
unfoldable pub link_roots : (ℕ → ℕ) → ℕ → ℕ → (ℕ → ℕ) → Found
link_roots id lhs rhs parents =
    if lhs == rhs
    then record { root = lhs; parents = parents }
    else if ltb (id rhs) (id lhs)
    then record { root = rhs; parents = set_parent lhs rhs parents }
    else record { root = lhs; parents = set_parent rhs lhs parents }

unfoldable pub union : ℕ → (ℕ → ℕ) → ℕ → ℕ → (ℕ → ℕ) → Found
union fuel id lhs rhs parents =
    let l = find fuel lhs parents in
    let r = find fuel rhs l.parents in link_roots id l.root r.root r.parents

unfoldable pub union_into : ℕ → ℕ → ℕ → (ℕ → ℕ) → ℕ → ℕ
union_into fuel child parent parents =
    let c = find fuel child parents in
    let p = find fuel parent c.parents in
    if c.root == p.root then p.parents else set_parent c.root p.root p.parents

unfoldable pub reparent : ℕ → (ℕ → ℕ) → ℕ → ℕ
reparent x parents = set_parent x x parents

pub data Call : Type 0 where
  find_of : ℕ → Call
  union_of : ℕ → ℕ → Call
  union_into_of : ℕ → ℕ → Call

unfoldable pub call : ℕ → (ℕ → ℕ) → Call → (ℕ → ℕ) → ℕ → ℕ
call fuel id (Call.find_of x) parents = (find fuel x parents).parents
call fuel id (Call.union_of x y) parents = (union fuel id x y parents).parents
call fuel id (Call.union_into_of x y) parents = union_into fuel x y parents

unfoldable pub calls : ℕ → (ℕ → ℕ) → List Call → (ℕ → ℕ) → ℕ → ℕ
calls fuel id [] parents = parents
calls fuel id (c ∷ cs) parents = calls fuel id cs (call fuel id c parents)

-- The parents after calls on fresh sets; each call can add one link to a path.
unfoldable pub parents_after : (ℕ → ℕ) → List Call → ℕ → ℕ
parents_after id cs = calls (length cs) id cs (λ x. x)
