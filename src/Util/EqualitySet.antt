-- ===== src/Util/EqualitySet.antt =====
-- EqualitySet of lib/Util/EqualitySet.cpp: assumed equalities of pointers, where a set sees those of its
-- parents. A pointer is its address.
pub mod Pairs
pub mod Counts
pub mod Members
use dr_lojekyll.Prelude.{
  ℕ, Bool, true, false, not, ◌&&◌, ◌||◌, List, [], ◌∷◌, if◌then◌else◌, ltb, ◌==◌,
}

pub record EqualitySet : Type 0 where
  pub equalities : List (ℕ × ℕ)
  pub parents : List (List (ℕ × ℕ))

abbrev pub empty_equalities : EqualitySet
empty_equalities = record { equalities = []; parents = [] }

-- `EqualitySet(that, SuperSet)`
abbrev pub nested : EqualitySet → EqualitySet
nested s = record { equalities = []; parents = s.equalities ∷ s.parents }

-- The smaller address first.
unfoldable pub ordered : ℕ → ℕ → ℕ × ℕ
ordered a b = if ltb b a then (b, a) else (a, b)

unfoldable pub same_pair : ℕ × ℕ → ℕ × ℕ → Bool
same_pair p q = (p.0 == q.0) && (p.1 == q.1)

unfoldable pub counts : ℕ × ℕ → List (ℕ × ℕ) → Bool
counts p [] = false
counts p (q ∷ qs) = same_pair p q || counts p qs

unfoldable pub counts_any : ℕ × ℕ → List (List (ℕ × ℕ)) → Bool
counts_any p [] = false
counts_any p (qs ∷ sets) = counts p qs || counts_any p sets

unfoldable pub erase : ℕ × ℕ → List (ℕ × ℕ) → List (ℕ × ℕ)
erase p [] = []
erase p (q ∷ qs) = let rest = erase p qs in if same_pair p q then rest else q ∷ rest

unfoldable pub insert : ℕ → ℕ → EqualitySet → EqualitySet
insert a b s =
    if a == b
    then s
    else if counts (ordered a b) s.equalities
    then s
    else record s { equalities = ordered a b ∷ s.equalities }

unfoldable pub remove : ℕ → ℕ → EqualitySet → EqualitySet
remove a b s = if a == b then s else record s { equalities = erase (ordered a b) s.equalities }

unfoldable pub contains : ℕ → ℕ → EqualitySet → Bool
contains a b s = if a == b then true else counts_any (ordered a b) (s.equalities ∷ s.parents)

abbrev pub clear : EqualitySet → EqualitySet
clear s = record s { equalities = [] }
