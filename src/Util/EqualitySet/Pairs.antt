-- ===== src/Util/EqualitySet/Pairs.antt =====
-- The pairs that an EqualitySet stores, read in either order, and that each of them has the smaller address
-- first.
use dr_lojekyll.Prelude.{
  ℕ, ◌<◌, ◌≡◌, refl, inl, inr, Bool, true, false, ◌&&◌, ◌||◌, List, [], ◌∷◌, if◌then◌else◌, ltb,
  ◌==◌, arith, Bool-cases,
}
use dr_lojekyll.Util.EqualitySet.{EqualitySet, ordered, same_pair, counts, counts_any, erase}

-- `c` and `d` are `a` and `b` in either order.
abbrev pub is_either : ℕ → ℕ → ℕ → ℕ → Bool
is_either c d a b = ((c == a) && (d == b)) || ((c == b) && (d == a))

-- One of the pairs has `c` and `d`, in either order.
unfoldable pub holds : ℕ → ℕ → List (ℕ × ℕ) → Bool
holds c d [] = false
holds c d ((a, b) ∷ qs) = is_either c d a b || holds c d qs

unfoldable pub holds_any : ℕ → ℕ → List (List (ℕ × ℕ)) → Bool
holds_any c d [] = false
holds_any c d (qs ∷ sets) = holds c d qs || holds_any c d sets

abbrev pub AreOrdered : List (ℕ × ℕ) → Type 0
AreOrdered [] = Unit {0}
AreOrdered ((a, b) ∷ qs) = (a < b) × AreOrdered qs

abbrev pub AreAllOrdered : List (List (ℕ × ℕ)) → Type 0
AreAllOrdered [] = Unit {0}
AreAllOrdered (qs ∷ sets) = AreOrdered qs × AreAllOrdered sets

-- All pairs of the set and of its parents have the smaller address first.
abbrev pub IsOrdered : EqualitySet → Type 0
IsOrdered s = AreAllOrdered (s.equalities ∷ s.parents)

pub same_pair-ordered :
    (c d a b : ℕ) → (c == d) ≡ false → a < b → same_pair (ordered c d) (a, b) ≡ is_either c d a b
unfolding same_pair ordered
same_pair-ordered c d a b f lt = elim (Bool-cases (ltb d c)) [
  | inl t ↦ rw (t, ordered) (ground (arith, t, lt))
  | inr g ↦ rw (g, ordered) (ground (arith, f, g, lt))
]

pub same_pair-both :
    (c d a b : ℕ)
    → (c == d) ≡ false
    → (a == b) ≡ false
    → same_pair (ordered c d) (ordered a b) ≡ is_either c d a b
unfolding ordered
same_pair-both c d a b f g = elim (Bool-cases (ltb b a)) [
  | inl t ↦
      let lt : b < a = ground (arith, t) in
      rw (t, ordered, same_pair-ordered c d b a f lt) (ground arith)
  | inr u ↦
      let lt : a < b = ground (arith, u, g) in rw (u, ordered) (same_pair-ordered c d a b f lt)
]

pub counts-holds :
    (c d : ℕ) (qs : List (ℕ × ℕ))
    → (c == d) ≡ false
    → AreOrdered qs
    → counts (ordered c d) qs ≡ holds c d qs
unfolding counts holds
counts-holds c d [] f o = refl
counts-holds c d ((a, b) ∷ qs) f (lt, o) =
    rw (same_pair-ordered c d a b f lt, counts-holds c d qs f o) refl

pub counts_any-holds_any :
    (c d : ℕ) (sets : List (List (ℕ × ℕ)))
    → (c == d) ≡ false
    → AreAllOrdered sets
    → counts_any (ordered c d) sets ≡ holds_any c d sets
unfolding counts_any holds_any
counts_any-holds_any c d [] f o = refl
counts_any-holds_any c d (qs ∷ sets) f (o, os) =
    rw (counts-holds c d qs f o, counts_any-holds_any c d sets f os) refl

pub ordered-AreOrdered :
    (a b : ℕ) (qs : List (ℕ × ℕ)) → (a == b) ≡ false → AreOrdered qs → AreOrdered (ordered a b ∷ qs)
unfolding ordered
ordered-AreOrdered a b qs f o = elim (Bool-cases (ltb b a)) [
  | inl t ↦ rw (t, ordered) (ground (arith, t), o)
  | inr u ↦ rw (u, ordered) (ground (arith, u, f), o)
]

if-AreOrdered :
    (c : Bool) (ps qs : List (ℕ × ℕ))
    → AreOrdered ps
    → AreOrdered qs
    → AreOrdered (if c then ps else qs)
if-AreOrdered true ps qs o k = o
if-AreOrdered false ps qs o k = k

pub erase-AreOrdered : (p : ℕ × ℕ) (qs : List (ℕ × ℕ)) → AreOrdered qs → AreOrdered (erase p qs)
unfolding erase
erase-AreOrdered p [] o = tt
erase-AreOrdered p ((a, b) ∷ qs) (lt, o) =
    let k = erase-AreOrdered p qs o in
    if-AreOrdered (same_pair p (a, b)) (erase p qs) ((a, b) ∷ erase p qs) k (lt, k)
