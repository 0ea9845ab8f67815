-- ===== src/Util/EqualitySet/Members.antt =====
-- What an EqualitySet contains after each operation.
use dr_lojekyll.Prelude.{
  ℕ, ◌≡◌, refl, ◌∙◌, inl, inr, true, false, not, ◌&&◌, ◌||◌, ◌∷◌, ◌==◌, arith, Bool-cases,
}
use dr_lojekyll.Util.EqualitySet.{EqualitySet, insert, ordered, counts, erase, remove, contains}
use dr_lojekyll.Util.EqualitySet.Pairs.{
  is_either, holds, holds_any, IsOrdered, same_pair-both, counts-holds, counts_any-holds_any,
  ordered-AreOrdered, erase-AreOrdered,
}
use dr_lojekyll.Util.EqualitySet.Counts.{remove_counts, insert_counts, insert_known, insert_new}

insert_itself : (a b : ℕ) (s : EqualitySet) → (a == b) ≡ true → insert a b s ≡ s
unfolding insert
insert_itself a b s e = rw (e, insert) refl

remove_itself : (a b : ℕ) (s : EqualitySet) → (a == b) ≡ true → remove a b s ≡ s
unfolding remove
remove_itself a b s e = rw (e, remove) refl

remove_eq :
    (a b : ℕ) (s : EqualitySet)
    → (a == b) ≡ false
    → remove a b s ≡ record s { equalities = erase (ordered a b) s.equalities }
unfolding remove
remove_eq a b s e = rw (e, remove) refl

contains_itself : (c d : ℕ) (s : EqualitySet) → (c == d) ≡ true → contains c d s ≡ true
unfolding contains
contains_itself c d s e = rw (e, contains) refl

contains_stored :
    (c d : ℕ) (s : EqualitySet)
    → IsOrdered s
    → (c == d) ≡ false
    → contains c d s ≡ holds_any c d (s.equalities ∷ s.parents)
unfolding contains
contains_stored c d s o f =
    rw (f, contains) (counts_any-holds_any c d (s.equalities ∷ s.parents) f o)

not_either : (a b c d : ℕ) → (a == b) ≡ true → (c == d) ≡ false → is_either c d a b ≡ false
not_either a b c d e f = ground (arith, e, f)

insert-IsOrdered : (a b : ℕ) (s : EqualitySet) → IsOrdered s → IsOrdered (insert a b s)
insert-IsOrdered a b s o = elim (Bool-cases (a == b)) [
  | inl i ↦ rw (insert_itself a b s i) o
  | inr e ↦ elim (Bool-cases (counts (ordered a b) s.equalities)) [
    | inl t ↦ rw (insert_known a b s e t) o
    | inr g ↦ rw (insert_new a b s e g) (ordered-AreOrdered a b s.equalities e o.0, o.1)
  ]
]

remove-IsOrdered : (a b : ℕ) (s : EqualitySet) → IsOrdered s → IsOrdered (remove a b s)
remove-IsOrdered a b s o = elim (Bool-cases (a == b)) [
  | inl i ↦ rw (remove_itself a b s i) o
  | inr e ↦ rw (remove_eq a b s e) (erase-AreOrdered (ordered a b) s.equalities o.0, o.1)
]

contains_inserted :
    (a b c d : ℕ) (s : EqualitySet)
    → IsOrdered s
    → (c == d) ≡ false
    → contains c d (insert a b s) ≡ (is_either c d a b || holds_any c d (s.equalities ∷ s.parents))
contains_inserted a b c d s o f = elim (Bool-cases (a == b)) [
  | inl i ↦ rw (insert_itself a b s i, contains_stored c d s o f, not_either a b c d i f) refl
  | inr e ↦
      insert_counts a b c d s e f ∙ rw (same_pair-both c d a b f e, contains_stored c d s o f) refl
]

contains_removed :
    (a b c d : ℕ) (s : EqualitySet)
    → IsOrdered s
    → (c == d) ≡ false
    → contains c d (remove a b s)
      ≡ ((holds c d s.equalities && not (is_either c d a b)) || holds_any c d s.parents)
unfolding holds_any
contains_removed a b c d s o f = elim (Bool-cases (a == b)) [
  | inl i ↦
      rw (remove_itself a b s i, contains_stored c d s o f, not_either a b c d i f) (ground arith)
  | inr e ↦
      remove_counts a b c d s e f
      ∙ rw
          (
            same_pair-both c d a b f e,
            counts-holds c d s.equalities f o.0,
            counts_any-holds_any c d s.parents f o.1,
          )
          refl
]

-- When all pairs that a set and its parents store have the smaller address first, they still
-- have it after two pointers are inserted, and then two pointers are contained exactly if they
-- are equal, or they are the inserted ones in either order, or the set or a parent stored them
-- in either order before.
pub contains-insert :
    (a b c d : ℕ) (s : EqualitySet)
    → IsOrdered s
    → IsOrdered (insert a b s)
      × (contains c d (insert a b s)
          ≡ ((c == d) || (is_either c d a b || holds_any c d (s.equalities ∷ s.parents))))
contains-insert a b c d s o = (
  insert-IsOrdered a b s o,
  elim (Bool-cases (c == d)) [
    | inl t ↦ contains_itself c d (insert a b s) t ∙ rw t refl
    | inr f ↦ contains_inserted a b c d s o f ∙ rw f refl
  ],
)

-- When all pairs that a set and its parents store have the smaller address first, they still
-- have it after two pointers are removed, and then two pointers are contained exactly if they
-- are equal, or a parent stores them in either order, or the set itself stored them in either
-- order and they are not the removed ones in either order.
pub contains-remove :
    (a b c d : ℕ) (s : EqualitySet)
    → IsOrdered s
    → IsOrdered (remove a b s)
      × (contains c d (remove a b s) ≡ (
          (c == d)
          || ((holds c d s.equalities && not (is_either c d a b)) || holds_any c d s.parents)))
contains-remove a b c d s o = (
  remove-IsOrdered a b s o,
  elim (Bool-cases (c == d)) [
    | inl t ↦ contains_itself c d (remove a b s) t ∙ rw t refl
    | inr f ↦ contains_removed a b c d s o f ∙ rw f refl
  ],
)
