-- ===== src/Util/Tests.antt =====
-- Runs of EqualitySet.
use dr_lojekyll.Prelude.{List, [], ◌∷◌, ◌↔◌, ◌≡◌, refl, true, ◌==◌, ◌||◌, ◌&&◌, not}
use dr_lojekyll.Util.EqualitySet.{
  EqualitySet, empty_equalities, nested, ordered, same_pair, counts, counts_any, erase, insert,
  remove, contains,
}
use dr_lojekyll.Util.EqualitySet.Pairs.{is_either, holds, holds_any, IsOrdered}
use dr_lojekyll.Util.EqualitySet.Members.{contains-insert, contains-remove}
use dr_lojekyll.Util.DisjointSet.{
  set_parent, find, link_roots, union, union_into, reparent, Call, call, calls, parents_after,
}
use dr_lojekyll.Util.DisjointSet.Classes.{Connected, found_root, find_iff}

equating : Unit {0}
unfolding ordered same_pair counts counts_any erase insert remove contains
equating = tt

-- A pair that a parent has is not erased in the nested set.
remove-nested : contains 9 4 (remove 4 9 (nested (insert 9 4 empty_equalities))) ≡ true
unfolding equating
remove-nested = refl

-- 2 and 7 in the parent, 4 and 9 in the set itself.
abbrev nested_pair : EqualitySet
nested_pair = insert 9 4 (nested (insert 7 2 empty_equalities))

nested_pair-IsOrdered : IsOrdered nested_pair
nested_pair-IsOrdered =
    let inner = (contains-insert 7 2 0 0 empty_equalities (tt, tt)).0 in
    (contains-insert 9 4 0 0 (nested (insert 7 2 empty_equalities)) (tt, inner)).0

contains-insert_example :
    IsOrdered (insert 9 4 (insert 7 2 empty_equalities))
    × (contains 4 9 (insert 9 4 (insert 7 2 empty_equalities)) ≡ (
        (4 == 9)
        || (is_either 4 9 9 4
            || holds_any 4 9 (
                (insert 7 2 empty_equalities).equalities ∷ (insert 7 2 empty_equalities).parents))))
contains-insert_example =
    contains-insert 9 4 4 9 (insert 7 2 empty_equalities)
      (contains-insert 7 2 0 0 empty_equalities (tt, tt)).0

contains-remove_example :
    IsOrdered (remove 4 9 nested_pair)
    × (contains 9 4 (remove 4 9 nested_pair) ≡ (
        (9 == 4)
        || ((holds 9 4 nested_pair.equalities && not (is_either 9 4 4 9))
            || holds_any 9 4 nested_pair.parents)))
contains-remove_example = contains-remove 4 9 9 4 nested_pair nested_pair-IsOrdered

uniting : Unit {0}
unfolding set_parent find link_roots union union_into reparent call calls parents_after
uniting = tt

-- The smaller id becomes the root, unless a set is united into another.
abbrev four_calls : List Call
four_calls = Call.union_of 5 2 ∷ Call.union_of 7 5 ∷ Call.find_of 7 ∷ Call.union_into_of 2 9 ∷ []

four_calls_root : found_root (λ x. x) four_calls 7 ≡ 9
unfolding uniting
four_calls_root = refl

reparent_lem : reparent 7 (parents_after (λ x. x) four_calls) 7 ≡ 7
unfolding uniting
reparent_lem = refl

find_iff_example :
    (parents_after (λ x. x) four_calls (found_root (λ x. x) four_calls 7)
      ≡ found_root (λ x. x) four_calls 7)
    × ((found_root (λ x. x) four_calls 7 ≡ found_root (λ x. x) four_calls 9)
        ↔ Connected four_calls 7 9)
find_iff_example = find_iff (λ x. x) four_calls 7 9
