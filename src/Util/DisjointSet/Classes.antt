-- ===== src/Util/DisjointSet/Classes.antt =====
-- The classes of the sets after calls.
use dr_lojekyll.Prelude.{
  ℕ, zero, suc, ◌+◌, ◌≤◌, ◌≡◌, ◌↔◌, ◌⊎◌, refl, ap, subst, ◌∙◌, sym, inl, inr, some, List, [], ◌∷◌,
  get_elem?, length, arith,
}
use dr_lojekyll.Util.DisjointSet.{Call, find, call, calls, parents_after}
use dr_lojekyll.Util.DisjointSet.Forest.{Forest, find_root, find-Forest}
use dr_lojekyll.Util.DisjointSet.Joins.{Equivalence, Joins, higher, union-Joins, union_into-Joins}

-- The call at a place unites two sets.
abbrev pub Unites : List Call → ℕ → ℕ → ℕ → Type 0
Unites cs i x y =
    (get_elem? cs i ≡ some (Call.union_of x y)) ⊎ (get_elem? cs i ≡ some (Call.union_into_of x y))

-- The least equivalence that holds of the sets that are united.
pub data Connected (cs : List Call) : ℕ → ℕ → Type 0 where
  same : (x : ℕ) → Connected cs x x
  united : (i x y : ℕ) → Unites cs i x y → Connected cs x y
  turned : (x y : ℕ) → Connected cs x y → Connected cs y x
  chained : (x y z : ℕ) → Connected cs x y → Connected cs y z → Connected cs x z

-- The roots after calls: those that were equal stay so, those of united sets are equal, and an
-- equivalence that holds of united sets holds of each set and its root.
record Runs (E : ℕ → ℕ → Type 0) (root : ℕ → ℕ) (h : ℕ) (cs : List Call) (q : ℕ → ℕ) : Type 0 where
  after : ℕ → ℕ
  forest : Forest q after (h + length cs)
  merges : (u v : ℕ) → root u ≡ root v → after u ≡ after v
  meets : (i x y : ℕ) → Unites cs i x y → after x ≡ after y
  sound :
      ((i x y : ℕ) → Unites cs i x y → E x y) → ((z : ℕ) → E z (root z)) → (z : ℕ) → E z (after z)

only_union :
    (x y : ℕ) (cs : List Call) (u v : ℕ) → Unites (Call.union_of x y ∷ cs) 0 u v → (u ≡ x) × (v ≡ y)
only_union x y cs u v (inl e) = (cc e, cc e)
only_union x y cs u v (inr e) = absurd (cc e)

only_union_into :
    (x y : ℕ) (cs : List Call) (u v : ℕ)
    → Unites (Call.union_into_of x y ∷ cs) 0 u v
    → (u ≡ x) × (v ≡ y)
only_union_into x y cs u v (inl e) = absurd (cc e)
only_union_into x y cs u v (inr e) = (cc e, cc e)

module _ (E : ℕ → ℕ → Type 0) (eq : Equivalence E) (fuel : ℕ) (id : ℕ → ℕ) where
  -- A call that unites `x` and `y`, and those after it.
  joins-Runs :
      (c : Call) (cs : List Call) (x y : ℕ) (root p q : ℕ → ℕ) (h : ℕ)
      → ((u v : ℕ) → Unites (c ∷ cs) 0 u v → (u ≡ x) × (v ≡ y))
      → Unites (c ∷ cs) 0 x y
      → (j : Joins E root h x y p) → Runs E j.after (suc h) cs q
      → Runs E root h (c ∷ cs) q
  joins-Runs c cs x y root p q h only here j r = record {
    after = r.after;
    forest =
        let z : suc h + length cs ≡ h + suc (length cs) = omega arith in
        subst (Forest q r.after) z r.forest;
    merges = λ u v e. r.merges u v (j.merges u v e);
    meets = first_or_later;
    sound = λ k s z. r.sound (λ i u v n. k (suc i) u v n) (j.sound (k 0 x y here) s) z;
  }
    where
      first_or_later : (i u v : ℕ) → Unites (c ∷ cs) i u v → r.after u ≡ r.after v
      first_or_later zero u v n =
          let (a, b) = only u v n in ap r.after a ∙ r.merges x y j.meets ∙ ap r.after (sym b)
      first_or_later (suc i) u v n = r.meets i u v n

  calls-Runs :
      (cs : List Call) (p root : ℕ → ℕ) (h : ℕ)
      → Forest p root h
      → h + length cs ≤ fuel
      → Runs E root h cs (calls fuel id cs p)
  unfolding calls call
  calls-Runs [] p root h f le = record {
    after = root;
    forest = let z : h ≡ h + 0 = omega arith in subst (Forest p root) z f;
    merges = λ u v e. e;
    meets = λ i x y n. elim n [ inl e ↦ absurd (cc e) | inr e ↦ absurd (cc e) ];
    sound = λ k s. s;
  }
  calls-Runs (Call.find_of x ∷ cs) p root h f le =
      let g = higher (find fuel x p).parents root h (find-Forest p root h f fuel x (omega arith)) in
      let r = calls-Runs cs (find fuel x p).parents root (suc h) g (omega arith) in
      record {
        after = r.after;
        forest =
            let z : suc h + length cs ≡ h + suc (length cs) = omega arith in
            subst (Forest (calls fuel id cs (find fuel x p).parents) r.after) z r.forest;
        merges = r.merges;
        meets = later r.after r.meets;
        sound = λ k s. r.sound (λ i u v n. k (suc i) u v n) s;
      }
    where
      later :
          (after : ℕ → ℕ)
          → ((i u v : ℕ) → Unites cs i u v → after u ≡ after v)
          → (i u v : ℕ) → Unites (Call.find_of x ∷ cs) i u v
          → after u ≡ after v
      later after m zero u v (inl e) = absurd (cc e)
      later after m zero u v (inr e) = absurd (cc e)
      later after m (suc i) u v n = m i u v n
  calls-Runs (Call.union_of x y ∷ cs) p root h f le =
      let j = union-Joins E eq fuel p root h x y f (omega arith) id in
      joins-Runs (Call.union_of x y) cs x y root _ _ h (only_union x y cs) (inl refl) j
        (calls-Runs cs _ j.after (suc h) j.forest (omega arith))
  calls-Runs (Call.union_into_of x y ∷ cs) p root h f le =
      let j = union_into-Joins E eq fuel p root h x y f (omega arith) in
      joins-Runs (Call.union_into_of x y) cs x y root _ _ h (only_union_into x y cs) (inr refl) j
        (calls-Runs cs _ j.after (suc h) j.forest (omega arith))

Connected-Equivalence : (cs : List Call) → Equivalence (Connected cs)
Connected-Equivalence cs = record { turn = Connected.turned; via = Connected.chained }

Connected-roots :
    (cs : List Call) (root : ℕ → ℕ) (x y : ℕ)
    → ((i u v : ℕ) → Unites cs i u v → root u ≡ root v)
    → Connected cs x y
    → root x ≡ root y
Connected-roots cs root _ _ h (Connected.same x) = refl
Connected-roots cs root _ _ h (Connected.united i x y n) = h i x y n
Connected-roots cs root _ _ h (Connected.turned x y c) = sym (Connected-roots cs root x y h c)
Connected-roots cs root _ _ h (Connected.chained x y z c d) =
    Connected-roots cs root x y h c ∙ Connected-roots cs root y z h d

module _ (id : ℕ → ℕ) (cs : List Call) where
  fresh-Forest : Forest (λ x. x) (λ x. x) 0
  fresh-Forest = record { fixed = λ x. refl; climbs = λ x. refl }

  runs : Runs (Connected cs) (λ x. x) 0 cs (parents_after id cs)
  unfolding parents_after
  runs =
      calls-Runs (Connected cs) (Connected-Equivalence cs) (length cs) id cs (λ x. x) (λ x. x) 0
        fresh-Forest (omega arith)

  abbrev pub found_root : ℕ → ℕ
  found_root x = (find (length cs) x (parents_after id cs)).root

  root_of : (x : ℕ) → found_root x ≡ runs.after x
  root_of x =
      find_root (parents_after id cs) runs.after (0 + length cs) runs.forest (length cs) x
        (omega arith)

  found-roots : (x y : ℕ) → found_root x ≡ found_root y → Connected cs x y
  found-roots x y e =
      let sound =
        λ (z : ℕ). runs.sound (λ i u v n. Connected.united i u v n) (λ w. Connected.same w) z in
      Connected.chained x (runs.after x) y (sound x) (
        subst (λ w. Connected cs w y) (sym (root_of y) ∙ sym e ∙ root_of x)
          (Connected.turned y (runs.after y) (sound y)))

  -- After any calls of Find, Union and UnionInto on fresh sets, with a recursion of Find as deep
  -- as there are calls, what Find returns is its own parent, and it is the same for two sets
  -- exactly if the sets that Union and UnionInto were called with connect them.
  pub find_iff :
      (x y : ℕ)
      → (parents_after id cs (found_root x) ≡ found_root x)
        × ((found_root x ≡ found_root y) ↔ Connected cs x y)
  find_iff x y = (
    ap (parents_after id cs) (root_of x) ∙ runs.forest.fixed x ∙ sym (root_of x),
    (
      found-roots x y,
      λ c. root_of x ∙ Connected-roots cs runs.after x y runs.meets c ∙ sym (root_of y),
    ),
  )
