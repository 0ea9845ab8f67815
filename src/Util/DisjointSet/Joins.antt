-- ===== src/Util/DisjointSet/Joins.antt =====
-- What a call makes of the roots: those of the two sets become one.
use dr_lojekyll.Prelude.{
  same_or_other, ℕ, suc, ◌≤◌, ◌≡◌, ◌≢◌, refl, ap, subst, ◌∙◌, sym, inl, inr, Bool, true, false,
  arith, if◌then◌else◌, ltb, ◌==◌,
}
use dr_lojekyll.Util.DisjointSet.{Found, set_parent, find, link_roots, union, union_into}
use dr_lojekyll.Util.DisjointSet.Forest.{
  Forest, climb_more, find_root, find-Forest, moved, moved_same, moved_other, moved-Forest,
}

-- An equivalence of sets.
pub record Equivalence (E : ℕ → ℕ → Type 0) : Type 0 where
  pub turn : (x y : ℕ) → E x y → E y x
  pub via : (x y z : ℕ) → E x y → E y z → E x z

-- The roots afterwards: no two roots part, those of `x` and `y` meet, and an equivalence that holds
-- of `x` and `y` and of each set and its root still holds of each set and its root.
pub record Joins (E : ℕ → ℕ → Type 0) (root : ℕ → ℕ) (h x y : ℕ) (q : ℕ → ℕ) : Type 0 where
  pub after : ℕ → ℕ
  pub forest : Forest q after (suc h)
  pub merges : (u v : ℕ) → root u ≡ root v → after u ≡ after v
  pub meets : after x ≡ after y
  pub sound : E x y → ((z : ℕ) → E z (root z)) → (z : ℕ) → E z (after z)

pub higher : (p root : ℕ → ℕ) (h : ℕ) → Forest p root h → Forest p root (suc h)
higher p root h f = record {
  fixed = f.fixed;
  climbs = λ x. climb_more p root h f (suc h) x (omega arith);
}

module _ (E : ℕ → ℕ → Type 0) (eq : Equivalence E) where
  swap-Joins : (root : ℕ → ℕ) (h x y : ℕ) (q : ℕ → ℕ) → Joins E root h x y q → Joins E root h y x q
  swap-Joins root h x y q j = record {
    after = j.after;
    forest = j.forest;
    merges = j.merges;
    meets = sym j.meets;
    sound = λ e s. j.sound (eq.turn y x e) s;
  }

  module _ (p root : ℕ → ℕ) (h : ℕ) (f : Forest p root h) where
    stay-Joins : (x y : ℕ) → root x ≡ root y → Joins E root h x y p
    stay-Joins x y e = record {
      after = root;
      forest = higher p root h f;
      merges = λ u v g. g;
      meets = e;
      sound = λ k s. s;
    }

    attach-Joins : (x y : ℕ) → root x ≢ root y → Joins E root h x y (set_parent (root x) (root y) p)
    attach-Joins x y ne =
        let a = root x in
        let b = root y in
        let ra = f.fixed x in
        let rb = f.fixed y in
        let no_b : b ≢ a = λ e. ne (sym e) in
        record {
          after = moved p root h f a b;
          forest = moved-Forest p root h f a b ra rb no_b;
          merges = λ u v e. ap (λ r. if r == a then b else r) e;
          meets =
              moved_same p root h f a b ra rb no_b x refl
              ∙ sym (moved_other p root h f a b ra rb no_b y no_b);
          sound = λ k s z. elim (same_or_other (root z) a) [
            | inl e ↦ subst (E z) (sym (moved_same p root h f a b ra rb no_b z e)) (
                eq.via z x b (eq.via z a x (subst (E z) e (s z)) (eq.turn x a (s x)))
                  (eq.via x y b k (s y)))
            | inr o ↦ subst (E z) (sym (moved_other p root h f a b ra rb no_b z o)) (s z)
          ];
        }

  if-Joins :
      (root : ℕ → ℕ) (h x y : ℕ) (c : Bool) (q r : ℕ → ℕ)
      → (c ≡ true → Joins E root h x y q)
      → (c ≡ false → Joins E root h x y r)
      → Joins E root h x y (if c then q else r)
  if-Joins root h x y true q r a b = a refl
  if-Joins root h x y false q r a b = b refl

  if_found-Joins :
      (root : ℕ → ℕ) (h x y : ℕ) (c : Bool) (q r : Found)
      → (c ≡ true → Joins E root h x y q.parents)
      → (c ≡ false → Joins E root h x y r.parents)
      → Joins E root h x y (if c then q else r).parents
  if_found-Joins root h x y true q r a b = a refl
  if_found-Joins root h x y false q r a b = b refl

  link_roots-Joins :
      (id : ℕ → ℕ) (p root : ℕ → ℕ) (h x y : ℕ)
      → Forest p root h
      → Joins E root h x y (link_roots id (root x) (root y) p).parents
  unfolding link_roots
  link_roots-Joins id p root h x y f =
      if_found-Joins root h x y (root x == root y) _ _
        (λ t. stay-Joins p root h f x y (ground (arith, t)))
        (λ n.
          let ne : root x ≢ root y = λ e. absurd (ground (arith, n, e)) in
          if_found-Joins root h x y (ltb (id (root y)) (id (root x))) _ _
            (λ t. attach-Joins p root h f x y ne)
            (λ t.
              swap-Joins root h y x (set_parent (root y) (root x) p)
                (attach-Joins p root h f y x (λ e. ne (sym e)))))

  module _ (fuel : ℕ) (p root : ℕ → ℕ) (h x y : ℕ) (f : Forest p root h) (le : h ≤ fuel) where
    two_finds : Forest (find fuel y (find fuel x p).parents).parents root h
    two_finds =
        find-Forest (find fuel x p).parents root h (find-Forest p root h f fuel x le) fuel y le

    pub union-Joins : (id : ℕ → ℕ) → Joins E root h x y (union fuel id x y p).parents
    unfolding union
    union-Joins id =
        let q = (find fuel x p).parents in
        let r = (find fuel y q).parents in
        let a = find_root p root h f fuel x le in
        let b = find_root q root h (find-Forest p root h f fuel x le) fuel y le in
        subst (λ m. Joins E root h x y (link_roots id m (find fuel y q).root r).parents) (sym a)
          (subst (λ n. Joins E root h x y (link_roots id (root x) n r).parents) (sym b)
            (link_roots-Joins id r root h x y two_finds))

    pub union_into-Joins : Joins E root h x y (union_into fuel x y p)
    unfolding union_into
    union_into-Joins =
        let q = (find fuel x p).parents in
        let r = (find fuel y q).parents in
        let a = find_root p root h f fuel x le in
        let b = find_root q root h (find-Forest p root h f fuel x le) fuel y le in
        subst
          (λ m.
            Joins E root h x y
              (if m == (find fuel y q).root then r else set_parent m (find fuel y q).root r))
          (sym a)
          (subst (λ n. Joins E root h x y (if root x == n then r else set_parent (root x) n r))
            (sym b)
            (if-Joins root h x y (root x == root y) r (set_parent (root x) (root y) r)
              (λ t. stay-Joins r root h two_finds x y (ground (arith, t)))
              (λ n. attach-Joins r root h two_finds x y (λ e. absurd (ground (arith, n, e))))))
