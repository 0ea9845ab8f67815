-- ===== src/DataFlow/EquivalenceSet/Tries.antt =====
-- When TryUnion refuses, and what it makes of two data models otherwise.
use dr_lojekyll.Prelude.{
  same_or_other, ℕ, ◌≤◌, ◌≡◌, ◌≢◌, ◌⊎◌, refl, ap, subst, ◌∙◌, sym, inl, inr, Bool, true, false,
  Option, none, some, arith, if◌then◌else◌, ltb, ◌==◌, ==_ne,
}
use dr_lojekyll.Util.DisjointSet.{find}
use dr_lojekyll.Util.DisjointSet.Forest.{find_root, find-Forest}
use dr_lojekyll.DataFlow.EquivalenceSet.{
  Models, Tried, find_set, join_roots, set_induction, try_roots, try_union,
}
use dr_lojekyll.DataFlow.EquivalenceSet.Unions.{Holds}
use dr_lojekyll.DataFlow.EquivalenceSet.Merged.{Unites, merged-Unites, swap-Unites, if-Unites}

abbrev pub first_view : Option ℕ → Option ℕ → Option ℕ
first_view (some v) o = some v
first_view none o = o

-- Two induction views that are not the same.
pub record Conflicts (p q : Option ℕ) : Type 0 where
  pub first : ℕ
  pub second : ℕ
  pub first_is : p ≡ some first
  pub second_is : q ≡ some second
  pub differ : first ≢ second

-- `p` and `q` are the induction views of the classes of `x` and `y`.
pub record Tries (s : Models) (root : ℕ → ℕ) (h x y : ℕ) (p q : Option ℕ) (t : Tried) : Type 0 where
  pub united :
      t.united ≡ true
      → ((root x ≡ root y) × Holds t.models root h × (t.models.induction_view ≡ s.induction_view))
        ⊎ ((¬ Conflicts p q) × Unites root h x y (first_view p q) t.models)
  pub refused :
      t.united ≡ false
      → (root x ≢ root y)
        × Conflicts p q
        × Holds t.models root h
        × (t.models.induction_view ≡ s.induction_view)

some_eq : (v w : ℕ) → ◌≡◌ {A = Option ℕ} (some v) (some w) → v ≡ w
some_eq v w e = cc e

v_is_w : (v w : ℕ) → v ≡ w → (v == w) ≡ true
v_is_w v w e = ground (arith, e)

module _ (s : Models) (root : ℕ → ℕ) (h : ℕ) (k : Holds s root h) (x y : ℕ)
    (ne : root y ≢ root x) where
  turned_ne : root x ≢ root y
  turned_ne e = ne (sym e)

  join-Unites :
      (id : ℕ → ℕ) (o : Option ℕ)
      → s.induction_view (root x) ≡ o
      → s.induction_view (root y) ≡ o
      → Unites root h x y o (join_roots id (root x) (root y) s)
  unfolding join_roots
  join-Unites id o ix iy =
      if-Unites root h x y o (ltb (id (root y)) (id (root x))) _ _
        (merged-Unites s root h k x y ne o iy)
        (swap-Unites root h x y o _ (merged-Unites s root h k y x turned_ne o ix))

  -- Another induction view changes no class.
  induced-Holds : (z : ℕ) (o : Option ℕ) → Holds (set_induction z o s) root h
  unfolding set_induction
  induced-Holds z o = record { forest = k.forest; members = k.members }

  induced_other :
      (z w : ℕ) (o : Option ℕ) → w ≢ z → (set_induction z o s).induction_view w ≡ s.induction_view w
  unfolding set_induction
  induced_other z w o n = rw (==_ne w z n) refl

  united-Tries :
      (p q : Option ℕ) (t : Models)
      → ¬ Conflicts p q
      → Unites root h x y (first_view p q) t
      → Tries s root h x y p q (record { united = true; models = t })
  united-Tries p q t no_conflict n = record {
    united = λ e. inr (no_conflict, n);
    refused = λ e. absurd (cc e);
  }

  try_roots-Tries :
      (id : ℕ → ℕ) (p q : Option ℕ)
      → s.induction_view (root x) ≡ p
      → s.induction_view (root y) ≡ q
      → Tries s root h x y p q (try_roots id (root x) (root y) p q s)
  unfolding try_roots
  try_roots-Tries id none none ix iy =
      united-Tries _ _ _ (λ c. absurd (cc (c.first_is))) (join-Unites id none ix iy)
  try_roots-Tries id (some v) none ix iy =
      united-Tries _ _ _ (λ c. absurd (cc (c.second_is)))
        (swap-Unites root h x y (some v) _ (
          merged-Unites (set_induction (root y) (some v) s) root h (induced-Holds (root y) (some v))
            y x turned_ne (some v) (induced_other (root y) (root x) (some v) turned_ne ∙ ix)))
  try_roots-Tries id none (some w) ix iy =
      united-Tries _ _ _ (λ c. absurd (cc (c.first_is)))
        (merged-Unites (set_induction (root x) (some w) s) root h (induced-Holds (root x) (some w))
          x y ne (some w) (induced_other (root x) (root y) (some w) ne ∙ iy))
  try_roots-Tries id (some v) (some w) ix iy = elim (same_or_other v w) [
    | inl e ↦ rw (v_is_w v w e) (
        united-Tries _ _ _
          (λ c. c.differ (sym (some_eq v c.first c.first_is) ∙ e ∙ some_eq w c.second c.second_is))
          (join-Unites id (some v) ix (iy ∙ ap some (sym e))))
    | inr o ↦ rw (==_ne v w o) (record {
      united = λ e. absurd (cc e);
      refused = λ e. (
        turned_ne,
        record { first = v; second = w; first_is = refl; second_is = refl; differ = o },
        k,
        refl,
      );
    })
  ]

if-Tries :
    (s : Models) (root : ℕ → ℕ) (h x y : ℕ) (p q : Option ℕ) (c : Bool) (t u : Tried)
    → (c ≡ true → Tries s root h x y p q t)
    → (c ≡ false → Tries s root h x y p q u)
    → Tries s root h x y p q (if c then t else u)
if-Tries s root h x y p q true t u a b = a refl
if-Tries s root h x y p q false t u a b = b refl

module _ (fuel : ℕ) (id : ℕ → ℕ) (x y : ℕ) (s : Models) (root : ℕ → ℕ) (h : ℕ) where
  found_models : Models
  found_models = (find_set fuel y (find_set fuel x s).models).models

  found-Holds : Holds s root h → h ≤ fuel → Holds found_models root h
  unfolding found_models find_set
  found-Holds k le = record {
    forest =
        find-Forest (find fuel x s.parents).parents root h
          (find-Forest s.parents root h k.forest fuel x le) fuel y le;
    members = k.members;
  }

  roots-Tries :
      Holds s root h
      → h ≤ fuel
      → Tries s root h x y (s.induction_view (root x)) (s.induction_view (root y)) (
          if root x == root y
          then record { united = true; models = found_models }
          else try_roots id
              (root x)
              (root y)
              (s.induction_view (root x))
              (s.induction_view (root y))
              found_models)
  unfolding found_models find_set
  roots-Tries k le =
      if-Tries s root h x y _ _ (root x == root y) _ _
        (λ t. record {
          united = λ e. inl (ground (arith, t), found-Holds k le, refl);
          refused = λ e. absurd (cc e);
        })
        (λ f.
          let r =
            try_roots-Tries found_models root h (found-Holds k le) x y
              (λ e. absurd (ground (arith, f, e))) id (s.induction_view (root x))
              (s.induction_view (root y)) refl refl in
          record { united = r.united; refused = r.refused })

  -- When Find reaches the canonical sets within its recursion and each canonical set lists the
  -- views of its class, TryUnion refuses only two different classes with different induction
  -- views, and then the classes and the induction views stay; otherwise the classes were one
  -- already and stay as they were, or they become one, whose canonical set lists the views of
  -- both and has the induction view that one of them had, if any, and the other classes stay.
  pub try_union-Tries :
      Holds s root h
      → h ≤ fuel
      → Tries s root h x y
          (s.induction_view (root x))
          (s.induction_view (root y))
          (try_union fuel id x y s)
  unfolding try_union found_models find_set
  try_union-Tries k le =
      let a = find_root s.parents root h k.forest fuel x le in
      let f = find-Forest s.parents root h k.forest fuel x le in
      let b = find_root (find fuel x s.parents).parents root h f fuel y le in
      let tried = λ (m n : ℕ).
        (if m == n
          then record { united = true; models = found_models }
          else try_roots id m n (s.induction_view m) (s.induction_view n) found_models) in
      let p = s.induction_view (root x) in
      let q = s.induction_view (root y) in
      subst
        (λ m. Tries s root h x y p q (tried m (find fuel y (find fuel x s.parents).parents).root))
        (sym a) (subst (λ n. Tries s root h x y p q (tried (root x) n)) (sym b) (roots-Tries k le))
