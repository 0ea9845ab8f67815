-- ===== src/DataFlow/EquivalenceSet/Merged.antt =====
-- Two classes of data models become one.
use dr_lojekyll.Prelude.{
  same_or_other, ℕ, suc, ◌≡◌, ◌≢◌, ◌↔◌, ◌⊎◌, refl, ap, ◌∙◌, sym, inl, inr, Bool, true, false,
  Option, if◌then◌else◌, ◌==◌,
}
use dr_lojekyll.Util.DisjointSet.Forest.{root_root, moved_same, moved_other}
use dr_lojekyll.DataFlow.EquivalenceSet.{Models, make_parent}
use dr_lojekyll.DataFlow.EquivalenceSet.Unions.{Holds, after, make_parent-Holds}

-- The classes of `x` and `y` are one, with the induction view `o`, and the other classes stay.
pub record Unites (root : ℕ → ℕ) (h x y : ℕ) (o : Option ℕ) (t : Models) : Type 0 where
  pub after : ℕ → ℕ
  pub holds : Holds t after (suc h)
  pub classes :
      (u v : ℕ)
      → (after u ≡ after v) ↔ (
          (root u ≡ root v)
          ⊎ ((root u ≡ root x) × (root v ≡ root y))
          ⊎ ((root u ≡ root y) × (root v ≡ root x)))
  pub induction : t.induction_view (after x) ≡ o

module _ (s : Models) (root : ℕ → ℕ) (h : ℕ) (k : Holds s root h) where
  own : (x : ℕ) → root (root x) ≡ root x
  own x = root_root s.parents root h k.forest x

  -- The class of `x` is put below that of `y`.
  module _ (x y : ℕ) (ne : root y ≢ root x) where
    abbrev merged : ℕ → ℕ
    merged = after s root h k (root x) (root y)

    merged_same : (u : ℕ) → root u ≡ root x → merged u ≡ root y
    merged_same u e =
        moved_same s.parents root h k.forest (root x) (root y) (k.forest.fixed x) (k.forest.fixed y)
          ne u e

    merged_other : (u : ℕ) → root u ≢ root x → merged u ≡ root u
    merged_other u o =
        moved_other s.parents root h k.forest (root x) (root y) (k.forest.fixed x)
          (k.forest.fixed y) ne u o

    merged_classes :
        (u v : ℕ)
        → (merged u ≡ merged v) ↔ (
            (root u ≡ root v)
            ⊎ ((root u ≡ root x) × (root v ≡ root y))
            ⊎ ((root u ≡ root y) × (root v ≡ root x)))
    merged_classes u v =
        (there (same_or_other (root u) (root x)) (same_or_other (root v) (root x)), back)
      where
        there :
            (root u ≡ root x) ⊎ (root u ≢ root x)
            → (root v ≡ root x) ⊎ (root v ≢ root x)
            → merged u ≡ merged v
            → (root u ≡ root v)
              ⊎ ((root u ≡ root x) × (root v ≡ root y))
              ⊎ ((root u ≡ root y) × (root v ≡ root x))
        there (inl a) (inl b) e = inl (a ∙ sym b)
        there (inl a) (inr b) e = inr (inl (a, sym (merged_other v b) ∙ sym e ∙ merged_same u a))
        there (inr a) (inl b) e = inr (inr (sym (merged_other u a) ∙ e ∙ merged_same v b, b))
        there (inr a) (inr b) e = inl (sym (merged_other u a) ∙ e ∙ merged_other v b)

        to_y : (z : ℕ) → root z ≡ root y → merged z ≡ root y
        to_y z e = merged_other z (λ q. ne (sym e ∙ q)) ∙ e

        back :
            (root u ≡ root v)
              ⊎ ((root u ≡ root x) × (root v ≡ root y))
              ⊎ ((root u ≡ root y) × (root v ≡ root x))
            → merged u ≡ merged v
        back (inl e) = ap (λ r. if r == root x then root y else r) e
        back (inr (inl (a, b))) = merged_same u a ∙ sym (to_y v b)
        back (inr (inr (a, b))) = to_y u a ∙ sym (merged_same v b)

    merged-Holds : Holds (make_parent (root x) (root y) s) merged (suc h)
    merged-Holds =
        make_parent-Holds s root h k (root x) (root y) (k.forest.fixed x) (k.forest.fixed y) (own x)
          (own y) ne

    pub merged-Unites :
        (o : Option ℕ)
        → s.induction_view (root y) ≡ o
        → Unites root h x y o (make_parent (root x) (root y) s)
    unfolding make_parent
    merged-Unites o e = record {
      after = merged;
      holds = record { forest = merged-Holds.forest; members = merged-Holds.members };
      classes = merged_classes;
      induction = ap s.induction_view (merged_same x refl) ∙ e;
    }

swap_or : {A B C : Type 0} → (A ⊎ B ⊎ C) → (A ⊎ C ⊎ B)
swap_or (inl a) = inl a
swap_or (inr (inl b)) = inr (inr b)
swap_or (inr (inr c)) = inr (inl c)

pub swap-Unites :
    (root : ℕ → ℕ) (h x y : ℕ) (o : Option ℕ) (t : Models)
    → Unites root h y x o t
    → Unites root h x y o t
swap-Unites root h x y o t n = record {
  after = n.after;
  holds = n.holds;
  classes = λ u v. (λ e. swap_or ((n.classes u v).0 e), λ e. (n.classes u v).1 (swap_or e));
  induction = ap t.induction_view ((n.classes x y).1 (inr (inr (refl, refl)))) ∙ n.induction;
}

pub if-Unites :
    (root : ℕ → ℕ) (h x y : ℕ) (o : Option ℕ) (c : Bool) (t u : Models)
    → Unites root h x y o t
    → Unites root h x y o u
    → Unites root h x y o (if c then t else u)
if-Unites root h x y o true t u a b = a
if-Unites root h x y o false t u a b = b
