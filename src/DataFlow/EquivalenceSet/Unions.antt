-- ===== src/DataFlow/EquivalenceSet/Unions.antt =====
-- What the unions make of the data models.
use dr_lojekyll.Prelude.{
  same_or_other, ℕ, suc, ◌≡◌, ◌≢◌, ◌↔◌, ◌⊎◌, subst, ◌∙◌, sym, inl, inr, List, [], ◌∷◌, ◌++◌,
  ==_refl, ==_ne,
}
use dr_lojekyll.Util.DisjointSet.Forest.{Forest, moved, moved_same, moved_other, moved-Forest}
use dr_lojekyll.DataFlow.EquivalenceSet.{Models, add_views, make_parent}

abbrev pub Among : ℕ → List ℕ → Type 0
Among x [] = ⊥
Among x (y ∷ ys) = (x ≡ y) ⊎ Among x ys

Among-append : (x : ℕ) (xs ys : List ℕ) → Among x (xs ++ ys) ↔ (Among x xs ⊎ Among x ys)
Among-append x [] ys = ((λ h. inr h), λ h. elim h [ inl e ↦ absurd e | inr k ↦ k ])
Among-append x (y ∷ xs) ys = (there (Among-append x xs ys).0, back (Among-append x xs ys).1)
  where
    there : {A B : Type 0} → (A → Among x xs ⊎ B) → (x ≡ y) ⊎ A → ((x ≡ y) ⊎ Among x xs) ⊎ B
    there f (inl e) = inl (inl e)
    there f (inr a) = elim (f a) [ inl h ↦ inl (inr h) | inr b ↦ inr b ]

    back : {A B : Type 0} → (Among x xs ⊎ B → A) → ((x ≡ y) ⊎ Among x xs) ⊎ B → (x ≡ y) ⊎ A
    back g (inl (inl e)) = inl e
    back g (inl (inr h)) = inr (g (inl h))
    back g (inr b) = inr (g (inr b))

-- The roots are within `h` steps, and a root lists the views of its class.
pub record Holds (s : Models) (root : ℕ → ℕ) (h : ℕ) : Type 0 where
  pub forest : Forest s.parents root h
  pub members : (r v : ℕ) → root r ≡ r → Among v (s.views_in_set r) ↔ (root v ≡ r)

module _ (s : Models) (root : ℕ → ℕ) (h : ℕ) (k : Holds s root h) where
  abbrev pub after : ℕ → ℕ → ℕ → ℕ
  after a b = moved s.parents root h k.forest a b

  module _ (a b : ℕ) (ra : s.parents a ≡ a) (rb : s.parents b ≡ b) (oa : root a ≡ a)
      (ob : root b ≡ b) (ne : b ≢ a) where
    after_same : (y : ℕ) → root y ≡ a → after a b y ≡ b
    after_same y e = moved_same s.parents root h k.forest a b ra rb ne y e

    after_other : (y : ℕ) → root y ≢ a → after a b y ≡ root y
    after_other y no_a = moved_other s.parents root h k.forest a b ra rb ne y no_a

    -- The views of the new parent.
    target_members :
        (v : ℕ) → Among v (add_views b (s.views_in_set a) s.views_in_set b) ↔ (after a b v ≡ b)
    unfolding add_views
    target_members v = rw (==_refl b) (
      (λ m. elim ((Among-append v (s.views_in_set b) (s.views_in_set a)).0 m) [
        | inl n ↦ let e = (k.members b v ob).0 n in after_other v (λ q. ne (sym e ∙ q)) ∙ e
        | inr n ↦ after_same v ((k.members a v oa).0 n)
      ]),
      λ e.
          (Among-append v (s.views_in_set b) (s.views_in_set a)).1
            (elim (same_or_other (root v) a) [
              | inl q ↦ inr ((k.members a v oa).1 q)
              | inr o ↦ inl ((k.members b v ob).1 (sym (after_other v o) ∙ e))
            ]),
    )

    other_members :
        (r v : ℕ)
        → r ≢ b
        → root r ≡ r
        → r ≢ a
        → Among v (add_views b (s.views_in_set a) s.views_in_set r) ↔ (after a b v ≡ r)
    unfolding add_views
    other_members r v nb e na = rw (==_ne r b nb) (
      (λ m. let q = (k.members r v e).0 m in after_other v (λ p. na (sym q ∙ p)) ∙ q),
      λ q. elim (same_or_other (root v) a) [
        | inl p ↦ absurd (nb (sym q ∙ after_same v p))
        | inr o ↦ (k.members r v e).1 (sym (after_other v o) ∙ q)
      ],
    )

    make_parent-members :
        (r v : ℕ)
        → after a b r ≡ r
        → Among v (add_views b (s.views_in_set a) s.views_in_set r) ↔ (after a b v ≡ r)
    make_parent-members r v e = elim (same_or_other r b) [
      | inl q ↦
          subst (λ x. Among v (add_views b (s.views_in_set a) s.views_in_set x) ↔ (after a b v ≡ x))
            (sym q) (target_members v)
      | inr nb ↦ elim (same_or_other (root r) a) [
        | inl q ↦ absurd (nb (sym e ∙ after_same r q))
        | inr o ↦ let own = sym (after_other r o) ∙ e in other_members r v nb own (λ q. o (own ∙ q))
      ]
    ]

    pub make_parent-Holds : Holds (make_parent a b s) (after a b) (suc h)
    unfolding make_parent
    make_parent-Holds = record {
      forest = moved-Forest s.parents root h k.forest a b ra rb ne;
      members = make_parent-members;
    }
