-- ===== src/DataFlow/Stratify/Classes.antt =====
-- QueryView::DerivationClassInto of lib/DataFlow/Query.cpp.
use dr_lojekyll.Prelude.{ℕ, ◌<◌, ◌≡◌, ◌↔◌, refl, ap, inl, inr, List, [], ◌∷◌, length, Bool-cases}
use dr_lojekyll.DataFlow.Stratify.Reaches.{In}
use dr_lojekyll.DataFlow.Stratify.Pass.{
  View, DerivClass, same_stratum, stratify, derivation_class_into,
}
use dr_lojekyll.DataFlow.Stratify.Edges.{Depends}
use dr_lojekyll.DataFlow.Stratify.Condensation.{same_stratum_iff}

-- A member of the model and the view depend on each other.
abbrev pub Circulates : List View → ℕ → List ℕ → Type 0
Circulates views v members = (u : ℕ) × In u members × Depends views v u × Depends views u v

module _ (views : List View) (v : ℕ) where
  class_recursive :
      (members : List ℕ)
      → ((u : ℕ) → In u members → u < length views)
      → derivation_class_into (stratify views).stratum v members ≡ DerivClass.recursive
      → Circulates views v members
  unfolding derivation_class_into
  class_recursive [] live e = absurd (cc e)
  class_recursive (u ∷ members) live e =
      elim (Bool-cases (same_stratum ((stratify views).stratum u) ((stratify views).stratum v))) [
        | inl t ↦
            let (lt, a, b) = (same_stratum_iff views u v (live u (inl refl))).0 t in
            (u, inl refl, b, a)
        | inr f ↦
            let (x, h, a, b) = class_recursive members (λ y k. live y (inr k)) (rw f at e) in
            (x, inr h, a, b)
      ]

  recursive_class :
      (members : List ℕ)
      → v < length views
      → ((u : ℕ) → In u members → u < length views)
      → Circulates views v members
      → derivation_class_into (stratify views).stratum v members ≡ DerivClass.recursive
  unfolding derivation_class_into
  recursive_class [] lt live (u, h, a, b) = absurd h
  recursive_class (y ∷ members) lt live (u, h, a, b) =
      let t = (same_stratum_iff views u v (live u h)).1 (lt, b, a) in
      elim (Bool-cases (same_stratum ((stratify views).stratum y) ((stratify views).stratum v))) [
        | inl s ↦ rw s refl
        | inr f ↦ rw f (elim h [
          | inl e ↦ absurd (
              cc (
                t,
                f,
                ap (λ x. same_stratum ((stratify views).stratum x) ((stratify views).stratum v)) e,
              ))
          | inr k ↦ recursive_class members lt (λ x j. live x (inr j)) (u, k, a, b)
        ])
      ]

  -- For a live view and live views as members of the target model, the derivation class is
  -- recursive exactly if some member and the view depend on each other.
  pub derivation_class_into_iff :
      (members : List ℕ)
      → v < length views
      → ((u : ℕ) → In u members → u < length views)
      → (derivation_class_into (stratify views).stratum v members ≡ DerivClass.recursive)
        ↔ Circulates views v members
  derivation_class_into_iff members lt live =
      (class_recursive members live, recursive_class members lt live)
