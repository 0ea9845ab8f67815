-- ===== src/Runtime/Members.antt =====
-- The rows of a list, up to the comparison of the row struct.
use dr_lojekyll.Prelude.{
  ℕ, ◌+◌, ◌≡◌, refl, inl, inr, Bool, true, false, ◌||◌, some, List, [], ◌∷◌, ◌++◌, arith,
  Bool-cases, Option-cases, if◌then◌else◌,
}
use dr_lojekyll.Runtime.Hashed.{Hashed, ◌=ᵏ◌, equal_congr}
use dr_lojekyll.Runtime.RowStore.Lookup.{position}

module _ {ℓ} {A : Type ℓ} ⦃h : Hashed A⦄ where
  -- Whether, and how often, a row is in a list.
  unfoldable pub occurs : A → List A → Bool
  occurs x [] = false
  occurs x (row ∷ rows) = (row =ᵏ x) || occurs x rows

  unfoldable pub occurrences : A → List A → ℕ
  occurrences x [] = 0
  occurrences x (row ∷ rows) = (if row =ᵏ x then 1 else 0) + occurrences x rows

  pub occurs-snoc :
      (x row : A) (rows : List A) → occurs x (rows ++ row ∷ []) ≡ occurs x rows || (row =ᵏ x)
  unfolding occurs
  occurs-snoc x row [] = ground arith
  occurs-snoc x row (a ∷ rows) = ground (arith, occurs-snoc x row rows)

  pub occurs-position-some :
      (x : A) (rows : List A) (i : ℕ) → position x rows ≡ some i → occurs x rows ≡ true
  unfolding occurs
  occurs-position-some x [] i e = cc
  occurs-position-some x (a ∷ rows) i e = elim (Bool-cases (a =ᵏ x)) [
    | inl t ↦ rw t refl
    | inr f ↦ elim (Option-cases (position x rows)) [
      | inl n ↦ absurd (cc (rw (f, n) at e))
      | inr (j, s) ↦ rw (f, occurs-position-some x rows j s) refl
    ]
  ]

  pub occurs_congr : (a b : A) (rows : List A) → (a =ᵏ b) ≡ true → occurs a rows ≡ occurs b rows
  unfolding occurs
  occurs_congr a b [] e = refl
  occurs_congr a b (x ∷ rows) e =
      rw (occurs_congr a b rows e, h.equal_symm x a, h.equal_symm x b, equal_congr a b x e) refl
