-- ===== src/Runtime/StateCell/Policies.antt =====
-- The algebra policies of Runtime/StateCell.h, Invertible and Recompute, over a reduction that the
-- generated code supplies (a parameter). Reductions that take config columns are left out.
use dr_lojekyll.Prelude.Int.{ℤ, ◌+ℤ◌, is_pos}
use dr_lojekyll.Prelude.{List, [], ◌∷◌, if◌then◌else◌}
use dr_lojekyll.Runtime.Hashed.{Hashed, ◌=ᵏ◌}

pub record Algebra {ℓ κ} (W : Type ℓ) (S : Type κ) : Type (ℓ ⊔ κ) where
  pub identity : W
  pub fold_value : W → ℤ → S → W
  pub emit : W → S

-- The `Reduce` of an invertible functor.
pub record Reduction {ℓ κ} (W : Type ℓ) (S : Type κ) : Type (ℓ ⊔ κ) where
  pub identity : W
  pub combine : W → S → W
  pub uncombine : W → S → W
  pub finalize : W → S

unfoldable pub invertible {ℓ κ} : {W : Type ℓ} {S : Type κ} → Reduction W S → Algebra W S
invertible r = record {
  identity = r.identity;
  fold_value = λ w sign v. if is_pos sign then r.combine w v else r.uncombine w v;
  emit = r.finalize;
}

-- A value with its signed multiplicity; `values` and `counts` are one list.
pub record Member {ℓ} (S : Type ℓ) : Type ℓ where
  pub value : S
  pub count : ℤ

module _ {ℓ} {S : Type ℓ} ⦃h : Hashed S⦄ where
  -- `==` of the summary struct is that of `Hashed`; its hash is not used.
  unfoldable pub fold_member : List (Member S) → ℤ → S → List (Member S)
  fold_member [] sign v = record { value = v; count = sign } ∷ []
  fold_member (m ∷ members) sign v =
      if m.value =ᵏ v
      then record { value = m.value; count = m.count +ℤ sign } ∷ members
      else m ∷ fold_member members sign v

  unfoldable pub recompute : (List (Member S) → S) → Algebra (List (Member S)) S
  recompute reduce_live = record { identity = []; fold_value = fold_member; emit = reduce_live }
