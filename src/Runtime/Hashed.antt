-- ===== src/Runtime/Hashed.antt =====
-- What the containers of include/drlojekyll/Runtime ask of the generated row and key structs:
-- `Hash()` and `operator==`. The structs are emitted by the build, so they are a parameter.
use dr_lojekyll.Prelude.{ℕ, Bool, true, ◌≡◌, refl, inl, inr, Bool-cases}

-- Values that compare equal hash equally; they need not be the same value (`-0.0` and `+0.0`).
pub record Hashed {ℓ} (K : Type ℓ) : Type ℓ where
  pub equal : K → K → Bool
  pub hash : K → ℕ
  pub hash-equal : (a b : K) → equal a b ≡ true → hash a ≡ hash b
  pub equal_trans : (a b c : K) → equal a b ≡ true → equal b c ≡ true → equal a c ≡ true
  pub equal_refl : (a : K) → equal a a ≡ true
  pub equal_symm : (a b : K) → equal a b ≡ equal b a

module _ {ℓ} {K : Type ℓ} ⦃h : Hashed K⦄ where
  infix 50 ◌=ᵏ◌
  abbrev pub ◌=ᵏ◌ : K → K → Bool
  a =ᵏ b = h.equal a b

  -- Values that compare equal compare alike with every other.
  pub equal_congr : (a b x : K) → (a =ᵏ b) ≡ true → (a =ᵏ x) ≡ (b =ᵏ x)
  equal_congr a b x e = elim (Bool-cases (a =ᵏ x)) [
    | inl t ↦ rw (t, h.equal_trans b a x (rw (h.equal_symm b a) e) t) refl
    | inr f ↦ elim (Bool-cases (b =ᵏ x)) [
      | inl t ↦ absurd (cc (h.equal_trans a b x e t, f))
      | inr g ↦ rw (f, g) refl
    ]
  ]
