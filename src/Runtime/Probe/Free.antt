-- ===== src/Runtime/Probe/Free.antt =====
-- Counting the slots that hold an entry.
use dr_lojekyll.Prelude.{
  ℕ, zero, suc, ◌+◌, ◌<◌, ◌≡◌, refl, Bool, true, false, some, List, [], ◌∷◌, arith, length,
  get_elem?, set, replicate, Bool-cases, if◌then◌else◌, inl, inr,
}

module _ {ℓ} {S : Type ℓ} (free : S → Bool) where
  pub used : List S → ℕ
  used [] = 0
  used (s ∷ slots) = (if free s then 0 else 1) + used slots

  pub used-replicate : (n : ℕ) (v : S) → free v ≡ true → used (replicate n v) ≡ 0
  unfolding used
  used-replicate zero v h = refl
  used-replicate (suc n) v h = rw h (omega (arith, used-replicate n v h))

  pub used-set :
      (slots : List S) (i : ℕ) (s v : S)
      → get_elem? slots i ≡ some s
      → free s ≡ true
      → free v ≡ false
      → used (set slots i v) ≡ used slots + 1
  unfolding used
  used-set [] i s v at h g = ground arith
  used-set (x ∷ slots) zero s v at h g = ground arith
  used-set (x ∷ slots) (suc i) s v at h g = omega (arith, used-set slots i s v at h g)

  pub free_slot :
      (slots : List S)
      → used slots < length slots
      → (i : ℕ) × (s : S) × (get_elem? slots i ≡ some s) × (free s ≡ true)
  unfolding used
  free_slot [] h = absurd (omega arith)
  free_slot (x ∷ slots) h = elim (Bool-cases (free x)) [
    | inl t ↦ (0, x, refl, t)
    | inr t ↦
        let h' = rw t at h in let (i, s, at, g) = free_slot slots (omega arith) in (suc i, s, at, g)
  ]
