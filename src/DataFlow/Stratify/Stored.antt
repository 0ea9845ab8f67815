-- ===== src/DataFlow/Stratify/Stored.antt =====
-- The writes to a field of the states.
use dr_lojekyll.Prelude.{
  ℕ, ◌<◌, ◌≤◌, ◌≡◌, ◌≢◌, ◌⊎◌, refl, ap, true, false, Option, none, some, arith, ==_ne, ==_refl,
  Bool,
}
use dr_lojekyll.DataFlow.Stratify.{store, min}

pub store_same {ℓ} : {A : Type ℓ} (v : ℕ) (x : A) (f : ℕ → A) → store v x f v ≡ x
unfolding store
store_same v x f = rw (==_refl v) refl

pub store_other {ℓ} : {A : Type ℓ} (v u : ℕ) (x : A) (f : ℕ → A) → u ≢ v → store v x f u ≡ f u
unfolding store
store_other v u x f h = rw (==_ne u v h) refl

pub differ_some : (f : ℕ → Option ℕ) (x w j : ℕ) → f w ≡ none → f x ≡ some j → x ≢ w
differ_some f x w j e h p = absurd (cc (e, h, ap f p))

pub differ_lt : (f : ℕ → Option ℕ) (x w i j : ℕ) → f w ≡ some i → f x ≡ some j → j ≢ i → x ≢ w
differ_lt f x w i j e h ne p = let q : j ≡ i = cc (e, h, ap f p) in absurd (ne q)

pub differ_on : (f : ℕ → Bool) (x w : ℕ) → f w ≡ false → f x ≡ true → x ≢ w
differ_on f x w e h p = absurd (cc (e, h, ap f p))

pub min_first : (a b : ℕ) → a ≤ b → min a b ≡ a
unfolding min
min_first a b h = ground arith

pub min_second : (a b : ℕ) → b ≤ a → min a b ≡ b
unfolding min
min_second a b h = ground arith

pub min_le : (a b : ℕ) → min a b ≤ a
unfolding min
min_le a b = ground arith

pub min_below : (a b : ℕ) → min a b ≤ b
unfolding min
min_below a b = ground arith

pub le_or_le : (a b : ℕ) → (a ≤ b) ⊎ (b ≤ a)
le_or_le a b = ground arith

pub le_or_lt : (a b : ℕ) → (a ≤ b) ⊎ (b < a)
le_or_lt a b = ground arith

pub eq_or_lt : (a b : ℕ) → a ≤ b → (a ≡ b) ⊎ (a < b)
eq_or_lt a b h = ground arith
