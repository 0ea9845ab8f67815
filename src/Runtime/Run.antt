-- ===== src/Runtime/Run.antt =====
-- The ways in which an operation of include/drlojekyll/Runtime can end.
use dr_lojekyll.Prelude.{◌≡◌, ◌⊎◌, Option, none, some, Bool, true, false}

infixl 5 ◌>>=◌
-- `abort` is `std::abort()`; `lost` is a walk that never ends, or a read outside of an array.
pub data Run {ℓ} (A : Type ℓ) : Type ℓ where
  abort lost : Run A
  ok : A → Run A

-- The next operation starts where this one returned.
abbrev pub ◌>>=◌ {ℓ μ} : {A : Type ℓ} {B : Type μ} (r : Run A) (next : A → Run B) → Run B
lost >>= next = lost
abort >>= next = abort
ok a >>= next = next a

abbrev pub or_lost {ℓ} : {A : Type ℓ} → Option A → Run A
or_lost none = lost
or_lost (some a) = ok a

abbrev pub or_abort {ℓ} : {A : Type ℓ} → Bool → Run A → Run A
or_abort true r = abort
or_abort false r = r

-- The run ends, with a result of which `P` holds.
abbrev pub Returns {ℓ μ} : {A : Type ℓ} (r : Run A) (P : A → Type μ) → Type (ℓ ⊔ μ)
Returns {A} r P = (result : A) × (r ≡ ok result) × P result

-- The process aborts, or the operation returns a result of which `P` holds.
abbrev pub Keeps {ℓ μ} : {A : Type ℓ} (r : Run A) (P : A → Type μ) → Type (ℓ ⊔ μ)
Keeps r P = (r ≡ abort) ⊎ Returns r P
