-- ===== src/DataFlow/Stratify/Reaches.antt =====
-- Which views a view depends on, and membership in the stack.
use dr_lojekyll.Prelude.{ℕ, ◌≡◌, ◌⊎◌, some, List, [], ◌∷◌, get_elem?}

pub data Reaches (sources : ℕ → List ℕ) : ℕ → ℕ → Type 0 where
  here : (v : ℕ) → Reaches sources v v
  along :
      (v i w u : ℕ) → get_elem? (sources v) i ≡ some w → Reaches sources w u → Reaches sources v u

pub Reaches-trans :
    {sources : ℕ → List ℕ} (v w u : ℕ)
    → Reaches sources v w
    → Reaches sources w u
    → Reaches sources v u
Reaches-trans _ w u (Reaches.here _) r = r
Reaches-trans _ w u (Reaches.along v i x _ e q) r =
    Reaches.along v i x u e (Reaches-trans x w u q r)

pub Reaches-edge :
    {sources : ℕ → List ℕ} (v i w : ℕ) → get_elem? (sources v) i ≡ some w → Reaches sources v w
Reaches-edge v i w e = Reaches.along v i w w e (Reaches.here w)

abbrev pub In : ℕ → List ℕ → Type 0
In x [] = ⊥
In x (y ∷ ys) = (x ≡ y) ⊎ In x ys
