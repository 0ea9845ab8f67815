-- ===== src/DataFlow/Stratify/Invariant.antt =====
-- The invariant of the walk, and what a round keeps of it.
use dr_lojekyll.Prelude.{
  ℕ, ◌<◌, ◌≤◌, ◌≡◌, ◌⊎◌, inl, inr, true, false, Option, some, List, [], ◌∷◌, get_elem?, arith,
}
use dr_lojekyll.DataFlow.Stratify.{Walk, Frame}
use dr_lojekyll.DataFlow.Stratify.Reaches.{Reaches, In}

pub record Finished (s : Walk) (w : ℕ) : Type 0 where
  pub at : ℕ
  pub is_at : s.stratum w ≡ some at

-- `w` waits on the stack, and `x` knows of it.
pub record Waiting (s : Walk) (x w : ℕ) : Type 0 where
  pub at : ℕ
  pub on : s.on_stack w ≡ true
  pub is_at : s.index w ≡ some at
  pub known : s.lowlink x ≤ at

abbrev pub Seen : Walk → ℕ → ℕ → Type 0
Seen s x w = Finished s w ⊎ Waiting s x w

abbrev pub Done : (ℕ → List ℕ) → Walk → ℕ → Type 0
Done sources s x = (i w : ℕ) → get_elem? (sources x) i ≡ some w → Seen s x w

-- Where a view on the stack stands to the views of the frames.
pub data Placed (sources : ℕ → List ℕ) (s : Walk) : List ℕ → ℕ → ℕ → Type 0 where
  active : (v : ℕ) (vs : List ℕ) (j : ℕ) → Placed sources s (v ∷ vs) v j
  covered :
      (v : ℕ) (vs : List ℕ) (x j i : ℕ)
      → s.index v ≡ some i
      → i < j
      → Reaches sources v x
      → s.lowlink v ≤ s.lowlink x
      → s.lowlink x < j
      → Done sources s x
      → Placed sources s (v ∷ vs) x j
  deeper :
      (v : ℕ) (vs : List ℕ) (x j i : ℕ)
      → s.index v ≡ some i
      → j < i
      → Placed sources s vs x j
      → Placed sources s (v ∷ vs) x j

-- A view on the stack: its number, its low link, and the view that the low link names.
pub record Node (sources : ℕ → List ℕ) (s : Walk) (vs : List ℕ) (x : ℕ) : Type 0 where
  pub at : ℕ
  pub is_at : s.index x ≡ some at
  pub bound : at < s.next_index
  pub low : s.lowlink x ≤ at
  pub target : ℕ
  pub target_on : s.on_stack target ≡ true
  pub target_at : s.index target ≡ some (s.lowlink x)
  pub target_reached : Reaches sources x target
  pub place : Placed sources s vs x at

-- The stack falls from its top on.
abbrev pub Below : (ℕ → Option ℕ) → ℕ → List ℕ → Type 0
Below index b [] = Unit {0}
Below index b (x ∷ xs) = (j : ℕ) × (index x ≡ some j) × (j < b) × Below index j xs

pub record Source (s : Walk) (k w : ℕ) : Type 0 where
  pub at : ℕ
  pub is_at : s.stratum w ≡ some at
  pub lower : at ≤ k

-- The finished views are closed under the edges, and a stratum is connected.
pub record Sorted (sources : ℕ → List ℕ) (s : Walk) : Type 0 where
  pub bound : (x k : ℕ) → s.stratum x ≡ some k → k < s.next_stratum
  pub off : (x k : ℕ) → s.stratum x ≡ some k → s.on_stack x ≡ false
  pub visited : (x k : ℕ) → s.stratum x ≡ some k → (j : ℕ) × (s.index x ≡ some j)
  pub closed :
      (x k i w : ℕ) → s.stratum x ≡ some k → get_elem? (sources x) i ≡ some w → Source s k w
  pub used : (k : ℕ) → k < s.next_stratum → (x : ℕ) × (s.stratum x ≡ some k)
  pub connected : (x y k : ℕ) → s.stratum x ≡ some k → s.stratum y ≡ some k → Reaches sources x y

pub record Core (sources : ℕ → List ℕ) (s : Walk) (vs : List ℕ) : Type 0 where
  pub stacked : (u : ℕ) → s.on_stack u ≡ true → In u s.scc_stack
  pub marked : (u : ℕ) → In u s.scc_stack → s.on_stack u ≡ true
  pub falling : Below s.index s.next_index s.scc_stack
  pub nodes : (x : ℕ) → s.on_stack x ≡ true → Node sources s vs x
  pub indexed : (x j : ℕ) → s.index x ≡ some j → (s.on_stack x ≡ true) ⊎ Finished s x
  pub sorted : Sorted sources s

abbrev pub view_ids : List Frame → List ℕ
view_ids [] = []
view_ids (f ∷ fs) = f.view_index ∷ view_ids fs

abbrev pub Link : (ℕ → List ℕ) → ℕ → List Frame → Type 0
Link sources v [] = Unit {0}
Link sources v (p ∷ fs) = Reaches sources p.view_index v

pub record Framed (sources : ℕ → List ℕ) (s : Walk) (b : ℕ) (f : Frame) (fs : List Frame)
    : Type 0 where
  pub at : ℕ
  pub is_at : s.index f.view_index ≡ some at
  pub on : s.on_stack f.view_index ≡ true
  pub bound : at < b
  pub followed :
      (i w : ℕ)
      → i < f.next_edge
      → get_elem? (sources f.view_index) i ≡ some w
      → Seen s f.view_index w
  pub link : Link sources f.view_index fs

pub data Framing (sources : ℕ → List ℕ) (s : Walk) : ℕ → List Frame → Type 0 where
  empty : (b : ℕ) → Framing sources s b []
  frame :
      (b : ℕ) (f : Frame) (fs : List Frame) (h : Framed sources s b f fs)
      → Framing sources s h.at fs
      → Framing sources s b (f ∷ fs)

-- What every advance keeps.
pub record Grows (s t : Walk) : Type 0 where
  pub index : (x j : ℕ) → s.index x ≡ some j → t.index x ≡ some j
  pub lowlink : (x j : ℕ) → s.index x ≡ some j → t.lowlink x ≤ s.lowlink x
  pub finished : (x k : ℕ) → s.stratum x ≡ some k → t.stratum x ≡ some k
  pub waiting :
      (x j : ℕ) → s.on_stack x ≡ true → s.index x ≡ some j → (t.on_stack x ≡ true) ⊎ Finished t x

module _ {s t : Walk} (g : Grows s t) where
  pub Grows-Seen : (x j w : ℕ) → s.index x ≡ some j → Seen s x w → Seen t x w
  Grows-Seen x j w e (inl h) = inl (record { at = h.at; is_at = g.finished w h.at h.is_at })
  Grows-Seen x j w e (inr h) = elim (g.waiting w h.at h.on h.is_at) [
    | inl on ↦ inr (record {
      at = h.at;
      on = on;
      is_at = g.index w h.at h.is_at;
      known = omega (arith, h.known, g.lowlink x j e);
    })
    | inr k ↦ inl k
  ]

module _ {sources : ℕ → List ℕ} {s t : Walk} (g : Grows s t) where
  pub Grows-Placed :
      (vs : List ℕ) (x j : ℕ)
      → s.index x ≡ some j
      → t.lowlink x ≡ s.lowlink x
      → Placed sources s vs x j
      → Placed sources t vs x j
  Grows-Placed _ _ _ e l (Placed.active v vs j) = Placed.active v vs j
  Grows-Placed _ _ _ e l (Placed.covered v vs x j i iv lt r low under done) =
      Placed.covered v vs x j i (g.index v i iv) lt r (omega (arith, g.lowlink v i iv))
        (omega arith) (λ k w h. Grows-Seen g x j w e (done k w h))
  Grows-Placed _ _ _ e l (Placed.deeper v vs x j i iv lt p) =
      Placed.deeper v vs x j i (g.index v i iv) lt (Grows-Placed vs x j e l p)

  -- Frames below `b` stay if their views stay on the stack.
  pub Grows-Framing :
      (b : ℕ) (fs : List Frame)
      → ((x j : ℕ) → s.on_stack x ≡ true → s.index x ≡ some j → j < b → t.on_stack x ≡ true)
      → Framing sources s b fs
      → Framing sources t b fs
  Grows-Framing _ _ stay (Framing.empty b) = Framing.empty b
  Grows-Framing _ _ stay (Framing.frame b f fs h p) =
      Framing.frame b f fs
        (record {
          at = h.at;
          is_at = g.index f.view_index h.at h.is_at;
          on = stay f.view_index h.at h.on h.is_at h.bound;
          bound = h.bound;
          followed = λ i w lt e. Grows-Seen g f.view_index h.at w h.is_at (h.followed i w lt e);
          link = h.link;
        })
        (Grows-Framing h.at fs (λ x j on e lt. stay x j on e (omega (arith, h.bound))) p)

pub Framing-mono :
    {sources : ℕ → List ℕ} (s : Walk) (b c : ℕ) (fs : List Frame)
    → b ≤ c
    → Framing sources s b fs
    → Framing sources s c fs
Framing-mono s _ c _ le (Framing.empty b) = Framing.empty c
Framing-mono s _ c _ le (Framing.frame b f fs h p) =
    Framing.frame c f fs
      (record {
        at = h.at;
        is_at = h.is_at;
        on = h.on;
        bound = omega (arith, h.bound);
        followed = h.followed;
        link = h.link;
      })
      p
