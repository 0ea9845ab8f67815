-- ===== src/DataFlow/Stratify.antt =====
-- The strongly connected components of QueryImpl::Stratify of lib/DataFlow/Stratify.cpp: an iterative
-- walk over the sources of each view. The vector of TarjanStates is a function for each field; an
-- index or a stratum that is not there yet is none.
pub mod Reaches
pub mod Invariant
pub mod Stored
pub mod Entered
pub mod Lowered
pub mod Popped
pub mod Component
pub mod Closing
pub mod Put
pub mod Leaving
pub mod Following
pub mod Rounds
pub mod Result
pub mod Pass
pub mod Edges
pub mod Sources
pub mod Condensation
pub mod Errors
pub mod Rejects
pub mod Ranges
pub mod Models
pub mod Owners
pub mod Classes
mod Tests
use dr_lojekyll.Prelude.{
  ℕ, zero, suc, ◌+◌, Bool, true, false, Option, none, some, List, [], ◌∷◌, length, get_elem?,
  if◌then◌else◌, ltb, ◌==◌,
}

pub record Frame : Type 0 where
  pub view_index : ℕ
  pub next_edge : ℕ

-- The top of a stack is the first of its list.
pub record Walk : Type 0 where
  pub index : ℕ → Option ℕ
  pub lowlink : ℕ → ℕ
  pub stratum : ℕ → Option ℕ
  pub on_stack : ℕ → Bool
  pub scc_stack : List ℕ
  pub frames : List Frame
  pub next_index : ℕ
  pub next_stratum : ℕ

abbrev pub start_walk : Walk
start_walk = record {
  index = λ v. none;
  lowlink = λ v. 0;
  stratum = λ v. none;
  on_stack = λ v. false;
  scc_stack = [];
  frames = [];
  next_index = 0;
  next_stratum = 0;
}

unfoldable pub store {ℓ} : {A : Type ℓ} → ℕ → A → (ℕ → A) → ℕ → A
store v x f u = if u == v then x else f u

unfoldable pub min : ℕ → ℕ → ℕ
min a b = if ltb b a then b else a

unfoldable pub enter : ℕ → Walk → Walk
enter w s = record s {
  index = store w (some s.next_index) s.index;
  lowlink = store w s.next_index s.lowlink;
  on_stack = store w true s.on_stack;
  scc_stack = w ∷ s.scc_stack;
  frames = record { view_index = w; next_edge = 0 } ∷ s.frames;
  next_index = s.next_index + 1;
}

unfoldable pub lower : ℕ → ℕ → Walk → Walk
lower v low s = record s { lowlink = store v (min (s.lowlink v) low) s.lowlink }

-- The edge from `v` to `w` is followed.
unfoldable pub follow : ℕ → ℕ → Walk → Walk
follow v w s = elim (s.index w) [
  | none ↦ enter w s
  | some i ↦ if s.on_stack w then lower v i s else s
]

-- Pops views up to `v`.
unfoldable pub pop_component : ℕ → List ℕ → Walk → Walk
pop_component v [] s = s
pop_component v (w ∷ stack) s =
    let s' = record s {
      on_stack = store w false s.on_stack;
      stratum = store w (some s.next_stratum) s.stratum;
      scc_stack = stack;
    } in
    let rest = pop_component v stack s' in if w == v then s' else rest

unfoldable pub lower_parent : ℕ → List Frame → Walk → Walk
lower_parent v [] s = s
lower_parent v (p ∷ frames) s = lower p.view_index (s.lowlink v) s

unfoldable pub is_root : ℕ → Walk → Bool
is_root v s = elim (s.index v) [ none ↦ false | some i ↦ s.lowlink v == i ]

unfoldable pub close_component : ℕ → Walk → Walk
close_component v s =
    let s' = pop_component v s.scc_stack s in record s' { next_stratum = s'.next_stratum + 1 }

-- All edges of `v` are followed, and its frame is popped.
unfoldable pub leave : ℕ → List Frame → Walk → Walk
leave v frames s =
    let s' = lower_parent v frames (record s { frames = frames }) in
    if is_root v s' then close_component v s' else s'

unfoldable pub advance : (ℕ → List ℕ) → Frame → List Frame → Walk → Walk
advance sources f frames s = elim (get_elem? (sources f.view_index) f.next_edge) [
  | some w ↦
      follow f.view_index w
        (record s { frames = record f { next_edge = f.next_edge + 1 } ∷ frames })
  | none ↦ leave f.view_index frames s
]

unfoldable pub walk : ℕ → (ℕ → List ℕ) → Walk → Walk
walk zero sources s = s
walk (suc fuel) sources s = elim s.frames [
  | [] ↦ s
  | f ∷ frames ↦ walk fuel sources (advance sources f frames s)
]

-- A round for each edge and for each view.
unfoldable pub num_rounds : ℕ → (ℕ → List ℕ) → ℕ
num_rounds zero sources = 0
num_rounds (suc n) sources = length (sources n) + 1 + num_rounds n sources

unfoldable pub walk_from : ℕ → (ℕ → List ℕ) → ℕ → Walk → Walk
walk_from fuel sources root s = elim (s.index root) [
  | some i ↦ s
  | none ↦ walk fuel sources (enter root s)
]

-- The roots `root`, …, `root + n - 1`.
unfoldable pub walk_roots : ℕ → (ℕ → List ℕ) → ℕ → ℕ → Walk → Walk
walk_roots fuel sources root zero s = s
walk_roots fuel sources root (suc n) s =
    walk_roots fuel sources (root + 1) n (walk_from fuel sources root s)

unfoldable pub strata : ℕ → (ℕ → List ℕ) → Walk
strata num_views sources = walk_roots (num_rounds num_views sources) sources 0 num_views start_walk
