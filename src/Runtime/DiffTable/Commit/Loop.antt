-- ===== src/Runtime/DiffTable/Commit/Loop.antt =====
-- What the sweep does to each row, to the sink and to the live count.
use mathlib.Core.List.{append-nil}
use dr_lojekyll.Prelude.{
  ℕ, zero, suc, ◌+◌, ◌≤◌, ◌<◌, ◌≡◌, refl, sym, ◌∙◌, inl, inr, Bool, true, false, ◌||◌, some, List,
  [], ◌∷◌, ◌++◌, arith, length, get_elem?, set, length-set, Bool-cases, ◌==◌, if◌then◌else◌,
}
use dr_lojekyll.Runtime.DiffTable.Commit.{
  Sweep, differs, seal_cell, count_live, publish, commit_one,
}
use dr_lojekyll.Runtime.DiffTable.{Cell, is_present}
use dr_lojekyll.Runtime.Flags.{sealed_flags}
use dr_lojekyll.Runtime.Hashed.{Hashed, ◌=ᵏ◌}
use dr_lojekyll.Runtime.IdSlots.{no_id}
use dr_lojekyll.Runtime.Run.{Returns}

-- The rows that hold `kInI`.
unfoldable pub num_in_i : List Cell → ℕ
num_in_i [] = 0
num_in_i (c ∷ cells) = (if c.flags.in_i then 1 else 0) + num_in_i cells

pub num_in_i-le : (cells : List Cell) → num_in_i cells ≤ length cells
unfolding num_in_i
num_in_i-le [] = omega arith
num_in_i-le (c ∷ cells) = ground (arith, num_in_i-le cells)

pub num_in_i-set :
    (cells : List Cell) (id : ℕ) (c c' : Cell)
    → get_elem? cells id ≡ some c
    → num_in_i (set cells id c') + (if c.flags.in_i then 1 else 0)
      ≡ num_in_i cells + (if c'.flags.in_i then 1 else 0)
unfolding num_in_i
num_in_i-set [] id c c' e = ground (arith, e)
num_in_i-set (x ∷ cells) zero c c' e = let q : x ≡ c = cc in rw q (omega arith)
num_in_i-set (x ∷ cells) (suc id) c c' e = omega (arith, num_in_i-set cells id c c' e)

pub num_in_i-append :
    (cells : List Cell) (c : Cell)
    → c.flags.in_i ≡ false
    → num_in_i (cells ++ c ∷ []) ≡ num_in_i cells
unfolding num_in_i
num_in_i-append [] c e = ground (arith, e)
num_in_i-append (x ∷ cells) c e = omega (arith, num_in_i-append cells c e)

-- Whether the sweep visits a row.
unfoldable pub elem : ℕ → List ℕ → Bool
elem id [] = false
elem id (i ∷ ids) = (i == id) || elem id ids

unfoldable pub visited_cell : ℕ → List ℕ → Cell → Cell
visited_cell id ids c = if elem id ids then seal_cell c else c

-- What a sealed row has to report: its new presence, if that changed.
unfoldable pub change : Cell → List Bool
change c = if differs c.flags.in_i (is_present c) then is_present c ∷ [] else []

seal_seal : (c : Cell) → seal_cell (seal_cell c) ≡ seal_cell c
unfolding seal_cell is_present sealed_flags
seal_seal c = refl

change-seal : (c : Cell) → change (seal_cell c) ≡ []
unfolding change seal_cell is_present differs sealed_flags
change-seal c = ground arith

differs-false : (a b : Bool) → differs a b ≡ false → a ≡ b
unfolding differs
differs-false true b h = ground arith
differs-false false b h = sym h

live_change :
    (cells : List Cell) (id : ℕ) (c : Cell)
    → get_elem? cells id ≡ some c
    → differs c.flags.in_i (is_present c) ≡ true
    → length cells ≤ no_id
    → count_live (is_present c) (num_in_i cells) ≡ num_in_i (set cells id (seal_cell c))
unfolding count_live differs seal_cell sealed_flags
live_change cells id c e d small = ground (
  arith,
  num_in_i-set cells id c (seal_cell c) e,
  num_in_i-le (set cells id (seal_cell c)),
  num_in_i-le cells,
  length-set cells id (seal_cell c),
)

live_same :
    (cells : List Cell) (id : ℕ) (c : Cell)
    → get_elem? cells id ≡ some c
    → differs c.flags.in_i (is_present c) ≡ false
    → num_in_i cells ≡ num_in_i (set cells id (seal_cell c))
unfolding seal_cell sealed_flags
live_same cells id c e d =
    ground (arith, num_in_i-set cells id c (seal_cell c) e, differs-false _ _ d)

pub visited_seal :
    (id : ℕ) (ids : List ℕ) (c : Cell) → visited_cell id ids (seal_cell c) ≡ seal_cell c
unfolding visited_cell
visited_seal id ids c = ground (arith, seal_seal c)

unfoldable pub told : ℕ → List ℕ → Cell → List Bool
told id ids c = if elem id ids then change c else []

pub told-seal : (id : ℕ) (ids : List ℕ) (c : Cell) → told id ids (seal_cell c) ≡ []
unfolding told
told-seal id ids c = ground (arith, change-seal c)

pub visited_nil : (id : ℕ) (c : Cell) → visited_cell id [] c ≡ c
unfolding visited_cell elem
visited_nil id c = refl

pub told_nil : (id : ℕ) (c : Cell) → told id [] c ≡ []
unfolding told elem
told_nil id c = refl

abbrev pub AllBelow : ℕ → List ℕ → Type 0
AllBelow n [] = Unit {0}
AllBelow n (id ∷ ids) = (id < n) × AllBelow n ids

module _ {ℓ} {A : Type ℓ} ⦃h : Hashed A⦄ where
  -- What the sink was told of one row, in order.
  unfoldable pub reports : A → List (A × Bool) → List Bool
  reports a [] = []
  reports a ((b, now) ∷ sink) = if b =ᵏ a then now ∷ reports a sink else reports a sink

  pub reports-append :
      (a : A) (xs ys : List (A × Bool)) → reports a (xs ++ ys) ≡ reports a xs ++ reports a ys
  unfolding reports
  reports-append a [] ys = refl
  reports-append a ((b, now) ∷ xs) ys = ground (arith, reports-append a xs ys)

  abbrev pub published : A → Cell → List (A × Bool)
  published a c = if differs c.flags.in_i (is_present c) then (a, is_present c) ∷ [] else []

  pub commit_one_lem :
      (rows : List A) (id : ℕ) (s : Sweep A) (a : A) (c : Cell)
      → get_elem? rows id ≡ some a
      → get_elem? s.cells id ≡ some c
      → s.live ≡ num_in_i s.cells
      → length s.cells ≤ no_id
      → Returns (commit_one rows id s) λ s'.
        (s'.cells ≡ set s.cells id (seal_cell c))
        × (s'.live ≡ num_in_i s'.cells)
        × (s'.sink ≡ s.sink ++ published a c)
  unfolding commit_one publish
  commit_one_lem rows id s a c ea ec live small =
      let d = differs c.flags.in_i (is_present c) in
      elim (Bool-cases d) [
        | inl t ↦ (
          record {
            cells = set s.cells id (seal_cell c);
            live = count_live (is_present c) s.live;
            sink = s.sink ++ (a, is_present c) ∷ [];
          },
          rw (ec, t, ea) refl,
          (refl, rw live (live_change s.cells id c ec t small), rw t refl),
        )
        | inr f ↦ (
          record s { cells = set s.cells id (seal_cell c) },
          rw (ec, f) refl,
          (refl, live ∙ live_same s.cells id c ec f, rw f (sym (append-nil s.sink))),
        )
      ]

  pub reports-published_self : (a : A) (c : Cell) → reports a (published a c) ≡ change c
  unfolding reports change
  reports-published_self a c = ground (arith, h.equal_refl a)

  pub reports-published_other :
      (a b : A) (c : Cell) → (b =ᵏ a) ≡ false → reports a (published b c) ≡ []
  unfolding reports
  reports-published_other a b c e = ground (arith, e)
