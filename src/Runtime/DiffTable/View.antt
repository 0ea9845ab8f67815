-- ===== src/Runtime/DiffTable/View.antt =====
-- A DiffTable seen as a map from rows to cells, in which a row that was never stored has the
-- fresh cell.
use dr_lojekyll.Prelude.{
  ℕ, ◌≡◌, refl, inl, inr, Bool, true, false, Option, none, some, List, [], ◌∷◌, ◌++◌, arith, length,
  get_elem?, Bool-cases, Option-cases, ◌==◌, ==_iff, if◌then◌else◌,
}
use dr_lojekyll.Runtime.DiffTable.Fold.{Turns}
use dr_lojekyll.Runtime.DiffTable.Invariant.{Inv}
use dr_lojekyll.Runtime.DiffTable.{Cell, DiffTable, fresh_cell, grow_to}
use dr_lojekyll.Runtime.Hashed.{Hashed, ◌=ᵏ◌}
use dr_lojekyll.Runtime.RowStore.Lookup.{position, position-some}
use dr_lojekyll.Runtime.RowStore.{RowStore}

abbrev pub cell_or_fresh : List Cell → Option ℕ → Cell
cell_or_fresh cells none = fresh_cell
cell_or_fresh cells (some i) = elim (get_elem? cells i) [ none ↦ fresh_cell | some c ↦ c ]

pub cell_of_some :
    (cells : List Cell) (i : ℕ) {c : Cell}
    → get_elem? cells i ≡ some c
    → cell_or_fresh cells (some i) ≡ c
cell_of_some cells i e = rw (e, cell_or_fresh) refl

pub cell_congr :
    (xs ys : List Cell) (i : ℕ)
    → get_elem? xs i ≡ get_elem? ys i
    → cell_or_fresh xs (some i) ≡ cell_or_fresh ys (some i)
cell_congr xs ys i e = rw (e, cell_or_fresh) refl

abbrev pub is_none {ℓ} : {A : Type ℓ} → Option A → Bool
is_none none = true
is_none (some a) = false

module _ {ℓ} {A : Type ℓ} ⦃h : Hashed A⦄ where
  abbrev pub view : DiffTable A → A → Cell
  view d row = cell_or_fresh d.cells (position row d.store.rows)

  position_congr : (a b : A) (rows : List A) → (a =ᵏ b) ≡ true → position a rows ≡ position b rows
  position_congr a b [] e = refl
  position_congr a b (x ∷ rows) e =
      ground (
        arith,
        position_congr a b rows e,
        h.equal_trans x a b,
        h.equal_trans x b a,
        h.equal_symm a b,
      )

  pub position-append :
      (b row : A) (rows : List A)
      → position b (rows ++ row ∷ []) ≡ elim (position b rows) [
        | some i ↦ some i
        | none ↦ if row =ᵏ b then some (length rows) else none
      ]
  position-append b row [] = refl
  position-append b row (x ∷ rows) = ground (arith, position-append b row rows)

  other_position :
      (d : DiffTable A) (row b : A) (i j : ℕ)
      → position row d.store.rows ≡ some i
      → position b d.store.rows ≡ some j
      → (row =ᵏ b) ≡ false
      → (i == j) ≡ false
  other_position d row b i j p q n = elim (Bool-cases (i == j)) [
    | inr f ↦ f
    | inl t ↦
        let e : i ≡ j = (==_iff i j).0 t in
        let (x, at, s) = position-some row d.store.rows i p in
        let (y, at', s') = position-some b d.store.rows j q in
        let xy : x ≡ y = cc (rw e at at, at') in
        let s'' : (x =ᵏ b) ≡ true = rw xy s' in
        absurd (cc (h.equal_trans row x b (rw (h.equal_symm row x) s) s'', n))
  ]

  -- A cell changes at one row: so does the map, for the rows that compare equal to it.
  pub Turns-view :
      (d d' : DiffTable A) (row : A) (id : ℕ) (c' : Cell)
      → Inv d
      → position row d.store.rows ≡ some id
      → Turns d id c' d'
      → (b : A) → view d' b ≡ (if row =ᵏ b then c' else view d b)
  Turns-view d d' row id c' v e t b = elim (Bool-cases (row =ᵏ b)) [
    | inl same ↦
        rw (same, t.store, ← position_congr row b d.store.rows same, e)
          (cell_of_some d'.cells id t.cell)
    | inr other ↦ elim (Option-cases (position b d.store.rows)) [
      | inl n ↦ rw (other, t.store, n) refl
      | inr (j, p) ↦
          rw (other, t.store, p)
            (cell_congr d'.cells d.cells j (t.others j (other_position d row b id j e p other)))
    ]
  ]

  abbrev pub entered : DiffTable A → (ℕ × Bool) × RowStore A → DiffTable A
  entered d r = grow_to r.0.0 (record d { store = r.1 })

  -- After `FindOrAdd` and `GrowTo` the row has an id and a cell, and the map is as it was.
  pub record Enters (d : DiffTable A) (row : A) (r : (ℕ × Bool) × RowStore A) : Type ℓ where
    pub inv : Inv (entered d r)
    pub at : position row (entered d r).store.rows ≡ some r.0.0
    pub cell : get_elem? (entered d r).cells r.0.0 ≡ some (view d row)
    pub same : (b : A) → view (entered d r) b ≡ view d b
    pub added : r.0.1 ≡ is_none (position row d.store.rows)
