-- ===== src/Runtime/DiffTable/Invariant.antt =====
-- What every operation of a DiffTable keeps, and the two ways in which operations change a cell.
use dr_lojekyll.Prelude.{
  ℕ, ◌<◌, ◌≡◌, refl, sym, ap, ◌≢◌, ◌∙◌, ◌⊎◌, inl, inr, true, false, ◌||◌, some, List, [], ◌∷◌, ◌++◌,
  arith, length, get_elem?, set, length-set, get_elem?-lt, get_elem?-set_self, get_elem?-set_ne,
  Bool-cases, ◌==◌, ==_iff,
}
use dr_lojekyll.Runtime.Counters.{InRange, count_nr, count_r}
use dr_lojekyll.Runtime.DiffTable.Commit.Loop.{num_in_i, num_in_i-set, elem, AllBelow}
use dr_lojekyll.Runtime.DiffTable.{Cell, DiffTable, is_present, cell_at, touch}
use dr_lojekyll.Runtime.Hashed.{Hashed}
use dr_lojekyll.Runtime.RowStore.Lookup.{IsValid}
use dr_lojekyll.Runtime.Run.{Returns}

-- A row as it is between batches.
pub record IsSettled (c : Cell) : Type 0 where
  pub in_i : c.flags.in_i ≡ is_present c
  pub del : c.flags.del ≡ false
  pub add : c.flags.add ≡ false
  pub del_now : c.flags.del_now ≡ false
  pub add_now : c.flags.add_now ≡ false

abbrev pub InRanges : ℕ → Type 0
InRanges w = InRange (count_nr w) × InRange (count_r w)

-- Every row is touched or settled; the touched set and the live count agree with the flags.
pub record Inv {ℓ} {A : Type ℓ} ⦃h : Hashed A⦄ (d : DiffTable A) : Type ℓ where
  pub valid : IsValid d.store
  pub parallel : length d.cells ≡ length d.store.rows
  pub ranges : (id : ℕ) (c : Cell) → get_elem? d.cells id ≡ some c → InRanges c.count
  pub settled :
      (id : ℕ) (c : Cell) → get_elem? d.cells id ≡ some c → c.flags.touched ≡ false → IsSettled c
  pub listed :
      (id : ℕ) (c : Cell) → get_elem? d.cells id ≡ some c → c.flags.touched ≡ elem id d.touched
  pub below : AllBelow (length d.store.rows) d.touched
  pub live : d.num_live ≡ num_in_i d.cells

pub get_elem?-set_cases {ℓ} :
    {A : Type ℓ} (xs : List A) (i j : ℕ) (v x : A)
    → get_elem? (set xs i v) j ≡ some x
    → ((i ≡ j) × (x ≡ v)) ⊎ (((i == j) ≡ false) × (get_elem? xs j ≡ some x))
get_elem?-set_cases xs i j v x e = elim (Bool-cases (i == j)) [
  | inl same ↦
      let q : i ≡ j = (==_iff i j).0 same in
      let at = rw (← q) at (get_elem?-lt (set xs i v) j e) in
      let at' = get_elem?-set_self xs i v (rw (length-set xs i v) at at) in inl (q, cc)
  | inr other ↦ inr (other, sym (get_elem?-set_ne xs i j v (ground (arith, other))) ∙ e)
]

pub elem-append :
    (id : ℕ) (ids : List ℕ) (i : ℕ) → elem id (ids ++ i ∷ []) ≡ elem id ids || (i == id)
unfolding elem
elem-append id [] i = ground arith
elem-append id (j ∷ ids) i = ground (arith, elem-append id ids i)

pub AllBelow-append :
    (n : ℕ) (ids : List ℕ) (i : ℕ) → AllBelow n ids → i < n → AllBelow n (ids ++ i ∷ [])
AllBelow-append n [] i b lt = (lt, tt)
AllBelow-append n (j ∷ ids) i b lt = (b.0, AllBelow-append n ids i b.1 lt)

pub apart : (i j : ℕ) → (i == j) ≡ false → i ≢ j
apart i j h = ground (arith, h)

-- All rows but `id` keep their cells.
abbrev pub Others {ℓ} : {A : Type ℓ} → DiffTable A → ℕ → DiffTable A → Type 0
Others d id d' = (j : ℕ) → (id == j) ≡ false → get_elem? d'.cells j ≡ get_elem? d.cells j

abbrev pub touched_cell : Cell → Cell
touched_cell c = record c { flags = record c.flags { touched = true } }

module _ {ℓ} {A : Type ℓ} ⦃h : Hashed A⦄ where
  -- A row that is listed as touched may change in its counters and its scratch flags.
  pub update-Inv :
      (d : DiffTable A) (id : ℕ) (c c' : Cell) (ids : List ℕ)
      → Inv d
      → get_elem? d.cells id ≡ some c
      → c'.flags.touched ≡ true
      → c'.flags.in_i ≡ c.flags.in_i
      → InRanges c'.count
      → elem id ids ≡ true
      → ((j : ℕ) → (id == j) ≡ false → elem j ids ≡ elem j d.touched)
      → AllBelow (length d.store.rows) ids
      → Inv (record d { cells = set d.cells id c'; touched = ids })
  update-Inv d id c c' ids v e t i r here there below = record {
    valid = v.valid;
    parallel = length-set d.cells id c' ∙ v.parallel;
    ranges = λ j x q. elim (get_elem?-set_cases d.cells id j c' x q) [
      | inl (_, p) ↦ rw p r
      | inr (_, p) ↦ v.ranges j x p
    ];
    settled = λ j x q u. elim (get_elem?-set_cases d.cells id j c' x q) [
      | inl (_, p) ↦ let u' = rw p at u in absurd (cc (t, u'))
      | inr (_, p) ↦ v.settled j x p u
    ];
    listed = λ j x q. elim (get_elem?-set_cases d.cells id j c' x q) [
      | inl (n, p) ↦ rw (p, t, ← n) (sym here)
      | inr (n, p) ↦ v.listed j x p ∙ sym (there j n)
    ];
    below = below;
    live = v.live ∙ same_live;
  }
    where
      same_live : num_in_i d.cells ≡ num_in_i (set d.cells id c')
      same_live = let q = num_in_i-set d.cells id c c' e in ground (arith, q, i)

  pub set-Inv :
      (d : DiffTable A) (id : ℕ) (c c' : Cell)
      → Inv d
      → get_elem? d.cells id ≡ some c
      → c.flags.touched ≡ true
      → c'.flags.touched ≡ true
      → c'.flags.in_i ≡ c.flags.in_i
      → InRanges c'.count
      → Inv (record d { cells = set d.cells id c' })
  set-Inv d id c c' v e t t' i r =
      update-Inv d id c c' d.touched v e t' i r (sym (v.listed id c e) ∙ t) (λ j _. refl) v.below

  pub touch-Inv :
      (d : DiffTable A) (id : ℕ) (c : Cell)
      → Inv d
      → get_elem? d.cells id ≡ some c
      → Returns (touch id d) λ d'.
        Inv d'
        × (d'.store ≡ d.store)
        × (get_elem? d'.cells id ≡ some (touched_cell c))
        × Others d id d'
  unfolding touch cell_at
  touch-Inv d id c v e = elim (Bool-cases c.flags.touched) [
    | inl t ↦ (d, rw (e, t) refl, (v, refl, e ∙ ap some (already c t), λ j _. refl))
    | inr f ↦ (
      record d { cells = set d.cells id (touched_cell c); touched = d.touched ++ id ∷ [] },
      rw (e, f) refl,
      (
        update-Inv d id c (touched_cell c) (d.touched ++ id ∷ []) v e refl refl (v.ranges id c e)
            (rw (elem-append id d.touched id) (ground arith))
            (λ j n. rw (elem-append j d.touched id, n) (ground arith))
            (AllBelow-append _ d.touched id v.below
              (rw (← v.parallel) (get_elem?-lt d.cells id e))),
        refl,
        get_elem?-set_self d.cells id (touched_cell c) (get_elem?-lt d.cells id e),
        λ j n. get_elem?-set_ne d.cells id j (touched_cell c) (apart id j n),
      ),
    )
  ]
    where
      already : (x : Cell) → x.flags.touched ≡ true → x ≡ touched_cell x
      already x t = ground arith
