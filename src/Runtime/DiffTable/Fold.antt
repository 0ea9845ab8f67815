-- ===== src/Runtime/DiffTable/Fold.antt =====
-- Counter folds and claims at one row of a DiffTable.
use dr_lojekyll.Prelude.Int.{ℤ, pos_part, neg_part, ◌+ℤ◌, is_pos}
use dr_lojekyll.Prelude.{
  ℕ, ◌+◌, ◌≤◌, ◌≡◌, refl, inl, inr, Bool, true, false, not, ◌&&◌, if◌then◌else◌, some, get_elem?,
  set, get_elem?-lt, get_elem?-set_self, get_elem?-set_ne, ◌∙◌, Bool-cases,
}
use dr_lojekyll.Runtime.Counters.{
  DerivClass, non_recursive, recursive, InRange, count_nr, count_r, total, pack, count-pack,
  at_limit, step-InRange,
}
use dr_lojekyll.Runtime.DiffTable.Invariant.{
  Inv, InRanges, touched_cell, set-Inv, touch-Inv, Others, apart,
}
use dr_lojekyll.Runtime.DiffTable.{Cell, DiffTable, cell_at, folded, target, crosses, fold_at}
use dr_lojekyll.Runtime.Run.{Keeps}
use dr_lojekyll.Runtime.Hashed.{Hashed}

-- A fold moves one counter by one.
abbrev pub IsUnit : ℤ → Type 0
IsUnit delta = pos_part delta + neg_part delta ≤ 1

folded-InRange :
    (cls : DerivClass) (delta : ℤ) (w : ℕ)
    → IsUnit delta
    → InRanges w
    → at_limit (target cls (folded cls delta w)) ≡ false
    → InRange (folded cls delta w).0 × InRange (folded cls delta w).1
unfolding folded target
folded-InRange non_recursive delta w u r l = (step-InRange (count_nr w) delta r.0 u l, r.1)
folded-InRange recursive delta w u r l = (r.0, step-InRange (count_r w) delta r.1 u l)

-- Only the addressed counter moves, and by `delta`.
abbrev pub Counted : DerivClass → ℤ → ℕ → ℕ → Type 0
Counted non_recursive delta w w' = (count_nr w' ≡ count_nr w +ℤ delta) × (count_r w' ≡ count_r w)
Counted recursive delta w w' = (count_nr w' ≡ count_nr w) × (count_r w' ≡ count_r w +ℤ delta)

folded-Counted :
    (cls : DerivClass) (delta : ℤ) (w w' : ℕ)
    → count_nr w' ≡ (folded cls delta w).0
    → count_r w' ≡ (folded cls delta w).1
    → Counted cls delta w w'
unfolding folded
folded-Counted non_recursive delta w w' e f = (e, f)
folded-Counted recursive delta w w' e f = (e, f)

-- What a fold has to report, from the stored counters before and after it: an addition made an
-- absent row present, or a subtraction left a row of the batch's start without nonrecursive support.
pub crossing : ℤ → Bool → ℕ → ℕ → Bool
crossing delta in_i w w' =
    if is_pos delta
    then not (is_pos (count_nr w +ℤ count_r w)) && is_pos (count_nr w' +ℤ count_r w')
    else in_i && not (is_pos (count_nr w'))

module _ {ℓ} {A : Type ℓ} ⦃h : Hashed A⦄ where
  -- Row `id` goes from cell `c` to `c'`; the rows themselves stay.
  pub record Turns (d : DiffTable A) (id : ℕ) (c' : Cell) (d' : DiffTable A) : Type ℓ where
    pub inv : Inv d'
    pub store : d'.store ≡ d.store
    pub cell : get_elem? d'.cells id ≡ some c'
    pub others : Others d id d'

  -- A fold aborts at the counter limits. Otherwise the addressed counter moves by exactly one
  -- and the other stays, the flags change in `kTouched` alone, and the crossing is decided by the
  -- counters before and after.
  pub record Folds (d : DiffTable A) (id : ℕ) (cls : DerivClass) (delta : ℤ) (c : Cell)
      (r : Bool × DiffTable A) : Type ℓ where
    pub cell : Cell
    pub turns : Turns d id cell r.1
    pub counts : Counted cls delta c.count cell.count
    pub flags : cell.flags ≡ record c.flags { touched = true }
    pub crossed : r.0 ≡ crossing delta c.flags.in_i c.count cell.count

  pub fold_at-Folds :
      (d : DiffTable A) (id : ℕ) (cls : DerivClass) (delta : ℤ) (c : Cell)
      → Inv d
      → get_elem? d.cells id ≡ some c
      → IsUnit delta
      → Keeps (fold_at id cls delta d) (Folds d id cls delta c)
  unfolding fold_at cell_at crosses crossing total
  fold_at-Folds d id cls delta c v e u =
      let (d₁, run₁, (v₁, same, e₁, rest)) = touch-Inv d id c v e in
      let after = folded cls delta c.count in
      elim (Bool-cases (at_limit (target cls after))) [
        | inl limit ↦ inl (rw (run₁, e₁, limit) refl)
        | inr fine ↦
            let r = folded-InRange cls delta c.count u (v.ranges id c e) fine in
            let back = count-pack after.0 after.1 r.0 r.1 in
            let c' : Cell = record {
              count = pack after.0 after.1;
              flags = (touched_cell c).flags;
            } in
            inr (
              (crosses delta c.flags.in_i c.count after, record d₁ { cells = set d₁.cells id c' }),
              rw (run₁, e₁, fine) refl,
              record {
                cell = c';
                turns = record {
                  inv =
                      set-Inv d₁ id (touched_cell c) c' v₁ e₁ refl refl refl
                        (rw (back.0, back.1) r);
                  store = same;
                  cell = get_elem?-set_self d₁.cells id c' (get_elem?-lt d₁.cells id e₁);
                  others = λ j n. get_elem?-set_ne d₁.cells id j c' (apart id j n) ∙ rest j n;
                };
                counts = folded-Counted cls delta c.count c'.count back.0 back.1;
                flags = refl;
                crossed = rw (back.0, back.1) refl;
              },
            )
      ]
