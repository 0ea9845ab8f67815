-- ===== src/Runtime/DiffTable/Compact/Dense.antt =====
-- What CompactRowsInPlace leaves of a DiffTable.
use dr_lojekyll.Prelude.Int.{◌+ℤ◌, is_pos}
use dr_lojekyll.Runtime.Counters.{count_nr, count_r, total}
use dr_lojekyll.Prelude.{
  ℕ, zero, suc, ◌≤◌, ◌≡◌, refl, sym, ap, ◌∙◌, inl, inr, true, false, some, List, [], ◌∷◌, map,
  arith, length, if◌then◌else◌, get_elem?, take, Bool-cases, replicate,
}
use dr_lojekyll.Runtime.DiffTable.Compact.Kept.{kept}
use dr_lojekyll.Runtime.DiffTable.Compact.Loop.{compact_loop-Compacts}
use dr_lojekyll.Runtime.DiffTable.Compact.{is_dead}
use dr_lojekyll.Runtime.DiffTable.Invariant.{Inv}
use dr_lojekyll.Runtime.DiffTable.{Cell, DiffTable, is_present}
use dr_lojekyll.Runtime.Hashed.{Hashed, ◌=ᵏ◌}
use dr_lojekyll.Runtime.IdSlots.Find.{IsStored, replicate-Fills}
use dr_lojekyll.Runtime.IdSlots.{no_id, link_from}
use dr_lojekyll.Runtime.RowStore.Add.{num_rows-length, length-map}
use dr_lojekyll.Runtime.RowStore.Lookup.{IsValid, Distinct}
use dr_lojekyll.Runtime.RowStore.{RowStore, num_rows, compact_loop, compact_rows_in_place, move}
use dr_lojekyll.Runtime.Run.{Returns}

length-kept {ℓ} :
    {X : Type ℓ} (cells : List Cell) (xs : List X) → length (kept cells xs) ≤ length xs
length-kept [] xs = omega arith
length-kept (c ∷ cells) [] = omega arith
length-kept (c ∷ cells) (x ∷ xs) = elim (Bool-cases (is_present c)) [
  | inl t ↦ rw t (omega (arith, length-kept cells xs))
  | inr f ↦ rw f (omega (arith, length-kept cells xs))
]

length-kept_same {ℓ} :
    {X : Type ℓ} (cells rest : List Cell) (xs : List X)
    → length xs ≡ length rest
    → length rest ≡ length cells
    → length (kept cells xs) ≡ length (kept cells rest)
length-kept_same [] rest xs e f = refl
length-kept_same (c ∷ cells) [] xs e f = absurd (omega (arith, f))
length-kept_same (c ∷ cells) (y ∷ rest) [] e f = absurd (omega (arith, e))
length-kept_same (c ∷ cells) (y ∷ rest) (x ∷ xs) e f =
    let ih = length-kept_same cells rest xs (omega (arith, e)) (omega (arith, f)) in
    elim (Bool-cases (is_present c)) [ inl t ↦ rw t (ap suc ih) | inr n ↦ rw n ih ]

kept_member {ℓ} :
    {X : Type ℓ} (cells : List Cell) (xs : List X) (i : ℕ) (a : X)
    → get_elem? (kept cells xs) i ≡ some a
    → (j : ℕ) × (get_elem? xs j ≡ some a)
kept_member [] xs i a e = cc
kept_member (c ∷ cells) [] i a e = cc
kept_member {X = X} (c ∷ cells) (x ∷ xs) i a e = elim (Bool-cases (is_present c)) [
  | inr f ↦ let (j, at) = kept_member cells xs i a (rw f at e) in (suc j, at)
  | inl t ↦ among (kept_member cells xs) i (rw t at e)
]
  where
    among :
        ((i : ℕ) (a : X)
          → get_elem? (kept cells xs) i ≡ some a
          → (j : ℕ) × (get_elem? xs j ≡ some a))
        → (i : ℕ) → get_elem? (x ∷ kept cells xs) i ≡ some a
        → (j : ℕ) × (get_elem? (x ∷ xs) j ≡ some a)
    among rest zero e = (0, e)
    among rest (suc i) e = let (j, at) = rest i a e in (suc j, at)

-- What stands beside the cells whose counters add up to more than zero, in order.
unfoldable pub survivors {ℓ} : {X : Type ℓ} → List Cell → List X → List X
survivors [] xs = []
survivors (c ∷ cells) [] = []
survivors (c ∷ cells) (x ∷ xs) =
    let rest = survivors cells xs in
    if is_pos (count_nr c.count +ℤ count_r c.count) then x ∷ rest else rest

kept_eq {ℓ} : {X : Type ℓ} (cells : List Cell) (xs : List X) → kept cells xs ≡ survivors cells xs
unfolding survivors is_present total
kept_eq [] xs = refl
kept_eq (c ∷ cells) [] = refl
kept_eq (c ∷ cells) (x ∷ xs) = rw (kept_eq cells xs) refl

module _ {ℓ} {A : Type ℓ} ⦃h : Hashed A⦄ where
  kept-map :
      (cells : List Cell) (rows : List A)
      → kept cells (map h.hash rows) ≡ map h.hash (kept cells rows)
  kept-map [] rows = refl
  kept-map (c ∷ cells) [] = refl
  kept-map (c ∷ cells) (a ∷ rows) = elim (Bool-cases (is_present c)) [
    | inl t ↦ rw t (ap (λ ys. h.hash a ∷ ys) (kept-map cells rows))
    | inr f ↦ rw f (kept-map cells rows)
  ]

  Distinct-tail : (a : A) (rows : List A) → Distinct (a ∷ rows) → Distinct rows
  Distinct-tail a rows d i j x y p q e = let s = d (suc i) (suc j) x y p q e in omega (arith, s)

  Distinct-cons :
      (a : A) (rows : List A)
      → ((j : ℕ) (b : A) → get_elem? rows j ≡ some b → (a =ᵏ b) ≡ false)
      → Distinct rows
      → Distinct (a ∷ rows)
  Distinct-cons a rows n d zero zero x y p q e = refl
  Distinct-cons a rows n d zero (suc j) x y p q e =
      let ax : a ≡ x = cc in let e' : (a =ᵏ y) ≡ true = rw ax e in absurd (cc (n j y q, e'))
  Distinct-cons a rows n d (suc i) zero x y p q e =
      let ay : a ≡ y = cc in
      let e' : (a =ᵏ x) ≡ true = rw (ay, h.equal_symm y x) e in absurd (cc (n i x p, e'))
  Distinct-cons a rows n d (suc i) (suc j) x y p q e = ap suc (d i j x y p q e)

  apart_head :
      (a : A) (rows : List A)
      → Distinct (a ∷ rows)
      → (j : ℕ) (b : A) → get_elem? rows j ≡ some b
      → (a =ᵏ b) ≡ false
  apart_head a rows d j b at = elim (Bool-cases (a =ᵏ b)) [
    | inr f ↦ f
    | inl t ↦ let s : 0 ≡ suc j = d 0 (suc j) a b refl at t in absurd (omega (arith, s))
  ]

  Distinct-kept : (cells : List Cell) (rows : List A) → Distinct rows → Distinct (kept cells rows)
  Distinct-kept [] rows d = λ i j a b p q e. cc
  Distinct-kept (c ∷ cells) [] d = λ i j a b p q e. cc
  Distinct-kept (c ∷ cells) (a ∷ rows) d =
      let rest = Distinct-kept cells rows (Distinct-tail a rows d) in
      elim (Bool-cases (is_present c)) [
        | inr f ↦ rw f rest
        | inl t ↦ rw t (
            Distinct-cons a (kept cells rows)
              (λ j b at.
                let (k, at') = kept_member cells rows j b at in apart_head a rows d k b at')
              rest)
      ]

  IsStored-kept :
      (cells : List Cell) (s : RowStore A)
      → IsValid s
      → length cells ≡ length s.rows
      → Returns
          (link_from 0 (kept cells s.hashes) (replicate (length s.slots) no_id))
          (IsStored (kept cells s.hashes))
  unfolding link_from
  IsStored-kept cells s v e = elim v.stored [
    | inl (none', empty) ↦
        ([], rw (none', empty, kept-nil cells) refl, inl (rw none' (kept-nil cells), refl))
    | inr linked ↦
        let le = length-kept cells s.hashes in
        let (slots, run, l) =
          replicate-Fills (length s.slots) (kept cells s.hashes) linked.size
            (omega (arith, linked.load, le)) (omega (arith, linked.small, le)) in
        (slots, run, inr l)
  ]
    where
      kept-nil : (cells : List Cell) → kept {X = ℕ} cells [] ≡ []
      kept-nil [] = refl
      kept-nil (c ∷ cells) = refl

  -- The rows that are present, with their cells, in order.
  pub record Dense (d : DiffTable A) (r : ℕ × RowStore A × List Cell) : Type ℓ where
    pub valid : IsValid r.1
    pub rows : r.1.rows ≡ survivors d.cells d.store.rows
    pub cells : take r.0 r.2 ≡ survivors d.cells d.cells
    pub count : r.0 ≡ length (survivors d.cells d.cells)

  -- On a table that satisfies the invariant the compaction that `CompactDead` runs returns: it
  -- leaves exactly the rows that are present, in their order, with their cells in lockstep and
  -- their number as the new count, and the row store, its slots rebuilt in the array that was
  -- there, is valid again, so that lookups find each row under its new id.
  pub compact_rows_in_place-Dense :
      (d : DiffTable A)
      → Inv d
      → Returns (compact_rows_in_place is_dead move d.store d.cells) (Dense d)
  unfolding compact_rows_in_place
  compact_rows_in_place-Dense d v =
      let hs : length d.store.hashes ≡ length d.cells =
        rw (v.valid.parallel, length-map d.store.rows) (sym v.parallel) in
      let c =
        compact_loop-Compacts d.cells d.store.rows d.store.hashes 0 0 d.store d.cells (omega arith)
          refl refl refl (sym v.parallel) hs in
      let out = compact_loop is_dead move (length d.cells) 0 0 d.store d.cells in
      let n : num_rows d.store ≡ length d.cells =
        num_rows-length d.store v.valid ∙ sym v.parallel in
      let (slots, run, stored) = IsStored-kept d.cells d.store v.valid v.parallel in
      (
        (
          out.0,
          record { rows = take out.0 out.1.rows; hashes = take out.0 out.1.hashes; slots = slots },
          out.2,
        ),
        rw (n, c.hashes, c.slots, run) refl,
        record {
          valid = record {
            parallel = rw (c.hashes, c.rows, v.valid.parallel) (kept-map d.cells d.store.rows);
            stored = rw c.hashes stored;
            distinct = rw c.rows (Distinct-kept d.cells d.store.rows v.valid.distinct);
            small = rw c.rows (omega (arith, length-kept d.cells d.store.rows, v.valid.small));
          };
          rows = c.rows ∙ kept_eq d.cells d.store.rows;
          cells = c.cells ∙ kept_eq d.cells d.cells;
          count = c.count ∙ omega arith ∙ ap length (kept_eq d.cells d.cells);
        },
      )
