-- ===== src/Runtime/RowStore/Add.antt =====
-- FindOrAdd: a set of distinct rows that only grows.
use native.Mathlib.Nat.{mod-eq_of_lt}
use dr_lojekyll.Prelude.{
  ℕ, suc, ◌<◌, ◌≡◌, refl, sym, ap, ◌∙◌, ◌⊎◌, inl, inr, Bool, true, false, Option, none, some, List,
  [], ◌∷◌, ◌++◌, map, arith, length, length-append, get_elem?-lt, get_elem?-append_cases,
  Bool-cases, Option-cases, ◌==◌, ==_iff, ==_ne,
}
use dr_lojekyll.Runtime.Hashed.{Hashed, ◌=ᵏ◌}
use dr_lojekyll.Runtime.IdSlots.Find.{insert_slot-IsLinked}
use dr_lojekyll.Runtime.IdSlots.{no_id}
use dr_lojekyll.Runtime.RowStore.{RowStore, num_rows, add_row, find_or_add}
use dr_lojekyll.Runtime.Run.{Run, ok, abort, Returns}
use dr_lojekyll.Runtime.RowStore.Lookup.{
  Distinct, IsValid, position, position-some, position-none, found_position, no_position,
}

module _ {ℓ} {A : Type ℓ} ⦃h : Hashed A⦄ where
  -- The outcome of `FindOrAdd`: a row that is there is found and nothing changes; a new one is
  -- appended under the next id, unless all ids but `~0u` are taken, when the process aborts.
  abbrev pub Adds : RowStore A → A → Option ℕ → Run ((ℕ × Bool) × RowStore A) → Type ℓ
  Adds s row (some i) r = r ≡ ok ((i, false), s)
  Adds s row none r =
      ((length s.rows ≡ no_id) × (r ≡ abort))
      ⊎ Returns r λ o. (o.0 ≡ (length s.rows, true)) × (o.1.rows ≡ s.rows ++ row ∷ []) × IsValid o.1

  map-snoc :
      (rows : List A) (row : A) → map h.hash rows ++ h.hash row ∷ [] ≡ map h.hash (rows ++ row ∷ [])
  map-snoc [] row = refl
  map-snoc (a ∷ rows) row = rw (map-snoc rows row)

  pub length-map : (rows : List A) → length (map h.hash rows) ≡ length rows
  length-map [] = refl
  length-map (a ∷ rows) = ap suc (length-map rows)

  Distinct-snoc :
      (rows : List A) (row : A)
      → Distinct rows
      → position row rows ≡ none
      → Distinct (rows ++ row ∷ [])
  Distinct-snoc rows row d e i j a b p q t = elim (get_elem?-append_cases rows row i a p) [
    | inl p' ↦ elim (get_elem?-append_cases rows row j b q) [
      | inl q' ↦ d i j a b p' q' t
      | inr (_, e') ↦
          let t' : (a =ᵏ row) ≡ true = rw (← e') t in
          absurd (cc (position-none row rows e i a p', t'))
    ]
    | inr (l, e') ↦ elim (get_elem?-append_cases rows row j b q) [
      | inl q' ↦
          let t' : (b =ᵏ row) ≡ true = rw (h.equal_symm b row, ← e') t in
          absurd (cc (position-none row rows e j b q', t'))
      | inr (l', _) ↦ l ∙ sym l'
    ]
  ]

  pub num_rows-length : (s : RowStore A) → IsValid s → num_rows s ≡ length s.rows
  unfolding num_rows
  num_rows-length s v = mod-eq_of_lt (omega (arith, v.small))

  add_row-Adds :
      (s : RowStore A) (row : A)
      → IsValid s
      → position row s.rows ≡ none
      → Adds s row none (add_row s row (h.hash row))
  unfolding add_row
  add_row-Adds s row v e = elim (Bool-cases (length s.rows == no_id)) [
    | inl full ↦ inl ((==_iff _ _).0 full, rw (num_rows-length s v, full))
    | inr room ↦
        let few : length s.rows < no_id = ground (arith, v.small, room) in
        let same : length s.hashes ≡ length s.rows = rw v.parallel (length-map s.rows) in
        let (slots, run, linked) =
          insert_slot-IsLinked s.hashes s.slots (h.hash row) v.stored (rw same few) in
        let run' = rw same at run in
        let fresh : num_rows s == no_id ≡ false = rw (num_rows-length s v) room in
        let s' : RowStore A = record {
          rows = s.rows ++ row ∷ [];
          hashes = s.hashes ++ h.hash row ∷ [];
          slots = slots;
        } in
        inr (
          ((length s.rows, true), s'),
          rw (fresh, num_rows-length s v, run') refl,
          (
            refl,
            refl,
            record {
              parallel = rw v.parallel (map-snoc s.rows row);
              stored = inr linked;
              distinct = Distinct-snoc s.rows row v.distinct e;
              small = omega (arith, length-append s.rows (row ∷ []), few);
            },
          ),
        )
  ]

  -- `FindOrAdd` on a valid store returns the id of a row that compares equal and changes
  -- nothing, or, for a new row, appends it under the next id and keeps the store valid, unless
  -- all ids but `~0u` are taken, when it aborts.
  pub find_or_add-Adds :
      (s : RowStore A) (row : A) → IsValid s → Adds s row (position row s.rows) (find_or_add s row)
  unfolding find_or_add
  find_or_add-Adds s row v = elim (Option-cases (position row s.rows)) [
    | inl e ↦ rw (e, no_position s v row e) (add_row-Adds s row v e)
    | inr (i, e) ↦
        let (a, at, t) = position-some row s.rows i e in
        let lt = get_elem?-lt s.rows i at in
        rw (e, found_position s v row i e, ==_ne i no_id (omega (arith, lt, v.small))) refl
  ]
