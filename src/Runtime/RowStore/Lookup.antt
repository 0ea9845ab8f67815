-- ===== src/Runtime/RowStore/Lookup.antt =====
-- RowStore as a list of distinct rows.
use dr_lojekyll.Prelude.{
  ℕ, zero, suc, ◌≤◌, ◌≡◌, refl, ap, ◌∙◌, inl, inr, true, false, Option, none, some, List, [], ◌∷◌,
  map, arith, length, get_elem?, Bool-cases, Option-cases, if◌then◌else◌,
}
use dr_lojekyll.Runtime.Hashed.{Hashed, ◌=ᵏ◌}
use dr_lojekyll.Runtime.IdSlots.Find.{IsStored, find_id-hit, find_id-miss}
use dr_lojekyll.Runtime.IdSlots.{no_id}
use dr_lojekyll.Runtime.RowStore.{RowStore, empty_store, row_hit, find_with_hash, find}
use dr_lojekyll.Runtime.Run.{ok}

abbrev pub or_no_id : Option ℕ → ℕ
or_no_id none = no_id
or_no_id (some i) = i

module _ {ℓ} {A : Type ℓ} ⦃h : Hashed A⦄ where
  -- No two rows of a log compare equal.
  abbrev pub Distinct : List A → Type ℓ
  Distinct rows =
      (i j : ℕ) (a b : A)
      → get_elem? rows i ≡ some a
      → get_elem? rows j ≡ some b
      → (a =ᵏ b) ≡ true
      → i ≡ j

  pub record IsValid (s : RowStore A) : Type ℓ where
    pub parallel : s.hashes ≡ map h.hash s.rows
    pub stored : IsStored s.hashes s.slots
    pub distinct : Distinct s.rows
    pub small : length s.rows ≤ no_id

  pub empty_store-IsValid : IsValid empty_store
  empty_store-IsValid = record {
    parallel = refl;
    stored = inl (refl, refl);
    distinct = λ i j a b e f g. cc;
    small = omega arith;
  }

  -- The linear search that the hash set stands for.
  abbrev pub position : A → List A → Option ℕ
  position row [] = none
  position row (a ∷ rows) =
      if a =ᵏ row then some 0 else elim (position row rows) [ none ↦ none | some i ↦ some (suc i) ]

  pub position-some :
      (row : A) (rows : List A) (i : ℕ)
      → position row rows ≡ some i
      → (a : A) × (get_elem? rows i ≡ some a) × ((a =ᵏ row) ≡ true)
  position-some row [] i e = cc
  position-some row (a ∷ rows) i e = elim (Bool-cases (a =ᵏ row)) [
    | inl t ↦ let q : 0 ≡ i = cc (rw t at e) in (a, rw (← q) refl, t)
    | inr f ↦ elim (Option-cases (position row rows)) [
      | inl n ↦ absurd (cc (rw (f, n) at e))
      | inr (j, m) ↦
          let (x, at, t) = position-some row rows j m in
          let q : suc j ≡ i = cc (rw (f, m) at e) in (x, rw (← q) at, t)
    ]
  ]

  pub position-none :
      (row : A) (rows : List A)
      → position row rows ≡ none
      → (i : ℕ) (a : A) → get_elem? rows i ≡ some a
      → (a =ᵏ row) ≡ false
  position-none row [] e i a at = cc
  position-none row (b ∷ rows) e i a at = elim (Bool-cases (b =ᵏ row)) [
    | inl t ↦ absurd (cc (rw t at e))
    | inr f ↦ elim (Option-cases (position row rows)) [
      | inl n ↦ rest (λ j e'. position-none row rows n j a e') i at f
      | inr (j, m) ↦ absurd (cc (rw (f, m) at e))
    ]
  ]
    where
      rest :
          ((j : ℕ) → get_elem? rows j ≡ some a → (a =ᵏ row) ≡ false)
          → (i : ℕ) → get_elem? (b ∷ rows) i ≡ some a
          → (b =ᵏ row) ≡ false
          → (a =ᵏ row) ≡ false
      rest ih zero at f = let q : b ≡ a = cc in rw (← q) f
      rest ih (suc i) at f = ih i at

  get_elem?-map :
      (rows : List A) (i : ℕ) {a : A}
      → get_elem? rows i ≡ some a
      → get_elem? (map h.hash rows) i ≡ some (h.hash a)
  get_elem?-map [] i e = cc
  get_elem?-map (b ∷ rows) zero {a} e = let q : b ≡ a = cc in rw q
  get_elem?-map (b ∷ rows) (suc i) e = get_elem?-map rows i e

  module _ (s : RowStore A) (v : IsValid s) (row : A) where
    row_hit_of :
        (i : ℕ) (a : A)
        → get_elem? s.rows i ≡ some a
        → (a =ᵏ row) ≡ true
        → (get_elem? s.hashes i ≡ some (h.hash row)) × (row_hit s row (h.hash row) i ≡ true)
    unfolding row_hit
    row_hit_of i a at t =
        let e : get_elem? s.hashes i ≡ some (h.hash row) =
          rw (v.parallel, ← h.hash-equal a row t) (get_elem?-map s.rows i at) in
        (e, rw (row_hit, e, at) (ground (arith, t)))

    of_row_hit :
        (i : ℕ)
        → row_hit s row (h.hash row) i ≡ true
        → (a : A) × (get_elem? s.rows i ≡ some a) × ((a =ᵏ row) ≡ true)
    unfolding row_hit
    of_row_hit i e = ground (arith, e)

    no_row_hit : position row s.rows ≡ none → (i : ℕ) → row_hit s row (h.hash row) i ≡ false
    no_row_hit e i = elim (Bool-cases (row_hit s row (h.hash row) i)) [
      | inr f ↦ f
      | inl t ↦
          let (a, at, same) = of_row_hit i t in
          absurd (cc (position-none row s.rows e i a at, same))
    ]

    -- What the lookup returns for a position: the position, or `~0u`.
    pub found_position :
        (i : ℕ) → position row s.rows ≡ some i → find_with_hash s row (h.hash row) ≡ ok i
    unfolding find_with_hash
    found_position i e =
        let (a, at, t) = position-some row s.rows i e in
        let (e', hit) = row_hit_of i a at t in
        let (r, run, (hit', _)) = find_id-hit _ s.hashes s.slots (h.hash row) i v.stored e' hit in
        let (b, at', t') = of_row_hit r hit' in
        let same : (b =ᵏ a) ≡ true = h.equal_trans b row a t' (rw (h.equal_symm row a) t) in
        run ∙ ap ok (v.distinct r i b a at' at same)

    pub no_position : position row s.rows ≡ none → find_with_hash s row (h.hash row) ≡ ok no_id
    unfolding find_with_hash
    no_position e = find_id-miss _ s.hashes s.slots (h.hash row) v.stored (no_row_hit e)

  -- `Find` on a valid store ends and returns what a linear search of the row log returns: the id
  -- of the row that compares equal, or `~0u`.
  pub find-position :
      (s : RowStore A) (row : A) → IsValid s → find s row ≡ ok (or_no_id (position row s.rows))
  unfolding find
  find-position s row v = elim (Option-cases (position row s.rows)) [
    | inl e ↦ rw e (no_position s v row e)
    | inr (i, e) ↦ rw e (found_position s v row i e)
  ]
