-- ===== src/Runtime/DiffTable/Commit/Sweeps.antt =====
-- The sweep over all the touched rows.
use mathlib.Core.List.{append-nil}
use dr_lojekyll.Prelude.{
  ℕ, ◌≤◌, ◌≡◌, refl, sym, ap, ◌∙◌, inl, inr, false, some, List, [], ◌∷◌, ◌++◌, arith, length,
  get_elem?, set, length-set, get_elem?-lt, get_elem?_of_lt, get_elem?-set_self, get_elem?-set_ne,
  Bool-cases, ◌==◌, ==_iff,
}
use dr_lojekyll.Runtime.DiffTable.Commit.{Sweep, seal_cell, commit_loop}
use dr_lojekyll.Runtime.DiffTable.{Cell}
use dr_lojekyll.Runtime.Hashed.{Hashed, ◌=ᵏ◌}
use dr_lojekyll.Runtime.IdSlots.{no_id}
use dr_lojekyll.Runtime.RowStore.Lookup.{Distinct}
use dr_lojekyll.Runtime.Run.{Returns}
use dr_lojekyll.Runtime.DiffTable.Commit.Loop.{
  num_in_i, elem, visited_cell, visited_seal, visited_nil, told, told-seal, told_nil, AllBelow,
  reports, reports-append, published, reports-published_self, reports-published_other,
  commit_one_lem,
}

module _ {ℓ} {A : Type ℓ} ⦃h : Hashed A⦄ where
  -- The sweep from `s` to `s'` over `ids`.
  pub record Sweeps (rows : List A) (ids : List ℕ) (s s' : Sweep A) : Type ℓ where
    pub size : length s'.cells ≡ length s.cells
    pub cell :
        (id : ℕ) (c : Cell)
        → get_elem? s.cells id ≡ some c
        → get_elem? s'.cells id ≡ some (visited_cell id ids c)
    pub live : s'.live ≡ num_in_i s'.cells
    pub sink :
        (id : ℕ) (a : A) (c : Cell)
        → get_elem? rows id ≡ some a
        → get_elem? s.cells id ≡ some c
        → reports a s'.sink ≡ reports a s.sink ++ told id ids c

  module _ (rows : List A) (d : Distinct rows) (i : ℕ) (ids : List ℕ) (s s₁ s₂ : Sweep A) where
    distinct_apart :
        (j id : ℕ) (b a : A)
        → get_elem? rows j ≡ some b
        → get_elem? rows id ≡ some a
        → (j == id) ≡ false
        → (b =ᵏ a) ≡ false
    distinct_apart j id b a eb ea n = elim (Bool-cases (b =ᵏ a)) [
      | inr f ↦ f
      | inl t ↦ absurd (apart j id n (d j id b a eb ea t))
    ]
      where
        apart : (j id : ℕ) → (j == id) ≡ false → j ≡ id → ⊥
        apart j id f e = ground arith

    module _ (b : A) (c : Cell) (eb : get_elem? rows i ≡ some b) (ec : get_elem? s.cells i ≡ some c)
        (cells : s₁.cells ≡ set s.cells i (seal_cell c)) (r : Sweeps rows ids s₁ s₂) where
      cell_next :
          (id : ℕ) (c' : Cell)
          → get_elem? s.cells id ≡ some c'
          → get_elem? s₂.cells id ≡ some (visited_cell id (i ∷ ids) c')
      unfolding visited_cell elem
      cell_next id c' e = elim (Bool-cases (i == id)) [
        | inl same ↦
            let q : i ≡ id = (==_iff i id).0 same in
            let c_eq : c' ≡ c = cc (rw q at ec, e) in
            rw (same, c_eq)
              (r.cell id (seal_cell c) (
                  rw (cells, ← q)
                    (get_elem?-set_self s.cells i (seal_cell c) (get_elem?-lt s.cells i ec)))
                ∙ ap some (visited_seal id ids c))
        | inr other ↦ rw other (
            r.cell id c'
              (rw cells (get_elem?-set_ne s.cells i id (seal_cell c) (ground (arith, other)) ∙ e)))
      ]

      sink_next :
          (id : ℕ) (a : A) (c' : Cell)
          → s₁.sink ≡ s.sink ++ published b c
          → get_elem? rows id ≡ some a
          → get_elem? s.cells id ≡ some c'
          → reports a s₂.sink ≡ reports a s.sink ++ told id (i ∷ ids) c'
      unfolding told elem
      sink_next id a c' q ea e = elim (Bool-cases (i == id)) [
        | inl same ↦
            let p : i ≡ id = (==_iff i id).0 same in
            let c_eq : c' ≡ c = cc (rw p at ec, e) in
            let a_eq : a ≡ b = cc (rw p at eb, ea) in
            let at : get_elem? s₁.cells id ≡ some (seal_cell c) =
              rw (cells, ← p)
                (get_elem?-set_self s.cells i (seal_cell c) (get_elem?-lt s.cells i ec)) in
            r.sink id a (seal_cell c) ea at
            ∙ rw (told-seal id ids c, q, reports-append, append-nil, a_eq, same, c_eq)
                (ap (◌++◌ (reports b s.sink)) (reports-published_self b c))
        | inr other ↦
            let at : get_elem? s₁.cells id ≡ some c' =
              rw cells (get_elem?-set_ne s.cells i id (seal_cell c) (ground (arith, other)) ∙ e) in
            let apart : (b =ᵏ a) ≡ false = distinct_apart i id b a eb ea other in
            r.sink id a c' ea at
            ∙ rw (q, reports-append, reports-published_other a b c apart, append-nil, other) refl
      ]

  -- The whole sweep ends, whatever the order of the touched rows.
  pub commit_loop-Sweeps :
      (rows : List A) (ids : List ℕ) (s : Sweep A)
      → Distinct rows
      → length s.cells ≡ length rows
      → length rows ≤ no_id
      → AllBelow (length rows) ids
      → s.live ≡ num_in_i s.cells
      → Returns (commit_loop rows ids s) (Sweeps rows ids s)
  unfolding commit_loop
  commit_loop-Sweeps rows [] s d same small below live = (
    s,
    refl,
    record {
      size = refl;
      cell = λ id c e. rw visited_nil e;
      live = live;
      sink = λ id a c _ _. rw told_nil (sym (append-nil _));
    },
  )
  commit_loop-Sweeps rows (i ∷ ids) s d same small (lt, below) live =
      let (b, eb) = get_elem?_of_lt rows i lt in
      let (c, ec) = get_elem?_of_lt s.cells i (rw same lt) in
      let (s₁, run₁, (cells, live₁, sink)) =
        commit_one_lem rows i s b c eb ec live (rw same small) in
      let size₁ : length s₁.cells ≡ length s.cells =
        rw cells (length-set s.cells i (seal_cell c)) in
      let (s₂, run₂, r) = commit_loop-Sweeps rows ids s₁ d (size₁ ∙ same) small below live₁ in
      (
        s₂,
        rw (run₁, run₂),
        record {
          size = r.size ∙ size₁;
          cell = cell_next rows d i ids s s₁ s₂ b c eb ec cells r;
          live = r.live;
          sink = λ id a c' ea e. sink_next rows d i ids s s₁ s₂ b c eb ec cells r id a c' sink ea e;
        },
      )
