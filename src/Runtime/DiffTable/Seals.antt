-- ===== src/Runtime/DiffTable/Seals.antt =====
-- The end of a batch: what Commit leaves, and what it publishes.
use dr_lojekyll.Prelude.Int.{◌+ℤ◌, is_pos}
use dr_lojekyll.Runtime.Counters.{count_nr, count_r, total}
use dr_lojekyll.Prelude.{
  ℕ, ◌≡◌, refl, sym, ap, ◌∙◌, inl, inr, Bool, true, false, some, List, [], ◌∷◌, if◌then◌else◌,
  arith, get_elem?, get_elem?-lt, get_elem?_of_lt, Bool-cases, Option-cases,
}
use dr_lojekyll.Runtime.DiffTable.Commit.Loop.{elem, visited_cell, change, told, reports}
use dr_lojekyll.Runtime.DiffTable.Commit.Sweeps.{Sweeps, commit_loop-Sweeps}
use dr_lojekyll.Runtime.DiffTable.Enter.{fresh-IsSettled}
use dr_lojekyll.Runtime.DiffTable.Commit.{Sweep, differs, seal_cell, commit}
use dr_lojekyll.Runtime.DiffTable.Invariant.{Inv, IsSettled}
use dr_lojekyll.Runtime.DiffTable.View.{view, cell_of_some}
use dr_lojekyll.Runtime.DiffTable.{Cell, DiffTable, is_present, fresh_cell}
use dr_lojekyll.Runtime.Flags.{sealed_flags}
use dr_lojekyll.Runtime.Hashed.{Hashed}
use dr_lojekyll.Runtime.RowStore.Lookup.{position, position-some, position-none}
use dr_lojekyll.Runtime.Run.{Returns}

-- A settled row that nothing touched is sealed already.
settled_seal : (c : Cell) → IsSettled c → c.flags.touched ≡ false → seal_cell c ≡ c
unfolding seal_cell sealed_flags
settled_seal c s t = ground (arith, s.in_i, s.del, s.add, s.del_now, s.add_now, t)

settled_change : (c : Cell) → IsSettled c → change c ≡ []
unfolding change differs
settled_change c s = ground (arith, s.in_i)

pub seal-IsSettled : (c : Cell) → IsSettled (seal_cell c)
unfolding seal_cell sealed_flags is_present
seal-IsSettled c = record { in_i = refl; del = refl; add = refl; del_now = refl; add_now = refl }

seal_untouched : (c : Cell) → (seal_cell c).flags.touched ≡ false
unfolding seal_cell sealed_flags
seal_untouched c = refl

seal_count : (c : Cell) → (seal_cell c).count ≡ c.count
unfolding seal_cell
seal_count c = refl

fresh_seal : seal_cell fresh_cell ≡ fresh_cell
fresh_seal = settled_seal fresh_cell fresh-IsSettled refl

visited_settled :
    (id : ℕ) (ids : List ℕ) (c : Cell)
    → c.flags.touched ≡ elem id ids
    → (c.flags.touched ≡ false → IsSettled c)
    → (visited_cell id ids c ≡ seal_cell c) × (told id ids c ≡ change c)
unfolding visited_cell told
visited_settled id ids c e s = elim (Bool-cases (elem id ids)) [
  | inl t ↦ rw t (refl, refl)
  | inr f ↦
      let idle = e ∙ f in rw f (sym (settled_seal c (s idle) idle), sym (settled_change c (s idle)))
]

-- A row is present when its counters add up to more than zero.
abbrev pub is_counted : Cell → Bool
is_counted c = is_pos (count_nr c.count +ℤ count_r c.count)

-- The counters and the explicit support stay, `kInI` is presence, and the scratch flags are clear.
abbrev pub at_rest : Cell → Cell
at_rest c = record {
  count = c.count;
  flags = record {
    in_i = is_counted c;
    del = false;
    add = false;
    del_now = false;
    add_now = false;
    explicit = c.flags.explicit;
    touched = false;
  };
}

seal_eq : (c : Cell) → seal_cell c ≡ at_rest c
unfolding seal_cell sealed_flags is_present total
seal_eq c = refl

-- The presence of a row, if the batch changed it.
abbrev pub turned : Cell → List Bool
turned c =
    if is_counted c
    then if c.flags.in_i then [] else true ∷ []
    else if c.flags.in_i
    then false ∷ []
    else []

turned_lem :
    (was now : Bool)
    → (if differs was now then now ∷ [] else [])
      ≡ (if now then if was then [] else true ∷ [] else if was then false ∷ [] else [])
unfolding differs
turned_lem true true = refl
turned_lem true false = refl
turned_lem false true = refl
turned_lem false false = refl

change_eq : (c : Cell) → change c ≡ turned c
unfolding change is_present total
change_eq c = turned_lem c.flags.in_i (is_counted c)

module _ {ℓ} {A : Type ℓ} ⦃h : Hashed A⦄ where
  -- After the batch every row is settled, with its counters as they were, and the sink was told of
  -- each stored row its new presence, once, if that differs from the batch's start, and else nothing.
  pub record Seals (d : DiffTable A) (r : DiffTable A × List (A × Bool)) : Type ℓ where
    pub inv : Inv r.0
    pub idle : r.0.touched ≡ []
    pub store : r.0.store ≡ d.store
    pub cells : (row : A) → view r.0 row ≡ at_rest (view d row)
    pub settled : (id : ℕ) (c : Cell) → get_elem? r.0.cells id ≡ some c → IsSettled c
    pub published :
        (id : ℕ) (a : A) → get_elem? d.store.rows id ≡ some a → reports a r.1 ≡ turned (view d a)

  position_self :
      (d : DiffTable A) (id : ℕ) (a : A)
      → Inv d
      → get_elem? d.store.rows id ≡ some a
      → position a d.store.rows ≡ some id
  position_self d id a v at = elim (Option-cases (position a d.store.rows)) [
    | inl n ↦ absurd (cc (position-none a d.store.rows n id a at, h.equal_refl a))
    | inr (j, e) ↦
        let (b, at', same) = position-some a d.store.rows j e in
        rw e (ap some (v.valid.distinct j id b a at' at same))
  ]

  module _ (d : DiffTable A) (v : Inv d) (s' : Sweep A)
      (r : Sweeps d.store.rows d.touched
        (record { cells = d.cells; live = d.num_live; sink = [] })
        s') where
    cell_after :
        (id : ℕ) (c : Cell)
        → get_elem? d.cells id ≡ some c
        → get_elem? s'.cells id ≡ some (seal_cell c)
    cell_after id c e =
        r.cell id c e
        ∙ ap some (visited_settled id d.touched c (v.listed id c e) (v.settled id c e)).0

    cell_before :
        (id : ℕ) (c : Cell)
        → get_elem? s'.cells id ≡ some c
        → (b : Cell) × (get_elem? d.cells id ≡ some b) × (c ≡ seal_cell b)
    cell_before id c e =
        let (b, eb) = get_elem?_of_lt d.cells id (rw (← r.size) (get_elem?-lt s'.cells id e)) in
        let q = cell_after id b eb in (b, eb, cc)

    sealed_table : DiffTable A
    sealed_table = record d { cells = s'.cells; touched = []; num_live = s'.live }

    sealed-Inv : Inv sealed_table
    unfolding sealed_table elem
    sealed-Inv = record {
      valid = v.valid;
      parallel = r.size ∙ v.parallel;
      ranges =
          λ id c e. let (b, eb, q) = cell_before id c e in rw (q, seal_count b) (v.ranges id b eb);
      settled = λ id c e _. let (b, eb, q) = cell_before id c e in rw q (seal-IsSettled b);
      listed = λ id c e. let (b, eb, q) = cell_before id c e in rw q (seal_untouched b);
      below = tt;
      live = r.live;
    }

    sealed_view : (row : A) → view sealed_table row ≡ seal_cell (view d row)
    unfolding sealed_table
    sealed_view row = elim (Option-cases (position row d.store.rows)) [
      | inl n ↦ rw n (sym fresh_seal)
      | inr (id, e) ↦
          let (a, at, _) = position-some row d.store.rows id e in
          let (c, ec) =
            get_elem?_of_lt d.cells id (rw v.parallel (get_elem?-lt d.store.rows id at)) in
          rw e (
            cell_of_some s'.cells id (cell_after id c ec)
            ∙ ap seal_cell (sym (cell_of_some d.cells id ec)))
    ]

    sealed_reports :
        (id : ℕ) (a : A)
        → get_elem? d.store.rows id ≡ some a
        → reports a s'.sink ≡ change (view d a)
    unfolding reports
    sealed_reports id a at =
        let (c, ec) =
          get_elem?_of_lt d.cells id (rw v.parallel (get_elem?-lt d.store.rows id at)) in
        r.sink id a c at ec
        ∙ (visited_settled id d.touched c (v.listed id c ec) (v.settled id c ec)).1
        ∙ rw (position_self d id a v at) (ap change (sym (cell_of_some d.cells id ec)))

  -- On every table that satisfies the invariant, `Commit` ends, keeps the invariant and the
  -- rows, empties the touched set, leaves every row settled (`kInI` is presence, no scratch flag
  -- is set) with its counters as they were, and tells the sink of each stored row its new
  -- presence, once, exactly if that differs from the start of the batch.
  pub commit-Seals : (d : DiffTable A) → Inv d → Returns (commit d) (Seals d)
  unfolding commit sealed_table
  commit-Seals d v =
      let (s', run, r) =
        commit_loop-Sweeps d.store.rows d.touched
          (record { cells = d.cells; live = d.num_live; sink = [] }) v.valid.distinct v.parallel
          v.valid.small v.below v.live in
      (
        (sealed_table d v s' r, s'.sink),
        rw run refl,
        record {
          inv = sealed-Inv d v s' r;
          idle = refl;
          store = refl;
          cells = λ row. sealed_view d v s' r row ∙ seal_eq (view d row);
          settled =
              λ id c e. let (b, eb, q) = cell_before d v s' r id c e in rw q (seal-IsSettled b);
          published = λ id a at. sealed_reports d v s' r id a at ∙ change_eq (view d a);
        },
      )
