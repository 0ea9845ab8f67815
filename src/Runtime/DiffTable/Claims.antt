-- ===== src/Runtime/DiffTable/Claims.antt =====
-- Claims into the overdeletion and addition sets, and the retirement of a frontier round.
use dr_lojekyll.Prelude.Int.{◌+ℤ◌, is_pos}
use dr_lojekyll.Prelude.{
  ℕ, ◌≡◌, refl, ◌∙◌, inl, inr, Bool, true, false, not, ◌&&◌, ◌||◌, some, arith, get_elem?, set,
  set_same, get_elem?-lt, get_elem?-set_self, get_elem?-set_ne, Bool-cases, if◌then◌else◌,
}
use dr_lojekyll.Runtime.Counters.{count_nr, count_r, total}
use dr_lojekyll.Runtime.DiffTable.Fold.{Turns}
use dr_lojekyll.Runtime.DiffTable.Invariant.{
  Inv, IsSettled, touched_cell, set-Inv, touch-Inv, apart,
}
use dr_lojekyll.Runtime.DiffTable.{
  Cell, DiffTable, cell_at, touch, set_flags, try_claim_del, try_claim_add, retire_del, retire_add,
}
use dr_lojekyll.Runtime.Flags.{Flags, claimed_del, claimed_add}
use dr_lojekyll.Runtime.Hashed.{Hashed}
use dr_lojekyll.Runtime.Run.{ok, Returns}

-- A change of scratch flags.
abbrev pub IsScratch : (Flags → Flags) → Type 0
IsScratch g = (f : Flags) → ((g f).touched ≡ f.touched) × ((g f).in_i ≡ f.in_i)

-- The test of a claim, on the cell.
pub may_claim_del : Cell → Bool
may_claim_del c = not (c.flags.del || is_pos (count_nr c.count))

pub may_claim_add : Cell → Bool
may_claim_add c = not c.flags.add && is_pos (count_nr c.count +ℤ count_r c.count)

de_morgan : (a b : Bool) → a || not b ≡ true → not a && b ≡ false
de_morgan a b h = ground (arith, h)

de_morgan' : (a b : Bool) → a || not b ≡ false → not a && b ≡ true
de_morgan' a b h = ground (arith, h)

module _ {ℓ} {A : Type ℓ} ⦃h : Hashed A⦄ where
  pub set_flags-Turns :
      (g : Flags → Flags) (d : DiffTable A) (id : ℕ) (c : Cell)
      → IsScratch g
      → Inv d
      → get_elem? d.cells id ≡ some c
      → c.flags.touched ≡ true
      → Returns (set_flags g id d) (Turns d id (record c { flags = g c.flags }))
  unfolding set_flags cell_at
  set_flags-Turns g d id c k v e t = (
    record d { cells = set d.cells id (record c { flags = g c.flags }) },
    rw e refl,
    record {
      inv = set-Inv d id c _ v e t ((k c.flags).0 ∙ t) (k c.flags).1 (v.ranges id c e);
      store = refl;
      cell = get_elem?-set_self d.cells id _ (get_elem?-lt d.cells id e);
      others = λ j n. get_elem?-set_ne d.cells id j _ (apart id j n);
    },
  )

  pub touch_set-Turns :
      (g : Flags → Flags) (d : DiffTable A) (id : ℕ) (c : Cell)
      → IsScratch g
      → Inv d
      → get_elem? d.cells id ≡ some c
      → (d₁ d₂ : DiffTable A) × (touch id d ≡ ok d₁)
        × (set_flags g id d₁ ≡ ok d₂)
        × Turns d id (record c { flags = g (touched_cell c).flags }) d₂
  touch_set-Turns g d id c k v e =
      let (d₁, run₁, (v₁, same, e₁, rest)) = touch-Inv d id c v e in
      let (d₂, run₂, t) = set_flags-Turns g d₁ id (touched_cell c) k v₁ e₁ refl in
      (
        d₁,
        d₂,
        run₁,
        run₂,
        record {
          inv = t.inv;
          store = t.store ∙ same;
          cell = t.cell;
          others = λ j n. t.others j n ∙ rest j n;
        },
      )

  -- A claim on a row succeeds exactly if the row may be claimed, and then changes the flags of
  -- this row alone; otherwise nothing changes.
  abbrev pub Claims :
      (Cell → Bool) → (Flags → Flags) → DiffTable A → ℕ → Cell → Bool × DiffTable A → Type ℓ
  Claims may g d id c r =
      (r.0 ≡ may c) × (if may c then Turns d id (record c { flags = g c.flags }) r.1 else (r.1 ≡ d))

  -- `TryClaimDel` of a stored row succeeds exactly if the row is not in the overdeletion set and
  -- its nonrecursive counter is not positive; then it sets `kDel`, `kDelNow` and `kTouched` of
  -- that row alone and keeps the invariant, and else it leaves the table as it is.
  pub try_claim_del-Claims :
      (d : DiffTable A) (id : ℕ) (c : Cell)
      → Inv d
      → get_elem? d.cells id ≡ some c
      → Returns (try_claim_del id d) (
          Claims may_claim_del
            (λ f. record f { del = true; del_now = true; touched = true })
            d
            id
            c)
  unfolding try_claim_del cell_at may_claim_del claimed_del
  try_claim_del-Claims d id c v e = elim (Bool-cases (c.flags.del || is_pos (count_nr c.count))) [
    | inl t ↦ ((false, d), rw (e, t) refl, rw t (refl, refl))
    | inr f ↦
        let (d₁, d₂, run₁, run₂, turns) =
          touch_set-Turns claimed_del d id c (λ _. (refl, refl)) v e in
        ((true, d₂), rw (e, f, run₁, run₂) refl, rw f (refl, turns))
  ]

  -- `TryClaimAdd` of a stored row succeeds exactly if the row is not in the addition set and its
  -- counters add up to more than zero; then it sets `kAdd`, `kAddNow` and `kTouched` of that row
  -- alone and keeps the invariant, and else it leaves the table as it is.
  pub try_claim_add-Claims :
      (d : DiffTable A) (id : ℕ) (c : Cell)
      → Inv d
      → get_elem? d.cells id ≡ some c
      → Returns (try_claim_add id d) (
          Claims may_claim_add
            (λ f. record f { add = true; add_now = true; touched = true })
            d
            id
            c)
  unfolding try_claim_add cell_at may_claim_add claimed_add total
  try_claim_add-Claims d id c v e =
      elim (Bool-cases (c.flags.add || not (is_pos (total c.count)))) [
        | inl t ↦ ((false, d), rw (e, t) refl, rw (de_morgan _ _ t) (refl, refl))
        | inr f ↦
            let (d₁, d₂, run₁, run₂, turns) =
              touch_set-Turns claimed_add d id c (λ _. (refl, refl)) v e in
            ((true, d₂), rw (e, f, run₁, run₂) refl, rw (de_morgan' _ _ f) (refl, turns))
      ]

  retire-Turns :
      (g : Flags → Flags) (d : DiffTable A) (id : ℕ) (c : Cell)
      → IsScratch g
      → (IsSettled c → g c.flags ≡ c.flags)
      → Inv d
      → get_elem? d.cells id ≡ some c
      → Returns (set_flags g id d) (Turns d id (record c { flags = g c.flags }))
  unfolding set_flags cell_at
  retire-Turns g d id c k idle v e = elim (Bool-cases c.flags.touched) [
    | inl t ↦ set_flags-Turns g d id c k v e t
    | inr f ↦
        let same : record c { flags = g c.flags } ≡ c =
          (λ i. record c { flags = idle (v.settled id c e f) i }) in
        (
          d,
          rw (e, same, set_same d.cells id c e) refl,
          record { inv = v; store = refl; cell = rw same e; others = λ j _. refl },
        )
  ]

  -- `RetireDel` of a stored row clears `kDelNow` of that row alone and keeps the invariant,
  -- whether or not the row was touched in this batch.
  pub retire_del-Turns :
      (d : DiffTable A) (id : ℕ) (c : Cell)
      → Inv d
      → get_elem? d.cells id ≡ some c
      → Returns
          (retire_del id d)
          (Turns d id (record c { flags = record c.flags { del_now = false } }))
  unfolding retire_del
  retire_del-Turns d id c v e =
      retire-Turns (λ f. record f { del_now = false }) d id c (λ _. (refl, refl))
        (λ st. ground (arith, st.del_now)) v e

  pub retire_add-Turns :
      (d : DiffTable A) (id : ℕ) (c : Cell)
      → Inv d
      → get_elem? d.cells id ≡ some c
      → Returns
          (retire_add id d)
          (Turns d id (record c { flags = record c.flags { add_now = false } }))
  unfolding retire_add
  retire_add-Turns d id c v e =
      retire-Turns (λ f. record f { add_now = false }) d id c (λ _. (refl, refl))
        (λ st. ground (arith, st.add_now)) v e
