-- ===== src/Runtime/DiffTable/Reach.antt =====
-- The states of a DiffTable that its operations lead to, in any order and over any batches.
use dr_lojekyll.Prelude.Int.{pos, negsuc}
use dr_lojekyll.Prelude.{
  ℕ, ◌<◌, ◌≡◌, Bool, true, some, Bool-cases, refl, inl, inr, arith, length, get_elem?,
  get_elem?_of_lt,
}
use dr_lojekyll.Runtime.Counters.{DerivClass}
use dr_lojekyll.Runtime.DiffTable.Claims.{
  Claims, may_claim_del, may_claim_add, try_claim_del-Claims, try_claim_add-Claims,
  retire_del-Turns, retire_add-Turns,
}
use dr_lojekyll.Runtime.DiffTable.Commit.Loop.{num_in_i}
use dr_lojekyll.Runtime.DiffTable.Commit.{commit}
use dr_lojekyll.Runtime.DiffTable.View.{view}
use dr_lojekyll.Runtime.DiffTable.Explicit.{
  AddsExplicit, SubsExplicit, add_explicit-AddsExplicit, sub_explicit-SubsExplicit,
}
use dr_lojekyll.Runtime.DiffTable.Invariant.{Inv}
use dr_lojekyll.Runtime.DiffTable.Rows.{fold-Derives}
use dr_lojekyll.Runtime.DiffTable.Seals.{commit-Seals}
use dr_lojekyll.Runtime.DiffTable.{
  Cell, DiffTable, Delta, empty_table, add_derivation, sub_derivation, add_explicit, sub_explicit,
  try_claim_del, try_claim_add, retire_del, retire_add,
}
use dr_lojekyll.Runtime.Flags.{Flags}
use dr_lojekyll.Runtime.Hashed.{Hashed}
use dr_lojekyll.Runtime.RowStore.Lookup.{empty_store-IsValid}
use dr_lojekyll.Runtime.Run.{Run, ok, abort, lost, ◌>>=◌, Keeps}

-- What is kept by an operation holds of the result that it returns.
pub Keeps-ok {ℓ κ} : {A : Type ℓ} (P : A → Type κ) (r : Run A) (a : A) → Keeps r P → r ≡ ok a → P a
Keeps-ok P (ok b) a (inl e) q = cc
Keeps-ok P abort a k q = cc
Keeps-ok P lost a k q = cc
Keeps-ok P (ok b) a (inr (c, e, p)) q = let s : a ≡ c = cc in rw s p

Keeps-map {ℓ κ μ} :
    {A : Type ℓ} {B : Type ℓ} {P : A → Type κ} {Q : B → Type μ} (r : Run A) (g : A → B)
    → Keeps r P
    → ((a : A) → P a → Q (g a))
    → Keeps (r >>= λ a. ok (g a)) Q
Keeps-map r g (inl e) f = inl (rw e refl)
Keeps-map r g (inr (a, e, p)) f = inr (g a, rw e refl, f a p)

-- The calls that generated code makes on a table.
pub data Op {ℓ} (A : Type ℓ) : Type ℓ where
  derive underive : A → DerivClass → Op A
  support unsupport : A → Op A
  claim_del claim_add drop_del drop_add : ℕ → Op A
  seal : Op A

module _ {ℓ} {A : Type ℓ} ⦃h : Hashed A⦄ where
  -- A call, with its result forgotten.
  unfoldable pub apply : Op A → DiffTable A → Run (DiffTable A)
  apply (derive row cls) d = add_derivation row cls d >>= λ r. ok r.1
  apply (underive row cls) d = sub_derivation row cls d >>= λ r. ok r.1
  apply (support row) d = add_explicit row d >>= λ r. ok r.1
  apply (unsupport row) d = sub_explicit row d >>= λ r. ok r.1
  apply (claim_del id) d = try_claim_del id d >>= λ r. ok r.1
  apply (claim_add id) d = try_claim_add id d >>= λ r. ok r.1
  apply (drop_del id) d = retire_del id d
  apply (drop_add id) d = retire_add id d
  apply seal d = commit d >>= λ r. ok r.0

  -- Claims and retirements are of rows that are stored.
  abbrev pub IsEnabled : Op A → DiffTable A → Type 0
  IsEnabled (claim_del id) d = id < length d.store.rows
  IsEnabled (claim_add id) d = id < length d.store.rows
  IsEnabled (drop_del id) d = id < length d.store.rows
  IsEnabled (drop_add id) d = id < length d.store.rows
  IsEnabled _ d = Unit {0}

  cell_of :
      (d : DiffTable A) (id : ℕ)
      → Inv d
      → id < length d.store.rows
      → (c : Cell) × (get_elem? d.cells id ≡ some c)
  cell_of d id v lt = get_elem?_of_lt d.cells id (rw v.parallel lt)

  Claims-Inv :
      (may : Cell → Bool) (g : Flags → Flags) (d : DiffTable A) (id : ℕ) (c : Cell)
      (r : Bool × DiffTable A)
      → Inv d
      → Claims may g d id c r
      → Inv r.1
  Claims-Inv may g d id c r v (_, e) = elim (Bool-cases (may c)) [
    | inl t ↦ let turns = rw t at e in turns.inv
    | inr f ↦ let same = rw f at e in rw same v
  ]

  adds-Inv : (d : DiffTable A) (row : A) (r : Delta × DiffTable A) → AddsExplicit d row r → Inv r.1
  adds-Inv d row r p = elim (Bool-cases (view d row).flags.explicit) [
    | inl t ↦ let u = rw t at p.effect in u.inv
    | inr f ↦ let u = rw f at p.effect in u.inv
  ]

  subs-Inv :
      (d : DiffTable A) (row : A) (r : Delta × DiffTable A) → Inv d → SubsExplicit d row r → Inv r.1
  subs-Inv d row r v p = elim (Bool-cases (view d row).flags.explicit) [
    | inl t ↦ let u = rw t at p.effect in u.inv
    | inr f ↦ let u = rw f at p.effect in rw u.0 v
  ]

  apply-Inv : (op : Op A) (d : DiffTable A) → Inv d → IsEnabled op d → Keeps (apply op d) Inv
  unfolding apply add_derivation sub_derivation
  apply-Inv (derive row cls) d v _ =
      Keeps-map _ (λ r. r.1) (fold-Derives d row cls (pos 1) v (omega arith)) (λ a p. p.folds.inv)
  apply-Inv (underive row cls) d v _ =
      Keeps-map _ (λ r. r.1) (fold-Derives d row cls (negsuc 0) v (omega arith))
        (λ a p. p.folds.inv)
  apply-Inv (support row) d v _ =
      Keeps-map _ (λ r. r.1) (add_explicit-AddsExplicit d row v) (adds-Inv d row)
  apply-Inv (unsupport row) d v _ =
      Keeps-map _ (λ r. r.1) (sub_explicit-SubsExplicit d row v) (λ r p. subs-Inv d row r v p)
  apply-Inv (claim_del id) d v lt =
      let (c, e) = cell_of d id v lt in
      Keeps-map _ (λ r. r.1) (inr (try_claim_del-Claims d id c v e))
        (λ r p.
          Claims-Inv may_claim_del (λ f. record f { del = true; del_now = true; touched = true }) d
            id c r v p)
  apply-Inv (claim_add id) d v lt =
      let (c, e) = cell_of d id v lt in
      Keeps-map _ (λ r. r.1) (inr (try_claim_add-Claims d id c v e))
        (λ r p.
          Claims-Inv may_claim_add (λ f. record f { add = true; add_now = true; touched = true }) d
            id c r v p)
  apply-Inv (drop_del id) d v lt =
      let (c, e) = cell_of d id v lt in
      let (d', run, t) = retire_del-Turns d id c v e in inr (d', run, t.inv)
  apply-Inv (drop_add id) d v lt =
      let (c, e) = cell_of d id v lt in
      let (d', run, t) = retire_add-Turns d id c v e in inr (d', run, t.inv)
  apply-Inv seal d v _ = Keeps-map _ (λ r. r.0) (inr (commit-Seals d v)) (λ a p. p.inv)

  -- The tables that a program can meet.
  pub data Reach : DiffTable A → Type ℓ where
    start : (d : DiffTable A) → d ≡ empty_table → Reach d
    next :
        (op : Op A) (d d' : DiffTable A) → Reach d → IsEnabled op d → apply op d ≡ ok d' → Reach d'

  pub empty_table-Inv : Inv {A = A} empty_table
  unfolding num_in_i
  empty_table-Inv = record {
    valid = empty_store-IsValid;
    parallel = refl;
    ranges = λ id c e. cc;
    settled = λ id c e. cc;
    listed = λ id c e. cc;
    below = tt;
    live = refl;
  }

  pub Reach-Inv : (d : DiffTable A) → Reach d → Inv d
  Reach-Inv d (start _ e) = rw e empty_table-Inv
  Reach-Inv d (next op d₀ _ r k e) =
      Keeps-ok Inv (apply op d₀) d (apply-Inv op d₀ (Reach-Inv d₀ r) k) e

  -- From every table that a history of calls leads to, each next call (derivations, explicit
  -- support, claims, retirements of stored rows, `Commit`) either aborts the process or returns
  -- a table that satisfies the invariant; no probe walk is endless and no access is outside an
  -- array.
  pub apply-Reach :
      (op : Op A) (d : DiffTable A) → Reach d → IsEnabled op d → Keeps (apply op d) Inv
  apply-Reach op d r k = apply-Inv op d (Reach-Inv d r) k
