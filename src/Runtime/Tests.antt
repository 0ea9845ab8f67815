-- ===== src/Runtime/Tests.antt =====
-- Runs of the models of include/drlojekyll/Runtime on small inputs.
use dr_lojekyll.Prelude.Int.{ℤ, sub_ℕ, pos_part, neg_part, pos, negsuc, ◌+ℤ◌}
use dr_lojekyll.Prelude.{
  ℕ, zero, suc, some, get_elem?, ◌≡◌, refl, inl, Bool, true, false, [], ◌∷◌, arith, ◌==◌, List, not,
  ◌&&◌, if◌then◌else◌, length,
}
use dr_lojekyll.Runtime.Counters.{
  non_recursive, recursive, count_nr, count_r, pack, total, at_limit, count-pack,
}
use dr_lojekyll.Runtime.DiffTable.Claims.{
  Claims, may_claim_del, may_claim_add, try_claim_del-Claims, try_claim_add-Claims,
  retire_del-Turns,
}
use dr_lojekyll.Runtime.DiffTable.Commit.{
  commit, commit_loop, commit_one, publish, count_live, seal_cell, differs,
}
use dr_lojekyll.Runtime.DiffTable.Explicit.{
  AddsExplicit, SubsExplicit, add_explicit-AddsExplicit, sub_explicit-SubsExplicit,
}
use dr_lojekyll.Runtime.DiffTable.Fold.{Turns}
use dr_lojekyll.Runtime.DiffTable.Invariant.{Inv}
use dr_lojekyll.Runtime.DiffTable.Reach.{
  derive, underive, support, claim_del, seal, apply, Reach, start, next, Reach-Inv, apply-Reach,
}
use dr_lojekyll.Runtime.DiffTable.Rows.{Derives, fold-Derives}
use dr_lojekyll.Runtime.DiffTable.Seals.{Seals, commit-Seals}
use dr_lojekyll.Runtime.DiffTable.{
  Cell, DiffTable, empty_table, is_present, folded, target, crosses, cell_at, grow_to, touch,
  set_flags, fold_at, try_claim_del, try_claim_add, retire_del, retire_add, fold, add_derivation,
  sub_derivation, add_explicit, sub_explicit,
}
use dr_lojekyll.Runtime.Flags.{no_flags, claimed_del, claimed_add, sealed_flags}
use dr_lojekyll.Runtime.Hashed.{Hashed}
use dr_lojekyll.Runtime.IdSlots.Find.{IsLinked, insert_slot-IsLinked}
use dr_lojekyll.Runtime.IdSlots.{
  no_id, is_free, find_id, place, link_from, grown, rehash, insert_slot,
}
use dr_lojekyll.Runtime.DiffTable.Compact.Dense.{Dense, compact_rows_in_place-Dense}
use dr_lojekyll.Runtime.DiffTable.Compact.{compact_dead, is_dead, num_dead, needs_compaction}
use dr_lojekyll.Runtime.Index.{
  empty_index, is_unused, relink, make_room, next_of, clear, chain, is_slot_of, first,
  find_or_create_slot, add, rows_of,
}
use dr_lojekyll.Runtime.Members.{occurs, occurrences}
use dr_lojekyll.Runtime.MonotoneTable.Batch.{Batched, try_add_all-Batched}
use dr_lojekyll.Runtime.MonotoneTable.{
  Table, table_in_i, table_net_added, seal_table, try_add, try_add_all,
}
use dr_lojekyll.Runtime.NetBatch.Annihilation.{net_batch-occurrences}
use dr_lojekyll.Runtime.NetBatch.{fold_mark, mark_all, marked, net_batch}
use dr_lojekyll.Runtime.Probe.Cases.{Stops, probe_from-Stops}
use dr_lojekyll.Runtime.Probe.{wrap, probe, probe_from}
use dr_lojekyll.Runtime.RowStore.Add.{Adds, find_or_add-Adds}
use dr_lojekyll.Runtime.RowStore.Lookup.{or_no_id, position, find-position}
use dr_lojekyll.Runtime.RowStore.{
  move, compact_loop, compact_rows_in_place, num_rows, row_hit, find_with_hash, find, add_row,
  find_or_add,
}
use dr_lojekyll.Runtime.StateCell.Epoch.{AllFit}
use dr_lojekyll.Runtime.StateCell.Policies.{Algebra, Member, invertible, fold_member, recompute}
use dr_lojekyll.Runtime.StateCell.Seals.{IsSealed, AtRest, Epoch, fold_all-Epoch}
use dr_lojekyll.Runtime.StateCell.{
  Group, StateCellStore, fits, working_occupied, group_at, touch_group, fresh_group, fold_group,
  emit_group, old_group, sealed_group, seal_loop, seal_groups, fold_all, find_or_add_group,
}
use dr_lojekyll.Runtime.Run.{Run, ok, abort, lost, ◌>>=◌, Returns, Keeps}

instance abbrev nat_hashed : Hashed ℕ
nat_hashed = record {
  hash = λ a. a;
  equal = λ a b. a == b;
  equal_refl = ground arith;
  equal_symm = ground arith;
  equal_trans = ground arith;
  hash-equal = ground arith;
}

program : Unit {0}
unfolding count_nr count_r pack total at_limit ◌+ℤ◌ claimed_del claimed_add sealed_flags find_id
    place link_from grown rehash insert_slot wrap probe probe_from num_rows row_hit find_with_hash
    find add_row find_or_add is_present folded target crosses cell_at grow_to touch set_flags
    fold_at try_claim_del try_claim_add retire_del retire_add fold add_derivation sub_derivation
    add_explicit sub_explicit commit commit_loop commit_one publish count_live seal_cell differs
    apply fold_mark mark_all marked net_batch table_in_i table_net_added seal_table try_add
    try_add_all occurs occurrences invertible fits working_occupied group_at touch_group fresh_group
    fold_group emit_group old_group sealed_group seal_loop seal_groups fold_all move compact_loop
    compact_rows_in_place is_dead num_dead needs_compaction is_unused relink make_room next_of clear
    chain is_slot_of first find_or_create_slot add rows_of compact_dead find_or_add_group
    fold_member recompute
program = tt

abbrev or_empty : Run (DiffTable ℕ) → DiffTable ℕ
or_empty (ok d) = d
or_empty abort = empty_table
or_empty lost = empty_table

abbrev derived : DiffTable ℕ
derived = or_empty (apply (derive 5 non_recursive) empty_table)

derived-Reach : Reach derived
unfolding program
derived-Reach = next (derive 5 non_recursive) empty_table derived (start empty_table refl) tt refl

derived_publishes :
    commit derived
    ≡ ok (
      record derived {
        cells = record { count = 1; flags = record no_flags { in_i = true } } ∷ [];
        touched = [];
        num_live = 1;
      },
      (5, true) ∷ [],
    )
unfolding program
derived_publishes = refl

-- A second batch withdraws the row, and puts it into the overdeletion set.
abbrev sealed : DiffTable ℕ
sealed = or_empty (apply seal derived)

abbrev withdrawn : DiffTable ℕ
withdrawn = or_empty (apply (underive 5 non_recursive) sealed)

abbrev claimed : DiffTable ℕ
claimed = or_empty (apply (claim_del 0) withdrawn)

abbrev supported : DiffTable ℕ
supported = or_empty (apply (support 5) sealed)

sealed-Reach : Reach sealed
unfolding program
sealed-Reach = next seal derived sealed derived-Reach tt refl

withdrawn-Reach : Reach withdrawn
unfolding program
withdrawn-Reach = next (underive 5 non_recursive) sealed withdrawn sealed-Reach tt refl

claimed-Reach : Reach claimed
unfolding program
claimed-Reach = next (claim_del 0) withdrawn claimed withdrawn-Reach (omega arith) refl

supported-Reach : Reach supported
unfolding program
supported-Reach = next (support 5) sealed supported sealed-Reach tt refl

-- Withdrawing the last nonrecursive derivation of a row that was present crosses.
abbrev withdrawal : Run (Bool × Bool × ℕ)
withdrawal = do (r, _) ← sub_derivation 5 non_recursive sealed; ok (r.crossed, r.added_row, r.id)

withdrawn_crosses : withdrawal ≡ ok (true, false, 0)
unfolding program
withdrawn_crosses = refl

abbrev withdrawn_cell : Cell
withdrawn_cell = record { count = 0; flags = record no_flags { in_i = true; touched = true } }

abbrev claimed_cell : Cell
claimed_cell = record {
  count = 0;
  flags = record no_flags { in_i = true; touched = true; del = true; del_now = true };
}

commit-Seals_example : Returns (commit claimed) (Seals claimed)
commit-Seals_example = commit-Seals claimed (Reach-Inv claimed claimed-Reach)

apply-Reach_example : Keeps (apply (support 5) sealed) Inv
apply-Reach_example = apply-Reach (support 5) sealed sealed-Reach tt

fold-Derives_example :
    Keeps (fold 5 recursive (negsuc 0) sealed) (Derives sealed 5 recursive (negsuc 0))
fold-Derives_example =
    fold-Derives sealed 5 recursive (negsuc 0) (Reach-Inv sealed sealed-Reach) (omega arith)

find_or_add-Adds_example :
    Adds derived.store 7 (position 7 derived.store.rows) (find_or_add derived.store 7)
find_or_add-Adds_example = find_or_add-Adds derived.store 7 (Reach-Inv derived derived-Reach).valid

find-position_example : find derived.store 5 ≡ ok (or_no_id (position 5 derived.store.rows))
find-position_example = find-position derived.store 5 (Reach-Inv derived derived-Reach).valid

add_explicit-AddsExplicit_example : Keeps (add_explicit 5 supported) (AddsExplicit supported 5)
add_explicit-AddsExplicit_example =
    add_explicit-AddsExplicit supported 5 (Reach-Inv supported supported-Reach)

sub_explicit-SubsExplicit_example : Keeps (sub_explicit 5 supported) (SubsExplicit supported 5)
sub_explicit-SubsExplicit_example =
    sub_explicit-SubsExplicit supported 5 (Reach-Inv supported supported-Reach)

try_claim_del-Claims_example : Returns (try_claim_del 0 withdrawn) (
    Claims may_claim_del
      (λ f. record f { del = true; del_now = true; touched = true })
      withdrawn
      0
      withdrawn_cell)
unfolding program
try_claim_del-Claims_example =
    try_claim_del-Claims withdrawn 0 withdrawn_cell (Reach-Inv withdrawn withdrawn-Reach) refl

try_claim_add-Claims_example : Returns (try_claim_add 0 withdrawn) (
    Claims may_claim_add
      (λ f. record f { add = true; add_now = true; touched = true })
      withdrawn
      0
      withdrawn_cell)
unfolding program
try_claim_add-Claims_example =
    try_claim_add-Claims withdrawn 0 withdrawn_cell (Reach-Inv withdrawn withdrawn-Reach) refl

retire_del-Turns_example : Returns (retire_del 0 claimed) (
    Turns claimed 0 (record claimed_cell { flags = record claimed_cell.flags { del_now = false } }))
unfolding program
retire_del-Turns_example =
    retire_del-Turns claimed 0 claimed_cell (Reach-Inv claimed claimed-Reach) refl

count-pack_example :
    (count_nr (pack (negsuc 2) (pos 7)) ≡ negsuc 2) × (count_r (pack (negsuc 2) (pos 7)) ≡ pos 7)
count-pack_example =
    count-pack (negsuc 2) (pos 7) (omega arith, omega arith) (omega arith, omega arith)

insert_slot-IsLinked_example : Returns (insert_slot (9 ∷ []) [] 0 9) (IsLinked (9 ∷ []))
insert_slot-IsLinked_example = insert_slot-IsLinked [] [] 9 (inl (refl, refl)) (omega arith)

-- The walk from hash 3 passes two slots, and comes around to the first.
probe_from-Stops_example :
    Stops is_free (no_id ∷ 1 ∷ 2 ∷ 3 ∷ []) 2 4 (probe_from is_free (no_id ∷ 1 ∷ 2 ∷ 3 ∷ []) 2)
probe_from-Stops_example = probe_from-Stops is_free (no_id ∷ 1 ∷ 2 ∷ 3 ∷ []) (2, refl) 2 0 refl refl

-- A removal that is repeated does not outvote an addition.
nets_repeated : net_batch {A = ℕ} (5 ∷ []) (5 ∷ 5 ∷ []) ≡ ([], [])
unfolding program
nets_repeated = refl

nets_mixed : net_batch {A = ℕ} (5 ∷ 6 ∷ 5 ∷ []) (7 ∷ 6 ∷ 7 ∷ []) ≡ (5 ∷ [], 7 ∷ [])
unfolding program
nets_mixed = refl

net_batch-occurrences_example :
    (occurrences {A = ℕ} 5 (net_batch {A = ℕ} (5 ∷ []) (5 ∷ 5 ∷ [])).0
      ≡ (if occurs {A = ℕ} 5 (5 ∷ []) && not (occurs {A = ℕ} 5 (5 ∷ 5 ∷ [])) then 1 else 0))
    × (occurrences {A = ℕ} 5 (net_batch {A = ℕ} (5 ∷ []) (5 ∷ 5 ∷ [])).1
        ≡ (if occurs {A = ℕ} 5 (5 ∷ 5 ∷ []) && not (occurs {A = ℕ} 5 (5 ∷ [])) then 1 else 0))
net_batch-occurrences_example = net_batch-occurrences 5 (5 ∷ []) (5 ∷ 5 ∷ [])

abbrev one_row : Table ℕ
one_row = record { store = derived.store; sealed = 0 }

abbrev batch : Run (Bool × Bool × List ℕ)
batch = do
  t ← try_add_all (5 ∷ 8 ∷ 8 ∷ []) (seal_table one_row)
  ok (table_in_i t 0, table_net_added t 1, t.store.rows)

batch_reads : batch ≡ ok (true, true, 5 ∷ 8 ∷ [])
unfolding program
batch_reads = refl

try_add_all-Batched_example :
    Keeps (try_add_all (5 ∷ 8 ∷ 8 ∷ []) (seal_table one_row)) (Batched one_row (5 ∷ 8 ∷ 8 ∷ []))
try_add_all-Batched_example =
    try_add_all-Batched (5 ∷ 8 ∷ 8 ∷ []) one_row (Reach-Inv derived derived-Reach).valid

-- A sum over integers, and a store of one group.
abbrev opposite : ℤ → ℤ
opposite z = sub_ℕ (neg_part z) (pos_part z)

abbrev sum : Algebra ℤ ℤ
sum = invertible (record {
  identity = pos 0;
  combine = λ w v. w +ℤ v;
  uncombine = λ w v. w +ℤ opposite v;
  finalize = λ w. w;
})

abbrev one_group : StateCellStore ℕ ℤ ℤ
one_group = record { keys = derived.store; groups = fresh_group sum ∷ []; touched = [] }

abbrev folds : List (ℕ × ℤ × ℤ)
folds = (0, pos 1, pos 3) ∷ (0, negsuc 0, pos 3) ∷ (0, pos 1, pos 4) ∷ []

fresh_group-IsSealed : IsSealed sum (fresh_group sum)
unfolding program
fresh_group-IsSealed = record { sealed = refl; occupied = refl; touched = refl }

one_group-AtRest : AtRest sum one_group
unfolding program
one_group-AtRest = record { idle = refl; sealed = only }
  where
    only :
        (gid : ℕ) (g : Group ℤ ℤ) → get_elem? (fresh_group sum ∷ []) gid ≡ some g → IsSealed sum g
    only zero g e = let q : fresh_group sum ≡ g = cc in rw (← q) fresh_group-IsSealed
    only (suc gid) g e = cc

folds-AllFit : AllFit sum folds one_group.groups
unfolding program
folds-AllFit = (_, refl, refl, (_, refl, refl, (_, refl, refl, tt)))

abbrev values : Run (ℤ × ℤ × ℤ)
values = do
  s₁ ← fold_all sum folds one_group
  now ← emit_group sum 0 s₁
  before ← old_group sum 0 s₁
  s₂ ← seal_groups sum s₁
  after ← old_group sum 0 s₂
  ok (now, before, after)

values_move : values ≡ ok (pos 4, pos 0, pos 4)
unfolding program
values_move = refl

fold_all-Epoch_example :
    (s₁ s₂ : StateCellStore ℕ ℤ ℤ) × (fold_all sum folds one_group ≡ ok s₁)
    × (seal_groups sum s₁ ≡ ok s₂)
    × Epoch sum folds one_group s₁ s₂
fold_all-Epoch_example = fold_all-Epoch sum folds one_group one_group-AtRest folds-AllFit

-- Row 5 is withdrawn and sealed, row 7 lives: compaction drops the first, and gives its id away.
abbrev mixed : DiffTable ℕ
mixed = or_empty (apply (derive 7 non_recursive) withdrawn)

abbrev one_dead : DiffTable ℕ
one_dead = or_empty (apply seal mixed)

one_dead-Reach : Reach one_dead
unfolding program
one_dead-Reach =
    next seal mixed one_dead (next (derive 7 non_recursive) withdrawn mixed withdrawn-Reach tt refl)
      tt refl

compact_rows_in_place-Dense_example :
    Returns (compact_rows_in_place is_dead move one_dead.store one_dead.cells) (Dense one_dead)
compact_rows_in_place-Dense_example =
    compact_rows_in_place-Dense one_dead (Reach-Inv one_dead one_dead-Reach)

abbrev compacted : Run (ℕ × List ℕ × ℕ × ℕ)
compacted = do
  (w, store, cells) ← compact_rows_in_place is_dead move one_dead.store one_dead.cells
  five ← find store 5
  seven ← find store 7
  ok (w, store.rows, five, seven)

compacts : compacted ≡ ok (1, 7 ∷ [], no_id, 0)
unfolding program
compacts = refl

-- One dead row is below the floor.
no_need : (num_dead one_dead ≡ 1) × (needs_compaction one_dead ≡ false)
unfolding program
no_need = (refl, refl)

-- Two keys over four rows: a chain lists the latest row first.
abbrev indexed : Run (List ℕ × List ℕ × List ℕ)
indexed = do
  ix₁ ← add {K = ℕ} 10 0 empty_index
  ix₂ ← add {K = ℕ} 20 1 ix₁
  ix₃ ← add {K = ℕ} 10 2 ix₂
  ix ← add {K = ℕ} 10 3 ix₃
  tens ← rows_of {K = ℕ} 10 ix
  twenties ← rows_of {K = ℕ} 20 ix
  gone ← rows_of {K = ℕ} 10 (clear ix)
  ok (tens, twenties, gone)

chains : indexed ≡ ok (3 ∷ 2 ∷ 0 ∷ [], 1 ∷ [], [])
unfolding program
chains = refl

too_few_dead : compact_dead one_dead ≡ ok (false, one_dead)
unfolding program
too_few_dead = refl

abbrev new_group : Run (ℕ × ℕ × ℕ)
new_group = do
  (old, s₁) ← find_or_add_group sum 5 one_group
  (new, s₂) ← find_or_add_group sum 9 s₁
  ok (old, new, length s₂.groups)

new_group_last : new_group ≡ ok (0, 1, 2)
unfolding program
new_group_last = refl

-- A value that is retracted keeps its place, with multiplicity 0.
abbrev opaque : Algebra (List (Member ℕ)) ℕ
opaque = recompute (λ members. length members)

retracted :
    opaque.fold_value (opaque.fold_value opaque.identity (pos 1) 3) (negsuc 0) 3
    ≡ record { value = 3; count = pos 0 } ∷ []
unfolding program
retracted = refl
