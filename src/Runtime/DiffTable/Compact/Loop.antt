-- ===== src/Runtime/DiffTable/Compact/Loop.antt =====
-- The first loop of CompactRowsInPlace, as CompactDead calls it.
use mathlib.Core.List.{append-nil, append_assoc}
use dr_lojekyll.Prelude.{
  ℕ, suc, ◌+◌, ◌≤◌, ◌≡◌, refl, sym, ◌∙◌, inl, inr, true, false, not, some, List, [], ◌∷◌, ◌++◌,
  arith, length, get_elem?, take, Bool-cases,
}
use dr_lojekyll.Runtime.DiffTable.Compact.Kept.{kept, drop, drop_here, drop_next, move_lem}
use dr_lojekyll.Runtime.DiffTable.Compact.{is_dead}
use dr_lojekyll.Runtime.DiffTable.{Cell, is_present}
use dr_lojekyll.Runtime.RowStore.{RowStore, compact_loop, move}

is_dead_at :
    (side : List Cell) (r : ℕ) (c : Cell)
    → get_elem? side r ≡ some c
    → is_dead side r ≡ not (is_present c)
unfolding is_dead
is_dead_at side r c e = rw (is_dead, e) refl

module _ {ℓ} {A : Type ℓ} where
  -- Where the loop ends: the prefix has grown by the rows that are kept, in each array alike.
  pub record Compacts (w : ℕ) (s : RowStore A) (side cs : List Cell) (rs : List A) (hs : List ℕ)
      (r : ℕ × RowStore A × List Cell) : Type ℓ where
    pub count : r.0 ≡ w + length (kept cs cs)
    pub rows : take r.0 r.1.rows ≡ take w s.rows ++ kept cs rs
    pub hashes : take r.0 r.1.hashes ≡ take w s.hashes ++ kept cs hs
    pub cells : take r.0 r.2 ≡ take w side ++ kept cs cs
    pub slots : r.1.slots ≡ s.slots

  loop_skip :
      (n r w : ℕ) (s : RowStore A) (side : List Cell)
      → is_dead side r ≡ true
      → compact_loop is_dead move (suc n) r w s side ≡ compact_loop is_dead move n (suc r) w s side
  unfolding compact_loop
  loop_skip n r w s side e = rw (compact_loop, e) refl

  loop_keep :
      (n r w : ℕ) (s : RowStore A) (side : List Cell)
      → is_dead side r ≡ false
      → compact_loop is_dead move (suc n) r w s side
        ≡ compact_loop is_dead move n
            (suc r)
            (suc w)
            (record s { rows = move r w s.rows; hashes = move r w s.hashes })
            (move r w side)
  unfolding compact_loop
  loop_keep n r w s side e = rw (compact_loop, e) refl

  pub compact_loop-Compacts :
      (cells : List Cell) (rows : List A) (hashes : List ℕ) (r w : ℕ) (s : RowStore A)
      (side : List Cell)
      → w ≤ r
      → drop r side ≡ cells
      → drop r s.rows ≡ rows
      → drop r s.hashes ≡ hashes
      → length rows ≡ length cells
      → length hashes ≡ length cells
      → Compacts w s side cells rows hashes (compact_loop is_dead move (length cells) r w s side)
  unfolding compact_loop
  compact_loop-Compacts [] rows hashes r w s side le dc dr dh lr lh = record {
    count = omega arith;
    rows = sym (append-nil (take w s.rows));
    hashes = sym (append-nil (take w s.hashes));
    cells = sym (append-nil (take w side));
    slots = refl;
  }
  compact_loop-Compacts (c ∷ cells) [] hashes r w s side le dc dr dh lr lh =
      absurd (omega (arith, lr))
  compact_loop-Compacts (c ∷ cells) (a ∷ rows) [] r w s side le dc dr dh lr lh =
      absurd (omega (arith, lh))
  compact_loop-Compacts (c ∷ cells) (a ∷ rows) (x ∷ hashes) r w s side le dc dr dh lr lh =
      let dead = is_dead_at side r c (drop_here r side cells c dc) in
      let lr' : length rows ≡ length cells = omega (arith, lr) in
      let lh' : length hashes ≡ length cells = omega (arith, lh) in
      elim (Bool-cases (is_present c)) [
        | inr gone ↦
            let out =
              compact_loop-Compacts cells rows hashes (suc r) w s side (omega arith)
                (drop_next r side cells c dc) (drop_next r s.rows rows a dr)
                (drop_next r s.hashes hashes x dh) lr' lh' in
            let dead' : is_dead side r ≡ true = rw (dead, gone) refl in
            rw (loop_skip (length cells) r w s side dead') (record {
              count = rw gone out.count;
              rows = rw gone out.rows;
              hashes = rw gone out.hashes;
              cells = rw gone out.cells;
              slots = out.slots;
            })
        | inl live ↦
            let mr = move_lem r w s.rows rows a le dr in
            let mh = move_lem r w s.hashes hashes x le dh in
            let mc = move_lem r w side cells c le dc in
            let s₁ : RowStore A = record s { rows = move r w s.rows; hashes = move r w s.hashes } in
            let out =
              compact_loop-Compacts cells rows hashes (suc r) (suc w) s₁ (move r w side)
                (omega arith) mc.1 mr.1 mh.1 lr' lh' in
            let dead' : is_dead side r ≡ false = rw (dead, live) refl in
            rw (loop_keep (length cells) r w s side dead') (record {
              count = rw live (omega (arith, out.count));
              rows =
                  rw live
                    (out.rows ∙ rw mr.0 (append_assoc (take w s.rows) (a ∷ []) (kept cells rows)));
              hashes = rw live (
                  out.hashes
                  ∙ rw mh.0 (append_assoc (take w s.hashes) (x ∷ []) (kept cells hashes)));
              cells =
                  rw live
                    (out.cells ∙ rw mc.0 (append_assoc (take w side) (c ∷ []) (kept cells cells)));
              slots = out.slots;
            })
      ]
