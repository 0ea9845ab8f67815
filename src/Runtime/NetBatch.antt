-- ===== src/Runtime/NetBatch.antt =====
-- NetBatch of Runtime/Vec.h: the explicit additions of a batch against its explicit removals. The
-- parallel vectors `distinct` and `flags` are one list of marks here.
pub mod Annihilation
use dr_lojekyll.Prelude.{ℕ, List, [], ◌∷◌, bit_or, ◌==◌, if◌then◌else◌}
use dr_lojekyll.Runtime.Hashed.{Hashed, ◌=ᵏ◌}

-- A distinct row, with bit 0 set if it is in `adds` and bit 1 if it is in `removes`.
pub record Mark {ℓ} (A : Type ℓ) : Type ℓ where
  pub row : A
  pub flags : ℕ

module _ {ℓ} {A : Type ℓ} ⦃h : Hashed A⦄ where
  -- The closure `fold`.
  unfoldable pub fold_mark : A → ℕ → List (Mark A) → List (Mark A)
  fold_mark row flag [] = record { row = row; flags = flag } ∷ []
  fold_mark row flag (m ∷ marks) =
      if m.row =ᵏ row
      then record { row = m.row; flags = bit_or m.flags flag } ∷ marks
      else m ∷ fold_mark row flag marks

  unfoldable pub mark_all : ℕ → List A → List (Mark A) → List (Mark A)
  mark_all flag [] marks = marks
  mark_all flag (row ∷ rows) marks = mark_all flag rows (fold_mark row flag marks)

  -- The rows whose flags are `flag` alone.
  unfoldable pub marked : ℕ → List (Mark A) → List A
  marked flag [] = []
  marked flag (m ∷ marks) = if m.flags == flag then m.row ∷ marked flag marks else marked flag marks

  unfoldable pub net_batch : List A → List A → List A × List A
  net_batch adds removes =
      let marks = mark_all 2 removes (mark_all 1 adds []) in (marked 1 marks, marked 2 marks)
