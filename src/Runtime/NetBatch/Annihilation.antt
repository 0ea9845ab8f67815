-- ===== src/Runtime/NetBatch/Annihilation.antt =====
-- What NetBatch leaves of each row.
use native.Mathlib.Nat.{zero-add}
use dr_lojekyll.Prelude.{
  ℕ, ◌+◌, ◌≤◌, ◌≡◌, refl, ◌∙◌, inl, inr, Bool, false, not, ◌&&◌, List, [], ◌∷◌, arith, bit_or,
  Bool-cases, ◌==◌, if◌then◌else◌,
}
use dr_lojekyll.Runtime.Hashed.{Hashed, ◌=ᵏ◌, equal_congr}
use dr_lojekyll.Runtime.Members.{occurs, occurrences}
use dr_lojekyll.Runtime.NetBatch.{Mark, fold_mark, mark_all, marked, net_batch}

module _ {ℓ} {A : Type ℓ} ⦃h : Hashed A⦄ where
  mark_of : A → List (Mark A) → ℕ
  mark_of x [] = 0
  mark_of x (m ∷ marks) = if m.row =ᵏ x then m.flags else mark_of x marks

  entries : A → List (Mark A) → ℕ
  entries x [] = 0
  entries x (m ∷ marks) = (if m.row =ᵏ x then 1 else 0) + entries x marks

  mark_of-fold_mark :
      (x row : A) (flag : ℕ) (marks : List (Mark A))
      → bit_or 0 flag ≡ flag
      → mark_of x (fold_mark row flag marks)
        ≡ (if row =ᵏ x then bit_or (mark_of x marks) flag else mark_of x marks)
  unfolding mark_of fold_mark
  mark_of-fold_mark x row flag [] z = rw z refl
  mark_of-fold_mark x row flag (m ∷ marks) z = elim (Bool-cases (m.row =ᵏ row)) [
    | inl same ↦ elim (Bool-cases (row =ᵏ x)) [
      | inl t ↦ rw (same, equal_congr m.row row x same, t) refl
      | inr f ↦ rw (same, equal_congr m.row row x same, f) refl
    ]
    | inr other ↦ elim (Bool-cases (m.row =ᵏ x)) [
      | inr f ↦ rw (other, f) (mark_of-fold_mark x row flag marks z)
      | inl t ↦
          let n : (row =ᵏ x) ≡ false = rw (h.equal_symm row x, ← equal_congr m.row x row t) other in
          rw (other, t, n) refl
    ]
  ]

  entries-fold_mark_other :
      (x row : A) (flag : ℕ) (marks : List (Mark A))
      → (row =ᵏ x) ≡ false
      → entries x (fold_mark row flag marks) ≡ entries x marks
  unfolding entries fold_mark
  entries-fold_mark_other x row flag [] n = rw n refl
  entries-fold_mark_other x row flag (m ∷ marks) n = elim (Bool-cases (m.row =ᵏ row)) [
    | inl same ↦ rw same refl
    | inr other ↦ rw (other, entries-fold_mark_other x row flag marks n) refl
  ]

  -- A row has one entry at most.
  entries-fold_mark :
      (x row : A) (flag : ℕ) (marks : List (Mark A))
      → entries x marks ≤ 1
      → entries x (fold_mark row flag marks) ≤ 1
  unfolding entries fold_mark
  entries-fold_mark x row flag [] le = ground arith
  entries-fold_mark x row flag (m ∷ marks) le = elim (Bool-cases (m.row =ᵏ row)) [
    | inl same ↦ rw same le
    | inr other ↦ elim (Bool-cases (m.row =ᵏ x)) [
      | inr f ↦
          let le' = rw f at le in
          rw (other, f) (omega (arith, entries-fold_mark x row flag marks (omega (arith, le'))))
      | inl t ↦
          let n : (row =ᵏ x) ≡ false = rw (h.equal_symm row x, ← equal_congr m.row x row t) other in
          let le' = rw t at le in
          rw (other, t, entries-fold_mark_other x row flag marks n) (omega (arith, le'))
    ]
  ]

  entries-mark_all :
      (x : A) (flag : ℕ) (rows : List A) (marks : List (Mark A))
      → entries x marks ≤ 1
      → entries x (mark_all flag rows marks) ≤ 1
  unfolding mark_all
  entries-mark_all x flag [] marks le = le
  entries-mark_all x flag (row ∷ rows) marks le =
      entries-mark_all x flag rows (fold_mark row flag marks)
        (entries-fold_mark x row flag marks le)

  -- A flag is set once for all.
  mark_of-mark_all :
      (x : A) (flag : ℕ) (rows : List A) (marks : List (Mark A))
      → bit_or 0 flag ≡ flag
      → bit_or (bit_or (mark_of x marks) flag) flag ≡ bit_or (mark_of x marks) flag
      → mark_of x (mark_all flag rows marks)
        ≡ (if occurs x rows then bit_or (mark_of x marks) flag else mark_of x marks)
  unfolding mark_all occurs
  mark_of-mark_all x flag [] marks z idem = refl
  mark_of-mark_all x flag (row ∷ rows) marks z idem = elim (Bool-cases (row =ᵏ x)) [
    | inl t ↦
        let here : mark_of x (fold_mark row flag marks) ≡ bit_or (mark_of x marks) flag =
          rw (mark_of-fold_mark x row flag marks z, t) refl in
        rw
          (
            mark_of-mark_all x flag rows (fold_mark row flag marks) z (rw (here, idem) idem),
            here,
            t,
            idem,
          )
          (either_way (occurs x rows) _)
    | inr f ↦
        let here : mark_of x (fold_mark row flag marks) ≡ mark_of x marks =
          rw (mark_of-fold_mark x row flag marks z, f) refl in
        rw (mark_of-mark_all x flag rows (fold_mark row flag marks) z (rw here idem), here, f) refl
  ]
    where
      either_way : (b : Bool) (n : ℕ) → (if b then n else n) ≡ n
      either_way b n = ground arith

  unmarked : (x : A) (marks : List (Mark A)) → entries x marks ≡ 0 → mark_of x marks ≡ 0
  unfolding entries mark_of
  unmarked x [] e = refl
  unmarked x (m ∷ marks) e = elim (Bool-cases (m.row =ᵏ x)) [
    | inl t ↦ let e' = rw t at e in absurd (omega (arith, e'))
    | inr f ↦ let e' = rw f at e in rw f (unmarked x marks (omega (arith, e')))
  ]

  occurrences-marked :
      (x : A) (flag : ℕ) (marks : List (Mark A))
      → (0 == flag) ≡ false
      → entries x marks ≤ 1
      → occurrences x (marked flag marks) ≡ (if mark_of x marks == flag then 1 else 0)
  unfolding occurrences marked mark_of entries
  occurrences-marked x flag [] n le = rw n refl
  occurrences-marked x flag (m ∷ marks) n le = elim (Bool-cases (m.row =ᵏ x)) [
    | inr f ↦
        let le' = rw f at le in
        let rest = occurrences-marked x flag marks n (omega (arith, le')) in
        elim (Bool-cases (m.flags == flag)) [
          | inl g ↦ rw (g, f, zero-add) rest
          | inr g ↦ rw (g, f) rest
        ]
    | inl t ↦
        let le' = rw t at le in
        let none_left : entries x marks ≡ 0 = omega (arith, le') in
        let rest : occurrences x (marked flag marks) ≡ 0 =
          rw (occurrences-marked x flag marks n (omega (arith, le')), unmarked x marks none_left, n)
            refl in
        elim (Bool-cases (m.flags == flag)) [
          | inl g ↦ rw (t, g, t, rest) refl
          | inr g ↦ rw (t, g, rest) refl
        ]
  ]

  flags-net_batch :
      (x : A) (adds removes : List A)
      → mark_of x (mark_all 2 removes (mark_all 1 adds []))
        ≡ (if occurs x adds then 1 else 0) + (if occurs x removes then 2 else 0)
  unfolding mark_of
  flags-net_batch x adds removes =
      let first = mark_of-mark_all x 1 adds [] refl refl in
      elim (Bool-cases (occurs x adds)) [
        | inl t ↦
            let first' : mark_of x (mark_all 1 adds []) ≡ 1 = rw t at first in
            mark_of-mark_all x 2 removes (mark_all 1 adds []) refl (rw first' refl)
            ∙ rw (first', t) (ground arith)
        | inr f ↦
            let first' : mark_of x (mark_all 1 adds []) ≡ 0 = rw f at first in
            mark_of-mark_all x 2 removes (mark_all 1 adds []) refl (rw first' refl)
            ∙ rw (first', f) (ground arith)
      ]

  -- After `NetBatch` a row is in `adds` once if it was in `adds` and not in `removes`, in
  -- `removes` once if it was in `removes` and not in `adds`, and in neither otherwise, however
  -- often each had it.
  pub net_batch-occurrences :
      (x : A) (adds removes : List A)
      → (occurrences x (net_batch adds removes).0
          ≡ (if occurs x adds && not (occurs x removes) then 1 else 0))
        × (occurrences x (net_batch adds removes).1
            ≡ (if occurs x removes && not (occurs x adds) then 1 else 0))
  unfolding net_batch entries
  net_batch-occurrences x adds removes =
      let once = entries-mark_all x 2 removes _ (entries-mark_all x 1 adds [] (omega arith)) in
      let flags = flags-net_batch x adds removes in
      (
        occurrences-marked x 1 _ refl once ∙ rw flags (ground arith),
        occurrences-marked x 2 _ refl once ∙ rw flags (ground arith),
      )
