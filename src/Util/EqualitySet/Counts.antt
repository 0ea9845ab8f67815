-- ===== src/Util/EqualitySet/Counts.antt =====
-- What the stored pairs of an EqualitySet are counted as after each operation.
use dr_lojekyll.Prelude.{
  ℕ, ◌≡◌, refl, sym, ap, ◌∙◌, inl, inr, Bool, true, false, not, ◌&&◌, ◌||◌, List, [], ◌∷◌,
  if◌then◌else◌, ltb, ◌==◌, arith, Bool-cases,
}
use dr_lojekyll.Util.EqualitySet.{
  EqualitySet, insert, ordered, same_pair, counts, counts_any, erase, remove, contains,
}

ordered_comm : (a b : ℕ) → ordered a b ≡ ordered b a
unfolding ordered
ordered_comm a b = elim (Bool-cases (ltb b a)) [
  | inl t ↦ let f : ltb a b ≡ false = ground (arith, t) in rw (t, f, ordered) refl
  | inr f ↦ elim (Bool-cases (ltb a b)) [
    | inl t ↦ rw (f, t, ordered) refl
    | inr g ↦ let q : a ≡ b = ground (arith, f, g) in rw q refl
  ]
]

-- The order of the arguments does not matter.
pub contains_comm : (a b : ℕ) (s : EqualitySet) → contains a b s ≡ contains b a s
unfolding contains
contains_comm a b s = let e : (a == b) ≡ (b == a) = ground arith in rw (e, ordered_comm a b) refl

same_pair_lem : (p q : ℕ × ℕ) → same_pair p q ≡ true → p ≡ q
unfolding same_pair
same_pair_lem (a, b) (c, d) e =
    let f : a ≡ c = ground (arith, e) in let g : b ≡ d = ground (arith, e) in rw (f, g) refl

same_pair_refl : (p : ℕ × ℕ) → same_pair p p ≡ true
unfolding same_pair
same_pair_refl (a, b) = ground arith

-- Boolean steps of the two proofs below.
erase_same : (x y : Bool) → (y && not x) ≡ ((x || y) && not x)
erase_same true true = refl
erase_same true false = refl
erase_same false true = refl
erase_same false false = refl

erase_other : (x y z : Bool) → (x ≡ true → z ≡ false) → (x || (y && not z)) ≡ ((x || y) && not z)
erase_other true y true h = absurd (cc (h refl))
erase_other true y false h = refl
erase_other false y z h = refl

same_pair-false :
    (p q x : ℕ × ℕ) → same_pair q x ≡ false → same_pair p x ≡ true → same_pair p q ≡ false
same_pair-false p q x f t = elim (Bool-cases (same_pair p q)) [
  | inr g ↦ g
  | inl u ↦
      let a : q ≡ x = sym (same_pair_lem p q u) ∙ same_pair_lem p x t in
      let b : same_pair q x ≡ true = ap (λ y. same_pair q y) (sym a) ∙ same_pair_refl q in
      absurd (cc (b, f))
]

if-counts :
    (p x : ℕ × ℕ) (b : Bool) (qs : List (ℕ × ℕ))
    → counts p (if b then qs else x ∷ qs)
      ≡ (if b then counts p qs else same_pair p x || counts p qs)
unfolding counts
if-counts p x true qs = refl
if-counts p x false qs = refl

counts-erase :
    (p q : ℕ × ℕ) (qs : List (ℕ × ℕ)) → counts p (erase q qs) ≡ (counts p qs && not (same_pair p q))
unfolding counts erase
counts-erase p q [] = refl
counts-erase p q (x ∷ qs) =
    let h = counts-erase p q qs in
    if-counts p x (same_pair q x) (erase q qs) ∙ elim (Bool-cases (same_pair q x)) [
      | inl t ↦
          let e : same_pair p x ≡ same_pair p q =
            ap (λ y. same_pair p y) (sym (same_pair_lem q x t)) in
          rw (t, h, e) (erase_same (same_pair p q) (counts p qs))
      | inr f ↦
          rw (f, h)
            (erase_other (same_pair p x) (counts p qs) (same_pair p q) (same_pair-false p q x f))
    ]

pub remove_counts :
    (a b c d : ℕ) (s : EqualitySet)
    → (a == b) ≡ false
    → (c == d) ≡ false
    → contains c d (remove a b s) ≡ (
        (counts (ordered c d) s.equalities && not (same_pair (ordered c d) (ordered a b)))
        || counts_any (ordered c d) s.parents)
unfolding remove contains counts_any
remove_counts a b c d s e f =
    rw (e, f, remove, contains, counts-erase (ordered c d) (ordered a b) s.equalities) refl

or_absorb : (x y z : Bool) → (x ≡ true → y ≡ true) → (y || z) ≡ (x || (y || z))
or_absorb false y z h = refl
or_absorb true y z h = rw (h refl) refl

or_assoc : (x y z : Bool) → ((x || y) || z) ≡ (x || (y || z))
or_assoc true y z = refl
or_assoc false y z = refl

counts-same :
    (p q : ℕ × ℕ) (qs : List (ℕ × ℕ))
    → counts q qs ≡ true
    → same_pair p q ≡ true
    → counts p qs ≡ true
counts-same p q qs h t = ap (λ y. counts y qs) (same_pair_lem p q t) ∙ h

pub insert_known :
    (a b : ℕ) (s : EqualitySet)
    → (a == b) ≡ false
    → counts (ordered a b) s.equalities ≡ true
    → insert a b s ≡ s
unfolding insert
insert_known a b s e t = rw (e, insert) (rw t refl)

pub insert_new :
    (a b : ℕ) (s : EqualitySet)
    → (a == b) ≡ false
    → counts (ordered a b) s.equalities ≡ false
    → insert a b s ≡ record s { equalities = ordered a b ∷ s.equalities }
unfolding insert
insert_new a b s e f = rw (e, insert) (rw f refl)

pub insert_counts :
    (a b c d : ℕ) (s : EqualitySet)
    → (a == b) ≡ false
    → (c == d) ≡ false
    → contains c d (insert a b s) ≡ (same_pair (ordered c d) (ordered a b) || contains c d s)
unfolding contains counts_any counts
insert_counts a b c d s e f = elim (Bool-cases (counts (ordered a b) s.equalities)) [
  | inl t ↦
      rw (insert_known a b s e t, f, contains)
        (or_absorb (same_pair (ordered c d) (ordered a b)) (counts (ordered c d) s.equalities) _
          (counts-same (ordered c d) (ordered a b) s.equalities t))
  | inr g ↦
      rw (insert_new a b s e g, f, contains)
        (or_assoc (same_pair (ordered c d) (ordered a b)) (counts (ordered c d) s.equalities) _)
]
