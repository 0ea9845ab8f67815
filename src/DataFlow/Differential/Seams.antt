-- ===== src/DataFlow/Differential/Seams.antt =====
-- The seam of an INSERT: the places of the SELECTs that read the declaration that it writes.
use dr_lojekyll.Prelude.{
  ℕ, zero, suc, ◌+◌, ◌≡◌, ◌↔◌, refl, ap, subst, ◌∙◌, sym, inl, inr, true, false, Option, none, some,
  List, [], ◌∷◌, get_elem?, arith, ◌==◌, Option-cases,
}
use dr_lojekyll.DataFlow.Stratify.Reaches.{In}
use dr_lojekyll.DataFlow.Stratify.Edges.{get-In, In-get, if-In, if_then, if_kept}
use dr_lojekyll.DataFlow.Differential.{View, is_reading, selects_of, seam}

reading_iff : (d : ℕ) (w : View) → (is_reading d w ≡ true) ↔ (w.reads ≡ some d)
unfolding is_reading
reading_iff d w = (there w.reads, back w.reads)
  where
    there : (o : Option ℕ) → elim o [ none ↦ false | some c ↦ c == d ] ≡ true → o ≡ some d
    there none e = absurd (cc e)
    there (some c) e = let q : c ≡ d = ground (arith, e) in ap some q

    back : (o : Option ℕ) → o ≡ some d → elim o [ none ↦ false | some c ↦ c == d ] ≡ true
    back none e = absurd (cc e)
    back (some c) e = let q : c ≡ d = cc e in ground (arith, q)

-- The place `x` is that of a reader, counted from `j` on.
abbrev Reads : ℕ → ℕ → ℕ → List View → Type 0
Reads d j x views =
    (k : ℕ) × (x ≡ j + k) × (w : View) × (get_elem? views k ≡ some w) × (w.reads ≡ some d)

Reads-next :
    (d j x : ℕ) (w : View) (views : List View) → Reads d (j + 1) x views → Reads d j x (w ∷ views)
Reads-next d j x w views (k, e, y, g, q) = (suc k, omega (arith, e), y, g, q)

selects-In : (d j x : ℕ) (views : List View) → In x (selects_of d j views) → Reads d j x views
unfolding selects_of
selects-In d j x [] h = absurd h
selects-In d j x (w ∷ views) h =
    elim (if-In x (is_reading d w) (j ∷ selects_of d (j + 1) views) (selects_of d (j + 1) views)
      h) [
        | inl (t, inl e) ↦ (0, omega (arith, e), w, refl, (reading_iff d w).0 t)
        | inl (t, inr k) ↦ Reads-next d j x w views (selects-In d (j + 1) x views k)
        | inr (f, k) ↦ Reads-next d j x w views (selects-In d (j + 1) x views k)
      ]

In-selects :
    (d j k : ℕ) (views : List View) (x : View)
    → get_elem? views k ≡ some x
    → x.reads ≡ some d
    → In (j + k) (selects_of d j views)
unfolding selects_of
In-selects d j k [] x g e = absurd (cc g)
In-selects d j zero (w ∷ views) x g e =
    let q : w ≡ x = cc g in
    let t = (reading_iff d w).1 (ap (λ (y : View). y.reads) q ∙ e) in
    subst (In (j + 0))
      (sym
        (if_then (is_reading d w) (j ∷ selects_of d (j + 1) views) (selects_of d (j + 1) views) t))
      (inl (omega arith))
In-selects d j (suc k) (w ∷ views) x g e =
    let q : j + 1 + k ≡ j + suc k = omega arith in
    if_kept (j + suc k) j (is_reading d w) (selects_of d (j + 1) views)
      (subst (λ m. In m (selects_of d (j + 1) views)) q (In-selects d (j + 1) k views x g e))

seam_eq :
    (views : List View) (w : View) (d : ℕ) → w.writes ≡ some d → seam views w ≡ selects_of d 0 views
unfolding seam
seam_eq views w d e = rw (e, seam) refl

seam-none : (views : List View) (w : View) → w.writes ≡ none → seam views w ≡ []
unfolding seam
seam-none views w e = rw (e, seam) refl

-- What the seam lists reads the declaration.
pub seam-Reads :
    (views : List View) (w : View) (i u : ℕ)
    → get_elem? (seam views w) i ≡ some u
    → (d : ℕ) × (x : View) × (get_elem? views u ≡ some x) × (w.writes ≡ some d) × (x.reads ≡ some d)
seam-Reads views w i u g = elim (Option-cases w.writes) [
  | inl e ↦ absurd (subst (In u) (seam-none views w e) (get-In (seam views w) i u g))
  | inr (d, e) ↦
      let (k, r, x, q, t) =
        selects-In d 0 u views (subst (In u) (seam_eq views w d e) (get-In (seam views w) i u g)) in
      let p : u ≡ k = omega (arith, r) in (d, x, ap (get_elem? views) p ∙ q, e, t)
]

-- The seam lists every view that reads the declaration.
pub Reads-seam :
    (views : List View) (w x : View) (d u : ℕ)
    → get_elem? views u ≡ some x
    → w.writes ≡ some d
    → x.reads ≡ some d
    → (i : ℕ) × (get_elem? (seam views w) i ≡ some u)
Reads-seam views w x d u g e t =
    let p : 0 + u ≡ u = omega arith in
    In-get (seam views w) u (
      subst (In u) (sym (seam_eq views w d e))
        (subst (λ m. In m (selects_of d 0 views)) p (In-selects d 0 u views x g t)))
