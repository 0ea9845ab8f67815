-- ===== src/DataFlow/Differential/Closed.antt =====
-- What follows when a sweep changes nothing: each reason for a flag is heeded.
use dr_lojekyll.Prelude.{
  ℕ, zero, suc, ◌+◌, ◌≡◌, refl, sym, subst, ◌∙◌, inl, inr, Bool, true, false, some, List, [], ◌∷◌,
  get_elem?, arith, Bool-cases,
}
use dr_lojekyll.DataFlow.Differential.{
  Negate, View, Marks, seam, is_set, is_unset, raise_receive, raise_produce, raise_all,
  visit_negate, visit_negation, visit_receive, visit_produce, visit, sweep,
}
use dr_lojekyll.DataFlow.Differential.Moves.{
  raise_receive-Moves, raise_all-Moves, visit_receive-Moves, visit_produce-Moves,
  visit_negation-Moves, visit-Moves, sweep-Moves,
}

raise_receive-quiet :
    (v : ℕ) (s : Marks) → (raise_receive v s).changed ≡ false → is_unset v s.can_receive ≡ false
unfolding raise_receive
raise_receive-quiet v s e = elim (Bool-cases (is_unset v s.can_receive)) [
  | inl t ↦ absurd (cc (rw (t, raise_receive) at e))
  | inr f ↦ f
]

raise_produce-quiet :
    (v : ℕ) (s : Marks) → (raise_produce v s).changed ≡ false → is_unset v s.can_produce ≡ false
unfolding raise_produce
raise_produce-quiet v s e = elim (Bool-cases (is_unset v s.can_produce)) [
  | inl t ↦ absurd (cc (rw (t, raise_produce) at e))
  | inr f ↦ f
]

raise_all-quiet :
    (vs : List ℕ) (s : Marks)
    → (raise_all vs s).changed ≡ false
    → (i u : ℕ) → get_elem? vs i ≡ some u
    → is_unset u s.can_receive ≡ false
unfolding raise_all
raise_all-quiet [] s e i u g = absurd (cc g)
raise_all-quiet (v ∷ vs) s e zero u g =
    let q = (raise_all-Moves vs (raise_receive v s)).quiet e in
    let k : v ≡ u = cc g in
    subst (λ x. is_unset x s.can_receive ≡ false) k (raise_receive-quiet v s q.0)
raise_all-quiet (v ∷ vs) s e (suc i) u g =
    let q = (raise_all-Moves vs (raise_receive v s)).quiet e in
    let k = (raise_receive-Moves v s).quiet q.0 in
    subst (λ bs. is_unset u bs ≡ false) k.1 (raise_all-quiet vs (raise_receive v s) e i u g)

visit_produce-quiet :
    (v : ℕ) (us : List ℕ) (s : Marks)
    → (visit_produce v us s).changed ≡ false
    → is_set v s.can_produce ≡ true
    → (i u : ℕ) → get_elem? us i ≡ some u
    → is_unset u s.can_receive ≡ false
unfolding visit_produce
visit_produce-quiet v us s e t = raise_all-quiet us s (rw (t, visit_produce) at e)

visit_receive-quiet :
    (v : ℕ) (s : Marks)
    → (visit_receive v s).changed ≡ false
    → is_set v s.can_receive ≡ true
    → is_unset v s.can_produce ≡ false
unfolding visit_receive
visit_receive-quiet v s e t = raise_produce-quiet v s (rw (t, visit_receive) at e)

pub set-unset : (v : ℕ) (bs : List Bool) → is_set v bs ≡ true → is_unset v bs ≡ false
unfolding is_set is_unset
set-unset v [] e = refl
set-unset zero (b ∷ bs) e = rw e refl
set-unset (suc v) (b ∷ bs) e = set-unset v bs e

visit_negation-quiet :
    (v : ℕ) (w : View) (n : Negate) (s : Marks)
    → (visit_negation v w s).changed ≡ false
    → w.negate ≡ some n
    → n.is_never ≡ false
    → is_unset v s.can_produce ≡ false
unfolding visit_negation visit_negate
visit_negation-quiet v w n s e g h = elim (Bool-cases (is_set v s.can_produce)) [
  | inl t ↦ set-unset v s.can_produce t
  | inr f ↦ raise_produce-quiet v s (rw (f, g, h, visit_negation) at e)
]

-- The flags of view `v`, and what they ask of other flags.
pub record ClosedAt (views : List View) (v : ℕ) (w : View) (can_receive can_produce : List Bool)
    : Type 0 where
  pub negation :
      (n : Negate) → w.negate ≡ some n → n.is_never ≡ false → is_unset v can_produce ≡ false
  pub forward : is_set v can_receive ≡ true → is_unset v can_produce ≡ false
  pub across :
      is_set v can_produce ≡ true
      → (i u : ℕ) → get_elem? (seam views w) i ≡ some u
      → is_unset u can_receive ≡ false
  pub use_of :
      is_set v can_produce ≡ true
      → (i u : ℕ) → get_elem? w.users i ≡ some u
      → is_unset u can_receive ≡ false

visit-quiet :
    (views : List View) (v : ℕ) (w : View) (s : Marks)
    → (visit views v w s).changed ≡ false
    → ClosedAt views v w s.can_receive s.can_produce
unfolding visit
visit-quiet views v w s e =
    let a = visit_negation v w s in
    let b = visit_receive v a in
    let c = visit_produce v (seam views w) b in
    let qc = (visit_produce-Moves v w.users c).quiet e in
    let qb = (visit_produce-Moves v (seam views w) b).quiet qc.0 in
    let qa = (visit_receive-Moves v a).quiet qb.0 in
    let qs = (visit_negation-Moves v w s).quiet qa.0 in
    let rb : b.can_receive ≡ s.can_receive = qa.1 ∙ qs.1 in
    let pb : b.can_produce ≡ s.can_produce = qa.2 ∙ qs.2 in
    let rc : c.can_receive ≡ s.can_receive = qb.1 ∙ rb in
    let pc : c.can_produce ≡ s.can_produce = qb.2 ∙ pb in
    record {
      negation = λ n g h. visit_negation-quiet v w n s qa.0 g h;
      forward = λ t.
          subst (λ bs. is_unset v bs ≡ false) qs.2
            (visit_receive-quiet v a qb.0 (subst (λ bs. is_set v bs ≡ true) (sym qs.1) t));
      across = λ t i u g.
          subst (λ bs. is_unset u bs ≡ false) rb
            (visit_produce-quiet v (seam views w) b qc.0
              (subst (λ bs. is_set v bs ≡ true) (sym pb) t) i u g);
      use_of = λ t i u g.
          subst (λ bs. is_unset u bs ≡ false) rc
            (visit_produce-quiet v w.users c e (subst (λ bs. is_set v bs ≡ true) (sym pc) t) i u g);
    }

-- A sweep that changes nothing finds all views closed.
abbrev pub AllClosed : List View → ℕ → List View → List Bool → List Bool → Type 0
AllClosed views v ws can_receive can_produce =
    (i : ℕ) (w : View) → get_elem? ws i ≡ some w → ClosedAt views (v + i) w can_receive can_produce

sweep-step :
    (views : List View) (v : ℕ) (w : View) (ws : List View) (can_receive can_produce : List Bool)
    → ClosedAt views v w can_receive can_produce
    → AllClosed views (v + 1) ws can_receive can_produce
    → AllClosed views v (w ∷ ws) can_receive can_produce
sweep-step views v w ws rs ps h k zero x g =
    let q : v ≡ v + 0 = omega arith in
    let e : w ≡ x = cc g in
    subst (λ n. ClosedAt views n x rs ps) q (subst (λ y. ClosedAt views v y rs ps) e h)
sweep-step views v w ws rs ps h k (suc i) x g =
    let q : v + 1 + i ≡ v + suc i = omega arith in subst (λ n. ClosedAt views n x rs ps) q (k i x g)

pub sweep-quiet :
    (views : List View) (v : ℕ) (ws : List View) (s : Marks)
    → (sweep views v ws s).changed ≡ false
    → AllClosed views v ws s.can_receive s.can_produce
unfolding sweep
sweep-quiet views v [] s e i x g = absurd (cc g)
sweep-quiet views v (w ∷ ws) s e i x g =
    let t = visit views v w s in
    let q = (sweep-Moves views (v + 1) ws t).quiet e in
    let k = (visit-Moves views v w s).quiet q.0 in
    sweep-step views v w ws s.can_receive s.can_produce (visit-quiet views v w s q.0)
      (subst (AllClosed views (v + 1) ws s.can_receive) k.2 (
        subst (λ bs. AllClosed views (v + 1) ws bs t.can_produce) k.1
          (sweep-quiet views (v + 1) ws t e)))
      i x g
