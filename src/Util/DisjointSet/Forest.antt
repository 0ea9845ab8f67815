-- ===== src/Util/DisjointSet/Forest.antt =====
-- The roots of the sets, and what the operations make of them.
use dr_lojekyll.Prelude.{
  same_or_other, ℕ, zero, suc, ◌≤◌, ◌≡◌, ◌≢◌, ◌⊎◌, refl, ap, subst, ◌∙◌, sym, inl, inr, Bool, true,
  false, arith, if◌then◌else◌, ◌==◌, ==_ne,
}
use dr_lojekyll.Util.DisjointSet.{Found, set_parent, find}

-- `d` steps to the parent.
abbrev pub climb : ℕ → ℕ → (ℕ → ℕ) → ℕ
climb zero x parents = x
climb (suc d) x parents = climb d (parents x) parents

climb_root : (d x : ℕ) (p : ℕ → ℕ) → p x ≡ x → climb d x p ≡ x
climb_root zero x p e = refl
climb_root (suc d) x p e = ap (λ y. climb d y p) e ∙ climb_root d x p e

climb_last : (d x : ℕ) (p : ℕ → ℕ) → climb d (p x) p ≡ p (climb d x p)
climb_last zero x p = refl
climb_last (suc d) x p = climb_last d (p x) p

-- Every set has its root within `h` steps.
pub record Forest (p root : ℕ → ℕ) (h : ℕ) : Type 0 where
  pub fixed : (x : ℕ) → p (root x) ≡ root x
  pub climbs : (x : ℕ) → climb h x p ≡ root x

set_same : (x r y : ℕ) (p : ℕ → ℕ) → y ≡ x → set_parent x r p y ≡ r
unfolding set_parent
set_same x r y p e = let t : (y == x) ≡ true = ground (arith, e) in rw t refl

set_other : (x r y : ℕ) (p : ℕ → ℕ) → y ≢ x → set_parent x r p y ≡ p y
unfolding set_parent
set_other x r y p ne = rw (==_ne y x ne) refl

module _ (p root : ℕ → ℕ) (h : ℕ) (f : Forest p root h) where
  pub root_parent : (x : ℕ) → root (p x) ≡ root x
  root_parent x = sym (f.climbs (p x)) ∙ climb_last h x p ∙ ap p (f.climbs x) ∙ f.fixed x

  pub root_root : (x : ℕ) → root (root x) ≡ root x
  root_root x = sym (f.climbs (root x)) ∙ climb_root h (root x) p (f.fixed x)

  pub climb_more : (d x : ℕ) → h ≤ d → climb d x p ≡ root x
  climb_more zero x le =
      let z : h ≡ 0 = omega arith in subst (λ n. climb n x p ≡ root x) z (f.climbs x)
  climb_more (suc d) x le = elim (same_or_other h (suc d)) [
    | inl e ↦ subst (λ n. climb n x p ≡ root x) e (f.climbs x)
    | inr ne ↦ climb_more d (p x) (omega arith) ∙ root_parent x
  ]

  -- Parents that skip ahead to the root on some paths.
  abbrev pub Skips : (ℕ → ℕ) → Type 0
  Skips q = (y : ℕ) → (q y ≡ p y) ⊎ (q y ≡ root y)

  module _ (q : ℕ → ℕ) (s : Skips q) where
    skip_root : (x : ℕ) → q (root x) ≡ root x
    skip_root x = elim (s (root x)) [ inl e ↦ e ∙ f.fixed x | inr e ↦ e ∙ root_root x ]

    skip_climb : (d x : ℕ) → climb d x p ≡ root x → climb d x q ≡ root x
    skip_climb zero x e = e
    skip_climb (suc d) x e = elim (s x) [
      | inl g ↦
          ap (λ y. climb d y q) g ∙ skip_climb d (p x) (e ∙ sym (root_parent x)) ∙ root_parent x
      | inr g ↦ ap (λ y. climb d y q) g ∙ climb_root d (root x) q (skip_root x)
    ]

    pub skips-Forest : Forest q root h
    skips-Forest = record { fixed = skip_root; climbs = λ x. skip_climb h x (f.climbs x) }

  -- A call of Find that has enough steps.
  pub record Finds (x : ℕ) (r : Found) : Type 0 where
    pub is_root : r.root ≡ root x
    pub skips : Skips r.parents

  if-Finds :
      (x : ℕ) (b : Bool) (r s : Found)
      → (b ≡ true → Finds x r)
      → (b ≡ false → Finds x s)
      → Finds x (if b then r else s)
  if-Finds x true r s a b = a refl
  if-Finds x false r s a b = b refl

  find-Finds : (fuel x : ℕ) → climb fuel x p ≡ root x → Finds x (find fuel x p)
  unfolding find
  find-Finds zero x e = record { is_root = e; skips = λ y. inl refl }
  find-Finds (suc fuel) x e =
      let g = find-Finds fuel (p x) (e ∙ sym (root_parent x)) in
      if-Finds x (p x == x) _ _
        (λ t.
          let q : p x ≡ x = ground (arith, t) in
          record { is_root = sym (climb_root (suc fuel) x p q) ∙ e; skips = λ y. inl refl })
        (λ n. record {
          is_root = g.is_root ∙ root_parent x;
          skips = λ y. elim (same_or_other y x) [
            | inl q ↦ inr (
                set_same x (find fuel (p x) p).root y (find fuel (p x) p).parents q
                ∙ g.is_root
                ∙ root_parent x
                ∙ ap root (sym q))
            | inr ne ↦
                let s = set_other x (find fuel (p x) p).root y (find fuel (p x) p).parents ne in
                elim (g.skips y) [ inl k ↦ inl (s ∙ k) | inr k ↦ inr (s ∙ k) ]
          ];
        })

  pub find_root : (fuel x : ℕ) → h ≤ fuel → (find fuel x p).root ≡ root x
  find_root fuel x le = (find-Finds fuel x (climb_more fuel x le)).is_root

  pub find-Forest : (fuel x : ℕ) → h ≤ fuel → Forest (find fuel x p).parents root h
  find-Forest fuel x le =
      skips-Forest (find fuel x p).parents (find-Finds fuel x (climb_more fuel x le)).skips

  -- The root `a` is put below another root.
  abbrev pub moved : ℕ → ℕ → ℕ → ℕ
  moved a b y = if root y == a then b else root y

  module _ (a b : ℕ) (ra : p a ≡ a) (rb : p b ≡ b) (ne : b ≢ a) where
    pub moved_same : (y : ℕ) → root y ≡ a → moved a b y ≡ b
    moved_same y e = let t : (root y == a) ≡ true = ground (arith, e) in rw t refl

    pub moved_other : (y : ℕ) → root y ≢ a → moved a b y ≡ root y
    moved_other y no_a = rw (==_ne (root y) a no_a) refl

    target_root : set_parent a b p b ≡ b
    target_root = set_other a b b p ne ∙ rb

    moved_fixed : (y : ℕ) → set_parent a b p (moved a b y) ≡ moved a b y
    moved_fixed y = elim (same_or_other (root y) a) [
      | inl e ↦ subst (λ z. set_parent a b p z ≡ z) (sym (moved_same y e)) target_root
      | inr o ↦
          subst (λ z. set_parent a b p z ≡ z) (sym (moved_other y o))
            (set_other a b (root y) p o ∙ f.fixed y)
    ]

    own_root : root a ≡ a
    own_root = sym (f.climbs a) ∙ climb_root h a p ra

    -- From the root itself, one step leads to the other root.
    from_root : (d y : ℕ) → y ≡ a → climb (suc d) y (set_parent a b p) ≡ moved a b y
    from_root d y q =
        ap (λ z. climb d z (set_parent a b p)) (set_same a b y p q)
        ∙ climb_root d b (set_parent a b p) target_root
        ∙ sym (moved_same y (ap root q ∙ own_root))

    moved-climb :
        (d y : ℕ) → climb d y p ≡ root y → climb (suc d) y (set_parent a b p) ≡ moved a b y
    moved-climb zero y e = elim (same_or_other y a) [
      | inl q ↦ from_root zero y q
      | inr o ↦ set_other a b y p o ∙ ap p e ∙ f.fixed y ∙ sym (moved_other y (λ q. o (e ∙ q)))
    ]
    moved-climb (suc d) y e = elim (same_or_other y a) [
      | inl q ↦ from_root (suc d) y q
      | inr o ↦
          ap (λ z. climb (suc d) z (set_parent a b p)) (set_other a b y p o)
          ∙ moved-climb d (p y) (e ∙ sym (root_parent y))
          ∙ ap (λ r. if r == a then b else r) (root_parent y)
    ]

    pub moved-Forest : Forest (set_parent a b p) (moved a b) (suc h)
    moved-Forest = record { fixed = moved_fixed; climbs = λ y. moved-climb h y (f.climbs y) }
