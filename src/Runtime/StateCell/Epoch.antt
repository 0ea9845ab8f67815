-- ===== src/Runtime/StateCell/Epoch.antt =====
-- One epoch of a StateCellStore: the folds of a batch, and the seal.
use dr_lojekyll.Prelude.Int.{ℤ, ◌+ℤ◌}
use dr_lojekyll.Prelude.{
  ℕ, zero, suc, set_same, ◌≡◌, refl, sym, ap, ◌∙◌, inl, inr, Bool, true, false, some, List, [], ◌∷◌,
  ◌++◌, arith, length, length-set, get_elem?, set, get_elem?-lt, get_elem?-set_self,
  get_elem?-set_ne, get_elem?_of_lt, Bool-cases, ◌==◌, ==_iff, if◌then◌else◌,
}
use dr_lojekyll.Runtime.DiffTable.Commit.Loop.{elem, AllBelow}
use dr_lojekyll.Runtime.DiffTable.Invariant.{
  elem-append, AllBelow-append, apart, get_elem?-set_cases,
}
use dr_lojekyll.Runtime.Run.{Returns}
use dr_lojekyll.Runtime.StateCell.Policies.{Algebra}
use dr_lojekyll.Runtime.StateCell.{
  Group, StateCellStore, fits, working_occupied, group_at, touch_group, fold_group, sealed_group,
  seal_loop, fold_all,
}

set-set {ℓ} : {A : Type ℓ} (xs : List A) (i : ℕ) (a b : A) → set (set xs i a) i b ≡ set xs i b
set-set [] i a b = refl
set-set (x ∷ xs) zero a b = refl
set-set (x ∷ xs) (suc i) a b = ap (λ ys. x ∷ ys) (set-set xs i a b)

module _ {ℓ κ} {W : Type ℓ} {S : Type κ} (alg : Algebra W S) where
  -- One fold, on its group.
  abbrev pub folded_group : ℤ → S → Group W S → Group W S
  folded_group sign v g = record g {
    working = alg.fold_value g.working sign v;
    members = g.members +ℤ sign;
    touched = true;
  }

  -- The folds of a batch that are for group `gid`, in order, on that group.
  abbrev pub group_after : ℕ → List (ℕ × ℤ × S) → Group W S → Group W S
  group_after gid [] g = g
  group_after gid ((i, sign, v) ∷ folds) g =
      group_after gid folds (if i == gid then folded_group sign v g else g)

  -- No fold of the batch is for another group than the store has, or overflows a count.
  abbrev pub AllFit : List (ℕ × ℤ × S) → List (Group W S) → Type (ℓ ⊔ κ)
  AllFit [] groups = Unit {ℓ ⊔ κ}
  AllFit ((gid, sign, v) ∷ folds) groups =
      (g : Group W S) × (get_elem? groups gid ≡ some g)
      × (fits (g.members +ℤ sign) ≡ true)
      × AllFit folds (set groups gid (folded_group sign v g))

  pub seal_loop_lem :
      (gids : List ℕ) (groups : List (Group W S))
      → AllBelow (length groups) gids
      → Returns (seal_loop alg gids groups) λ groups'.
        (length groups' ≡ length groups)
        × ((gid : ℕ) (g : Group W S)
            → get_elem? groups gid ≡ some g
            → get_elem? groups' gid ≡ some (if elem gid gids then sealed_group alg g else g))
  unfolding seal_loop elem sealed_group working_occupied
  seal_loop_lem [] groups b = (groups, refl, (refl, λ gid g e. e))
  seal_loop_lem (i ∷ gids) groups (lt, b) =
      let (x, ex) = get_elem?_of_lt groups i lt in
      let groups₁ = set groups i (sealed_group alg x) in
      let (groups₂, run, (size, at)) =
        seal_loop_lem gids groups₁ (rw (length-set groups i (sealed_group alg x)) b) in
      (
        groups₂,
        rw (ex, run) refl,
        (
          size ∙ length-set groups i (sealed_group alg x),
          λ gid g e. elim (Bool-cases (i == gid)) [
            | inl same ↦
                let q : i ≡ gid = (==_iff i gid).0 same in
                let gx : g ≡ x = cc (rw (← q) at e, ex) in
                let here : get_elem? groups₁ gid ≡ some (sealed_group alg x) =
                  rw (← q) (get_elem?-set_self groups i (sealed_group alg x) lt) in
                at gid (sealed_group alg x) here ∙ rw (same, gx) (ap some (again (elem gid gids) x))
            | inr other ↦
                at gid g
                  (get_elem?-set_ne groups i gid (sealed_group alg x) (apart i gid other) ∙ e)
                ∙ rw other refl
          ],
        ),
      )
    where
      again :
          (b : Bool) (x : Group W S)
          → (if b then sealed_group alg (sealed_group alg x) else sealed_group alg x)
            ≡ sealed_group alg x
      again true x = refl
      again false x = refl

module _ {ℓ κ μ} {K : Type ℓ} {W : Type κ} {S : Type μ} (alg : Algebra W S) where
  -- The touched set agrees with the flags.
  pub record Listed (s : StateCellStore K W S) : Type (κ ⊔ μ) where
    pub listed :
        (gid : ℕ) (g : Group W S) → get_elem? s.groups gid ≡ some g → g.touched ≡ elem gid s.touched
    pub below : AllBelow (length s.groups) s.touched

  pub record FoldsGroup (s : StateCellStore K W S) (gid : ℕ) (g' : Group W S)
      (s' : StateCellStore K W S) : Type (ℓ ⊔ κ ⊔ μ) where
    pub listed : Listed s'
    pub keys : s'.keys ≡ s.keys
    pub exact : s'.groups ≡ set s.groups gid g'

  touch_group-FoldsGroup :
      (s : StateCellStore K W S) (gid : ℕ) (g : Group W S)
      → Listed s
      → get_elem? s.groups gid ≡ some g
      → Returns (touch_group gid s) (FoldsGroup s gid (record g { touched = true }))
  unfolding touch_group group_at
  touch_group-FoldsGroup s gid g v e = elim (Bool-cases g.touched) [
    | inl t ↦ (
      s,
      rw (e, t) refl,
      record {
        listed = v;
        keys = refl;
        exact = sym (set_same s.groups gid _ (e ∙ ap some (already g t)));
      },
    )
    | inr f ↦
        let groups = set s.groups gid (record g { touched = true }) in
        let lt = get_elem?-lt s.groups gid e in
        (
          record s { groups = groups; touched = s.touched ++ gid ∷ [] },
          rw (e, f) refl,
          record {
            listed = record {
              listed = λ j x q.
                  rw (elem-append j s.touched gid)
                    (elim (get_elem?-set_cases s.groups gid j (record g { touched = true }) x q) [
                      | inl (n, p) ↦ rw (p, n) (ground arith)
                      | inr (n, p) ↦ ground (arith, v.listed j x p, n)
                    ]);
              below =
                  rw (length-set s.groups gid (record g { touched = true }))
                    (AllBelow-append _ s.touched gid v.below lt);
            };
            keys = refl;
            exact = refl;
          },
        )
  ]
    where
      already : (x : Group W S) → x.touched ≡ true → x ≡ record x { touched = true }
      already x t i = record x { touched = t i }

  -- A fold whose count fits moves the value and the count of its group, and leaves the snapshot and
  -- all other groups alone.
  pub fold_group-FoldsGroup :
      (s : StateCellStore K W S) (gid : ℕ) (sign : ℤ) (v : S) (g : Group W S)
      → Listed s
      → get_elem? s.groups gid ≡ some g
      → fits (g.members +ℤ sign) ≡ true
      → Returns (fold_group alg gid sign v s) (FoldsGroup s gid (folded_group alg sign v g))
  unfolding fold_group group_at
  fold_group-FoldsGroup s gid sign v g l e small =
      let (s₁, run, t) = touch_group-FoldsGroup s gid g l e in
      let here : get_elem? s₁.groups gid ≡ some (record g { touched = true }) =
        rw t.exact (get_elem?-set_self s.groups gid _ (get_elem?-lt s.groups gid e)) in
      let g' = folded_group alg sign v g in
      (
        record s₁ { groups = set s₁.groups gid g' },
        rw (run, here, small) refl,
        record {
          listed = record {
            listed = λ j x q. elim (get_elem?-set_cases s₁.groups gid j g' x q) [
              | inl (n, p) ↦ rw (p, ← n) (t.listed.listed gid (record g { touched = true }) here)
              | inr (_, p) ↦ t.listed.listed j x p
            ];
            below = rw (length-set s₁.groups gid g') t.listed.below;
          };
          keys = t.keys;
          exact = rw t.exact (set-set s.groups gid (record g { touched = true }) g');
        },
      )

  -- The folds of a batch, pointwise.
  pub record FoldsAll (folds : List (ℕ × ℤ × S)) (s s' : StateCellStore K W S)
      : Type (ℓ ⊔ κ ⊔ μ) where
    pub listed : Listed s'
    pub keys : s'.keys ≡ s.keys
    pub size : length s'.groups ≡ length s.groups
    pub at :
        (gid : ℕ) (g : Group W S)
        → get_elem? s.groups gid ≡ some g
        → get_elem? s'.groups gid ≡ some (group_after alg gid folds g)

  -- A batch of folds that fit moves each group by its own folds, in order.
  pub fold_all-FoldsAll :
      (folds : List (ℕ × ℤ × S)) (s : StateCellStore K W S)
      → Listed s
      → AllFit alg folds s.groups
      → Returns (fold_all alg folds s) (FoldsAll folds s)
  unfolding fold_all
  fold_all-FoldsAll [] s l fit =
      (s, refl, record { listed = l; keys = refl; size = refl; at = λ gid g e. e })
  fold_all-FoldsAll ((i, sign, v) ∷ folds) s l (g, e, small, rest) =
      let g' = folded_group alg sign v g in
      let (s₁, run, f) = fold_group-FoldsGroup s i sign v g l e small in
      let (s₂, run₂, r) = fold_all-FoldsAll folds s₁ f.listed (rw f.exact rest) in
      (
        s₂,
        rw (run, run₂) refl,
        record {
          listed = r.listed;
          keys = r.keys ∙ f.keys;
          size = r.size ∙ ap length f.exact ∙ length-set s.groups i g';
          at = λ gid x q. elim (Bool-cases (i == gid)) [
            | inl same ↦
                let m : i ≡ gid = (==_iff i gid).0 same in
                let gx : x ≡ g = cc (rw (← m) at q, e) in
                let now : get_elem? s₁.groups gid ≡ some g' =
                  rw (f.exact, ← m)
                    (get_elem?-set_self s.groups i g' (get_elem?-lt s.groups i e)) in
                r.at gid g' now ∙ rw (same, gx) refl
            | inr other ↦
                let now : get_elem? s₁.groups gid ≡ some x =
                  rw f.exact (get_elem?-set_ne s.groups i gid g' (apart i gid other) ∙ q) in
                r.at gid x now ∙ rw other refl
          ];
        },
      )
