-- ===== src/Runtime/StateCell/Seals.antt =====
-- The end of an epoch of a StateCellStore.
use dr_lojekyll.Prelude.Int.{ℤ, is_pos}
use dr_lojekyll.Prelude.{
  ℕ, ◌≡◌, refl, sym, ap, ◌∙◌, inl, inr, Bool, true, false, some, List, [], ◌∷◌, get_elem?,
  get_elem?-lt, get_elem?_of_lt, Bool-cases, ◌==◌, if◌then◌else◌,
}
use dr_lojekyll.Runtime.DiffTable.Commit.Loop.{elem}
use dr_lojekyll.Runtime.Run.{ok}
use dr_lojekyll.Runtime.StateCell.Epoch.{
  Listed, folded_group, group_after, AllFit, seal_loop_lem, fold_all-FoldsAll, FoldsAll,
}
use dr_lojekyll.Runtime.StateCell.Policies.{Algebra}
use dr_lojekyll.Runtime.StateCell.{
  Group, StateCellStore, working_occupied, group_at, emit_group, old_group, sealed_group,
  seal_groups, fold_all,
}

module _ {ℓ κ} {W : Type ℓ} {S : Type κ} (alg : Algebra W S) where
  -- A group as it is between epochs: the snapshot is what the working value comes to.
  pub record IsSealed (g : Group W S) : Type κ where
    pub sealed : g.sealed ≡ alg.emit g.working
    pub occupied : g.occupied ≡ is_pos g.members
    pub touched : g.touched ≡ false

  -- A group with its working value as the snapshot.
  abbrev pub published : Group W S → Group W S
  published g = record g {
    sealed = alg.emit g.working;
    occupied = is_pos g.members;
    touched = false;
  }

  sealed_group_eq : (g : Group W S) → sealed_group alg g ≡ published g
  unfolding sealed_group working_occupied
  sealed_group_eq g = refl

  sealed_group-IsSealed : (g : Group W S) → IsSealed (sealed_group alg g)
  unfolding sealed_group working_occupied
  sealed_group-IsSealed g = record { sealed = refl; occupied = refl; touched = refl }

  sealed_group_idle : (g : Group W S) → IsSealed g → sealed_group alg g ≡ g
  unfolding sealed_group working_occupied
  sealed_group_idle g e i = record g {
    sealed = sym e.sealed i;
    occupied = sym e.occupied i;
    touched = sym e.touched i;
  }

  one_fold : Bool → ℤ → S → Group W S → Group W S
  one_fold b sign v g = if b then folded_group alg sign v g else g

  one_fold_idle :
      (b : Bool) (sign : ℤ) (v : S) (g : Group W S)
      → (one_fold b sign v g).touched ≡ false
      → one_fold b sign v g ≡ g
  unfolding one_fold
  one_fold_idle true sign v g f = cc
  one_fold_idle false sign v g f = refl

  one_fold_frozen :
      (b : Bool) (sign : ℤ) (v : S) (g : Group W S)
      → ((one_fold b sign v g).sealed ≡ g.sealed) × ((one_fold b sign v g).occupied ≡ g.occupied)
  unfolding one_fold
  one_fold_frozen true sign v g = (refl, refl)
  one_fold_frozen false sign v g = (refl, refl)

  -- A group that is not touched has not changed.
  group_after_idle :
      (gid : ℕ) (folds : List (ℕ × ℤ × S)) (g : Group W S)
      → (group_after alg gid folds g).touched ≡ false
      → group_after alg gid folds g ≡ g
  unfolding one_fold
  group_after_idle gid [] g f = refl
  group_after_idle gid ((i, sign, v) ∷ folds) g f =
      let same = group_after_idle gid folds (one_fold (i == gid) sign v g) f in
      let f' : (one_fold (i == gid) sign v g).touched ≡ false =
        sym (ap (λ (x : Group W S). x.touched) same) ∙ f in
      same ∙ one_fold_idle (i == gid) sign v g f'

  -- Folds leave the snapshot.
  group_after_frozen :
      (gid : ℕ) (folds : List (ℕ × ℤ × S)) (g : Group W S)
      → ((group_after alg gid folds g).sealed ≡ g.sealed)
        × ((group_after alg gid folds g).occupied ≡ g.occupied)
  unfolding one_fold
  group_after_frozen gid [] g = (refl, refl)
  group_after_frozen gid ((i, sign, v) ∷ folds) g =
      let rest = group_after_frozen gid folds (one_fold (i == gid) sign v g) in
      let first = one_fold_frozen (i == gid) sign v g in (rest.0 ∙ first.0, rest.1 ∙ first.1)

module _ {ℓ κ μ} {K : Type ℓ} {W : Type κ} {S : Type μ} (alg : Algebra W S) where
  -- A store between epochs.
  pub record AtRest (s : StateCellStore K W S) : Type (κ ⊔ μ) where
    pub idle : s.touched ≡ []
    pub sealed : (gid : ℕ) (g : Group W S) → get_elem? s.groups gid ≡ some g → IsSealed alg g

  -- From `s` the folds lead to `s₁` and the seal to `s₂`. Before the seal a group has the value that
  -- its folds make, while the snapshot stays; the seal makes that value the snapshot.
  pub record Epoch (folds : List (ℕ × ℤ × S)) (s s₁ s₂ : StateCellStore K W S)
      : Type (ℓ ⊔ κ ⊔ μ) where
    pub keys : s₂.keys ≡ s.keys
    pub rest : AtRest s₂
    pub emitted :
        (gid : ℕ) (g : Group W S)
        → get_elem? s.groups gid ≡ some g
        → emit_group alg gid s₁ ≡ ok (alg.emit (group_after alg gid folds g).working)
    pub old :
        (gid : ℕ) (g : Group W S)
        → get_elem? s.groups gid ≡ some g
        → old_group alg gid s₁ ≡ ok g.sealed
    pub next :
        (gid : ℕ) (g : Group W S)
        → get_elem? s.groups gid ≡ some g
        → get_elem? s₂.groups gid ≡ some (published alg (group_after alg gid folds g))

  AtRest-Listed : (s : StateCellStore K W S) → AtRest s → Listed alg s
  unfolding elem
  AtRest-Listed s r = record {
    listed = λ gid g e. rw r.idle (r.sealed gid g e).touched;
    below = rw r.idle tt;
  }

  -- On a store whose groups are all sealed and untouched, a batch of folds into its groups whose
  -- member counts fit 32 bits, followed by `Seal`, returns; before the seal `Emit` of a group is
  -- what its own folds make of its value, in order, and `Old` is still the value of the start of
  -- the batch; after it that value is the snapshot, the occupancy bit says whether members are
  -- left, and the groups are all sealed and untouched again.
  pub fold_all-Epoch :
      (folds : List (ℕ × ℤ × S)) (s : StateCellStore K W S)
      → AtRest s
      → AllFit alg folds s.groups
      → (s₁ s₂ : StateCellStore K W S) × (fold_all alg folds s ≡ ok s₁)
        × (seal_groups alg s₁ ≡ ok s₂)
        × Epoch folds s s₁ s₂
  unfolding seal_groups emit_group old_group group_at
  fold_all-Epoch folds s r fit =
      let (s₁, run, f) = fold_all-FoldsAll alg folds s (AtRest-Listed s r) fit in
      let (groups, run₂, (size, at)) = seal_loop_lem alg s₁.touched s₁.groups f.listed.below in
      let s₂ : StateCellStore K W S = record s₁ { groups = groups; touched = [] } in
      let next : (gid : ℕ) (g : Group W S)
          → get_elem? s.groups gid ≡ some g
          → get_elem? groups gid ≡ some (sealed_group alg (group_after alg gid folds g)) =
        λ gid g e. sealed_at s₁ groups folds s r f at gid g e in
      (
        s₁,
        s₂,
        run,
        rw run₂ refl,
        record {
          keys = f.keys;
          rest = record {
            idle = refl;
            sealed = λ gid x q.
                let (g, e) =
                  get_elem?_of_lt s.groups gid
                    (rw (← f.size, ← size) (get_elem?-lt groups gid q)) in
                let m = next gid g e in
                let w : x ≡ sealed_group alg (group_after alg gid folds g) = cc in
                rw w (sealed_group-IsSealed alg (group_after alg gid folds g));
          };
          emitted = λ gid g e. rw (f.at gid g e) refl;
          old = λ gid g e. rw (f.at gid g e) (ap ok (group_after_frozen alg gid folds g).0);
          next =
              λ gid g e. next gid g e ∙ ap some (sealed_group_eq alg (group_after alg gid folds g));
        },
      )
    where
      sealed_at :
          (s₁ : StateCellStore K W S) (groups : List (Group W S)) (folds : List (ℕ × ℤ × S))
          (s : StateCellStore K W S)
          → AtRest s
          → FoldsAll alg folds s s₁
          → ((gid : ℕ) (g : Group W S)
              → get_elem? s₁.groups gid ≡ some g
              → get_elem? groups gid ≡ some (if elem gid s₁.touched then sealed_group alg g else g))
          → (gid : ℕ) (g : Group W S) → get_elem? s.groups gid ≡ some g
          → get_elem? groups gid ≡ some (sealed_group alg (group_after alg gid folds g))
      sealed_at s₁ groups folds s r f at gid g e =
          let x = group_after alg gid folds g in
          elim (Bool-cases (elem gid s₁.touched)) [
            | inl t ↦ at gid x (f.at gid g e) ∙ rw t refl
            | inr n ↦
                let idle : x.touched ≡ false = f.listed.listed gid x (f.at gid g e) ∙ n in
                let same = group_after_idle alg gid folds g idle in
                at gid x (f.at gid g e)
                ∙ rw n (ap some (sym (rw same (sealed_group_idle alg g (r.sealed gid g e)))))
          ]
