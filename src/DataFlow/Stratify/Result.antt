-- ===== src/DataFlow/Stratify/Result.antt =====
-- What the pass computes: the strongly connected components in the order of their dependence.
use dr_lojekyll.Prelude.{
  same_or_other, ℕ, zero, suc, ◌+◌, ◌<◌, ◌≤◌, ◌≡◌, ◌↔◌, refl, ap, subst, ◌∙◌, sym, inl, inr, true,
  none, some, List, [], ◌∷◌, get_elem?, arith, Option-cases,
}
use dr_lojekyll.DataFlow.Stratify.{
  Walk, enter, walk, walk_from, walk_roots, start_walk, strata, num_rounds,
}
use dr_lojekyll.DataFlow.Stratify.Reaches.{Reaches, In}
use dr_lojekyll.DataFlow.Stratify.Invariant.{Placed, Sorted, Core, Framing}
use dr_lojekyll.DataFlow.Stratify.Stored.{le_or_lt, store_same, store_other, differ_some}
use dr_lojekyll.DataFlow.Stratify.Entered.{enter-Core, enter-stay, enter-Framing}
use dr_lojekyll.DataFlow.Stratify.Leaving.{Walks}
use dr_lojekyll.DataFlow.Stratify.Rounds.{Ran, walk-Ran, unvisited_le, unvisited-store}

walk_from_new :
    (fuel : ℕ) (sources : ℕ → List ℕ) (root : ℕ) (s : Walk)
    → s.index root ≡ none
    → walk_from fuel sources root s ≡ walk fuel sources (enter root s)
unfolding walk_from
walk_from_new fuel sources root s e = rw (e, walk_from) refl

walk_from_old :
    (fuel : ℕ) (sources : ℕ → List ℕ) (root i : ℕ) (s : Walk)
    → s.index root ≡ some i
    → walk_from fuel sources root s ≡ s
unfolding walk_from
walk_from_old fuel sources root i s e = simp (e, walk_from) refl

abbrev pub Visited : Walk → ℕ → Type 0
Visited s x = (j : ℕ) × (s.index x ≡ some j)

-- What the roots up to one leave behind.
record Rooted (sources : ℕ → List ℕ) (n : ℕ) (s t : Walk) (root : ℕ) : Type 0 where
  ran : Ran sources n s t
  visited : Visited t root

module _ (sources : ℕ → List ℕ) (n : ℕ)
    (bound : (v i w : ℕ) → get_elem? (sources v) i ≡ some w → w < n) where
  enter-Walks :
      (root : ℕ) (s : Walk)
      → s.index root ≡ none
      → Walks sources s []
      → Walks sources (enter root s) (record { view_index = root; next_edge = 0 } ∷ [])
  unfolding enter
  enter-Walks root s new h = record {
    core = enter-Core root s new sources [] h.core;
    framing =
        enter-Framing root s new sources [] h.core [] tt
          (enter-stay root s new sources [] h.core [] h.framing);
    frames = ap (λ gs. record { view_index = root; next_edge = 0 } ∷ gs) h.frames;
  }

  new-Rooted :
      (root : ℕ) (s : Walk)
      → root < n
      → s.index root ≡ none
      → Walks sources s []
      → Rooted sources n s (walk (num_rounds n sources) sources (enter root s)) root
  unfolding enter
  new-Rooted root s lt new h =
      let r =
        walk-Ran sources n bound (num_rounds n sources) (enter root s)
          (record { view_index = root; next_edge = 0 } ∷ []) (enter-Walks root s new h)
          (omega (
            arith,
            unvisited-store sources n root s.next_index s.index lt new,
            unvisited_le sources n s.index,
          )) in
      record {
        ran = record {
          walks = r.walks;
          kept = λ x j e. r.kept x j (
              store_other root x (some s.next_index) s.index (differ_some s.index x root j new e)
              ∙ e);
          outside = λ x le.
              r.outside x le
              ∙ store_other root x (some s.next_index) s.index (λ q. omega (arith, q));
        };
        visited =
            (s.next_index, r.kept root s.next_index (store_same root (some s.next_index) s.index));
      }

  walk_from-Rooted :
      (root : ℕ) (s : Walk)
      → root < n
      → Walks sources s []
      → Rooted sources n s (walk_from (num_rounds n sources) sources root s) root
  walk_from-Rooted root s lt h = elim (Option-cases (s.index root)) [
    | inl new ↦
        subst (λ t. Rooted sources n s t root)
          (sym (walk_from_new (num_rounds n sources) sources root s new))
          (new-Rooted root s lt new h)
    | inr (i, e) ↦
        subst (λ t. Rooted sources n s t root)
          (sym (walk_from_old (num_rounds n sources) sources root i s e))
          (record {
            ran = record { walks = h; kept = λ x j e. e; outside = λ x le. refl };
            visited = (i, e);
          })
  ]

  -- All roots of a range.
  record AllRooted (s t : Walk) (root count : ℕ) : Type 0 where
    ran : Ran sources n s t
    visited : (v : ℕ) → root ≤ v → v < root + count → Visited t v

  walk_roots-AllRooted :
      (root count : ℕ) (s : Walk)
      → root + count ≤ n
      → Walks sources s []
      → AllRooted s (walk_roots (num_rounds n sources) sources root count s) root count
  unfolding walk_roots
  walk_roots-AllRooted root zero s le h = record {
    ran = record { walks = h; kept = λ x j e. e; outside = λ x le. refl };
    visited = λ v a b. absurd (omega arith);
  }
  walk_roots-AllRooted root (suc count) s le h =
      let f = walk_from-Rooted root s (omega arith) h in
      let r =
        walk_roots-AllRooted (root + 1) count (walk_from (num_rounds n sources) sources root s)
          (omega arith) f.ran.walks in
      record {
        ran = record {
          walks = r.ran.walks;
          kept = λ x j e. r.ran.kept x j (f.ran.kept x j e);
          outside = λ x le. r.ran.outside x le ∙ f.ran.outside x le;
        };
        visited = λ v a b. elim (same_or_other v root) [
          | inl q ↦
              let (j, e) = f.visited in
              (j, r.ran.kept v j (ap (walk_from (num_rounds n sources) sources root s).index q ∙ e))
          | inr ne ↦ r.visited v (omega (arith, ne)) (omega arith)
        ];
      }

  start-Walks : Walks sources start_walk []
  start-Walks = record {
    core = record {
      stacked = λ u e. absurd (cc e);
      marked = λ u k. absurd k;
      falling = tt;
      nodes = λ x e. absurd (cc e);
      indexed = λ x j e. absurd (cc e);
      sorted = record {
        bound = λ x k e. absurd (cc e);
        off = λ x k e. absurd (cc e);
        visited = λ x k e. absurd (cc e);
        closed = λ x k i w e g. absurd (cc e);
        used = λ k lt. absurd (omega arith);
        connected = λ x y k e f. absurd (cc e);
      };
    };
    framing = Framing.empty 0;
    frames = refl;
  }

-- With no frame left nothing is on the stack.
empty_stack :
    (sources : ℕ → List ℕ) (s : Walk) → Core sources s [] → (x : ℕ) → s.on_stack x ≡ true → ⊥
empty_stack sources s core x on = no_place (core.nodes x on).place
  where
    no_place : {y j : ℕ} → Placed sources s [] y j → ⊥
    no_place p = elim p [ ]

-- Strata fall along the edges.
reached_stratum :
    (sources : ℕ → List ℕ) (s : Walk) (v w k : ℕ)
    → Sorted sources s
    → Reaches sources v w
    → s.stratum v ≡ some k
    → (l : ℕ) × (s.stratum w ≡ some l) × (l ≤ k)
reached_stratum sources s _ w k h (Reaches.here v) e = (k, e, omega arith)
reached_stratum sources s _ _ k h (Reaches.along v i u w g r) e =
    let q = h.closed v k i u e g in
    let (l, f, le) = reached_stratum sources s u w q.at h r q.is_at in
    (l, f, omega (arith, q.lower))

-- The strata of a run: they are the strongly connected components, in an order of the dependences.
pub record Strata (sources : ℕ → List ℕ) (n : ℕ) (s : Walk) : Type 0 where
  pub ended : s.frames ≡ []
  pub emptied : (x : ℕ) → ¬ In x s.scc_stack
  pub assigned : (v : ℕ) → v < n → (k : ℕ) × (s.stratum v ≡ some k) × (k < s.next_stratum)
  pub ordered :
      (v w k : ℕ)
      → Reaches sources v w
      → s.stratum v ≡ some k
      → (l : ℕ) × (s.stratum w ≡ some l) × (l ≤ k)
  pub same :
      (v w k l : ℕ)
      → s.stratum v ≡ some k
      → s.stratum w ≡ some l
      → (k ≡ l) ↔ (Reaches sources v w × Reaches sources w v)
  pub used : (k : ℕ) → k < s.next_stratum → (v : ℕ) × (v < n) × (s.stratum v ≡ some k)

mutual_eq :
    (sources : ℕ → List ℕ) (s : Walk) (v w k l : ℕ)
    → Sorted sources s
    → s.stratum v ≡ some k
    → s.stratum w ≡ some l
    → Reaches sources v w
    → Reaches sources w v
    → k ≡ l
mutual_eq sources s v w k l h e f r q =
    let (a, ea, la) = reached_stratum sources s v w k h r e in
    let (b, eb, lb) = reached_stratum sources s w v l h q f in
    let pa : a ≡ l = cc (ea, f) in let pb : b ≡ k = cc (eb, e) in omega (arith, pa, pb)

-- When every source of a view is one of the views, the walk with a round for each edge and each
-- view ends with no frame and an empty stack; every view has a stratum, every stratum below the
-- number of strata has a view, a view reaches no view of a higher stratum, and two strata are
-- equal exactly if their views reach each other.
pub strata-Strata :
    (num_views : ℕ) (sources : ℕ → List ℕ)
    → ((v i w : ℕ) → get_elem? (sources v) i ≡ some w → w < num_views)
    → Strata sources num_views (strata num_views sources)
unfolding strata
strata-Strata n sources bound =
    let t = strata n sources in
    let r =
      walk_roots-AllRooted sources n bound 0 n start_walk (omega arith)
        (start-Walks sources n bound) in
    let core = r.ran.walks.core in
    let h = core.sorted in
    record {
      ended = r.ran.walks.frames;
      emptied = λ x k. empty_stack sources t core x (core.marked x k);
      assigned = λ v lt.
          let (j, e) = r.visited v (omega arith) (omega arith) in
          elim (core.indexed v j e) [
            | inl on ↦ absurd (empty_stack sources t core v on)
            | inr f ↦ (f.at, f.is_at, h.bound v f.at f.is_at)
          ];
      ordered = λ v w k q e. reached_stratum sources t v w k h q e;
      same = λ v w k l e f. (
        λ q. (h.connected v w k e (f ∙ ap some (sym q)), h.connected w v l f (e ∙ ap some q)),
        λ (a, b). mutual_eq sources t v w k l h e f a b,
      );
      used = λ k lt.
          let (v, e) = h.used k lt in
          let (j, i) = h.visited v k e in
          elim (le_or_lt n v) [
            | inl le ↦ absurd (cc (i, r.ran.outside v le))
            | inr less ↦ (v, less, e)
          ];
    }
