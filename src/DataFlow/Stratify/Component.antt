-- ===== src/DataFlow/Stratify/Component.antt =====
-- A component that is popped: its views are those that the root reaches and that reach it.
use dr_lojekyll.Prelude.{ℕ, zero, suc, ◌<◌, ◌≤◌, ◌≡◌, true, some, List, ◌∷◌, arith}
use dr_lojekyll.DataFlow.Stratify.{Walk}
use dr_lojekyll.DataFlow.Stratify.Reaches.{Reaches, Reaches-trans}
use dr_lojekyll.DataFlow.Stratify.Invariant.{Done, Placed, Core}

-- The view `x` is a member of the component of the root `v` with the number `i`.
pub record Joined (sources : ℕ → List ℕ) (s : Walk) (v i x : ℕ) : Type 0 where
  pub from : Reaches sources v x
  pub done : Done sources s x
  pub low : i ≤ s.lowlink x

module _ (sources : ℕ → List ℕ) (s : Walk) (v i : ℕ) (vs : List ℕ) (core : Core sources s (v ∷ vs))
    (at : s.index v ≡ some i) (low : s.lowlink v ≡ i) (done : Done sources s v) where
  place-Joined :
      (x j : ℕ)
      → s.index x ≡ some j
      → i ≤ j
      → Placed sources s (v ∷ vs) x j
      → Joined sources s v i x
  place-Joined _ j e le (Placed.active _ _ _) = record {
    from = Reaches.here v;
    done = done;
    low = omega (arith, low);
  }
  place-Joined _ _ e le (Placed.covered _ _ x j k k_at lt r l un d) = record {
    from = r;
    done = d;
    low = omega (arith, low);
  }
  place-Joined _ _ e le (Placed.deeper _ _ x j k k_at lt p) =
      let q : k ≡ i = cc (k_at, at) in absurd (omega (arith, q))

  pub node-Joined :
      (x j : ℕ) → s.on_stack x ≡ true → s.index x ≡ some j → i ≤ j → Joined sources s v i x
  node-Joined x j on e le =
      let n = core.nodes x on in
      let q : n.at ≡ j = cc (e, n.is_at) in place-Joined x n.at n.is_at (omega (arith, q)) n.place

  place-root :
      (x j : ℕ)
      → i ≤ j
      → Placed sources s (v ∷ vs) x j
      → (s.lowlink x < j → Reaches sources x v)
      → Reaches sources x v
  place-root _ _ le (Placed.active _ _ _) ih = Reaches.here v
  place-root _ _ le (Placed.covered _ _ x j k k_at lt r l un d) ih = ih un
  place-root _ _ le (Placed.deeper _ _ x j k k_at lt p) ih =
      let q : k ≡ i = cc (k_at, at) in absurd (omega (arith, q))

  -- By induction on a bound of the number.
  pub to_root :
      (m x j : ℕ) → j < m → s.on_stack x ≡ true → s.index x ≡ some j → i ≤ j → Reaches sources x v
  to_root zero x j lt on e le = absurd (omega arith)
  to_root (suc m) x j lt on e le =
      let n = core.nodes x on in
      let q : n.at ≡ j = cc (e, n.is_at) in
      let h = node-Joined x j on e le in
      place-root x n.at (omega (arith, q)) n.place (λ un.
        Reaches-trans x n.target v n.target_reached
          (to_root m n.target (s.lowlink x) (omega (arith, q)) n.target_on n.target_at h.low))
