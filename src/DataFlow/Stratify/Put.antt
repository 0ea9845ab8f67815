-- ===== src/DataFlow/Stratify/Put.antt =====
-- The frames are written: the invariant does not read them.
use dr_lojekyll.Prelude.{ℕ, refl, inl, inr, List, arith}
use dr_lojekyll.DataFlow.Stratify.{Walk, Frame}
use dr_lojekyll.DataFlow.Stratify.Invariant.{
  Node, Core, Grows, Grows-Placed, Framing, Grows-Framing,
}

module _ (fs : List Frame) (s : Walk) where
  pub put-Grows : Grows s (record s { frames = fs })
  put-Grows = record {
    index = λ x j e. e;
    lowlink = λ x j e. omega arith;
    finished = λ x k e. e;
    waiting = λ x j on e. inl on;
  }

  put-Node :
      (sources : ℕ → List ℕ) (vs : List ℕ) (x : ℕ)
      → Node sources s vs x
      → Node sources (record s { frames = fs }) vs x
  put-Node sources vs x n = record {
    at = n.at;
    is_at = n.is_at;
    bound = n.bound;
    low = n.low;
    target = n.target;
    target_on = n.target_on;
    target_at = n.target_at;
    target_reached = n.target_reached;
    place = Grows-Placed put-Grows vs x n.at n.is_at refl n.place;
  }

  pub put-Core :
      (sources : ℕ → List ℕ) (vs : List ℕ)
      → Core sources s vs
      → Core sources (record s { frames = fs }) vs
  put-Core sources vs core = record {
    stacked = core.stacked;
    marked = core.marked;
    falling = core.falling;
    nodes = λ x on. put-Node sources vs x (core.nodes x on);
    indexed = λ x j e. elim (core.indexed x j e) [
      | inl o ↦ inl o
      | inr f ↦ inr (record { at = f.at; is_at = f.is_at })
    ];
    sorted = record {
      bound = core.sorted.bound;
      off = core.sorted.off;
      visited = core.sorted.visited;
      closed = λ x k i w e g.
          let q = core.sorted.closed x k i w e g in
          record { at = q.at; is_at = q.is_at; lower = q.lower };
      used = core.sorted.used;
      connected = core.sorted.connected;
    };
  }

  pub put-Framing :
      (sources : ℕ → List ℕ) (b : ℕ) (gs : List Frame)
      → Framing sources s b gs
      → Framing sources (record s { frames = fs }) b gs
  put-Framing sources b gs h = Grows-Framing put-Grows b gs (λ x j on e lt. on) h
