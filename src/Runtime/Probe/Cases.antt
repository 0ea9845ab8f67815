-- ===== src/Runtime/Probe/Cases.antt =====
-- Where the walk ends.
use native.Mathlib.Nat.{mod-lt, mod-eq_of_lt, mod-add-mod, add-mod-mod, add-mod_left, add-zero}
use dr_lojekyll.Prelude.Bits.{bit_and-mask, pow-pos}
use dr_lojekyll.Prelude.{
  ℕ, zero, suc, ◌+◌, ◌-◌, ◌%◌, ◌^◌, ◌<◌, ◌≡◌, refl, sym, ap, ◌∙◌, ◌⊎◌, inl, inr, Bool, true, false,
  Option, none, some, List, arith, get_elem?, get_elem?_of_lt, get_elem?-lt, length, Bool-cases,
}
use dr_lojekyll.Runtime.Probe.{wrap, probe, probe_from}

-- The sizes that the stores allocate.
abbrev pub IsPowerOfTwo : ℕ → Type 0
IsPowerOfTwo n = (k : ℕ) × (n ≡ 2 ^ k)

pub pos-IsPowerOfTwo : (n : ℕ) → IsPowerOfTwo n → 0 < n
pos-IsPowerOfTwo n (k, e) = rw e (pow-pos k)

pub wrap_lem : (cap x : ℕ) → IsPowerOfTwo cap → wrap cap x ≡ x % cap
unfolding wrap
wrap_lem cap x (k, e) = rw e (bit_and-mask k x)

pub wrap-lt : (cap x : ℕ) → IsPowerOfTwo cap → wrap cap x < cap
wrap-lt cap x p = rw (wrap_lem cap x p) (mod-lt x (pos-IsPowerOfTwo cap p))

pub wrap_add : (cap x e : ℕ) → IsPowerOfTwo cap → wrap cap (wrap cap x + e) ≡ wrap cap (x + e)
wrap_add cap x e p =
    rw (wrap_lem cap x p, wrap_lem cap (x % cap + e) p, wrap_lem cap (x + e) p)
      (mod-add-mod x cap e)

mod_reach : (cap i t : ℕ) → i < cap → t < cap → (i + (cap + t - i) % cap) % cap ≡ t
mod_reach cap i t hi ht =
    add-mod-mod i (cap + t - i) cap
    ∙ ap (λ x. x % cap) (let e : i + (cap + t - i) ≡ cap + t = omega arith in e)
    ∙ add-mod_left cap t
    ∙ mod-eq_of_lt ht

-- Every slot is some number of steps from every other.
pub wrap_reach :
    (cap x t : ℕ) → IsPowerOfTwo cap → t < cap → (d : ℕ) × (d < cap) × (wrap cap (x + d) ≡ t)
wrap_reach cap x t p ht = (
  (cap + t - x % cap) % cap,
  mod-lt _ (pos-IsPowerOfTwo cap p),
  rw (wrap_lem cap _ p) (
      sym (mod-add-mod x cap _) ∙ mod_reach cap (x % cap) t (mod-lt x (pos-IsPowerOfTwo cap p)) ht),
)

module _ {ℓ} {S : Type ℓ} where
  -- The slot that the walk from `x` looks at in its round `e`.
  abbrev pub visited : List S → ℕ → ℕ → Option S
  visited slots x e = get_elem? slots (wrap (length slots) (x + e))

  pub visited_of_lt :
      (slots : List S) (x e : ℕ)
      → IsPowerOfTwo (length slots)
      → (s : S) × (visited slots x e ≡ some s)
  visited_of_lt slots x e p = get_elem?_of_lt slots _ (wrap-lt (length slots) (x + e) p)

  abbrev pub Passes : (S → Bool) → Option S → Type ℓ
  Passes stop o = (s : S) × (o ≡ some s) × (stop s ≡ false)

  -- The walk stops in round `d`, at the first slot that the test accepts.
  pub record Stops (stop : S → Bool) (slots : List S) (x fuel : ℕ) (r : Option (ℕ × S))
      : Type ℓ where
    pub round : ℕ
    pub slot : S
    pub in_time : round < fuel
    pub at : visited slots x round ≡ some slot
    pub accepted : stop slot ≡ true
    pub before : (e : ℕ) → e < round → Passes stop (visited slots x e)
    pub result : r ≡ some (wrap (length slots) (x + round), slot)

  -- The fuel runs out.
  pub record Runs (stop : S → Bool) (slots : List S) (x fuel : ℕ) (r : Option (ℕ × S))
      : Type ℓ where
    pub before : (e : ℕ) → e < fuel → Passes stop (visited slots x e)
    pub result : r ≡ none

  abbrev Ends : (S → Bool) → List S → ℕ → ℕ → Option (ℕ × S) → Type ℓ
  Ends stop slots x fuel r = Stops stop slots x fuel r ⊎ Runs stop slots x fuel r

  module _ (stop : S → Bool) (slots : List S) (p : IsPowerOfTwo (length slots)) where
    later :
        (x : ℕ)
        → Passes stop (visited slots x 0)
        → (n : ℕ) → ((e : ℕ) → e < n → Passes stop (visited slots (x + 1) e))
        → (e : ℕ) → e < suc n
        → Passes stop (visited slots x e)
    later x first n rest zero h = first
    later x first n rest (suc e) h =
        let (s, at, no') = rest e (omega arith) in
        (s, (rw (let q : x + suc e ≡ x + 1 + e = omega arith in q) at), no')

    probe-Ends_next :
        (x fuel : ℕ) (r : Option (ℕ × S))
        → Passes stop (visited slots x 0)
        → Ends stop slots (x + 1) fuel r
        → Ends stop slots x (suc fuel) r
    probe-Ends_next x fuel r first (inl s) = inl (record {
      round = suc s.round;
      slot = s.slot;
      in_time = omega (arith, s.in_time);
      at = rw (let q : x + suc s.round ≡ x + 1 + s.round = omega arith in q) s.at;
      accepted = s.accepted;
      before = later x first s.round s.before;
      result = rw (let q : x + suc s.round ≡ x + 1 + s.round = omega arith in q) s.result;
    })
    probe-Ends_next x fuel r first (inr s) =
        inr (record { before = later x first fuel s.before; result = s.result })

    probe-stop :
        (fuel i : ℕ) (s : S)
        → get_elem? slots i ≡ some s
        → stop s ≡ true
        → probe stop slots (suc fuel) i ≡ some (i, s)
    unfolding probe
    probe-stop fuel i s at t = rw (at, probe, t)

    probe_go :
        (fuel i : ℕ) (s : S)
        → get_elem? slots i ≡ some s
        → stop s ≡ false
        → probe stop slots (suc fuel) i ≡ probe stop slots fuel (wrap (length slots) (i + 1))
    unfolding probe
    probe_go fuel i s at t = rw (at, probe, t)

    probe-Ends :
        (fuel x : ℕ) → Ends stop slots x fuel (probe stop slots fuel (wrap (length slots) x))
    unfolding probe
    probe-Ends zero x = inr (record { before = λ e h. absurd (omega arith); result = refl })
    probe-Ends (suc fuel) x =
        let (s, at) = visited_of_lt slots x 0 p in
        let here = rw (add-zero x) at at in
        elim (Bool-cases (stop s)) [
          | inl t ↦ inl (record {
            round = 0;
            slot = s;
            in_time = omega arith;
            at = at;
            accepted = t;
            before = λ e h. absurd (omega arith);
            result = rw (add-zero x) (probe-stop fuel _ s here t);
          })
          | inr t ↦
              rw (probe_go fuel _ s here t, wrap_add (length slots) x 1 p)
                (probe-Ends_next x fuel _ (s, at, t) (probe-Ends fuel (x + 1)))
        ]

    -- In an array whose size is a power of two and that has a slot which the loop accepts, the
    -- probe loop stops in less rounds than there are slots, at the first accepted slot of its
    -- walk from the hash.
    pub probe_from-Stops :
        (x t : ℕ) {s : S}
        → get_elem? slots t ≡ some s
        → stop s ≡ true
        → Stops stop slots x (length slots) (probe_from stop slots x)
    unfolding probe_from
    probe_from-Stops x t {s} at ok = elim (probe-Ends (length slots) x) [
      | inl found ↦ found
      | inr lost ↦
          let (d, lt, e) = wrap_reach (length slots) x t p (get_elem?-lt slots t at) in
          let (u, at', no') = lost.before d lt in absurd (clash s u (sym at ∙ (rw e at at')) ok no')
    ]
      where
        clash : (s u : S) → some s ≡ some u → stop s ≡ true → stop u ≡ false → ⊥
        clash s u e a b = cc
