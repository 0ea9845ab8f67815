-- ===== src/Runtime/Probe.antt =====
-- The open-addressing walk that RowStore, Index and StateCellStore share:
-- `for (i = hash & (capacity - 1);; i = (i + 1) & (capacity - 1))`, left at the first slot that
-- the body of the loop accepts.
pub mod Cases
pub mod Free
use dr_lojekyll.Prelude.{
  ℕ, zero, suc, ◌+◌, ◌-◌, Bool, true, false, Option, none, some, List, bit_and, get_elem?, length,
}

-- `x & (capacity - 1)`
unfoldable pub wrap : ℕ → ℕ → ℕ
wrap cap x = bit_and x (cap - 1)

module _ {ℓ} {S : Type ℓ} where
  -- The slot at which the loop stops, with its contents. `none` is a walk that ran out of fuel, or
  -- left the array.
  unfoldable pub probe : (S → Bool) → List S → ℕ → ℕ → Option (ℕ × S)
  probe stop slots zero i = none
  probe stop slots (suc fuel) i = elim (get_elem? slots i) [
    | none ↦ none
    | some s ↦ elim (stop s) [
      | true ↦ some (i, s)
      | false ↦ probe stop slots fuel (wrap (length slots) (i + 1))
    ]
  ]

  -- The walk from a hash. One round over the array is enough: it comes back where it began.
  unfoldable pub probe_from : (S → Bool) → List S → ℕ → Option (ℕ × S)
  probe_from stop slots hash = probe stop slots (length slots) (wrap (length slots) hash)
