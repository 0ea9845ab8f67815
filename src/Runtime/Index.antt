-- ===== src/Runtime/Index.antt =====
-- Index of Runtime/Table.h: a hash map from keys to chains of row ids, threaded through `next`.
use dr_lojekyll.Prelude.{
  ℕ, zero, suc, ◌+◌, ◌-◌, ◌/◌, Bool, true, false, ◌&&◌, Option, none, some, List, [], ◌∷◌, ◌++◌,
  get_elem?, set, replicate, length, leb, ◌==◌, if◌then◌else◌,
}
use dr_lojekyll.Runtime.Hashed.{Hashed, ◌=ᵏ◌}
use dr_lojekyll.Runtime.IdSlots.{no_id, is_free, grown}
use dr_lojekyll.Runtime.Probe.{probe_from}
use dr_lojekyll.Runtime.Run.{Run, ok, ◌>>=◌, or_lost}

-- A slot that is in use. One that is not has no entry, and its `head` is `~0u`.
pub record Entry {ℓ} (K : Type ℓ) : Type ℓ where
  pub key : K
  pub hash : ℕ
  pub head : ℕ

pub record Index {ℓ} (K : Type ℓ) : Type ℓ where
  pub next : List ℕ
  pub slots : List (Option (Entry K))
  pub num_keys : ℕ

abbrev pub empty_index {ℓ} : {K : Type ℓ} → Index K
empty_index = record { next = []; slots = []; num_keys = 0 }

unfoldable pub is_unused {ℓ} : {K : Type ℓ} → Option (Entry K) → Bool
is_unused none = true
is_unused (some e) = false

module _ {ℓ} {K : Type ℓ} where
  -- The walk of an old slot to its place in the new array.
  unfoldable pub relink :
      List (Option (Entry K)) → List (Option (Entry K)) → Run (List (Option (Entry K)))
  relink [] slots = ok slots
  relink (none ∷ old) slots = relink old slots
  relink (some e ∷ old) slots = do
    found ← or_lost (probe_from is_unused slots e.hash)
    relink old (set slots found.0 (some e))

  -- `Rehash`, if the load asks for it.
  unfoldable pub make_room : Index K → Run (Index K)
  make_room ix =
      if leb (length ix.slots) (ix.num_keys + ix.num_keys / 8)
      then (do
        slots ← relink ix.slots (replicate (grown (length ix.slots)) none)
        ok (record ix { slots = slots }))
      else ok ix

  unfoldable pub next_of : Index K → ℕ → Run ℕ
  next_of ix id = or_lost (get_elem? ix.next id)

  -- Slots and the capacity of `next` are kept.
  unfoldable pub clear : Index K → Index K
  clear ix = record { next = []; slots = replicate (length ix.slots) none; num_keys = 0 }

  -- The enumeration of a chain by its readers: `for (id = First(key); id != kNoRow; id = Next(id))`.
  -- Each id is below the one before, so the length of `next` is fuel enough.
  unfoldable pub chain : ℕ → Index K → ℕ → Run (List ℕ)
  chain zero ix id = if is_free id then ok [] else or_lost none
  chain (suc fuel) ix id =
      if is_free id then ok [] else (do id' ← next_of ix id; ids ← chain fuel ix id'; ok (id ∷ ids))

module _ {ℓ} {K : Type ℓ} ⦃h : Hashed K⦄ where
  -- Where the loops of First and FindOrCreateSlot stop.
  unfoldable pub is_slot_of : K → Option (Entry K) → Bool
  is_slot_of key none = true
  is_slot_of key (some e) = (e.hash == h.hash key) && (e.key =ᵏ key)

  unfoldable pub first : K → Index K → Run ℕ
  first key ix = if length ix.slots == 0 then ok no_id else (do
    found ← or_lost (probe_from (is_slot_of key) ix.slots (h.hash key))
    ok (elim found.1 [ none ↦ no_id | some e ↦ e.head ]))

  -- The slot's position, and its entry.
  unfoldable pub find_or_create_slot : K → Index K → Run ((ℕ × Entry K) × Index K)
  find_or_create_slot key ix₀ = do
    ix ← make_room ix₀
    found ← or_lost (probe_from (is_slot_of key) ix.slots (h.hash key))
    let fresh : Entry K = record { key = key; hash = h.hash key; head = no_id }
    ok (elim found.1 [
      | some e ↦ ((found.0, e), ix)
      | none ↦ (
        (found.0, fresh),
        record ix { slots = set ix.slots found.0 (some fresh); num_keys = ix.num_keys + 1 },
      )
    ])

  unfoldable pub add : K → ℕ → Index K → Run (Index K)
  add key id ix₀ = do
    let grown_next = ix₀.next ++ replicate (id + 1 - length ix₀.next) no_id
    ((i, e), ix) ← find_or_create_slot key (record ix₀ { next = grown_next })
    ok (record ix {
      next = set ix.next id e.head;
      slots = set ix.slots i (some (record e { head = id }));
    })

  -- All rows of a key.
  unfoldable pub rows_of : K → Index K → Run (List ℕ)
  rows_of key ix = do id ← first key ix; chain (length ix.next) ix id
