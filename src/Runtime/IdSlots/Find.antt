-- ===== src/Runtime/IdSlots/Find.antt =====
-- The set of ids as its clients see it: every id is found from its hash, and room is left.
use native.Mathlib.Nat.{pow-suc, zero-add}
use dr_lojekyll.Prelude.Bits.{pow-pos}
use dr_lojekyll.Prelude.{
  ℕ, suc, ◌+◌, ◌/◌, ◌≤◌, ◌<◌, ◌≡◌, refl, ◌∙◌, Bool, true, false, ◌||◌, some, List, [], ◌∷◌, ◌++◌,
  arith, length, get_elem?, length-append, length-replicate, Bool-cases, ◌⊎◌, inl, inr, replicate,
  ◌==◌, Option, ltb, ==_ne, ap, leb,
}
use dr_lojekyll.Runtime.IdSlots.Link.{Reaches, place-Fills, Linked, link_from-Fills, Linked-snoc}
use dr_lojekyll.Runtime.IdSlots.{
  no_id, is_free, find_id, place, link_from, grown, rehash, insert_slot,
}
use dr_lojekyll.Runtime.Probe.Cases.{IsPowerOfTwo, Stops, Passes, probe_from-Stops, visited}
use dr_lojekyll.Runtime.Probe.{probe_from}
use dr_lojekyll.Runtime.Probe.Free.{used, used-replicate, free_slot}
use dr_lojekyll.Runtime.Run.{ok, Returns}

-- The arrays of a store that has grown at least once.
pub record IsLinked (hashes slots : List ℕ) : Type 0 where
  pub size : IsPowerOfTwo (length slots)
  pub reach : Linked slots 0 hashes
  pub filled : used is_free slots ≤ length hashes
  pub load : length hashes + length hashes / 8 < length slots
  pub small : length hashes ≤ no_id

-- The arrays of any store: empty before the first insertion.
abbrev pub IsStored : List ℕ → List ℕ → Type 0
IsStored hashes slots = ((hashes ≡ []) × (slots ≡ [])) ⊎ IsLinked hashes slots

pub replicate-Fills :
    (n : ℕ) (hashes : List ℕ)
    → IsPowerOfTwo n
    → length hashes + length hashes / 8 < n
    → length hashes ≤ no_id
    → Returns (link_from 0 hashes (replicate n no_id)) (IsLinked hashes)
replicate-Fills n hashes p load small =
    let fresh = replicate n no_id in
    let len = length-replicate n no_id in
    let none_used = used-replicate is_free n no_id refl in
    let (slots, run, (f, rs)) =
      link_from-Fills hashes fresh 0 (rw len p) (omega (arith, len, none_used)) (omega arith) in
    (
      slots,
      run,
      record {
        size = rw (f.same_size ∙ len) p;
        reach = rs;
        filled = omega (arith, f.filled, none_used);
        load = omega (arith, f.same_size, len, load);
        small = small;
      },
    )

pub grown-IsPowerOfTwo : (n : ℕ) → (n ≡ 0) ⊎ IsPowerOfTwo n → IsPowerOfTwo (grown n)
unfolding grown
grown-IsPowerOfTwo n (inl e) = (6, rw e refl)
grown-IsPowerOfTwo n (inr (k, e)) = (suc k, ground (arith, pow-suc 2 k, pow-pos k))

grown_fits :
    (hashes slots : List ℕ) (n : ℕ)
    → ((length slots ≡ 0) × (length hashes ≡ 0))
      ⊎ (IsPowerOfTwo (length slots) × (length hashes + length hashes / 8 < length slots))
    → n ≡ length hashes + 1
    → IsPowerOfTwo (grown (length slots)) × (n + n / 8 < grown (length slots))
unfolding grown
grown_fits hashes slots n (inl (e, f)) q = (grown-IsPowerOfTwo _ (inl e), ground arith)
grown_fits hashes slots n (inr (p, load)) q = (grown-IsPowerOfTwo _ (inr p), ground arith)

empty_full : (cap n : ℕ) → cap ≡ 0 → leb cap (n + n / 8) ≡ false → ⊥
empty_full cap n e h = ground arith

IsStored-size :
    (hashes slots : List ℕ)
    → IsStored hashes slots
    → ((length slots ≡ 0) × (length hashes ≡ 0))
      ⊎ (IsPowerOfTwo (length slots) × (length hashes + length hashes / 8 < length slots))
IsStored-size hashes slots (inl (e, f)) = inl (ap length f, ap length e)
IsStored-size hashes slots (inr v) = inr (v.size, v.load)

place-IsLinked :
    (hashes slots : List ℕ) (hash : ℕ)
    → IsLinked hashes slots
    → length hashes < no_id
    → length hashes + 1 + (length hashes + 1) / 8 < length slots
    → Returns (place slots (length hashes) hash) (IsLinked (hashes ++ hash ∷ []))
place-IsLinked hashes slots hash v small room =
    let (slots', run, (f, r)) =
      place-Fills slots (length hashes) hash v.size (omega (arith, v.filled))
        (==_ne (length hashes) no_id (omega arith)) in
    let count = length-append hashes (hash ∷ []) in
    (
      slots',
      run,
      record {
        size = rw f.same_size v.size;
        reach =
            Linked-snoc slots' 0 hash hashes (λ i h e. f.keeps h (0 + i) (v.reach i h e))
              (rw zero-add r);
        filled = omega (arith, f.filled, v.filled, count);
        load = rw (count, f.same_size) room;
        small = omega (arith, count);
      },
    )

-- On slots from which every stored id is reached by its hash, `InsertSlot` of the next id ends,
-- grows the array if the load asks for it, and leaves slots from which every id, the new one
-- included, is reached by its hash, with a free slot and a size that is a power of two.
pub insert_slot-IsLinked :
    (hashes slots : List ℕ) (hash : ℕ)
    → IsStored hashes slots
    → length hashes < no_id
    → Returns
        (insert_slot (hashes ++ hash ∷ []) slots (length hashes) hash)
        (IsLinked (hashes ++ hash ∷ []))
unfolding insert_slot rehash
insert_slot-IsLinked hashes slots hash s small =
    let n = length (hashes ++ hash ∷ []) in
    let count = length-append hashes (hash ∷ []) in
    elim (Bool-cases (leb (length slots) (n + n / 8))) [
      | inl full ↦
          let fits =
            grown_fits hashes slots n (IsStored-size hashes slots s) (omega (arith, count)) in
          rw full (
            replicate-Fills (grown (length slots)) (hashes ++ hash ∷ []) fits.0 fits.1
              (omega (arith, count)))
      | inr room ↦ rw room (elim s [
        | inl (e, f) ↦ absurd (empty_full (length slots) n (ap length f) room)
        | inr v ↦ place-IsLinked hashes slots hash v small (ground (arith, count, room))
      ])
    ]

abbrev stop : (ℕ → Bool) → ℕ → Bool
stop hit id = is_free id || hit id

stop_hit : (hit : ℕ → Bool) (id : ℕ) → hit id ≡ true → stop hit id ≡ true
stop_hit hit id h = ground arith

stop_free : (hit : ℕ → Bool) (id : ℕ) → is_free id ≡ true → stop hit id ≡ true
stop_free hit id h = ground arith

not_passed : (f : ℕ → Bool) (o : Option ℕ) {a : ℕ} → o ≡ some a → f a ≡ true → ¬ Passes f o
not_passed f o {a} e t (s, e', n) = let q : a ≡ s = cc in let n' : f a ≡ false = rw q n in cc

-- The walk stops at the target's slot at the latest, so not at a free one.
Stops-hit :
    (hit : ℕ → Bool) (slots : List ℕ) (hash id : ℕ)
    → hit id ≡ true
    → (r : Reaches slots hash id) → (o : Option (ℕ × ℕ))
    → (w : Stops (stop hit) slots hash (length slots) o) → is_free w.slot ≡ false
Stops-hit hit slots hash id h r o w = elim (Bool-cases (is_free w.slot)) [
  | inr used_slot ↦ used_slot
  | inl t ↦ elim (Bool-cases (ltb w.round r.round)) [
    | inl sooner ↦ absurd (not_passed is_free _ w.at t (r.busy w.round (ground arith)))
    | inr later ↦ elim (Bool-cases (w.round == r.round)) [
      | inl same ↦
          let e : w.round ≡ r.round = ground arith in
          let at : visited slots hash r.round ≡ some w.slot = rw e at w.at in
          let q : w.slot ≡ id = cc (at, r.at) in rw q r.real
      | inr other ↦
          absurd
            (not_passed (stop hit) _ r.at (stop_hit hit id h) (w.before r.round (ground arith)))
    ]
  ]
]

is_free-eq : (id : ℕ) → is_free id ≡ true → id ≡ no_id
is_free-eq id h = ground arith

module _ (hit : ℕ → Bool) (hashes slots : List ℕ) (hash : ℕ) where
  find_id_lem :
      (o : Option (ℕ × ℕ)) (w : Stops (stop hit) slots hash (length slots) o)
      → probe_from (stop hit) slots hash ≡ o
      → 0 < length slots
      → find_id hit slots hash ≡ ok w.slot
  unfolding find_id
  find_id_lem o w e h = rw (==_ne (length slots) 0 (omega arith), e, w.result)

  find_id-hit_linked :
      (id : ℕ)
      → IsLinked hashes slots
      → get_elem? hashes id ≡ some hash
      → hit id ≡ true
      → Returns (find_id hit slots hash) (λ r. (hit r ≡ true) × (is_free r ≡ false))
  find_id-hit_linked id v e h =
      let r = rw zero-add at (v.reach id hash e) in
      let w = probe_from-Stops (stop hit) slots v.size hash _ r.at (stop_hit hit id h) in
      let used_slot = Stops-hit hit slots hash id h r _ w in
      (
        w.slot,
        find_id_lem _ w refl (omega (arith, v.load)),
        (ground (arith, w.accepted, used_slot), used_slot),
      )

  -- The lookup ends. It returns an id that hits, if one with this hash does.
  pub find_id-hit :
      (id : ℕ)
      → IsStored hashes slots
      → get_elem? hashes id ≡ some hash
      → hit id ≡ true
      → Returns (find_id hit slots hash) (λ r. (hit r ≡ true) × (is_free r ≡ false))
  find_id-hit id (inl (none', _)) e h = absurd (cc (rw none' at e))
  find_id-hit id (inr v) e h = find_id-hit_linked id v e h

  -- Where nothing hits it returns `no_id`.
  pub find_id-miss :
      IsStored hashes slots → ((id : ℕ) → hit id ≡ false) → find_id hit slots hash ≡ ok no_id
  unfolding find_id
  find_id-miss (inl (_, e)) h = rw e
  find_id-miss (inr v) h =
      let (i, s, at, t) = free_slot is_free slots (omega (arith, v.filled, v.load)) in
      let w = probe_from-Stops (stop hit) slots v.size hash i at (stop_free hit s t) in
      rw (find_id_lem _ w refl (omega (arith, v.load)))
        (ap ok (is_free-eq w.slot (ground (arith, w.accepted, h w.slot))))
