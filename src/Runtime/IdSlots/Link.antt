-- ===== src/Runtime/IdSlots/Link.antt =====
-- Every id can be reached from its hash, and stays so.
use native.Mathlib.Nat.{add-zero}
use dr_lojekyll.Prelude.{
  ℕ, zero, suc, ◌+◌, ◌≤◌, ◌<◌, ◌≡◌, refl, sym, ◌∙◌, true, false, some, List, [], ◌∷◌, arith, length,
  get_elem?, set, length-set, get_elem?-set_self, get_elem?-append_left, get_elem?-append_last,
  ◌++◌, length-append, get_elem?-set_ne, get_elem?-lt, ==_iff, Bool-cases, ◌==◌, ==_ne, Option, inl,
  inr,
}
use dr_lojekyll.Runtime.Probe.Cases.{IsPowerOfTwo, visited, Passes, probe_from-Stops}
use dr_lojekyll.Runtime.Probe.Free.{used, used-set, free_slot}
use dr_lojekyll.Runtime.Probe.{wrap}
use dr_lojekyll.Runtime.Run.{Returns}
use dr_lojekyll.Runtime.IdSlots.{no_id, is_free, place, link_from}

-- `id` is at some slot on the walk from `hash`, and no slot before it is free.
pub record Reaches (slots : List ℕ) (hash id : ℕ) : Type 0 where
  pub round : ℕ
  pub at : visited slots hash round ≡ some id
  pub busy : (e : ℕ) → e < round → Passes is_free (visited slots hash e)
  pub real : is_free id ≡ false

clash :
    (o : Option ℕ) {a b : ℕ} → o ≡ some a → o ≡ some b → is_free a ≡ true → is_free b ≡ false → ⊥
clash o p q e f = cc

-- A free slot takes an entry: what was on some walk is still there.
Passes-set :
    (slots : List ℕ) (i v j : ℕ)
    → is_free v ≡ false
    → i < length slots
    → Passes is_free (get_elem? slots j)
    → Passes is_free (get_elem? (set slots i v) j)
Passes-set slots i v j real lt (s, at, no') = elim (Bool-cases (i == j)) [
  | inl same ↦ (v, rw (← (==_iff i j).0 same) (get_elem?-set_self slots i v lt), real)
  | inr other ↦ (s, get_elem?-set_ne slots i j v (ground arith) ∙ at, no')
]

pub Reaches-set :
    (slots : List ℕ) (i v free : ℕ)
    → get_elem? slots i ≡ some free
    → is_free free ≡ true
    → is_free v ≡ false
    → (hash id : ℕ) → Reaches slots hash id
    → Reaches (set slots i v) hash id
Reaches-set slots i v free at h real hash id r = record {
  round = r.round;
  at =
      rw (length-set slots i v)
        (get_elem?-set_ne slots i _ v (λ e. clash _ at (rw e r.at) h r.real) ∙ r.at);
  busy = λ e lt.
      rw (length-set slots i v)
        (Passes-set slots i v _ real (get_elem?-lt slots i at) (r.busy e lt));
  real = r.real;
}

-- What a run of `place` or `link_from` leaves: the same array but for free slots that are filled.
pub record Fills (slots : List ℕ) (n : ℕ) (slots' : List ℕ) : Type 0 where
  pub same_size : length slots' ≡ length slots
  pub filled : used is_free slots' ≡ used is_free slots + n
  pub keeps : (hash id : ℕ) → Reaches slots hash id → Reaches slots' hash id

pub place-Fills :
    (slots : List ℕ) (id hash : ℕ)
    → IsPowerOfTwo (length slots)
    → used is_free slots < length slots
    → is_free id ≡ false
    → Returns (place slots id hash) (λ slots'. Fills slots 1 slots' × Reaches slots' hash id)
unfolding place
place-Fills slots id hash p room real =
    let (i, s, at, t) = free_slot is_free slots room in
    let w = probe_from-Stops is_free slots p hash i at t in
    let x = wrap (length slots) (hash + w.round) in
    (
      set slots x id,
      rw w.result,
      (
        record {
          same_size = length-set slots x id;
          filled = used-set is_free slots x w.slot id w.at w.accepted real;
          keeps = Reaches-set slots x id w.slot w.at w.accepted real;
        },
        record {
          round = w.round;
          at =
              rw (length-set slots x id)
                (get_elem?-set_self slots x id (get_elem?-lt slots x w.at));
          busy = λ e lt.
              rw (length-set slots x id)
                (Passes-set slots x id _ real (get_elem?-lt slots x w.at) (w.before e lt));
          real = real;
        },
      ),
    )

Fills-trans : {a b c : List ℕ} {m n : ℕ} → Fills a m b → Fills b n c → Fills a (m + n) c
Fills-trans f g = record {
  same_size = g.same_size ∙ f.same_size;
  filled = omega (arith, f.filled, g.filled);
  keeps = λ hash id r. g.keeps hash id (f.keeps hash id r);
}

abbrev pub Linked : List ℕ → ℕ → List ℕ → Type 0
Linked slots id hashes = (i hash : ℕ) → get_elem? hashes i ≡ some hash → Reaches slots hash (id + i)

Linked-cons :
    (slots : List ℕ) (id hash : ℕ) (hashes : List ℕ)
    → Reaches slots hash id
    → Linked slots (suc id) hashes
    → Linked slots id (hash ∷ hashes)
Linked-cons slots id hash hashes r rs zero h e = let q : hash ≡ h = cc in rw (add-zero id, ← q) r
Linked-cons slots id hash hashes r rs (suc i) h e =
    rw (let q : id + suc i ≡ suc id + i = omega arith in q) (rs i h e)

pub Linked-snoc :
    (slots : List ℕ) (id hash : ℕ) (hashes : List ℕ)
    → Linked slots id hashes
    → Reaches slots hash (id + length hashes)
    → Linked slots id (hashes ++ hash ∷ [])
Linked-snoc slots id hash hashes rs r i h e = elim (Bool-cases (i == length hashes)) [
  | inl same ↦
      let at : i ≡ length hashes = (==_iff i (length hashes)).0 same in
      let q : hash ≡ h = cc (get_elem?-append_last hashes hash, rw at at e) in rw (at, ← q) r
  | inr other ↦
      let lt = get_elem?-lt (hashes ++ hash ∷ []) i e in
      let lt' : i < length hashes = ground (arith, lt, length-append hashes (hash ∷ []), other) in
      rs i h (sym (get_elem?-append_left hashes (hash ∷ []) i lt') ∙ e)
]

pub link_from-Fills :
    (hashes slots : List ℕ) (id : ℕ)
    → IsPowerOfTwo (length slots)
    → used is_free slots + length hashes ≤ length slots
    → id + length hashes ≤ no_id
    → Returns
        (link_from id hashes slots)
        (λ slots'. Fills slots (length hashes) slots' × Linked slots' id hashes)
unfolding link_from
link_from-Fills [] slots id p room small = (
  slots,
  refl,
  (record { same_size = refl; filled = omega arith; keeps = λ h i r. r }, λ i hash h. cc),
)
link_from-Fills (hash ∷ hashes) slots id p room small =
    let (slots₁, run₁, (f, r)) =
      place-Fills slots id hash p (omega arith) (==_ne id no_id (omega arith)) in
    let (slots₂, run₂, (g, rs)) =
      link_from-Fills hashes slots₁ (suc id) (rw f.same_size p)
        (omega (arith, f.same_size, f.filled)) (omega arith) in
    (
      slots₂,
      rw (run₁, run₂),
      (
        rw (let e : suc (length hashes) ≡ 1 + length hashes = omega arith in e) (Fills-trans f g),
        Linked-cons slots₂ id hash hashes (g.keeps hash id r) rs,
      ),
    )
