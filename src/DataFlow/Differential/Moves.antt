-- ===== src/DataFlow/Differential/Moves.antt =====
-- The flags only ever rise: what a step of the pass does to the marks, and that the rounds come to an end.
use dr_lojekyll.Prelude.{
  ℕ, length, length-set, zero, suc, ◌+◌, ◌≤◌, ◌<◌, ◌≡◌, refl, ◌∙◌, ◌⊎◌, inl, inr, Bool, true, false,
  ◌&&◌, ◌||◌, List, [], ◌∷◌, map, set, arith, if◌then◌else◌, ◌==◌, Bool-cases, Option-cases,
}
use dr_lojekyll.DataFlow.Differential.{
  Negate, View, Marks, seam, is_set, is_unset, raise_receive, raise_produce, raise_all,
  report_never, visit_negate, visit_negation, visit_receive, visit_produce, visit, sweep,
  start_marks, rounds, num_flags, track_updates,
}

unfoldable pub num_unset : List Bool → ℕ
num_unset [] = 0
num_unset (b ∷ flags) = (if b then 0 else 1) + num_unset flags

abbrev pub left : Marks → ℕ
left s = num_unset s.can_receive + num_unset s.can_produce

num_unset-set :
    (v : ℕ) (flags : List Bool)
    → is_unset v flags ≡ true
    → suc (num_unset (set flags v true)) ≡ num_unset flags
unfolding num_unset is_unset
num_unset-set v [] h = absurd (cc h)
num_unset-set zero (true ∷ flags) h = absurd (cc h)
num_unset-set zero (false ∷ flags) h = omega arith
num_unset-set (suc v) (b ∷ flags) h = let e = num_unset-set v flags h in omega arith

is_unset-set :
    (v : ℕ) (flags : List Bool) (u : ℕ)
    → is_unset u flags ≡ false
    → is_unset u (set flags v true) ≡ false
unfolding is_unset
is_unset-set v [] u h = refl
is_unset-set zero (b ∷ flags) zero h = refl
is_unset-set zero (b ∷ flags) (suc u) h = h
is_unset-set (suc v) (b ∷ flags) zero h = h
is_unset-set (suc v) (b ∷ flags) (suc u) h = is_unset-set v flags u h

-- Nothing changed, or a flag is raised.
pub record Moves (s s' : Marks) : Type 0 where
  pub quiet :
      s'.changed ≡ false
      → (s.changed ≡ false) × (s'.can_receive ≡ s.can_receive) × (s'.can_produce ≡ s.can_produce)
  pub fewer : left s' ≤ left s
  pub progress : s'.changed ≡ true → (s.changed ≡ true) ⊎ (left s' < left s)
  pub errors : s.num_errors ≤ s'.num_errors
  pub lengths :
      (length s'.can_receive ≡ length s.can_receive)
      × (length s'.can_produce ≡ length s.can_produce)
  pub stay_received : (v : ℕ) → is_unset v s.can_receive ≡ false → is_unset v s'.can_receive ≡ false
  pub stay_produced : (v : ℕ) → is_unset v s.can_produce ≡ false → is_unset v s'.can_produce ≡ false

pub Moves-refl : (s : Marks) → Moves s s
Moves-refl s = record {
  quiet = λ e. (e, refl, refl);
  fewer = omega arith;
  progress = λ e. inl e;
  errors = omega arith;
  lengths = (refl, refl);
  stay_received = λ v e. e;
  stay_produced = λ v e. e;
}

pub Moves-trans : (s s' s'' : Marks) → Moves s s' → Moves s' s'' → Moves s s''
Moves-trans s s' s'' h k = record {
  quiet = λ e. let a = k.quiet e in let b = h.quiet a.0 in (b.0, a.1 ∙ b.1, a.2 ∙ b.2);
  fewer = let a = h.fewer in let b = k.fewer in omega arith;
  progress = λ e. elim (k.progress e) [
    | inl f ↦ elim (h.progress f) [ inl g ↦ inl g | inr l ↦ inr (let b = k.fewer in omega arith) ]
    | inr l ↦ inr (let a = h.fewer in omega arith)
  ];
  errors = let a = h.errors in let b = k.errors in omega arith;
  lengths = (k.lengths.0 ∙ h.lengths.0, k.lengths.1 ∙ h.lengths.1);
  stay_received = λ v e. k.stay_received v (h.stay_received v e);
  stay_produced = λ v e. k.stay_produced v (h.stay_produced v e);
}

pub if-Moves : (b : Bool) (s x y : Marks) → Moves s x → Moves s y → Moves s (if b then x else y)
if-Moves true s x y h k = h
if-Moves false s x y h k = k

pub raise_receive-Moves : (v : ℕ) (s : Marks) → Moves s (raise_receive v s)
unfolding raise_receive
raise_receive-Moves v s = elim (Bool-cases (is_unset v s.can_receive)) [
  | inr f ↦ rw (f, raise_receive) (Moves-refl s)
  | inl t ↦
      let e = num_unset-set v s.can_receive t in
      rw (t, raise_receive)
        (record {
          quiet = λ h. absurd (cc h);
          fewer = omega arith;
          progress = λ h. inr (omega arith);
          errors = omega arith;
          lengths = (length-set s.can_receive v true, refl);
          stay_received = is_unset-set v s.can_receive;
          stay_produced = λ u e. e;
        })
]

pub raise_produce-Moves : (v : ℕ) (s : Marks) → Moves s (raise_produce v s)
unfolding raise_produce
raise_produce-Moves v s = elim (Bool-cases (is_unset v s.can_produce)) [
  | inr f ↦ rw (f, raise_produce) (Moves-refl s)
  | inl t ↦
      let e = num_unset-set v s.can_produce t in
      rw (t, raise_produce)
        (record {
          quiet = λ h. absurd (cc h);
          fewer = omega arith;
          progress = λ h. inr (omega arith);
          errors = omega arith;
          lengths = (refl, length-set s.can_produce v true);
          stay_received = λ u e. e;
          stay_produced = is_unset-set v s.can_produce;
        })
]

pub raise_all-Moves : (vs : List ℕ) (s : Marks) → Moves s (raise_all vs s)
unfolding raise_all
raise_all-Moves [] s = Moves-refl s
raise_all-Moves (v ∷ vs) s =
    Moves-trans s (raise_receive v s) _ (raise_receive-Moves v s)
      (raise_all-Moves vs (raise_receive v s))

pub visit_receive-Moves : (v : ℕ) (s : Marks) → Moves s (visit_receive v s)
unfolding visit_receive
visit_receive-Moves v s =
    if-Moves (is_set v s.can_receive) s (raise_produce v s) s (raise_produce-Moves v s)
      (Moves-refl s)

pub visit_produce-Moves : (v : ℕ) (users : List ℕ) (s : Marks) → Moves s (visit_produce v users s)
unfolding visit_produce
visit_produce-Moves v users s =
    if-Moves (is_set v s.can_produce) s (raise_all users s) s (raise_all-Moves users s)
      (Moves-refl s)

report_never-Moves : (n : Negate) (s : Marks) → Moves s (report_never n s)
unfolding report_never
report_never-Moves n s =
    if-Moves (is_set n.negated_view s.can_produce) s
      (record s { num_errors = s.num_errors + n.num_never }) s
      (record {
        quiet = λ e. (e, refl, refl);
        fewer = omega arith;
        progress = λ e. inl e;
        errors = omega arith;
        lengths = (refl, refl);
        stay_received = λ v e. e;
        stay_produced = λ v e. e;
      })
      (Moves-refl s)

visit_negate-Moves : (v : ℕ) (n : Negate) (s : Marks) → Moves s (visit_negate v n s)
unfolding visit_negate visit_receive
visit_negate-Moves v n s =
    if-Moves n.is_never s (report_never n (visit_receive v s)) (raise_produce v s)
      (Moves-trans s (visit_receive v s) _ (visit_receive-Moves v s)
        (report_never-Moves n (visit_receive v s)))
      (raise_produce-Moves v s)

pub visit_negation-Moves : (v : ℕ) (w : View) (s : Marks) → Moves s (visit_negation v w s)
unfolding visit_negation
visit_negation-Moves v w s = elim (Bool-cases (is_set v s.can_produce)) [
  | inl t ↦ rw (t, visit_negation) (Moves-refl s)
  | inr f ↦ elim (Option-cases w.negate) [
    | inl e ↦ rw (f, visit_negation, e) (Moves-refl s)
    | inr (n, e) ↦ rw (f, visit_negation, e) (visit_negate-Moves v n s)
  ]
]

pub visit-Moves : (views : List View) (v : ℕ) (w : View) (s : Marks) → Moves s (visit views v w s)
unfolding visit
visit-Moves views v w s =
    let a = visit_negation v w s in
    let b = visit_receive v a in
    let c = visit_produce v (seam views w) b in
    Moves-trans s a _ (visit_negation-Moves v w s) (
      Moves-trans a b _ (visit_receive-Moves v a) (
        Moves-trans b c _ (visit_produce-Moves v (seam views w) b)
          (visit_produce-Moves v w.users c)))

pub sweep-Moves :
    (views : List View) (v : ℕ) (ws : List View) (s : Marks) → Moves s (sweep views v ws s)
unfolding sweep
sweep-Moves views v [] s = Moves-refl s
sweep-Moves views v (w ∷ ws) s =
    Moves-trans s (visit views v w s) _ (visit-Moves views v w s)
      (sweep-Moves views (v + 1) ws (visit views v w s))

-- The rounds are over: an error is reported, or the last of them changed nothing.
abbrev pub IsSettled : Marks → Type 0
IsSettled s = (0 < s.num_errors) ⊎ (s.changed ≡ false)

if-IsSettled :
    (b : Bool) (s t : Marks)
    → (b ≡ true → IsSettled t)
    → (b ≡ false → IsSettled s)
    → IsSettled (if b then t else s)
if-IsSettled true s t h k = h refl
if-IsSettled false s t h k = k refl

and_first : (a b : Bool) → (a && b) ≡ true → a ≡ true
and_first true b h = refl
and_first false b h = h

-- Each round but the last raises a flag.
rounds-IsSettled :
    (fuel : ℕ) (views : List View) (s : Marks)
    → (s.changed ≡ true → left s < fuel)
    → IsSettled (rounds fuel views s)
unfolding rounds
rounds-IsSettled zero views s h = elim (Bool-cases s.changed) [
  | inl t ↦ let l = h t in absurd (omega arith)
  | inr f ↦ inr f
]
rounds-IsSettled (suc fuel) views s h =
    let next = sweep views 0 views (record s { changed = false }) in
    let m = sweep-Moves views 0 views (record s { changed = false }) in
    if-IsSettled (s.changed && (s.num_errors == 0)) s (rounds fuel views next)
      (λ t. rounds-IsSettled fuel views next (λ e. elim (m.progress e) [
        | inl c ↦ absurd (cc c)
        | inr l ↦ let k = h (and_first s.changed (s.num_errors == 0) t) in omega arith
      ]))
      (λ f. elim (Bool-cases s.changed) [
        | inr g ↦ inr g
        | inl t ↦ inl (let z : (s.num_errors == 0) ≡ false = rw t at f in ground (arith, z))
      ])

num_unset-map :
    (p q : View → Bool) (views : List View)
    → num_unset (map p views) + num_unset (map q views) < num_flags views
unfolding num_unset num_flags
num_unset-map p q [] = omega arith
num_unset-map p q (w ∷ views) = let e = num_unset-map p q views in ground (arith, e)

-- The rounds of the pass end, with one round more than there are flags: then an error is in the
-- log, or the last round changed nothing.
pub track_updates-IsSettled :
    (num_errors : ℕ) (views : List View) → IsSettled (track_updates num_errors views)
unfolding track_updates start_marks
track_updates-IsSettled num_errors views =
    rounds-IsSettled (num_flags views) views (start_marks num_errors views) (λ t.
      num_unset-map (λ w. w.receives_differential) (λ w. w.receives_differential || w.churns) views)
