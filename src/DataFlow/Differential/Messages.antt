-- ===== src/DataFlow/Differential/Messages.antt =====
-- Messages that are sent with deletions are reported, unless they are marked for them.
use dr_lojekyll.Prelude.{
  ℕ, zero, suc, ◌+◌, ◌≡◌, ◌↔◌, refl, subst, inl, inr, true, false, not, ◌&&◌, none, some, List, [],
  ◌∷◌, get_elem?, arith, if◌then◌else◌, Bool-cases, Option-cases,
}
use dr_lojekyll.DataFlow.Differential.{
  View, Marks, is_set, message_errors, track_updates, track_differential_updates,
}
use dr_lojekyll.DataFlow.Differential.Reasons.{Direction, Reason}
use dr_lojekyll.DataFlow.Differential.Exact.{track_updates-Exact}

-- No view from place `v` on sends an unmarked message with deletions.
abbrev NoneSends : ℕ → List View → Marks → Type 0
NoneSends v views s =
    (i : ℕ) (w : View)
    → get_elem? views i ≡ some w
    → w.sends ≡ some false
    → is_set (v + i) s.can_produce ≡ false

one_error : ℕ → View → Marks → ℕ
one_error v w s = elim w.sends [
  | none ↦ 0
  | some is_differential ↦ if not is_differential && is_set v s.can_produce then 1 else 0
]

message_errors-cons :
    (v : ℕ) (w : View) (views : List View) (s : Marks)
    → message_errors v (w ∷ views) s ≡ message_errors (v + 1) views s + one_error v w s
unfolding message_errors one_error
message_errors-cons v w views s = elim (Option-cases w.sends) [
  | inl e ↦ rw (e, message_errors, one_error) (omega arith)
  | inr (b, e) ↦ rw (e, message_errors, one_error) (ground arith)
]

one_error-zero :
    (v : ℕ) (w : View) (s : Marks)
    → one_error v w s ≡ 0
    → w.sends ≡ some false
    → is_set v s.can_produce ≡ false
unfolding one_error
one_error-zero v w s z e = elim (Bool-cases (is_set v s.can_produce)) [
  | inl t ↦ absurd (let k : 1 ≡ 0 = rw (e, t, one_error) at z in omega arith)
  | inr f ↦ f
]

one_error-none :
    (v : ℕ) (w : View) (s : Marks)
    → (w.sends ≡ some false → is_set v s.can_produce ≡ false)
    → one_error v w s ≡ 0
unfolding one_error
one_error-none v w s h = elim (Option-cases w.sends) [
  | inl e ↦ rw (e, one_error) refl
  | inr (true, e) ↦ rw (e, one_error) refl
  | inr (false, e) ↦ rw (e, h e, one_error) refl
]

message_errors-zero :
    (v : ℕ) (views : List View) (s : Marks) → message_errors v views s ≡ 0 → NoneSends v views s
message_errors-zero v [] s z i w g e = absurd (cc g)
message_errors-zero v (x ∷ views) s z zero w g e =
    let a = message_errors-cons v x views s in
    let q : x ≡ w = cc g in
    let k : v ≡ v + 0 = omega arith in
    subst (λ n. is_set n s.can_produce ≡ false) k (one_error-zero v x s (omega arith) (rw q e))
message_errors-zero v (x ∷ views) s z (suc i) w g e =
    let a = message_errors-cons v x views s in
    let k : v + 1 + i ≡ v + suc i = omega arith in
    subst (λ n. is_set n s.can_produce ≡ false) k
      (message_errors-zero (v + 1) views s (omega arith) i w g e)

message_errors-none :
    (v : ℕ) (views : List View) (s : Marks) → NoneSends v views s → message_errors v views s ≡ 0
unfolding message_errors
message_errors-none v [] s h = refl
message_errors-none v (x ∷ views) s h =
    let a = message_errors-cons v x views s in
    let b = one_error-none v x s (λ e.
      let k : v + 0 ≡ v = omega arith in
      subst (λ n. is_set n s.can_produce ≡ false) k (h 0 x refl e)) in
    let c = message_errors-none (v + 1) views s (λ i w g e.
      let k : v + suc i ≡ v + 1 + i = omega arith in
      subst (λ n. is_set n s.can_produce ≡ false) k (h (suc i) w g e)) in
    omega arith

-- No unmarked message has a reason for deletions.
abbrev pub IsFaithful : List View → Type 0
IsFaithful views =
    (v : ℕ) (w : View)
    → get_elem? views v ≡ some w
    → w.sends ≡ some false
    → Reason views Direction.produce v
    → ⊥

-- When no error is in the log before messages are checked, the check reports none exactly if no
-- INSERT into a message that is not marked as differential has a reason to produce deletions.
pub track_differential_updates_iff :
    (num_errors : ℕ) (views : List View)
    → (track_updates num_errors views).num_errors ≡ 0
    → ((track_differential_updates true num_errors views).num_errors ≡ 0) ↔ IsFaithful views
unfolding track_differential_updates
track_differential_updates_iff num_errors views z =
    let s = track_updates num_errors views in
    let x = track_updates-Exact num_errors views z in
    (
      λ e v w g m r.
          let f = message_errors-zero 0 views s (omega arith) v w g m in
          let q : 0 + v ≡ v = omega arith in
          let t = (x.produced v w g).1 r in
          absurd (cc (t, subst (λ n. is_set n s.can_produce ≡ false) q f)),
      λ h.
          let k = message_errors-none 0 views s (λ i w g m.
            elim (Bool-cases (is_set (0 + i) s.can_produce)) [
              | inr f ↦ f
              | inl t ↦
                  let q : 0 + i ≡ i = omega arith in
                  absurd (
                    h i w g m
                      ((x.produced i w g).0 (subst (λ n. is_set n s.can_produce ≡ true) q t)))
            ]) in
          omega arith,
    )
