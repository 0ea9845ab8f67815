-- ===== src/Runtime/Counters.antt =====
-- The two derivation counters of a row in DiffTable of Runtime/Table.h: signed 32-bit numbers in
-- one 64-bit word, `C_nr` in the low half and `C_r` in the high half.
use dr_lojekyll.Prelude.Bits.{bit_or-fields}
use dr_lojekyll.Prelude.Int.{ℤ, pos, negsuc, pos_part, neg_part, ◌+ℤ◌}
use dr_lojekyll.Prelude.{
  ℕ, ◌+◌, ◌-◌, ◌*◌, ◌/◌, ◌%◌, ◌^◌, ◌≤◌, ◌<◌, ◌≡◌, bit_or, Bool, false, arith, refl, ltb, ◌==◌,
  if◌then◌else◌,
}

pub data DerivClass : Type 0 where
  non_recursive recursive : DerivClass

-- The number that a 32-bit pattern stands for, and the pattern of a number.
abbrev signed32 : ℕ → ℤ
signed32 w = if ltb w (2 ^ 31) then pos w else negsuc (2 ^ 32 - 1 - w)

abbrev word32 : ℤ → ℕ
word32 (pos n) = n % 2 ^ 32
word32 (negsuc n) = 2 ^ 32 - 1 - n % 2 ^ 32

unfoldable pub count_nr : ℕ → ℤ
count_nr w = signed32 (w % 2 ^ 32)

unfoldable pub count_r : ℕ → ℤ
count_r w = signed32 (w / 2 ^ 32 % 2 ^ 32)

unfoldable pub pack : ℤ → ℤ → ℕ
pack nr r = bit_or (word32 r * 2 ^ 32) (word32 nr)

unfoldable pub total : ℕ → ℤ
total w = count_nr w +ℤ count_r w

-- `target == INT32_MAX || target == INT32_MIN`
unfoldable pub at_limit : ℤ → Bool
at_limit (pos n) = n == 2 ^ 31 - 1
at_limit (negsuc n) = n == 2 ^ 31 - 1

-- Strictly between the two limits.
abbrev pub InRange : ℤ → Type 0
InRange z = (pos_part z < 2 ^ 31 - 1) × (neg_part z < 2 ^ 31)

word32-lt : (z : ℤ) → word32 z < 2 ^ 32
word32-lt (pos n) = omega arith
word32-lt (negsuc n) = omega arith

signed32-word32 : (z : ℤ) → InRange z → signed32 (word32 z) ≡ z
signed32-word32 (pos n) h = ground arith
signed32-word32 (negsuc n) h = ground arith

pub pack_lem : (nr r : ℤ) → pack nr r ≡ word32 r * 2 ^ 32 + word32 nr
unfolding pack
pack_lem nr r = bit_or-fields 32 (word32 r) (word32 nr) (word32-lt nr)

low_field : (a b : ℕ) → b < 2 ^ 32 → (a * 2 ^ 32 + b) % 2 ^ 32 ≡ b
low_field a b h = omega arith

high_field : (a b : ℕ) → a < 2 ^ 32 → b < 2 ^ 32 → (a * 2 ^ 32 + b) / 2 ^ 32 % 2 ^ 32 ≡ a
high_field a b h k = omega arith

-- Unpacking a packed word gives back both counters, whatever their signs, as long as neither is
-- `INT32_MAX` or `INT32_MIN`.
pub count-pack :
    (nr r : ℤ) → InRange nr → InRange r → (count_nr (pack nr r) ≡ nr) × (count_r (pack nr r) ≡ r)
unfolding count_nr count_r
count-pack nr r hn hr = (
  rw (pack_lem nr r, low_field (word32 r) (word32 nr) (word32-lt nr)) (signed32-word32 nr hn),
  rw (pack_lem nr r, high_field (word32 r) (word32 nr) (word32-lt r) (word32-lt nr))
      (signed32-word32 r hr),
)

-- One more or one less, short of the limits, stays in range.
pub step-InRange :
    (z d : ℤ)
    → InRange z
    → pos_part d + neg_part d ≤ 1
    → at_limit (z +ℤ d) ≡ false
    → InRange (z +ℤ d)
unfolding at_limit ◌+ℤ◌
step-InRange z d h k l = ground arith

-- A fresh word counts nothing.
pub counters_zero : (count_nr 0 ≡ pos 0) × (count_r 0 ≡ pos 0) × (total 0 ≡ pos 0)
unfolding total count_nr count_r ◌+ℤ◌
counters_zero = (refl, refl, refl)
