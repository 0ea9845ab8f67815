-- ===== src/Prelude/Bits.antt =====
-- Masks of low bits: `x & (2 ^ k - 1)` is `x % 2 ^ k`, and `|` of disjoint fields is their sum.
use Prim.Native.Nat.{
  ℕ, zero, suc, ◌+◌, ◌-◌, ◌*◌, ◌/◌, ◌%◌, ◌^◌, ◌≤◌, ◌<◌, min, max, bit_and, bit_or, digits,
  bit_and-bitwise, bit_or-bitwise,
}
use mathlib.Core.Path.{◌≡◌, refl, ◌∙◌, ap, sym}
use native.Mathlib.Omega.{arith}
use native.Mathlib.Nat.{
  pow-suc, mul_assoc, mul-add-mod_self_left, mod-eq_of_lt, mod-lt, div-add-mod,
}

-- The native operations walk over the binary digits of their first operand, with fuel: `bit` makes
-- a digit of two, and `rest` ends the walk.
module _ (rest : ℕ → ℕ) (bit : ℕ → ℕ → ℕ) where
  walk_end : (fuel b : ℕ) → digits rest bit fuel 0 b ≡ rest b
  walk_end zero b = refl
  walk_end (suc fuel) b = refl

  -- Fuel beyond the operand makes no difference.
  walk_enough :
      (more less a b : ℕ)
      → a ≤ less
      → a ≤ more
      → digits rest bit more a b ≡ digits rest bit less a b
  walk_enough more less zero b p q = walk_end more b ∙ sym (walk_end less b)
  walk_enough more zero (suc a) b p q = absurd (omega arith)
  walk_enough zero (suc less) (suc a) b p q = absurd (omega arith)
  walk_enough (suc more) (suc less) (suc a) b p q =
      ap (λ high. high * 2 + bit (suc a % 2) (b % 2))
        (walk_enough more less (suc a / 2) (b / 2) (omega (arith, p)) (omega (arith, q)))

  -- One step of the walk, for an operation that has its fuel from its operand.
  walk_step :
      (op : ℕ → ℕ → ℕ)
      → ((x y : ℕ) → op x y ≡ digits rest bit x x y)
      → (a b : ℕ) → op (suc a) b ≡ op (suc a / 2) (b / 2) * 2 + bit (suc a % 2) (b % 2)
  walk_step op e a b =
      e (suc a) b
      ∙ ap (λ high. high * 2 + bit (suc a % 2) (b % 2))
          (walk_enough a (suc a / 2) (suc a / 2) (b / 2) (omega arith) (omega arith)
            ∙ sym (e (suc a / 2) (b / 2)))

pub bit_and_step : (a b : ℕ) → bit_and a b ≡ bit_and (a / 2) (b / 2) * 2 + min (a % 2) (b % 2)
bit_and_step (suc a) b = walk_step (λ b. zero) min bit_and bit_and-bitwise a b
bit_and_step zero b = omega (arith, bit_and-bitwise 0 b, bit_and-bitwise 0 (b / 2))

pub bit_or_step : (a b : ℕ) → bit_or a b ≡ bit_or (a / 2) (b / 2) * 2 + max (a % 2) (b % 2)
bit_or_step (suc a) b = walk_step (λ b. b) max bit_or bit_or-bitwise a b
bit_or_step zero b = omega (arith, bit_or-bitwise 0 b, bit_or-bitwise 0 (b / 2))

-- An operand of no digits, by halving the other.
bit_and-none : (bound x : ℕ) → x ≤ bound → bit_and x 0 ≡ 0
bit_and-none bound zero le = refl
bit_and-none (suc bound) (suc x) le =
    bit_and_step (suc x) 0 ∙ omega (arith, bit_and-none bound (suc x / 2) (omega (arith, le)))
bit_and-none zero (suc x) le = absurd (omega arith)

bit_or-none : (bound x : ℕ) → x ≤ bound → bit_or x 0 ≡ x
bit_or-none bound zero le = refl
bit_or-none (suc bound) (suc x) le =
    bit_or_step (suc x) 0 ∙ omega (arith, bit_or-none bound (suc x / 2) (omega (arith, le)))
bit_or-none zero (suc x) le = absurd (omega arith)

pub pow-pos : (k : ℕ) → 0 < 2 ^ k
pow-pos zero = omega arith
pow-pos (suc k) = omega (arith, pow-suc 2 k, pow-pos k)

mod-double : (a m : ℕ) → 0 < m → a % (m * 2) ≡ a / 2 % m * 2 + a % 2
mod-double a m h =
    let q : ℕ = a / 2 / m in
    let t : ℕ = a / 2 % m * 2 + a % 2 in
    let parts : a ≡ m * 2 * q + t = omega (arith, div-add-mod (a / 2) m, div-add-mod a 2) in
    let low : t < m * 2 = omega (arith, mod-lt (a / 2) h) in
    ap (λ x. x % (m * 2)) parts ∙ mul-add-mod_self_left (m * 2) q t ∙ mod-eq_of_lt low

half-mask : (m a : ℕ) → 0 < m → ((m * 2 - 1) / 2 ≡ m - 1) × ((m * 2 - 1) % 2 ≡ 1)
half-mask m a h = omega arith

pub bit_and-mask : (k a : ℕ) → bit_and a (2 ^ k - 1) ≡ a % 2 ^ k
bit_and-mask zero a = omega (arith, bit_and-none a a (omega arith))
bit_and-mask (suc k) a =
    rw
      (
        bit_and_step a (2 ^ suc k - 1),
        pow-suc 2 k,
        (half-mask (2 ^ k) a (pow-pos k)).0,
        (half-mask (2 ^ k) a (pow-pos k)).1,
        bit_and-mask k (a / 2),
      )
      (omega (arith, mod-double a (2 ^ k) (pow-pos k)))

double-parts : (x : ℕ) → (x * 2 / 2 ≡ x) × (x * 2 % 2 ≡ 0)
double-parts x = omega arith

one-field : (a b : ℕ) → b < 1 → b ≡ 0
one-field a b h = omega arith

-- A high field and a low field of `k` bits.
pub bit_or-fields : (k a b : ℕ) → b < 2 ^ k → bit_or (a * 2 ^ k) b ≡ a * 2 ^ k + b
bit_or-fields zero a b h =
    rw (one-field a b (omega arith)) (bit_or-none (a * 1) (a * 1) (omega arith) ∙ omega arith)
bit_or-fields (suc k) a b h =
    let e : a * 2 ^ suc k ≡ a * 2 ^ k * 2 = rw (pow-suc 2 k) (sym (mul_assoc a (2 ^ k) 2)) in
    rw
      (
        bit_or_step (a * 2 ^ suc k) b,
        e,
        (double-parts (a * 2 ^ k)).0,
        (double-parts (a * 2 ^ k)).1,
        bit_or-fields k a (b / 2) (omega (arith, pow-suc 2 k)),
      )
      (omega arith)
