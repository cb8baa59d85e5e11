-- ===== src/Base/Bits.antt =====
-- Shifts, masks and `|` of the source as arithmetic on native numbers.
use Prim.Native.Nat.{
  ℕ, zero, suc, ◌+◌, ◌*◌, ◌/◌, ◌%◌, ◌^◌, ◌≤◌, ◌<◌, min, max, bit_and, bit_or, digits,
  bit_and-bitwise, bit_or-bitwise,
}
use mathlib.Core.Path.{◌≡◌, refl, ap}
use mathlib.Core.Bool.{Bool, true, ◌&&◌}
use native.Mathlib.Nat.{pow-suc}
use native.Mathlib.Omega.{arith}

-- The test `p` passes on the numbers below `n`.
unfoldable pub all_below : ℕ → (ℕ → Bool) → Bool
all_below zero p = true
all_below (suc n) p = p n && all_below n p

pub all_below-elim : (n x : ℕ) (p : ℕ → Bool) → x < n → all_below n p ≡ true → p x ≡ true
unfolding all_below
all_below-elim zero x p below all = absurd (omega arith)
all_below-elim (suc n) x p below all = ground (arith, all_below-elim n x p)

-- The digit recursion behind the bit operations: rounds beyond the size of the first number are
-- idle.
module _ (rest : ℕ → ℕ) (op : ℕ → ℕ → ℕ) where
  digits_idle : (k l x y : ℕ) → x ≤ k → x ≤ l → digits rest op k x y ≡ digits rest op l x y
  digits_idle zero zero x y hk hl = refl
  digits_idle zero (suc l) zero y hk hl = refl
  digits_idle zero (suc l) (suc x) y hk hl = absurd (omega arith)
  digits_idle (suc k) zero zero y hk hl = refl
  digits_idle (suc k) zero (suc x) y hk hl = absurd (omega arith)
  digits_idle (suc k) (suc l) zero y hk hl = refl
  digits_idle (suc k) (suc l) (suc x) y hk hl =
      let ih = digits_idle k l (suc x / 2) (y / 2) (omega arith) (omega arith) in
      ap (λ high. high * 2 + op (suc x % 2) (y % 2)) ih

zero-bit_or : (y : ℕ) → bit_or 0 y ≡ y
zero-bit_or y = bit_or-bitwise 0 y

zero-bit_and : (y : ℕ) → bit_and 0 y ≡ 0
zero-bit_and y = bit_and-bitwise 0 y

-- Either operation works on the last digits and on what stands before them.
bit_or_step : (x y : ℕ) → bit_or x y ≡ bit_or (x / 2) (y / 2) * 2 + max (x % 2) (y % 2)
bit_or_step zero y = omega (arith, zero-bit_or y, zero-bit_or (y / 2))
bit_or_step (suc x) y =
    let high = suc x / 2 in
    let idle = digits_idle (λ t. t) max x high high (y / 2) (omega arith) (omega arith) in
    omega (arith, idle, bit_or-bitwise (suc x) y, bit_or-bitwise high (y / 2))

bit_and_step : (x y : ℕ) → bit_and x y ≡ bit_and (x / 2) (y / 2) * 2 + min (x % 2) (y % 2)
bit_and_step zero y = omega (arith, zero-bit_and y, zero-bit_and (y / 2))
bit_and_step (suc x) y =
    let high = suc x / 2 in
    let idle = digits_idle (λ t. zero) min x high high (y / 2) (omega arith) (omega arith) in
    omega (arith, idle, bit_and-bitwise (suc x) y, bit_and-bitwise high (y / 2))

bit_or-even : (m b : ℕ) → bit_or (2 * m) b ≡ bit_or m (b / 2) * 2 + b % 2
bit_or-even m b =
    let half : 2 * m / 2 ≡ m = omega arith in
    let step = bit_or_step (2 * m) b in omega (arith, rw half at step)

bit_or-even_right : (m a : ℕ) → bit_or a (2 * m) ≡ bit_or (a / 2) m * 2 + a % 2
bit_or-even_right m a =
    let half : 2 * m / 2 ≡ m = omega arith in
    let step = bit_or_step a (2 * m) in omega (arith, rw half at step)

bit_or-zero_fuel : (n a : ℕ) → a ≤ n → bit_or a 0 ≡ a
bit_or-zero_fuel n zero h = zero-bit_or 0
bit_or-zero_fuel zero (suc a) h = absurd (omega arith)
bit_or-zero_fuel (suc n) (suc a) h =
    omega (arith, bit_or_step (suc a) 0, bit_or-zero_fuel n (suc a / 2) (omega arith))

shifted_suc : (k hi : ℕ) → hi * 2 ^ suc k ≡ 2 * (hi * 2 ^ k)
shifted_suc k hi = omega (arith, ap (λ (t : ℕ). hi * t) (pow-suc 2 k))

-- `hi << k | lo` where `lo` has `k` bits, and the same in the other order.
pub bit_or-shifted : (k hi lo : ℕ) → lo < 2 ^ k → bit_or (hi * 2 ^ k) lo ≡ hi * 2 ^ k + lo
bit_or-shifted zero hi lo h =
    let none_left : lo ≡ 0 = omega arith in
    let one : hi * 2 ^ 0 ≡ hi = omega arith in
    rw (none_left, one, bit_or-zero_fuel hi hi (omega arith)) (omega arith)
bit_or-shifted (suc k) hi lo h = rw shifted_suc (
    omega (
      arith,
      bit_or-even (hi * 2 ^ k) lo,
      bit_or-shifted k hi (lo / 2) (omega (arith, pow-suc 2 k)),
    ))

pub bit_or-shifted_right : (k hi lo : ℕ) → lo < 2 ^ k → bit_or lo (hi * 2 ^ k) ≡ hi * 2 ^ k + lo
bit_or-shifted_right zero hi lo h =
    let none_left : lo ≡ 0 = omega arith in rw (none_left, zero-bit_or) (omega arith)
bit_or-shifted_right (suc k) hi lo h = rw shifted_suc (
    omega (
      arith,
      bit_or-even_right (hi * 2 ^ k) lo,
      bit_or-shifted_right k hi (lo / 2) (omega (arith, pow-suc 2 k)),
    ))

bit_and-le_fuel : (n a b : ℕ) → a ≤ n → bit_and a b ≤ b
bit_and-le_fuel n zero b h = omega (arith, zero-bit_and b)
bit_and-le_fuel zero (suc a) b h = absurd (omega arith)
bit_and-le_fuel (suc n) (suc a) b h =
    omega (arith, bit_and_step (suc a) b, bit_and-le_fuel n (suc a / 2) (b / 2) (omega arith))

pub bit_and-le : (a b : ℕ) → bit_and a b ≤ b
bit_and-le a b = bit_and-le_fuel a a b (omega arith)

bit_and-zero : (a : ℕ) → bit_and a 0 ≡ 0
bit_and-zero a = omega (arith, bit_and-le a 0)

bit_and_one : (a : ℕ) → bit_and a 1 ≡ a % 2
bit_and_one a = omega (arith, bit_and_step a 1, bit_and-zero (a / 2))

-- Masks of two, three and four ones.
pub bit_and_three : (a : ℕ) → bit_and a 3 ≡ a % 4
bit_and_three a = omega (arith, bit_and_step a 3, bit_and_one (a / 2))

pub bit_and_seven : (a : ℕ) → bit_and a 7 ≡ a % 8
bit_and_seven a = omega (arith, bit_and_step a 7, bit_and_three (a / 2))

pub bit_and_fifteen : (a : ℕ) → bit_and a 15 ≡ a % 16
bit_and_fifteen a = omega (arith, bit_and_step a 15, bit_and_seven (a / 2))
