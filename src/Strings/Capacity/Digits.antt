-- ===== src/Strings/Capacity/Digits.antt =====
-- include/SkBase/SharedData.hxx: the binary digits of `a | b`.
use Prim.Native.Nat.{bit_or, bit_or-bitwise, digits}
use native.Mathlib.Nat.{div-div-eq-div-mul, mul_comm}
use sketch.Base.{
  ℕ, zero, suc, ◌+◌, ◌*◌, ◌/◌, ◌%◌, ◌^◌, ◌≤◌, ◌<◌, ◌≡◌, refl, sym, ap, ap₂, ◌∙◌, arith, max,
}
use sketch.Strings.Capacity.{spread}

joined : ℕ → ℕ → ℕ → ℕ
joined fuel a b = digits (λ b'. b') max fuel a b

joined_ge : (fuel a b : ℕ) → a ≤ fuel → a ≤ joined fuel a b
unfolding joined
joined_ge zero zero b h = omega arith
joined_ge zero (suc a) b h = absurd (omega arith)
joined_ge (suc fuel) zero b h = omega arith
joined_ge (suc fuel) (suc a) b h = omega (arith, joined_ge fuel (suc a / 2) (b / 2) (omega arith))

joined_fuel : (n m a b : ℕ) → a ≤ n → a ≤ m → joined n a b ≡ joined m a b
unfolding joined
joined_fuel zero zero a b h g = refl
joined_fuel zero (suc m) zero b h g = refl
joined_fuel zero (suc m) (suc a) b h g = absurd (omega arith)
joined_fuel (suc n) zero zero b h g = refl
joined_fuel (suc n) zero (suc a) b h g = absurd (omega arith)
joined_fuel (suc n) (suc m) zero b h g = refl
joined_fuel (suc n) (suc m) (suc a) b h g =
    let half = joined_fuel n m (suc a / 2) (b / 2) (omega arith) (omega arith) in
    omega (arith, half)

-- 2 ^ k
abbrev pub power : ℕ → ℕ
power zero = 1
power (suc k) = power k + power k

joined_lt : (fuel k a b : ℕ) → a < power k → b < power k → joined fuel a b < power k
unfolding joined
joined_lt zero k zero b h g = g
joined_lt zero k (suc a) b h g = g
joined_lt (suc fuel) k zero b h g = g
joined_lt (suc fuel) zero (suc a) b h g = absurd (omega arith)
joined_lt (suc fuel) (suc k) (suc a) b h g =
    omega (arith, joined_lt fuel k (suc a / 2) (b / 2) (omega arith) (omega arith))

pub bit_or_ge : (a b : ℕ) → a ≤ bit_or a b
unfolding joined
bit_or_ge a b = omega (arith, bit_or-bitwise a b, joined_ge a a b (omega arith))

pub bit_or_lt : (k a b : ℕ) → a < power k → b < power k → bit_or a b < power k
unfolding joined
bit_or_lt k a b h g = omega (arith, bit_or-bitwise a b, joined_lt a k a b h g)

pub bit_or_step : (a b : ℕ) → bit_or a b ≡ bit_or (a / 2) (b / 2) * 2 + max (a % 2) (b % 2)
unfolding joined
bit_or_step zero b = omega (arith, bit_or-bitwise 0 b, bit_or-bitwise (0 / 2) (b / 2))
bit_or_step (suc a) b = omega (
  arith,
  bit_or-bitwise (suc a) b,
  bit_or-bitwise (suc a / 2) (b / 2),
  joined_fuel a (suc a / 2) (suc a / 2) (b / 2) (omega arith) (omega arith),
)

-- A division by m that may be done digit by digit
abbrev pub Shifts : ℕ → Type 0
Shifts m = (a b : ℕ) → bit_or a b / m ≡ bit_or (a / m) (b / m)

pub Shifts-two : Shifts 2
Shifts-two a b = omega (arith, bit_or_step a b)

pub Shifts-mul : (m n : ℕ) → Shifts m → Shifts n → Shifts (m * n)
Shifts-mul m n h g a b =
    let o = div-div-eq-div-mul (bit_or a b) m n in
    sym o
    ∙ ap (λ (q : ℕ). q / n) (h a b)
    ∙ g (a / m) (b / m)
    ∙ ap₂ (λ (q r : ℕ). bit_or q r) (div-div-eq-div-mul a m n) (div-div-eq-div-mul b m n)

pub spread-div : (s m v : ℕ) → Shifts m → spread s v / m ≡ spread s (v / m)
unfolding spread
spread-div s m v h =
    let swapped : v / 2 ^ s / m ≡ v / m / 2 ^ s =
      div-div-eq-div-mul v (2 ^ s) m
      ∙ ap (λ (q : ℕ). v / q) (mul_comm (2 ^ s) m)
      ∙ sym (div-div-eq-div-mul v m (2 ^ s)) in
    h v (v / 2 ^ s) ∙ ap (λ (q : ℕ). bit_or (v / m) q) swapped
