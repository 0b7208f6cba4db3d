-- ===== src/Strings/Capacity/Ones.antt =====
-- include/SkBase/SharedData.hxx: `nextPowerOfTwo` fills the digits below the highest one.
use sketch.Base.{ℕ, zero, suc, ◌+◌, ◌/◌, ◌%◌, ◌^◌, ◌≤◌, ◌<◌, ◌≡◌, ◌≢◌, refl, sym, ap, ◌∙◌, arith}
use sketch.Strings.Capacity.{spread, spread_all}
use sketch.Strings.Capacity.Digits.{
  power, bit_or_ge, bit_or_lt, bit_or_step, Shifts, Shifts-two, Shifts-mul, spread-div,
}

div-le : (v d : ℕ) → v / d ≤ v
div-le v d = grind arith

spread_bounds : (k s v : ℕ) → v < power k → (v ≤ spread s v) × (spread s v < power k)
unfolding spread
spread_bounds k s v h =
    (bit_or_ge v (v / 2 ^ s), bit_or_lt k v (v / 2 ^ s) h (omega (arith, div-le v (2 ^ s))))

spread_all_bounds : (k v : ℕ) → v < power k → (v ≤ spread_all v) × (spread_all v < power k)
unfolding spread_all
spread_all_bounds k v h =
    let one = spread_bounds k 1 v h in
    let two = spread_bounds k 2 _ one.1 in
    let four = spread_bounds k 4 _ two.1 in
    let eight = spread_bounds k 8 _ four.1 in
    let sixteen = spread_bounds k 16 _ eight.1 in
    let last = spread_bounds k 32 _ sixteen.1 in
    (omega (arith, one.0, two.0, four.0, eight.0, sixteen.0, last.0), last.1)

-- The lowest digit after the six steps
spread_odd : (s v : ℕ) → spread s v % 2 ≡ 0 → (v % 2 ≡ 0) × (v / 2 ^ s % 2 ≡ 0)
unfolding spread
spread_odd s v e = let step = bit_or_step v (v / 2 ^ s) in (omega arith, omega arith)

Shifts-4 : Shifts 4
Shifts-4 = Shifts-mul 2 2 Shifts-two Shifts-two

Shifts-16 : Shifts 16
Shifts-16 = Shifts-mul 4 4 Shifts-4 Shifts-4

Shifts-8 : Shifts (2 ^ 8)
Shifts-8 = Shifts-mul 16 16 Shifts-16 Shifts-16

Shifts-word : Shifts (2 ^ 16)
Shifts-word = Shifts-mul (2 ^ 8) (2 ^ 8) Shifts-8 Shifts-8

Shifts-half : Shifts (2 ^ 32)
Shifts-half = Shifts-mul (2 ^ 16) (2 ^ 16) Shifts-word Shifts-word

zero_1 : (v : ℕ) → spread 1 v % 2 ≡ 0 → v % 4 ≡ 0
zero_1 v e = let p = spread_odd 1 v e in omega (arith, p)

zero_2 : (v : ℕ) → spread 2 (spread 1 v) % 2 ≡ 0 → v % 16 ≡ 0
zero_2 v e =
    let p = spread_odd 2 (spread 1 v) e in
    let low = zero_1 v p.0 in
    let high = zero_1 (v / 4) (ap (λ (q : ℕ). q % 2) (sym (spread-div 1 4 v Shifts-4)) ∙ p.1) in
    omega arith

-- The steps before the shift by 2 ^ k leave a division by their reach alone
first_two : ℕ → ℕ
first_two v = spread 2 (spread 1 v)

first_three : ℕ → ℕ
first_three v = spread 4 (first_two v)

first_four : ℕ → ℕ
first_four v = spread 8 (first_three v)

first_five : ℕ → ℕ
first_five v = spread 16 (first_four v)

abbrev after :
    (s m v : ℕ)
    → (f : ℕ → ℕ) → Shifts m
    → f v / m ≡ f (v / m)
    → spread s (f v) / m ≡ spread s (f (v / m))
after s m v f h e = spread-div s m (f v) h ∙ ap (λ (q : ℕ). spread s q) e

first_two-div : (m v : ℕ) → Shifts m → first_two v / m ≡ first_two (v / m)
unfolding first_two
first_two-div m v h = after 2 m v (λ u. spread 1 u) h (spread-div 1 m v h)

first_three-div : (m v : ℕ) → Shifts m → first_three v / m ≡ first_three (v / m)
unfolding first_three
first_three-div m v h = after 4 m v first_two h (first_two-div m v h)

first_four-div : (m v : ℕ) → Shifts m → first_four v / m ≡ first_four (v / m)
unfolding first_four
first_four-div m v h = after 8 m v first_three h (first_three-div m v h)

first_five-div : (m v : ℕ) → Shifts m → first_five v / m ≡ first_five (v / m)
unfolding first_five
first_five-div m v h = after 16 m v first_four h (first_four-div m v h)

spread_all-div : (m v : ℕ) → Shifts m → spread_all v / m ≡ spread_all (v / m)
unfolding spread_all first_five first_four first_three first_two
spread_all-div m v h = after 32 m v first_five h (first_five-div m v h)

even_parts :
    (f : ℕ → ℕ)
    → (s v : ℕ) → f v / 2 ^ s ≡ f (v / 2 ^ s)
    → spread s (f v) % 2 ≡ 0
    → (f v % 2 ≡ 0) × (f (v / 2 ^ s) % 2 ≡ 0)
even_parts f s v e h = let p = spread_odd s (f v) h in (p.0, ap (λ (q : ℕ). q % 2) (sym e) ∙ p.1)

zero_4 : (v : ℕ) → first_three v % 2 ≡ 0 → v % 2 ^ 8 ≡ 0
unfolding first_three first_two
zero_4 v e =
    let p = even_parts first_two 4 v (first_two-div 16 v Shifts-16) e in
    omega (arith, zero_2 v p.0, zero_2 (v / 16) p.1)

zero_8 : (v : ℕ) → first_four v % 2 ≡ 0 → v % 2 ^ 16 ≡ 0
unfolding first_four
zero_8 v e =
    let p = even_parts first_three 8 v (first_three-div (2 ^ 8) v Shifts-8) e in
    omega (arith, zero_4 v p.0, zero_4 (v / 2 ^ 8) p.1)

zero_16 : (v : ℕ) → first_five v % 2 ≡ 0 → v % 2 ^ 32 ≡ 0
unfolding first_five
zero_16 v e =
    let p = even_parts first_four 16 v (first_four-div (2 ^ 16) v Shifts-word) e in
    omega (arith, zero_8 v p.0, zero_8 (v / 2 ^ 16) p.1)

zero_32 : (v : ℕ) → spread_all v % 2 ≡ 0 → v % 2 ^ 64 ≡ 0
unfolding spread_all first_five first_four first_three first_two
zero_32 v e =
    let p = even_parts first_five 32 v (first_five-div (2 ^ 32) v Shifts-half) e in
    omega (arith, zero_16 v p.0, zero_16 (v / 2 ^ 32) p.1)

spread_all_zero : spread_all 0 ≡ 0
unfolding spread_all spread
spread_all_zero = refl

pub spread_all-ones :
    (k v : ℕ) → v < 2 ^ 64 → power k ≤ v → v < power (suc k) → spread_all v + 1 ≡ power (suc k)
spread_all-ones zero v w l h =
    let half = spread_all-div 2 v Shifts-two in
    let rest : spread_all (v / 2) ≡ 0 =
      ap (λ (q : ℕ). spread_all q) (omega arith) ∙ spread_all_zero in
    let odd : spread_all v % 2 ≢ 0 = λ e. omega (arith, zero_32 v e) in
    omega (arith, half, rest, odd)
spread_all-ones (suc k) v w l h =
    let half = spread_all-div 2 v Shifts-two in
    let rest = spread_all-ones k (v / 2) (omega arith) (omega arith) (omega arith) in
    let odd : spread_all v % 2 ≢ 0 = λ e. omega (arith, zero_32 v e) in
    omega (arith, half, rest, odd)
