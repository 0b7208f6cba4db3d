-- ===== src/Strings/Capacity/Powers.antt =====
-- include/SkBase/SharedData.hxx: `nextPowerOfTwo`, and the room that `grow` gives.
use sketch.Base.{
  ℕ, zero, suc, ◌+◌, ◌-◌, ◌*◌, ◌/◌, ◌%◌, ◌^◌, ◌≤◌, ◌<◌, ◌≡◌, refl, ap, ◌∙◌, arith, ltb,
  if◌then◌else◌, Bool-cases, inl, inr,
}
use sketch.Strings.Capacity.{next_power_of_two, round_up_page, grow_to, minus}
use sketch.Strings.Capacity.Digits.{power}
use sketch.Strings.Capacity.Ones.{spread_all-ones}

power-pow : (k : ℕ) → power k ≡ 2 ^ k
power-pow zero = refl
power-pow (suc k) = omega (arith, power-pow k)

pub power_bound : (d k : ℕ) → k + d ≡ 64 → power k ≤ 2 ^ 64
power_bound zero k e =
    let at : 2 ^ k ≡ 2 ^ 64 = ap (λ (q : ℕ). 2 ^ q) {x = k} {y = 64} (omega arith) in
    omega (arith, power-pow k, at)
power_bound (suc d) k e = omega (arith, power_bound d (suc k) (omega arith))

pub next_power_of_two-power :
    (k v : ℕ)
    → k < 64
    → power k ≤ v
    → v < power (suc k)
    → next_power_of_two v ≡ power (suc k) % 2 ^ 64
unfolding next_power_of_two
next_power_of_two-power k v w l h =
    let wide = power_bound (63 - k) (suc k) (omega arith) in
    ap (λ (q : ℕ). q % 2 ^ 64) (spread_all-ones k v (omega arith) l h)

-- When 2 ^ k ≤ v < 2 ^ (k + 1) for a k below 64, `nextPowerOfTwo(v)` is 2 ^ (k + 1) modulo 2 ^ 64:
-- the first power of two above v, or 0 when that does not fit
pub next_power_of_two-pow :
    (k v : ℕ) → k < 64 → 2 ^ k ≤ v → v < 2 ^ suc k → next_power_of_two v ≡ 2 ^ suc k % 2 ^ 64
next_power_of_two-pow k v w l h =
    let low = power-pow k in
    let high = power-pow (suc k) in
    next_power_of_two-power k v w (omega arith) (omega arith) ∙ ap (λ (q : ℕ). q % 2 ^ 64) high

-- Each positive number stands between two powers
pub between :
    (n v : ℕ) → 0 < v → v < power n → (k : ℕ) × (k < n) × (power k ≤ v) × (v < power (suc k))
between zero v p h = absurd (omega arith)
between (suc n) v p h = elim (Bool-cases (ltb v (power n))) [
  | inl low ↦ let r = between n v p (ground arith) in (r.0, omega (arith, r.1), r.2, r.3)
  | inr high ↦ (n, omega arith, ground arith, h)
]

round_up_page-ge : (x : ℕ) → x < 2 ^ 62 → x ≤ round_up_page x
unfolding round_up_page
round_up_page-ge x h = omega arith

power_pos : (k : ℕ) → 0 < power k
power_pos zero = omega arith
power_pos (suc k) = omega (arith, power_pos k)

-- The power that `nextPowerOfTwo` gives, without a wrap
next_in_range :
    (n v : ℕ)
    → n + 2 ≡ 64
    → 0 < v
    → v < 2 ^ 62
    → (k : ℕ) × (k < n) × (next_power_of_two v ≡ power (suc k)) × (v < power (suc k))
next_in_range n v e p h =
    let at : 2 ^ n ≡ 2 ^ 62 = ap (λ (q : ℕ). 2 ^ q) {x = n} {y = 62} (omega arith) in
    let inside : v < power n = omega (arith, power-pow n, at) in
    let b = between n v p inside in
    let wide = power_bound (63 - suc b.0) (suc (suc b.0)) (omega (arith, b.1)) in
    let x = next_power_of_two-power b.0 v (omega (arith, b.1)) b.2 b.3 in
    let some_power = power_pos b.0 in (b.0, b.1, omega (arith, x, wide), b.3)

next_of_power :
    (n k : ℕ)
    → n + 2 ≡ 64
    → k < n
    → next_power_of_two (power (suc k)) ≡ power (suc k) + power (suc k)
next_of_power n k e h =
    let wide = power_bound (61 - k) (suc (suc (suc k))) (omega arith) in
    let some_power = power_pos k in
    let x =
      next_power_of_two-power (suc k) (power (suc k)) (omega arith) (omega arith) (omega arith) in
    omega arith

-- The first or the second power, less 12, is enough.
grow_small :
    (required : ℕ)
    → 34 ≤ required
    → required < 2 ^ 62
    → required
      ≤ minus
          (if ltb (minus (next_power_of_two required) 12) required
            then next_power_of_two (next_power_of_two required)
            else next_power_of_two required)
          12
grow_small required p h =
    let b = next_in_range 62 required refl (omega arith) h in
    let twice = ap (λ (q : ℕ). next_power_of_two q) b.2 ∙ next_of_power 62 b.0 refl b.1 in
    let wide = power_bound (62 - b.0) (suc (suc b.0)) (omega (arith, b.1)) in
    let wider = power_bound (61 - b.0) (suc (suc (suc b.0))) (omega (arith, b.1)) in
    elim (Bool-cases (ltb (minus (next_power_of_two required) 12) required)) [
      | inl close ↦ rw close (omega (arith, b.2, b.3, twice, wider))
      | inr far ↦
          let room : required ≤ minus (next_power_of_two required) 12 = ground arith in rw far room
    ]

round_up_page_lt : (x : ℕ) → round_up_page x < 2 ^ 64
unfolding round_up_page
round_up_page_lt x = omega arith

fits : (capacity y : ℕ) → capacity * 2 + 32 ≤ y → y < 2 ^ 64 → capacity ≤ minus y 32 / 2
fits capacity y h w = omega arith

-- When the capacity asked for is greater than the current one and below 2 ^ 60,
-- `grow(current, capacity)` gives at least the capacity asked for
pub grow_to_ge :
    (current capacity : ℕ)
    → current < capacity
    → capacity < 2 ^ 60
    → capacity ≤ grow_to current capacity
unfolding grow_to
grow_to_ge current capacity h w =
    let required : (capacity * 2 + 32) % 2 ^ 64 ≡ capacity * 2 + 32 = omega arith in
    let existing : (current * 2 + 32) % 2 ^ 64 ≡ current * 2 + 32 = omega arith in
    elim (Bool-cases (ltb (current * 2 + 32) 4084)) [
      | inl close ↦
          rw (required, existing, close)
            (fits capacity _ (grow_small (capacity * 2 + 32) (omega arith) (omega arith))
              (omega arith))
      | inr far ↦
          let page = round_up_page-ge (capacity * 2 + 32) (omega arith) in
          let first = round_up_page_lt (current * 2 + 32 + 4096) in
          let second = round_up_page_lt (capacity * 2 + 32) in
          rw (required, existing, far) (fits capacity _ (omega arith) (omega arith))
    ]
