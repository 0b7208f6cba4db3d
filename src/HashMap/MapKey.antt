-- ===== src/HashMap/MapKey.antt =====
-- include/SkBase/HashMap_details.hxx: which bucket a hash maps to.
use Prim.Native.Nat.{digits, bit_and-bitwise, bit_and}
use sketch.Base.{ℕ, zero, suc, ◌-◌, ◌*◌, ◌/◌, ◌%◌, ◌≤◌, ◌<◌, ◌≡◌, refl, arith, min}
use sketch.HashMap.{mapkey, capacity_factor}

abbrev masked : ℕ → ℕ → ℕ → ℕ
masked fuel a m = digits (λ _. zero) min fuel a m

masked_le : (fuel a m : ℕ) → masked fuel a m ≤ m
masked_le zero zero m = omega arith
masked_le zero (suc a) m = omega arith
masked_le (suc fuel) zero m = omega arith
masked_le (suc fuel) (suc a) m = omega (arith, masked_le fuel (suc a / 2) (m / 2))

masked_even : (fuel a m : ℕ) → m % 2 ≡ 0 → masked fuel a m % 2 ≡ 0
masked_even zero zero m h = refl
masked_even zero (suc a) m h = refl
masked_even (suc fuel) zero m h = refl
masked_even (suc fuel) (suc a) m h = omega arith

bit_and_le : (a m : ℕ) → bit_and a m ≤ m
bit_and_le a m = omega (arith, bit_and-bitwise a m, masked_le a a m)

-- The bucket of a hash lies in the table, and the correction behind the mask is never needed.
pub mapkey_lt : (max h : ℕ) → 0 < max → (mapkey max h < max) × (mapkey max h ≡ bit_and h (max - 1))
unfolding mapkey
mapkey_lt max h p = ground (arith, bit_and_le h (max - 1))

-- In a table made for any number of elements, at least one, only the buckets of even index are
-- used, which is half of them.
pub mapkey-capacity_factor :
    (n h : ℕ)
    → 0 < n
    → (mapkey (capacity_factor n) h < capacity_factor n) × (mapkey (capacity_factor n) h % 2 ≡ 0)
unfolding capacity_factor
mapkey-capacity_factor n h p =
    let b = mapkey_lt (n * 2 - 1) h (omega arith) in
    (
      b.0,
      omega (
        arith,
        b.1,
        bit_and-bitwise h (n * 2 - 1 - 1),
        masked_even h h (n * 2 - 1 - 1) (omega arith),
      ),
    )
