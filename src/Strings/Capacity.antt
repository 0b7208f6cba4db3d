-- ===== src/Strings/Capacity.antt =====
-- include/SkBase/SharedData.hxx: how much storage a string asks for.
pub mod Digits
pub mod Ones
pub mod Powers
use Prim.Native.Nat.{bit_or}
use sketch.Base.{
  ℕ, zero, suc, ◌+◌, ◌-◌, ◌*◌, ◌/◌, ◌%◌, ◌^◌, ◌≤◌, ◌<◌, ◌≡◌, refl, arith, max, Bool, true, false,
  ltb, leb, if◌then◌else◌,
}

-- `v |= v >> s`
unfoldable pub spread : ℕ → ℕ → ℕ
spread s v = bit_or v (v / 2 ^ s)

-- The six steps of `nextPowerOfTwo`, with the shifts 1, 2, 4, 8, 16 and 32
unfoldable pub spread_all : ℕ → ℕ
spread_all v = spread 32 (spread 16 (spread 8 (spread 4 (spread 2 (spread 1 v)))))

-- `nextPowerOfTwo(uint64_t)`
unfoldable pub next_power_of_two : ℕ → ℕ
next_power_of_two v = (spread_all v + 1) % 2 ^ 64

-- `roundUpPage(uint64_t)`
unfoldable pub round_up_page : ℕ → ℕ
round_up_page x = let y = (x + 4096 - 1) % 2 ^ 64 in y - y % 4096

-- `sizeof(SharedData)`, which is also the size of the header for an alignment of at most 8, and
-- `sizeof(UChar)`
abbrev pub header_size : ℕ
header_size = 32

abbrev pub unit_size : ℕ
unit_size = 2

-- A difference in `size_t`
abbrev pub minus : ℕ → ℕ → ℕ
minus a b = (a + 2 ^ 64 - b) % 2 ^ 64

-- `grow(current, capacity, alignment)`
unfoldable pub grow_to : ℕ → ℕ → ℕ
grow_to current capacity =
    let required = (capacity * unit_size + header_size) % 2 ^ 64 in
    let existing = (current * unit_size + header_size) % 2 ^ 64 in
    let x = next_power_of_two required in
    let y = if ltb (minus x 12) required then next_power_of_two x else x in
    let small = minus y 12 in
    let large = max (round_up_page (existing + 4096)) (round_up_page required) in
    minus (if ltb existing 4084 then small else large) header_size / unit_size
