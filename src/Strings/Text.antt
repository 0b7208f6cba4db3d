-- ===== src/Strings/Text.antt =====
-- include/SkBase/String.hxx: the operations that read the units of a string.
pub mod Trim
pub mod Compare
use sketch.Base.{
  ℕ, zero, suc, ◌+◌, ◌-◌, ◌%◌, ◌^◌, List, [], ◌∷◌, Bool, true, false, ◌==◌, ltb, if◌then◌else◌,
  length, take,
}
use sketch.Base.Int.{ℤ, pos, negsuc, ◌-ℤ◌}

-- The units before the first '\0' of a text, as `wcslen` counts them
unfoldable pub c_str : List ℕ → List ℕ
c_str [] = []
c_str (x ∷ xs) = if x == 0 then [] else x ∷ c_str xs

-- `wcscmp` of two texts, each with a '\0' at its end
unfoldable pub wcscmp : List ℕ → List ℕ → ℤ
wcscmp [] [] = pos 0
wcscmp [] (y ∷ ys) = if y == 0 then pos 0 else negsuc 0
wcscmp (x ∷ xs) [] = if x == 0 then pos 0 else pos 1
wcscmp (x ∷ xs) (y ∷ ys) =
    let rest = wcscmp xs ys in
    if ltb x y then negsuc 0 else if ltb y x then pos 1 else if x == 0 then pos 0 else rest

-- `int(r)` of a 64-bit number
abbrev pub int_of : ℕ → ℤ
int_of r = let low = r % 2 ^ 32 in if ltb low (2 ^ 31) then pos low else pos low -ℤ pos (2 ^ 32)

-- `compare(const StringT&)` of strings that do not share their data
unfoldable pub compare : List ℕ → List ℕ → ℤ
compare a b =
    let r = (length a + 2 ^ 64 - length b) % 2 ^ 64 in if r == 0 then wcscmp a b else int_of r

-- The unit at an index, 0 at the end of a text
abbrev pub unit_of : List ℕ → ℕ → ℕ
unit_of [] n = 0
unit_of (x ∷ xs) zero = x
unit_of (x ∷ xs) (suc n) = unit_of xs n

module _ (is_space : ℕ → Bool) where
  -- The loop of `trimLeft`
  unfoldable pub pass_spaces : List ℕ → List ℕ
  pass_spaces [] = []
  pass_spaces (x ∷ xs) =
      let rest = pass_spaces xs in if x == 0 then x ∷ xs else if is_space x then rest else x ∷ xs

  unfoldable pub trim_left : List ℕ → List ℕ
  trim_left text = c_str (pass_spaces text)

  -- The loop of `trimRight`, on the length
  unfoldable pub drop_spaces : List ℕ → ℕ → ℕ
  drop_spaces p zero = zero
  drop_spaces p (suc l) =
      let rest = drop_spaces p l in if is_space (unit_of p l) then rest else suc l

  unfoldable pub trim_right : List ℕ → List ℕ
  trim_right text = take (drop_spaces text (length text)) text

  unfoldable pub trim : List ℕ → List ℕ
  trim text = trim_right (trim_left text)
