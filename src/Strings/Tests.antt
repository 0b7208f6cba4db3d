-- ===== src/Strings/Tests.antt =====
-- include/SkBase/String.hxx and include/SkBase/SharedData.hxx at small texts.
use sketch.Base.{
  ℕ, Bool, ◌≢◌, ◌%◌, ◌^◌, ◌≤◌, ◌≡◌, refl, arith, List, [], ◌∷◌, ◌++◌, true, ◌==◌, if◌then◌else◌,
  length, some,
}
use sketch.Base.Int.{pos, negsuc, ◌-ℤ◌}
use sketch.RefCount.{lock, decrement, release_ref}
use sketch.RefCount.Pointers.{more, fewer}
use sketch.Strings.Capacity.{grow_to, next_power_of_two, round_up_page, spread, spread_all}
use sketch.Strings.Capacity.Powers.{grow_to_ge, next_power_of_two-pow}
use sketch.Strings.Store.{Store, append, append_grown, allocate, drop}
use sketch.Strings.Held.{IsHeld}
use sketch.Strings.Append.{append-IsHeld, append-text, appended}
use sketch.Strings.Text.{
  c_str, compare, wcscmp, trim, trim_left, trim_right, pass_spaces, drop_spaces,
}
use sketch.Strings.Text.Compare.{compare_zero}
use sketch.Strings.Text.Trim.{IsTrimmed, Spaces, trim_ends}

-- Two strings share the text "ab" at 8, which has room for more.
abbrev holders : ℕ → ℕ
holders q = if q == 8 then 2 else 0

abbrev shared : Store
shared = record {
  objects = record {
    counter = λ q. if q == 0 then negsuc 0 else pos (holders q);
    live = λ q. true;
  };
  text = λ q. if q == 8 then 97 ∷ 98 ∷ [] else [];
  capacity = λ q. if q == 8 then 10 else 0;
}

shared-IsHeld : IsHeld shared holders
shared-IsHeld = record {
  counted = record { counter = λ p z. ground arith; live = λ p z k. refl };
  static = refl;
  blank = refl;
  fixed = refl;
  room = λ p z k. ground arith;
}

round_run :
    (next_power_of_two 64 ≡ 128) × (next_power_of_two 100 ≡ 128) × (round_up_page 4097 ≡ 8192)
unfolding next_power_of_two spread_all spread round_up_page
round_run = (refl, refl, refl)

grow_run : (grow_to 3 10 ≡ 10) × (grow_to 3 11 ≡ 42) × (grow_to 3000 3001 ≡ 6128)
unfolding grow_to next_power_of_two spread_all spread round_up_page
grow_run = (refl, refl, refl)

abbrev is_blank : ℕ → Bool
is_blank c = c == 32

trim_run :
    (trim is_blank (32 ∷ 97 ∷ 32 ∷ 98 ∷ 32 ∷ 32 ∷ []) ≡ 97 ∷ 32 ∷ 98 ∷ [])
    × (trim is_blank (32 ∷ 97 ∷ 0 ∷ 98 ∷ []) ≡ 97 ∷ [])
unfolding trim trim_left trim_right pass_spaces drop_spaces c_str
trim_run = (refl, refl)

-- What stands behind a '\0' is not compared.
compare_run : compare (97 ∷ 0 ∷ 98 ∷ []) (97 ∷ 0 ∷ 99 ∷ []) ≡ pos 0
unfolding compare wcscmp
compare_run = refl

-- One string goes on with data of its own.
append_run :
    ((append shared 8 (99 ∷ []) (some 16)).1 ≡ 16)
    × ((append shared 8 (99 ∷ []) (some 16)).0.objects.counter 8 ≡ pos 1)
unfolding append append_grown allocate drop lock release_ref decrement ◌-ℤ◌
append_run = (refl, refl)

next_power_of_two-pow_example : next_power_of_two 100 ≡ 2 ^ 7 % 2 ^ 64
next_power_of_two-pow_example =
    next_power_of_two-pow 6 100 (omega arith) (omega arith) (omega arith)

grow_to_ge_example : 11 ≤ grow_to 3 11
grow_to_ge_example = grow_to_ge 3 11 (omega arith) (omega arith)

append-IsHeld_example :
    IsHeld
      (append shared 8 (99 ∷ []) (some 16)).0
      (fewer 8 (more (append shared 8 (99 ∷ []) (some 16)).1 holders))
append-IsHeld_example =
    append-IsHeld shared holders 8 (99 ∷ []) 16 shared-IsHeld (omega arith) (omega arith) refl
      (omega arith)

append-text_example :
    ((append shared 8 (99 ∷ []) (some 16)).2 ≡ true)
    × ((append shared 8 (99 ∷ []) (some 16)).0.text (append shared 8 (99 ∷ []) (some 16)).1
        ≡ appended (shared.text 8) (99 ∷ []))
    × ((q : ℕ)
        → fewer 8 holders q ≢ 0
        → (append shared 8 (99 ∷ []) (some 16)).0.text q ≡ shared.text q)
append-text_example =
    append-text shared holders 8 (99 ∷ []) 16 shared-IsHeld (omega arith) (omega arith) refl

compare_zero_example :
    (compare (97 ∷ 0 ∷ 98 ∷ []) (97 ∷ 0 ∷ 99 ∷ []) ≡ pos 0
      → (length {A = ℕ} (97 ∷ 0 ∷ 98 ∷ []) ≡ length {A = ℕ} (97 ∷ 0 ∷ 99 ∷ []))
        × (c_str (97 ∷ 0 ∷ 98 ∷ []) ≡ c_str (97 ∷ 0 ∷ 99 ∷ [])))
    × ((length {A = ℕ} (97 ∷ 0 ∷ 98 ∷ []) ≡ length {A = ℕ} (97 ∷ 0 ∷ 99 ∷ []))
          × (c_str (97 ∷ 0 ∷ 98 ∷ []) ≡ c_str (97 ∷ 0 ∷ 99 ∷ []))
        → compare (97 ∷ 0 ∷ 98 ∷ []) (97 ∷ 0 ∷ 99 ∷ []) ≡ pos 0)
compare_zero_example =
    compare_zero (97 ∷ 0 ∷ 98 ∷ []) (97 ∷ 0 ∷ 99 ∷ []) (omega arith) (omega arith)

trim_ends_example :
    (pre : List ℕ) × (post : List ℕ) × (32 ∷ 97 ∷ 32 ∷ []
      ≡ pre ++ (trim is_blank (32 ∷ 97 ∷ 32 ∷ []) ++ post))
    × Spaces is_blank pre
    × Spaces is_blank post
    × IsTrimmed is_blank (trim is_blank (32 ∷ 97 ∷ 32 ∷ []))
trim_ends_example = trim_ends is_blank (32 ∷ 97 ∷ 32 ∷ []) (refl, (refl, (refl, tt)))
