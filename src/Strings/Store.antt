-- ===== src/Strings/Store.antt =====
-- include/SkBase/String.hxx: strings that share their data, and include/SkBase/SharedData.hxx.
use sketch.Base.{
  ℕ, ◌+◌, List, [], ◌∷◌, ◌++◌, Bool, true, false, ◌==◌, leb, not, if◌then◌else◌, update, length,
  Option, none, some,
}
use sketch.Base.Int.{ℤ, pos}
use sketch.RefCount.{Objects, add_ref, release_ref, lock, unlock}
use sketch.Strings.Capacity.{grow_to}

-- The `StringData` by address: the counters, the units before the '\0', and the capacities. The
-- static data of `StringDataRef::empty()` stands at 0. A string is the address of its data.
pub record Store : Type 0 where
  pub objects : Objects
  pub text : ℕ → List ℕ
  pub capacity : ℕ → ℕ

-- `SharedData::writeable()`
abbrev pub writeable : Store → ℕ → Bool
writeable s p = not (s.capacity p == 0)

-- `StringT(const StringT&)` and `~StringT()`
unfoldable pub copy : Store → ℕ → Store × ℕ
copy s p = (record s { objects = add_ref s.objects p }, p)

unfoldable pub drop : Store → ℕ → Store
drop s p = record s { objects = release_ref s.objects p }

-- `operator=(const StringT&)`: the old data is released by a temporary, at the end
unfoldable pub assign : Store → ℕ → ℕ → Store × ℕ
assign s p other = if not (p == other) then (drop (copy s other).0 p, other) else (s, p)

-- `SharedData::allocate`, when the allocator gives the address `a`, and the text written to it
unfoldable pub allocate : Store → ℕ → List ℕ → ℕ → Store
allocate s a units capacity = record {
  objects = record {
    counter = update s.objects.counter a (pos 1);
    live = update s.objects.live a true;
  };
  text = update s.text a units;
  capacity = update s.capacity a capacity;
}

-- `!*u16`, for the units and the '\0' that ends them
abbrev pub starts_with_zero : List ℕ → Bool
starts_with_zero [] = true
starts_with_zero (x ∷ xs) = x == 0

-- The text written behind the present one, when the lock on the counter is owned
unfoldable pub append_in_place : Store → ℕ → List ℕ → ℤ → Store
append_in_place s p u16 locked = record s {
  objects = record s.objects { counter = update s.objects.counter p (unlock locked) };
  text = update s.text p (s.text p ++ u16);
}

-- The text and the units in new data, for what the allocator answers
unfoldable pub append_grown : Store → ℕ → List ℕ → Option ℕ → Store × ℕ × Bool
append_grown s p u16 none = (s, p, false)
append_grown s p u16 (some a) =
    let capacity = grow_to (length (s.text p) + 1) (length (s.text p) + length u16 + 1) in
    (drop (allocate s a (s.text p ++ u16) capacity) p, a, true)

-- `append(u16, length16)`: the store, the string, and the answer
unfoldable pub append : Store → ℕ → List ℕ → Option ℕ → Store × ℕ × Bool
append s p u16 allocated =
    let enough = leb (length (s.text p) + length u16 + 1) (s.capacity p) in
    let (locked, owned) = lock (s.objects.counter p) in
    if starts_with_zero u16
    then (s, p, true)
    else if writeable s p
    then if enough
      then if owned
        then (append_in_place s p u16 locked, p, true)
        else append_grown s p u16 allocated
      else append_grown s p u16 allocated
    else append_grown s p u16 allocated
