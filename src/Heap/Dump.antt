-- ===== src/Heap/Dump.antt =====
-- include/SkBase/Heap.Debug.hxx: the dumps of a block, and what `dump` prints of it.
use Prim.Native.Nat.{digits, bit_and-bitwise}
use sketch.Base.{
  ℕ, zero, suc, ◌-◌, ◌/◌, ◌%◌, ◌<◌, ◌≡◌, refl, arith, min, Bool, true, false, ◌||◌, List, [], ◌∷◌,
  ◌++◌, map, length, take, length-take, ◌==◌, if◌then◌else◌, Bool-cases, inl, inr,
}
use sketch.Heap.{
  DebugHeap, Line, leaked, statistics, blocks, numbers, block, block_memory, hex_digit, hex_dump,
  bytes_to_hex_dump, printable, text_dump, bytes_to_text_dump, flagged, dump_block, dump_title,
  dump_stats, dump_blocks, dump,
}

-- All bytes in hexadecimal, with a space between two
abbrev pub hex_text : Bool → List ℕ → List ℕ
hex_text first [] = []
hex_text first (p ∷ ps) =
    (if first then [] else b' ' ∷ [])
    ++ (hex_digit (p / 16) ∷ hex_digit (p % 16) ∷ hex_text false ps)

hex_dump-take :
    (ps : List ℕ) (first : Bool) (room : ℕ) → hex_dump first ps room ≡ take room (hex_text first ps)
unfolding hex_dump
hex_dump-take [] first zero = refl
hex_dump-take [] first (suc room) = refl
hex_dump-take (p ∷ ps) true zero = refl
hex_dump-take (p ∷ ps) true (suc zero) = refl
hex_dump-take (p ∷ ps) true (suc (suc room)) =
    let some_room : (suc (suc room) == 0) ≡ false = ground arith in
    let less : suc (suc room) - 1 ≡ suc room = omega arith in
    let more : (suc room == 0) ≡ false = ground arith in
    let least : suc room - 1 ≡ room = omega arith in
    rw (some_room, less, more, least, hex_dump-take ps false room)
hex_dump-take (p ∷ ps) false zero = refl
hex_dump-take (p ∷ ps) false (suc zero) = refl
hex_dump-take (p ∷ ps) false (suc (suc zero)) = refl
hex_dump-take (p ∷ ps) false (suc (suc (suc room))) =
    let some_room : (suc (suc (suc room)) == 0) ≡ false = ground arith in
    let less : suc (suc (suc room)) - 1 ≡ suc (suc room) = omega arith in
    let more : (suc (suc room) == 0) ≡ false = ground arith in
    let least : suc (suc room) - 1 ≡ suc room = omega arith in
    let last : suc room - 1 ≡ room = omega arith in
    let most : (suc room == 0) ≡ false = ground arith in
    rw (some_room, less, more, least, most, last, hex_dump-take ps false room)

-- The bytes that stand for themselves, and the dot for the others
abbrev pub text_of : ℕ → ℕ
text_of p = if printable p then p else b'.'

text_dump-take : (ps : List ℕ) (room : ℕ) → text_dump ps room ≡ take room (map text_of ps)
unfolding text_dump
text_dump-take [] zero = refl
text_dump-take [] (suc room) = refl
text_dump-take (p ∷ ps) zero = refl
text_dump-take (p ∷ ps) (suc room) =
    let some_room : (suc room == 0) ≡ false = ground arith in
    let less : suc room - 1 ≡ room = omega arith in rw (some_room, less, text_dump-take ps room)

-- In a buffer of n characters, at least one, the dumps write the first n - 1 characters of the bytes
-- in hexadecimal, two digits each with a space between two bytes, and of the bytes as text, so that
-- there is room for the zero at the end.
pub dumps-take :
    (ps : List ℕ) (n : ℕ)
    → 0 < n
    → (bytes_to_hex_dump ps n ≡ take (n - 1) (hex_text true ps))
      × (bytes_to_text_dump ps n ≡ take (n - 1) (map text_of ps))
      × (length (bytes_to_hex_dump ps n) < n)
      × (length (bytes_to_text_dump ps n) < n)
unfolding bytes_to_hex_dump bytes_to_text_dump
dumps-take ps n h =
    let hex = hex_dump-take ps true (n - 1) in
    let text = text_dump-take ps (n - 1) in
    (
      hex,
      text,
      rw hex (omega (arith, length-take (n - 1) (hex_text true ps))),
      rw text (omega (arith, length-take (n - 1) (map text_of ps))),
    )

abbrev masked : ℕ → ℕ → ℕ → ℕ
masked fuel a m = digits (λ _. zero) min fuel a m

flag_two_three : (flags : ℕ) → flagged flags 2 ≡ true → flagged flags 3 ≡ true
flag_two_three zero h = cc
flag_two_three (suc a) h =
    let two = bit_and-bitwise (suc a) 2 in
    let three = bit_and-bitwise (suc a) 3 in ground (arith, two, three)

-- A block's line without its memory
abbrev pub is_plain : Line → Bool
is_plain (block size file line) = true
is_plain (leaked n) = false
is_plain statistics = false
is_plain blocks = false
is_plain (numbers s) = false
is_plain (block_memory size file line text hex) = false

abbrev pub any_plain : List Line → Bool
any_plain [] = false
any_plain (l ∷ ls) = is_plain l || any_plain ls

append_plain :
    (ls ms : List Line) → any_plain ls ≡ false → any_plain ms ≡ false → any_plain (ls ++ ms) ≡ false
append_plain [] ms e f = f
append_plain (l ∷ ls) ms e f = ground (arith, append_plain ls ms)

blocks_plain :
    (d : DebugHeap) (flags : ℕ) (l : List ℕ)
    → flagged flags 3 ≡ true
    → any_plain (map (dump_block d flags) l) ≡ false
unfolding dump_block
blocks_plain d flags [] e = refl
blocks_plain d flags (h ∷ l) e = rw (e, blocks_plain d flags l e)

title_plain : (d : DebugHeap) (flags : ℕ) → any_plain (dump_title d flags) ≡ false
unfolding dump_title
title_plain d flags = ground arith

stats_plain : (d : DebugHeap) (flags : ℕ) → any_plain (dump_stats d flags) ≡ false
unfolding dump_stats
stats_plain d flags = ground arith

memory_plain : (d : DebugHeap) (flags : ℕ) → any_plain (dump_blocks d flags) ≡ false
unfolding dump_blocks
memory_plain d flags = elim (Bool-cases (flagged flags 2)) [
  | inl e ↦ rw e (blocks_plain d flags d.list (flag_two_three flags e))
  | inr e ↦ rw e
]

-- With no flags does `dump` write a block's line without the block's memory.
pub dump_never_plain : (d : DebugHeap) (flags : ℕ) → any_plain (dump d flags) ≡ false
unfolding dump
dump_never_plain d flags =
    append_plain (dump_title d flags) (dump_stats d flags ++ dump_blocks d flags)
      (title_plain d flags)
      (append_plain (dump_stats d flags) (dump_blocks d flags) (stats_plain d flags)
        (memory_plain d flags))
