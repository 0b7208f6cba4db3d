-- ===== src/Heap/Tests.antt =====
-- include/SkBase/Heap.Debug.hxx on two blocks.
use sketch.Base.{◌<◌, ◌≡◌, refl, arith, some, true, false, [], ◌∷◌, take, map, length, inl}
use sketch.Heap.{
  DebugHeap, make, initialize, allocate, free, check, count_in, count_out, unlist,
  bytes_to_hex_dump, bytes_to_text_dump, hex_dump, hex_digit, dump,
}
use sketch.Heap.Dump.{hex_text, text_of, any_plain, dumps-take, dump_never_plain}
use sketch.Heap.Counts.{
  Reach, here, next, allocated, freed, IsCounted, Reach-IsCounted, make-IsCounted,
}

abbrev fresh : DebugHeap
fresh =
    make 7 (λ _. record { heap = 0; size = 0; file = 0; line = 0; guard_pre = [] }) (λ _. [])
      (λ _. record { size = 0; guard_post = [] })

-- A block of 3 bytes at 100, and one of 5 at 200; then the first goes.
abbrev two_blocks : DebugHeap
two_blocks = (allocate (allocate fresh (some 100) 3 1 10).0 (some 200) 5 1 11).0

abbrev one_block : DebugHeap
one_block = (free two_blocks 100).0

counters_run :
    (one_block.stats.current_bytes ≡ 5)
    × (one_block.stats.peak_bytes ≡ 8)
    × (one_block.stats.smallest ≡ 3)
    × (one_block.list ≡ 200 ∷ [])
unfolding make allocate initialize free count_in count_out unlist
counters_run = (refl, refl, refl, refl)

-- 100 is free, so a second free of it is reported.
free_again : (free one_block 100).1 ≡ false
unfolding make allocate initialize free check
free_again = refl

two_Reach : Reach fresh one_block
unfolding make allocate initialize
two_Reach =
    next
      (next (next here (allocated fresh 100 3 1 10 tt (omega arith)))
        (allocated (allocate fresh (some 100) 3 1 10).0 200 5 1 11 (omega arith, tt) (omega arith)))
      (freed two_blocks 100 (inl refl))

Reach-IsCounted_example : IsCounted one_block
Reach-IsCounted_example = Reach-IsCounted (make-IsCounted _ _ _ _) two_Reach

dumps-take_example :
    (bytes_to_hex_dump (0x41 ∷ 0x0a ∷ 0xff ∷ []) 7
      ≡ take 6 (hex_text true (0x41 ∷ 0x0a ∷ 0xff ∷ [])))
    × (bytes_to_text_dump (0x41 ∷ 0x0a ∷ 0xff ∷ []) 7
        ≡ take 6 (map text_of (0x41 ∷ 0x0a ∷ 0xff ∷ [])))
    × (length (bytes_to_hex_dump (0x41 ∷ 0x0a ∷ 0xff ∷ []) 7) < 7)
    × (length (bytes_to_text_dump (0x41 ∷ 0x0a ∷ 0xff ∷ []) 7) < 7)
dumps-take_example = dumps-take (0x41 ∷ 0x0a ∷ 0xff ∷ []) 7 (omega arith)

hex_run :
    bytes_to_hex_dump (0x41 ∷ 0x0a ∷ 0xff ∷ []) 7 ≡ b'4' ∷ b'1' ∷ b' ' ∷ b'0' ∷ b'A' ∷ b' ' ∷ []
unfolding bytes_to_hex_dump hex_dump hex_digit
hex_run = refl

dump_never_plain_example : any_plain (dump two_blocks 2) ≡ false
dump_never_plain_example = dump_never_plain two_blocks 2
