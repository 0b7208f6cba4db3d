-- ===== src/Circular/Tests.antt =====
-- include/SkBase/CircularBuffer.hxx: a buffer of three elements, by evaluation, and the theorems at
-- it. The calls follow tests/SkBase_test/CircularBuffer_test.cpp.
use sketch.Base.{
  ℕ, ◌+◌, ◌<◌, ◌≡◌, ◌≢◌, ◌↔◌, refl, List, [], ◌∷◌, ◌++◌, map, Option, some, none, true, false,
  arith, inl, inr, get_elem?, drop, if◌then◌else◌, ◌==◌,
}
use sketch.Circular.{
  Ring, front, back, at, array_one, array_two, is_uninitialized, erase_begin, push_back, push_front,
  pop_back, pop_front, increment, decrement,
}
use sketch.Circular.Pointer.{wrap}
use sketch.Circular.Window.{IsValid, contents}
use sketch.Circular.Ends.{
  at-get_elem?, front-back_ends, arrays-contents, segment, is_uninitialized_iff,
  is_uninitialized_misses, erase_begin-contents,
}
use sketch.Circular.Deque
use sketch.Circular.Deque.{Op}
use sketch.Circular.Run.{step, run, run_refines}
use sketch.Circular.Edit.{erase, insert, rerase, begin}
use sketch.Circular.Edit.Erase.{contents-erase}
use sketch.Circular.Edit.Rerase.{contents-rerase}
use sketch.Circular.Edit.Insert.{contents-insert}

abbrev cells : ℕ → ℕ → ℕ → ℕ → Option ℕ
cells a b c i =
    if i == 0 then some a else if i == 1 then some b else if i == 2 then some c else none

-- 7 and 8 round the end of a storage of three slots, whose middle slot is raw.
abbrev wrapped : Ring ℕ
wrapped = record {
  slot = λ i. if i == 0 then some 8 else if i == 2 then some 7 else none;
  cap = 3;
  first = 2;
  last = 1;
  size = 2;
}

wrapped-IsValid : IsValid wrapped
wrapped-IsValid = omega arith

abbrev full_ring : Ring ℕ
full_ring = record { slot = cells 2 3 1; cap = 3; first = 2; last = 2; size = 3 }

full_ring-IsValid : IsValid full_ring
full_ring-IsValid = omega arith

abbrev script : List (Op ℕ)
script =
    Deque.push_back 9
    ∷ Deque.push_back 10
    ∷ Deque.push_front 6
    ∷ Deque.pop_back
    ∷ Deque.pop_front
    ∷ Deque.pop_front
    ∷ Deque.pop_front
    ∷ Deque.push_front 5
    ∷ []

run-wrapped : contents (run wrapped script) ≡ some 5 ∷ []
unfolding run step push_back push_front pop_back pop_front increment decrement
run-wrapped = refl

run_refines_example :
    IsValid (run wrapped script)
    × ((run wrapped script).cap ≡ 3)
    × (contents (run wrapped script) ≡ map some (Deque.run 3 (7 ∷ 8 ∷ []) script))
unfolding increment
run_refines_example = run_refines script wrapped (7 ∷ 8 ∷ []) wrapped-IsValid refl

at-get_elem?_example : get_elem? (contents wrapped) 1 ≡ some (at wrapped 1)
at-get_elem?_example = at-get_elem? wrapped wrapped-IsValid 1 (omega arith)

front-back_ends_example :
    (get_elem? (contents wrapped) 0 ≡ some (front wrapped))
    × (get_elem? (contents wrapped) 1 ≡ some (back wrapped))
front-back_ends_example = front-back_ends wrapped wrapped-IsValid (omega arith)

arrays-contents_run :
    segment wrapped.slot 3 (array_one wrapped).0 (array_one wrapped).1
      ++ segment wrapped.slot 3 (array_two wrapped).0 (array_two wrapped).1
    ≡ contents wrapped
arrays-contents_run = arrays-contents wrapped wrapped-IsValid

is_uninitialized_iff_run :
    (is_uninitialized wrapped 1 ≡ true) ↔ ((i : ℕ) → i < 2 → wrap 3 (2 + i) ≢ 1)
is_uninitialized_iff_run =
    is_uninitialized_iff wrapped wrapped-IsValid 1 (omega arith) (omega arith) (omega arith)
      (inl (omega arith))

-- One element in the middle slot.
abbrev middle : Ring ℕ
middle = record {
  slot = λ i. if i == 1 then some 4 else none;
  cap = 3;
  first = 1;
  last = 2;
  size = 1;
}

middle-IsValid : IsValid middle
middle-IsValid = omega arith

is_uninitialized_misses_run :
    (is_uninitialized middle 0 ≡ false) × ((i : ℕ) → i < 1 → wrap 3 (1 + i) ≢ 0)
is_uninitialized_misses_run =
    is_uninitialized_misses middle middle-IsValid 0 (omega arith) (omega arith)

contents-erase_example :
    (out : Ring ℕ) × (erase wrapped 2 ≡ some (out, some 2))
    × IsValid out
    × (contents out ≡ some 8 ∷ [])
unfolding increment
contents-erase_example = contents-erase wrapped wrapped-IsValid 0 (omega arith)

contents-insert_example :
    (out : Ring ℕ) × (insert full_ring (some 0) 9 ≡ some (out, some 0))
    × IsValid out
    × (contents out ≡ some 9 ∷ some 2 ∷ some 3 ∷ [])
unfolding increment
contents-insert_example =
    contents-insert full_ring full_ring-IsValid 1 (omega arith) 9 (inr (omega arith))

erase_begin-contents_example : contents (erase_begin wrapped 1) ≡ drop 1 (contents wrapped)
erase_begin-contents_example = erase_begin-contents wrapped wrapped-IsValid 1 (omega arith)

contents-rerase_run :
    (out : Ring ℕ) × (rerase full_ring 0 ≡ some (out, if 2 == 0 then begin out else some 0))
    × IsValid out
    × (contents out ≡ some 1 ∷ some 3 ∷ [])
unfolding increment
contents-rerase_run = contents-rerase full_ring full_ring-IsValid 1 (omega arith)
