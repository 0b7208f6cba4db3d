-- ===== src/Vector/Tests.antt =====
-- include/SkBase/Vector.hxx: runs on small arrays.
use sketch.Base.{
  ℕ, ◌+◌, ◌^◌, ◌<◌, ◌≤◌, ◌↔◌, ◌≡◌, refl, [], ◌∷◌, some, none, Bool, true, false, ltb, leb,
  if◌then◌else◌, arith, inl, inr,
}
use sketch.Vector.{
  Vec, push_back, pop_back, insert, erase, erase_range, destroy_n, assign_live, resize_with, resize,
  assign, reserve,
}
use sketch.Vector.Span.{IsValid, contents}
use sketch.Vector.Grow.{contents-push_back, contents-pop_back, contents-reserve}
use sketch.Vector.Insert.{contents-insert_copies, insert_no_copies}
use sketch.Vector.Erase.{contents-erase_range, contents-erase_one, contents-erase_scalar}
use sketch.Vector.Resize.{contents-resize_with, resize_refused, contents-assign}

-- A block of at most 20 elements is given.
abbrev small_blocks : ℕ → Bool
small_blocks n = leb n 20

small_blocks-bounded : (n : ℕ) → small_blocks n ≡ true → n < 2 ^ 61
small_blocks-bounded n e = ground arith

-- Three elements in a block of four.
abbrev three : Vec ℕ
three = record {
  begun = true;
  mem = λ i. if ltb i 3 then some (i + 7) else none;
  size = 3;
  cap = 4;
  freed = [];
}

three-IsValid : IsValid three
three-IsValid = record {
  fits = omega arith;
  small = omega arith;
  stored = inl refl;
  live = λ i lt. (i + 7, ground arith);
}

abbrev filled : Vec ℕ
filled = record { begun = true; mem = λ i. some (i + 7); size = 4; cap = 4; freed = [] }

filled-IsValid : IsValid filled
filled-IsValid = record {
  fits = omega arith;
  small = omega arith;
  stored = inl refl;
  live = λ i lt. (i + 7, refl);
}

contents-push_back_example :
    (out : Vec ℕ) × (push_back small_blocks filled 5 ≡ (out, true))
    × IsValid out
    × (contents out ≡ some 7 ∷ some 8 ∷ some 9 ∷ some 10 ∷ some 5 ∷ [])
contents-push_back_example =
    contents-push_back small_blocks small_blocks-bounded filled 5 filled-IsValid (inr refl)

contents-pop_back_example :
    IsValid (pop_back three) × (contents (pop_back three) ≡ some 7 ∷ some 8 ∷ [])
contents-pop_back_example = contents-pop_back three three-IsValid (omega arith)

contents-reserve_example :
    IsValid (reserve small_blocks 100 three 9).0
    × (contents (reserve small_blocks 100 three 9).0 ≡ contents three)
    × (((reserve small_blocks 100 three 9).1 ≡ true)
        ↔ (9 ≤ 100) × (9 ≤ (reserve small_blocks 100 three 9).0.cap))
contents-reserve_example =
    contents-reserve small_blocks small_blocks-bounded 100 three 9 three-IsValid

contents-insert_copies_example :
    (out : Vec ℕ) × (insert small_blocks three 1 2 5 ≡ (out, some 1))
    × IsValid out
    × (contents out ≡ some 7 ∷ some 5 ∷ some 5 ∷ some 8 ∷ some 9 ∷ [])
contents-insert_copies_example =
    contents-insert_copies small_blocks small_blocks-bounded three three-IsValid 1 2 (omega arith)
      (omega arith) 5 (omega arith) (inr refl)

insert_no_copies_example : contents (insert small_blocks three 1 0 5).0 ≡ some 7 ∷ none ∷ none ∷ []
insert_no_copies_example = insert_no_copies small_blocks three three-IsValid 5 1 (omega arith) refl

contents-erase_range_example :
    (out : Vec ℕ) × (erase_range true filled 1 3 ≡ some (out, 1))
    × IsValid out
    × (contents out ≡ some 7 ∷ some 10 ∷ [])
contents-erase_range_example =
    contents-erase_range filled filled-IsValid true 1 3 (omega arith) (omega arith)

-- The elements behind a destroyed range would be assigned to destroyed objects.
erase_range_run : erase_range false filled 1 3 ≡ none
unfolding erase_range destroy_n assign_live
erase_range_run = refl

contents-erase_one_example :
    ((erase false three 1).1 ≡ 1)
    × IsValid (erase false three 1).0
    × (contents (erase false three 1).0 ≡ some 7 ∷ some 9 ∷ [])
contents-erase_one_example = contents-erase_one three three-IsValid 1 (omega arith)

contents-erase_scalar_example : contents (erase true three 1).0 ≡ some 7 ∷ some 9 ∷ some 9 ∷ []
contents-erase_scalar_example = contents-erase_scalar three three-IsValid 1 (omega arith)

contents-resize_with_example :
    (out : Vec ℕ) × (resize_with small_blocks 100 true three 5 0 ≡ some (out, true))
    × IsValid out
    × (contents out ≡ some 7 ∷ some 8 ∷ some 9 ∷ some 0 ∷ some 0 ∷ [])
contents-resize_with_example =
    contents-resize_with small_blocks small_blocks-bounded 100 true three three-IsValid 5 0
      (omega arith) (omega arith) (inr (inr refl))

resize_refused_example :
    (resize small_blocks 100 true (λ x. x) three 30 0 ≡ some (three, false))
    × (resize_with small_blocks 100 true three 30 0 ≡ some (three, true))
resize_refused_example =
    resize_refused small_blocks small_blocks-bounded 100 true three three-IsValid (λ x. x) 30 0
      (omega arith) (omega arith) (omega arith) refl refl

contents-assign_example :
    (out : Vec ℕ) × (assign small_blocks true three 2 5 ≡ (out, true))
    × IsValid out
    × (contents out ≡ some 5 ∷ some 5 ∷ [])
contents-assign_example =
    contents-assign small_blocks small_blocks-bounded true three three-IsValid 2 5
      (inl (omega arith))
