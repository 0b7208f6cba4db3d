-- ===== src/Queue/Fifo.antt =====
-- include/SkBase/Queue.hxx: what the queue promises, on the list of the pointers it holds.
use sketch.Base.{
  ℕ, List, [], ◌∷◌, ◌++◌, Option, none, some, Bool, true, false, ◌||◌, leb, if◌then◌else◌, length,
}
use sketch.Queue.{is_vacant_tag}

-- A pointer is taken at the end, unless it is null or not aligned, or the queue is full.
unfoldable pub put : ℕ → List ℕ → ℕ → List ℕ × Bool
put capacity xs p =
    if is_vacant_tag p || leb capacity (length xs) then (xs, false) else (xs ++ p ∷ [], true)

-- The oldest pointer is given.
unfoldable pub get : List ℕ → List ℕ × Option ℕ
get [] = ([], none)
get (x ∷ xs) = (xs, some x)

pub data Op : Type 0 where
  push : ℕ → Op
  pop : Op

-- What a call answers: whether the pointer was taken, or the pointer given.
pub data Answer : Type 0 where
  taken : Bool → Answer
  given : Option ℕ → Answer

-- A sequence of calls: their answers, and what is left.
unfoldable pub run : ℕ → List ℕ → List Op → List Answer × List ℕ
run capacity xs [] = ([], xs)
run capacity xs (push p ∷ ops) =
    let (xs', ok) = put capacity xs p in
    let (answers, left) = run capacity xs' ops in (taken ok ∷ answers, left)
run capacity xs (pop ∷ ops) =
    let (xs', item) = get xs in
    let (answers, left) = run capacity xs' ops in (given item ∷ answers, left)
