-- ===== src/Queue/Tests.antt =====
-- include/SkBase/Queue.hxx: a queue of two slots, by evaluation, and the theorems at it.
use sketch.Base.{ℕ, ◌≡◌, refl, List, [], ◌∷◌, none, some, true, false, arith, ◌==◌, if◌then◌else◌}
use mathlib.Core.Option
use sketch.Queue.{Queue, make, push, push_loop, pop, pop_loop}
use sketch.Queue.Fifo
use sketch.Queue.Fifo.{Op, Answer}
use sketch.Queue.Refine.{IsValid, contents}
use sketch.Queue.Run.{run, call, run-Fifo}

abbrev hash : ℕ → ℕ
hash i = i

-- One pointer, put at the count 2 into the slot 0; the slot 1 is vacant for the count 3.
abbrev one_item : Queue
one_item = record { slots = λ i. if i == 0 then 100 else 3; puts = 3; gets = 2; capacity = 2 }

one_item-IsValid : IsValid hash one_item
one_item-IsValid = record {
  some_room = omega arith;
  order = omega arith;
  fits = omega arith;
  items = λ i lo hi. let e : i ≡ 2 = omega arith in rw e refl;
  vacant = λ i lo hi. let e : i ≡ 3 = omega arith in rw e refl;
}

abbrev calls : List Op
calls =
    Fifo.push 200
    ∷ Fifo.push 300
    ∷ Fifo.push 7
    ∷ Fifo.pop
    ∷ Fifo.push 300
    ∷ Fifo.pop
    ∷ Fifo.pop
    ∷ Fifo.pop
    ∷ []

abbrev answers : List Answer
answers =
    Fifo.taken true
    ∷ Fifo.taken false
    ∷ Fifo.taken false
    ∷ Fifo.given (some 100)
    ∷ Fifo.taken true
    ∷ Fifo.given (some 200)
    ∷ Fifo.given (some 300)
    ∷ Fifo.given none
    ∷ []

-- A new queue gives its pointers back in their order.
new_run :
    Option.map (λ r. r.0) (run hash (make hash 2) (Fifo.push 100 ∷ calls))
    ≡ some (Fifo.taken true ∷ answers)
unfolding run call make push push_loop pop pop_loop Option.bind
new_run = refl

run-Fifo_example :
    (out : Queue) × (run hash one_item calls ≡ some (answers, out))
    × IsValid hash out
    × (contents out ≡ [])
unfolding Fifo.run Fifo.put Fifo.get
run-Fifo_example = run-Fifo hash calls one_item one_item-IsValid
