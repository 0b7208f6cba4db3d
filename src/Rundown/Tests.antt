-- ===== src/Rundown/Tests.antt =====
-- include/SkBase/Rundown.hxx: two threads, one that takes the guard and one that waits for it.
use sketch.Base.{◌*◌, ◌≡◌, ◌⊎◌, [], ◌∷◌, arith}
use sketch.Rundown.{
  outside, holding, inc_test, inc_exchange, dec_test, wait_first, wait_loop, waited, advance,
}
use sketch.Rundown.Steps.{
  Guard, Reach, here, next, start, call_increment, call_decrement, call_wait, access,
}
use sketch.Rundown.Threads.{count, holds, in_block}
use sketch.Rundown.Safety.{no_holder_after_wait, word_counts_holders}

-- One thread holds the guard, and the other one waits.
abbrev one_holder : Guard
one_holder = record { word = 2; threads = holding ∷ wait_loop ∷ [] }

one_holder-Reach : Reach (start 2) one_holder
unfolding advance
one_holder-Reach =
    next
      (next
        (next
          (next (next here (call_increment 0 [] (outside ∷ [])))
            (access 5 0 [] (inc_test 0) (outside ∷ [])))
          (access 5 0 [] (inc_exchange 0) (outside ∷ [])))
        (call_wait 2 (holding ∷ []) []))
      (access 5 2 (holding ∷ []) wait_first [])

-- The holder gives the guard back, and the waiter returns.
abbrev run_down : Guard
run_down = record { word = 11; threads = outside ∷ waited ∷ [] }

run_down-Reach : Reach (start 2) run_down
unfolding advance
run_down-Reach =
    next
      (next (next one_holder-Reach (call_decrement 2 [] (wait_loop ∷ [])))
        (access 5 2 [] (dec_test 2) (wait_loop ∷ [])))
      (access 5 0 (outside ∷ []) wait_loop [])

no_holder_after_wait_example : count holds run_down.threads ≡ 0
no_holder_after_wait_example = no_holder_after_wait 2 run_down run_down-Reach (omega arith)

word_counts_holders_example :
    ((one_holder.word ≡ 2 * count holds one_holder.threads) ⊎ (count holds one_holder.threads ≡ 0))
    × (count in_block one_holder.threads ≡ 0)
word_counts_holders_example = word_counts_holders 2 one_holder one_holder-Reach
