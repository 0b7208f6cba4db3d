-- ===== src/Rundown.antt =====
-- include/SkBase/Rundown.hxx: the guard that is waited for, one atomic access at a time.
pub mod Steps
pub mod Threads
pub mod Safety
mod Tests
use sketch.Base.{ℕ, ◌+◌, ◌-◌, ◌*◌, ◌%◌, Bool, ◌==◌, if◌then◌else◌}

-- Where a thread stands. `val` is the value of `m_ptr` that it read when its call began. A thread
-- is `outside` before `increment` and after a refused one or a `decrement`, and `holding` after an
-- `increment` that returned true.
pub data Thread : Type 0 where
  -- `increment`: before the test of `m_ptr & RUNDOWN_ACTIVE`, and before the exchange
  outside holding : Thread
  inc_test inc_exchange : ℕ → Thread
  -- `decrement`: before the test of `val`, and in the branch for a wait block
  dec_test dec_block : ℕ → Thread
  -- `wait`: before its first exchange, in its loop, and after it
  wait_first wait_loop waited : Thread

-- `RUNDOWN_ACTIVE`, in the lowest bit
abbrev pub is_active : ℕ → Bool
is_active word = word % 2 == 1

-- The next atomic access of a thread: the value of `m_ptr` and where the thread stands after it.
-- The thread's wait block is at the address `2 * block`. In the loop of `wait`, `val` is 0 and is
-- not read again, so that `waitCnt` is 0 and no event is made.
pub advance : ℕ → ℕ → Thread → ℕ × Thread
advance block word outside = (word, outside)
advance block word holding = (word, holding)
advance block word (inc_test val) =
    if is_active word then (word, outside) else (word, inc_exchange val)
advance block word (inc_exchange val) =
    if word == val then (val + 2, holding) else (word, inc_test val)
advance block word (dec_test val) =
    if is_active val
    then (word, dec_block val)
    else if word == val
    then (val - 2, outside)
    else (word, dec_test val)
advance block word (dec_block val) = (word, dec_block val)
advance block word wait_first = if word == 0 then (1, waited) else (word, wait_loop)
advance block word wait_loop = if word == 0 then (2 * block + 1, waited) else (word, wait_loop)
advance block word waited = (word, waited)
