-- ===== src/Circular/Pointer.antt =====
-- include/SkBase/CircularBuffer.hxx: laws of the wrapping pointer arithmetic.
use sketch.Base.{ℕ, ◌+◌, ◌-◌, ◌≤◌, ◌<◌, ◌≡◌, arith, ltb, if◌then◌else◌}
use sketch.Circular.{increment, decrement, add, sub}

-- An offset that is less than two laps, brought into the storage.
abbrev pub wrap : ℕ → ℕ → ℕ
wrap cap n = if ltb n cap then n else n - cap

module _ (cap p : ℕ) where
  pub add-wrap : (n : ℕ) → p ≤ cap → n ≤ cap → add cap p n ≡ wrap cap (p + n)
  unfolding add
  add-wrap n h k = ground arith

  pub increment-wrap : p < cap → increment cap p ≡ wrap cap (p + 1)
  unfolding increment
  increment-wrap h = ground arith

  pub increment-lt : p < cap → increment cap p < cap
  unfolding increment
  increment-lt h = ground arith

  pub decrement-lt : p < cap → decrement cap p < cap
  unfolding decrement
  decrement-lt h = ground arith

  pub increment-decrement : p < cap → increment cap (decrement cap p) ≡ p
  unfolding increment decrement
  increment-decrement h = ground arith

  pub decrement-increment : p < cap → decrement cap (increment cap p) ≡ p
  unfolding increment decrement
  decrement-increment h = ground arith

  -- Walking `n` steps forward and `n` steps back returns to the start.
  pub sub-add : (n : ℕ) → p < cap → n ≤ cap → sub cap (wrap cap (p + n)) n ≡ p
  unfolding sub
  sub-add n h k = ground arith
