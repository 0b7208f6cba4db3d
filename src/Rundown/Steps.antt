-- ===== src/Rundown/Steps.antt =====
-- include/SkBase/Rundown.hxx: the interleavings of threads that share one guard.
use sketch.Base.{ℕ, List, ◌∷◌, ◌++◌, replicate}
use sketch.Rundown.{Thread, outside, holding, inc_test, dec_test, wait_first, advance}

pub record Guard : Type 0 where
  pub word : ℕ
  pub threads : List Thread

-- A thread begins a call, or makes its next atomic access. Only a holder calls `decrement`.
pub data Step : Guard → Guard → Type 0 where
  call_increment :
      (w : ℕ) (xs ys : List Thread)
      → Step
          (record { word = w; threads = xs ++ outside ∷ ys })
          (record { word = w; threads = xs ++ inc_test w ∷ ys })
  call_decrement :
      (w : ℕ) (xs ys : List Thread)
      → Step
          (record { word = w; threads = xs ++ holding ∷ ys })
          (record { word = w; threads = xs ++ dec_test w ∷ ys })
  call_wait :
      (w : ℕ) (xs ys : List Thread)
      → Step
          (record { word = w; threads = xs ++ outside ∷ ys })
          (record { word = w; threads = xs ++ wait_first ∷ ys })
  access :
      (block w : ℕ) (xs : List Thread) (t : Thread) (ys : List Thread)
      → Step
          (record { word = w; threads = xs ++ t ∷ ys })
          (record { word = (advance block w t).0; threads = xs ++ (advance block w t).1 ∷ ys })

pub data Reach (s : Guard) : Guard → Type 0 where
  here : Reach s s
  next : {g h : Guard} → Reach s g → Step g h → Reach s h

-- A new guard, with `n` threads that have not called it.
abbrev pub start : ℕ → Guard
start n = record { word = 0; threads = replicate n outside }
