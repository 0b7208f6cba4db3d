-- ===== src/Trace/Tests.antt =====
-- src/SkBase/Trace.cxx with one sink.
use sketch.Base.{◌+◌, ◌≡◌, refl, [], ◌∷◌, true, false, none, some, leb, if◌then◌else◌}
use sketch.Base.Int.{pos}
use sketch.Trace.{Trace, Globals, default_filter, flush, pump_step, initialize, write}
use sketch.Trace.Lifetime.{IsUp, here, next, initialized, Reach-IsUp}
use sketch.Trace.Delivery.{IsOpen, written_record, at_last, flush-write}

abbrev down : Trace
down = record { references = pos 0; globals = none; min_level = 1; module_name = []; written = [] }

-- A sink for warnings and errors.
abbrev one_sink : Globals
one_sink = record {
  sinks = record { name = 65 ∷ []; sink = 7; formatter = λ r. r; filter = λ r. leb 2 r.level } ∷ [];
  stop_flag = false;
  queue = [];
  taken = none;
}

abbrev running : Trace
running = record {
  references = pos 1;
  globals = some one_sink;
  min_level = 1;
  module_name = [];
  written = [];
}

running-IsOpen : IsOpen running one_sink 2
running-IsOpen = record {
  up = refl;
  running = refl;
  idle = refl;
  wanted = refl;
  heard = refl;
  room = refl;
}

down-IsUp : IsUp down 0
down-IsUp = record { references = refl; globals = refl }

filter_run :
    (default_filter 2 3 (written_record 2 none [] 1 [] 0) ≡ true)
    × (default_filter 2 3 (written_record 4 none [] 1 [] 0) ≡ false)
unfolding default_filter
filter_run = (refl, refl)

flush-write_example :
    (u : Trace) × (write running false 2 none [] 9 (some (72 ∷ [])) 0 true ≡ some (u, true))
    × (flush (at_last one_sink u) ≡ true)
    × ((at_last one_sink u).written ≡ [])
    × (flush (pump_step (at_last one_sink u)) ≡ true)
    × ((pump_step (at_last one_sink u)).written ≡ (7, written_record 2 none [] 9 (72 ∷ []) 0) ∷ [])
flush-write_example = flush-write running one_sink false 2 none [] 9 (72 ∷ []) 0 running-IsOpen

-- The thread cannot be made, and no user is left.
Reach-IsUp_example :
    IsUp
      (initialize down none true false).0
      (if (initialize down none true false).1 then 0 + 1 else 0)
Reach-IsUp_example = Reach-IsUp (next (here down 0) (initialized down 0 none true false)) down-IsUp
