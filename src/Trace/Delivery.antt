-- ===== src/Trace/Delivery.antt =====
-- src/SkBase/Trace.cxx: what the sinks are given, and when `flush` returns.
use sketch.Base.{
  ℕ, suc, List, [], ◌∷◌, ◌++◌, append_assoc, append-nil, map, Bool, true, false, leb, ltb, ◌≡◌,
  refl, sym, ap, ◌∙◌, length, Option, none, some, if◌then◌else◌, Bool-cases, inl, inr,
}
use sketch.Trace.{
  Trace, Text, Record, Registration, Globals, deliver, pump_events, pump_step, pump_globals,
  pop_next, give_taken, flush, flush_globals, write, write_globals, push_record, queue_capacity,
  or_else, sketch_name, no_sinks,
}

-- The sinks that take a record
abbrev pub takers : List Registration → Record → List Registration
takers [] m = []
takers (r ∷ rs) m = if r.filter m then r ∷ takers rs m else takers rs m

-- What records are to reach the sinks: in their order, and each in the order of registration, at the
-- sinks that take it, as their formatters make it
abbrev pub expected : List Registration → List Record → List (ℕ × Record)
expected sinks [] = []
expected sinks (m ∷ ms) =
    map (λ (r : Registration). (r.sink, r.formatter m)) (takers sinks m) ++ expected sinks ms

-- The accesses of the writer's thread for records: a pop and a write for each
abbrev pub accesses : List Record → ℕ
accesses [] = 0
accesses (m ∷ ms) = suc (suc (accesses ms))

deliver_lem :
    (sinks : List Registration) (m : Record)
    → deliver sinks m ≡ map (λ (r : Registration). (r.sink, r.formatter m)) (takers sinks m)
unfolding deliver
deliver_lem [] m = refl
deliver_lem (r ∷ rs) m = elim (Bool-cases (r.filter m)) [
  | inl t ↦ rw t (ap (λ l. (r.sink, r.formatter m) ∷ l) (deliver_lem rs m))
  | inr f ↦ rw f (deliver_lem rs m)
]

expected-append :
    (sinks : List Registration) (xs ys : List Record)
    → expected sinks (xs ++ ys) ≡ expected sinks xs ++ expected sinks ys
expected-append sinks [] ys = refl
expected-append sinks (x ∷ xs) ys =
    ap (λ l. map (λ (r : Registration). (r.sink, r.formatter x)) (takers sinks x) ++ l)
      (expected-append sinks xs ys)
    ∙ sym (
        append_assoc (map (λ (r : Registration). (r.sink, r.formatter x)) (takers sinks x))
          (expected sinks xs) (expected sinks ys))

module _ (t : Trace) (g : Globals) where
  -- The trace with these records in the queue and at the writer's thread, and these at the sinks
  abbrev state : List Record → Option Record → List (ℕ × Record) → Trace
  state ms held w = record t { globals = some (record g { queue = ms; taken = held }); written = w }

  popped :
      (m : Record) (ms : List Record) (w : List (ℕ × Record))
      → pump_step (state (m ∷ ms) none w) ≡ state ms (some m) w
  unfolding pump_step pump_globals pop_next
  popped m ms w = refl

  given :
      (m : Record) (ms : List Record) (w : List (ℕ × Record))
      → pump_step (state ms (some m) w) ≡ state ms none (w ++ expected g.sinks (m ∷ []))
  unfolding pump_step pump_globals give_taken
  given m ms w = ap (λ l. state ms none (w ++ l)) (deliver_lem g.sinks m ∙ sym (append-nil _))

  pumped :
      (ms rest : List Record) (w : List (ℕ × Record))
      → pump_events (accesses ms) (state (ms ++ rest) none w)
        ≡ state rest none (w ++ expected g.sinks ms)
  unfolding pump_events
  pumped [] rest w = ap (λ l. state rest none l) (sym (append-nil w))
  pumped (m ∷ ms) rest w =
      ap (λ u. pump_events (accesses ms) (pump_step u)) (popped m (ms ++ rest) w)
      ∙ ap (λ u. pump_events (accesses ms) u) (given m (ms ++ rest) w)
      ∙ pumped ms rest (w ++ expected g.sinks (m ∷ []))
      ∙ ap (λ l. state rest none l)
          (append_assoc w (expected g.sinks (m ∷ [])) (expected g.sinks ms)
            ∙ ap (λ l. w ++ l) (sym (expected-append g.sinks (m ∷ []) ms)))

  flush-state : (held : Option Record) (w : List (ℕ × Record)) → flush (state [] held w) ≡ true
  unfolding flush flush_globals
  flush-state held w = elim (Bool-cases g.stop_flag) [ inl s ↦ rw s refl | inr s ↦ rw s refl ]

-- A running trace with room, whose writer's thread holds no record, for a record of a level that it
-- wants
pub record IsOpen (t : Trace) (g : Globals) (level : ℕ) : Type 0 where
  pub up : t.globals ≡ some g
  pub running : g.stop_flag ≡ false
  pub idle : g.taken ≡ none
  pub wanted : ltb level t.min_level ≡ false
  pub heard : no_sinks g.sinks ≡ false
  pub room : leb queue_capacity (length g.queue) ≡ false

abbrev pub written_record : ℕ → Option Text → Text → ℕ → Text → ℕ → Record
written_record level module_name file line text origin = record {
  level = level;
  module_name = or_else module_name sketch_name;
  file = file;
  line = line;
  origin = origin;
  text = text;
}

-- The trace when the writer's thread has given the sinks all of the queue but the last record, and
-- has popped that one
abbrev pub at_last : Globals → Trace → Trace
at_last g u = pump_step (pump_events (accesses g.queue) u)

-- Where the trace runs, has a sink, wants the level, its queue has room, its writer's thread holds no
-- record and there is memory for the record, a write succeeds. When the writer's thread has then
-- made one pop and one write for each record of the queue before, and one pop more, flush returns
-- although the sinks have only been given the records before; after one access more the sinks have
-- been given these and then the new one: each sink whose filter takes it, in the order of
-- registration, what its formatter makes of it.
pub flush-write :
    (t : Trace) (g : Globals) (bail : Bool) (level : ℕ) (module_name : Option Text) (file : Text)
    (line : ℕ) (text : Text) (origin : ℕ)
    → IsOpen t g level
    → (u : Trace) × (write t bail level module_name file line (some text) origin true
        ≡ some (u, true))
      × (flush (at_last g u) ≡ true)
      × ((at_last g u).written ≡ t.written ++ expected g.sinks g.queue)
      × (flush (pump_step (at_last g u)) ≡ true)
      × ((pump_step (at_last g u)).written
          ≡ t.written
            ++ expected g.sinks
                (g.queue ++ written_record level module_name file line text origin ∷ []))
unfolding write write_globals push_record
flush-write t g bail level module_name file line text origin h =
    let m = written_record level module_name file line text origin in
    let u = state t g (g.queue ++ m ∷ []) none t.written in
    let last : at_last g u ≡ state t g [] (some m) (t.written ++ expected g.sinks g.queue) =
      ap (λ v. pump_step v) (pumped t g g.queue (m ∷ []) t.written) ∙ popped t g m [] _ in
    let all : pump_step (at_last g u)
        ≡ state t g [] none (t.written ++ expected g.sinks (g.queue ++ m ∷ [])) =
      ap (λ v. pump_step v) last
      ∙ given t g m [] _
      ∙ ap (λ l. state t g [] none l)
          (append_assoc t.written (expected g.sinks g.queue) (expected g.sinks (m ∷ []))
            ∙ ap (λ l. t.written ++ l) (sym (expected-append g.sinks g.queue (m ∷ [])))) in
    (
      u,
      rw (h.up, h.running, h.idle, h.wanted, h.heard, h.room) refl,
      ap (λ v. flush v) last ∙ flush-state t g (some m) _,
      ap (λ (v : Trace). v.written) last,
      ap (λ v. flush v) all ∙ flush-state t g none _,
      ap (λ (v : Trace). v.written) all,
    )
