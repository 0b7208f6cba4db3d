-- ===== src/Trace.antt =====
-- src/SkBase/Trace.cxx and include/SkBase/Trace.hxx: the trace, its sinks, and its queue of records.
pub mod Lifetime
pub mod Delivery
mod Tests
use sketch.Base.{
  ℕ, zero, suc, ◌+◌, List, [], ◌∷◌, ◌++◌, Bool, true, false, not, leb, ltb, ◌&&◌, ◌||◌,
  if◌then◌else◌, length, Option, none, some,
}
use sketch.Base.Int.{ℤ, pos, ◌==ℤ◌, ltb_ℤ}
use sketch.RefCount.{increment, decrement}
use sketch.Strings.Text.{compare}

abbrev pub Text : Type 0
Text = List ℕ

-- `origin` is what Record::make asks the system for: the time, the process and the thread.
pub record Record : Type 0 where
  pub level : ℕ
  pub module_name : Text
  pub file : Text
  pub line : ℕ
  pub origin : ℕ
  pub text : Text

-- `TraceRegistration`
pub record Registration : Type 0 where
  pub name : Text
  pub sink : ℕ
  pub formatter : Record → Record
  pub filter : Record → Bool

-- `TraceGlobalData`; `queue` is the list that the Queue of records holds, and `taken` the record
-- that the writer's thread has popped and not yet given to the sinks.
pub record Globals : Type 0 where
  pub sinks : List Registration
  pub stop_flag : Bool
  pub queue : List Record
  pub taken : Option Record

-- The variables of the trace, and what the sinks were given
pub record Trace : Type 0 where
  pub references : ℤ
  pub globals : Option Globals
  pub min_level : ℕ
  pub module_name : Text
  pub written : List (ℕ × Record)

abbrev pub queue_capacity : ℕ
queue_capacity = 4096

-- `DefaultTraceFilter::filter`
unfoldable pub default_filter : ℕ → ℕ → Record → Bool
default_filter min_level max_level r = leb min_level r.level && leb r.level max_level

-- The loop over the sinks in `pumpEvents`
unfoldable pub deliver : List Registration → Record → List (ℕ × Record)
deliver [] m = []
deliver (r ∷ rs) m =
    let rest = deliver rs m in if r.filter m then (r.sink, r.formatter m) ∷ rest else rest

-- The writer's thread in `pumpEvents`, one access at a time: it gives the record that it holds to
-- the sinks, or pops the next one.
unfoldable pub give_taken : Trace → Globals → Option Record → Trace
give_taken t g none = t
give_taken t g (some m) = record t {
  globals = some (record g { taken = none });
  written = t.written ++ deliver g.sinks m;
}

unfoldable pub pop_next : Trace → Globals → List Record → Trace
pop_next t g [] = t
pop_next t g (m ∷ ms) = record t { globals = some (record g { queue = ms; taken = some m }) }

unfoldable pub pump_globals : Trace → Option Globals → Trace
pump_globals t none = t
pump_globals t (some g) = elim g.taken [
  | none ↦ pop_next t g g.queue
  | some m ↦ give_taken t g (some m)
]

unfoldable pub pump_step : Trace → Trace
pump_step t = pump_globals t t.globals

-- `n` accesses of the writer's thread, with no other thread between
unfoldable pub pump_events : ℕ → Trace → Trace
pump_events zero t = t
pump_events (suc n) t = pump_events n (pump_step t)

-- `flush()` changes nothing: it waits, and this is whether it returns now.
abbrev pub no_records : List Record → Bool
no_records [] = true
no_records (m ∷ ms) = false

unfoldable pub flush_globals : Option Globals → Bool
flush_globals none = true
flush_globals (some g) = g.stop_flag || no_records g.queue

unfoldable pub flush : Trace → Bool
flush t = flush_globals t.globals

-- The end of the writer's thread, which gives the sinks the record that it holds. What is still
-- in the queue is released.
unfoldable pub join_writer : Trace → Option Globals → Trace
join_writer t none = t
join_writer t (some g) = give_taken t g g.taken

-- `finalize()` from the return of its `flush()` on: the last one ends the writer's thread and
-- destroys the data.
unfoldable pub finalize : Trace → Trace
finalize t =
    let (count, answer) = decrement t.references in
    if not (answer ==ℤ pos 0)
    then record t { references = count }
    else record (join_writer t t.globals) { references = count; globals = none }

abbrev pub or_else : Option Text → Text → Text
or_else none text = text
or_else (some given) text = given

-- `initialize(moduleName)`, where the writer and its thread could be made or not
unfoldable pub initialize : Trace → Option Text → Bool → Bool → Trace × Bool
initialize t module_name writer_made thread_made =
    let (count, answer) = increment t.references in
    let made = record t {
      references = count;
      module_name = or_else module_name t.module_name;
      globals = some (record { sinks = []; stop_flag = false; queue = []; taken = none });
    } in
    if ltb_ℤ (pos 1) answer
    then (record t { references = count }, true)
    else if not writer_made
    then (finalize made, false)
    else if not thread_made
    then (finalize made, false)
    else (made, true)

-- `r.name == sName`
abbrev pub same_name : Text → Registration → Bool
same_name name r = compare r.name name ==ℤ pos 0

-- `registerSink`, with null for a missing argument, and whether the registration could be made
unfoldable pub register_sink :
    Trace
    → Option Text
    → Option ℕ
    → Option (Record → Record)
    → Option (Record → Bool)
    → Bool
    → Trace × Bool
register_sink t (some name) (some sink) (some formatter) (some filter) made =
    let r : Registration = record {
      name = name;
      sink = sink;
      formatter = formatter;
      filter = filter;
    } in
    elim t.globals [
      | none ↦ (t, false)
      | some g ↦
          if made
          then (record t { globals = some (record g { sinks = g.sinks ++ r ∷ [] }) }, true)
          else (t, false)
    ]
register_sink t none sink formatter filter made = (t, false)
register_sink t (some name) none formatter filter made = (t, false)
register_sink t (some name) (some sink) none filter made = (t, false)
register_sink t (some name) (some sink) (some formatter) none made = (t, false)

-- The loop of `unregisterSink`: the first sink of the name goes.
unfoldable pub remove_named : Text → List Registration → List Registration
remove_named name [] = []
remove_named name (r ∷ rs) =
    let rest = remove_named name rs in if same_name name r then rs else r ∷ rest

unfoldable pub unregister_sink : Trace → Text → Trace
unregister_sink t name = elim t.globals [
  | none ↦ t
  | some g ↦ record t { globals = some (record g { sinks = remove_named name g.sinks }) }
]

-- The loops of `setFormatter` and `setFilter`: the first sink of the name changes.
unfoldable pub change_named :
    Text → (Registration → Registration) → List Registration → List Registration × Bool
change_named name f [] = ([], false)
change_named name f (r ∷ rs) =
    let (rest, found) = change_named name f rs in
    if same_name name r then (f r ∷ rs, true) else (r ∷ rest, found)

unfoldable pub change_sink : Trace → Text → (Registration → Registration) → Trace × Bool
change_sink t name f = elim t.globals [
  | none ↦ (t, false)
  | some g ↦
      let (sinks, found) = change_named name f g.sinks in
      (record t { globals = some (record g { sinks = sinks }) }, found)
]

unfoldable pub set_formatter : Trace → Text → Option (Record → Record) → Trace × Bool
set_formatter t name none = (t, false)
set_formatter t name (some formatter) = change_sink t name (λ r. record r { formatter = formatter })

unfoldable pub set_filter : Trace → Text → Option (Record → Bool) → Trace × Bool
set_filter t name none = (t, false)
set_filter t name (some filter) = change_sink t name (λ r. record r { filter = filter })

-- "Sketch"
abbrev pub sketch_name : Text
sketch_name = 83 ∷ 107 ∷ 101 ∷ 116 ∷ 99 ∷ 104 ∷ []

-- `writeInternalV`, for the text that the format gives, or null, and whether Record::make had
-- memory; `bail` is what `bailOutWriteV` answers. `none` is the release through a null pointer.
unfoldable pub push_record : Trace → Globals → Record → Option (Trace × Bool)
push_record t g m =
    if leb queue_capacity (length g.queue)
    then some (t, false)
    else some (record t { globals = some (record g { queue = g.queue ++ m ∷ [] }) }, true)

abbrev pub no_sinks : List Registration → Bool
no_sinks [] = true
no_sinks (r ∷ rs) = false

unfoldable pub write_globals :
    Trace
    → Option Globals
    → Bool
    → ℕ
    → Option Text
    → Text
    → ℕ
    → Option Text
    → ℕ
    → Bool
    → Option (Trace × Bool)
write_globals t none bail level module_name file line format origin made = some (t, bail)
write_globals t (some g) bail level module_name file line none origin made =
    some (t, if g.stop_flag then bail else false)
write_globals t (some g) bail level module_name file line (some text) origin made =
    let m : Record = record {
      level = level;
      module_name = or_else module_name sketch_name;
      file = file;
      line = line;
      origin = origin;
      text = text;
    } in
    if g.stop_flag
    then some (t, bail)
    else if ltb level t.min_level
    then some (t, false)
    else if no_sinks g.sinks
    then some (t, bail)
    else if made
    then push_record t g m
    else none

unfoldable pub write :
    Trace → Bool → ℕ → Option Text → Text → ℕ → Option Text → ℕ → Bool → Option (Trace × Bool)
write t bail level module_name file line format origin made =
    write_globals t t.globals bail level module_name file line format origin made
