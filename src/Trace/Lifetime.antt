-- ===== src/Trace/Lifetime.antt =====
-- src/SkBase/Trace.cxx: initialize and finalize in any number.
use sketch.Base.{
  ℕ, ◌+◌, ◌-◌, List, [], ◌∷◌, length, leb, ltb, sym, Option-cases, Bool, true, false, not, ◌==◌,
  ◌≡◌, ◌≢◌, refl, ap, ◌∙◌, arith, if◌then◌else◌, Option, none, some, Bool-cases, inl, inr,
}
use sketch.Base.Int.{pos, ltb_ℤ}
use sketch.RefCount.{increment, decrement}
use sketch.RefCount.Pointers.{increment_lem, decrement_lem}
use sketch.Trace.{
  Trace, Text, Record, Registration, Globals, flush, finalize, initialize, pump_step, pump_globals,
  give_taken, pop_next, write, write_globals, push_record, no_sinks, queue_capacity, register_sink,
  unregister_sink, change_sink,
}

abbrev pub is_up : Option Globals → Bool
is_up none = false
is_up (some g) = true

-- `n` users: the counter is `n`, and the data are there exactly for some user
pub record IsUp (t : Trace) (n : ℕ) : Type 0 where
  pub references : t.references ≡ pos n
  pub globals : is_up t.globals ≡ not (n == 0)

-- The calls that leave the counter, and the data where they are
abbrev Same : Trace → Trace → Type 0
Same t u = (u.references ≡ t.references) × (is_up u.globals ≡ is_up t.globals)

Same-IsUp : (t u : Trace) (n : ℕ) → Same t u → IsUp t n → IsUp u n
Same-IsUp t u n s h = record { references = s.0 ∙ h.references; globals = s.1 ∙ h.globals }

register_sink-Same :
    (t : Trace) (g : Option Globals)
    → t.globals ≡ g
    → (name : Option Text) (sink : Option ℕ) (formatter : Option (Record → Record))
      (filter : Option (Record → Bool)) (made : Bool)
    → Same t (register_sink t name sink formatter filter made).0
unfolding register_sink
register_sink-Same t none e (some n) (some s) (some f) (some p) made = rw e (refl, refl)
register_sink-Same t (some g) e (some n) (some s) (some f) (some p) true = rw e (refl, refl)
register_sink-Same t (some g) e (some n) (some s) (some f) (some p) false = rw e (refl, refl)
register_sink-Same t g e none s f p made = (refl, refl)
register_sink-Same t g e (some n) none f p made = (refl, refl)
register_sink-Same t g e (some n) (some s) none p made = (refl, refl)
register_sink-Same t g e (some n) (some s) (some f) none made = (refl, refl)

unregister_sink-Same :
    (t : Trace) (g : Option Globals)
    → t.globals ≡ g
    → (name : Text) → Same t (unregister_sink t name)
unfolding unregister_sink
unregister_sink-Same t none e name = rw e (refl, refl)
unregister_sink-Same t (some g) e name = rw e (refl, refl)

change_sink-Same :
    (t : Trace) (g : Option Globals)
    → t.globals ≡ g
    → (name : Text) (f : Registration → Registration) → Same t (change_sink t name f).0
unfolding change_sink
change_sink-Same t none e name f = rw e (refl, refl)
change_sink-Same t (some g) e name f = rw e (refl, refl)

pop_next-Same :
    (t : Trace) (g : Globals) (ms : List Record) → t.globals ≡ some g → Same t (pop_next t g ms)
unfolding pop_next
pop_next-Same t g [] e = (refl, refl)
pop_next-Same t g (m ∷ ms) e = (refl, sym (ap is_up e))

pump_step-Same : (t : Trace) (g : Option Globals) → t.globals ≡ g → Same t (pump_globals t g)
unfolding pump_globals give_taken pop_next
pump_step-Same t none e = (refl, refl)
pump_step-Same t (some g) e = elim (Option-cases g.taken) [
  | inl held ↦ rw held (pop_next-Same t g g.queue e)
  | inr held ↦ rw (held.1) (refl, sym (ap is_up e))
]

-- Whatever a write answers, when it does not stop at a null pointer
abbrev SameAfter : Trace → Option (Trace × Bool) → Type 0
SameAfter t none = Unit
SameAfter t (some (u, answer)) = Same t u

push_record-Same :
    (t : Trace) (g : Globals) → t.globals ≡ some g → (m : Record) → SameAfter t (push_record t g m)
unfolding push_record
push_record-Same t g e m = elim (Bool-cases (leb queue_capacity (length g.queue))) [
  | inl full ↦ rw full (refl, refl)
  | inr room ↦ rw room (refl, sym (ap is_up e))
]

either :
    (t : Trace) (b : Bool) (x y : Option (Trace × Bool))
    → SameAfter t x
    → SameAfter t y
    → SameAfter t (if b then x else y)
either t true x y h k = h
either t false x y h k = k

write_globals-Same :
    (t : Trace) (g : Option Globals)
    → t.globals ≡ g
    → (bail : Bool) (level : ℕ) (module_name : Option Text) (file : Text) (line : ℕ)
      (format : Option Text) (origin : ℕ) (made : Bool)
    → SameAfter t (write_globals t g bail level module_name file line format origin made)
unfolding write_globals
write_globals-Same t none e bail level name file line format origin made = (refl, refl)
write_globals-Same t (some g) e bail level name file line none origin made = (refl, refl)
write_globals-Same t (some g) e bail level name file line (some text) origin made =
    either t g.stop_flag _ _ (refl, refl)
      (either t (ltb level t.min_level) _ _ (refl, refl)
        (either t (no_sinks g.sinks) _ _ (refl, refl)
          (either t made _ _ (push_record-Same t g e _) tt)))

pub finalize-IsUp : (t : Trace) (n : ℕ) → n ≢ 0 → IsUp t n → IsUp (finalize t) (n - 1)
unfolding finalize
finalize-IsUp t n z h =
    let d : decrement t.references ≡ (pos (n - 1), pos (n - 1)) =
      ap (λ c. decrement c) h.references ∙ decrement_lem n z in
    elim (Bool-cases (n == 1)) [
      | inl last ↦
          let w : (n - 1 + 0 == 0 + 0) ≡ true = ground arith in
          let b : (n - 1 == 0) ≡ true = ground arith in
          rw (d, w) (record { references = refl; globals = rw b refl })
      | inr more ↦
          let w : (n - 1 + 0 == 0 + 0) ≡ false = ground arith in
          let b : (n == 0) ≡ (n - 1 == 0) = ground arith in
          rw (d, w) (record { references = refl; globals = h.globals ∙ ap not b })
    ]

pump_step_once : (t : Trace) → Same t (pump_step t)
unfolding pump_step
pump_step_once t = pump_step-Same t t.globals refl

write-Same :
    (t : Trace) (bail : Bool) (level : ℕ) (module_name : Option Text) (file : Text) (line : ℕ)
    (format : Option Text) (origin : ℕ) (made : Bool)
    → SameAfter t (write t bail level module_name file line format origin made)
unfolding write
write-Same t bail level name file line format origin made =
    write_globals-Same t t.globals refl bail level name file line format origin made

-- A call of initialize counts one user more when it succeeds, and none when it fails
abbrev pub joined : ℕ → Bool → ℕ
joined n ok = if ok then n + 1 else n

-- A user whose writer or thread could not be made goes again
undone : (t : Trace) (n : ℕ) → IsUp t (n + 1) → IsUp (finalize t) n
undone t n h =
    let back : n + 1 - 1 ≡ n = omega arith in
    let r = finalize-IsUp t (n + 1) (omega arith) h in
    record {
      references = r.references ∙ ap pos back;
      globals = r.globals ∙ ap (λ k. not (k == 0)) back;
    }

first_use : (n : ℕ) → n ≡ 0 → ltb_ℤ (pos 1) (pos (n + 1)) ≡ false
first_use n z = ground arith

later_use : (n : ℕ) → n ≢ 0 → ltb_ℤ (pos 1) (pos (n + 1)) ≡ true
later_use n z = ground arith

pub initialize-IsUp :
    (t : Trace) (n : ℕ) (module_name : Option Text) (writer_made thread_made : Bool)
    → IsUp t n
    → IsUp
        (initialize t module_name writer_made thread_made).0
        (joined n (initialize t module_name writer_made thread_made).1)
unfolding initialize
initialize-IsUp t n m writer_made thread_made h =
    let i : increment t.references ≡ (pos (n + 1), pos (n + 1)) =
      ap (λ c. increment c) h.references ∙ increment_lem n in
    elim (Bool-cases (n == 0)) [
      | inl first ↦
          let z : n ≡ 0 = ground arith in
          let up : (g : Globals) (text : Text)
              → IsUp (record t { references = pos (n + 1); module_name = text; globals = some g })
                  (n + 1) =
            λ g text. record {
              references = refl;
              globals = let b : (n + 1 == 0) ≡ false = ground arith in rw b refl;
            } in
          elim (Bool-cases writer_made) [
            | inl w ↦ elim (Bool-cases thread_made) [
              | inl th ↦ rw (i, first_use n z, w, th) (up _ _)
              | inr th ↦ rw (i, first_use n z, w, th) (undone _ n (up _ _))
            ]
            | inr w ↦ rw (i, first_use n z, w) (undone _ n (up _ _))
          ]
      | inr later ↦
          let z : n ≢ 0 = ground arith in
          let b : (n == 0) ≡ (n + 1 == 0) = ground arith in
          rw (i, later_use n z) (record { references = refl; globals = h.globals ∙ ap not b })
    ]

-- A call of the trace by any of its users, or an access of the writer's thread: the state and the
-- number of users, before and after. finalize goes on when its flush returns.
pub data Step : Trace → ℕ → Trace → ℕ → Type 0 where
  initialized :
      (t : Trace) (n : ℕ) (module_name : Option Text) (writer_made thread_made : Bool)
      → Step t n
          (initialize t module_name writer_made thread_made).0
          (joined n (initialize t module_name writer_made thread_made).1)
  finalized : (t : Trace) (n : ℕ) → flush t ≡ true → n ≢ 0 → Step t n (finalize t) (n - 1)
  registered :
      (t : Trace) (n : ℕ) (name : Option Text) (sink : Option ℕ)
      (formatter : Option (Record → Record)) (filter : Option (Record → Bool)) (made : Bool)
      → Step t n (register_sink t name sink formatter filter made).0 n
  unregistered : (t : Trace) (n : ℕ) (name : Text) → Step t n (unregister_sink t name) n
  changed :
      (t : Trace) (n : ℕ) (name : Text) (f : Registration → Registration)
      → Step t n (change_sink t name f).0 n
  wrote :
      (t : Trace) (n : ℕ) (bail : Bool) (level : ℕ) (module_name : Option Text) (file : Text)
      (line : ℕ) (format : Option Text) (origin : ℕ) (made : Bool) (u : Trace) (answer : Bool)
      → write t bail level module_name file line format origin made ≡ some (u, answer)
      → Step t n u n
  pumped : (t : Trace) (n : ℕ) → Step t n (pump_step t) n

pub data Reach : Trace → ℕ → Trace → ℕ → Type 0 where
  here : (t : Trace) (n : ℕ) → Reach t n t n
  next :
      {t : Trace} {n : ℕ} {u : Trace} {m : ℕ} {v : Trace} {k : ℕ}
      → Reach t n u m
      → Step u m v k
      → Reach t n v k

Step-IsUp : {t : Trace} {n : ℕ} {u : Trace} {m : ℕ} → Step t n u m → IsUp t n → IsUp u m
Step-IsUp (initialized t n name w th) h = initialize-IsUp t n name w th h
Step-IsUp (finalized t n done z) h = finalize-IsUp t n z h
Step-IsUp (registered t n name s f p made) h =
    Same-IsUp t _ n (register_sink-Same t t.globals refl name s f p made) h
Step-IsUp (unregistered t n name) h = Same-IsUp t _ n (unregister_sink-Same t t.globals refl name) h
Step-IsUp (changed t n name f) h = Same-IsUp t _ n (change_sink-Same t t.globals refl name f) h
Step-IsUp (wrote t n bail level name file line format origin made u answer e) h =
    let same = write-Same t bail level name file line format origin made in
    Same-IsUp t u n (rw e at same) h
Step-IsUp (pumped t n) h = Same-IsUp t _ n (pump_step_once t) h

-- From a trace where the counter is the number of users, and the data are there exactly when there
-- is a user, any sequence of calls of initialize (also where the writer or its thread cannot be
-- made), of finalize by a user, of writes that do not stop at a null pointer, of the registration,
-- removal and change of sinks, and of accesses of the writer's thread, keeps both so, where a user
-- is one successful initialize without its finalize
pub Reach-IsUp : {t : Trace} {n : ℕ} {u : Trace} {m : ℕ} → Reach t n u m → IsUp t n → IsUp u m
Reach-IsUp (here t n) h = h
Reach-IsUp (next r s) h = Step-IsUp s (Reach-IsUp r h)
