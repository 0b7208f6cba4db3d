-- ===== src/Queue.antt =====
-- include/SkBase/Queue.hxx: the queue of pointers over tagged slots, as one thread runs it.
pub mod Fifo
pub mod Refine
pub mod Run
mod Tests
use sketch.Base.{
  ℕ, zero, suc, ◌+◌, ◌-◌, ◌*◌, ◌/◌, ◌%◌, Option, none, some, Bool, true, false, not, ◌&&◌, ◌||◌,
  ltb, ◌==◌, if◌then◌else◌, update,
}

-- The queue. A pointer is its address; the two counters only grow, and are not taken to wrap.
pub record Queue : Type 0 where
  pub slots : ℕ → ℕ
  pub puts : ℕ
  pub gets : ℕ
  pub capacity : ℕ

abbrev pub empty : Queue → Bool
empty q = q.puts == q.gets

abbrev pub size : Queue → ℕ
size q = q.puts - q.gets

-- `_isVacantTag`
abbrev pub is_vacant_tag : ℕ → Bool
is_vacant_tag v = v == 0 || v % 2 == 1

-- What stands in a word after `compare_exchange`, where `old` stood.
abbrev pub exchange : ℕ → ℕ → ℕ → ℕ
exchange old new expected = if old == expected then new else old

-- `hash i` is the hash of the counter `i`.
module _ (hash : ℕ → ℕ) where
  -- `_makeVacantTag`: the lowest bit is set.
  abbrev pub make_vacant_tag : ℕ → ℕ
  make_vacant_tag i = hash i / 2 * 2 + 1

  -- `explicit Queue(size_type size)`, given its storage
  pub make : ℕ → Queue
  make n = record { slots = make_vacant_tag; puts = 0; gets = 0; capacity = n }

  -- The loop of `push`: one round for the count `put_cnt`. `none` means that the fuel ran out.
  pub push_loop : ℕ → Queue → ℕ → ℕ → Option (Queue × Bool)
  push_loop zero q p put_cnt = none
  push_loop (suc fuel) q p put_cnt =
      let slot = put_cnt % q.capacity in
      let tag = make_vacant_tag put_cnt in
      let q' = record q {
        slots = update q.slots slot (exchange (q.slots slot) p tag);
        puts = exchange q.puts (put_cnt + 1) put_cnt;
      } in
      let rest = push_loop fuel q' p q'.puts in
      if not (ltb (put_cnt - q.gets) q.capacity)
      then some (q, false)
      else if q.slots slot == tag
      then some (q', true)
      else rest

  pub push : Queue → ℕ → Option (Queue × Bool)
  push q p = if is_vacant_tag p then some (q, false) else push_loop (suc q.capacity) q p q.puts

  -- The loop of `pop`: one round for the count `get_cnt`. The result `none` is the null pointer.
  pub pop_loop : ℕ → Queue → ℕ → Option (Queue × Option ℕ)
  pop_loop zero q get_cnt = none
  pop_loop (suc fuel) q get_cnt =
      let slot = get_cnt % q.capacity in
      let tag = make_vacant_tag (get_cnt + q.capacity) in
      let item = q.slots slot in
      let q' = record q {
        slots = update q.slots slot (exchange (q.slots slot) tag item);
        gets = exchange q.gets (get_cnt + 1) get_cnt;
      } in
      let rest = pop_loop fuel q' q'.gets in
      if not (ltb get_cnt q.puts)
      then some (q, none)
      else if q.slots slot == item && not (is_vacant_tag item)
      then some (q', some item)
      else rest

  pub pop : Queue → Option (Queue × Option ℕ)
  pop q = pop_loop (suc (q.puts - q.gets)) q q.gets
