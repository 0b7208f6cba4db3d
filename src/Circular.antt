-- ===== src/Circular.antt =====
-- include/SkBase/CircularBuffer.hxx: the ring buffer and its operations at the two ends.
pub mod Pointer
pub mod Deque
pub mod Ends
pub mod Edit
pub mod Window
pub mod Refine
pub mod Run
mod Tests
use sketch.Base.{
  ℕ, ◌+◌, ◌-◌, List, [], ◌∷◌, Option, none, some, Bool, not, ◌&&◌, ◌||◌, ltb, leb, ◌==◌,
  if◌then◌else◌, update,
}

-- The buffer. A pointer is its offset from `m_buffer`, so `m_end` is `cap`. A slot holds `none`
-- where no element has been constructed.
pub record Ring {ℓ} (A : Type ℓ) : Type ℓ where
  pub slot : ℕ → Option A
  pub cap : ℕ
  pub first : ℕ
  pub last : ℕ
  pub size : ℕ

-- `increment`, `decrement`, `add` and `sub` of a pointer, which wrap at the storage's ends.
pub increment : ℕ → ℕ → ℕ
increment cap p = if p + 1 == cap then 0 else p + 1

pub decrement : ℕ → ℕ → ℕ
decrement cap p = (if p == 0 then cap else p) - 1

pub add : ℕ → ℕ → ℕ → ℕ
add cap p n = if ltb n (cap - p) then p + n else p + n - cap

pub sub : ℕ → ℕ → ℕ → ℕ
sub cap p n = if ltb p n then p + cap - n else p - n

module _ {ℓ} {A : Type ℓ} where
  -- `explicit CircularBuffer(size_type buffer_capacity)`; the storage starts raw.
  pub make : ℕ → Ring A
  make buffer_capacity = record {
    slot = λ _. none;
    cap = buffer_capacity;
    first = 0;
    last = 0;
    size = 0;
  }

  abbrev pub empty : Ring A → Bool
  empty r = r.size == 0

  abbrev pub full : Ring A → Bool
  full r = r.cap == r.size

  pub reserve : Ring A → ℕ
  reserve r = r.cap - r.size

  pub front : Ring A → Option A
  front r = r.slot r.first

  pub back : Ring A → Option A
  back r = r.slot ((if r.last == 0 then r.cap else r.last) - 1)

  -- `operator[]`
  pub at : Ring A → ℕ → Option A
  at r index = r.slot (add r.cap r.first index)

  -- `array_one` and `array_two`: where the first part starts, and how long it is.
  pub array_one : Ring A → ℕ × ℕ
  array_one r = (r.first, (if leb r.last r.first && not (empty r) then r.cap else r.last) - r.first)

  pub array_two : Ring A → ℕ × ℕ
  array_two r = (0, if leb r.last r.first && not (empty r) then r.last else 0)

  pub is_linear : Ring A → Bool
  is_linear r = ltb r.first r.last || r.last == 0

  pub is_uninitialized : Ring A → ℕ → Bool
  is_uninitialized r p = leb r.last p && (ltb r.first r.last || ltb p r.first)

  -- `push_back_impl`: on a full buffer the oldest element is overwritten.
  pub push_back : Ring A → A → Ring A
  push_back r item =
      if full r
      then (if empty r then r else record r {
        slot = update r.slot r.last (some item);
        last = increment r.cap r.last;
        first = increment r.cap r.last;
      })
      else record r {
        slot = update r.slot r.last (some item);
        last = increment r.cap r.last;
        size = r.size + 1;
      }

  pub push_front : Ring A → A → Ring A
  push_front r item =
      let first' = decrement r.cap r.first in
      if full r
      then (if empty r
          then r
          else record r { slot = update r.slot first' (some item); first = first'; last = first' })
      else record r { slot = update r.slot first' (some item); first = first'; size = r.size + 1 }

  -- The two pops want a buffer that is not empty. `destroy_item` leaves a raw slot.
  pub pop_back : Ring A → Ring A
  pop_back r =
      let last' = decrement r.cap r.last in
      record r { last = last'; slot = update r.slot last' none; size = r.size - 1 }

  pub pop_front : Ring A → Ring A
  pop_front r = record r {
    slot = update r.slot r.first none;
    first = increment r.cap r.first;
    size = r.size - 1;
  }

  -- `erase_begin` and `erase_end` at a scalar element, which has no destructor to run.
  pub erase_begin : Ring A → ℕ → Ring A
  erase_begin r n = record r { first = add r.cap r.first n; size = r.size - n }

  pub erase_end : Ring A → ℕ → Ring A
  erase_end r n = record r { last = sub r.cap r.last n; size = r.size - n }
