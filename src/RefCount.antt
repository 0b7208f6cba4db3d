-- ===== src/RefCount.antt =====
-- include/SkBase/RefCount.hxx: the counter of references, and include/SkBase/IRefCounted.hxx: the
-- objects that carry one and the pointers that keep it.
pub mod Pointers
mod Tests
use sketch.Base.{ℕ, ◌+◌, ◌-◌, Bool, true, false, not, ◌==◌, if◌then◌else◌, update}
use sketch.Base.Int.{ℤ, pos, negsuc, ◌+ℤ◌, ◌-ℤ◌, ◌==ℤ◌}

-- `Persistent` is -1: such a counter is never changed.
abbrev pub persistent : ℤ → Bool
persistent v = v ==ℤ negsuc 0

-- `increment` and `decrement`: the counter afterwards, and the answer.
unfoldable pub increment : ℤ → ℤ × ℤ
increment v = if not (persistent v) then (v +ℤ pos 1, v +ℤ pos 1) else (v, pos 1)

unfoldable pub decrement : ℤ → ℤ × ℤ
decrement v = if not (persistent v) then (v -ℤ pos 1, v -ℤ pos 1) else (v, pos 1)

-- `lock` takes the counter from 1 to 2, and `unlock` gives it back.
unfoldable pub lock : ℤ → ℤ × Bool
lock v = if v ==ℤ pos 1 then (pos 2, true) else (v, false)

unfoldable pub unlock : ℤ → ℤ
unlock v = (decrement v).0

-- The objects by address, 0 being null: their counters, and which of them are not deleted.
pub record Objects : Type 0 where
  pub counter : ℕ → ℤ
  pub live : ℕ → Bool

-- `RefCountedBase::addRef` and `RefCountedBase::release`
unfoldable pub add_ref : Objects → ℕ → Objects
add_ref o p = record o { counter = update o.counter p (increment (o.counter p)).0 }

unfoldable pub release_ref : Objects → ℕ → Objects
release_ref o p =
    let (left, answer) = decrement (o.counter p) in
    record {
      counter = update o.counter p left;
      live = if answer ==ℤ pos 0 then update o.live p false else o.live;
    }

-- `RefCountedPtr(T* p)` and the copy constructor
pub construct : Objects → ℕ → Objects × ℕ
construct o p = (if not (p == 0) then add_ref o p else o, p)

-- `~RefCountedPtr()`
pub destroy : Objects → ℕ → Objects
destroy o m_p = if not (m_p == 0) then release_ref o m_p else o

-- The assignments of an object and of another pointer: a temporary is made from `p`, swapped with
-- the pointer, and destroyed.
pub assign : Objects → ℕ → ℕ → Objects × ℕ
assign o m_p p =
    if not (m_p == p) then (destroy (construct o p).0 m_p, (construct o p).1) else (o, m_p)

-- `release()`
pub release : Objects → ℕ → Objects × ℕ
release o m_p = (if not (m_p == 0) then release_ref o m_p else o, 0)

-- `attach` takes over a reference, and `detach` gives one away.
pub attach : Objects → ℕ → ℕ → Objects × ℕ
attach o m_p p = (if not (m_p == 0) then release_ref o m_p else o, p)

pub detach : ℕ → ℕ × ℕ
detach m_p = (0, m_p)
