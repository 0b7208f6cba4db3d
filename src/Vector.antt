-- ===== src/Vector.antt =====
-- include/SkBase/Vector.hxx: the growing array, its storage and its operations.
pub mod Span
pub mod Loops
pub mod Grow
pub mod Blank
pub mod Insert
pub mod Erase
pub mod Resize
mod Tests
use mathlib.Core.Option
use sketch.Base.{
  ℕ, zero, suc, ◌+◌, ◌-◌, ◌*◌, ◌%◌, ◌^◌, List, [], ◌∷◌, Option, none, some, Bool, true, false, not,
  ltb, ◌==◌, if◌then◌else◌, update,
}

-- The array. A pointer is its offset from `m_begin`, and `begun` says that `m_begin` is not null;
-- `size` is the offset of `m_end`. A slot holds `none` where no object lives. `freed` are the
-- sizes that `deallocate` was given, the newest first.
pub record Vec {ℓ} (A : Type ℓ) : Type ℓ where
  pub begun : Bool
  pub mem : ℕ → Option A
  pub size : ℕ
  pub cap : ℕ
  pub freed : List ℕ

abbrev pub is_null : Option ℕ → Bool
is_null none = true
is_null (some p) = false

-- `_capacity_factor`, in the machine's `size_t`
abbrev pub capacity_factor : ℕ → ℕ
capacity_factor m_capacity = (m_capacity + 4) * 2 % 2 ^ 64

module _ {ℓ} {A : Type ℓ} where
  -- A pointer into the array, which is null where the array has no storage.
  abbrev pub pointer : Vec A → ℕ → Option ℕ
  pointer v p = if v.begun then some p else none

  -- `if (m_begin) m_allocator.deallocate(m_begin, m_capacity)`
  abbrev pub give_back : Vec A → List ℕ
  give_back v = if v.begun then v.cap ∷ v.freed else v.freed

  -- The loop of `_move` from the old block to a new one, over `n` slots from `i` on. The old block
  -- is given back after it.
  pub move_front : (ℕ → Option A) → ℕ → ℕ → (ℕ → Option A) → ℕ → Option A
  move_front old zero i new = new
  move_front old (suc n) i new = move_front old n (suc i) (update new i (old i))

  -- `while (tail_size--) _move(--r_dest, --r_src)` from the old block to a new one
  pub move_across : (ℕ → Option A) → ℕ → ℕ → ℕ → (ℕ → Option A) → ℕ → Option A
  move_across old zero dest src new = new
  move_across old (suc n) dest src new =
      move_across old n (dest - 1) (src - 1) (update new (dest - 1) (old (src - 1)))

  -- The same loop inside one block: `_move` constructs at `to` and then destroys at `from`.
  pub move_tail : ℕ → ℕ → ℕ → (ℕ → Option A) → ℕ → Option A
  move_tail zero dest src mem = mem
  move_tail (suc n) dest src mem =
      move_tail n (dest - 1) (src - 1)
        (update (update mem (dest - 1) (mem (src - 1))) (src - 1) none)

  -- `uninitialized_fill_n(first, n, x)`
  pub fill : ℕ → ℕ → A → (ℕ → Option A) → ℕ → Option A
  fill first zero x mem = mem
  fill first (suc n) x mem = fill (suc first) n x (update mem first (some x))

  -- `while (n--) construct(--r_dest, move(x))`, where `moved` is what a move leaves in `x`
  pub fill_down : (A → A) → ℕ → ℕ → A → (ℕ → Option A) → ℕ → Option A
  fill_down moved zero dest x mem = mem
  fill_down moved (suc n) dest x mem =
      fill_down moved n (dest - 1) (moved x) (update mem (dest - 1) (some x))

  -- `while (n) destroy(first + --n)`
  pub destroy_n : ℕ → ℕ → (ℕ → Option A) → ℕ → Option A
  destroy_n first zero mem = mem
  destroy_n first (suc n) mem = destroy_n first n (update mem (first + n) none)

  -- `sketch::move(src, src + n, dest)`, which assigns upwards
  pub assign_down : ℕ → ℕ → ℕ → (ℕ → Option A) → ℕ → Option A
  assign_down zero src dest mem = mem
  assign_down (suc n) src dest mem = assign_down n (suc src) (suc dest) (update mem dest (mem src))

  -- The same where an assignment to a slot with no object is a fault: `none`
  abbrev pub is_dead : Option A → Bool
  is_dead none = true
  is_dead (some x) = false

  pub assign_live : ℕ → ℕ → ℕ → (ℕ → Option A) → Option (ℕ → Option A)
  assign_live zero src dest mem = some mem
  assign_live (suc n) src dest mem =
      let rest = assign_live n (suc src) (suc dest) (update mem dest (mem src)) in
      if is_dead (mem dest) then none else rest

  -- The array with no storage.
  pub make : Vec A
  make = record { begun = false; mem = λ _. none; size = 0; cap = 0; freed = [] }

  -- `m_allocator.construct(m_end++, x)` where the room was found
  pub put_back : A → Vec A × Bool → Vec A × Bool
  put_back x (v, false) = (v, false)
  put_back x (v, true) = (record v { mem = update v.mem v.size (some x); size = v.size + 1 }, true)

  pub pop_back : Vec A → Vec A
  pop_back v = record v { mem = update v.mem (v.size - 1) none; size = v.size - 1 }

  -- `_insert_impl(position, n, const _Ty& x)`
  pub fill_blank : ℕ → A → Vec A × Option ℕ → Vec A × Option ℕ
  fill_blank n x (v, none) = (v, none)
  fill_blank n x (v, some r_dest) =
      (record v { mem = fill (r_dest - n) n x v.mem }, some (r_dest - n))

  -- `r ? r : end()`
  pub or_end : Vec A × Option ℕ → Vec A × Option ℕ
  or_end (v, none) = (v, pointer v v.size)
  or_end (v, some r) = (v, some r)

  -- `!!r` of the returned iterator
  pub succeeded : Vec A × Option ℕ → Vec A × Bool
  succeeded (v, r) = (v, not (is_null r))

  -- `assign(n, u)`: `_construct(n, u)` on the block at hand or on a new one
  pub construct_n : ℕ → A → Vec A → Vec A
  construct_n n u v = record v { mem = fill 0 n u v.mem; size = n }

  -- `_insert_impl(position, n, _Ty&& x)`
  pub move_blank : (A → A) → ℕ → A → Vec A × Option ℕ → Vec A × Option ℕ
  move_blank moved n x (v, none) = (v, none)
  move_blank moved n x (v, some r_dest) =
      (record v { mem = fill_down moved n r_dest x v.mem }, some (r_dest - n))

-- `alloc n` says whether `allocate(n)` gives a block.
module _ {ℓ} {A : Type ℓ} (alloc : ℕ → Bool) where
  -- `_realloc`
  pub realloc : Vec A → ℕ → Vec A × Bool
  realloc v n =
      if alloc n
      then (
        record {
          begun = true;
          mem = move_front v.mem v.size 0 (λ _. none);
          size = v.size;
          cap = n;
          freed = give_back v;
        },
        true,
      )
      else (v, false)

  pub push_back : Vec A → A → Vec A × Bool
  push_back v x =
      put_back x (if v.size == v.cap then realloc v (capacity_factor v.cap) else (v, true))

  pub reserve : ℕ → Vec A → ℕ → Vec A × Bool
  reserve max_size v n =
      if ltb max_size n then (v, false) else if ltb v.cap n then realloc v n else (v, true)

  -- `_insert_blank_space`: the iterator behind the blank, or null.
  pub insert_blank_space : Vec A → ℕ → ℕ → Vec A × Option ℕ
  insert_blank_space v position n =
      let cap' = (n + capacity_factor v.cap) % 2 ^ 64 in
      if ltb v.cap (v.size + n)
      then if alloc cap'
        then (
          record {
            begun = true;
            mem =
                move_across v.mem (v.size - position) (v.size + n) v.size
                  (move_front v.mem position 0 (λ _. none));
            size = v.size + n;
            cap = cap';
            freed = give_back v;
          },
          some (v.size + n - (v.size - position)),
        )
        else (v, none)
      else (
        record v {
          mem = move_tail (v.size - position) (v.size + n) v.size v.mem;
          size = v.size + n;
        },
        pointer v (v.size + n - (v.size - position)),
      )

  pub insert_impl : Vec A → ℕ → ℕ → A → Vec A × Option ℕ
  insert_impl v position n x = fill_blank n x (insert_blank_space v position n)

  pub insert : Vec A → ℕ → ℕ → A → Vec A × Option ℕ
  insert v position n x = or_end (insert_impl v position n x)

  pub insert_impl_move : (A → A) → Vec A → ℕ → ℕ → A → Vec A × Option ℕ
  insert_impl_move moved v position n x = move_blank moved n x (insert_blank_space v position n)

-- `no_dtor` says that the element type's destructor does nothing.
module _ {ℓ} {A : Type ℓ} (no_dtor : Bool) where
  -- `erase(const_iterator position)`
  pub erase : Vec A → ℕ → Vec A × ℕ
  erase v position =
      let mem' =
        if position + 1 == v.size
        then v.mem
        else assign_down (v.size - (position + 1)) (position + 1) position v.mem in
      (
        if not no_dtor
            then record v { mem = update mem' (v.size - 1) none; size = v.size - 1 }
            else record v { mem = mem' },
        position,
      )

  -- `erase(const_iterator first, const_iterator last)`: the objects in the range are destroyed, and
  -- then the ones behind are assigned to their places, where `none` is an assignment to a destroyed
  -- object.
  pub erase_range : Vec A → ℕ → ℕ → Option (Vec A × ℕ)
  erase_range v first last =
      let mem' = if not no_dtor then destroy_n first (last - first) v.mem else v.mem in
      if first == last
      then some (v, first)
      else Option.map (λ m. (record v { mem = m; size = first + (v.size - last) }, first))
          (assign_live (v.size - last) last first mem')

  pub clear : Vec A → Vec A
  clear v = record v { size = 0; mem = if no_dtor then v.mem else destroy_n 0 v.size v.mem }

-- `moved x` is what a move leaves in `x`; `none` is the fault of `erase_range`.
module _ {ℓ} {A : Type ℓ} (alloc : ℕ → Bool) (max_size : ℕ) (no_dtor : Bool) (moved : A → A) where
  -- `resize(sz)`, where `x` is the default `_Ty()`
  pub resize : Vec A → ℕ → A → Option (Vec A × Bool)
  resize v sz x =
      if ltb max_size sz
      then some (v, false)
      else if ltb sz v.size
      then Option.map (λ r. (r.0, true)) (erase_range no_dtor v sz v.size)
      else if ltb v.size sz
      then some (succeeded (insert_impl_move alloc moved v v.size (sz - v.size) x))
      else some (v, true)

module _ {ℓ} {A : Type ℓ} (alloc : ℕ → Bool) (max_size : ℕ) (no_dtor : Bool) where
  -- `resize(sz, c)`
  pub resize_with : Vec A → ℕ → A → Option (Vec A × Bool)
  resize_with v sz c =
      if ltb max_size sz
      then some (v, false)
      else if ltb sz v.size
      then Option.map (λ r. (r.0, true)) (erase_range no_dtor v sz v.size)
      else if ltb v.size sz
      then some (succeeded (insert alloc v v.size (sz - v.size) c))
      else some (v, true)

module _ {ℓ} {A : Type ℓ} (alloc : ℕ → Bool) (no_dtor : Bool) where
  pub assign : Vec A → ℕ → A → Vec A × Bool
  assign v n u =
      let c = clear no_dtor v in
      if n == 0
      then (c, true)
      else if ltb v.cap n
      then if alloc n
        then (
          construct_n n u
              (record c { begun = true; mem = λ _. none; cap = n; freed = v.cap ∷ v.freed }),
          true,
        )
        else (record c { begun = false; mem = λ _. none; cap = 0; freed = v.cap ∷ v.freed }, false)
      else (construct_n n u c, true)
