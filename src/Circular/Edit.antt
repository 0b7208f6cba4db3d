-- ===== src/Circular/Edit.antt =====
-- include/SkBase/CircularBuffer.hxx: `erase`, `rerase` and `insert` of one element in the
-- middle. An iterator is the pointer it holds, and `none` is the null pointer of `end()`.
pub mod Shift
pub mod Erase
pub mod Rerase
pub mod Insert
use sketch.Base.{
  ℕ, zero, suc, ◌+◌, ◌-◌, Option, none, some, Bool, true, false, not, ◌&&◌, ◌==◌, if◌then◌else◌,
  update,
}
use mathlib.Core.Option
use sketch.Circular.{Ring, increment, decrement, empty, full}

-- Iterators are equal where their pointers are.
abbrev pub same : Option ℕ → Option ℕ → Bool
same none none = true
same none (some q) = false
same (some p) none = false
same (some p) (some q) = p == q

module _ {ℓ} {A : Type ℓ} where
  -- `begin()`
  abbrev pub begin : Ring A → Option ℕ
  begin r = if empty r then none else some r.first

  -- The loop of `erase`: each element is moved down one place, from `next` to `p`, until `next`
  -- is `m_last`. `none` means that the fuel ran out.
  pub shift_down : ℕ → ℕ → ℕ → ℕ → ℕ → (ℕ → Option A) → Option (ℕ → Option A)
  shift_down cap last zero p next slot = none
  shift_down cap last (suc fuel) p next slot =
      let rest = shift_down cap last fuel next (increment cap next) (update slot p (slot next)) in
      if next == last then some slot else rest

  -- `erase(iterator pos)`: the new buffer, and the iterator behind the erased element.
  pub erase : Ring A → ℕ → Option (Ring A × Option ℕ)
  erase r pos =
      let last' = decrement r.cap r.last in
      Option.map
        (λ slots. (
          record r { slot = update slots last' none; last = last'; size = r.size - 1 },
          if last' == pos then none else some pos,
        ))
        (shift_down r.cap r.last (r.cap + 1) pos (increment r.cap pos) r.slot)

  -- The loop of `insert_item`: from `m_last` down to `p`, each element is moved up one place. The
  -- pointers `src` and `dest` are equal before each round.
  pub shift_up : ℕ → ℕ → ℕ → ℕ → (ℕ → Option A) → Option (ℕ → Option A)
  shift_up cap p zero src slot = none
  shift_up cap p (suc fuel) src slot =
      let rest =
        shift_up cap p fuel (decrement cap src) (update slot src (slot (decrement cap src))) in
      if src == p then some slot else rest

  -- The end of `insert_item`, when the slot `p` is free for the item.
  pub place : Ring A → ℕ → A → (ℕ → Option A) → Ring A × Option ℕ
  place r p item slots =
      let last' = increment r.cap r.last in
      (
        record r {
          slot = update slots p (some item);
          last = last';
          first = if full r then last' else r.first;
          size = if full r then r.size else r.size + 1;
        },
        some p,
      )

  pub insert_item : Ring A → Option ℕ → A → Option (Ring A × Option ℕ)
  insert_item r none item = some (place r r.last item r.slot)
  insert_item r (some p) item =
      Option.map (place r p item) (shift_up r.cap p (r.cap + 1) r.last r.slot)

  -- `insert_impl`: a full buffer takes nothing before its first element.
  pub insert : Ring A → Option ℕ → A → Option (Ring A × Option ℕ)
  insert r pos item =
      if full r && same pos (begin r) then some (r, begin r) else insert_item r pos item

  -- The loop of `rerase`: each element is moved up one place, from `prev` to `p`, until `p` is
  -- `m_first`.
  pub shift_back : ℕ → ℕ → ℕ → ℕ → ℕ → (ℕ → Option A) → Option (ℕ → Option A)
  shift_back cap first zero p prev slot = none
  shift_back cap first (suc fuel) p prev slot =
      let rest = shift_back cap first fuel prev (decrement cap prev) (update slot p (slot prev)) in
      if p == first then some slot else rest

  -- `rerase(iterator pos)`
  pub rerase : Ring A → ℕ → Option (Ring A × Option ℕ)
  rerase r pos =
      Option.map
        (λ slots.
          let out = record r {
            slot = update slots r.first none;
            first = increment r.cap r.first;
            size = r.size - 1;
          } in
          (out, if r.first == pos then begin out else some pos))
        (shift_back r.cap r.first (r.cap + 1) pos (decrement r.cap pos) r.slot)
