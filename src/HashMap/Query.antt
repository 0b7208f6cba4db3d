-- ===== src/HashMap/Query.antt =====
-- include/SkBase/HashMap_details.hxx: lookup and iteration.
use mathlib.Core.Option
use sketch.Base.{
  ℕ, zero, suc, ◌-◌, Option, none, some, Bool, List, [], ◌∷◌, ◌&&◌, not, ◌==◌, if◌then◌else◌,
}
use sketch.HashMap.{KeyPolicy, Bucket, Table, Position, end, mapkey}

-- The loop `while (b != end && !b->elems) ++b`, with the number of buckets that are left.
unfoldable pub first_nonempty : ℕ → ℕ → (ℕ → Bucket) → Option ℕ
first_nonempty zero i bs = none
first_nonempty (suc left) i bs =
    if (bs i).elems == 0 then first_nonempty left (suc i) bs else some i

module _ {ℓ} {E : Type ℓ} where
  unfoldable pub empty : Table E → Bool
  empty t = t.count == 0

  unfoldable pub size : Table E → ℕ
  size t = t.count

  -- `iterator_impl(b, end)`, where `b` may be null
  abbrev pub iterator_of : Table E → Option ℕ → Position
  iterator_of t none = end
  iterator_of t (some b) = record { p = (t.buckets b).elems; b = b }

  -- `begin()`
  unfoldable pub begin : Table E → Position
  begin t = if t.count == 0 then end else iterator_of t t.head

  -- `increment`: within the bucket, or on to the next bucket that is not empty
  unfoldable pub increment : Table E → Position → Position
  increment t it =
      if t.next it.p == 0
      then elim (first_nonempty (t.max - suc it.b) (suc it.b) t.buckets) [
        | none ↦ record { p = 0; b = t.max }
        | some b ↦ record { p = (t.buckets b).elems; b = b }
      ]
      else record it { p = t.next it.p }

  -- The elements that a loop from `it` to `end()` meets. `none` means that the fuel ran out.
  unfoldable pub walk : ℕ → Table E → Position → Option (List ℕ)
  walk zero t it = none
  walk (suc fuel) t it =
      let rest = walk fuel t (increment t it) in
      if it.p == 0 then some [] else Option.map (λ ps. it.p ∷ ps) rest

  -- The loop of `bucket_size` in a bucket of several hashes
  unfoldable pub count_same : ℕ → Table E → ℕ → ℕ → Option ℕ
  count_same zero t h p = none
  count_same (suc fuel) t h p =
      let rest = count_same fuel t h (t.next p) in
      if not (p == 0) && t.hkey p == h then Option.map suc rest else some 0

  -- The first loop of `equal_range`: the first node of the hash
  unfoldable pub seek : ℕ → Table E → ℕ → ℕ → Option ℕ
  seek zero t h p = none
  seek (suc fuel) t h p =
      let rest = seek fuel t h (t.next p) in
      if not (p == 0) && not (t.hkey p == h) then rest else some p

  unfoldable pub bucket_size : Table E → ℕ → Option ℕ
  bucket_size t n =
      let b = t.buckets n in
      if not b.dirty then some b.size else count_same (suc b.size) t b.hash b.elems

module _ {ℓ} {K E : Type ℓ} (keys : KeyPolicy K E) where
  unfoldable pub bucket : Table E → K → ℕ
  bucket t k = mapkey t.max (keys.hash k)

  -- The loop of `find`, from the node p on. `none` means that the fuel ran out.
  unfoldable pub find_from : ℕ → Table E → K → ℕ → Option ℕ
  find_from zero t k p = none
  find_from (suc fuel) t k p =
      let rest = find_from fuel t k (t.next p) in
      if p == 0 then some 0 else if keys.equal k (keys.key (t.elem p)) then some p else rest

  unfoldable pub find : Table E → K → Option Position
  find t k =
      let n = bucket t k in
      let b = t.buckets n in
      let at = λ (p : ℕ). if p == 0 then end else record { p = p; b = n } in
      if b.size == 0 then some end else Option.map at (find_from (suc b.size) t k b.elems)

  unfoldable pub count : Table E → K → Option ℕ
  count t k = Option.map (λ (it : Position). if it.p == 0 then 0 else 1) (find t k)
