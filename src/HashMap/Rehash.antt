-- ===== src/HashMap/Rehash.antt =====
-- include/SkBase/HashMap_details.hxx: moving all elements to a larger table, copies, ranges of equal keys.
use mathlib.Core.Option
use sketch.Base.{
  ℕ, zero, suc, Option, none, some, Bool, true, ◌&&◌, ◌||◌, not, leb, ltb, ◌==◌, if◌then◌else◌,
}
use sketch.HashMap.{KeyPolicy, Bucket, Table, mapkey, init_table, insert_impl}
use sketch.HashMap.Query.{seek}

-- The last loop of `rehash` on one old bucket: `false` stands for a read through the null pointer.
unfoldable pub give_back_chain : (ℕ → ℕ) → ℕ → ℕ → Bool
give_back_chain next zero p = true
give_back_chain next (suc size) p = not (p == 0) && give_back_chain next size (next p)

unfoldable pub give_back_buckets : (ℕ → ℕ) → ℕ → ℕ → (ℕ → Bucket) → Bool
give_back_buckets next zero i old = true
give_back_buckets next (suc left) i old =
    ((old i).elems == 0 || (old i).size == 0 || give_back_chain next (old i).size (old i).elems)
    && give_back_buckets next left (suc i) old

module _ {ℓ} {K E : Type ℓ} (keys : KeyPolicy K E) (alloc : ℕ → ℕ) where
  -- The inner loop of `copy_from`, from the node p on, where `alloc i` is the address of the node
  -- that becomes the table's i-th. `none` is a fault of an insertion, or the fuel ran out.
  unfoldable pub copy_chain : ℕ → Table E → ℕ → Option (Table E)
  copy_chain zero t p = none
  copy_chain (suc fuel) t p =
      let rest =
        Option.bind (insert_impl keys t (alloc t.count) (t.elem p))
          (λ r. copy_chain fuel r.0 (r.0.next p)) in
      if p == 0 then some t else rest

  -- The outer loop, over the old buckets from i on
  unfoldable pub copy_buckets : ℕ → ℕ → (ℕ → Bucket) → Table E → Option (Table E)
  copy_buckets zero i old t = some t
  copy_buckets (suc left) i old t =
      let copied =
        if (old i).elems == 0 then some t else copy_chain (suc (old i).size) t (old i).elems in
      Option.bind copied (copy_buckets left (suc i) old)

  -- `copy_from` of `rcount` old buckets
  unfoldable pub copy_from : Table E → ℕ → (ℕ → Bucket) → Option (Table E)
  copy_from t rcount old =
      copy_buckets rcount 0 old (if ltb t.max rcount then init_table t rcount else t)

  -- Nothing reads the old nodes once they are given back.
  unfoldable pub rehash : Table E → ℕ → Option (Table E)
  rehash t n =
      let copied = copy_from (record (init_table t n) { head = none; count = 0 }) t.max t.buckets in
      if leb n t.max
      then some t
      else Option.bind copied
          (λ t'. if give_back_buckets t'.next t.max 0 t.buckets then some t' else none)

module _ {ℓ} {K E : Type ℓ} (keys : KeyPolicy K E) where
  -- The second loop of `equal_range`, in a bucket of several hashes
  unfoldable pub skip_equal : ℕ → Table E → ℕ → ℕ → Option ℕ
  skip_equal zero t i p = none
  skip_equal (suc fuel) t i p =
      let rest = skip_equal fuel t i (t.next p) in
      if not (p == 0)
        && t.hkey p == t.hkey i
        && keys.equal (keys.key (t.elem p)) (keys.key (t.elem i))
      then rest
      else some p

  -- `equal_range`: the first node of the key's hash, and the node behind its equals
  unfoldable pub equal_range : Table E → K → Option (ℕ × ℕ)
  equal_range t k =
      let h = keys.hash k in
      let b = t.buckets (mapkey t.max h) in
      if b.size == 0
      then some (0, 0)
      else Option.bind (seek (suc b.size) t h b.elems) λ i.
        if i == 0
        then some (0, 0)
        else if b.dirty
        then Option.map (λ e. (i, e)) (skip_equal (suc b.size) t i i)
        else some (i, 0)
