-- ===== src/HashMap/Erase.antt =====
-- include/SkBase/HashMap_details.hxx: removal, by position, by key, of a range and of everything.
use mathlib.Core.Option
use sketch.Base.{
  ℕ, zero, suc, ◌-◌, Option, none, some, Bool, false, ◌||◌, not, ◌==◌, if◌then◌else◌, update,
}
use sketch.HashMap.{KeyPolicy, Bucket, Table, Position, end, unlink}
use sketch.HashMap.Query.{first_nonempty, find, begin}

-- `m_head == b`
abbrev pub is_head : Option ℕ → ℕ → Bool
is_head none n = false
is_head (some m) n = m == n

module _ {ℓ} {E : Type ℓ} where
  -- The bucket after its first node went, where `after` is the next node. Its size is not 0 before.
  -- `none` stands for reading the hash of the null pointer.
  unfoldable pub shrink : Table E → Bucket → ℕ → Option Bucket
  shrink t b after =
      let b' = record b { elems = after; size = b.size - 1 } in
      let clean = record b' { dirty = false; hash = if after == 0 then b.hash else t.hkey after } in
      if b'.size == 0
      then some clean
      else if not b.dirty
      then some b'
      else if after == 0
      then none
      else if b.hash == t.hkey after
      then some b'
      else some clean

  -- The search for a new head, once the bucket n lost its first node: the head and the position
  -- that is returned.
  unfoldable pub renew : Table E → ℕ → ℕ → Option ℕ × Position
  renew t n after =
      let head = is_head t.head n in
      if after == 0 || head
      then elim (first_nonempty t.max 0 t.buckets) [
        | none ↦ (if head then none else t.head, record { p = after; b = n })
        | some m ↦ (if head then some m else t.head, record { p = (t.buckets m).elems; b = m })
      ]
      else (t.head, record { p = after; b = n })

  -- The end of `erase`: the node leaves its chain.
  abbrev pub release : Table E → ℕ → Table E
  release t p = record (unlink t p) { count = t.count - 1 }

  -- `erase(position)`: the table and the position behind
  unfoldable pub erase : Table E → Position → Option (Table E × Position)
  erase t it =
      let b = t.buckets it.b in
      let after = t.next it.p in
      let whole =
        Option.map
          (λ b'.
            let t' = record t { buckets = update t.buckets it.b b' } in
            let (head, at) = renew t' it.b after in (release (record t' { head = head }) it.p, at))
          (shrink t b after) in
      let inner = record t { buckets = update t.buckets it.b (record b { size = b.size - 1 }) } in
      if it.p == 0
      then some (t, end)
      else if b.elems == it.p
      then whole
      else some (release inner it.p, record it { p = after })

  -- `erase(first, last)`. `none` is a fault, or means that the fuel ran out.
  unfoldable pub erase_range : ℕ → Table E → Position → Position → Option (Table E × Position)
  erase_range zero t first last = none
  erase_range (suc fuel) t first last =
      let rest = Option.bind (erase t first) (λ r. erase_range fuel r.0 r.1 last) in
      if first.p == last.p then some (t, last) else rest

  unfoldable pub clear : Table E → Option (Table E)
  clear t = Option.map (λ r. r.0) (erase_range (suc t.count) t (begin t) end)

module _ {ℓ} {K E : Type ℓ} (keys : KeyPolicy K E) where
  -- `erase(key)`: the table and the number of elements that went
  unfoldable pub erase_key : Table E → K → Option (Table E × ℕ)
  erase_key t k =
      Option.bind (find keys t k)
        λ it. if it.p == 0 then some (t, 0) else Option.map (λ r. (r.0, 1)) (erase t it)
