-- ===== src/HashMap/Lost.antt =====
-- include/SkBase/HashMap_details.hxx: the nodes that a bucket loses.
use mathlib.Core.Option
use sketch.Base.{
  ℕ, suc, ◌+◌, ◌-◌, ◌≡◌, ◌≢◌, refl, sym, ◌∙◌, ap, arith, some, true, false, List, [], ◌∷◌, ◌==◌,
  ==_self, update,
}
use sketch.HashMap.{KeyPolicy, Table, end, mapkey, construct, link_prev, place, insert_impl, unlink}
use sketch.HashMap.Query.{bucket, find}
use sketch.HashMap.Erase.{erase}
use sketch.HashMap.Chain.{Chain, locate, Chain-write, find_from-locate}
use sketch.HashMap.Holds.{Slot, IsFree, Holds}
use sketch.HashMap.Frame.{locate_write}
use sketch.HashMap.Find.{position, position-end, find-locate, duplicate-locate}

module _ {ℓ} {K E : Type ℓ} (keys : KeyPolicy K E) where
  -- Let a table hold its lists, and p be free. A new key with the very hash that its bucket, not
  -- empty, is known by is reported as inserted and counted, but `find` does not find it.
  pub insert_impl_lost :
      {t : Table E} {c : ℕ → List ℕ} (w : Holds keys t c) (p : ℕ) (free : IsFree c p) (v : E)
      → find keys t (keys.key v) ≡ some end
      → (t.buckets (bucket keys t (keys.key v))).elems ≢ 0
      → (t.buckets (bucket keys t (keys.key v))).hash ≡ keys.hash (keys.key v)
      → (t' : Table E) × (insert_impl keys t p v
          ≡ some (t', record { p = p; b = bucket keys t (keys.key v) }, true))
        × (t'.count ≡ t.count + 1)
        × (find keys t' (keys.key v) ≡ some end)
  unfolding insert_impl place construct link_prev find bucket Option.bind
  insert_impl_lost {t} {c} w p free v absent full same =
      let k = keys.key v in
      let h = keys.hash k in
      let n = bucket keys t k in
      let b = t.buckets n in
      let s = w.slot n in
      let found = locate keys t.elem k (c n) in
      let missing : some (position n found) ≡ some end = sym (find-locate keys w k) ∙ absent in
      let f : found ≡ 0 = position-end n found (cc missing) in
      let t' : Table E = record (link_prev (construct t p v h) b.elems p) {
        buckets = update t.buckets n (record b { size = b.size + 1 });
        count = t.count + 1;
      } in
      let chain : Chain t'.next b.elems (c n) =
        Chain-write _ p b.elems b.elems (c n) (free.unused n)
          (Chain-write t.next p 0 b.elems (c n) (free.unused n) s.linked) in
      let looked =
        find_from-locate keys t' k (suc (b.size + 1)) b.elems (c n) (omega (arith, s.sized))
          chain in
      let some_size : ((b.size + 1) == 0) ≡ false = ground arith in
      let some_node : (b.elems == 0) ≡ false = ground arith in
      let alike : (b.hash == h) ≡ true = rw same (==_self h) in
      (
        t',
        rw (duplicate-locate keys w k n, f, some_node, alike),
        refl,
        rw (==_self n, some_size, looked, locate_write keys t.elem k p v (c n) (free.unused n), f),
      )

  -- Let a table hold its lists. In a bucket of three nodes whose last still points back at the first, as two insertions behind
  -- the first leave it, the removal of the last unlinks the second as well: its key was found
  -- before, and no lookup finds it afterwards.
  pub erase_loses_second :
      {t : Table E} {c : ℕ → List ℕ} (w : Holds keys t c) (n a y z : ℕ)
      → c n ≡ a ∷ y ∷ z ∷ []
      → t.prev z ≡ a
      → (t' : Table E) × (erase t (record { p = z; b = n }) ≡ some (t', record { p = 0; b = n }))
        × (find keys t (keys.key (t.elem y)) ≡ some (record { p = y; b = n }))
        × (find keys t' (keys.key (t.elem y)) ≡ some end)
  unfolding erase unlink find bucket
  erase_loses_second {t} {c} w n a y z e stale =
      let b = t.buckets n in
      let s : Slot keys t.next t.hkey t.elem t.max n b (a ∷ y ∷ z ∷ []) = rw e at (w.slot n) in
      let k = keys.key (t.elem y) in
      let home : bucket keys t k ≡ n = ap (mapkey t.max) (sym s.hashed.1.0) ∙ s.homed.1.0 in
      let first : (b.elems == z) ≡ false = ground (arith, s.linked, s.apart) in
      let some_node : (z == 0) ≡ false = ground (arith, s.linked) in
      let y_node : (y == 0) ≡ false = ground (arith, s.linked) in
      let a_node : (a == 0) ≡ false = ground (arith, s.linked) in
      let unlike : (a == z) ≡ false = ground (arith, s.apart) in
      let last = s.linked.2.2.2 in
      let differ : keys.equal k (keys.key (t.elem a)) ≡ false =
        ground (arith, s.distinct, s.linked, keys.equal_sym k (keys.key (t.elem a))) in
      let t' : Table E = record t {
        buckets = update t.buckets n (record b { size = b.size - 1 });
        count = t.count - 1;
        next = update t.next a 0;
      } in
      let chain : Chain t'.next b.elems (a ∷ []) = (s.linked.0, s.linked.1, rw (==_self a)) in
      let looked =
        find_from-locate keys t' k (suc (b.size - 1)) b.elems (a ∷ []) (omega (arith, s.sized))
          chain in
      let left : ((b.size - 1) == 0) ≡ false = ground (arith, s.sized) in
      (
        t',
        rw (some_node, first, stale, a_node, last, unlike),
        find-locate keys w k ∙ rw (home, e, differ, keys.equal_self k, y_node),
        rw (home, ==_self n, left, looked, differ),
      )
