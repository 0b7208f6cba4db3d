-- ===== src/HashMap/Place.antt =====
-- include/SkBase/HashMap_details.hxx: the bucket that a new node joins.
use sketch.Base.{
  ℕ, ◌+◌, ◌≡◌, ◌≢◌, refl, sym, ◌∙◌, arith, true, false, List, [], ◌∷◌, ◌==◌, ==_self, update,
}
use sketch.HashMap.{KeyPolicy, Bucket, Table, mapkey}
use sketch.HashMap.Chain.{Avoids, locate, Chain-write}
use sketch.HashMap.Holds.{Slot}
use sketch.HashMap.Frame.{Slot_fill, locate_write}

missed_both {ℓ} :
    {K E : Type ℓ} (keys : KeyPolicy K E) (elem : ℕ → E) (k : K) (x : ℕ) (r : List ℕ)
    → x ≢ 0
    → locate keys elem k (x ∷ r) ≡ 0
    → (keys.equal k (keys.key (elem x)) ≡ false) × (locate keys elem k r ≡ 0)
missed_both keys elem k x r z f = ground arith

missed_cons {ℓ} :
    {K E : Type ℓ} (keys : KeyPolicy K E) (elem : ℕ → E) (k : K) (x : ℕ) (r : List ℕ)
    → keys.equal k (keys.key (elem x)) ≡ false
    → locate keys elem k r ≡ 0
    → locate keys elem k (x ∷ r) ≡ 0
missed_cons keys elem k x r d f = rw (d, f)

-- The links after `link_next` of the new node p behind x
abbrev pub linked_next {ℓ} : {E : Type ℓ} → Table E → ℕ → ℕ → ℕ → ℕ
linked_next t p x = update (update (update t.next p 0) p (update t.next p 0 x)) x p

module _ {ℓ} {K E : Type ℓ} (keys : KeyPolicy K E) (t : Table E) (p n : ℕ) (v : E)
    (b : Bucket) where
  abbrev pub filled_hkey : ℕ → ℕ
  filled_hkey = update t.hkey p (keys.hash (keys.key v))

  abbrev pub filled_elem : ℕ → E
  filled_elem = update t.elem p v

  -- The new node alone, in a bucket that was empty
  pub alone :
      p ≢ 0
      → mapkey t.max (keys.hash (keys.key v)) ≡ n
      → b.size ≡ 0
      → Slot keys
          (update t.next p 0)
          filled_hkey
          filled_elem
          t.max
          n
          (record b { elems = p; size = b.size + 1; hash = keys.hash (keys.key v) })
          (p ∷ [])
  alone z e s = record {
    linked = (refl, z, ground arith);
    sized = ground arith;
    hashed = (rw (==_self p), tt);
    homed = (rw (==_self p) e, tt);
    pure = λ d. (rw (==_self p), tt);
    first = rw (==_self p);
    apart = (tt, tt);
    distinct = (refl, tt);
  }

  -- The new node behind the first of a bucket
  pub behind :
      (x : ℕ) (r : List ℕ)
      → p ≢ 0
      → Avoids p (x ∷ r)
      → mapkey t.max (keys.hash (keys.key v)) ≡ n
      → locate keys t.elem (keys.key v) (x ∷ r) ≡ 0
      → Slot keys t.next t.hkey t.elem t.max n b (x ∷ r)
      → Slot keys
          (linked_next t p x)
          filled_hkey
          filled_elem
          t.max
          n
          (record b { size = b.size + 1; dirty = true })
          (x ∷ p ∷ r)
  behind x r z a e f s =
      let s' = Slot_fill keys p (keys.hash (keys.key v)) v a s in
      let px : (p == x) ≡ false = ground arith in
      let xp : (x == p) ≡ false = ground arith in
      let lx : linked_next t p x x ≡ p = rw (==_self x) in
      let lp : linked_next t p x p ≡ t.next x = rw (xp, ==_self p, px) in
      let c = Chain-write _ x p (t.next x) r s.apart.0 (
        Chain-write _ p (update t.next p 0 x) (t.next x) r a.1
          (Chain-write t.next p 0 (t.next x) r a.1 s.linked.2)) in
      let h = (==_self p) in
      let missed : (keys.equal (keys.key v) (keys.key (t.elem x)) ≡ false)
          × (locate keys t.elem (keys.key v) r ≡ 0) =
        missed_both keys t.elem (keys.key v) x r s.linked.1 f in
      let apart_sym : keys.equal (keys.key (t.elem x)) (keys.key v) ≡ false =
        keys.equal_sym _ _ ∙ missed.0 in
      record {
        linked = (s.linked.0, s.linked.1, rw lx (refl, z, rw lp c));
        sized = omega (arith, s.sized);
        hashed = (s'.hashed.0, (rw h, s'.hashed.1));
        homed = (s'.homed.0, (rw h e, s'.homed.1));
        pure = λ d. cc;
        first = s'.first;
        apart = ((λ q. a.0 (sym q), s.apart.0), (a.1, s.apart.1));
        distinct = (
          missed_cons keys filled_elem (keys.key (filled_elem x)) p r (rw (px, h) apart_sym)
              (locate_write keys t.elem (keys.key (filled_elem x)) p v r a.1 ∙ rw px s.distinct.0),
          (
            locate_write keys t.elem (keys.key (filled_elem p)) p v r a.1 ∙ rw h missed.1,
            s'.distinct.1,
          ),
        );
      }
