-- ===== src/HashMap.antt =====
-- include/SkBase/HashMap_details.hxx: the chained hash table with unique keys.
pub mod Erase
pub mod Query
pub mod Chain
pub mod Totals
pub mod Holds
pub mod MapKey
pub mod Frame
pub mod Place
pub mod Insert
pub mod Find
pub mod Shrink
pub mod Remove
pub mod EraseKey
pub mod Clear
pub mod Walk
pub mod Grow
pub mod Rehash
pub mod Lost
mod Tests
use mathlib.Core.Option
use sketch.Base.{
  ℕ, zero, suc, ◌+◌, ◌-◌, ◌*◌, ◌/◌, ◌≡◌, Option, none, some, Bool, true, false, ◌&&◌, ◌||◌, ltb,
  leb, ◌==◌, if◌then◌else◌, update,
}
use Prim.Native.Nat.{bit_and}

-- What the table takes from its client: the key in an element (`value2key`), `hasher` and
-- `key_equal`, with what a hash table asks of these two.
pub record KeyPolicy {ℓ} (K E : Type ℓ) : Type ℓ where
  pub key : E → K
  pub hash : K → ℕ
  pub equal : K → K → Bool
  pub equal_self : (a : K) → equal a a ≡ true
  pub equal_sym : (a b : K) → equal a b ≡ equal b a
  pub equal_congr : (a b c : K) → equal a b ≡ true → equal a c ≡ equal b c
  pub hash_equal : (a b : K) → equal a b ≡ true → hash a ≡ hash b

-- `bucket_type`; a node is known by its address, and 0 is the null pointer.
pub record Bucket : Type 0 where
  pub elems : ℕ
  pub size : ℕ
  pub hash : ℕ
  pub dirty : Bool

-- The nodes by address (`prev`, `next`, `hkey`, `elem`) and the table's own state. `max` is the
-- number of buckets, and `head` is the index of the bucket that `m_head` points at.
pub record Table {ℓ} (E : Type ℓ) : Type ℓ where
  pub prev : ℕ → ℕ
  pub next : ℕ → ℕ
  pub hkey : ℕ → ℕ
  pub elem : ℕ → E
  pub buckets : ℕ → Bucket
  pub max : ℕ
  pub head : Option ℕ
  pub count : ℕ

-- `base_iterator`: a node and its bucket; the past-the-end iterator has no node.
pub record Position : Type 0 where
  pub p : ℕ
  pub b : ℕ

abbrev pub end : Position
end = record { p = 0; b = 0 }

-- For at least one bucket: at 0 the source's product wraps.
unfoldable pub capacity_factor : ℕ → ℕ
capacity_factor n = n * 2 - 1

-- `mapkey`, for a table of `max` buckets
unfoldable pub mapkey : ℕ → ℕ → ℕ
mapkey max h =
    let mask = max - 1 in let n = bit_and h mask in if leb max n then n - (mask / 2 + 1) else n

-- `memset(…, 0, …)`
abbrev pub zeroed : Bucket
zeroed = record { elems = 0; size = 0; hash = 0; dirty = false }

-- `m_head > &b`, for the bucket of index n
abbrev pub above : Option ℕ → ℕ → Bool
above none n = false
above (some m) n = ltb n m

module _ {ℓ} {E : Type ℓ} where
  -- `init_table`
  unfoldable pub init_table : Table E → ℕ → Table E
  init_table t n = record t { buckets = λ _. zeroed; max = capacity_factor n }

  -- `node(elem, h)`
  unfoldable pub construct : Table E → ℕ → E → ℕ → Table E
  construct t p v h = record t {
    elem = update t.elem p v;
    hkey = update t.hkey p h;
    next = update t.next p 0;
    prev = update t.prev p 0;
  }

  -- `node.link_next(x)`
  unfoldable pub link_next : Table E → ℕ → ℕ → Table E
  link_next t node x = record t {
    next = update (update t.next x (t.next node)) node x;
    prev = update t.prev x node;
  }

  -- `node.link_prev(x)`
  unfoldable pub link_prev : Table E → ℕ → ℕ → Table E
  link_prev t node x = record t {
    next = update t.next x node;
    prev = update (update t.prev x (t.prev node)) node x;
  }

  -- `node.unlink()`
  unfoldable pub unlink : Table E → ℕ → Table E
  unlink t node =
      let next' = if t.prev node == 0 then t.next else update t.next (t.prev node) (t.next node) in
      let after = next' node in
      record t {
        next = next';
        prev = if after == 0 then t.prev else update t.prev after (t.prev node);
      }

  -- The loop at the place of a new hash. `none` means that the fuel ran out.
  unfoldable pub skip_same : ℕ → Table E → ℕ → ℕ → Option ℕ
  skip_same zero t h nodede = none
  skip_same (suc fuel) t h node =
      let rest = skip_same fuel t h (t.next node) in
      if t.next node == 0 then some node else if t.hkey node == h then rest else some node

  -- The second half of `insert_impl`: the node at the address p is new.
  unfoldable pub place : Table E → ℕ → E → ℕ → ℕ → Option (Table E)
  place t p v h n =
      let b = t.buckets n in
      let t' = construct t p v h in
      let grown = record b { size = b.size + 1 } in
      if b.elems == 0
      then some (record t' {
        buckets = update t.buckets n (record grown { elems = p; hash = h });
        head = if t.count == 0 || above t.head n then some n else t.head;
        count = t.count + 1;
      })
      else if b.hash == h
      then some (record (link_prev t' b.elems p) {
        buckets = update t.buckets n grown;
        count = t.count + 1;
      })
      else Option.map
          (λ node. record (link_next t' node p) {
            buckets = update t.buckets n (record grown { dirty = true });
            count = t.count + 1;
          })
          (skip_same (suc b.size) t' h b.elems)

module _ {ℓ} {K E : Type ℓ} (keys : KeyPolicy K E) where
  -- The loop that looks for an equal key, from the node p on: the node's address, or 0.
  unfoldable pub scan : ℕ → Table E → ℕ → K → ℕ → Option ℕ
  scan zero t h k p = none
  scan (suc fuel) t h k p =
      let rest = scan fuel t h k (t.next p) in
      if p == 0
      then some 0
      else if t.hkey p == h && keys.equal (keys.key (t.elem p)) k
      then some p
      else rest

  -- The first half of `insert_impl`: the node of the bucket n with the key k, or 0
  unfoldable pub duplicate : Table E → K → ℕ → Option ℕ
  duplicate t k n =
      let h = keys.hash k in
      let b = t.buckets n in
      if b.elems == 0
      then some 0
      else if b.hash == h || b.dirty
      then scan (suc b.size) t h k b.elems
      else some 0

  -- `insert_impl` of v, for which the allocator gives the address p. The hint is not used.
  unfoldable pub insert_impl : Table E → ℕ → E → Option (Table E × Position × Bool)
  insert_impl t p v =
      let h = keys.hash (keys.key v) in
      let n = mapkey t.max h in
      Option.bind (duplicate t (keys.key v) n) λ found.
        if found == 0
        then Option.map (λ t'. (t', record { p = p; b = n }, true)) (place t p v h n)
        else some (t, record { p = found; b = n }, false)
