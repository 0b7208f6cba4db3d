-- ===== src/HashMap/Grow.antt =====
-- include/SkBase/HashMap_details.hxx: a new table, and insertion into buckets that have room.
use sketch.Base.{
  ℕ, zero, suc, ◌-◌, ◌*◌, ◌≤◌, ◌<◌, ◌≡◌, ◌≢◌, refl, sym, ◌∙◌, arith, none, some, true, false, List,
  [], ◌∷◌, length, ==_self, update,
}
use sketch.HashMap.{KeyPolicy, Table, end, capacity_factor, init_table, insert_impl}
use sketch.HashMap.Query.{bucket, find, first_nonempty}
use sketch.HashMap.Chain.{Avoids, Back, Back_write, second, front}
use sketch.HashMap.Totals.{total}
use sketch.HashMap.Holds.{IsFree}
use sketch.HashMap.Find.{joined, insert_impl-Holds}
use sketch.HashMap.Shrink.{Tidy}
use sketch.HashMap.Remove.{each_list}

total_none : (left i : ℕ) → total left i (λ _. []) ≡ 0
total_none zero i = refl
total_none (suc left) i = omega (arith, total_none left (suc i))

first_none :
    (left i : ℕ)
    → first_nonempty left i (λ _. record { elems = 0; size = 0; hash = 0; dirty = false }) ≡ none
unfolding first_nonempty
first_none zero i = refl
first_none (suc left) i = first_none left (suc i)

length-second : (p : ℕ) (xs : List ℕ) → length (second p xs) ≡ suc (length xs)
length-second p [] = refl
length-second p (x ∷ xs) = refl

module _ {ℓ} {K E : Type ℓ} (keys : KeyPolicy K E) where
  -- The constructor's table, for at least one element, holds nothing.
  pub init_table-Tidy :
      (t : Table E) (n : ℕ)
      → 0 < n
      → t.count ≡ 0
      → t.head ≡ none
      → Tidy keys (init_table t n) (λ _. [])
  unfolding init_table capacity_factor
  init_table-Tidy t n h z e = record {
    holds = record {
      slot = λ m. record {
        linked = refl;
        sized = refl;
        hashed = tt;
        homed = tt;
        pure = λ d. tt;
        first = tt;
        apart = tt;
        distinct = tt;
      };
      counted = z ∙ sym (total_none (n * 2 - 1) 0);
      headed = e ∙ sym (first_none (n * 2 - 1) 0);
      positive = omega arith;
    };
    back = λ m. tt;
    short = λ m. omega arith;
  }

  Back_second :
      (prev : ℕ → ℕ) (p : ℕ) (xs : List ℕ)
      → length xs ≤ 1
      → Avoids p xs
      → Back prev 0 xs
      → Back (update (update prev p 0) p (front xs)) 0 (second p xs)
  Back_second prev p [] l a b = (rw (==_self p), tt)
  Back_second prev p (x ∷ []) l a b = (ground arith, (rw (==_self p), tt))
  Back_second prev p (x ∷ y ∷ xs) l a b = absurd (omega arith)

  module _ {t : Table E} {c : ℕ → List ℕ} (w : Tidy keys t c) (p : ℕ) (free : IsFree c p)
      (v : E) where
    -- Let a table hold its lists, with links back and no bucket of three nodes, and let p be free.
    -- A new key whose bucket has at most one node, and is not known by the key's hash unless empty,
    -- is inserted behind the first node, and the table stays such a table.
    pub insert_impl-Tidy :
        find keys t (keys.key v) ≡ some end
        → ((t.buckets (bucket keys t (keys.key v))).elems ≢ 0
            → (t.buckets (bucket keys t (keys.key v))).hash ≢ keys.hash (keys.key v))
        → (t.buckets (bucket keys t (keys.key v))).size ≤ 1
        → (t' : Table E) × (insert_impl keys t p v
            ≡ some (t', record { p = p; b = bucket keys t (keys.key v) }, true))
          × Tidy keys t' (joined c (bucket keys t (keys.key v)) p)
    insert_impl-Tidy absent other room =
        let n = bucket keys t (keys.key v) in
        let (t', run, w', _, _, back) = insert_impl-Holds keys w.holds p free v absent other in
        let small : length (c n) ≤ 1 = omega (arith, (w.holds.slot n).sized) in
        (
          t',
          run,
          record {
            holds = w';
            back = rw back (
                each_list (λ _. Back (update (update t.prev p 0) p (front (c n))) 0) c n
                  (second p (c n)) (Back_second t.prev p (c n) small (free.unused n) (w.back n))
                  (λ m d.
                    Back_write _ p _ 0 (c m) (free.unused m)
                      (Back_write t.prev p 0 0 (c m) (free.unused m) (w.back m))));
            short =
                each_list (λ _ xs. length xs ≤ 2) c n (second p (c n))
                  (omega (arith, length-second p (c n))) (λ m d. w.short m);
          },
        )
