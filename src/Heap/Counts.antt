-- ===== src/Heap/Counts.antt =====
-- include/SkBase/Heap.Debug.hxx: the counters and the guards against the blocks that are allocated.
use sketch.Base.{
  ℕ, ◌≤◌, ◌<◌, ◌≡◌, ◌≢◌, refl, sym, ◌∙◌, arith, none, some, true, false, List, [], ◌∷◌, ◌++◌,
  length, length-append, replicate, ◌==◌, ==_iff, ==_self, Bool-cases, inl, inr, update,
}
use sketch.Heap.{
  DebugHeap, Header, Tail, Stats, no_block, guard_value, guard_dwords, make, initialize,
  guards_kept, check, count_in, count_out, unlist, allocate, free,
}
use sketch.Heap.Blocks.{
  Listed, Unlisted, Apart, bytes_in, Apart-append, Apart-unlist, length-unlist, bytes_in-append,
  bytes_in-update, bytes_in-resized, bytes_in-unlist,
}

-- Every block of the list has its guards and its size, and a size between two bounds.
abbrev pub AllSound : DebugHeap → ℕ → ℕ → List ℕ → Type 0
AllSound d lo hi [] = Unit
AllSound d lo hi (h ∷ hs) =
    (check d h ≡ true) × (lo ≤ (d.header h).size) × ((d.header h).size ≤ hi) × AllSound d lo hi hs

-- The counters agree with the blocks that are allocated, all of them sound.
pub record IsCounted (d : DebugHeap) : Type 0 where
  pub apart : Apart d.list
  pub sound : AllSound d d.stats.smallest d.stats.largest d.list
  pub allocations : d.stats.current_allocations ≡ length d.list
  pub bytes : d.stats.current_bytes ≡ bytes_in d.header d.list
  pub peak_allocations : d.stats.current_allocations ≤ d.stats.peak_allocations
  pub peak_bytes : d.stats.current_bytes ≤ d.stats.peak_bytes
  pub all_allocations : d.stats.peak_allocations ≤ d.stats.total_allocations
  pub all_bytes : d.stats.peak_bytes ≤ d.stats.total_bytes

-- What the heap's clients may do: allocate a block, of less than 2^64 - 1 bytes, that the heap below
-- has at an address not in use; free a block; and write between a block's guards.
pub data Step : DebugHeap → DebugHeap → Type 0 where
  allocated :
      (d : DebugHeap) (h size file line : ℕ)
      → Unlisted h d.list
      → size < no_block
      → Step d (allocate d (some h) size file line).0
  refused : (d : DebugHeap) (size file line : ℕ) → Step d (allocate d none size file line).0
  freed : (d : DebugHeap) (h : ℕ) → Listed h d.list → Step d (free d h).0
  written :
      (d : DebugHeap) (h : ℕ) (bs : List ℕ)
      → Listed h d.list
      → length bs ≡ (d.header h).size
      → Step d (record d { bytes = update d.bytes h bs })

pub data Reach (d : DebugHeap) : DebugHeap → Type 0 where
  here : Reach d d
  next : {e f : DebugHeap} → Reach d e → Step e f → Reach d f

guards_new : guards_kept (replicate guard_dwords guard_value) ≡ true
unfolding guards_kept
guards_new = refl

check-allocate :
    (d : DebugHeap) (h size file line : ℕ) → check (allocate d (some h) size file line).0 h ≡ true
unfolding check allocate initialize
check-allocate d h size file line = rw (==_self h, ==_self d.this, ==_self size, guards_new)

-- Blocks that are not touched stay sound, within wider bounds.
AllSound-other :
    (d e : DebugHeap) (h lo hi lo' hi' : ℕ) (l : List ℕ)
    → Unlisted h l
    → e.this ≡ d.this
    → ((z : ℕ) → h ≢ z → (e.header z ≡ d.header z) × (e.tail z ≡ d.tail z))
    → ((n : ℕ) → lo ≤ n → lo' ≤ n)
    → hi ≤ hi'
    → AllSound d lo hi l
    → AllSound e lo' hi' l
unfolding check
AllSound-other d e h lo hi lo' hi' [] u this same low high s = tt
AllSound-other d e h lo hi lo' hi' (z ∷ l) u this same low high s =
    let (at_header, at_tail) = same z u.0 in
    (
      rw (at_header, at_tail, this) s.0,
      rw at_header (low (d.header z).size s.1),
      rw at_header (omega arith),
      AllSound-other d e h lo hi lo' hi' l u.1 this same low high s.3,
    )

AllSound-bytes :
    (d : DebugHeap) (bytes : ℕ → List ℕ) (lo hi : ℕ) (l : List ℕ)
    → AllSound d lo hi l
    → AllSound (record d { bytes = bytes }) lo hi l
unfolding check
AllSound-bytes d bytes lo hi [] s = tt
AllSound-bytes d bytes lo hi (z ∷ l) s = (s.0, s.1, s.2, AllSound-bytes d bytes lo hi l s.3)

AllSound-append :
    (d : DebugHeap) (lo hi h : ℕ) (l : List ℕ)
    → AllSound d lo hi l
    → AllSound d lo hi (h ∷ [])
    → AllSound d lo hi (l ++ h ∷ [])
AllSound-append d lo hi h [] s t = t
AllSound-append d lo hi h (x ∷ l) s t = (s.0, s.1, s.2, AllSound-append d lo hi h l s.3 t)

AllSound-unlist :
    (d : DebugHeap) (lo hi h : ℕ) (l : List ℕ) → AllSound d lo hi l → AllSound d lo hi (unlist h l)
unfolding unlist
AllSound-unlist d lo hi h [] s = tt
AllSound-unlist d lo hi h (x ∷ l) s = elim (Bool-cases (x == h)) [
  | inl e ↦ rw e s.3
  | inr e ↦ rw e (s.0, s.1, s.2, AllSound-unlist d lo hi h l s.3)
]

Unlisted-unlist_self : (h : ℕ) (l : List ℕ) → Apart l → Unlisted h (unlist h l)
unfolding unlist
Unlisted-unlist_self h [] a = tt
Unlisted-unlist_self h (x ∷ l) a = elim (Bool-cases (x == h)) [
  | inl e ↦ let same : x ≡ h = (==_iff x h).0 e in rw e (rw same at a.0)
  | inr e ↦ rw e (ground arith, Unlisted-unlist_self h l a.1)
]

-- The bounds and the peaks after a block of n bytes was counted
count_in_smallest :
    (s : Stats) (n m : ℕ) → n < no_block → s.smallest ≤ m → (count_in s n).smallest ≤ m
unfolding count_in
count_in_smallest s n m h l = ground arith

count_in_bounds :
    (s : Stats) (n : ℕ)
    → n < no_block
    → s.current_allocations ≤ s.peak_allocations
    → s.current_bytes ≤ s.peak_bytes
    → s.peak_allocations ≤ s.total_allocations
    → s.peak_bytes ≤ s.total_bytes
    → (s.largest ≤ (count_in s n).largest)
      × ((count_in s n).smallest ≤ n)
      × (n ≤ (count_in s n).largest)
      × ((count_in s n).current_allocations ≤ (count_in s n).peak_allocations)
      × ((count_in s n).current_bytes ≤ (count_in s n).peak_bytes)
      × ((count_in s n).peak_allocations ≤ (count_in s n).total_allocations)
      × ((count_in s n).peak_bytes ≤ (count_in s n).total_bytes)
unfolding count_in
count_in_bounds s n h a b c d = (
  ground arith,
  ground arith,
  ground arith,
  ground arith,
  ground arith,
  ground arith,
  ground arith,
)

counted_allocations :
    (s : Stats) (n h : ℕ) (l : List ℕ)
    → s.current_allocations ≡ length l
    → (count_in s n).current_allocations ≡ length (l ++ h ∷ [])
unfolding count_in
counted_allocations s n h l e = omega (arith, length-append l (h ∷ []))

counted_bytes :
    (s : Stats) (n : ℕ) (header : ℕ → Header) (h : ℕ) (l : List ℕ)
    → n ≡ (header h).size
    → s.current_bytes ≡ bytes_in header l
    → (count_in s n).current_bytes ≡ bytes_in header (l ++ h ∷ [])
unfolding count_in
counted_bytes s n header h l e f = omega (arith, bytes_in-append header h l)

allocate-IsCounted :
    {d : DebugHeap} (v : IsCounted d) (h size file line : ℕ)
    → Unlisted h d.list
    → size < no_block
    → IsCounted (allocate d (some h) size file line).0
unfolding allocate initialize
allocate-IsCounted {d} v h size file line u small =
    let d' = (allocate d (some h) size file line).0 in
    let written : (d'.header h).size ≡ size = rw (==_self h) in
    let n = (d'.header h).size in
    let less : n < no_block = rw written small in
    let bound =
      count_in_bounds d.stats n less v.peak_allocations v.peak_bytes v.all_allocations
        v.all_bytes in
    let old =
      AllSound-other d d' h d.stats.smallest d.stats.largest d'.stats.smallest d'.stats.largest
        d.list u refl (λ z m. let other : (h == z) ≡ false = ground arith in (rw other, rw other))
        (λ m l. count_in_smallest d.stats n m less l) bound.0 v.sound in
    let new : check d' h ≡ true = check-allocate d h size file line in
    record {
      apart = Apart-append h d.list u v.apart;
      sound =
          AllSound-append d' d'.stats.smallest d'.stats.largest h d.list old
            (new, bound.1, bound.2, tt);
      allocations = counted_allocations d.stats n h d.list v.allocations;
      bytes =
          counted_bytes d.stats n d'.header h d.list refl
            (v.bytes ∙ sym (bytes_in-update d.header h _ d.list u));
      peak_allocations = bound.3;
      peak_bytes = bound.4;
      all_allocations = bound.5;
      all_bytes = bound.6;
    }

free-IsCounted :
    {d : DebugHeap} (v : IsCounted d) (h : ℕ) → Listed h d.list → IsCounted (free d h).0
unfolding free count_out
free-IsCounted {d} v h m =
    let d' = (free d h).0 in
    let freed : (d'.header h).size ≡ (d.header h).size = rw (==_self h) in
    let fewer = length-unlist h d.list m in
    let less = bytes_in-unlist d.header h d.list m in
    let same =
      bytes_in-resized d.header h (record (d.header h) { heap = 0 }) (unlist h d.list) refl in
    record {
      apart = Apart-unlist h d.list v.apart;
      sound =
          AllSound-other d d' h d.stats.smallest d.stats.largest d.stats.smallest d.stats.largest
            (unlist h d.list) (Unlisted-unlist_self h d.list v.apart) refl
            (λ z n. let other : (h == z) ≡ false = ground arith in (rw other, refl)) (λ n l. l)
            (omega arith) (AllSound-unlist d d.stats.smallest d.stats.largest h d.list v.sound);
      allocations = omega (arith, v.allocations, fewer);
      bytes = omega (arith, v.bytes, freed, less, same);
      peak_allocations = omega (arith, v.peak_allocations);
      peak_bytes = omega (arith, v.peak_bytes);
      all_allocations = v.all_allocations;
      all_bytes = v.all_bytes;
    }

-- Along every sequence of allocations, answered or refused, of frees of allocated blocks and of
-- writes between a block's guards, the counters of a heap that starts counted stay so: they are the
-- number and the bytes of the blocks in the list, at most the peaks, which are at most the totals,
-- every block passes the check, and its size lies between the smallest and the largest.
pub Reach-IsCounted : {d e : DebugHeap} → IsCounted d → Reach d e → IsCounted e
unfolding allocate
Reach-IsCounted v here = v
Reach-IsCounted v (next r (allocated d h size file line u small)) =
    allocate-IsCounted (Reach-IsCounted v r) h size file line u small
Reach-IsCounted v (next r (refused d size file line)) = Reach-IsCounted v r
Reach-IsCounted v (next r (freed d h m)) = free-IsCounted (Reach-IsCounted v r) h m
Reach-IsCounted v (next r (written d h bs m e)) =
    let w = Reach-IsCounted v r in
    record {
      apart = w.apart;
      sound =
          AllSound-bytes d (update d.bytes h bs) d.stats.smallest d.stats.largest d.list w.sound;
      allocations = w.allocations;
      bytes = w.bytes;
      peak_allocations = w.peak_allocations;
      peak_bytes = w.peak_bytes;
      all_allocations = w.all_allocations;
      all_bytes = w.all_bytes;
    }

pub make-IsCounted :
    (this : ℕ) (header : ℕ → Header) (bytes : ℕ → List ℕ) (tail : ℕ → Tail)
    → IsCounted (make this header bytes tail)
unfolding make
make-IsCounted this header bytes tail = record {
  apart = tt;
  sound = tt;
  allocations = refl;
  bytes = refl;
  peak_allocations = omega arith;
  peak_bytes = omega arith;
  all_allocations = omega arith;
  all_bytes = omega arith;
}
