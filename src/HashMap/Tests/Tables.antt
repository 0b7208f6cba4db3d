-- ===== src/HashMap/Tests/Tables.antt =====
-- include/SkBase/HashMap_details.hxx: small tables, and the lists that they hold.
use sketch.Base.{
  ℕ, ◌≤◌, ◌/◌, ◌≡◌, refl, ap, arith, none, some, true, false, List, [], ◌∷◌, length, ◌==◌, ==_self,
  update,
}
use sketch.HashMap.{KeyPolicy, Table, zeroed, mapkey}
use sketch.HashMap.Query.{first_nonempty}
use sketch.HashMap.Chain.{Avoids, Back}
use sketch.HashMap.Holds.{Slot, Holds, IsFree, each_bucket}
use sketch.HashMap.Shrink.{Tidy}
use sketch.HashMap.Remove.{each_list}

pub same_sym : (a b : ℕ) → (a == b) ≡ (b == a)
same_sym a b = ground arith

pub same_congr : (a b c : ℕ) → (a == b) ≡ true → (a == c) ≡ (b == c)
same_congr a b c h = ground arith

pub same_hash : (a b : ℕ) → (a == b) ≡ true → a ≡ b
same_hash a b h = ground arith

pub same_half : (a b : ℕ) → (a == b) ≡ true → a / 2 ≡ b / 2
same_half a b h = ap (λ (q : ℕ). q / 2) (same_hash a b h)

-- `hash<size_t>` and `equal_to<size_t>`, for elements of a key and a value
abbrev pub numbers : KeyPolicy ℕ (ℕ × ℕ)
numbers = record {
  key = λ e. e.0;
  hash = λ k. k;
  equal = λ a b. a == b;
  equal_self = ==_self;
  equal_sym = same_sym;
  equal_congr = same_congr;
  hash_equal = same_hash;
}

abbrev pub blank : Table (ℕ × ℕ)
blank = record {
  prev = λ _. 0;
  next = λ _. 0;
  hkey = λ _. 0;
  elem = λ _. (0, 0);
  buckets = λ _. zeroed;
  max = 0;
  head = none;
  count = 0;
}

-- The table that holds the keys 2 and 18, in this order, at the addresses 1 and 2
abbrev pub pair : Table (ℕ × ℕ)
pair = record {
  prev = update (λ _. 0) 2 1;
  next = update (λ _. 0) 1 2;
  hkey = update (update (λ _. 0) 1 2) 2 18;
  elem = update (update (λ _. (0, 0)) 1 (2, 1)) 2 (18, 2);
  buckets = update (λ _. zeroed) 2 (record { elems = 1; size = 2; hash = 2; dirty = true });
  max = 15;
  head = some 2;
  count = 2;
}

abbrev pub pair_lists : ℕ → List ℕ
pair_lists = update (λ _. []) 2 (1 ∷ 2 ∷ [])

pub none_Slot :
    (keys : KeyPolicy ℕ (ℕ × ℕ)) (next hkey : ℕ → ℕ) (elem : ℕ → ℕ × ℕ) (max n : ℕ)
    → Slot keys next hkey elem max n zeroed []
none_Slot keys next hkey elem max n = record {
  linked = refl;
  sized = refl;
  hashed = tt;
  homed = tt;
  pure = λ d. tt;
  first = tt;
  apart = tt;
  distinct = tt;
}

pub pair_Slot : Slot numbers pair.next pair.hkey pair.elem 15 2 (pair.buckets 2) (1 ∷ 2 ∷ [])
unfolding mapkey
pair_Slot = record {
  linked = (refl, omega arith, (refl, omega arith, refl));
  sized = refl;
  hashed = (refl, (refl, tt));
  homed = (refl, (refl, tt));
  pure = λ d. cc;
  first = refl;
  apart = ((omega arith, tt), (tt, tt));
  distinct = (refl, (refl, tt));
}

pub pair-Holds : Holds numbers pair pair_lists
unfolding first_nonempty
pair-Holds = record {
  slot =
      each_bucket (Slot numbers pair.next pair.hkey pair.elem 15) (λ _. zeroed) (λ _. []) 2
        (pair.buckets 2) (1 ∷ 2 ∷ []) pair_Slot
        (λ m d. none_Slot numbers pair.next pair.hkey pair.elem 15 m);
  counted = refl;
  headed = refl;
  positive = omega arith;
}

pub pair-Tidy : Tidy numbers pair pair_lists
pair-Tidy = record {
  holds = pair-Holds;
  back = each_list (λ _. Back pair.prev 0) (λ _. []) 2 (1 ∷ 2 ∷ []) (refl, (refl, tt)) (λ m d. tt);
  short =
      each_list (λ _ xs. length xs ≤ 2) (λ _. []) 2 (1 ∷ 2 ∷ []) (omega arith) (λ m d. omega arith);
}

pub pair-IsFree : IsFree pair_lists 3
pair-IsFree = record {
  nonzero = omega arith;
  unused =
      each_list (λ _ xs. Avoids 3 xs) (λ _. []) 2 (1 ∷ 2 ∷ []) (omega arith, (omega arith, tt))
        (λ m d. tt);
}

-- The keys 2, 34 and 18 at the addresses 1, 3 and 2, as insertion in the order 2, 18, 34 links them
abbrev pub triple : Table (ℕ × ℕ)
triple = record {
  prev = update (update (λ _. 0) 2 1) 3 1;
  next = update (update (λ _. 0) 1 3) 3 2;
  hkey = update (update (update (λ _. 0) 1 2) 2 18) 3 34;
  elem = update (update (update (λ _. (0, 0)) 1 (2, 1)) 2 (18, 2)) 3 (34, 3);
  buckets = update (λ _. zeroed) 2 (record { elems = 1; size = 3; hash = 2; dirty = true });
  max = 15;
  head = some 2;
  count = 3;
}

abbrev pub triple_lists : ℕ → List ℕ
triple_lists = update (λ _. []) 2 (1 ∷ 3 ∷ 2 ∷ [])

pub triple_Slot :
    Slot numbers triple.next triple.hkey triple.elem 15 2 (triple.buckets 2) (1 ∷ 3 ∷ 2 ∷ [])
unfolding mapkey
triple_Slot = record {
  linked = (refl, omega arith, (refl, omega arith, (refl, omega arith, refl)));
  sized = refl;
  hashed = (refl, (refl, (refl, tt)));
  homed = (refl, (refl, (refl, tt)));
  pure = λ d. cc;
  first = refl;
  apart = ((omega arith, (omega arith, tt)), ((omega arith, tt), (tt, tt)));
  distinct = (refl, (refl, (refl, tt)));
}

pub triple-Holds : Holds numbers triple triple_lists
unfolding first_nonempty
triple-Holds = record {
  slot =
      each_bucket (Slot numbers triple.next triple.hkey triple.elem 15) (λ _. zeroed) (λ _. []) 2
        (triple.buckets 2) (1 ∷ 3 ∷ 2 ∷ []) triple_Slot
        (λ m d. none_Slot numbers triple.next triple.hkey triple.elem 15 m);
  counted = refl;
  headed = refl;
  positive = omega arith;
}

-- A hash function that gives 4 and 5 the same hash, and a table that holds the key 4
abbrev pub halves : KeyPolicy ℕ (ℕ × ℕ)
halves = record numbers { hash = λ k. k / 2; hash_equal = same_half }

abbrev pub four : Table (ℕ × ℕ)
four = record {
  prev = λ _. 0;
  next = λ _. 0;
  hkey = update (λ _. 0) 1 2;
  elem = update (λ _. (0, 0)) 1 (4, 1);
  buckets = update (λ _. zeroed) 2 (record { elems = 1; size = 1; hash = 2; dirty = false });
  max = 15;
  head = some 2;
  count = 1;
}

abbrev pub four_lists : ℕ → List ℕ
four_lists = update (λ _. []) 2 (1 ∷ [])

pub four_Slot : Slot halves four.next four.hkey four.elem 15 2 (four.buckets 2) (1 ∷ [])
unfolding mapkey
four_Slot = record {
  linked = (refl, omega arith, refl);
  sized = refl;
  hashed = (refl, tt);
  homed = (refl, tt);
  pure = λ d. (refl, tt);
  first = refl;
  apart = (tt, tt);
  distinct = (refl, tt);
}

pub four-Holds : Holds halves four four_lists
unfolding first_nonempty
four-Holds = record {
  slot =
      each_bucket (Slot halves four.next four.hkey four.elem 15) (λ _. zeroed) (λ _. []) 2
        (four.buckets 2) (1 ∷ []) four_Slot
        (λ m d. none_Slot halves four.next four.hkey four.elem 15 m);
  counted = refl;
  headed = refl;
  positive = omega arith;
}

pub four-IsFree : IsFree four_lists 2
four-IsFree = record {
  nonzero = omega arith;
  unused = each_list (λ _ xs. Avoids 2 xs) (λ _. []) 2 (1 ∷ []) (omega arith, tt) (λ m d. tt);
}
