-- ===== src/HashMap/Tests.antt =====
-- include/SkBase/HashMap_details.hxx on small tables, whose keys are numbers that are their own hashes.
mod Tables
use mathlib.Core.Option
use Prim.Native.Nat.{bit_and}
use sketch.Base.{
  ℕ, zero, suc, ◌+◌, ◌-◌, ◌≤◌, ◌<◌, ◌%◌, ◌/◌, ◌≡◌, ◌≢◌, refl, sym, ap, ◌∙◌, arith, Option, none,
  some, Bool, true, false, List, [], ◌∷◌, length, ◌==◌, ==_self, if◌then◌else◌, update,
}
use sketch.HashMap.{
  KeyPolicy, Table, Position, end, zeroed, mapkey, capacity_factor, init_table, insert_impl,
  duplicate, scan, place, construct, link_next, link_prev, skip_same, unlink,
}
use sketch.HashMap.Query.{find, find_from, bucket, begin, walk, increment, first_nonempty}
use sketch.HashMap.Erase.{erase, erase_key, clear, shrink, renew}
use sketch.HashMap.Chain.{Avoids, Back}
use sketch.HashMap.Holds.{Slot, Holds, IsFree, each_bucket}
use sketch.HashMap.Shrink.{Tidy}
use sketch.HashMap.Remove.{each_list}
use sketch.HashMap.Find.{joined, find-insert_impl, insert_impl_present}
use sketch.HashMap.EraseKey.{find-erase_key}
use sketch.HashMap.Grow.{insert_impl-Tidy, init_table-Tidy}
use sketch.HashMap.Walk.{walk-begin, nodes}
use sketch.HashMap.Clear.{clear-Tidy}
use sketch.HashMap.Lost.{insert_impl_lost, erase_loses_second}
use sketch.HashMap.MapKey.{mapkey-capacity_factor}
use sketch.HashMap.Tests.Tables.{
  same_sym, same_congr, same_hash, same_half, numbers, halves, blank, pair, pair_lists, none_Slot,
  pair_Slot, pair-Holds, pair-Tidy, pair-IsFree, triple, triple_lists, triple_Slot, triple-Holds,
  four, four_lists, four_Slot, four-Holds, four-IsFree,
}

-- Inserts the keys at the addresses 1, 2, …, each with its address for a value.
fill : ℕ → List ℕ → Table (ℕ × ℕ) → Option (Table (ℕ × ℕ))
fill p [] t = some t
fill p (k ∷ ks) t = Option.bind (insert_impl numbers t p (k, p)) (λ r. fill (suc p) ks r.0)

-- What a loop from `begin()` to `end()` reads
abbrev keys_of : Option (Table (ℕ × ℕ)) → Option (List ℕ)
keys_of o = Option.bind o λ t. walk (suc t.count) t (begin t)

abbrev found_at : Option (Table (ℕ × ℕ)) → ℕ → Option Position
found_at o k = Option.bind o (λ t. find numbers t k)

mapkey_15 : mapkey 15 18 ≡ 2
unfolding mapkey
mapkey_15 = refl

-- 2 and 18 share a bucket, and 5 stands in a later one.
walk_three : keys_of (fill 1 (2 ∷ 18 ∷ 5 ∷ []) (init_table blank 8)) ≡ some (1 ∷ 2 ∷ 3 ∷ [])
unfolding fill Option.bind insert_impl duplicate scan place construct link_next link_prev skip_same
    begin walk increment first_nonempty init_table mapkey capacity_factor
walk_three = refl

-- The bucket of 2, 18 and 34 loses 34, the second, when 18, the last, is erased.
erase_last :
    found_at
      (Option.map
        (λ r. r.0)
        (Option.bind
          (fill 1 (2 ∷ 18 ∷ 34 ∷ []) (init_table blank 8))
          (λ t. erase_key numbers t 18)))
      34
    ≡ some end
unfolding fill Option.bind insert_impl duplicate scan place construct link_next link_prev skip_same
    init_table mapkey capacity_factor find find_from bucket erase_key erase shrink renew unlink
    first_nonempty
erase_last = refl

find-pair_34 : find numbers pair 34 ≡ some end
unfolding find find_from bucket mapkey
find-pair_34 = refl

find-pair_18 : find numbers pair 18 ≡ some (record { p = 2; b = 2 })
unfolding find find_from bucket mapkey
find-pair_18 = refl

hash_pair_34 : (pair.buckets (bucket numbers pair 34)).hash ≢ 34
unfolding bucket mapkey
hash_pair_34 = omega arith

find-insert_impl_example :
    (t' : Table (ℕ × ℕ)) × (insert_impl numbers pair 3 (34, 3)
      ≡ some (t', record { p = 3; b = bucket numbers pair 34 }, true))
    × (find numbers t' 18 ≡ (
        if 18 == 34
        then some (record { p = 3; b = bucket numbers pair 34 })
        else find numbers pair 18))
find-insert_impl_example =
    find-insert_impl numbers pair-Holds 3 pair-IsFree (34, 3) find-pair_34 (λ _. hash_pair_34) 18

find-erase_key_example :
    (t' : Table (ℕ × ℕ)) × (c' : ℕ → List ℕ) × (erase_key numbers pair 18 ≡ some (t', 1))
    × Tidy numbers t' c'
    × (find numbers t' 2 ≡ (if 2 == 18 then some end else find numbers pair 2))
find-erase_key_example =
    find-erase_key numbers pair-Tidy 18
      (λ e. let wrong : some (record { p = 2; b = 2 }) ≡ some end = sym find-pair_18 ∙ e in cc) 2

find-pair_5 : find numbers pair 5 ≡ some end
unfolding find find_from bucket mapkey
find-pair_5 = refl

bucket-pair_5 : (pair.buckets (bucket numbers pair 5)) ≡ zeroed
unfolding bucket mapkey
bucket-pair_5 = refl

insert_impl-Tidy_example :
    (t' : Table (ℕ × ℕ)) × (insert_impl numbers pair 3 (5, 3)
      ≡ some (t', record { p = 3; b = bucket numbers pair 5 }, true))
    × Tidy numbers t' (joined pair_lists (bucket numbers pair 5) 3)
insert_impl-Tidy_example =
    insert_impl-Tidy numbers pair-Tidy 3 pair-IsFree (5, 3) find-pair_5
      (λ h. absurd (h (rw bucket-pair_5))) (rw bucket-pair_5 (omega arith))

walk-begin_example :
    (first : Position) × (begin pair ≡ first)
    × (walk 3 pair first ≡ some (1 ∷ 2 ∷ []))
    × (2 ≡ pair.count)
walk-begin_example = walk-begin numbers pair-Holds

clear-Tidy_example :
    (t' : Table (ℕ × ℕ)) × (c' : ℕ → List ℕ) × (clear pair ≡ some t')
    × Tidy numbers t' c'
    × (t'.count ≡ 0)
clear-Tidy_example = clear-Tidy numbers pair-Tidy

find-four_5 : find halves four 5 ≡ some end
unfolding find find_from bucket mapkey
find-four_5 = refl

bucket-four_5 : bucket halves four 5 ≡ 2
unfolding bucket mapkey
bucket-four_5 = refl

insert_impl_lost_example :
    (t' : Table (ℕ × ℕ)) × (insert_impl halves four 2 (5, 2)
      ≡ some (t', record { p = 2; b = bucket halves four 5 }, true))
    × (t'.count ≡ four.count + 1)
    × (find halves t' 5 ≡ some end)
insert_impl_lost_example =
    insert_impl_lost halves four-Holds 2 four-IsFree (5, 2) find-four_5
      (rw bucket-four_5 (omega arith)) (rw bucket-four_5)

mapkey-capacity_factor_example :
    (mapkey (capacity_factor 8) 37 < capacity_factor 8) × (mapkey (capacity_factor 8) 37 % 2 ≡ 0)
mapkey-capacity_factor_example = mapkey-capacity_factor 8 37 (omega arith)

erase_loses_second_example :
    (t' : Table (ℕ × ℕ)) × (erase triple (record { p = 2; b = 2 })
      ≡ some (t', record { p = 0; b = 2 }))
    × (find numbers triple 34 ≡ some (record { p = 3; b = 2 }))
    × (find numbers t' 34 ≡ some end)
erase_loses_second_example = erase_loses_second numbers triple-Holds 2 1 3 2 refl refl
