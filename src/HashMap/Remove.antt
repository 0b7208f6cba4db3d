-- ===== src/HashMap/Remove.antt =====
-- include/SkBase/HashMap_details.hxx: removal from tables whose buckets hold at most two nodes.
use sketch.Base.{
  ℕ, suc, ◌-◌, ◌≤◌, ◌<◌, ◌≡◌, ◌≢◌, refl, sym, ◌∙◌, ap, arith, inl, inr, Option, none, some, true,
  false, List, [], ◌∷◌, length, ◌==◌, ==_iff, ==_self, Bool-cases, update,
}
use sketch.HashMap.{KeyPolicy, Table, Position, mapkey, unlink}
use sketch.HashMap.Erase.{renew, is_head, erase}
use sketch.HashMap.Chain.{Avoids, Back, Back_write}
use sketch.HashMap.Totals.{total, total-update, first_keep, first_emptied}
use sketch.HashMap.Holds.{Slot, each_bucket}
use sketch.HashMap.MapKey.{mapkey_lt}
use sketch.HashMap.Frame.{Slot_link, Homed-Avoids}
use sketch.HashMap.Shrink.{
  Tidy, shrink_only, shrink_first, drop_second, renew_head, renew-Stands, is_head-some, Stands,
}

-- A statement on every list, after one changed
pub each_list :
    (P : ℕ → List ℕ → Type 0) (c : ℕ → List ℕ) (n : ℕ) (xs : List ℕ)
    → P n xs
    → ((m : ℕ) → m ≢ n → P m (c m))
    → (m : ℕ) → P m (update c n xs m)
each_list P c n xs here there m = elim (Bool-cases (n == m)) [
  | inl e ↦ rw e (let same : n ≡ m = (==_iff n m).0 e in rw same at here)
  | inr e ↦ rw e (there m (ground arith))
]

not_first : (o : Option ℕ) (n : ℕ) → is_head o n ≡ false → o ≢ some n
not_first none n h e = cc
not_first (some m) n h e = let same : m ≡ n = cc e in ground arith

module _ {ℓ} {K E : Type ℓ} (keys : KeyPolicy K E) {t : Table E} {c : ℕ → List ℕ}
    (w : Tidy keys t c) (n : ℕ) where
  within : (a : ℕ) (r : List ℕ) → c n ≡ a ∷ r → n < t.max
  within a r e =
      let s : Slot keys t.next t.hkey t.elem t.max n (t.buckets n) (a ∷ r) =
        rw e at (w.holds.slot n) in
      omega (arith, s.homed.0, (mapkey_lt t.max (t.hkey a) w.holds.positive).0)

  uncounted :
      (xs : List ℕ)
      → n < t.max
      → suc (length xs) ≡ length (c n)
      → t.count - 1 ≡ total t.max 0 (update c n xs)
  uncounted xs h e =
      omega (arith, w.holds.counted, total-update t.max 0 n c xs (omega arith) (omega (arith, h)))

  pub erase_only :
      (a : ℕ)
      → c n ≡ a ∷ []
      → (t' : Table E) × (at : Position) × (erase t (record { p = a; b = n }) ≡ some (t', at))
        × Tidy keys t' (update c n [])
        × (t'.elem ≡ t.elem)
        × (t'.max ≡ t.max)
        × (t'.count ≡ t.count - 1)
        × (is_head t.head n ≡ true → Stands t'.buckets t'.head 0 at)
  unfolding erase unlink
  erase_only a e =
      let b = t.buckets n in
      let here : Slot keys t.next t.hkey t.elem t.max n b (a ∷ []) = rw e at (w.holds.slot n) in
      let back : Back t.prev 0 (a ∷ []) = rw e at (w.back n) in
      let (b', shrunk, slot, void) = shrink_only keys t n b a here in
      let t1 = record t { buckets = update t.buckets n b' } in
      let r = renew t1 n 0 in
      let first : (b.elems == a) ≡ true = rw here.linked.0 (==_self a) in
      let after = here.linked.2 in
      let some_node : (a == 0) ≡ false = ground (arith, here.linked) in
      (
        record t1 { head = r.0; count = t.count - 1 },
        r.1,
        rw (some_node, first, after, shrunk, back.0, after),
        record {
          holds = record {
            slot =
                each_bucket (Slot keys t.next t.hkey t.elem t.max) t.buckets c n b' [] slot
                  (λ m d. w.holds.slot m);
            counted = uncounted [] (within a [] e) (sym (ap length e));
            headed = renew_head t1 n 0 (λ h.
                first_emptied t.max 0 n t.buckets b' void
                  (rw (← w.holds.headed) (not_first t.head n h))
                ∙ sym w.holds.headed);
            positive = w.holds.positive;
          };
          back = each_list (λ _. Back t.prev 0) c n [] tt (λ m d. w.back m);
          short = each_list (λ _ xs. length xs ≤ 2) c n [] (omega arith) (λ m d. w.short m);
        },
        refl,
        refl,
        refl,
        λ h. renew-Stands t1 n 0 h,
      )

  apart_from : (x : ℕ) (m : ℕ) → mapkey t.max (t.hkey x) ≡ n → m ≢ n → Avoids x (c m)
  apart_from x m e d = Homed-Avoids t.hkey t.max m n x (c m) (w.holds.slot m).homed e d

  pub erase_first :
      (a y : ℕ)
      → c n ≡ a ∷ y ∷ []
      → (t' : Table E) × (at : Position) × (erase t (record { p = a; b = n }) ≡ some (t', at))
        × Tidy keys t' (update c n (y ∷ []))
        × (t'.elem ≡ t.elem)
        × (t'.max ≡ t.max)
        × (t'.count ≡ t.count - 1)
        × (is_head t.head n ≡ true → Stands t'.buckets t'.head 0 at)
  unfolding erase unlink
  erase_first a y e =
      let b = t.buckets n in
      let here : Slot keys t.next t.hkey t.elem t.max n b (a ∷ y ∷ []) = rw e at (w.holds.slot n) in
      let back : Back t.prev 0 (a ∷ y ∷ []) = rw e at (w.back n) in
      let (b', shrunk, slot, full) = shrink_first keys t n b a y here in
      let t1 = record t { buckets = update t.buckets n b' } in
      let r = renew t1 n y in
      let first : (b.elems == a) ≡ true = rw here.linked.0 (==_self a) in
      let after = here.linked.2.0 in
      let some_node : (a == 0) ≡ false = ground (arith, here.linked) in
      let other_node : (y == 0) ≡ false = ground (arith, here.linked) in
      let alike : (b'.elems == 0) ≡ (b.elems == 0) = ground (arith, here.linked) in
      let first_kept = first_keep t.max 0 n t.buckets b' alike ∙ sym w.holds.headed in
      let kept : is_head t.head n ≡ true → r.0 ≡ some n =
        λ h. renew_head t1 n y (λ _. first_kept) ∙ first_kept ∙ is_head-some t.head n h in
      (
        record t1 { head = r.0; count = t.count - 1; prev = update t.prev y 0 },
        r.1,
        rw (some_node, first, after, shrunk, back.0, after, other_node),
        record {
          holds = record {
            slot =
                each_bucket (Slot keys t.next t.hkey t.elem t.max) t.buckets c n b' (y ∷ []) slot
                  (λ m d. w.holds.slot m);
            counted = uncounted (y ∷ []) (within a (y ∷ []) e) (sym (ap length e));
            headed = renew_head t1 n y (λ _. first_kept);
            positive = w.holds.positive;
          };
          back =
              each_list (λ _. Back (update t.prev y 0) 0) c n (y ∷ []) (rw (==_self y), tt)
                (λ m d. Back_write t.prev y 0 0 (c m) (apart_from y m here.homed.1.0 d) (w.back m));
          short = each_list (λ _ xs. length xs ≤ 2) c n (y ∷ []) (omega arith) (λ m d. w.short m);
        },
        refl,
        refl,
        refl,
        λ h. rw (kept h) (rw (kept h) at (renew-Stands t1 n y h)),
      )

  pub erase_second :
      (a y : ℕ)
      → c n ≡ a ∷ y ∷ []
      → (t' : Table E) × (at : Position) × (erase t (record { p = y; b = n }) ≡ some (t', at))
        × Tidy keys t' (update c n (a ∷ []))
        × (t'.elem ≡ t.elem)
        × (t'.max ≡ t.max)
  unfolding erase unlink
  erase_second a y e =
      let b = t.buckets n in
      let here : Slot keys t.next t.hkey t.elem t.max n b (a ∷ y ∷ []) = rw e at (w.holds.slot n) in
      let back : Back t.prev 0 (a ∷ y ∷ []) = rw e at (w.back n) in
      let b' = record b { size = b.size - 1 } in
      let first : (b.elems == y) ≡ false = ground (arith, here.linked, here.apart) in
      let some_node : (y == 0) ≡ false = ground (arith, here.linked) in
      let before : (t.prev y == 0) ≡ false = ground (arith, here.linked, back) in
      let unlike : (a == y) ≡ false = ground (arith, here.apart) in
      let last = here.linked.2.2 in
      (
        record t { buckets = update t.buckets n b'; count = t.count - 1; next = update t.next a 0 },
        record { p = 0; b = n },
        rw (some_node, first, before, back.1.0, last, unlike),
        record {
          holds = record {
            slot =
                each_bucket (Slot keys (update t.next a 0) t.hkey t.elem t.max) t.buckets c n b'
                  (a ∷ []) (drop_second keys t n b a y here)
                  (λ m d. Slot_link keys a 0 (apart_from a m here.homed.0 d) (w.holds.slot m));
            counted = uncounted (a ∷ []) (within a (y ∷ []) e) (sym (ap length e));
            headed = w.holds.headed ∙ sym (first_keep t.max 0 n t.buckets b' refl);
            positive = w.holds.positive;
          };
          back = each_list (λ _. Back t.prev 0) c n (a ∷ []) (back.0, tt) (λ m d. w.back m);
          short = each_list (λ _ xs. length xs ≤ 2) c n (a ∷ []) (omega arith) (λ m d. w.short m);
        },
        refl,
        refl,
      )
