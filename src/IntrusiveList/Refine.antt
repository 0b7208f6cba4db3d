-- ===== src/IntrusiveList/Refine.antt =====
-- include/SkBase/IntrusiveList.hxx: the list against the sequence of its elements.
use sketch.Base.{
  ℕ, zero, suc, ◌+◌, ◌<◌, ◌≡◌, ◌≢◌, refl, List, [], ◌∷◌, ◌++◌, append-nil, length, length-append,
  some, none, true, false, arith, ◌==◌, ==_self, update, update_self, Bool-cases, inl, inr,
}
use sketch.IntrusiveList.{
  Links, make, add, remove, push_front, push_back, erase, pull_front, pull_back, exists,
  exists_from,
}
use sketch.IntrusiveList.Chain.{
  Chain, contains, distinct, last_of, head_of, contains-append, head_of-ne, Chain-next, Chain-prev,
  Chain-head, Chain-last, Chain-split, Chain-join, Chain-insert,
}

-- The list holds exactly the elements `xs` in that order: a ring of links from the root through
-- them and back.
pub record Holds (l : Links) (xs : List ℕ) : Type 0 where
  pub apart : distinct (l.root ∷ xs) ≡ true
  pub linked : Chain l.next l.prev l.root xs l.root
  pub counted : l.size ≡ length xs

pub make-Holds : (next prev : ℕ → ℕ) (root : ℕ) → Holds (make next prev root) []
unfolding make
make-Holds next prev root = record {
  apart = refl;
  linked = (update_self next root root, update_self prev root root);
  counted = refl;
}

-- A new element between the two parts of a list.
distinct-insert :
    (r : ℕ) (xs : List ℕ) (x : ℕ) (ys : List ℕ)
    → distinct (r ∷ (xs ++ ys)) ≡ true
    → x ≢ r
    → contains x (xs ++ ys) ≡ false
    → distinct (r ∷ (xs ++ x ∷ ys)) ≡ true
distinct-insert r [] x ys d n f = ground arith
distinct-insert r (z ∷ xs) x ys d n f =
    let a = contains-append r xs ys in
    let b = contains-append r xs (x ∷ ys) in
    let i = distinct-insert z xs x ys (ground arith) (ground arith) (ground arith) in ground arith

distinct-remove :
    (r : ℕ) (xs : List ℕ) (x : ℕ) (ys : List ℕ)
    → distinct (r ∷ (xs ++ x ∷ ys)) ≡ true
    → distinct (r ∷ (xs ++ ys)) ≡ true
distinct-remove r [] x ys d = ground arith
distinct-remove r (z ∷ xs) x ys d =
    let a = contains-append r xs ys in
    let b = contains-append r xs (x ∷ ys) in
    let i = distinct-remove z xs x ys (ground arith) in ground arith

-- `_add` between two neighbours of the ring.
pub add-Holds :
    (l : Links) (xs : List ℕ) (x : ℕ) (ys : List ℕ) (before behind : ℕ)
    → Holds l (xs ++ ys)
    → x ≢ l.root
    → contains x (xs ++ ys) ≡ false
    → before ≡ last_of l.root xs
    → behind ≡ head_of ys l.root
    → Holds (add l x before behind) (xs ++ x ∷ ys)
unfolding add
add-Holds l xs x ys before behind h n f p q =
    rw (p, q)
      (record {
        apart = distinct-insert l.root xs x ys h.apart n f;
        linked =
            Chain-insert l.next l.prev l.root xs x ys l.root h.apart (ground arith) n n f h.linked;
        counted =
            let a = length-append xs ys in
            let b = length-append xs (x ∷ ys) in omega (arith, h.counted);
      })

module _ (l : Links) (xs : List ℕ) (h : Holds l xs) (x : ℕ) where
  -- `push_front` and `push_back` of a node that is neither the root nor in the list put it before
  -- the first element and behind the last one, and keep the links of the list whole.
  pub push-Holds :
      x ≢ l.root
      → contains x xs ≡ false
      → Holds (push_front l x) (x ∷ xs) × Holds (push_back l x) (xs ++ x ∷ [])
  unfolding push_front push_back
  push-Holds n f = (
    add-Holds l [] x xs l.root (l.next l.root) h n f refl
        (Chain-head l.next l.prev l.root xs l.root h.linked).0,
    let e = append-nil xs in
        add-Holds l xs x [] (l.prev l.root) l.root (rw e h) n (rw e f)
          (Chain-last l.next l.prev l.root xs l.root h.linked).1 refl,
  )

-- An element of a list stands there once, and is not the root.
once :
    (r : ℕ) (xs : List ℕ) (x : ℕ) (ys : List ℕ)
    → distinct (r ∷ (xs ++ x ∷ ys)) ≡ true
    → (x ≢ r) × (contains x xs ≡ false) × (contains x ys ≡ false)
once r [] x ys d = (ground arith, refl, ground arith)
once r (z ∷ xs) x ys d =
    let a = contains-append r xs (x ∷ ys) in
    let b = contains-append z xs (x ∷ ys) in
    let i = once z xs x ys (ground arith) in (ground arith, ground arith, i.2)

-- `erase` of an element of the list removes it and no other, keeps the links of the list whole,
-- and leaves null pointers in the element.
pub erase-Holds :
    (l : Links) (xs : List ℕ) (x : ℕ) (ys : List ℕ)
    → Holds l (xs ++ x ∷ ys)
    → Holds (erase l x) (xs ++ ys) × ((erase l x).next x ≡ 0) × ((erase l x).prev x ≡ 0)
unfolding erase remove
erase-Holds l xs x ys h =
    let k = Chain-split l.next l.prev l.root xs x ys l.root h.linked in
    let n = (Chain-head l.next l.prev x ys l.root k.1).0 in
    let p = (Chain-last l.next l.prev l.root xs x k.0).1 in
    let o = once l.root xs x ys h.apart in
    let c = contains-append x xs ys in
    let r = contains-append l.root xs (x ∷ ys) in
    let s = contains-append l.root xs ys in
    let a = length-append xs ys in
    let b = length-append xs (x ∷ ys) in
    let d = distinct-remove l.root xs x ys h.apart in
    let m = head_of-ne x l.root ys o.0 o.2 in
    let q : (head_of ys l.root == x) ≡ false = ground arith in
    let N = update l.next (last_of l.root xs) (head_of ys l.root) in
    let P = update l.prev (head_of ys l.root) (last_of l.root xs) in
    let t = ==_self x in
    rw (n, p, q, t)
      (
        record {
          apart = d;
          linked = Chain-next N (update P x 0) l.root (xs ++ ys) l.root x 0 o.0 (ground arith) (
              Chain-prev N P l.root (xs ++ ys) l.root x 0 o.0 (ground arith)
                (Chain-join l.next l.prev l.root xs x ys l.root d (ground arith) k.0 k.1));
          counted = omega (arith, h.counted);
        },
        refl,
        refl,
      )

module _ (l : Links) where
  -- `pull_front` of a list that is not empty gives the first element, and the list then holds the
  -- others in order, with its links whole.
  pub pull_front-Holds :
      (x : ℕ) (xs : List ℕ)
      → Holds l (x ∷ xs)
      → (out : Links) × (pull_front l ≡ (out, some x)) × Holds out xs
  unfolding pull_front
  pull_front-Holds x xs h =
      let n : l.next l.root ≡ x = h.linked.0 in
      let o = once l.root [] x xs h.apart in
      let f : (x == l.root) ≡ false = ground arith in
      (erase l x, rw (n, f), (erase-Holds l [] x xs h).0)

  -- `pull_back` of a list that is not empty gives the last element, and the list then holds the
  -- others in order, with its links whole.
  pub pull_back-Holds :
      (xs : List ℕ) (x : ℕ)
      → Holds l (xs ++ x ∷ [])
      → (out : Links) × (pull_back l ≡ (out, some x)) × Holds out xs
  unfolding pull_back
  pull_back-Holds xs x h =
      let k = Chain-split l.next l.prev l.root xs x [] l.root h.linked in
      let n : l.prev l.root ≡ x = k.1.1 in
      let o = once l.root xs x [] h.apart in
      let f : (x == l.root) ≡ false = ground arith in
      (erase l x, rw (n, f), rw (append-nil xs) at ((erase-Holds l xs x [] h).0))

  -- From an empty list nothing is taken.
  pub pull-empty : Holds l [] → (pull_front l ≡ (l, none)) × (pull_back l ≡ (l, none))
  unfolding pull_front pull_back
  pull-empty h =
      let n : l.next l.root ≡ l.root = h.linked.0 in
      let p : l.prev l.root ≡ l.root = h.linked.1 in
      let t : (l.root == l.root) ≡ true = ==_self l.root in (rw (n, t), rw (p, t))

  exists_from_lem :
      (item a : ℕ) (xs : List ℕ) (fuel : ℕ)
      → contains l.root xs ≡ false
      → Chain l.next l.prev a xs l.root
      → length xs < fuel
      → exists_from l item fuel (l.next a) ≡ some (contains item xs)
  unfolding exists_from
  exists_from_lem item a [] zero c k f = absurd (omega arith)
  exists_from_lem item a [] (suc fuel) c k f =
      let n : l.next a ≡ l.root = k.0 in
      let t : (l.root == l.root) ≡ true = ==_self l.root in rw (n, t)
  exists_from_lem item a (x ∷ xs) zero c k f = absurd (omega arith)
  exists_from_lem item a (x ∷ xs) (suc fuel) c k f =
      let n : l.next a ≡ x = k.0 in
      let t : (x == l.root) ≡ false = ground arith in
      let i = exists_from_lem item x xs fuel (ground arith) k.2 (omega arith) in
      let s : (x == item) ≡ (item == x) = ground arith in
      rw (n, t, i, s) (elim (Bool-cases (item == x)) [ inl b ↦ rw b | inr b ↦ rw b ])

  -- `exists` ends, with as much fuel as there are elements and one more, and says whether the
  -- element is one of the list's.
  pub exists-contains :
      (xs : List ℕ) (item : ℕ) → Holds l xs → exists l item ≡ some (contains item xs)
  unfolding exists
  exists-contains xs item h =
      exists_from_lem item l.root xs (l.size + 1) (ground (arith, h.apart)) h.linked
        (omega (arith, h.counted))
