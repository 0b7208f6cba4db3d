-- ===== src/IntrusiveList/Chain.antt =====
-- include/SkBase/IntrusiveList.hxx: chains of nodes, and what `_add` and `_remove` make of them.
use sketch.Base.{
  ℕ, ◌≡◌, ◌≢◌, refl, sym, ◌∙◌, List, [], ◌∷◌, ◌++◌, Bool, true, false, not, ◌&&◌, ◌||◌, arith, ◌==◌,
  update, update_self, update_ne,
}

abbrev pub contains : ℕ → List ℕ → Bool
contains x [] = false
contains x (y ∷ ys) = (x == y) || contains x ys

abbrev pub distinct : List ℕ → Bool
distinct [] = true
distinct (x ∷ xs) = not (contains x xs) && distinct xs

-- The nodes of a list, each linked to its neighbours, from `a` to `e`, which are not of it.
abbrev pub Chain : (ℕ → ℕ) → (ℕ → ℕ) → ℕ → List ℕ → ℕ → Type 0
Chain next prev a [] e = (next a ≡ e) × (prev e ≡ a)
Chain next prev a (x ∷ xs) e = (next a ≡ x) × (prev x ≡ a) × Chain next prev x xs e

-- The node before the end of a chain, and the one at its start.
abbrev pub last_of : ℕ → List ℕ → ℕ
last_of a [] = a
last_of a (x ∷ xs) = last_of x xs

abbrev pub head_of : List ℕ → ℕ → ℕ
head_of [] e = e
head_of (y ∷ ys) e = y

pub contains-append :
    (x : ℕ) (xs ys : List ℕ) → contains x (xs ++ ys) ≡ (contains x xs || contains x ys)
contains-append x [] ys = refl
contains-append x (y ∷ xs) ys = rw (contains-append x xs ys) (ground arith)

pub last_of-ne : (z a : ℕ) (xs : List ℕ) → z ≢ a → contains z xs ≡ false → last_of a xs ≢ z
last_of-ne z a [] h c = λ e. h (sym e)
last_of-ne z a (x ∷ xs) h c = last_of-ne z x xs (ground arith) (ground arith)

pub head_of-ne : (z e : ℕ) (ys : List ℕ) → z ≢ e → contains z ys ≡ false → head_of ys e ≢ z
head_of-ne z e [] h c = λ q. h (sym q)
head_of-ne z e (y ∷ ys) h c = ground arith

-- A write at a node outside the chain does not change it.
pub Chain-next :
    (next prev : ℕ → ℕ) (a : ℕ) (xs : List ℕ) (e q v : ℕ)
    → q ≢ a
    → contains q xs ≡ false
    → Chain next prev a xs e
    → Chain (update next q v) prev a xs e
Chain-next next prev a [] e q v h c k = (update_ne next q a v h ∙ k.0, k.1)
Chain-next next prev a (x ∷ xs) e q v h c k = (
  update_ne next q a v h ∙ k.0,
  k.1,
  Chain-next next prev x xs e q v (ground arith) (ground arith) k.2,
)

pub Chain-prev :
    (next prev : ℕ → ℕ) (a : ℕ) (xs : List ℕ) (e q v : ℕ)
    → q ≢ e
    → contains q xs ≡ false
    → Chain next prev a xs e
    → Chain next (update prev q v) a xs e
Chain-prev next prev a [] e q v h c k = (k.0, update_ne prev q e v h ∙ k.1)
Chain-prev next prev a (x ∷ xs) e q v h c k = (
  k.0,
  update_ne prev q x v (ground arith) ∙ k.1,
  Chain-prev next prev x xs e q v h (ground arith) k.2,
)

-- What a chain says of its two ends.
pub Chain-head :
    (next prev : ℕ → ℕ) (a : ℕ) (xs : List ℕ) (e : ℕ)
    → Chain next prev a xs e
    → (next a ≡ head_of xs e) × (prev (head_of xs e) ≡ a)
Chain-head next prev a [] e k = k
Chain-head next prev a (x ∷ xs) e k = (k.0, k.1)

pub Chain-last :
    (next prev : ℕ → ℕ) (a : ℕ) (xs : List ℕ) (e : ℕ)
    → Chain next prev a xs e
    → (next (last_of a xs) ≡ e) × (prev e ≡ last_of a xs)
Chain-last next prev a [] e k = k
Chain-last next prev a (x ∷ xs) e k = Chain-last next prev x xs e k.2

pub Chain-split :
    (next prev : ℕ → ℕ) (a : ℕ) (xs : List ℕ) (x : ℕ) (ys : List ℕ) (e : ℕ)
    → Chain next prev a (xs ++ x ∷ ys) e
    → Chain next prev a xs x × Chain next prev x ys e
Chain-split next prev a [] x ys e k = ((k.0, k.1), k.2)
Chain-split next prev a (z ∷ xs) x ys e k =
    let r = Chain-split next prev z xs x ys e k.2 in ((k.0, k.1, r.0), r.1)

-- `_remove` links the two sides of a node.
pub Chain-join :
    (next prev : ℕ → ℕ) (a : ℕ) (xs : List ℕ) (x : ℕ) (ys : List ℕ) (e : ℕ)
    → distinct (a ∷ (xs ++ ys)) ≡ true
    → contains e (xs ++ ys) ≡ false
    → Chain next prev a xs x
    → Chain next prev x ys e
    → Chain
        (update next (last_of a xs) (head_of ys e))
        (update prev (head_of ys e) (last_of a xs))
        a
        (xs ++ ys)
        e
Chain-join next prev a [] x [] e d c k l = (update_self next a e, update_self prev e a)
Chain-join next prev a [] x (y ∷ ys) e d c k l = (
  update_self next a y,
  update_self prev y a,
  Chain-next next (update prev y a) y ys e a y (ground arith) (ground arith)
      (Chain-prev next prev y ys e y a (ground arith) (ground arith) l.2),
)
Chain-join next prev a (z ∷ xs) x ys e d c k l =
    let s = contains-append a xs ys in
    let t = contains-append z xs ys in
    (
      update_ne next (last_of z xs) a (head_of ys e)
            (last_of-ne a z xs (ground arith) (ground arith))
          ∙ k.0,
      update_ne prev (head_of ys e) z (last_of z xs)
            (head_of-ne z e ys (ground arith) (ground arith))
          ∙ k.1,
      Chain-join next prev z xs x ys e (ground arith) (ground arith) k.2 l,
    )

-- `_add` puts a node between two neighbours.
pub Chain-insert :
    (next prev : ℕ → ℕ) (a : ℕ) (xs : List ℕ) (x : ℕ) (ys : List ℕ) (e : ℕ)
    → distinct (a ∷ (xs ++ ys)) ≡ true
    → contains e (xs ++ ys) ≡ false
    → x ≢ a
    → x ≢ e
    → contains x (xs ++ ys) ≡ false
    → Chain next prev a (xs ++ ys) e
    → Chain
        (update (update next x (head_of ys e)) (last_of a xs) x)
        (update (update prev x (last_of a xs)) (head_of ys e) x)
        a
        (xs ++ x ∷ ys)
        e
Chain-insert next prev a [] x [] e d c n m f k = (
  update_self (update next x e) a x,
  update_ne (update prev x a) e x x (λ q. m (sym q)) ∙ update_self prev x a,
  (
    update_ne (update next x e) a x x (λ q. n (sym q)) ∙ update_self next x e,
    update_self (update prev x a) e x,
  ),
)
Chain-insert next prev a [] x (y ∷ ys) e d c n m f k =
    let w : x ≢ y = ground arith in
    let N = update next x y in
    let P = update prev x a in
    (
      update_self N a x,
      update_ne P y x x (λ q. w (sym q)) ∙ update_self prev x a,
      (
        update_ne N a x x (λ q. n (sym q)) ∙ update_self next x y,
        update_self P y x,
        Chain-next N (update P y x) y ys e a x (ground arith) (ground arith) (
            Chain-next next (update P y x) y ys e x y w (ground arith) (
              Chain-prev next P y ys e y x (ground arith) (ground arith)
                (Chain-prev next prev y ys e x a m (ground arith) k.2))),
      ),
    )
Chain-insert next prev a (z ∷ xs) x ys e d c n m f k =
    let s = contains-append a xs ys in
    let t = contains-append z xs ys in
    let N = update next x (head_of ys e) in
    let P = update prev x (last_of z xs) in
    (
      update_ne N (last_of z xs) a x (last_of-ne a z xs (ground arith) (ground arith))
          ∙ update_ne next x a (head_of ys e) n
          ∙ k.0,
      update_ne P (head_of ys e) z x (head_of-ne z e ys (ground arith) (ground arith))
          ∙ update_ne prev x z (last_of z xs) (ground arith)
          ∙ k.1,
      Chain-insert next prev z xs x ys e (ground arith) (ground arith) (ground arith) m
          (ground arith) k.2,
    )
