-- ===== src/Rundown/Threads.antt =====
-- include/SkBase/Rundown.hxx: counts over the threads, and what the values that they read satisfy.
use sketch.Base.{ℕ, ◌+◌, ◌%◌, ◌≡◌, refl, ◌⊎◌, inl, inr, List, [], ◌∷◌, ◌++◌, arith}
use sketch.Rundown.{
  Thread, outside, holding, inc_test, inc_exchange, dec_test, dec_block, wait_first, wait_loop,
  waited,
}

-- Whether a thread holds the guard, as a number: from an `increment` that returned true to the
-- exchange of its `decrement`.
abbrev pub holds : Thread → ℕ
holds outside = 0
holds holding = 1
holds (inc_test val) = 0
holds (inc_exchange val) = 0
holds (dec_test val) = 1
holds (dec_block val) = 1
holds wait_first = 0
holds wait_loop = 0
holds waited = 0

abbrev pub has_waited : Thread → ℕ
has_waited outside = 0
has_waited holding = 0
has_waited (inc_test val) = 0
has_waited (inc_exchange val) = 0
has_waited (dec_test val) = 0
has_waited (dec_block val) = 0
has_waited wait_first = 0
has_waited wait_loop = 0
has_waited waited = 1

abbrev pub count : (Thread → ℕ) → List Thread → ℕ
count f [] = 0
count f (t ∷ ts) = f t + count f ts

pub count-append :
    (f : Thread → ℕ) (xs : List Thread) (t : Thread) (ys : List Thread)
    → count f (xs ++ t ∷ ys) ≡ count f xs + count f ys + f t
count-append f [] t ys = omega arith
count-append f (x ∷ xs) t ys = omega (arith, count-append f xs t ys)

abbrev pub in_block : Thread → ℕ
in_block outside = 0
in_block holding = 0
in_block (inc_test val) = 0
in_block (inc_exchange val) = 0
in_block (dec_test val) = 0
in_block (dec_block val) = 1
in_block wait_first = 0
in_block wait_loop = 0
in_block waited = 0

-- What a thread read is even where it counts on that: a holder reads the word of a guard that is
-- not active, and an exchange is tried after a test that found it so.
abbrev pub IsEven : ℕ → Thread → Type 0
IsEven word outside = Unit
IsEven word holding = Unit
IsEven word (inc_test val) = (val % 2 ≡ 0) ⊎ (word % 2 ≡ 1)
IsEven word (inc_exchange val) = val % 2 ≡ 0
IsEven word (dec_test val) = val % 2 ≡ 0
IsEven word (dec_block val) = ⊥
IsEven word wait_first = Unit
IsEven word wait_loop = Unit
IsEven word waited = Unit

abbrev pub AreEven : ℕ → List Thread → Type 0
AreEven word [] = Unit
AreEven word (t ∷ ts) = IsEven word t × AreEven word ts

-- An active guard stays active.
abbrev pub Later : ℕ → ℕ → Type 0
Later word word' = (word % 2 ≡ 1) → word' % 2 ≡ 1

pub IsEven-Later : (word word' : ℕ) (t : Thread) → Later word word' → IsEven word t → IsEven word' t
IsEven-Later word word' outside l e = tt
IsEven-Later word word' holding l e = tt
IsEven-Later word word' (inc_test val) l e = elim e [ inl z ↦ inl z | inr o ↦ inr (l o) ]
IsEven-Later word word' (inc_exchange val) l e = e
IsEven-Later word word' (dec_test val) l e = e
IsEven-Later word word' (dec_block val) l e = e
IsEven-Later word word' wait_first l e = tt
IsEven-Later word word' wait_loop l e = tt
IsEven-Later word word' waited l e = tt

pub AreEven-Later :
    (word word' : ℕ) (ts : List Thread) → Later word word' → AreEven word ts → AreEven word' ts
AreEven-Later word word' [] l h = tt
AreEven-Later word word' (t ∷ ts) l h =
    (IsEven-Later word word' t l h.0, AreEven-Later word word' ts l h.1)

pub AreEven-split :
    (word : ℕ) (xs : List Thread) (t : Thread) (ys : List Thread)
    → AreEven word (xs ++ t ∷ ys)
    → IsEven word t × ((u : Thread) → IsEven word u → AreEven word (xs ++ u ∷ ys))
AreEven-split word [] t ys h = (h.0, λ u e. (e, h.1))
AreEven-split word (x ∷ xs) t ys h =
    let r = AreEven-split word xs t ys h.1 in (r.0, λ u e. (h.0, r.1 u e))

pub AreEven-swap :
    (word word' : ℕ) (xs : List Thread) (t u : Thread) (ys : List Thread)
    → Later word word'
    → IsEven word' u
    → AreEven word (xs ++ t ∷ ys)
    → AreEven word' (xs ++ u ∷ ys)
AreEven-swap word word' [] t u ys l e h = (e, AreEven-Later word word' ys l h.1)
AreEven-swap word word' (x ∷ xs) t u ys l e h =
    (IsEven-Later word word' x l h.0, AreEven-swap word word' xs t u ys l e h.1)

pub AreEven-in_block : (word : ℕ) (ts : List Thread) → AreEven word ts → count in_block ts ≡ 0
AreEven-in_block word [] h = refl
AreEven-in_block word (outside ∷ ts) h = omega (arith, AreEven-in_block word ts h.1)
AreEven-in_block word (holding ∷ ts) h = omega (arith, AreEven-in_block word ts h.1)
AreEven-in_block word (inc_test val ∷ ts) h = omega (arith, AreEven-in_block word ts h.1)
AreEven-in_block word (inc_exchange val ∷ ts) h = omega (arith, AreEven-in_block word ts h.1)
AreEven-in_block word (dec_test val ∷ ts) h = omega (arith, AreEven-in_block word ts h.1)
AreEven-in_block word (dec_block val ∷ ts) h = absurd h.0
AreEven-in_block word (wait_first ∷ ts) h = omega (arith, AreEven-in_block word ts h.1)
AreEven-in_block word (wait_loop ∷ ts) h = omega (arith, AreEven-in_block word ts h.1)
AreEven-in_block word (waited ∷ ts) h = omega (arith, AreEven-in_block word ts h.1)
