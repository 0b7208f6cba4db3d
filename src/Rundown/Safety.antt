-- ===== src/Rundown/Safety.antt =====
-- include/SkBase/Rundown.hxx: nobody holds the guard once a `wait` has returned.
use sketch.Base.{
  ℕ, zero, suc, ◌+◌, ◌*◌, ◌%◌, ◌≡◌, ◌≢◌, refl, ◌⊎◌, inl, inr, List, ◌∷◌, ◌++◌, arith, false, ◌==◌,
  replicate, Bool-cases,
}
use sketch.Rundown.{
  Thread, outside, holding, inc_test, inc_exchange, dec_test, dec_block, wait_first, wait_loop,
  waited, advance, is_active,
}
use sketch.Rundown.Steps.{
  Guard, Step, call_increment, call_decrement, call_wait, access, Reach, here, next, start,
}
use sketch.Rundown.Threads.{
  holds, has_waited, in_block, count, count-append, IsEven, AreEven, Later, AreEven-split,
  AreEven-swap, AreEven-in_block,
}

-- The word counts `h` holders by twos while none of `w` threads has waited, or is active, and there
-- is no holder.
abbrev Counted : ℕ → ℕ → ℕ → Type 0
Counted word h w = ((word ≡ 2 * h) × (w ≡ 0)) ⊎ ((word % 2 ≡ 1) × (h ≡ 0))

pub record IsSafe (g : Guard) : Type 0 where
  pub even : AreEven g.word g.threads
  pub counted : Counted g.word (count holds g.threads) (count has_waited g.threads)

start_lem :
    (n : ℕ)
    → AreEven 0 (replicate n outside)
      × (count holds (replicate n outside) ≡ 0)
      × (count has_waited (replicate n outside) ≡ 0)
start_lem zero = (tt, refl, refl)
start_lem (suc n) = let (e, h, w) = start_lem n in ((tt, e), omega (arith, h), omega (arith, w))

start-IsSafe : (n : ℕ) → IsSafe (start n)
start-IsSafe n =
    let (e, h, w) = start_lem n in record { even = e; counted = inl (omega (arith, h), w) }

-- One access of one thread, with `h` other holders and `w` other threads that have waited.
access_lem :
    (block word : ℕ) (t : Thread) (h w : ℕ)
    → IsEven word t
    → Counted word (h + holds t) (w + has_waited t)
    → Later word (advance block word t).0
      × IsEven (advance block word t).0 (advance block word t).1
      × Counted
          (advance block word t).0
          (h + holds (advance block word t).1)
          (w + has_waited (advance block word t).1)
unfolding advance
access_lem block word outside h w e c = (λ o. o, tt, c)
access_lem block word holding h w e c = (λ o. o, tt, c)
access_lem block word (inc_test val) h w e c = elim (Bool-cases (is_active word)) [
  | inl t ↦ rw t (λ o. o, tt, c)
  | inr f ↦ rw f (λ o. o, ground arith, c)
]
access_lem block word (inc_exchange val) h w e c = elim (Bool-cases (word == val)) [
  | inl t ↦ rw t (λ o. absurd (ground arith), tt, ground arith)
  | inr f ↦ rw f (λ o. o, inl e, c)
]
access_lem block word (dec_test val) h w e c =
    let a : is_active val ≡ false = ground arith in
    elim (Bool-cases (word == val)) [
      | inl t ↦ rw (a, t) (λ o. absurd (ground arith), tt, ground arith)
      | inr f ↦ rw (a, f) (λ o. o, e, c)
    ]
access_lem block word (dec_block val) h w e c = absurd e
access_lem block word wait_first h w e c = elim (Bool-cases (word == 0)) [
  | inl t ↦ rw t (λ o. refl, tt, ground arith)
  | inr f ↦ rw f (λ o. o, tt, c)
]
access_lem block word wait_loop h w e c = elim (Bool-cases (word == 0)) [
  | inl t ↦ rw t (λ o. omega arith, tt, ground arith)
  | inr f ↦ rw f (λ o. o, tt, c)
]
access_lem block word waited h w e c = (λ o. o, tt, c)

-- A thread that begins a call holds the guard before if it does after.
replace-IsSafe :
    (w : ℕ) (xs : List Thread) (t u : Thread) (ys : List Thread)
    → IsSafe (record { word = w; threads = xs ++ t ∷ ys })
    → IsEven w u
    → holds u ≡ holds t
    → has_waited u ≡ has_waited t
    → IsSafe (record { word = w; threads = xs ++ u ∷ ys })
replace-IsSafe w xs t u ys s e h k =
    let a : count holds (xs ++ u ∷ ys) ≡ count holds (xs ++ t ∷ ys) =
      omega (arith, count-append holds xs t ys, count-append holds xs u ys, h) in
    let b : count has_waited (xs ++ u ∷ ys) ≡ count has_waited (xs ++ t ∷ ys) =
      omega (arith, count-append has_waited xs t ys, count-append has_waited xs u ys, k) in
    record { even = (AreEven-split w xs t ys s.even).1 u e; counted = rw (a, b) s.counted }

-- A guard that someone holds is not active.
holder-even :
    (w : ℕ) (xs ys : List Thread)
    → IsSafe (record { word = w; threads = xs ++ holding ∷ ys })
    → w % 2 ≡ 0
holder-even w xs ys s =
    let a = count-append holds xs holding ys in
    elim s.counted [ inl c ↦ omega (arith, c.0) | inr c ↦ absurd (omega (arith, c.1, a)) ]

parity : (w : ℕ) → (w % 2 ≡ 0) ⊎ (w % 2 ≡ 1)
parity w = elim (Bool-cases (w % 2 == 0)) [
  | inl t ↦ inl (ground arith)
  | inr f ↦ inr (ground arith)
]

Step-IsSafe : {g k : Guard} → Step g k → IsSafe g → IsSafe k
Step-IsSafe (call_increment w xs ys) s =
    replace-IsSafe w xs outside (inc_test w) ys s (parity w) refl refl
Step-IsSafe (call_decrement w xs ys) s =
    replace-IsSafe w xs holding (dec_test w) ys s (holder-even w xs ys s) refl refl
Step-IsSafe (call_wait w xs ys) s = replace-IsSafe w xs outside wait_first ys s tt refl refl
Step-IsSafe (access block w xs t ys) s =
    let u = (advance block w t).1 in
    let w' = (advance block w t).0 in
    let p = AreEven-split w xs t ys s.even in
    let c = rw (count-append holds xs t ys, count-append has_waited xs t ys) at s.counted in
    let (l, e, c') =
      access_lem block w t (count holds xs + count holds ys)
        (count has_waited xs + count has_waited ys) p.0 c in
    record {
      even = AreEven-swap w w' xs t u ys l e s.even;
      counted = rw (count-append holds xs u ys, count-append has_waited xs u ys) c';
    }

Reach-IsSafe : {s g : Guard} → IsSafe s → Reach s g → IsSafe g
Reach-IsSafe h here = h
Reach-IsSafe h (next r st) = Step-IsSafe st (Reach-IsSafe h r)

-- In every interleaving of threads that start outside the guard, once some thread has returned
-- from `wait`, no thread holds the guard.
pub no_holder_after_wait :
    (n : ℕ) (g : Guard)
    → Reach (start n) g
    → count has_waited g.threads ≢ 0
    → count holds g.threads ≡ 0
no_holder_after_wait n g r w = elim (Reach-IsSafe (start-IsSafe n) r).counted [
  | inl c ↦ absurd (w c.1)
  | inr c ↦ c.1
]

-- In every interleaving of threads that start outside the guard, `m_ptr` is twice the number of
-- holders or nobody holds the guard, and no thread enters the branch of `decrement` that signals
-- the waiter.
pub word_counts_holders :
    (n : ℕ) (g : Guard)
    → Reach (start n) g
    → ((g.word ≡ 2 * count holds g.threads) ⊎ (count holds g.threads ≡ 0))
      × (count in_block g.threads ≡ 0)
word_counts_holders n g r =
    let s = Reach-IsSafe (start-IsSafe n) r in
    (elim s.counted [ inl c ↦ inl c.0 | inr c ↦ inr c.1 ], AreEven-in_block g.word g.threads s.even)
