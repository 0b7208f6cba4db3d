-- ===== src/Strings/Held.antt =====
-- include/SkBase/String.hxx: the counters of shared data against the strings there are.
use sketch.Base.{
  ℕ, ◌+◌, ◌≤◌, ◌≡◌, ◌≢◌, refl, sym, ap, ◌∙◌, arith, List, [], false, ◌==◌, length, length-append,
  Bool-cases, inl, inr,
}
use sketch.Base.Int.{pos, negsuc, ◌-ℤ◌}
use sketch.RefCount.{Objects, decrement, release_ref, unlock}
use sketch.RefCount.Pointers.{IsCounted, more, fewer, release_ref-IsCounted, recount}
use sketch.Strings.Store.{Store, drop, allocate, append_in_place}

-- `n p` strings are at the data at `p`: the counters agree, the static data is the empty text, and
-- the text of a string and its '\0' fit
pub record IsHeld (s : Store) (n : ℕ → ℕ) : Type 0 where
  pub counted : IsCounted s.objects n
  pub static : s.objects.counter 0 ≡ negsuc 0
  pub blank : s.text 0 ≡ []
  pub fixed : s.capacity 0 ≡ 0
  pub room : (p : ℕ) → p ≢ 0 → n p ≢ 0 → length (s.text p) + 1 ≤ s.capacity p

persistent_release : decrement (negsuc 0) ≡ (negsuc 0, pos 1)
unfolding decrement
persistent_release = refl

release_static :
    (o : Objects) (n : ℕ → ℕ)
    → o.counter 0 ≡ negsuc 0
    → IsCounted o n
    → IsCounted (release_ref o 0) n × ((release_ref o 0).counter 0 ≡ negsuc 0)
unfolding release_ref
release_static o n e h =
    let d : decrement (o.counter 0) ≡ (negsuc 0, pos 1) =
      ap (λ c. decrement c) e ∙ persistent_release in
    (
      record {
        counter = λ q z. let f : (0 == q) ≡ false = ground arith in rw (d, f) (h.counter q z);
        live = λ q z k. rw d (h.live q z k);
      },
      rw d refl,
    )

release_others : (o : Objects) (p : ℕ) → p ≢ 0 → (release_ref o p).counter 0 ≡ o.counter 0
unfolding release_ref
release_others o p z = let f : (p == 0) ≡ false = ground arith in rw f refl

-- A string destroyed
pub drop-IsHeld :
    (s : Store) (n : ℕ → ℕ) (p : ℕ) → IsHeld s n → n p ≢ 0 → IsHeld (drop s p) (fewer p n)
unfolding drop
drop-IsHeld s n p h k = elim (Bool-cases (p == 0)) [
  | inl t ↦
      let r = release_static s.objects n h.static h.counted in
      let e : p ≡ 0 = ground arith in
      record {
        counted = rw e (
            recount (release_ref s.objects 0) n (fewer 0 n)
              (λ q z. let f : (0 == q) ≡ false = ground arith in rw f (omega arith)) r.0);
        static = rw e (r.1);
        blank = h.blank;
        fixed = h.fixed;
        room = λ q z m. h.room q z (omega arith);
      }
  | inr f ↦
      let e : p ≢ 0 = ground arith in
      record {
        counted = (release_ref-IsCounted s.objects n p h.counted e k).0;
        static = release_others s.objects p e ∙ h.static;
        blank = h.blank;
        fixed = h.fixed;
        room = λ q z m. h.room q z (omega arith);
      }
]

-- New data
pub allocate-IsHeld :
    (s : Store) (n : ℕ → ℕ) (a : ℕ) (units : List ℕ) (c : ℕ)
    → IsHeld s n
    → a ≢ 0
    → n a ≡ 0
    → length units + 1 ≤ c
    → IsHeld (allocate s a units c) (more a n)
unfolding allocate
allocate-IsHeld s n a units c h z k fit =
    let f : (a == 0) ≡ false = ground arith in
    record {
      counted = record {
        counter = λ q w. elim (Bool-cases (a == q)) [
          | inl t ↦ let e : a ≡ q = ground arith in rw (t, ← e, k) refl
          | inr t ↦ rw t (h.counted.counter q w ∙ ap pos (omega arith))
        ];
        live = λ q w m. elim (Bool-cases (a == q)) [
          | inl t ↦ rw t refl
          | inr t ↦ rw t (h.counted.live q w (ground arith))
        ];
      };
      static = rw f (h.static);
      blank = rw f (h.blank);
      fixed = rw f (h.fixed);
      room = λ q w m. elim (Bool-cases (a == q)) [
        | inl t ↦ rw t fit
        | inr t ↦ rw t (h.room q w (ground arith))
      ];
    }

unlock_two : unlock (pos 2) ≡ pos 1
unfolding unlock decrement ◌-ℤ◌
unlock_two = refl

pub in_place-IsHeld :
    (s : Store) (n : ℕ → ℕ) (p : ℕ) (u16 : List ℕ)
    → IsHeld s n
    → p ≢ 0
    → s.objects.counter p ≡ pos 1
    → length (s.text p) + length u16 + 1 ≤ s.capacity p
    → IsHeld (append_in_place s p u16 (pos 2)) n
unfolding append_in_place
in_place-IsHeld s n p u16 h z c fit =
    let f : (p == 0) ≡ false = ground arith in
    record {
      counted = record {
        counter = λ q w. elim (Bool-cases (p == q)) [
          | inl t ↦
              let e : p ≡ q = ground arith in
              rw t (unlock_two ∙ sym c ∙ ap s.objects.counter e ∙ h.counted.counter q w)
          | inr t ↦ rw t (h.counted.counter q w)
        ];
        live = h.counted.live;
      };
      static = rw f (h.static);
      blank = rw f (h.blank);
      fixed = h.fixed;
      room = λ q w m. elim (Bool-cases (p == q)) [
        | inl t ↦
            let e : p ≡ q = ground arith in
            rw t (omega (arith, length-append (s.text p) u16, ap s.capacity e))
        | inr t ↦ rw t (h.room q w m)
      ];
    }
