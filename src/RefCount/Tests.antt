-- ===== src/RefCount/Tests.antt =====
-- include/SkBase/IRefCounted.hxx: two pointers and two objects, by evaluation, and the theorems at
-- them.
use sketch.Base.{◌≡◌, refl, [], ◌∷◌, true, false, not, arith, inr, ◌==◌, if◌then◌else◌}
use sketch.Base.Int.{pos, negsuc, ◌-ℤ◌}
use sketch.RefCount.{Objects, decrement, release_ref, destroy, assign, lock, unlock}
use sketch.RefCount.Pointers.{IsCounted, references, assign-IsCounted, destroy-IsCounted}

-- Two pointers are at the object 8 and none at the object 16.
abbrev two_objects : Objects
two_objects = record { counter = λ p. if p == 8 then pos 2 else pos 0; live = λ p. true }

two_objects-IsCounted : IsCounted two_objects (λ q. references q (8 ∷ 8 ∷ []))
two_objects-IsCounted = record { counter = λ p z. ground arith; live = λ p z k. refl }

-- The last pointer at an object deletes it, and a persistent counter stays.
delete_run : (destroy (destroy two_objects 8) 8).live 8 ≡ false
unfolding destroy release_ref decrement ◌-ℤ◌
delete_run = refl

persistent_run : (decrement (negsuc 0)).0 ≡ negsuc 0
unfolding decrement
persistent_run = refl

lock_run : (lock (pos 1) ≡ (pos 2, true)) × (unlock (pos 2) ≡ pos 1)
unfolding lock unlock decrement ◌-ℤ◌
lock_run = (refl, refl)

assign-IsCounted_example :
    ((assign two_objects 8 16).1 ≡ 16)
    × IsCounted (assign two_objects 8 16).0 (λ q. references q (8 ∷ 16 ∷ []))
assign-IsCounted_example =
    assign-IsCounted two_objects (8 ∷ []) 8 [] 16 two_objects-IsCounted (inr refl)

destroy-IsCounted_run :
    IsCounted (destroy two_objects 8) (λ q. references q (8 ∷ []))
    × ((destroy two_objects 8).live 8 ≡ not (references 8 (8 ∷ []) == 0))
destroy-IsCounted_run =
    destroy-IsCounted two_objects (8 ∷ []) 8 [] two_objects-IsCounted (omega arith)
