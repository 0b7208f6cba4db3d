-- ===== src/IntrusiveList/Tests.antt =====
-- include/SkBase/IntrusiveList.hxx: a list of three nodes, by evaluation, and the theorems at it.
use sketch.Base.{◌+◌, ◌≡◌, refl, [], ◌∷◌, some, true, arith, ◌==◌, if◌then◌else◌}
use sketch.IntrusiveList.{
  Links, make, add, remove, push_front, push_back, erase, pull_front, pull_back, exists,
}
use sketch.IntrusiveList.Refine.{
  Holds, push-Holds, erase-Holds, pull_front-Holds, pull_back-Holds, exists-contains,
}

-- The elements at 20, 30 and 40, with the root at 10.
abbrev three_nodes : Links
three_nodes = record {
  next = λ i. if i == 40 then 10 else i + 10;
  prev = λ i. if i == 10 then 40 else (if i == 20 then 10 else if i == 30 then 20 else 30);
  root = 10;
  size = 3;
}

three_nodes-Holds : Holds three_nodes (20 ∷ 30 ∷ 40 ∷ [])
three_nodes-Holds = record {
  apart = refl;
  linked = (refl, refl, (refl, refl, (refl, refl, (refl, refl))));
  counted = refl;
}

-- A list is taken apart from both ends.
pull_run :
    (pull_back (pull_front (push_back (push_front (make (λ _. 0) (λ _. 0) 10) 20) 30)).0).1
    ≡ some 30
unfolding make push_front push_back add pull_front pull_back erase remove
pull_run = refl

push-Holds_run :
    Holds (push_front three_nodes 50) (50 ∷ 20 ∷ 30 ∷ 40 ∷ [])
    × Holds (push_back three_nodes 50) (20 ∷ 30 ∷ 40 ∷ 50 ∷ [])
push-Holds_run = push-Holds three_nodes (20 ∷ 30 ∷ 40 ∷ []) three_nodes-Holds 50 (omega arith) refl

erase-Holds_example :
    Holds (erase three_nodes 30) (20 ∷ 40 ∷ [])
    × ((erase three_nodes 30).next 30 ≡ 0)
    × ((erase three_nodes 30).prev 30 ≡ 0)
erase-Holds_example = erase-Holds three_nodes (20 ∷ []) 30 (40 ∷ []) three_nodes-Holds

pull_front-Holds_example :
    (out : Links) × (pull_front three_nodes ≡ (out, some 20)) × Holds out (30 ∷ 40 ∷ [])
pull_front-Holds_example = pull_front-Holds three_nodes 20 (30 ∷ 40 ∷ []) three_nodes-Holds

pull_back-Holds_example :
    (out : Links) × (pull_back three_nodes ≡ (out, some 40)) × Holds out (20 ∷ 30 ∷ [])
pull_back-Holds_example = pull_back-Holds three_nodes (20 ∷ 30 ∷ []) 40 three_nodes-Holds

exists-contains_example : exists three_nodes 30 ≡ some true
exists-contains_example = exists-contains three_nodes (20 ∷ 30 ∷ 40 ∷ []) 30 three_nodes-Holds
