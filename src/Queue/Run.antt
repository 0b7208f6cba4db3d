-- ===== src/Queue/Run.antt =====
-- include/SkBase/Queue.hxx: sequences of calls of `push` and `pop`.
use sketch.Base.{ℕ, ◌≡◌, refl, List, [], ◌∷◌, Option, some, ap, ap₂, ◌∙◌}
use mathlib.Core.Option
use sketch.Queue
use sketch.Queue.{Queue}
use sketch.Queue.Fifo
use sketch.Queue.Fifo.{Op, Answer, put, get}
use sketch.Queue.Refine.{IsValid, contents, push-put, pop-get}

module _ (hash : ℕ → ℕ) where
  -- One call and its answer; `none` if it does not end.
  unfoldable pub call : Queue → Op → Option (Answer × Queue)
  call q (Fifo.push p) = Option.map (λ r. (Fifo.taken r.1, r.0)) (Queue.push hash q p)
  call q Fifo.pop = Option.map (λ r. (Fifo.given r.1, r.0)) (Queue.pop hash q)

  -- A sequence of calls and their answers.
  unfoldable pub run : Queue → List Op → Option (List Answer × Queue)
  run q [] = some ([], q)
  run q (op ∷ ops) = Option.bind (call q op) (λ r. Option.map (λ s. (r.0 ∷ s.0, s.1)) (run r.1 ops))

  run_lem :
      (ops : List Op) (q : Queue) (c : ℕ) (xs : List ℕ)
      → IsValid hash q
      → q.capacity ≡ c
      → contents q ≡ xs
      → (out : Queue) × (run q ops ≡ some ((Fifo.run c xs ops).0, out))
        × IsValid hash out
        × (contents out ≡ (Fifo.run c xs ops).1)
  unfolding run call Fifo.run Option.bind
  run_lem [] q c xs v a b = (q, refl, v, b)
  run_lem (Fifo.push p ∷ ops) q c xs v a b =
      let s = push-put hash q v p in
      let t : put q.capacity (contents q) p ≡ put c xs p = ap₂ (λ n l. put n l p) a b in
      let e : Queue.push hash q p ≡ some (s.0, (put c xs p).1) = rw t at s.1 in
      let r = run_lem ops s.0 c (put c xs p).0 s.2 (s.3 ∙ a) (s.4 ∙ ap (λ o. o.0) t) in
      (r.0, rw (e, r.1), r.2, r.3)
  run_lem (Fifo.pop ∷ ops) q c xs v a b =
      let s = pop-get hash q v in
      let e : Queue.pop hash q ≡ some (s.0, (get xs).1) = rw b at s.1 in
      let r = run_lem ops s.0 c (get xs).0 s.2 (s.3 ∙ a) (s.4 ∙ ap (λ l. (get l).0) b) in
      (r.0, rw (e, r.1), r.2, r.3)

  -- From a valid queue every sequence of calls ends, and gives the answers that the bounded list
  -- of pointers gives; the queue is valid after it, and holds what the list holds.
  pub run-Fifo :
      (ops : List Op) (q : Queue)
      → IsValid hash q
      → (out : Queue) × (run q ops ≡ some ((Fifo.run q.capacity (contents q) ops).0, out))
        × IsValid hash out
        × (contents out ≡ (Fifo.run q.capacity (contents q) ops).1)
  run-Fifo ops q v = run_lem ops q q.capacity (contents q) v refl refl
