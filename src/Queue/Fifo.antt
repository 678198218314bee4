-- ===== src/Queue/Fifo.antt =====
-- A client's calls of the queue, against a plain list.
use why.Base.{
  ◌+◌, ◌^◌, ◌≤◌, ◌≡◌, refl, List, [], ◌∷◌, ◌++◌, arith, length, length-append, Outcome, ok, stop,
  aborts, ◌>>=◌,
}
use why.Queue.{Queue, queue_push, queue_pop}
use why.Queue.Refine.{Holds, queue_push-Holds, queue_pop-Holds, queue_pop-nil}

pub data Op {ℓ} (A : Type ℓ) : Type ℓ where
  push : A → Op A
  pop : Op A

module _ {ℓ} {A : Type ℓ} where
  -- The elements that the calls return, in order.
  unfoldable pub run : Queue A → List (Op A) → Outcome (List A)
  run q [] = ok []
  run q (push x ∷ ops) = do q' ← queue_push q x; run q' ops
  run q (pop ∷ ops) = do r ← queue_pop q; rest ← run r.1 ops; ok (r.0 ∷ rest)

  -- The same calls on a list: the first in is the first out, and an empty queue is an error.
  unfoldable pub run_list : List A → List (Op A) → Outcome (List A)
  run_list xs [] = ok []
  run_list xs (push x ∷ ops) = run_list (xs ++ (x ∷ [])) ops
  run_list [] (pop ∷ ops) = stop aborts
  run_list (x ∷ xs) (pop ∷ ops) = do rest ← run_list xs ops; ok (x ∷ rest)

  -- No sequence of calls tells the ring from the list of what it holds, as long as at most 2 ^ 30
  -- elements are in it or pushed: the same elements come out, and it stops at the same call.
  pub run_refines :
      (q : Queue A) (xs : List A) (ops : List (Op A))
      → Holds q xs
      → length xs + length ops ≤ 2 ^ 30
      → run q ops ≡ run_list xs ops
  unfolding run run_list
  run_refines q xs [] h room = refl
  run_refines q xs (push x ∷ ops) h room =
      let (q', e, h') = queue_push-Holds q x xs (omega arith) h in
      rw e (run_refines q' (xs ++ (x ∷ [])) ops h' (omega (arith, length-append xs (x ∷ []))))
  run_refines q [] (pop ∷ ops) h room = rw (queue_pop-nil q h)
  run_refines q (x ∷ xs) (pop ∷ ops) h room =
      let (q', e, h') = queue_pop-Holds q x xs h in rw (e, run_refines q' xs ops h' (omega arith))
