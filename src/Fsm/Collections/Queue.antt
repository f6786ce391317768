-- ===== src/Fsm/Collections/Queue.antt =====
-- `Queue<T>` of src/fsm.rs: a struct around one `VecDeque<T>`, the first element at the head.
use ru_fsm.Common.{Bool, true, false, List, [], ◌∷◌, ◌++◌, Run, ok, panic}

module _ {ℓ} {T : Type ℓ} where
  unfoldable pub enqueue : List T → T → List T
  enqueue q e = q ++ (e ∷ [])

  -- The element with the queue that is left; `pop_front().unwrap()` panics on the empty queue.
  unfoldable pub dequeue : List T → Run (T × List T)
  dequeue [] = panic
  dequeue (e ∷ q) = ok (e, q)

  unfoldable pub is_empty : List T → Bool
  is_empty [] = true
  is_empty (e ∷ q) = false
