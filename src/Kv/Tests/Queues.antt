-- ===== src/Kv/Tests/Queues.antt =====
-- The theorem on the work queue after two pushes and a pop.
use sum.Prelude.{ℕ, ◌≤◌, ◌≡◌, [], ◌∷◌, ◌++◌, List, ◌⊎◌, length}
use sum.Kv.WorkQueue.{WorkQueue, Reached, start, pushes, pops, push, pop, queue_lem}

abbrev one_left : WorkQueue
one_left = record { head = 6 ∷ []; sleeping = 0; awake = 0 }

one_left-Reached : Reached (5 ∷ 6 ∷ []) (5 ∷ []) one_left
unfolding push pop
one_left-Reached = pops (pushes 6 (pushes 5 start))

queue_lem_example :
    (◌≡◌ {A = List ℕ} (5 ∷ 6 ∷ []) ((5 ∷ []) ++ one_left.head))
    × ((one_left.sleeping ≡ 0) ⊎ (length one_left.head ≤ one_left.awake))
queue_lem_example = queue_lem one_left-Reached
