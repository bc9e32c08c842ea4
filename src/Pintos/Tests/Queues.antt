-- ===== src/Pintos/Tests/Queues.antt =====
-- The theorems on interrupt queues at a queue of two bytes.
use sum.Prelude.{
  ℕ, ◌≡◌, refl, Bool, Option, none, some, [], ◌∷◌, ◌++◌, ltb, ◌==◌, if◌then◌else◌, length,
  replicate, is_some, done, arith, not,
}
use sum.Pintos.Intq.{Intq, getc, putc}
use sum.Pintos.Intq.Fifo.{contents, putc_lem, getc_lem, IsIntq}

abbrev queue : Intq
queue = record {
  not_full = none;
  not_empty = some 3;
  buf = 7 ∷ replicate 62 0 ++ (9 ∷ []);
  head = 1;
  tail = 63;
}

queue-IsIntq : IsIntq queue
queue-IsIntq = record { size = refl; head = omega arith; tail = omega arith }

putc_lem_example :
    (ok : Bool) × (woken : Option ℕ) × (q' : Intq) × (putc (some 4) queue 5 ≡ done (ok, woken, q'))
    × (ok ≡ ltb (length (contents queue)) 63)
    × (contents q' ≡ (if ok then contents queue ++ (5 ∷ []) else contents queue))
    × (woken ≡ (if ok then queue.not_empty else none))
    × (q'.not_full ≡ (if ok then queue.not_full else some 4))
    × IsIntq q'
putc_lem_example = putc_lem queue 4 5 queue-IsIntq

getc_lem_example :
    (byte : Option ℕ) × (woken : Option ℕ) × (q' : Intq) × (getc (some 4) queue
      ≡ done (byte, woken, q'))
    × (is_some byte ≡ not (length (contents queue) == 0))
    × (contents queue ≡ elim byte [ none ↦ contents q' | some x ↦ x ∷ contents q' ])
    × (woken ≡ (if is_some byte then queue.not_full else none))
    × (q'.not_empty ≡ (if is_some byte then queue.not_empty else some 4))
    × IsIntq q'
getc_lem_example = getc_lem queue 4 queue-IsIntq
