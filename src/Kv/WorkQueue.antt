-- ===== src/Kv/WorkQueue.antt =====
-- The work queue between the threads of a server (group1/kvstore/src/server/wq.c): wq_init, wq_push
-- and wq_pop. Each step is what one thread does while it holds the lock. The list of utlist.h is the
-- list of the items from the head on, and an item is its address.
use sum.Prelude.{
  ℕ, ◌+◌, ◌-◌, ◌≤◌, ◌<◌, ◌≡◌, refl, Option, none, some, List, [], ◌∷◌, ◌++◌, ◌⊎◌, inl, inr, ◌==◌,
  if◌then◌else◌, length, length-append, arith, Bool-cases, sym, ◌∙◌, ap,
}
use mathlib.Core.List.{append_assoc}

-- `wq_t`: the list, the threads that sleep in pthread_cond_wait, and those that were woken and have
-- not yet taken the lock again.
pub record WorkQueue : Type 0 where
  pub head : List ℕ
  pub sleeping : ℕ
  pub awake : ℕ

abbrev pub init : WorkQueue
init = record { head = []; sleeping = 0; awake = 0 }

-- wq_push, with the signal to one sleeping thread.
unfoldable pub push : WorkQueue → ℕ → WorkQueue
push w x =
    let w' : WorkQueue = record w { head = w.head ++ x ∷ [] } in
    if w.sleeping == 0 then w' else record w' { sleeping = w.sleeping - 1; awake = w.awake + 1 }

-- The test of the loop of wq_pop by a thread that has the lock: it takes the item at the head, or
-- goes to sleep.
unfoldable pub pop : WorkQueue → Option ℕ × WorkQueue
pop w = elim w.head [
  | [] ↦ (none, record w { sleeping = w.sleeping + 1 })
  | x ∷ r ↦ (some x, record w { head = r })
]

-- A woken thread takes the lock again.
abbrev pub relock : WorkQueue → WorkQueue
relock w = record w { awake = w.awake - 1 }

abbrev pub taken : List ℕ → Option ℕ → List ℕ
taken out none = out
taken out (some x) = out ++ x ∷ []

-- The states that threads can bring about, with the items pushed and the items taken so far, each in
-- order. A thread may also wake up without a signal.
pub data Reached : List ℕ → List ℕ → WorkQueue → Type 0 where
  start : Reached [] [] init
  pushes :
      {into out : List ℕ} {w : WorkQueue} (x : ℕ)
      → Reached into out w
      → Reached (into ++ x ∷ []) out (push w x)
  pops :
      {into out : List ℕ} {w : WorkQueue}
      → Reached into out w
      → Reached into (taken out (pop w).0) (pop w).1
  wakes :
      {into out : List ℕ} {w : WorkQueue}
      → 0 < w.sleeping
      → Reached into out w
      → Reached into out (record w { sleeping = w.sleeping - 1; awake = w.awake + 1 })
  resumes :
      {into out : List ℕ} {w : WorkQueue}
      → 0 < w.awake
      → Reached into out w
      → Reached into (taken out (pop (relock w)).0) (pop (relock w)).1

taken-head :
    (l out : List ℕ) (s a : ℕ)
    → let w : WorkQueue = record { head = l; sleeping = s; awake = a } in
      out ++ l ≡ taken out (pop w).0 ++ (pop w).1.head
unfolding pop
taken-head [] out s a = refl
taken-head (x ∷ r) out s a = sym (append_assoc out (x ∷ []) r)

push-head : (w : WorkQueue) (x : ℕ) → (push w x).head ≡ w.head ++ x ∷ []
unfolding push
push-head w x = ground arith

-- First in, first out.
fifo : {into out : List ℕ} {w : WorkQueue} → Reached into out w → into ≡ out ++ w.head
fifo start = refl
fifo (pushes {into} {out} {w} x r) =
    ap (λ l. l ++ x ∷ []) (fifo r)
    ∙ append_assoc out w.head (x ∷ [])
    ∙ ap (λ l. out ++ l) (sym (push-head w x))
fifo (pops {into} {out} {w} r) = fifo r ∙ taken-head w.head out w.sleeping w.awake
fifo (wakes h r) = fifo r
fifo (resumes {into} {out} {w} h r) = fifo r ∙ taken-head w.head out w.sleeping (w.awake - 1)

-- No thread sleeps on while there is more work than woken threads.
abbrev Served : WorkQueue → Type 0
Served w = (w.sleeping ≡ 0) ⊎ (length w.head ≤ w.awake)

push-Served : (w : WorkQueue) (x : ℕ) → Served w → Served (push w x)
unfolding push
push-Served w x (inl none_sleeps) = inl (ground arith)
push-Served w x (inr enough) = elim (Bool-cases (w.sleeping == 0)) [
  | inl none_sleeps ↦ inl (ground arith)
  | inr some_sleep ↦ inr (ground (arith, length-append w.head (x ∷ [])))
]

pop-Served :
    (l : List ℕ) (s a : ℕ)
    → (s ≡ 0) ⊎ (length l ≤ a + 1)
    → Served (pop (record { head = l; sleeping = s; awake = a })).1
unfolding pop
pop-Served [] s a h = inr (omega arith)
pop-Served (x ∷ r) s a (inl none_sleeps) = inl none_sleeps
pop-Served (x ∷ r) s a (inr enough) = inr (omega arith)

served : {into out : List ℕ} {w : WorkQueue} → Reached into out w → Served w
served start = inl refl
served (pushes {into} {out} {w} x r) = push-Served w x (served r)
served (pops {into} {out} {w} r) =
    pop-Served w.head w.sleeping w.awake
      (elim (served r) [ inl none_sleeps ↦ inl none_sleeps | inr enough ↦ inr (omega arith) ])
served (wakes {into} {out} {w} h r) = elim (served r) [
  | inl none_sleeps ↦ absurd (omega arith)
  | inr enough ↦ inr (omega arith)
]
served (resumes {into} {out} {w} h r) =
    pop-Served w.head w.sleeping (w.awake - 1)
      (elim (served r) [ inl none_sleeps ↦ inl none_sleeps | inr enough ↦ inr (omega arith) ])

-- Whatever threads push, take, sleep and wake, with or without a signal: the items pushed are the
-- items taken followed by those in the queue, in order, so that each is taken once; and if a
-- thread sleeps, there are no more items than woken threads.
pub queue_lem :
    {into out : List ℕ} {w : WorkQueue}
    → Reached into out w
    → (into ≡ out ++ w.head) × ((w.sleeping ≡ 0) ⊎ (length w.head ≤ w.awake))
queue_lem r = (fifo r, served r)
