-- ===== src/Pintos/Donation.antt =====
-- Priority donation: check_to_donate, remove_donations, check_needs_donations and the part of
-- lock_acquire, lock_try_acquire and lock_release that changes locks and priorities, of
-- group1/pintos/src/threads/synch.c, and thread_set_priority of threads/thread.c. Threads and locks
-- are numbers, and the state gives each its record. Priorities are not negative. Interrupts are off in
-- all of it, so that each function is one step; the list of waiters of a semaphore and the switch to
-- another thread are left out.
pub mod Donate
pub mod Acquire
pub mod Release
use sum.Prelude.{
  ℕ, zero, suc, ◌+◌, ◌-◌, Bool, true, false, not, Option, none, some, List, [], ◌∷◌, ltb, leb, ◌==◌,
  ◌||◌, is_some, if◌then◌else◌, Run, done, fault, spin, ◌>>=◌,
}
use sum.Pintos.Bitmap.{assert}

-- `struct thread`, as far as donation uses it.
pub record Thread : Type 0 where
  pub priority : ℕ
  pub orig_priority : ℕ
  pub wait_lock : Option ℕ
  pub ordered_donations : List ℕ

-- `struct lock` with the value of its semaphore.
pub record Lock : Type 0 where
  pub holder : Option ℕ
  pub value : ℕ

pub record Sched : Type 0 where
  pub thread : ℕ → Thread
  pub lock : ℕ → Lock
  pub current : ℕ
  pub mlfqs : Bool

-- A thread, or a lock, changed.
abbrev pub with_thread : Sched → ℕ → Thread → Sched
with_thread s t x = record s { thread = λ u. if u == t then x else s.thread u }

abbrev pub with_lock : Sched → ℕ → Lock → Sched
with_lock s l x = record s { lock = λ m. if m == l then x else s.lock m }

abbrev pub with_priority : Sched → ℕ → ℕ → Sched
with_priority s t p = with_thread s t (record (s.thread t) { priority = p })

-- The holder of a lock, and the thread that a thread waits for.
abbrev pub holder_of : Sched → Option ℕ → Option ℕ
holder_of s none = none
holder_of s (some l) = (s.lock l).holder

abbrev pub waits_for : Sched → ℕ → Option ℕ
waits_for s t = holder_of s (s.thread t).wait_lock

-- The loop of check_to_donate: its counter of eight rounds is never increased.
unfoldable pub check_to_donate : ℕ → Sched → ℕ → Run Sched
check_to_donate zero s curr = spin
check_to_donate (suc fuel) s curr = elim (waits_for s curr) [
  | none ↦ done s
  | some h ↦
      let p = (s.thread curr).priority in
      let rest = check_to_donate fuel (with_priority s h p) h in
      if leb p (s.thread h).priority then done s else rest
]

-- list_insert_ordered, with the test `less` for the new element and one of the list.
abbrev pub insert_ordered : (ℕ → ℕ → Bool) → ℕ → List ℕ → List ℕ
insert_ordered less x [] = x ∷ []
insert_ordered less x (y ∷ ys) = if less x y then x ∷ y ∷ ys else y ∷ insert_ordered less x ys

abbrev pub equal_lock : Option ℕ → ℕ → Bool
equal_lock none l = false
equal_lock (some m) l = m == l

-- The loop of remove_donations.
abbrev pub without_donors : Sched → ℕ → List ℕ → List ℕ
without_donors s l [] = []
without_donors s l (t ∷ ts) =
    if equal_lock (s.thread t).wait_lock l then without_donors s l ts else t ∷ without_donors s l ts

unfoldable pub remove_donations : Sched → ℕ → Sched
remove_donations s l =
    let x = s.thread s.current in
    with_thread s s.current
      (record x { ordered_donations = without_donors s l x.ordered_donations })

-- The greater of a thread's own priority and that of its first donor.
abbrev pub donated_priority : Sched → ℕ → List ℕ → ℕ
donated_priority s own [] = own
donated_priority s own (d ∷ ds) =
    if ltb own (s.thread d).priority then (s.thread d).priority else own

unfoldable pub check_needs_donations : Sched → ℕ → Sched
check_needs_donations s t =
    let x = s.thread t in
    let s' = with_priority s t x.orig_priority in
    with_priority s t (donated_priority s' x.orig_priority x.ordered_donations)

-- lock_acquire up to sema_down: the donor is put into the list of the holder. compare_priority takes
-- the element for one of another list and so reads another field, which is why what it answers is an
-- argument.
unfoldable pub enlist : (ℕ → ℕ → Bool) → Sched → ℕ → Run Sched
enlist less s l = elim (s.lock l).holder [
  | none ↦ done s
  | some h ↦
      if h == s.current
      then fault
      else if s.mlfqs
      then done s
      else (let x = record (s.thread s.current) { wait_lock = some l } in
          let s' = with_thread s s.current x in
          let y = s'.thread h in
          done (
            with_thread s' h
              (record y { ordered_donations = insert_ordered less s.current y.ordered_donations })))
]

-- The first round of sema_down for a lock: whether the thread has the lock, or blocks.
unfoldable pub sema_down : ℕ → Sched → ℕ → Run (Bool × Sched)
unfolding check_to_donate
sema_down fuel s l =
    let x = s.lock l in
    if x.value == 0
    then if s.mlfqs
      then done (false, s)
      else (check_to_donate fuel s s.current >>= λ s'. done (false, s'))
    else done (true, with_lock s l (record x { value = x.value - 1 }))

-- The end of lock_acquire.
unfoldable pub hold : Sched → ℕ → Sched
hold s l =
    let x = record (s.thread s.current) { wait_lock = none } in
    with_lock (with_thread s s.current x) l (record (s.lock l) { holder = some s.current })

unfoldable pub lock_release : Sched → ℕ → Run Sched
unfolding remove_donations check_needs_donations
lock_release s l =
    let x = s.lock l in
    assert (equal_lock x.holder s.current) (
      let free = with_lock s l (record x { holder = none }) in
      let settled =
        if s.mlfqs then free else check_needs_donations (remove_donations free l) s.current in
      done (with_lock settled l (record (settled.lock l) { value = x.value + 1 })))

unfoldable pub lock_try_acquire : Sched → ℕ → Run (Bool × Sched)
lock_try_acquire s l =
    let x = s.lock l in
    if equal_lock x.holder s.current
    then fault
    else if x.value == 0
    then done (false, s)
    else done (true, with_lock s l (record { holder = some s.current; value = x.value - 1 }))

-- thread_set_priority of the running thread.
unfoldable pub set_priority : ℕ → Sched → ℕ → Run Sched
unfolding check_to_donate check_needs_donations
set_priority fuel s new_priority =
    let prev = (s.thread s.current).priority in
    let s1 =
      with_thread s s.current (record (s.thread s.current) { orig_priority = new_priority }) in
    let s2 = check_needs_donations s1 s.current in
    if s.mlfqs
    then done s
    else if ltb prev (s2.thread s.current).priority
    then check_to_donate fuel s2 s.current
    else done s2
