-- ===== src/Pintos/Donation/Release.antt =====
-- lock_release of threads/synch.c, with remove_donations and check_needs_donations.
use sum.Prelude.{ℕ, ◌+◌, ◌≡◌, true, none, List, [], All}
use sum.Pintos.Donation.{Sched, with_thread, with_lock, equal_lock}

-- Every donor of a thread waits for the lock.
abbrev pub AllWait : Sched → ℕ → List ℕ → Type 0
AllWait s l ts = All (λ t. equal_lock (s.thread t).wait_lock l ≡ true) ts

-- The state after the release.
abbrev pub released : Sched → ℕ → Sched
released s l =
    let x = s.thread s.current in
    with_lock
      (with_thread s s.current (record x { priority = x.orig_priority; ordered_donations = [] })) l
      (record { holder = none; value = (s.lock l).value + 1 })
