-- ===== src/Pintos/Tests/Schedules.antt =====
-- The theorems on donation and on the alarm at concrete states.
use sum.Prelude.{ℕ, ◌+◌, ◌^◌, ◌≤◌, ◌≡◌, refl, true, false, some, [], ◌∷◌, ltb, done, arith, leb}
use sum.Pintos.Alarm.{Timer, sleep, interrupts}
use sum.Pintos.Alarm.OnTime.{is_asleep, sleep-interrupts}
use sum.Pintos.Donation.{Sched, waits_for, check_to_donate, enlist, sema_down}
use sum.Pintos.Donation.Acquire.{sema_down-IsDonated}
use sum.Pintos.Donation.Donate.{memb, priority_of, IsDonated, Raised, check_to_donate_lem}
use sum.Pintos.Tests.Waits.{
  sched, third_waits, threads, sched-IsClosed, sched-IsDonated, third_waits-IsDonatedBut,
}

-- A thread that sleeps until the tick 12.
abbrev timer : Timer
timer = record {
  ticks = 10;
  threads_to_wakeup = record { tid = 4; wakeup_tick = 12 + 2 ^ 31 } ∷ [];
  ready_list = 6 ∷ [];
}

check_to_donate_lem_example :
    (s' : Sched) × (check_to_donate 4 third_waits 2 ≡ done s')
    × IsDonated s'
    × Raised third_waits s' (priority_of third_waits 2)
check_to_donate_lem_example =
    check_to_donate_lem 4 threads third_waits 2 sched-IsClosed (omega arith)
      third_waits-IsDonatedBut

sema_down-IsDonated_example :
    (s1 : Sched) × (s2 : Sched) × (enlist (λ a b. true) sched 1 ≡ done s1)
    × (sema_down 4 s1 1 ≡ done (false, s2))
    × IsDonated s2
    × (waits_for s2 sched.current ≡ some 1)
    × ((u : ℕ) → priority_of sched u ≤ priority_of s2 u)
sema_down-IsDonated_example =
    sema_down-IsDonated 4 threads (λ a b. true) sched 1 1 sched-IsClosed (omega arith)
      sched-IsDonated refl refl refl refl

sleep-interrupts_example :
    (memb (interrupts (λ u. u) 4 (sleep timer 5 3)).ready_list 5 ≡ leb 3 4)
    × (is_asleep (interrupts (λ u. u) 4 (sleep timer 5 3)).threads_to_wakeup 5 ≡ ltb 4 3)
sleep-interrupts_example =
    sleep-interrupts (λ u. u) timer 5 3 4 (tt, tt) refl refl (omega arith) (omega arith)
      (omega arith) (omega arith) (omega arith)
