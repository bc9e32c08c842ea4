-- ===== src/Pintos/Alarm.antt =====
-- The alarm of group1/pintos/src/devices/timer.c: timer_sleep and the end of timer_interrupt, with
-- thread_unblock of threads/thread.c. Sleeping threads are numbers with their time to wake.
-- timer_sleep keeps the number of ticks in an `int`, which is negative from 2^31 ticks on, so a time
-- to wake, an `int64_t` that may be negative, stands here with 2^31 added. Interrupts are off in
-- both functions. What timer_interrupt does for the advanced scheduler is left out.
pub mod Order
pub mod OnTime
use sum.Prelude.{
  ℕ, zero, suc, ◌+◌, ◌%◌, ◌^◌, Bool, true, false, List, [], ◌∷◌, ltb, leb, ◌==◌, if◌then◌else◌,
}
use sum.Pintos.Donation.{insert_ordered}

pub record Sleeper : Type 0 where
  pub tid : ℕ
  pub wakeup_tick : ℕ

pub record Timer : Type 0 where
  pub ticks : ℕ
  pub threads_to_wakeup : List Sleeper
  pub ready_list : List ℕ

-- list_insert_ordered with compare_threads_by_wakeup_time.
abbrev pub insert_sleeper : Sleeper → List Sleeper → List Sleeper
insert_sleeper e [] = e ∷ []
insert_sleeper e (x ∷ xs) =
    if leb e.wakeup_tick x.wakeup_tick then e ∷ x ∷ xs else x ∷ insert_sleeper e xs

-- `int start_ticks`, and the number of ticks that a time to wake is compared with, both with 2^31
-- added.
unfoldable pub start_ticks : Timer → ℕ
start_ticks t = (t.ticks + 2 ^ 31) % 2 ^ 32

abbrev pub ticks_now : Timer → ℕ
ticks_now t = t.ticks + 2 ^ 31

-- timer_sleep of a thread for a number of ticks; the thread blocks.
unfoldable pub sleep : Timer → ℕ → ℕ → Timer
unfolding start_ticks
sleep t tid ticks = if ticks == 0 then t else record t {
  threads_to_wakeup =
      insert_sleeper (record { tid = tid; wakeup_tick = start_ticks t + ticks })
        t.threads_to_wakeup;
}

module _ (priority : ℕ → ℕ) where
  -- compare_priority
  abbrev pub compare_priority : ℕ → ℕ → Bool
  compare_priority a b = ltb (priority b) (priority a)

  -- thread_unblock
  abbrev pub unblock : Timer → ℕ → Timer
  unblock t tid = record t { ready_list = insert_ordered compare_priority tid t.ready_list }

  -- The loop of timer_interrupt over the list of sleepers.
  unfoldable pub wake : List Sleeper → Timer → Timer
  wake [] t = record t { threads_to_wakeup = [] }
  wake (e ∷ es) t =
      let rest = wake es (unblock t e.tid) in
      if ltb (ticks_now t) e.wakeup_tick then record t { threads_to_wakeup = e ∷ es } else rest

  unfoldable pub interrupt : Timer → Timer
  unfolding wake
  interrupt t = wake t.threads_to_wakeup (record t { ticks = t.ticks + 1 })

  -- Several interrupts in a row.
  abbrev pub interrupts : ℕ → Timer → Timer
  interrupts zero t = t
  interrupts (suc n) t = interrupts n (interrupt t)
