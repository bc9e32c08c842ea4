-- ===== src/Pintos/Alarm/Order.antt =====
-- The list threads_to_wakeup of devices/timer.c: its order, and what the loop of timer_interrupt takes
-- from it.
use sum.Prelude.{
  ℕ, ◌+◌, ◌^◌, ◌≤◌, ◌<◌, ◌≡◌, refl, Bool, true, false, List, [], ◌∷◌, ltb, leb, ◌==◌, ◌&&◌, subst,
  if◌then◌else◌, arith, ap, ◌∙◌, sym, Bool-cases, inl, inr, All,
}
use sum.Pintos.Donation.{insert_ordered}
use sum.Pintos.Donation.Donate.{memb}
use sum.Pintos.Alarm.{
  Sleeper, Timer, insert_sleeper, sleep, compare_priority, unblock, wake, interrupt, start_ticks,
  ticks_now,
}

-- Each time is at most every later one.
abbrev pub IsAtLeast : ℕ → List Sleeper → Type 0
IsAtLeast k es = All (λ (e : Sleeper). k ≤ e.wakeup_tick) es

abbrev pub IsSorted : List Sleeper → Type 0
IsSorted [] = Unit
IsSorted (e ∷ es) = IsAtLeast e.wakeup_tick es × IsSorted es

IsAtLeast-le : (j k : ℕ) (es : List Sleeper) → j ≤ k → IsAtLeast k es → IsAtLeast j es
IsAtLeast-le j k [] le h = h
IsAtLeast-le j k (e ∷ es) le (first, rest) = (omega arith, IsAtLeast-le j k es le rest)

insert-IsAtLeast :
    (k : ℕ) (e : Sleeper) (es : List Sleeper)
    → k ≤ e.wakeup_tick
    → IsAtLeast k es
    → IsAtLeast k (insert_sleeper e es)
insert-IsAtLeast k e [] le h = (le, h)
insert-IsAtLeast k e (x ∷ xs) le (first, rest) =
    elim (Bool-cases (leb e.wakeup_tick x.wakeup_tick)) [
      | inl before ↦ rw before (le, (first, rest))
      | inr after ↦ rw after (first, insert-IsAtLeast k e xs le rest)
    ]

insert-IsSorted : (e : Sleeper) (es : List Sleeper) → IsSorted es → IsSorted (insert_sleeper e es)
insert-IsSorted e [] h = (h, h)
insert-IsSorted e (x ∷ xs) (first, rest) = elim (Bool-cases (leb e.wakeup_tick x.wakeup_tick)) [
  | inl before ↦
      let le : e.wakeup_tick ≤ x.wakeup_tick = ground (arith, before) in
      rw before ((le, IsAtLeast-le e.wakeup_tick x.wakeup_tick xs le first), (first, rest))
  | inr after ↦
      rw after (
        insert-IsAtLeast x.wakeup_tick e xs (ground (arith, after)) first,
        insert-IsSorted e xs rest,
      )
]

pub sleep-IsSorted :
    (t : Timer) (tid ticks : ℕ)
    → IsSorted t.threads_to_wakeup
    → IsSorted (sleep t tid ticks).threads_to_wakeup
unfolding sleep
sleep-IsSorted t tid ticks h = elim (Bool-cases (ticks == 0)) [
  | inl at_once ↦ rw at_once h
  | inr later ↦ rw later (
      insert-IsSorted (record { tid = tid; wakeup_tick = start_ticks t + ticks })
        t.threads_to_wakeup h)
]

-- The sleepers that are not due, and the threads of those that are.
abbrev pub asleep : ℕ → List Sleeper → List Sleeper
asleep now [] = []
asleep now (e ∷ es) = if ltb now e.wakeup_tick then e ∷ asleep now es else asleep now es

abbrev pub is_due : ℕ → List Sleeper → ℕ → Bool
is_due now [] u = false
is_due now (e ∷ es) u = if leb e.wakeup_tick now && e.tid == u then true else is_due now es u

asleep-all : (now k : ℕ) (es : List Sleeper) → now < k → IsAtLeast k es → asleep now es ≡ es
asleep-all now k [] lt h = refl
asleep-all now k (e ∷ es) lt (first, rest) =
    let early : ltb now e.wakeup_tick ≡ true = ground arith in
    rw early (ap (λ xs. e ∷ xs) (asleep-all now k es lt rest))

none-due : (now k u : ℕ) (es : List Sleeper) → now < k → IsAtLeast k es → is_due now es u ≡ false
none-due now k u [] lt h = refl
none-due now k u (e ∷ es) lt (first, rest) = ground (arith, none-due now k u es lt rest)

memb-insert_ordered :
    (less : ℕ → ℕ → Bool) (x u : ℕ) (ys : List ℕ)
    → memb (insert_ordered less x ys) u ≡ (if x == u then true else memb ys u)
memb-insert_ordered less x u [] = refl
memb-insert_ordered less x u (y ∷ ys) = elim (Bool-cases (less x y)) [
  | inl before ↦ rw before refl
  | inr after ↦ rw after (ground (arith, memb-insert_ordered less x u ys))
]

-- What the loop makes of a list of sleepers.
abbrev pub Woken : List Sleeper → Timer → Timer → Type 0
Woken es t t' =
    (t'.ticks ≡ t.ticks)
    × (t'.threads_to_wakeup ≡ asleep (ticks_now t) es)
    × ((u : ℕ)
        → memb t'.ready_list u ≡ (if is_due (ticks_now t) es u then true else memb t.ready_list u))

wake-early :
    (priority : ℕ → ℕ) (e : Sleeper) (es : List Sleeper) (t : Timer)
    → ltb (ticks_now t) e.wakeup_tick ≡ true
    → wake priority (e ∷ es) t ≡ record t { threads_to_wakeup = e ∷ es }
unfolding wake
wake-early priority e es t early = rw early refl

wake-due :
    (priority : ℕ → ℕ) (e : Sleeper) (es : List Sleeper) (t : Timer)
    → ltb (ticks_now t) e.wakeup_tick ≡ false
    → wake priority (e ∷ es) t ≡ wake priority es (unblock priority t e.tid)
unfolding wake
wake-due priority e es t due = rw due refl

wake-Woken :
    (priority : ℕ → ℕ) (es : List Sleeper) (t : Timer)
    → IsSorted es
    → Woken es t (wake priority es t)
unfolding wake
wake-Woken priority [] t h = (refl, refl, λ u. refl)
wake-Woken priority (e ∷ es) t (first, rest) = elim (Bool-cases (ltb (ticks_now t) e.wakeup_tick)) [
  | inl early ↦
      let later : ticks_now t < e.wakeup_tick = ground (arith, early) in
      subst (Woken (e ∷ es) t) (sym (wake-early priority e es t early)) (
        refl,
        sym (asleep-all (ticks_now t) e.wakeup_tick (e ∷ es) later (omega arith, first)),
        λ u. sym (
            ap (λ b. if b then true else memb t.ready_list u)
              (none-due (ticks_now t) e.wakeup_tick u (e ∷ es) later (omega arith, first))),
      )
  | inr due ↦
      let (same, left, ready) = wake-Woken priority es (unblock priority t e.tid) rest in
      subst (Woken (e ∷ es) t) (sym (wake-due priority e es t due)) (
        same,
        left ∙ sym (rw due refl),
        λ u.
            ready u
            ∙ ground
                (arith, due, memb-insert_ordered (compare_priority priority) e.tid u t.ready_list),
      )
]

asleep-IsAtLeast : (now k : ℕ) (es : List Sleeper) → IsAtLeast k es → IsAtLeast k (asleep now es)
asleep-IsAtLeast now k [] h = h
asleep-IsAtLeast now k (e ∷ es) (first, rest) = elim (Bool-cases (ltb now e.wakeup_tick)) [
  | inl early ↦ rw early (first, asleep-IsAtLeast now k es rest)
  | inr due ↦ rw due (asleep-IsAtLeast now k es rest)
]

pub asleep-IsSorted : (now : ℕ) (es : List Sleeper) → IsSorted es → IsSorted (asleep now es)
asleep-IsSorted now [] h = h
asleep-IsSorted now (e ∷ es) (first, rest) = elim (Bool-cases (ltb now e.wakeup_tick)) [
  | inl early ↦ rw early (asleep-IsAtLeast now e.wakeup_tick es first, asleep-IsSorted now es rest)
  | inr due ↦ rw due (asleep-IsSorted now es rest)
]

-- The interrupt takes the threads that are due out of the list, and no others.
pub interrupt-Woken :
    (priority : ℕ → ℕ) (t : Timer)
    → IsSorted t.threads_to_wakeup
    → Woken t.threads_to_wakeup (record t { ticks = t.ticks + 1 }) (interrupt priority t)
      × IsSorted (interrupt priority t).threads_to_wakeup
unfolding interrupt
interrupt-Woken priority t h =
    let woken = wake-Woken priority t.threads_to_wakeup (record t { ticks = t.ticks + 1 }) h in
    (
      woken,
      subst IsSorted (sym woken.1) (asleep-IsSorted (t.ticks + 1 + 2 ^ 31) t.threads_to_wakeup h),
    )
