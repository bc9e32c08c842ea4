-- ===== src/Pintos/Alarm/OnTime.antt =====
-- timer_sleep of devices/timer.c and the timer interrupts after it: the sleeping thread over time.
use sum.Prelude.{
  ℕ, zero, suc, ◌+◌, ◌^◌, ◌≤◌, ◌<◌, ◌≡◌, refl, Bool, true, false, List, [], ◌∷◌, ltb, leb, ◌==◌,
  if◌then◌else◌, arith, ap, ◌∙◌, Bool-cases, inl, inr,
}
use sum.Pintos.Donation.Donate.{memb}
use sum.Pintos.Alarm.{Sleeper, Timer, insert_sleeper, sleep, interrupt, interrupts, start_ticks}
use sum.Pintos.Alarm.Order.{IsSorted, asleep, is_due, Woken, interrupt-Woken, sleep-IsSorted}

-- Whether a thread is among the sleepers.
abbrev pub is_asleep : List Sleeper → ℕ → Bool
is_asleep [] u = false
is_asleep (e ∷ es) u = if e.tid == u then true else is_asleep es u

asleep-asleep : (i j : ℕ) (es : List Sleeper) → i ≤ j → asleep j (asleep i es) ≡ asleep j es
asleep-asleep i j [] le = refl
asleep-asleep i j (e ∷ es) le = elim (Bool-cases (ltb i e.wakeup_tick)) [
  | inl early ↦ elim (Bool-cases (ltb j e.wakeup_tick)) [
    | inl later ↦ rw early (rw later (ap (λ xs. e ∷ xs) (asleep-asleep i j es le)))
    | inr due ↦ rw early (rw due (asleep-asleep i j es le))
  ]
  | inr gone ↦
      let due : ltb j e.wakeup_tick ≡ false = ground (arith, gone) in
      rw gone (rw due (asleep-asleep i j es le))
]

is_due-asleep :
    (i j u : ℕ) (es : List Sleeper)
    → i ≤ j
    → (if is_due j (asleep i es) u then true else is_due i es u) ≡ is_due j es u
is_due-asleep i j u [] le = refl
is_due-asleep i j u (e ∷ es) le = elim (Bool-cases (ltb i e.wakeup_tick)) [
  | inl early ↦ rw early (ground (arith, early, is_due-asleep i j u es le))
  | inr gone ↦ rw gone (ground (arith, gone, is_due-asleep i j u es le))
]

-- Several interrupts, one at least.
interrupts-Woken :
    (priority : ℕ → ℕ) (n : ℕ) (t : Timer)
    → IsSorted t.threads_to_wakeup
    → Woken t.threads_to_wakeup
        (record t { ticks = t.ticks + suc n })
        (interrupts priority (suc n) t)
interrupts-Woken priority zero t h = (interrupt-Woken priority t h).0
interrupts-Woken priority (suc n) t h =
    let ((now, left, ready), sorted) = interrupt-Woken priority t h in
    let es = t.threads_to_wakeup in
    let t1 = interrupt priority t in
    let (now', left', ready') = interrupts-Woken priority n t1 sorted in
    let sum : t1.ticks + suc n ≡ t.ticks + suc (suc n) = omega (arith, now) in
    let first = t.ticks + 1 + 2 ^ 31 in
    let final = t.ticks + suc (suc n) + 2 ^ 31 in
    let same : t1.ticks + suc n + 2 ^ 31 ≡ final = omega (arith, now) in
    let ordered : first ≤ final = omega arith in
    (
      now' ∙ sum,
      left'
          ∙ ap (λ k. asleep k t1.threads_to_wakeup) same
          ∙ ap (asleep final) left
          ∙ asleep-asleep first final es ordered,
      λ u.
          let due : is_due (t1.ticks + suc n + 2 ^ 31) t1.threads_to_wakeup u
              ≡ is_due final (asleep first es) u =
            ap (λ k. is_due k t1.threads_to_wakeup u) same ∙ ap (λ xs. is_due final xs u) left in
          ground (arith, ready' u, ready u, due, is_due-asleep first final u es ordered),
    )

-- A thread that is not among the sleepers is not due.
due-none : (now u : ℕ) (es : List Sleeper) → is_asleep es u ≡ false → is_due now es u ≡ false
due-none now u [] fresh = refl
due-none now u (e ∷ es) fresh = elim (Bool-cases (e.tid == u)) [
  | inl here ↦ absurd (ground (arith, rw here at fresh))
  | inr there ↦ ground (arith, there, due-none now u es (rw there at fresh))
]

asleep-none :
    (now u : ℕ) (es : List Sleeper) → is_asleep es u ≡ false → is_asleep (asleep now es) u ≡ false
asleep-none now u [] fresh = refl
asleep-none now u (e ∷ es) fresh = elim (Bool-cases (e.tid == u)) [
  | inl here ↦ absurd (ground (arith, rw here at fresh))
  | inr there ↦ elim (Bool-cases (ltb now e.wakeup_tick)) [
    | inl early ↦ rw early (rw there (asleep-none now u es (rw there at fresh)))
    | inr gone ↦ rw gone (asleep-none now u es (rw there at fresh))
  ]
]

-- The one sleeper of a thread.
due-insert :
    (now : ℕ) (e : Sleeper) (es : List Sleeper)
    → is_asleep es e.tid ≡ false
    → is_due now (insert_sleeper e es) e.tid ≡ leb e.wakeup_tick now
due-insert now e [] fresh = ground arith
due-insert now e (x ∷ xs) fresh = elim (Bool-cases (leb e.wakeup_tick x.wakeup_tick)) [
  | inl before ↦ rw before (ground (arith, due-none now e.tid (x ∷ xs) fresh))
  | inr after ↦ rw after (elim (Bool-cases (x.tid == e.tid)) [
    | inl here ↦ absurd (ground (arith, rw here at fresh))
    | inr there ↦ ground (arith, there, due-insert now e xs (rw there at fresh))
  ])
]

asleep-insert :
    (now : ℕ) (e : Sleeper) (es : List Sleeper)
    → is_asleep es e.tid ≡ false
    → is_asleep (asleep now (insert_sleeper e es)) e.tid ≡ ltb now e.wakeup_tick
asleep-insert now e [] fresh = elim (Bool-cases (ltb now e.wakeup_tick)) [
  | inl early ↦ rw early (ground arith)
  | inr gone ↦ rw gone refl
]
asleep-insert now e (x ∷ xs) fresh = elim (Bool-cases (x.tid == e.tid)) [
  | inl here ↦ absurd (ground (arith, rw here at fresh))
  | inr there ↦ elim (Bool-cases (leb e.wakeup_tick x.wakeup_tick)) [
    | inl before ↦ elim (Bool-cases (ltb now e.wakeup_tick)) [
      | inl early ↦ rw before (rw early (ground arith))
      | inr gone ↦ rw before (rw gone (asleep-none now e.tid (x ∷ xs) fresh))
    ]
    | inr after ↦ elim (Bool-cases (ltb now x.wakeup_tick)) [
      | inl early ↦ rw after (rw early (rw there (asleep-insert now e xs (rw there at fresh))))
      | inr gone ↦ rw after (rw gone (asleep-insert now e xs (rw there at fresh)))
    ]
  ]
]

-- From a sorted list of sleepers and less than 2^31 ticks, a thread that is neither asleep nor
-- ready and calls timer_sleep for some ticks: after any number of timer interrupts, one at least,
-- it is ready if these are as many as the ticks or more, and asleep if they are fewer. All
-- numbers of ticks stay below 2^63.
pub sleep-interrupts :
    (priority : ℕ → ℕ) (t : Timer) (tid ticks n : ℕ)
    → IsSorted t.threads_to_wakeup
    → is_asleep t.threads_to_wakeup tid ≡ false
    → memb t.ready_list tid ≡ false
    → 0 < ticks
    → 0 < n
    → t.ticks < 2 ^ 31
    → t.ticks + ticks < 2 ^ 63
    → t.ticks + n < 2 ^ 63
    → (memb (interrupts priority n (sleep t tid ticks)).ready_list tid ≡ leb ticks n)
      × (is_asleep (interrupts priority n (sleep t tid ticks)).threads_to_wakeup tid ≡ ltb n ticks)
unfolding sleep start_ticks
sleep-interrupts priority t tid ticks zero h fresh blocked long elapsed now_fits wake_fits
      end_fits =
    absurd (omega arith)
sleep-interrupts priority t tid ticks (suc n) h fresh blocked long elapsed now_fits wake_fits
      end_fits =
    let e : Sleeper = record { tid = tid; wakeup_tick = start_ticks t + ticks } in
    let es = insert_sleeper e t.threads_to_wakeup in
    let slept = sleep t tid ticks in
    let entered : slept ≡ record t { threads_to_wakeup = es } = ground (arith, long) in
    let list : slept.threads_to_wakeup ≡ es = ap (λ x. x.threads_to_wakeup) entered in
    let clock : slept.ticks ≡ t.ticks = ap (λ x. x.ticks) entered in
    let not_ready : memb slept.ready_list tid ≡ false =
      ap (λ x. memb x.ready_list tid) entered ∙ blocked in
    let now = slept.ticks + suc n + 2 ^ 31 in
    let when : now ≡ t.ticks + suc n + 2 ^ 31 = omega (arith, clock) in
    let start : start_ticks t ≡ t.ticks + 2 ^ 31 = omega (arith, now_fits) in
    let (same, left, ready) = interrupts-Woken priority n slept (sleep-IsSorted t tid ticks h) in
    let due : is_due now slept.threads_to_wakeup tid ≡ leb (start_ticks t + ticks) now =
      ap (λ xs. is_due now xs tid) list ∙ due-insert now e t.threads_to_wakeup fresh in
    let sleeping : is_asleep (asleep now slept.threads_to_wakeup) tid
        ≡ ltb now (start_ticks t + ticks) =
      ap (λ xs. is_asleep (asleep now xs) tid) list
      ∙ asleep-insert now e t.threads_to_wakeup fresh in
    (
      ready tid ∙ ground (arith, due, not_ready, when, start),
      ap (λ xs. is_asleep xs tid) left ∙ sleeping ∙ ground (arith, when, start),
    )
