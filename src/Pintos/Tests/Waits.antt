-- ===== src/Pintos/Tests/Waits.antt =====
-- Three threads: the first holds a lock that the second waits for, which holds another one.
use sum.Prelude.{
  ℕ, ◌≡◌, refl, true, false, Option, none, some, List, [], ◌∷◌, ◌==◌, if◌then◌else◌, arith, sym, ap,
  ◌∙◌, Bool-cases, inl, inr,
}
use sum.Pintos.Donation.{Thread, Lock, Sched, holder_of, waits_for, with_thread}
use sum.Pintos.Donation.Donate.{priority_of, IsClosed, IsDonated, IsDonatedBut}

abbrev pub first : Thread
first = record { priority = 20; orig_priority = 10; wait_lock = none; ordered_donations = 1 ∷ [] }

abbrev pub second : Thread
second = record { priority = 20; orig_priority = 20; wait_lock = some 0; ordered_donations = [] }

abbrev pub third : Thread
third = record { priority = 30; orig_priority = 30; wait_lock = none; ordered_donations = [] }

abbrev pub threads : List ℕ
threads = 0 ∷ 1 ∷ 2 ∷ []

abbrev pub held_by : ℕ → Lock
held_by t = record { holder = some t; value = 0 }

abbrev pub free : Lock
free = record { holder = none; value = 1 }

-- The third thread runs.
abbrev pub sched : Sched
sched = record {
  thread = λ u. if u == 0 then first else if u == 1 then second else third;
  lock = λ m. if m == 0 then held_by 0 else if m == 1 then held_by 1 else free;
  current = 2;
  mlfqs = false;
}

-- It waits for the lock of the second one.
abbrev pub third_waits : Sched
third_waits = with_thread sched 2 (record third { wait_lock = some 1 })

-- The first thread runs.
abbrev pub first_runs : Sched
first_runs = record sched { current = 0 }

pub sched-IsClosed : IsClosed threads sched
sched-IsClosed m h e = elim (Bool-cases (m == 0)) [
  | inl zeroth ↦ ground (arith, e, zeroth)
  | inr other ↦ elim (Bool-cases (m == 1)) [
    | inl next ↦ ground (arith, e, other, next)
    | inr rest ↦ absurd (ground (arith, e, other, rest))
  ]
]

sched-awake : (u : ℕ) → (u == 1) ≡ false → (sched.thread u).wait_lock ≡ none
sched-awake u other = elim (Bool-cases (u == 0)) [
  | inl zeroth ↦ rw zeroth refl
  | inr rest ↦ rw rest (rw other refl)
]

-- Whoever waits is the second thread, for the first.
sched-waits : (u h : ℕ) → waits_for sched u ≡ some h → (u ≡ 1) × (h ≡ 0)
sched-waits u h e = elim (Bool-cases (u == 1)) [
  | inl next ↦
      let same : u ≡ 1 = ground (arith, next) in
      let to : some h ≡ some 0 = sym e ∙ ap (waits_for sched) same in
      (same, ap (λ o. elim o [ none ↦ h | some x ↦ x ]) to)
  | inr other ↦
      let no_one : waits_for sched u ≡ none = ap (holder_of sched) (sched-awake u other) in
      absurd (ground (arith, sym e ∙ no_one))
]

pub sched-IsDonated : IsDonated sched
sched-IsDonated u h e =
    let (one, zeroth) = sched-waits u h e in
    let equal : priority_of sched u ≡ priority_of sched h =
      ap (priority_of sched) one ∙ ap (priority_of sched) (sym zeroth) in
    omega (arith, equal)

pub third_waits-IsDonatedBut : IsDonatedBut third_waits 2
third_waits-IsDonatedBut u h other e =
    let same : third_waits.thread u ≡ sched.thread u = rw other refl in
    let lock_same : (o : Option ℕ) → holder_of third_waits o ≡ holder_of sched o =
      λ o. elim o [ none ↦ refl | some m ↦ refl ] in
    let before : waits_for sched u ≡ some h =
      sym (ap (λ x. holder_of third_waits x.wait_lock) same ∙ lock_same (sched.thread u).wait_lock)
      ∙ e in
    let (one, zeroth) = sched-waits u h before in
    let equal : priority_of third_waits u ≡ priority_of third_waits h =
      ap (priority_of third_waits) one ∙ ap (priority_of third_waits) (sym zeroth) in
    omega (arith, equal)

pub first_runs-only :
    (u m : ℕ)
    → (first_runs.thread u).wait_lock ≡ some m
    → (first_runs.lock m).holder ≡ some 0
    → (m == 0) ≡ true
first_runs-only u m waits held = elim (Bool-cases (u == 1)) [
  | inl next ↦
      let same : u ≡ 1 = ground (arith, next) in
      let lock_of : (sched.thread u).wait_lock ≡ some 0 =
        ap (λ v. (sched.thread v).wait_lock) same in
      let to : some m ≡ some 0 = sym waits ∙ lock_of in
      let zeroth : m ≡ 0 = ap (λ o. elim o [ none ↦ m | some x ↦ x ]) to in ground (arith, zeroth)
  | inr other ↦ absurd (ground (arith, sym waits ∙ sched-awake u other))
]
