-- ===== src/Pintos/Donation/Acquire.antt =====
-- lock_acquire of threads/synch.c for a lock that is held, up to where the thread blocks.
use sum.Prelude.{
  ℕ, ◌≤◌, ◌<◌, ◌≡◌, refl, Bool, true, false, Option, none, some, List, [], ◌∷◌, ◌==◌, if◌then◌else◌,
  done, arith, ap, ◌∙◌, sym, subst, Bool-cases, inl, inr,
}
use sum.Pintos.Donation.{
  Sched, with_thread, holder_of, waits_for, check_to_donate, insert_ordered, enlist, sema_down,
}
use sum.Pintos.Donation.Donate.{
  lower, priority_of, IsClosed, IsDonated, IsDonatedBut, check_to_donate_lem,
}

-- The state when the thread is in the list of the holder.
abbrev pub enlisted : (ℕ → ℕ → Bool) → Sched → ℕ → ℕ → Sched
enlisted less s l h =
    let s' = with_thread s s.current (record (s.thread s.current) { wait_lock = some l }) in
    let y = s'.thread h in
    with_thread s' h
      (record y { ordered_donations = insert_ordered less s.current y.ordered_donations })

enlisted-priority :
    (less : ℕ → ℕ → Bool) (s : Sched) (l h u : ℕ)
    → priority_of (enlisted less s l h) u ≡ priority_of s u
enlisted-priority less s l h u = elim (Bool-cases (u == h)) [
  | inl here ↦ elim (Bool-cases (h == s.current)) [
    | inl own ↦ ground (arith, here, own)
    | inr other ↦ ground (arith, here, other)
  ]
  | inr there ↦ ground (arith, there)
]

enlisted-lock :
    (less : ℕ → ℕ → Bool) (s : Sched) (l h u : ℕ)
    → ((enlisted less s l h).thread u).wait_lock
      ≡ (if u == s.current then some l else (s.thread u).wait_lock)
enlisted-lock less s l h u = elim (Bool-cases (u == h)) [
  | inl here ↦ elim (Bool-cases (h == s.current)) [
    | inl own ↦ ground (arith, here, own)
    | inr other ↦ ground (arith, here, other)
  ]
  | inr there ↦ ground (arith, there)
]

enlist_lem :
    (less : ℕ → ℕ → Bool) (s : Sched) (l h : ℕ)
    → (s.lock l).holder ≡ some h
    → s.mlfqs ≡ false
    → (h == s.current) ≡ false
    → enlist less s l ≡ done (enlisted less s l h)
unfolding enlist
enlist_lem less s l h held plain other = ground (arith, held, plain, other)

holder_of-enlisted :
    (less : ℕ → ℕ → Bool) (s : Sched) (l h : ℕ) (o : Option ℕ)
    → holder_of (enlisted less s l h) o ≡ holder_of s o
holder_of-enlisted less s l h none = refl
holder_of-enlisted less s l h (some m) = refl

enlisted-waits_for :
    (less : ℕ → ℕ → Bool) (s : Sched) (l h u : ℕ)
    → (s.lock l).holder ≡ some h
    → waits_for (enlisted less s l h) u ≡ (if u == s.current then some h else waits_for s u)
enlisted-waits_for less s l h u held =
    let s1 = enlisted less s l h in
    elim (Bool-cases (u == s.current)) [
      | inl this ↦
          let w : (s1.thread u).wait_lock ≡ some l = enlisted-lock less s l h u ∙ rw this refl in
          let goal : waits_for s1 u ≡ some h = ap (holder_of s1) w ∙ held in
          let pick : (if u == s.current then some h else waits_for s u) ≡ some h = rw this refl in
          goal ∙ sym pick
      | inr that ↦
          let w : (s1.thread u).wait_lock ≡ (s.thread u).wait_lock =
            enlisted-lock less s l h u ∙ rw that refl in
          let goal : waits_for s1 u ≡ waits_for s u =
            ap (holder_of s1) w ∙ holder_of-enlisted less s l h (s.thread u).wait_lock in
          let pick : (if u == s.current then some h else waits_for s u) ≡ waits_for s u =
            rw that refl in
          goal ∙ sym pick
    ]

lower-same :
    (ts : List ℕ) (s s1 : Sched) (p : ℕ)
    → ((u : ℕ) → priority_of s1 u ≡ priority_of s u)
    → lower ts s1 p ≡ lower ts s p
lower-same [] s s1 p same = refl
lower-same (t ∷ ts) s s1 p same = ground (arith, same t, lower-same ts s s1 p same)

sema_down-blocks :
    (fuel : ℕ) (s s' : Sched) (l : ℕ)
    → (s.lock l).value ≡ 0
    → s.mlfqs ≡ false
    → check_to_donate fuel s s.current ≡ done s'
    → sema_down fuel s l ≡ done (false, s')
unfolding sema_down
sema_down-blocks fuel s s' l no_value plain runs = ground (arith, no_value, plain, runs)

-- When every wait is donated for, without the advanced scheduler, lock_acquire of a lock that
-- another thread holds, with fuel for every thread that is less urgent and whatever the
-- comparison of list elements answers, comes to block: the thread then waits for the holder,
-- every wait is donated for, and no priority has fallen.
pub sema_down-IsDonated :
    (fuel : ℕ) (ts : List ℕ) (less : ℕ → ℕ → Bool) (s : Sched) (l h : ℕ)
    → IsClosed ts s
    → lower ts s (priority_of s s.current) < fuel
    → IsDonated s
    → s.mlfqs ≡ false
    → (s.lock l).holder ≡ some h
    → (h == s.current) ≡ false
    → (s.lock l).value ≡ 0
    → (s1 : Sched) × (s2 : Sched) × (enlist less s l ≡ done s1)
      × (sema_down fuel s1 l ≡ done (false, s2))
      × IsDonated s2
      × (waits_for s2 s.current ≡ some h)
      × ((u : ℕ) → priority_of s u ≤ priority_of s2 u)
sema_down-IsDonated fuel ts less s l h closed f whole plain held other no_value =
    let s1 = enlisted less s l h in
    let t = s.current in
    let same = enlisted-priority less s l h in
    let waits : (u : ℕ) → waits_for s1 u ≡ (if u == t then some h else waits_for s u) =
      λ u. enlisted-waits_for less s l h u held in
    let but : IsDonatedBut s1 t = λ u g that e.
      let before : waits_for s u ≡ some g = sym (waits u ∙ rw that refl) ∙ e in
      omega (arith, same u, same g, whole u g before) in
    let enough : lower ts s1 (priority_of s1 t) < fuel =
      subst (λ p. lower ts s1 p < fuel) (sym (same t))
        (omega (arith, f, lower-same ts s s1 (priority_of s t) same)) in
    let (s2, runs, donated, (raised, kept)) = check_to_donate_lem fuel ts s1 t closed enough but in
    let self : (t == t) ≡ true = ground arith in
    (
      s1,
      s2,
      enlist_lem less s l h held plain other,
      sema_down-blocks fuel s1 s2 l no_value plain runs,
      donated,
      kept t ∙ waits t ∙ rw self refl,
      λ u. elim (raised u) [
        | inl even ↦ omega (arith, even, same u)
        | inr (low, up) ↦ omega (arith, low, up, same u)
      ],
    )
