-- ===== src/Pintos/Donation/Donate.antt =====
-- check_to_donate of threads/synch.c along a chain of threads that wait for each other.
use sum.Prelude.{
  ℕ, zero, suc, ◌+◌, ◌≤◌, ◌<◌, ◌≡◌, refl, Bool, true, false, Option, none, some, List, [], ◌∷◌, ltb,
  leb, ◌==◌, if◌then◌else◌, done, arith, ap, ◌∙◌, sym, subst, Bool-cases, Option-cases, inl, inr,
  ◌⊎◌,
}
use sum.Pintos.Donation.{Sched, with_priority, holder_of, waits_for, check_to_donate}

abbrev pub memb : List ℕ → ℕ → Bool
memb [] t = false
memb (u ∷ us) t = if u == t then true else memb us t

-- How many of some threads are less urgent than a priority.
abbrev pub lower : List ℕ → Sched → ℕ → ℕ
lower [] s p = 0
lower (t ∷ ts) s p = (if ltb (s.thread t).priority p then 1 else 0) + lower ts s p

abbrev pub priority_of : Sched → ℕ → ℕ
priority_of s t = (s.thread t).priority

lower-raise : (ts : List ℕ) (s : Sched) (h p : ℕ) → lower ts (with_priority s h p) p ≤ lower ts s p
lower-raise [] s h p = omega arith
lower-raise (t ∷ ts) s h p = ground (arith, lower-raise ts s h p)

-- A raise of a thread that is less urgent leaves one less.
lower-less :
    (ts : List ℕ) (s : Sched) (h p : ℕ)
    → memb ts h ≡ true
    → priority_of s h < p
    → lower ts (with_priority s h p) p < lower ts s p
lower-less [] s h p m lt = absurd (ground (arith, m))
lower-less (t ∷ ts) s h p m lt = elim (Bool-cases (t == h)) [
  | inl here ↦
      let same : h ≡ t = ground (arith, here) in
      let low : priority_of s t < p = subst (λ u. priority_of s u < p) same lt in
      ground (arith, lower-raise ts s h p, here, low)
  | inr there ↦ ground (arith, lower-less ts s h p (rw there at m) lt, there)
]

-- Every holder is one of the threads.
abbrev pub IsClosed : List ℕ → Sched → Type 0
IsClosed ts s = (l h : ℕ) → (s.lock l).holder ≡ some h → memb ts h ≡ true

-- No thread is less urgent than one that waits for it, but for those that `t` waits for.
abbrev pub IsDonatedBut : Sched → ℕ → Type 0
IsDonatedBut s t =
    (u h : ℕ) → (u == t) ≡ false → waits_for s u ≡ some h → priority_of s u ≤ priority_of s h

abbrev pub IsDonated : Sched → Type 0
IsDonated s = (u h : ℕ) → waits_for s u ≡ some h → priority_of s u ≤ priority_of s h

-- Only priorities change, and only from less than `p` to `p`.
abbrev pub Raised : Sched → Sched → ℕ → Type 0
Raised s s' p =
    ((u : ℕ)
      → (priority_of s' u ≡ priority_of s u) ⊎ ((priority_of s u < p) × (priority_of s' u ≡ p)))
    × ((u : ℕ) → waits_for s' u ≡ waits_for s u)

holder_of-found :
    (ts : List ℕ) (s : Sched) (h : ℕ) (o : Option ℕ)
    → IsClosed ts s
    → holder_of s o ≡ some h
    → memb ts h ≡ true
holder_of-found ts s h none closed e = absurd (ground (arith, e))
holder_of-found ts s h (some l) closed e = closed l h e

holder_of-raise :
    (s : Sched) (h p : ℕ) (o : Option ℕ) → holder_of (with_priority s h p) o ≡ holder_of s o
holder_of-raise s h p none = refl
holder_of-raise s h p (some l) = refl

waits_for-raise : (s : Sched) (h p u : ℕ) → waits_for (with_priority s h p) u ≡ waits_for s u
waits_for-raise s h p u =
    let same : ((with_priority s h p).thread u).wait_lock ≡ (s.thread u).wait_lock =
      elim (Bool-cases (u == h)) [
        | inl here ↦
            let e : h ≡ u = ground (arith, here) in rw here (ap (λ v. (s.thread v).wait_lock) e)
        | inr there ↦ rw there refl
      ] in
    ap (holder_of (with_priority s h p)) same ∙ holder_of-raise s h p (s.thread u).wait_lock

-- A raise of the holder that a thread waits for moves the exception on to it.
raise-IsDonatedBut :
    (s : Sched) (t h : ℕ)
    → IsDonatedBut s t
    → waits_for s t ≡ some h
    → priority_of s h < priority_of s t
    → IsDonatedBut (with_priority s h (priority_of s t)) h
raise-IsDonatedBut s t h but e lt u g other waits =
    let p = priority_of s t in
    let before : waits_for s u ≡ some g = sym (waits_for-raise s h p u) ∙ waits in
    elim (Bool-cases (u == t)) [
      | inl this ↦
          let same : u ≡ t = ground (arith, this) in
          let to : some h ≡ some g = sym e ∙ ap (waits_for s) (sym same) ∙ before in
          let holder : h ≡ g = ap (λ o. elim o [ none ↦ h | some x ↦ x ]) to in
          ground (arith, other, same, holder)
      | inr that ↦ ground (arith, other, but u g that before, lt)
    ]

-- What a raise and no other change make of a priority `q`.
raise-cases :
    (s : Sched) (h p q u : ℕ)
    → priority_of s h < p
    → q ≡ priority_of (with_priority s h p) u
    → (q ≡ priority_of s u) ⊎ ((priority_of s u < p) × (q ≡ p))
raise-cases s h p q u lt e = elim (Bool-cases (u == h)) [
  | inl here ↦
      let same : h ≡ u = ground (arith, here) in
      inr (subst (λ v. priority_of s v < p) same lt, ground (arith, e, here))
  | inr there ↦ inl (ground (arith, e, there))
]

-- When every wait is donated for but those of one thread, check_to_donate of this thread ends,
-- also when threads wait in a circle, with fuel for every thread that is less urgent: then every
-- wait is donated for, threads wait as before, and a priority either stays or rises to that of
-- the thread.
pub check_to_donate_lem :
    (fuel : ℕ) (ts : List ℕ) (s : Sched) (t : ℕ)
    → IsClosed ts s
    → lower ts s (priority_of s t) < fuel
    → IsDonatedBut s t
    → (s' : Sched) × (check_to_donate fuel s t ≡ done s')
      × IsDonated s'
      × Raised s s' (priority_of s t)
unfolding check_to_donate
check_to_donate_lem zero ts s t closed f but = absurd (omega arith)
check_to_donate_lem (suc fuel) ts s t closed f but =
    let p = priority_of s t in
    elim (Option-cases (waits_for s t)) [
      | inl no_one ↦ (
        s,
        ground (arith, no_one),
        λ u h e. elim (Bool-cases (u == t)) [
          | inl this ↦
              let same : u ≡ t = ground (arith, this) in
              absurd (ground (arith, sym e ∙ ap (waits_for s) same ∙ no_one))
          | inr that ↦ but u h that e
        ],
        ((λ u. inl refl), λ u. refl),
      )
      | inr (h, e) ↦ elim (Bool-cases (leb p (priority_of s h))) [
        | inl enough ↦ (
          s,
          ground (arith, e, enough),
          λ u g e'. elim (Bool-cases (u == t)) [
            | inl this ↦
                let same : u ≡ t = ground (arith, this) in
                let to : some h ≡ some g = sym e ∙ ap (waits_for s) (sym same) ∙ e' in
                let holder : h ≡ g = ap (λ o. elim o [ none ↦ h | some x ↦ x ]) to in
                ground (arith, enough, same, holder)
            | inr that ↦ but u g that e'
          ],
          ((λ u. inl refl), λ u. refl),
        )
        | inr less ↦
            let lt : priority_of s h < p = ground (arith, less) in
            let s1 = with_priority s h p in
            let found = holder_of-found ts s h (s.thread t).wait_lock closed e in
            let now : priority_of s1 h ≡ p = ground arith in
            let (s', runs, whole, (raised, waits)) =
              check_to_donate_lem fuel ts s1 h closed
                (subst (λ q. lower ts s1 q < fuel) (sym now)
                  (omega (arith, f, lower-less ts s h p found lt)))
                (raise-IsDonatedBut s t h but e lt) in
            (
              s',
              ground (arith, e, less, runs),
              whole,
              (
                (λ u. elim (raised u) [
                  | inl same ↦ raise-cases s h p (priority_of s' u) u lt same
                  | inr (low, up) ↦ inr (ground (arith, low, lt, now), up ∙ now)
                ]),
                λ u. waits u ∙ waits_for-raise s h p u,
              ),
            )
      ]
    ]
