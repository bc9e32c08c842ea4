-- ===== src/Pintos/Inodes/Steps.antt =====
-- Any run of the functions of inode.c that change the list open_inodes, in any order, from the empty
-- list of inode_init on. Who closes an inode has taken back an inode_deny_write of its own.
use sum.Prelude.{
  ℕ, ◌+◌, ◌-◌, ◌<◌, ◌≡◌, refl, Bool, true, false, none, some, [], ltb, leb, ◌==◌, Run, done, fault,
  spin, arith, ap, ◌∙◌, sym, subst, Bool-cases, Option-cases, inl, inr, ◌⊎◌,
}
use sum.Pintos.Block
use sum.Pintos.Block.{Block, read}
use sum.Pintos.Content.{Inode}
use sum.Pintos.FreeMap.{Fs, find}
use sum.Pintos.Inodes.{
  change, without, with_inode, update, reopen, reopened, remove, deny_write, allow_write,
  open_inode, open_found, load_inode, create, deallocate, close, close_found,
}
use sum.Pintos.Inodes.Openers.{
  IsOpen, IsList, find-sector, found-IsOpen, change-IsList, without-IsList,
}
use sum.Pintos.Inodes.Holds.{
  Holds, Holds-bind, Holds-assert, Holds-any, Same, deallocate-Same, create-Same,
}

-- The steps of the list, and the states they lead to.
abbrev pub Listed : Fs → Type 0
Listed f = IsList f.open_inodes

Same-Listed : (f : Fs) (m : Run Fs) → Listed f → Holds (Same f.open_inodes) m → Holds Listed m
Same-Listed f (done f') h e = subst IsList (sym e) h
Same-Listed f fault h e = tt
Same-Listed f spin h e = tt

with_inode-Listed :
    (f : Fs) (s : ℕ) (g : Inode → Run Inode)
    → Listed f
    → ((n : Inode) → IsOpen n → Holds (λ n'. (n'.sector ≡ n.sector) × IsOpen n') (g n))
    → Holds Listed (with_inode f s g)
with_inode-Listed f s g h keep = elim (Option-cases (find f.open_inodes s)) [
  | inl e ↦ subst (λ o. Holds Listed (update f s g o)) (sym e) tt
  | inr (n, e) ↦
      subst (λ o. Holds Listed (update f s g o)) (sym e)
        (Holds-bind (λ n'. (n'.sector ≡ n.sector) × IsOpen n') Listed (g n) _
          (keep n (found-IsOpen f.open_inodes s n h e))
          (λ n' (here, open').
            change-IsList f.open_inodes s n' (here ∙ find-sector f.open_inodes s n e) open' h))
]

reopen-Listed : (f : Fs) (s : ℕ) → Listed f → Holds Listed (reopen f s)
unfolding reopen
reopen-Listed f s h =
    with_inode-Listed f s (λ n. done (reopened n)) h
      (λ n (some_one, few). (refl, (omega arith, omega (arith, few))))

remove-Listed : (f : Fs) (s : ℕ) → Listed f → Holds Listed (remove f s)
unfolding remove
remove-Listed f s h =
    with_inode-Listed f s (λ n. done (record n { removed = true })) h (λ n open'. (refl, open'))

deny_write-Listed : (f : Fs) (s : ℕ) → Listed f → Holds Listed (deny_write f s)
unfolding deny_write
deny_write-Listed f s h = with_inode-Listed f s _ h (λ n (some_one, few).
    Holds-assert _ (leb (n.deny_write_cnt + 1) n.open_cnt) _
      (λ e. (refl, (some_one, ground (arith, e)))))

allow_write-Listed : (f : Fs) (s : ℕ) → Listed f → Holds Listed (allow_write f s)
unfolding allow_write
allow_write-Listed f s h = with_inode-Listed f s _ h (λ n (some_one, few).
    Holds-assert _ (ltb 0 n.deny_write_cnt) _ (λ e.
      Holds-assert _ (leb n.deny_write_cnt n.open_cnt) _
        (λ e'. (refl, (some_one, omega (arith, few))))))

load_inode-Listed :
    (got : Bool) (f : Fs) (s : ℕ)
    → Listed f
    → find f.open_inodes s ≡ none
    → Holds (λ r. Listed r.1) (load_inode got f s)
unfolding load_inode
load_inode-Listed true f s h new =
    Holds-any _ (Block.read f.disk s) _ (λ bytes. ((omega arith, omega arith), new, h))
load_inode-Listed false f s h new = h

open_inode-Listed :
    (got : Bool) (f : Fs) (s : ℕ) → Listed f → Holds (λ r. Listed r.1) (open_inode got f s)
unfolding open_inode
open_inode-Listed got f s h = elim (Option-cases (find f.open_inodes s)) [
  | inl e ↦
      subst (λ o. Holds (λ r. Listed r.1) (open_found got f s o)) (sym e)
        (load_inode-Listed got f s h e)
  | inr (n, e) ↦
      subst (λ o. Holds (λ r. Listed r.1) (open_found got f s o)) (sym e)
        (Holds-bind Listed (λ r. Listed r.1) (reopen f s) _ (reopen-Listed f s h) (λ f' h'. h'))
]

close_found-Listed :
    (mem : Bool) (f : Fs) (s : ℕ) (n : Inode)
    → Listed f
    → find f.open_inodes s ≡ some n
    → n.deny_write_cnt ≡ 0 ⊎ n.deny_write_cnt < n.open_cnt
    → Holds Listed (close_found mem f s (some n))
unfolding deallocate
close_found-Listed mem f s n h e fair =
    let (some_one, few) = found-IsOpen f.open_inodes s n h e in
    let rest = without-IsList f.open_inodes s h in
    let f' : Fs = record f { open_inodes = without f.open_inodes s } in
    elim (Bool-cases (n.open_cnt == 1)) [
      | inl last ↦ elim (Bool-cases n.removed) [
        | inl gone ↦
            rw last (rw gone (Same-Listed f' (deallocate mem f' n) rest (deallocate-Same mem f' n)))
        | inr stays ↦ rw last (rw stays rest)
      ]
      | inr more ↦
          let left : IsOpen (record n { open_cnt = n.open_cnt - 1 }) =
            (ground (arith, more, some_one), ground (arith, fair, some_one)) in
          rw more (
            change-IsList f.open_inodes s (record n { open_cnt = n.open_cnt - 1 })
              (find-sector f.open_inodes s n e) left h)
    ]

pub data Step : Fs → Fs → Type 0 where
  creates :
      (mem got ok : Bool) {f f' : Fs} (s len : ℕ)
      → create mem got f s len ≡ done (ok, f')
      → Step f f'
  opens : (got ok : Bool) {f f' : Fs} (s : ℕ) → open_inode got f s ≡ done (ok, f') → Step f f'
  reopens : {f f' : Fs} (s : ℕ) → reopen f s ≡ done f' → Step f f'
  removes : {f f' : Fs} (s : ℕ) → remove f s ≡ done f' → Step f f'
  denies : {f f' : Fs} (s : ℕ) → deny_write f s ≡ done f' → Step f f'
  allows : {f f' : Fs} (s : ℕ) → allow_write f s ≡ done f' → Step f f'
  closes :
      {f f' : Fs} (mem : Bool) (s : ℕ) (n : Inode)
      → find f.open_inodes s ≡ some n
      → n.deny_write_cnt ≡ 0 ⊎ n.deny_write_cnt < n.open_cnt
      → close mem f s ≡ done f'
      → Step f f'

pub Step-Listed : (f f' : Fs) → Step f f' → Listed f → Listed f'
unfolding close
Step-Listed f f' (creates mem got ok s len e) h =
    let same = subst (Holds (λ r. Same f.open_inodes r.1)) e (create-Same mem got f s len) in
    subst IsList (sym same) h
Step-Listed f f' (opens got ok s e) h =
    subst (Holds (λ r. Listed r.1)) e (open_inode-Listed got f s h)
Step-Listed f f' (reopens s e) h = subst (Holds Listed) e (reopen-Listed f s h)
Step-Listed f f' (removes s e) h = subst (Holds Listed) e (remove-Listed f s h)
Step-Listed f f' (denies s e) h = subst (Holds Listed) e (deny_write-Listed f s h)
Step-Listed f f' (allows s e) h = subst (Holds Listed) e (allow_write-Listed f s h)
Step-Listed f f' (closes mem s n found fair e) h =
    subst (Holds Listed) (ap (close_found mem f s) (sym found) ∙ e)
      (close_found-Listed mem f s n h found fair)

pub data Reachable : Fs → Type 0 where
  init : {f : Fs} → f.open_inodes ≡ [] → Reachable f
  next : {f f' : Fs} → Reachable f → Step f f' → Reachable f'

-- After any sequence of inode_create, inode_open, inode_reopen, inode_remove, inode_deny_write,
-- inode_allow_write and inode_close from an empty list on, where who closes an inode has taken
-- back a denial of its own: each open inode is in the list once, has an opener at least, and no
-- more deniers than openers.
pub Reachable-IsList : (f : Fs) → Reachable f → IsList f.open_inodes
Reachable-IsList f (init e) = subst IsList (sym e) tt
Reachable-IsList g (next {f = f} before step) = Step-Listed f g step (Reachable-IsList f before)

-- In every state that such a sequence leads to, no assert of inode_allow_write fails for an open
-- inode with a denier.
pub allow_write-Reachable :
    (f : Fs) (s : ℕ) (n : Inode)
    → Reachable f
    → find f.open_inodes s ≡ some n
    → 0 < n.deny_write_cnt
    → (f' : Fs) × (allow_write f s ≡ done f') × Reachable f'
unfolding allow_write
allow_write-Reachable f s n reached found some_one =
    let (openers, few) = found-IsOpen f.open_inodes s n (Reachable-IsList f reached) found in
    let n' : Inode = record n { deny_write_cnt = n.deny_write_cnt - 1 } in
    let f' : Fs = record f { open_inodes = change (λ old. n') f.open_inodes s } in
    let first : ltb 0 n.deny_write_cnt ≡ true = ground (arith, some_one) in
    let second : leb n.deny_write_cnt n.open_cnt ≡ true = ground (arith, few) in
    let runs : allow_write f s ≡ done f' = ap (update f s _) found ∙ rw first (rw second refl) in
    (f', runs, next reached (allows s runs))
