-- ===== src/Kv/Master/Decision.antt =====
-- The two-phase commit of the master: when it aborts, and what it sends to whom.
use sum.Prelude.{
  ℕ, zero, suc, ◌+◌, ◌≤◌, ◌<◌, ◌≡◌, Bool, true, false, List, [], ◌∷◌, ◌++◌, if◌then◌else◌, All, ◌⊎◌,
  inl, inr,
}
use sum.Kv.Codes.{MsgType, abort, commit}
use sum.Kv.Memory.{Memory}
use sum.Kv.Master.{Master}
use sum.Kv.Master.Request.{
  Network, Event, sent, unreachable, between, is_vote_abort, is_ack, called,
}

-- The message stands among the events.
abbrev pub Sent : ℕ → MsgType → List Event → Type 0
Sent j t [] = ⊥
Sent j t (e ∷ es) = (e ≡ sent j t) ⊎ Sent j t es

-- Every slave counted from `i` acknowledges one of the first `fuel` answers.
abbrev pub Acks : Network → ℕ → ℕ → ℕ → Type 0
Acks net fuel i n =
    (j : ℕ) → i ≤ j → j < i + n → (a : ℕ) × (a < fuel) × (is_ack (net.answer j a) ≡ true)

-- Some slave of the first `n` votes to abort, and the decision is to abort; or none does, and the
-- decision is to commit.
abbrev pub Decided : Network → ℕ → MsgType → Type 0
Decided net n t =
    (((j : ℕ) × (j < n) × (is_vote_abort (net.vote j) ≡ true)) × (t ≡ abort))
    ⊎ (((j : ℕ) → j < n → is_vote_abort (net.vote j) ≡ false) × (t ≡ commit))

-- The events hold no message of another type.
abbrev pub IsType : MsgType → Event → Type 0
IsType t (sent i t') = t' ≡ t
IsType t (unreachable i) = Unit
IsType t between = Unit

pub Sent-append :
    (j : ℕ) (t : MsgType) (es fs : List Event) → Sent j t es ⊎ Sent j t fs → Sent j t (es ++ fs)
Sent-append j t [] fs (inl h) = absurd h
Sent-append j t [] fs (inr h) = h
Sent-append j t (e ∷ es) fs (inl (inl h)) = inl h
Sent-append j t (e ∷ es) fs (inl (inr h)) = inr (Sent-append j t es fs (inl h))
Sent-append j t (e ∷ es) fs (inr h) = inr (Sent-append j t es fs (inr h))

pub All-append {ℓ κ} :
    {A : Type ℓ} (P : A → Type κ) (xs ys : List A) → All P xs → All P ys → All P (xs ++ ys)
All-append P [] ys hx hy = hy
All-append P (x ∷ xs) ys hx hy = (hx.0, All-append P xs ys hx.1 hy)

pub Sent-called :
    (callback up : Bool) (i j : ℕ) (t : MsgType) (es : List Event)
    → Sent j t es
    → Sent j t (called callback up i es)
Sent-called false up i j t es h = h
Sent-called true true i j t es h = h
Sent-called true false i j t es h = inr h

pub All-called :
    (callback up : Bool) (i : ℕ) (t : MsgType) (es : List Event)
    → All (IsType t) es
    → All (IsType t) (called callback up i es)
All-called false up i t es h = h
All-called true true i t es h = h
All-called true false i t es h = (tt, h)

module _ (u : Memory) (net : Network) where
  -- Whether some slave from place `i` on votes to abort.
  unfoldable pub some_abort : ℕ → ℕ → Bool
  some_abort i zero = false
  some_abort i (suc n) = if is_vote_abort (net.vote i) then true else some_abort (i + 1) n
