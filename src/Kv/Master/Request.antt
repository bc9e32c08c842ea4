-- ===== src/Kv/Master/Request.antt =====
-- The requests of the master (tpcmaster_handle_get, tpcmaster_send_get and tpcmaster_handle_tpc of
-- group1/kvstore/src/server/tpcmaster.c). The slaves answer through a network,
-- which is a parameter; what the master sends and calls back is a list of events.
use sum.Prelude.{
  ℕ, zero, suc, ◌+◌, ◌-◌, Bool, true, false, Option, none, some, List, [], ◌∷◌, ◌++◌, is_zero, ltb,
  if◌then◌else◌, Run, done, fault, spin, ◌>>=◌,
}
use sum.Kv.Text.{Text}
use sum.Kv.Codes.{MsgType, Message, getresp, resp, ack, abort, commit, vote_abort, success, no_key}
use sum.Kv.Memory.{Memory}
use sum.Kv.Cache
use sum.Kv.Master.{Master, Slave, get_primary, get_successor}

-- What comes back from the slaves, named by their places: the reply to the n-th GETREQ of a request,
-- whether a slave can be reached in a phase, the vote, and the n-th answer to a decision. `none` is
-- a message that could not be parsed, or none at all.
pub record Network : Type 0 where
  pub reply : ℕ → ℕ → Text → Option Message
  pub up_first : ℕ → Bool
  pub up_second : ℕ → Bool
  pub vote : ℕ → Option MsgType
  pub answer : ℕ → ℕ → Option MsgType

-- What the master does during a two-phase commit: a message to a slave, a call of the callback with
-- a slave that cannot be reached, and the call between the phases.
pub data Event : Type 0 where
  sent : ℕ → MsgType → Event
  unreachable : ℕ → Event
  between : Event

abbrev pub is_vote_abort : Option MsgType → Bool
is_vote_abort (some vote_abort) = true
is_vote_abort _ = false

abbrev pub is_ack : Option MsgType → Bool
is_ack (some ack) = true
is_ack _ = false

-- The value of a reply of the type GETRESP; tpcmaster_send_get returns -1 without one.
abbrev pub got : Option Message → Option (Option Text)
got none = none
got (some m) = elim m.type [ getresp ↦ some m.value | _ ↦ none ]

unfoldable pub send_get : Network → ℕ → ℕ → Text → Option (Option Text)
send_get net n i k = got (net.reply n i k)

-- The reply to a GETREQ that missed the cache.
abbrev pub answered : Message → Text → Option (Option Text) → Message
answered reply k none = record reply {
  type = resp;
  message = some no_key;
  key = none;
  value = none;
}
answered reply k (some v) = record reply { type = getresp; key = some k; value = v }

abbrev pub called : Bool → Bool → ℕ → List Event → List Event
called callback up i es = if callback then (if up then es else unreachable i ∷ es) else es

abbrev pub decision : Bool → MsgType
decision stop = if stop then abort else commit

module _ (u : Memory) (net : Network) where
  -- The loop of tpcmaster_handle_get over the replicas that are left, from the slave at place `i`.
  unfoldable pub ask_next : ℕ → ℕ → Master u → ℕ → Text → Option (Option Text)
  ask_next zero n m i k = none
  ask_next (suc left) n m i k =
      let j = get_successor u m i in
      let rest = ask_next left (n + 1) m j k in
      elim (send_get net n j k) [ some v ↦ some v | none ↦ rest ]

  unfoldable pub handle_get : Master u → Message → Message → Run (Master u × Message)
  unfolding ask_next send_get
  handle_get m req reply = elim req.key [
    | none ↦ fault
    | some k ↦ Cache.get u m.cache k >>= λ r.
        let m' : Master u = record m { cache = r.2 } in
        if is_zero r.0
        then done (m', answered reply k (some r.1))
        else (get_primary u m' k >>= λ i. done (
          m',
          answered reply k (elim (send_get net 0 i k) [
            | some v ↦ some v
            | none ↦ ask_next (m.redundancy - 1) 1 m' i k
          ]),
        ))
  ]

  -- The first phase, from the slave at place `i` on: whether to abort, and the events.
  unfoldable pub poll : Bool → MsgType → ℕ → Bool → ℕ → List Slave → Bool × List Event
  poll callback type count stop i [] = (stop, [])
  poll callback type count stop i (s ∷ r) =
      let rest =
        poll callback type count (if is_vote_abort (net.vote i) then true else stop) (i + 1) r in
      if ltb i count
      then (rest.0, called callback (net.up_first i) i (sent i type ∷ rest.1))
      else (stop, [])

  -- The messages to one slave until it acknowledges, from the n-th on.
  unfoldable pub insist : ℕ → MsgType → ℕ → ℕ → Run (List Event)
  insist zero type i n = spin
  insist (suc fuel) type i n =
      let rest = insist fuel type i (n + 1) >>= λ es. done (sent i type ∷ es) in
      if is_ack (net.answer i n) then done (sent i type ∷ []) else rest

  -- The second phase, from the slave at place `i` on.
  unfoldable pub announce : ℕ → Bool → MsgType → ℕ → ℕ → List Slave → Run (List Event)
  unfolding insist
  announce fuel callback type count i [] = done []
  announce fuel callback type count i (s ∷ r) =
      let rest = announce fuel callback type count (i + 1) r in
      let one = insist fuel type i 0 in
      if ltb i count
      then (one >>= λ es. rest >>= λ fs. done (called callback (net.up_second i) i (es ++ fs)))
      else done []

  unfoldable pub handle_tpc : ℕ → Bool → Master u → Message → Message → Run (List Event × Message)
  unfolding poll announce
  handle_tpc fuel callback m req reply =
      let first = poll callback req.type m.slave_count false 0 m.slaves in
      announce fuel callback (decision first.0) m.slave_count 0 m.slaves >>= λ second. done (
        first.1 ++ ((if callback then between ∷ [] else []) ++ second),
        record reply { type = resp; message = some success },
      )
