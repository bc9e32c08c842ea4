-- ===== src/Pintos/Intq.antt =====
-- group1/pintos/src/devices/intq.c: a circular queue of bytes between threads and interrupt handlers.
-- The caller is a thread, by its number, or none for an interrupt handler; interrupts are off. A thread
-- that has to wait is noted as the waiter and blocks, where the step ends; a handler that would have to
-- wait fails an ASSERT, which is a fault. The lock of the queue, which lets one thread wait at a time,
-- is left out.
pub mod Fifo
use sum.Prelude.{
  ℕ, ◌+◌, ◌%◌, Bool, true, false, not, Option, none, some, List, get_elem?, set, replicate, ◌==◌,
  if◌then◌else◌, Run, done, fault, ◌>>=◌,
}
use sum.Pintos.Bitmap.{assert}

abbrev pub intq_bufsize : ℕ
intq_bufsize = 64

pub record Intq : Type 0 where
  pub not_full : Option ℕ
  pub not_empty : Option ℕ
  pub buf : List ℕ
  pub head : ℕ
  pub tail : ℕ

abbrev pub next : ℕ → ℕ
next pos = (pos + 1) % intq_bufsize

abbrev pub empty : Intq → Bool
empty q = q.head == q.tail

abbrev pub full : Intq → Bool
full q = next q.head == q.tail

-- intq_init, over whatever the buffer holds.
unfoldable pub init : List ℕ → Intq
init buf = record { not_full = none; not_empty = none; buf = buf; head = 0; tail = 0 }

-- intq_getc: the byte, or none if the caller blocks; the thread to wake up; and the queue.
unfoldable pub getc : Option ℕ → Intq → Run (Option ℕ × Option ℕ × Intq)
getc caller q =
    if empty q
    then elim caller [ none ↦ fault | some t ↦ done (none, none, record q { not_empty = some t }) ]
    else elim (get_elem? q.buf q.tail) [
      | none ↦ fault
      | some byte ↦
          let q' = record q { tail = next q.tail } in
          assert (not (full q')) (done (some byte, q.not_full, record q' { not_full = none }))
    ]

-- intq_putc: whether the byte is added or the caller blocks, the thread to wake up, and the queue.
unfoldable pub putc : Option ℕ → Intq → ℕ → Run (Bool × Option ℕ × Intq)
putc caller q byte =
    if full q
    then elim caller [ none ↦ fault | some t ↦ done (false, none, record q { not_full = some t }) ]
    else (let q' = record q { buf = set q.buf q.head byte; head = next q.head } in
        assert (not (empty q')) (done (true, q.not_empty, record q' { not_empty = none })))
