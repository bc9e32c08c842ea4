-- ===== src/Pintos/Intq/Fifo.antt =====
-- The bytes of an interrupt queue of devices/intq.c as a list, over intq_putc and intq_getc.
use sum.Prelude.{
  ℕ, zero, suc, ◌+◌, ◌-◌, ◌%◌, ◌<◌, ◌≡◌, refl, Bool, true, false, not, is_some, Option, none, some,
  List, [], ◌∷◌, ◌++◌, length, get_elem?, get_elem?-set, get_elem?-some, set, length-set, ltb, ◌==◌,
  if◌then◌else◌, done, arith, ap, ◌∙◌, Bool-cases, inl, inr,
}
use sum.Pintos.Intq.{Intq, next, empty, full, getc, putc}

pub record IsIntq (q : Intq) : Type 0 where
  pub size : length q.buf ≡ 64
  pub head : q.head < 64
  pub tail : q.tail < 64

-- The bytes in the queue, the oldest first.
abbrev pub byte_at : List ℕ → ℕ → ℕ
byte_at buf i = elim (get_elem? buf i) [ none ↦ 0 | some b ↦ b ]

abbrev pub items : ℕ → List ℕ → ℕ → List ℕ
items zero buf pos = []
items (suc n) buf pos = byte_at buf pos ∷ items n buf (next pos)

abbrev pub count : Intq → ℕ
count q = (q.head + 64 - q.tail) % 64

unfoldable pub contents : Intq → List ℕ
contents q = items (count q) q.buf q.tail

length-items : (n : ℕ) (buf : List ℕ) (pos : ℕ) → length (items n buf pos) ≡ n
length-items zero buf pos = refl
length-items (suc n) buf pos = ap suc (length-items n buf (next pos))

items-last :
    (n : ℕ) (buf : List ℕ) (pos : ℕ)
    → pos < 64
    → items (suc n) buf pos ≡ items n buf pos ++ (byte_at buf ((pos + n) % 64) ∷ [])
items-last zero buf pos lt =
    let here : pos ≡ (pos + 0) % 64 = omega arith in ap (λ p. byte_at buf p ∷ []) here
items-last (suc n) buf pos lt =
    let place : (next pos + n) % 64 ≡ (pos + suc n) % 64 = omega arith in
    ap (λ xs. byte_at buf pos ∷ xs)
      (items-last n buf (next pos) (omega arith)
        ∙ ap (λ p. items n buf (next pos) ++ (byte_at buf p ∷ [])) place)

-- A write behind the bytes leaves them.
items-set :
    (n : ℕ) (buf : List ℕ) (pos i v : ℕ)
    → pos < 64
    → i < length buf
    → ((k : ℕ) → k < n → ((pos + k) % 64 == i) ≡ false)
    → items n (set buf i v) pos ≡ items n buf pos
items-set zero buf pos i v lt inside apart = refl
items-set (suc n) buf pos i v lt inside apart =
    let other : (i == pos) ≡ false = ground (arith, apart 0 (omega arith), lt) in
    let same : get_elem? (set buf i v) pos ≡ get_elem? buf pos =
      get_elem?-set buf i pos v inside ∙ rw other refl in
    let first : byte_at (set buf i v) pos ≡ byte_at buf pos =
      ap (λ o. elim o [ none ↦ 0 | some b ↦ b ]) same in
    let rest = items-set n buf (next pos) i v (omega arith) inside (λ k small.
      let place : (next pos + k) % 64 ≡ (pos + suc k) % 64 = omega arith in
      ap (λ p. p == i) place ∙ apart (suc k) (omega arith)) in
    λ j. first j ∷ rest j

-- A byte is taken.
getc-some :
    (caller : Option ℕ) (q : Intq)
    → IsIntq q
    → empty q ≡ false
    → (x : ℕ) × (q' : Intq) × (getc caller q ≡ done (some x, q.not_full, q'))
      × (contents q ≡ x ∷ contents q')
      × IsIntq q'
      × (q'.not_full ≡ none)
      × (q'.not_empty ≡ q.not_empty)
unfolding getc contents
getc-some caller q h some_byte =
    let (x, found) = get_elem?-some q.buf q.tail (omega (arith, h.size, h.tail)) in
    let q' = record q { tail = next q.tail; not_full = none } in
    let room : full q' ≡ false = ground (arith, h.head, h.tail, some_byte) in
    let less : count q ≡ suc (count q') = ground (arith, h.head, h.tail, some_byte) in
    let first : byte_at q.buf q.tail ≡ x = ap (λ o. elim o [ none ↦ 0 | some b ↦ b ]) found in
    (
      x,
      q',
      ground (arith, some_byte, found, room),
      ap (λ n. items n q.buf q.tail) less ∙ ap (λ b. b ∷ contents q') first,
      record { size = h.size; head = h.head; tail = omega arith },
      refl,
      refl,
    )

-- A byte is added.
putc-added :
    (caller : Option ℕ) (q : Intq) (byte : ℕ)
    → IsIntq q
    → full q ≡ false
    → (q' : Intq) × (putc caller q byte ≡ done (true, q.not_empty, q'))
      × (contents q' ≡ contents q ++ (byte ∷ []))
      × IsIntq q'
      × (q'.not_empty ≡ none)
      × (q'.not_full ≡ q.not_full)
unfolding putc contents
putc-added caller q byte h room =
    let buf' = set q.buf q.head byte in
    let q' : Intq = record q { buf = buf'; head = next q.head; not_empty = none } in
    let inside : q.head < length q.buf = omega (arith, h.size, h.head) in
    let some_byte : empty q' ≡ false = ground (arith, h.head, h.tail, room) in
    let more : count q' ≡ suc (count q) = ground (arith, h.head, h.tail, room) in
    let place : (q.tail + count q) % 64 ≡ q.head = ground (arith, h.head, h.tail) in
    let self : (q.head == q.head) ≡ true = ground arith in
    let stored : get_elem? buf' q.head ≡ some byte =
      get_elem?-set q.buf q.head q.head byte inside ∙ rw self refl in
    let last : byte_at buf' ((q.tail + count q) % 64) ≡ byte =
      ap (byte_at buf') place ∙ ap (λ o. elim o [ none ↦ 0 | some b ↦ b ]) stored in
    let kept : items (count q) buf' q.tail ≡ items (count q) q.buf q.tail =
      items-set (count q) q.buf q.tail q.head byte h.tail inside
        (λ k small. ground (arith, h.head, h.tail, small)) in
    (
      q',
      ground (arith, room, some_byte),
      ap (λ n. items n buf' q.tail) more
          ∙ items-last (count q) buf' q.tail h.tail
          ∙ ap (λ b. items (count q) buf' q.tail ++ (b ∷ [])) last
          ∙ ap (λ xs. xs ++ (byte ∷ [])) kept,
      record { size = length-set q.buf q.head byte ∙ h.size; head = omega arith; tail = h.tail },
      refl,
      refl,
    )

-- A waiter that is noted leaves the bytes.
contents-waiter : (q : Intq) (t : ℕ) → contents (record q { not_full = some t }) ≡ contents q
unfolding contents
contents-waiter q t = refl

contents-reader : (q : Intq) (t : ℕ) → contents q ≡ contents (record q { not_empty = some t })
unfolding contents
contents-reader q t = refl

full_lem : (q : Intq) → IsIntq q → full q ≡ not (ltb (length (contents q)) 63)
unfolding contents
full_lem q h = ground (arith, length-items (count q) q.buf q.tail, h.head, h.tail)

-- intq_putc of a thread, on a well-formed queue: with less than 63 bytes in it, the byte is added
-- behind them and the thread that waits for a byte is woken; with 63, the bytes stay and the
-- thread is noted as waiting for room. The queue stays well formed.
pub putc_lem :
    (q : Intq) (t byte : ℕ)
    → IsIntq q
    → (ok : Bool) × (woken : Option ℕ) × (q' : Intq) × (putc (some t) q byte ≡ done (ok, woken, q'))
      × (ok ≡ ltb (length (contents q)) 63)
      × (contents q' ≡ (if ok then contents q ++ (byte ∷ []) else contents q))
      × (woken ≡ (if ok then q.not_empty else none))
      × (q'.not_full ≡ (if ok then q.not_full else some t))
      × IsIntq q'
unfolding putc
putc_lem q t byte h = elim (Bool-cases (full q)) [
  | inl closed ↦
      let size : false ≡ ltb (length (contents q)) 63 = ground (arith, full_lem q h, closed) in
      let kept : contents (record q { not_full = some t }) ≡ contents q = contents-waiter q t in
      let same : IsIntq (record q { not_full = some t }) = record {
        size = h.size;
        head = h.head;
        tail = h.tail;
      } in
      (false, none, record q { not_full = some t }, rw closed refl, size, kept, refl, refl, same)
  | inr room ↦
      let (q', runs, added, valid, woken, waits) = putc-added (some t) q byte h room in
      let size : true ≡ ltb (length (contents q)) 63 = ground (arith, full_lem q h, room) in
      (true, q.not_empty, q', runs, size, added, refl, waits, valid)
]

empty_lem : (q : Intq) → IsIntq q → empty q ≡ (length (contents q) == 0)
unfolding contents
empty_lem q h = ground (arith, length-items (count q) q.buf q.tail, h.head, h.tail)

-- intq_getc of a thread, on a well-formed queue: with a byte in it, the oldest is taken out and
-- the thread that waits for room is woken; with none, the thread is noted as waiting for a byte.
-- The queue stays well formed.
pub getc_lem :
    (q : Intq) (t : ℕ)
    → IsIntq q
    → (byte : Option ℕ) × (woken : Option ℕ) × (q' : Intq) × (getc (some t) q
        ≡ done (byte, woken, q'))
      × (is_some byte ≡ not (length (contents q) == 0))
      × (contents q ≡ elim byte [ none ↦ contents q' | some x ↦ x ∷ contents q' ])
      × (woken ≡ (if is_some byte then q.not_full else none))
      × (q'.not_empty ≡ (if is_some byte then q.not_empty else some t))
      × IsIntq q'
unfolding getc
getc_lem q t h = elim (Bool-cases (empty q)) [
  | inl nothing ↦
      let size : false ≡ not (length (contents q) == 0) = ground (arith, empty_lem q h, nothing) in
      let kept : contents q ≡ contents (record q { not_empty = some t }) = contents-reader q t in
      let same : IsIntq (record q { not_empty = some t }) = record {
        size = h.size;
        head = h.head;
        tail = h.tail;
      } in
      (none, none, record q { not_empty = some t }, rw nothing refl, size, kept, refl, refl, same)
  | inr some_byte ↦
      let (x, q', runs, taken, valid, woken, waits) = getc-some (some t) q h some_byte in
      let size : true ≡ not (length (contents q) == 0) = ground (arith, empty_lem q h, some_byte) in
      (some x, q.not_full, q', runs, size, taken, refl, waits, valid)
]
