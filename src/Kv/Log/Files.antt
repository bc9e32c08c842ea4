-- ===== src/Kv/Log/Files.antt =====
-- The files of the log as a list of entries: what init, log, the iteration and clear_log make of it.
use native.Mathlib.Nat.{add-zero, zero-add}
use sum.Prelude.{
  ℕ, zero, suc, ◌+◌, ◌<◌, ◌^◌, ◌≡◌, true, false, Option, none, some, List, [], ◌∷◌, ◌++◌, map, pos,
  length, length-append, head?, get_elem?, get_elem?-append_one, done, arith, ap, ◌∙◌,
}
use sum.Kv.Text.{Text}
use sum.Kv.Codes.{MsgType, err_invldmsg}
use sum.Kv.Disk.{FileSystem, Node, absent, file, LogEntry, whole}
use sum.Kv.Log.{
  Log, next_id, log, make_log, is_loggable, end_from, init, open_log, iterate_begin,
  iterate_has_next, iterate_next,
}

abbrev pub node_of : Option LogEntry → Node LogEntry
node_of none = absent
node_of (some e) = file e

-- The log files hold the entries of a list, oldest first, and nothing comes after.
pub record LogHolds (fs : FileSystem) (d : fs.Disk) (ls : List LogEntry) : Type 0 where
  pub at : (i : ℕ) → fs.log_at d i ≡ node_of (get_elem? ls i)
  pub short : length ls < 2 ^ 63

module _ (fs : FileSystem) where
  abbrev pub From : fs.Disk → ℕ → List LogEntry → Type 0
  From d n ls = (i : ℕ) → fs.log_at d (n + i) ≡ node_of (get_elem? ls i)

  pub here :
      (d : fs.Disk) (n : ℕ) (ls : List LogEntry) → From d n ls → fs.log_at d n ≡ node_of (head? ls)
  here d n [] at = rw add-zero at (at 0)
  here d n (e ∷ ls) at = rw add-zero at (at 0)

  pub there :
      (d : fs.Disk) (n : ℕ) (e : LogEntry) (ls : List LogEntry)
      → From d n (e ∷ ls)
      → n + 1 < 2 ^ 64
      → From d (next_id n) ls
  there d n e ls at b i =
      let step : next_id n + i ≡ n + suc i = omega arith in ap (fs.log_at d) step ∙ at (suc i)

  end_from_lem :
      (fuel : ℕ) (d : fs.Disk) (n : ℕ) (ls : List LogEntry)
      → From d n ls
      → n + length ls < 2 ^ 63
      → length ls < fuel
      → end_from fs fuel d n ≡ done (n + length ls)
  unfolding end_from
  end_from_lem zero d n ls at short f = elim f [ ]
  end_from_lem (suc fuel) d n [] at short f = ground (arith, here d n [] at)
  end_from_lem (suc fuel) d n (e ∷ ls) at short f = ground (
    arith,
    here d n (e ∷ ls) at,
    end_from_lem fuel d (next_id n) ls (there d n e ls at (omega arith)) (omega arith)
        (omega arith),
  )

  -- In a directory that is there, with fuel for the log that it holds, the initialisation returns
  -- 0 and a log whose next number is the number of entries.
  pub log_init_lem :
      (fuel : ℕ) (d : fs.Disk) (ls : List LogEntry)
      → fs.has_dir d ≡ true
      → LogHolds fs d ls
      → length ls < fuel
      → init fs fuel d ≡ done (pos 0, d, some (record { nextid = length ls; iterpos = 0 }))
  unfolding init open_log
  log_init_lem fuel d ls dir h f =
      let all : From d 0 ls = λ i. rw zero-add (h.at i) in
      ground (arith, end_from_lem fuel d 0 ls all (omega (arith, h.short)) f)

  -- What the status of a write of the log says of the files.
  abbrev LogWritten : fs.Disk → Log → List LogEntry → LogEntry → Type 0
  LogWritten d' l' ls e = LogHolds fs d' (ls ++ e ∷ []) × (l'.nextid ≡ length ls + 1)

  -- On a disk that holds a log with room for one more entry, with the next number right, a
  -- loggable message whose file can be opened and is written whole is logged with status 0: it
  -- stands at the end of the log, and the next number counts it.
  pub log_lem :
      (d d' : fs.Disk) (l : Log) (ls : List LogEntry) (t : MsgType) (k v : Option Text)
      (e : LogEntry)
      → LogHolds fs d ls
      → l.nextid ≡ length ls
      → length ls + 1 < 2 ^ 63
      → is_loggable t ≡ true
      → make_log t k v ≡ done e
      → fs.can_open d l.nextid ≡ true
      → fs.write_log d l.nextid e ≡ whole d'
      → (log fs d l t k v ≡ done (pos 0, d', record l { nextid = length ls + 1 }))
        × LogHolds fs d' (ls ++ e ∷ [])
  unfolding log
  log_lem d d' l ls t k v e h next room ok made opens written =
      let step : next_id l.nextid ≡ length ls + 1 = omega arith in
      (
        ground (arith, made, opens, written, ok, step),
        record {
          at = λ i. ground (
            arith,
            fs.log_at-write d d' l.nextid i e written,
            get_elem?-append_one ls i e,
            h.at i,
          );
          short = omega (arith, length-append ls (e ∷ []));
        },
      )

  -- A type that is not logged is refused, and nothing changes.
  pub log_refused :
      (d : fs.Disk) (l : Log) (t : MsgType) (k v : Option Text)
      → is_loggable t ≡ false
      → log fs d l t k v ≡ done (err_invldmsg, d, l)
  unfolding log
  log_refused d l t k v h = ground (arith, h)

  -- The entries that an iteration returns, up to `rounds` of them.
  unfoldable pub collect : ℕ → fs.Disk → Log → List (Option LogEntry)
  collect zero d l = []
  collect (suc rounds) d l =
      let rest = collect rounds d (iterate_next fs d l).1 in
      elim (iterate_has_next fs d l) [ true ↦ (iterate_next fs d l).0 ∷ rest | false ↦ [] ]

  collect_lem :
      (rounds : ℕ) (d : fs.Disk) (l : Log) (ls : List LogEntry)
      → From d l.iterpos ls
      → l.iterpos + length ls < 2 ^ 63
      → length ls < rounds
      → collect rounds d l ≡ map some ls
  unfolding collect iterate_next
  collect_lem zero d l ls at short f = elim f [ ]
  collect_lem (suc rounds) d l [] at short f = ground (arith, here d l.iterpos [] at)
  collect_lem (suc rounds) d l (e ∷ ls) at short f =
      let l' : Log = record l { iterpos = next_id l.iterpos } in
      ground (
        arith,
        here d l.iterpos (e ∷ ls) at,
        collect_lem rounds d l' ls (there d l.iterpos e ls at (omega arith)) (omega arith)
            (omega arith),
      )

  -- With rounds for all entries, an iteration from the start of a log returns every entry of the
  -- log, oldest first, and then ends.
  pub iterate_all :
      (rounds : ℕ) (d : fs.Disk) (l : Log) (ls : List LogEntry)
      → LogHolds fs d ls
      → length ls < rounds
      → collect rounds d (iterate_begin fs l) ≡ map some ls
  unfolding iterate_begin
  iterate_all rounds d l ls h f =
      let all : From d 0 ls = λ i. rw zero-add (h.at i) in
      collect_lem rounds d (record l { iterpos = 0 }) ls all (omega (arith, h.short)) f
