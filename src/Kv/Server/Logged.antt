-- ===== src/Kv/Server/Logged.antt =====
-- The log of a server: its files are a list of entries, and the loop of the commit finds the last.
use native.Mathlib.Nat.{zero-add}
use mathlib.Core.List.{append_assoc}
use sum.Prelude.{
  ℕ, zero, suc, ◌+◌, ◌<◌, ◌^◌, ◌≡◌, refl, true, Option, List, [], ◌∷◌, ◌++◌, ltb, if◌then◌else◌,
  length, drop, length-append, done, fault, arith, ◌∙◌, ap, sym,
}
use sum.Kv.Text.{Text, IsText, c_str, c_str-terminated, drop-terminated}
use sum.Kv.Codes.{MsgType, putreq, delreq, max_vallen}
use sum.Kv.Memory.{Memory}
use sum.Kv.Disk.{FileSystem, KvEntry, LogEntry, whole, after}
use sum.Kv.Log.{Log, next_id, is_loggable, make_log, iterate_begin, iterate_next}
use sum.Kv.Log.Files.{LogHolds, From, here, there, log_lem}
use sum.Kv.Server.{Server}
use sum.Kv.Server.Coherent.{IsServer}
use sum.Kv.Server.Handle.{Pointer, entry, unset, last_entry, log_msg, Unset, data_key, data_value}

-- The log of the server holds the entries `ls`, and the next number is theirs.
pub record IsLogged (u : Memory) (fs : FileSystem) (s : Server u fs) (ls : List LogEntry)
    : Type 0 where
  pub files : LogHolds fs s.disk ls
  pub numbered : s.log.nextid ≡ length ls

-- The next log file can be opened, and the entry is written to it whole.
pub record Writes (u : Memory) (fs : FileSystem) (s : Server u fs) (e : LogEntry) (d : fs.Disk)
    : Type 0 where
  pub opens : fs.can_open s.disk s.log.nextid ≡ true
  pub written : fs.write_log s.disk s.log.nextid e ≡ whole d

-- The entry of a PUTREQ, of a DELREQ, and of a COMMIT or an ABORT.
abbrev pub put_entry : Text → Text → LogEntry
put_entry k v = record {
  type = putreq;
  length = length k + 1 + (length v + 1);
  bytes = k ++ (0 ∷ (v ++ 0 ∷ []));
}

abbrev pub del_entry : Text → LogEntry
del_entry k = record { type = delreq; length = length k + 1; bytes = k ++ 0 ∷ [] }

abbrev pub mark_entry : MsgType → LogEntry
mark_entry t = record { type = t; length = 0; bytes = [] }

abbrev pub last_or : Pointer → List LogEntry → Pointer
last_or p [] = p
last_or p (e ∷ ls) = last_or (entry e) ls

pub last_or-append_one :
    (p : Pointer) (ls : List LogEntry) (e : LogEntry) → last_or p (ls ++ e ∷ []) ≡ entry e
last_or-append_one p [] e = refl
last_or-append_one p (f ∷ ls) e = last_or-append_one (entry f) ls e

-- The copies that a commit makes of the key and the value of a logged PUTREQ.
pub put_entry_read :
    (x : Unset) (k v : Text)
    → IsText k
    → IsText v
    → (data_key x (put_entry k v) ≡ k)
      × (data_value x (put_entry k v) ≡ (if ltb (length v) max_vallen then done v else fault))
unfolding data_key data_value
put_entry_read x k v hk hv =
    let whole_bytes : (k ++ (0 ∷ (v ++ 0 ∷ []))) ++ x.behind ≡ k ++ (0 ∷ (v ++ (0 ∷ x.behind))) =
      append_assoc k (0 ∷ (v ++ 0 ∷ [])) x.behind
      ∙ ap (λ t. k ++ (0 ∷ t)) (append_assoc v (0 ∷ []) x.behind) in
    let key = c_str-terminated k (v ++ (0 ∷ x.behind)) hk in
    let value : c_str (drop (suc (length k)) (k ++ (0 ∷ (v ++ (0 ∷ x.behind))))) ≡ v =
      ap c_str (drop-terminated k (v ++ (0 ∷ x.behind))) ∙ c_str-terminated v x.behind hv in
    (rw whole_bytes key, rw whole_bytes (rw key (rw value refl)))

-- For a logged DELREQ the copy of the value reads behind the entry.
pub del_entry_read :
    (x : Unset) (k : Text)
    → IsText k
    → (data_key x (del_entry k) ≡ k)
      × (data_value x (del_entry k)
          ≡ (if ltb (length (c_str x.behind)) max_vallen then done (c_str x.behind) else fault))
unfolding data_key data_value
del_entry_read x k hk =
    let whole_bytes : (k ++ 0 ∷ []) ++ x.behind ≡ k ++ (0 ∷ x.behind) =
      append_assoc k (0 ∷ []) x.behind in
    let key = c_str-terminated k x.behind hk in
    (rw whole_bytes key, rw whole_bytes (rw key (rw drop-terminated refl)))

module _ (u : Memory) (fs : FileSystem) where
  last_entry-From :
      (fuel : ℕ) (d : fs.Disk) (l : Log) (p : Pointer) (ls : List LogEntry)
      → From fs d l.iterpos ls
      → l.iterpos + length ls < 2 ^ 63
      → length ls < fuel
      → last_entry u fs fuel d l p
        ≡ done (last_or p ls, record l { iterpos = l.iterpos + length ls })
  unfolding last_entry iterate_next
  last_entry-From zero d l p ls at short f = elim f [ ]
  last_entry-From (suc fuel) d l p [] at short f = ground (arith, here fs d l.iterpos [] at)
  last_entry-From (suc fuel) d l p (e ∷ ls) at short f =
      let l' : Log = record l { iterpos = next_id l.iterpos } in
      ground (
        arith,
        here fs d l.iterpos (e ∷ ls) at,
        last_entry-From fuel d l' (entry e) ls (there fs d l.iterpos e ls at (omega arith))
            (omega arith) (omega arith),
      )

  -- The loop of a commit finds the last entry of the log.
  pub last_entry_lem :
      (fuel : ℕ) (s : Server u fs) (ls : List LogEntry)
      → IsLogged u fs s ls
      → length ls < fuel
      → last_entry u fs fuel s.disk (iterate_begin fs s.log) unset
        ≡ done (last_or unset ls, record (s.log) { iterpos = length ls })
  unfolding iterate_begin
  last_entry_lem fuel s ls h f =
      let all : From fs s.disk 0 ls = λ i. rw zero-add (h.files.at i) in
      let l : Log = record (s.log) { iterpos = 0 } in
      let size : 0 + length ls ≡ length ls = omega arith in
      rw size at (last_entry-From fuel s.disk l unset ls all (omega (arith, h.files.short)) f)

  -- The server after an entry was logged.
  abbrev pub logged : Server u fs → fs.Disk → Server u fs
  logged s d = record s { disk = d; log = record (s.log) { nextid = s.log.nextid + 1 } }

  -- A loggable message whose entry is written whole joins the log, and the store is as it was.
  pub log_msg_lem :
      (s : Server u fs) (d : fs.Disk) (es : ℕ → List KvEntry) (ls : List LogEntry) (t : MsgType)
      (k v : Option Text) (e : LogEntry)
      → IsServer u fs s es
      → IsLogged u fs s ls
      → length ls + 1 < 2 ^ 63
      → is_loggable t ≡ true
      → make_log t k v ≡ done e
      → Writes u fs s e d
      → (log_msg u fs s t k v ≡ done (logged s d))
        × IsServer u fs (logged s d) es
        × IsLogged u fs (logged s d) (ls ++ e ∷ [])
  unfolding log_msg
  log_msg_lem s d es ls t k v e h l room ok made w =
      let (logs, files) =
        log_lem fs s.disk d s.log ls t k v e l.files l.numbered room ok made w.opens w.written in
      (
        ground (arith, logs, l.numbered),
        record {
          cache = h.cache;
          store = record {
            dir =
                ap (λ x. fs.has_dir (after x)) (sym w.written)
                ∙ fs.has_dir-write_log s.disk s.log.nextid e
                ∙ h.store.dir;
            chain = λ g. record {
              at = λ i.
                  ap (λ x. fs.entry_at (after x) g i) (sym w.written)
                  ∙ fs.entry_at-write_log s.disk s.log.nextid g i e
                  ∙ (h.store.chain g).at i;
              short = (h.store.chain g).short;
            };
            distinct = h.store.distinct;
          };
          coherent = h.coherent;
          small = h.small;
        },
        record { files = files; numbered = omega (arith, length-append ls (e ∷ []), l.numbered) },
      )
