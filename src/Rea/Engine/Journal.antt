-- ===== src/Rea/Engine/Journal.antt =====
-- The durable journal: `_append_record`, `_record`, and `_read_journal`.
pub mod Runs
use sene_x.Common.{
  ℕ, zero, suc, ◌+◌, ◌-◌, String, Bool, true, false, not, ◌&&◌, ◌||◌, if◌then◌else◌, ltb, leb, ◌==◌,
  List, [], ◌∷◌, ◌++◌, Option, none, some, is_some, Outcome, ok, err, ◌>>=◌, ◌>>◌, raise_if,
}
use sene_x.Common.Text.{text_eq, mem_text}
use sene_x.Rea.Paper.Order.{PaperOrder, find_order, remaining_qty}
use sene_x.Rea.Paper.State.{Digest}
use sene_x.Rea.Paper.Fill.{FillEvent, is_before, same_digest}
use sene_x.Rea.Engine.Event.{
  EngineError, unknown_order_id, engine_blocked, time_moved_back, event_conflict, lock_unavailable,
  writer_active, durability_failure, writer_conflict, unsupported_event, torn_journal,
  malformed_record, sequence_gap, duplicate_event_id, broken_chain, wrong_hash, nonempty,
  FillPayload, Event, fill_applied, snapshot_reconciled, mismatched, unsupported, same_event, Entry,
  Record, EngineStatus, live, BlockReason, durability, conflict, on_close, Book, Engine, FillReply,
  Reply, nothing, fill, report,
}
use sene_x.Rea.Engine.Reduce.{find_terminal, Candidate, make_report, known_order, reduce}

-- What the engine takes from outside: the SHA-256 of a fill and of a record's canonical JSON, and
-- the number of bytes of a record's line.
pub record Hashing : Type 0 where
  pub digest : FillEvent → Digest
  pub sha : Entry → Digest
  pub line_size : Record → ℕ

-- `GENESIS_HASH`: 64 zeros.
zeros : ℕ → Digest
zeros n = elim n [ zero ↦ [] | suc (m → rest) ↦ b'0' ∷ rest ]

unfoldable pub genesis_hash : Digest
unfolding zeros
genesis_hash = zeros 64

-- The journal file: its complete lines, oldest first, the bytes of an unfinished last line, and
-- its size. A line that does not parse to the fields of a record is `none`.
pub record Disk : Type 0 where
  pub lines : List (Option Record)
  pub tail : ℕ
  pub size : ℕ

-- How the operating system answers one append. Whatever happens under the writer lock, unlocking
-- or closing the lock's file can fail after it.
pub data Append : Type 0 where
  lock_fails seek_fails lock_held stat_fails open_fails : Append
  write_stops : ℕ → Append
  sync_fails close_fails appended : Append
  unlock_fails : Append → Append

abbrev pub block : BlockReason → Engine → Engine
block r g = record g { book = record g.book { blocked = some r } }

-- The whole line reaches the file.
abbrev pub add_line : ℕ → Record → Disk → Disk
add_line bytes r d = record d { lines = d.lines ++ some r ∷ []; size = d.size + bytes }

-- Only some bytes of it do.
abbrev pub add_part : ℕ → Disk → Disk
add_part bytes d = record d { tail = d.tail + bytes; size = d.size + bytes }

-- A call's exception or value, with the engine and the file as the call leaves them.
abbrev pub Done : Type 0 → Type 0
Done A = Outcome EngineError A × Engine × Disk

-- The part of `_append_record` under the lock, once the sizes agree.
unfoldable pub write_line : ℕ → Record → Append → Engine → Disk → Done (Unit {0})
write_line bytes r open_fails g d = (err durability_failure, block durability g, d)
write_line bytes r (write_stops n) g d =
    (err durability_failure, block durability g, add_part (if ltb n bytes then n else bytes - 1) d)
write_line bytes r sync_fails g d = (err durability_failure, block durability g, add_line bytes r d)
write_line bytes r close_fails g d =
    if is_some g.blocked
    then (ok tt, record g { journal_size = g.journal_size + bytes }, add_line bytes r d)
    else (err durability_failure, block on_close g, add_line bytes r d)
write_line bytes r _ g d =
    (ok tt, record g { journal_size = g.journal_size + bytes }, add_line bytes r d)

-- The `finally` of `_writer_lock` raises: that error replaces any other, and is caught around the
-- `with`. A lock file that could not be opened is not closed, and an open one is closed once.
abbrev pub release_fails : Append → Done (Unit {0}) → Done (Unit {0})
release_fails lock_fails m = m
release_fails (unlock_fails _) m = m
release_fails _ (_, g, d) = (err durability_failure, block durability g, d)

-- `_append_record`
unfoldable pub append_record : ℕ → Record → Append → Engine → Disk → Done (Unit {0})
unfolding write_line
append_record bytes r lock_fails g d = (err lock_unavailable, g, d)
append_record bytes r seek_fails g d = (err durability_failure, block durability g, d)
append_record bytes r lock_held g d = (err writer_active, g, d)
append_record bytes r stat_fails g d = (err durability_failure, block durability g, d)
append_record bytes r (unlock_fails a) g d = release_fails a (append_record bytes r a g d)
append_record bytes r answer g d =
    if d.size == g.journal_size
    then write_line bytes r answer g d
    else (err writer_conflict, block conflict g, d)

-- `_events_by_id.get(key)`
unfoldable pub find_event : String → List Record → Option Record
find_event key [] = none
find_event key (r ∷ rs) = if text_eq r.entry.event_id key then some r else find_event key rs

-- `_existing_event`
unfoldable pub existing_event : Book → String → Event → ℕ → Outcome EngineError (Option Record)
existing_event g key event timestamp = elim (find_event key g.events) [
  | none ↦ ok none
  | some prior ↦
      if prior.entry.timestamp == timestamp && same_event prior.entry.event event
      then ok (some prior)
      else err event_conflict
]

-- `status` of an order that is there.
unfoldable pub status_of : Book → PaperOrder → EngineStatus
unfolding find_terminal
status_of g o = elim (find_terminal o.order_id g.terminal) [ some s ↦ s | none ↦ live o.status ]

-- `_find_order`: the orders under the key must be exactly one.
unfoldable pub orders_under : String → List PaperOrder → List PaperOrder
orders_under key [] = []
orders_under key (o ∷ os) =
    let rest = orders_under key os in if text_eq o.order_id key then o ∷ rest else rest

abbrev pub the_only : List PaperOrder → Outcome EngineError PaperOrder
the_only (o ∷ []) = ok o
the_only _ = err unknown_order_id

unfoldable pub get_order : Book → String → Outcome EngineError PaperOrder
unfolding nonempty orders_under
get_order g order_id = do key ← nonempty order_id; the_only (orders_under key g.state.orders)

-- `FillApplication(False, True, self.status(...), order.remaining_qty)`
unfoldable pub duplicate_reply : Book → String → Outcome EngineError FillReply
unfolding get_order status_of
duplicate_reply g order_id = do
  o ← get_order g order_id
  ok (record {
    applied = false;
    duplicate = true;
    status = status_of g o;
    remaining = remaining_qty o;
  })

-- The answer of `_record` to an event that is already in the journal.
unfoldable pub repeated_event : Book → Event → Outcome EngineError (Bool × Reply)
unfolding duplicate_reply
repeated_event g (fill_applied p seq) = do r ← duplicate_reply g p.order_id; ok (false, fill r)
repeated_event g (snapshot_reconciled p) = do r ← make_report g p; ok (false, report r)
repeated_event g _ = ok (false, nothing)

abbrev pub remember_fill : Event → List FillPayload → List FillPayload
remember_fill (fill_applied p seq) ps = p ∷ ps
remember_fill _ ps = ps

-- The assignments that follow a reduction, in `_record` and in `recover`.
abbrev pub commit : Book → Record → Candidate → Book
commit g r c = record g {
  state = c.state;
  terminal = c.terminal;
  blocked = c.blocked;
  discrepancies = c.discrepancies;
  last_timestamp = some r.entry.timestamp;
  journal_seq = r.entry.journal_seq;
  journal_head = r.event_sha256;
  events = r ∷ g.events;
  fills = remember_fill r.entry.event g.fills;
}

module _ (h : Hashing) where
  abbrev pub next_entry : Book → String → Event → ℕ → Entry
  next_entry g event_id event timestamp = record {
    journal_seq = g.journal_seq + 1;
    event_id = event_id;
    timestamp = timestamp;
    event = event;
    prev_sha256 = g.journal_head;
  }

  abbrev pub seal : Entry → Record
  seal e = record { entry = e; event_sha256 = h.sha e }

  abbrev pub finish_append : Record → Candidate → Done (Unit {0}) → Done (Bool × Reply)
  finish_append r c (ok _, g, d) = (ok (true, c.reply), record g { book = commit g.book r c }, d)
  finish_append r c (err e, g, d) = (err e, g, d)

  -- The rest of `_record` once the reduction is known: the append, and then the new state.
  abbrev pub append_reduced :
      Record → Append → Engine → Disk → Outcome EngineError Candidate → Done (Bool × Reply)
  append_reduced r answer g d (err e) = (err e, g, d)
  append_reduced r answer g d (ok c) =
      finish_append r c (append_record (h.line_size r) r answer g d)

  -- `_record` of an event that is not in the journal.
  unfoldable pub record_new :
      Bool → String → Event → ℕ → Append → Engine → Disk → Done (Bool × Reply)
  record_new allow_while_blocked event_id event timestamp answer g d =
      let r = seal (next_entry g.book event_id event timestamp) in
      if is_some g.blocked && not allow_while_blocked
      then (err engine_blocked, g, d)
      else if is_before timestamp g.last_timestamp
      then (err time_moved_back, g, d)
      else append_reduced r answer g d (reduce h.digest g.book event (g.journal_seq + 1) timestamp)

  abbrev pub record_known :
      Bool
      → String
      → Event
      → ℕ
      → Append
      → Engine
      → Disk
      → Outcome EngineError (Option Record)
      → Done (Bool × Reply)
  record_known allow key event timestamp answer g d (err e) = (err e, g, d)
  record_known allow key event timestamp answer g d (ok (some prior)) =
      (repeated_event g.book event, g, d)
  record_known allow key event timestamp answer g d (ok none) =
      record_new allow key event timestamp answer g d

  -- `_record`, of an ID that is stripped and not empty, as all callers leave it.
  unfoldable pub record_event :
      Bool → String → Event → ℕ → Append → Engine → Disk → Done (Bool × Reply)
  record_event allow key event timestamp answer g d =
      record_known allow key event timestamp answer g d (existing_event g.book key event timestamp)

  abbrev pub is_supported : Event → Bool
  is_supported unsupported = false
  is_supported _ = true

  -- The checks of `_read_journal` on one record. Its timestamp is one that parses: another makes
  -- the line malformed.
  unfoldable pub check_line : ℕ → Digest → List String → Record → Outcome EngineError (Unit {0})
  unfolding nonempty
  check_line seq previous ids r = do
    raise_if (not (r.entry.journal_seq == seq)) sequence_gap
    key ← nonempty r.entry.event_id
    raise_if (mem_text r.entry.event_id ids) duplicate_event_id
    raise_if (not (is_supported r.entry.event)) unsupported_event
    raise_if (not (same_digest r.entry.prev_sha256 previous)) broken_chain
    raise_if (not (same_digest r.event_sha256 (h.sha r.entry))) wrong_hash

  -- Its loop, at the next sequence number, the previous hash and the IDs seen.
  unfoldable pub check_lines :
      ℕ → Digest → List String → List (Option Record) → Outcome EngineError (List Record)
  check_lines seq previous ids [] = ok []
  check_lines seq previous ids (none ∷ ls) = err malformed_record
  check_lines seq previous ids (some r ∷ ls) = do
    check_line seq previous ids r
    rest ← check_lines (seq + 1) r.event_sha256 (r.entry.event_id ∷ ids) ls
    ok (r ∷ rest)

  -- `_read_journal`
  unfoldable pub read_journal : Disk → Outcome EngineError (List Record)
  read_journal d = do
    raise_if (not (d.tail == 0)) torn_journal
    check_lines 1 genesis_hash [] d.lines
