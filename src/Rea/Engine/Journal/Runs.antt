-- ===== src/Rea/Engine/Journal/Runs.antt =====
-- The four ways in which a call ends.
use sene_x.Common.{
  ℕ, ◌+◌, String, ◌≡◌, refl, sym, ◌≢◌, ==_iff, if◌then◌else◌, ◌⊎◌, inl, inr, Bool, true, false, not,
  ◌==◌, ◌&&◌, Option, none, is_some, Outcome, ok, err, Bool-cases, Option-cases, Outcome-cases,
  arith,
}
use sene_x.Rea.Paper.Fill.{is_before}
use sene_x.Rea.Engine.Event.{
  EngineError, nonempty, writer_conflict, durability_failure, conflict, durability, same_event,
  Event, Record, Book, Engine, BlockReason, Reply,
}
use sene_x.Rea.Engine.Reduce.{Candidate, reduce}
use sene_x.Rea.Engine.Journal.{
  Hashing, Disk, Append, lock_fails, seek_fails, lock_held, stat_fails, open_fails, write_stops,
  sync_fails, close_fails, appended, unlock_fails, release_fails, Done, block, add_line, write_line,
  append_record, find_event, existing_event, commit, next_entry, seal, append_reduced,
  finish_append, record_new, record_event, repeated_event,
}

-- What holds of an event that a call has put into the journal.
pub record Accepted (h : Hashing) (g : Engine) (d : Disk) (allow : Bool) (key : String)
    (event : Event) (t : ℕ) (c : Candidate) : Type 0 where
  pub named : nonempty key ≡ ok key
  pub unseen : find_event key g.events ≡ none
  pub unblocked : (g.blocked ≡ none) ⊎ (allow ≡ true)
  pub later : is_before t g.last_timestamp ≡ false
  pub reduced : reduce h.digest g.book event (g.journal_seq + 1) t ≡ ok c
  pub in_step : d.size ≡ g.journal_size

abbrev pub written : Hashing → Engine → String → Event → ℕ → Record
written h g key event t = seal h (next_entry h g.book key event t)

abbrev pub engine_after : Hashing → Engine → Record → Candidate → Engine
engine_after h g r c = record {
  book = commit g.book r c;
  journal_size = g.journal_size + h.line_size r;
}

-- The event that a call recorded, and how it left the engine and the file.
pub record Wrote (h : Hashing) (g : Engine) (d : Disk) (r : Reply) (g' : Engine) (d' : Disk)
    : Type 0 where
  pub allow : Bool
  pub key : String
  pub event : Event
  pub time : ℕ
  pub candidate : Candidate
  pub accepted : Accepted h g d allow key event time candidate
  pub replied : r ≡ candidate.reply
  pub engine : g' ≡ engine_after h g (written h g key event time) candidate
  pub disk : d' ≡ add_line (h.line_size (written h g key event time)) (written h g key event time) d

-- The engine when the lock could not be released after its line was written: blocked, and past the
-- line's bytes, but not past its event.
abbrev pub unreleased_engine : ℕ → Engine → Engine
unreleased_engine bytes g = block durability (record g { journal_size = g.journal_size + bytes })

-- A call is refused or answered without effect, or it freezes the engine, or it records one event
-- in the file and in the engine, or in the file only.
pub data Ran (h : Hashing) (g : Engine) (d : Disk) : Done (Bool × Reply) → Type 0 where
  refused : (e : EngineError) → Ran h g d (err e, g, d)
  answered : (r : Reply) → Ran h g d (ok (false, r), g, d)
  frozen : (e : EngineError) (why : BlockReason) (d' : Disk) → Ran h g d (err e, block why g, d')
  unreleased :
      (e : EngineError) (r : Record)
      → r.entry.journal_seq ≡ g.journal_seq + 1
      → d.size ≡ g.journal_size
      → Ran h g d (err e, unreleased_engine (h.line_size r) g, add_line (h.line_size r) r d)
  recorded :
      (r : Reply) (g' : Engine) (d' : Disk) → Wrote h g d r g' d' → Ran h g d (ok (true, r), g', d')

-- An append is refused, or freezes the engine, or succeeds on the file that the engine expects, or
-- does and cannot release the lock.
pub data Appends (bytes : ℕ) (r : Record) (g : Engine) (d : Disk) : Done (Unit {0}) → Type 0 where
  not_tried : (e : EngineError) → Appends bytes r g d (err e, g, d)
  failed :
      (e : EngineError) (why : BlockReason) (d' : Disk)
      → Appends bytes r g d (err e, block why g, d')
  written_unreleased :
      (e : EngineError)
      → d.size ≡ g.journal_size
      → Appends bytes r g d (err e, unreleased_engine bytes g, add_line bytes r d)
  done :
      d.size ≡ g.journal_size
      → Appends bytes r g d
          (ok tt, record g { journal_size = g.journal_size + bytes }, add_line bytes r d)

write_line-Appends :
    (bytes : ℕ) (r : Record) (a : Append) (g : Engine) (d : Disk)
    → d.size ≡ g.journal_size
    → Appends bytes r g d (write_line bytes r a g d)
unfolding write_line
write_line-Appends bytes r open_fails g d e = failed _ _ _
write_line-Appends bytes r (write_stops n) g d e = failed _ _ _
write_line-Appends bytes r sync_fails g d e = failed _ _ _
write_line-Appends bytes r close_fails g d e = elim (Bool-cases (is_some g.blocked)) [
  | inl held ↦ rw held (done e)
  | inr free ↦ rw free (failed _ _ _)
]
write_line-Appends bytes r lock_fails g d e = done e
write_line-Appends bytes r lock_held g d e = done e
write_line-Appends bytes r stat_fails g d e = done e
write_line-Appends bytes r appended g d e = done e
write_line-Appends bytes r seek_fails g d e = done e
write_line-Appends bytes r (unlock_fails a) g d e = done e

sized_append-Appends :
    (bytes : ℕ) (r : Record) (a : Append) (g : Engine) (d : Disk)
    → Appends bytes r g d (
        if d.size == g.journal_size
        then write_line bytes r a g d
        else (err writer_conflict, block conflict g, d))
sized_append-Appends bytes r a g d = elim (Bool-cases (d.size == g.journal_size)) [
  | inl same ↦ rw same (write_line-Appends bytes r a g d ((==_iff _ _).0 same))
  | inr moved ↦ rw moved (failed _ _ _)
]

lost :
    {bytes : ℕ} {r : Record} {g : Engine} {d : Disk} {m : Done (Unit {0})}
    → Appends bytes r g d m
    → Appends bytes r g d (err durability_failure, block durability m.1, m.2)
lost (not_tried e) = failed _ _ _
lost (failed e why d') = failed _ _ _
lost (written_unreleased e same) = written_unreleased _ same
lost (done same) = written_unreleased _ same

release_fails-Appends :
    (bytes : ℕ) (r : Record) (a : Append) (g : Engine) (d : Disk) (m : Done (Unit {0}))
    → Appends bytes r g d m
    → Appends bytes r g d (release_fails a m)
release_fails-Appends bytes r lock_fails g d m p = p
release_fails-Appends bytes r seek_fails g d m p = lost p
release_fails-Appends bytes r lock_held g d m p = lost p
release_fails-Appends bytes r stat_fails g d m p = lost p
release_fails-Appends bytes r open_fails g d m p = lost p
release_fails-Appends bytes r (write_stops n) g d m p = lost p
release_fails-Appends bytes r sync_fails g d m p = lost p
release_fails-Appends bytes r close_fails g d m p = lost p
release_fails-Appends bytes r appended g d m p = lost p
release_fails-Appends bytes r (unlock_fails a) g d m p = p

append_record-Appends :
    (bytes : ℕ) (r : Record) (a : Append) (g : Engine) (d : Disk)
    → Appends bytes r g d (append_record bytes r a g d)
unfolding append_record
append_record-Appends bytes r lock_fails g d = not_tried _
append_record-Appends bytes r lock_held g d = not_tried _
append_record-Appends bytes r seek_fails g d = failed _ _ _
append_record-Appends bytes r (unlock_fails a) g d =
    release_fails-Appends bytes r a g d _ (append_record-Appends bytes r a g d)
append_record-Appends bytes r stat_fails g d = failed _ _ _
append_record-Appends bytes r open_fails g d = sized_append-Appends bytes r open_fails g d
append_record-Appends bytes r (write_stops n) g d = sized_append-Appends bytes r (write_stops n) g d
append_record-Appends bytes r sync_fails g d = sized_append-Appends bytes r sync_fails g d
append_record-Appends bytes r close_fails g d = sized_append-Appends bytes r close_fails g d
append_record-Appends bytes r appended g d = sized_append-Appends bytes r appended g d

free_cases :
    (o : Option BlockReason) (allow : Bool)
    → (is_some o && not allow) ≡ false
    → (o ≡ none) ⊎ (allow ≡ true)
free_cases o allow e = ground arith

-- A repeated event is never answered as recorded.
repeated_false : (b : Book) (event : Event) (r : Reply) → repeated_event b event ≢ ok (true, r)
unfolding repeated_event
repeated_false b event r e = ground arith

module _ (h : Hashing) where
  finish-Ran :
      (allow : Bool) (key : String) (event : Event) (t : ℕ) (c : Candidate) (g : Engine) (d : Disk)
      (m : Done (Unit {0}))
      → ((d.size ≡ g.journal_size) → Accepted h g d allow key event t c)
      → Appends (h.line_size (written h g key event t)) (written h g key event t) g d m
      → Ran h g d (finish_append h (written h g key event t) c m)
  finish-Ran allow key event t c g d m k (not_tried e) = refused e
  finish-Ran allow key event t c g d m k (failed e why d') = frozen e why d'
  finish-Ran allow key event t c g d m k (written_unreleased e same) =
      unreleased e (written h g key event t) refl same
  finish-Ran allow key event t c g d m k (done same) =
      recorded c.reply (engine_after h g (written h g key event t) c)
        (add_line (h.line_size (written h g key event t)) (written h g key event t) d)
        (record {
          allow = allow;
          key = key;
          event = event;
          time = t;
          candidate = c;
          accepted = k same;
          replied = refl;
          engine = refl;
          disk = refl;
        })

  reduced-Ran :
      (allow : Bool) (key : String) (event : Event) (t : ℕ) (a : Append) (g : Engine) (d : Disk)
      → nonempty key ≡ ok key
      → find_event key g.events ≡ none
      → (g.blocked ≡ none) ⊎ (allow ≡ true)
      → is_before t g.last_timestamp ≡ false
      → Ran h g d (
          append_reduced h
            (written h g key event t)
            a
            g
            d
            (reduce h.digest g.book event (g.journal_seq + 1) t))
  reduced-Ran allow key event t a g d named new free later =
      elim (Outcome-cases (reduce h.digest g.book event (g.journal_seq + 1) t)) [
        | inl (e, bad) ↦ rw bad (refused e)
        | inr (c, good) ↦ rw good (
            finish-Ran allow key event t c g d _
              (λ same. record {
                named = named;
                unseen = new;
                unblocked = free;
                later = later;
                reduced = good;
                in_step = same;
              })
              (append_record-Appends _ _ a g d))
      ]

  record_new-Ran :
      (allow : Bool) (key : String) (event : Event) (t : ℕ) (a : Append) (g : Engine) (d : Disk)
      → nonempty key ≡ ok key
      → find_event key g.events ≡ none
      → Ran h g d (record_new h allow key event t a g d)
  unfolding record_new
  record_new-Ran allow key event t a g d named new =
      elim (Bool-cases (is_some g.blocked && not allow)) [
        | inl stuck ↦ rw stuck (refused _)
        | inr free ↦ rw free (elim (Bool-cases (is_before t g.last_timestamp)) [
          | inl early ↦ rw early (refused _)
          | inr later ↦ rw later (
              reduced-Ran allow key event t a g d named new (free_cases g.blocked allow free) later)
        ])
      ]

  repeated-Ran :
      (g : Engine) (d : Disk) (m : Outcome EngineError (Bool × Reply)) (b : Book) (event : Event)
      → m ≡ repeated_event b event
      → Ran h g d (m, g, d)
  unfolding repeated_event
  repeated-Ran g d (err e) b event same = refused e
  repeated-Ran g d (ok (false, r)) b event same = answered r
  repeated-Ran g d (ok (true, r)) b event same = absurd (repeated_false b event r (sym same))

  pub record_event-Ran :
      (allow : Bool) (key : String) (event : Event) (t : ℕ) (a : Append) (g : Engine) (d : Disk)
      → nonempty key ≡ ok key
      → Ran h g d (record_event h allow key event t a g d)
  unfolding record_event existing_event
  record_event-Ran allow key event t a g d named = elim (Option-cases (find_event key g.events)) [
    | inl new ↦ rw (new, existing_event) (record_new-Ran allow key event t a g d named new)
    | inr (prior, old) ↦
        rw (old, existing_event)
          (elim (Bool-cases (prior.entry.timestamp == t && same_event prior.entry.event event)) [
            | inl same ↦ rw same (repeated-Ran g d _ g.book event refl)
            | inr other ↦ rw other (refused _)
          ])
  ]
