-- ===== src/Rea/Engine/Recover.antt =====
-- Checkpoints of the engine, and `recover`, which replays the journal from genesis.
pub mod Genesis
use sene_x.Common.{
  ℕ, zero, suc, ◌+◌, ◌-◌, String, ◌≡◌, Bool, true, false, not, ◌&&◌, ◌||◌, if◌then◌else◌, ltb, ◌==◌,
  List, [], ◌∷◌, Option, none, some, length, Outcome, ok, err, ◌>>=◌, ◌>>◌, raise_if, map_err,
}
use sene_x.Common.Text.{text_lt, lower_codes}
use sene_x.Rea.Decimal.{Decimal, same_text}
use sene_x.Rea.Contracts.{finite}
use sene_x.Rea.Paper.Order.{PaperOrder, ResilienceError, new_order}
use sene_x.Rea.Paper.State.{PaperState, Digest, validate, initial}
use sene_x.Rea.Paper.Checkpoint.{StateValue, state_payload, to_payload, from_payload}
use sene_x.Rea.Paper.Fill.{is_before, same_digest}
use sene_x.Rea.Paper.Snapshot.{Discrepancy}
use sene_x.Rea.Engine.Event.{
  EngineError, resilience, time_moved_back, nonempty, RiskLimits, EngineStatus, BlockReason,
  divergence, Record, Book, Engine,
}
use sene_x.Rea.Engine.Reduce.{reduce}
use sene_x.Rea.Engine.Journal.{Hashing, genesis_hash, Disk, commit, read_journal}

-- The messages of `save_checkpoint`, `recover` and the constructor, and those of the rest.
pub data RecoveryError : Type 0 where
  engine : EngineError → RecoveryError
  uncertain_journal write_failed : RecoveryError
  nonempty_journal : RecoveryError
  unreadable_checkpoint bad_envelope_schema checksum_mismatch : RecoveryError
  invalid_state : ResilienceError → RecoveryError
  source_mismatch config_mismatch limits_mismatch : RecoveryError
  anchor_mismatch genesis_mismatch prefix_mismatch : RecoveryError

-- `_engine_state_payload`
pub record Saved : Type 0 where
  pub state : StateValue
  pub terminal : List (String × EngineStatus)
  pub journal_seq : ℕ
  pub journal_head : Digest
  pub last_timestamp : Option ℕ
  pub blocked : Option BlockReason
  pub discrepancies : List Discrepancy
  pub limits : RiskLimits

insert_status : String × EngineStatus → List (String × EngineStatus) → List (String × EngineStatus)
insert_status p [] = p ∷ []
insert_status p (q ∷ qs) = if text_lt q.0 p.0 then q ∷ insert_status p qs else p ∷ q ∷ qs

-- `sorted(statuses.items())`
unfoldable pub sorted_statuses : List (String × EngineStatus) → List (String × EngineStatus)
unfolding insert_status
sorted_statuses [] = []
sorted_statuses (p ∷ ps) = insert_status p (sorted_statuses ps)

abbrev pub saved : Book → Saved
saved g = record {
  state = state_payload (to_payload g.state);
  terminal = sorted_statuses g.terminal;
  journal_seq = g.journal_seq;
  journal_head = g.journal_head;
  last_timestamp = g.last_timestamp;
  blocked = g.blocked;
  discrepancies = g.discrepancies;
  limits = g.limits;
}

pub record Envelope : Type 0 where
  pub schema_version : ℕ
  pub state_sha256 : Digest
  pub engine_state : Saved

-- What a checkpoint takes from outside: the SHA-256 of its canonical JSON, and whether two
-- payloads have the same canonical JSON.
pub record Payloads : Type 0 where
  pub sha : Saved → Digest
  pub same : Saved → Saved → Bool

abbrev pub engine_schema_version : ℕ
engine_schema_version = 1

-- `self._blocked_reason.startswith("journal ")`
abbrev pub is_uncertain : Option BlockReason → Bool
is_uncertain none = false
is_uncertain (some (divergence _)) = false
is_uncertain (some _) = true

abbrev pub envelope : Payloads → Book → Envelope
envelope p g = record {
  schema_version = engine_schema_version;
  state_sha256 = p.sha (saved g);
  engine_state = saved g;
}

-- `save_checkpoint` to a path that is not the journal's and has a directory; the flag is the
-- outcome of writing, syncing and renaming the file.
unfoldable pub save_checkpoint : Payloads → Book → Bool → Outcome RecoveryError Envelope
save_checkpoint p g written = do
  raise_if (is_uncertain g.blocked) uncertain_journal
  raise_if (not written) write_failed
  ok (envelope p g)

-- `PaperExecutionEngine.__init__` on a book of an initial state. The file and the lock file are
-- there, or are created.
abbrev pub genesis : PaperState → RiskLimits → Book
genesis s limits = record {
  state = s;
  terminal = [];
  journal_seq = 0;
  journal_head = genesis_hash;
  last_timestamp = none;
  blocked = none;
  discrepancies = [];
  events = [];
  fills = [];
  limits = limits;
}

unfoldable pub new_engine : PaperState → RiskLimits → Disk → Bool → Outcome RecoveryError Engine
new_engine s limits d allow_existing = do
  raise_if (not (d.size == 0) && not allow_existing) nonempty_journal
  ok (record { book = genesis s limits; journal_size = d.size })

abbrev pub same_limits : RiskLimits → RiskLimits → Bool
same_limits a b =
    same_text a.max_inventory b.max_inventory && same_text a.max_fill_qty b.max_fill_qty

module _ (h : Hashing) where
  -- One round of the replay: `_check_event_time`, `_reduce`, and the assignments.
  unfoldable pub replay_record : Book → Record → Outcome EngineError Book
  replay_record g r = do
    raise_if (is_before r.entry.timestamp g.last_timestamp) time_moved_back
    c ← reduce h.digest g r.entry.event r.entry.journal_seq r.entry.timestamp
    ok (commit g r c)

  unfoldable pub replay : Book → List Record → Outcome EngineError Book
  replay g [] = ok g
  replay g (r ∷ rs) = do g' ← replay_record g r; replay g' rs

module _ (h : Hashing) (p : Payloads) where
  -- The loop of `recover`, which compares the book with the checkpoint when it has replayed as many
  -- records as that; the first argument counts down to there.
  unfoldable pub replay_checked : ℕ → Saved → Book → List Record → Outcome RecoveryError Book
  replay_checked left cp g [] = ok g
  replay_checked left cp g (r ∷ rs) = do
    g' ← map_err engine (replay_record h g r)
    raise_if (left == 1 && not (p.same (saved g') cp)) prefix_mismatch
    replay_checked (left - 1) cp g' rs

  -- `GENESIS_HASH if cp_seq == 0 else records[cp_seq - 1]["event_sha256"]`
  abbrev pub anchor : ℕ → List Record → Digest
  anchor zero rs = genesis_hash
  anchor (suc n) [] = genesis_hash
  anchor (suc zero) (r ∷ rs) = r.event_sha256
  anchor (suc (suc n)) (r ∷ rs) = anchor (suc n) rs

  -- `recover` after the checks of the checkpoint itself.
  unfoldable pub replay_from :
      Saved → PaperState → RiskLimits → Disk → List Record → Outcome RecoveryError Engine
  replay_from cp starting limits d records = do
    g ← new_engine starting limits d true
    raise_if (cp.journal_seq == 0 && not (p.same (saved g.book) cp)) genesis_mismatch
    b ← replay_checked cp.journal_seq cp g.book records
    raise_if (cp.journal_seq == 0 && not (p.same (saved b) cp)) genesis_mismatch
    ok (record g { book = b })

  -- The checks of the envelope, which return the state that it holds.
  unfoldable pub check_envelope :
      Envelope → Digest → Digest → RiskLimits → Outcome RecoveryError PaperState
  check_envelope e source config limits = do
    raise_if (not (e.schema_version == engine_schema_version)) bad_envelope_schema
    raise_if (not (same_digest e.state_sha256 (p.sha e.engine_state))) checksum_mismatch
    state ← map_err invalid_state (from_payload e.engine_state.state)
    raise_if (not (same_digest state.source_sha256 source)) source_mismatch
    raise_if (not (same_digest state.config_sha256 config)) config_mismatch
    raise_if (not (same_limits e.engine_state.limits limits)) limits_mismatch
    ok state

  -- The reading of the journal and its anchor in the checkpoint, and the replay.
  unfoldable pub recover_journal :
      Saved → PaperState → Disk → Digest → Digest → RiskLimits → Outcome RecoveryError Engine
  recover_journal cp state d source config limits = do
    records ← map_err engine (read_journal h d)
    raise_if
        (ltb (length records) cp.journal_seq
          || not (same_digest cp.journal_head (anchor cp.journal_seq records)))
        anchor_mismatch
    starting ← map_err invalid_state (initial state.starting_cash source config)
    replay_from cp starting limits d records

  -- `recover`, of a checkpoint file that is unreadable, or holds an envelope. The expected hashes
  -- are given as `lower` leaves them.
  unfoldable pub recover :
      Option Envelope → Disk → Digest → Digest → RiskLimits → Outcome RecoveryError Engine
  recover none d source config limits = err unreadable_checkpoint
  recover (some e) d source config limits = do
    state ← check_envelope e source config limits
    recover_journal e.engine_state state d source config limits
