-- ===== src/Rea/Engine/Tests.antt =====
-- The engine on concrete calls (research/rea_engines/paper_execution_contract.py).
use sene_x.Common.{
  ◌≡◌, refl, sym, ap, ◌∙◌, ◌≢◌, true, ◌&&◌, ◌==◌, List, [], ◌∷◌, length, Option, none, some, ok,
  err, arith,
}
use sene_x.Common.Text.{strip, is_blank, lower_codes, same_codes, has_duplicates, mem_text}
use sene_x.Rea.Decimal.{leb_D}
use sene_x.Rea.Contracts.{finite, instant, as_decimal, normalize_timestamp}
use sene_x.Rea.Paper.Order.{read_side, new_order, expected_status, dec}
use sene_x.Rea.Paper.State.{validate, check_amounts, is_sha256, same_texts}
use sene_x.Rea.Paper.Fill.{register_order, add_order, resubmission, same_digest}
use sene_x.Rea.Paper.Snapshot.{same_discrepancies}
use sene_x.Rea.Paper.Fill.History.{Inv}
use sene_x.Rea.Paper.Tests.{number, repeated, ones, start, start_ok}
use sene_x.Rea.Engine.Event.{
  RiskLimits, Record, Book, Engine, BlockReason, durability, durability_failure,
  divergence_resolved, order_registered, nothing, nonempty, event_time, decimal,
}
use sene_x.Rea.Engine.Reduce.{reduce, reduce_event, reduce_registration, reduce_resolution}
use sene_x.Rea.Engine.Journal.{
  Hashing, genesis_hash, Disk, appended, unlock_fails, block, seal, next_entry, read_journal,
  check_lines, check_line, record_event, record_new, append_record, write_line, existing_event,
  find_event,
}
use sene_x.Rea.Engine.Commands.{
  side_text, Command, register, resolve, plan, plan_register, plan_resolve, call,
}
use sene_x.Rea.Engine.Recover.{
  Saved, saved, envelope, Payloads, save_checkpoint, genesis, replay, replay_record, replay_from,
  recover,
}
use sene_x.Rea.Engine.Recover.Genesis.{replay_from-checkpoint, recover-genesis_stuck}
use sene_x.Rea.Engine.Durable.{
  Served, opened, then_call, fresh_engine, empty_disk, journal_is_engine,
}
use sene_x.Rea.Engine.Durable.States.{Served-Inv}
use sene_x.Rea.Engine.Durable.Unreleased.{unreleased_stuck}
use sene_x.Rea.Engine.Event.{EngineError}
use sene_x.Rea.Engine.Durable.Restart.{recover-save_checkpoint}
use sene_x.Rea.Engine.Durable.Freeze.{
  NotAdvanced, call_raises, blocked_records, resolved_freeze_stuck,
}

-- Stand-ins for the hashes and for the length of a line.
abbrev hashes : Hashing
hashes = record {
  digest = λ e. repeated b'f' 64;
  sha = λ x. x.journal_seq ∷ ones;
  line_size = λ r. 10;
}

abbrev limits : RiskLimits
limits = record { max_inventory = number 9; max_fill_qty = number 9 }

abbrev engine0 : Engine
engine0 = fresh_engine start limits

abbrev registers_one : Command
registers_one = register "e1" (instant 1) "o1" "c1" "buy" (finite (number 5))

abbrev engine1 : Engine
engine1 = (call hashes registers_one appended engine0 empty_disk).1

abbrev disk1 : Disk
disk1 = (call hashes registers_one appended engine0 empty_disk).2

-- The registration is recorded, and does not block the engine.
unblocked : engine1.blocked ≡ none
unfolding call plan plan_register event_time normalize_timestamp nonempty strip read_side decimal
    as_decimal leb_D record_event existing_event find_event record_new reduce reduce_event
    reduce_registration register_order add_order resubmission new_order expected_status validate
    check_amounts dec is_sha256 has_duplicates same_texts mem_text append_record write_line is_blank
    lower_codes same_codes genesis_hash side_text
unblocked = refl

none_ne_some : (why : BlockReason) → ¬ (◌≡◌ {A = Option BlockReason} none (some why))
none_ne_some why same = cc

served1 : Served hashes engine0 empty_disk engine1 disk1
served1 = then_call opened registers_one appended unfrozen
  where
    unfrozen : (why : BlockReason) → engine1.book ≢ record engine0.book { blocked = some why }
    unfrozen why froze = none_ne_some why (sym unblocked ∙ ap (λ (b : Book). b.blocked) froze)

journal_is_engine_example :
    (rs : List Record) × (read_journal hashes disk1 ≡ ok rs)
    × (replay hashes (genesis start limits) rs ≡ ok engine1.book)
    × (engine1.journal_seq ≡ length rs)
journal_is_engine_example = journal_is_engine hashes start limits served1

-- The line is in the file, but the lock is not released.
unreleased :
    (call hashes registers_one (unlock_fails appended) engine0 empty_disk).0
    ≡ err durability_failure
unfolding call plan plan_register event_time normalize_timestamp nonempty strip read_side decimal
    as_decimal leb_D record_event existing_event find_event record_new reduce reduce_event
    reduce_registration register_order add_order resubmission new_order expected_status validate
    check_amounts dec is_sha256 has_duplicates same_texts mem_text append_record write_line is_blank
    lower_codes same_codes genesis_hash side_text
unreleased = refl

call_raises_example :
    let done = call hashes registers_one (unlock_fails appended) engine0 empty_disk in
    NotAdvanced hashes engine0 empty_disk done.1 done.2
call_raises_example =
    call_raises hashes registers_one (unlock_fails appended) engine0 empty_disk durability_failure
      unreleased

abbrev resolves : Command
resolves = resolve "r1" (instant 2) "ticket 4" "the disk was full"

abbrev frozen0 : Engine
frozen0 = block durability engine0

abbrev unreleased_engine1 : Engine
unreleased_engine1 = (call hashes registers_one (unlock_fails appended) engine0 empty_disk).1

abbrev unreleased_disk1 : Disk
unreleased_disk1 = (call hashes registers_one (unlock_fails appended) engine0 empty_disk).2

counts_ten : unreleased_engine1.journal_size ≡ 10
unfolding call plan plan_register event_time normalize_timestamp nonempty strip read_side decimal
    as_decimal leb_D record_event existing_event find_event record_new reduce reduce_event
    reduce_registration register_order add_order resubmission new_order expected_status validate
    check_amounts dec is_sha256 has_duplicates same_texts mem_text append_record write_line is_blank
    lower_codes same_codes genesis_hash side_text
counts_ten = refl

grown : unreleased_engine1.journal_size ≢ engine0.journal_size
grown same = absurd (omega (arith, counts_ten, same))

resolved_unreleased :
    (call hashes resolves appended unreleased_engine1 unreleased_disk1).0 ≡ ok (true, nothing)
unfolding call plan plan_register event_time normalize_timestamp nonempty strip read_side decimal
    as_decimal leb_D record_event existing_event find_event record_new reduce reduce_event
    reduce_registration register_order add_order resubmission new_order expected_status validate
    check_amounts dec is_sha256 has_duplicates same_texts mem_text append_record write_line is_blank
    lower_codes same_codes genesis_hash side_text plan_resolve reduce_resolution same_discrepancies
resolved_unreleased = refl

unreleased_stuck_example :
    (x : EngineError) × (read_journal hashes
        (call hashes resolves appended unreleased_engine1 unreleased_disk1).2
      ≡ err x)
unreleased_stuck_example =
    unreleased_stuck hashes registers_one resolves (unlock_fails appended) appended engine0
      empty_disk durability_failure nothing unreleased grown resolved_unreleased

lifted : (call hashes resolves appended frozen0 empty_disk).0 ≡ ok (true, nothing)
unfolding call plan plan_resolve event_time normalize_timestamp nonempty strip existing_event
    find_event record_event record_new reduce reduce_event reduce_resolution same_discrepancies
    append_record write_line genesis_hash
lifted = refl

blocked_records_example :
    let g' = (call hashes resolves appended frozen0 empty_disk).1 in
    (g'.blocked ≡ none)
    × (g'.state ≡ frozen0.state)
    × (g'.terminal ≡ frozen0.terminal)
    × (g'.discrepancies ≡ frozen0.discrepancies)
blocked_records_example =
    blocked_records hashes resolves appended frozen0 empty_disk durability nothing refl lifted

abbrev resolution : Record
resolution = seal hashes (
    next_entry hashes engine0.book "r1"
      (divergence_resolved (record {
        approval_ref = "ticket 4";
        reason = "the disk was full";
        prior_discrepancies = [];
      }))
      2)

readable :
    read_journal hashes (call hashes resolves appended frozen0 empty_disk).2 ≡ ok (resolution ∷ [])
unfolding call plan plan_resolve event_time normalize_timestamp nonempty strip existing_event
    find_event record_event record_new reduce reduce_event reduce_resolution same_discrepancies
    append_record write_line genesis_hash read_journal check_lines check_line mem_text same_digest
readable = refl

resolved_freeze_stuck_example :
    replay hashes (genesis start limits) (resolution ∷ []) ≢ ok engine0.book
resolved_freeze_stuck_example =
    resolved_freeze_stuck hashes start limits engine0 empty_disk resolves appended durability
      nothing (resolution ∷ []) engine0.book opened refl lifted readable

-- A stand-in for the comparison of two canonical payloads.
abbrev payloads : Payloads
payloads = record {
  sha = λ c. c.journal_seq ∷ ones;
  same = λ a b. (a.journal_seq == b.journal_seq) && same_digest a.journal_head b.journal_head;
}

abbrev registration : Record
registration = seal hashes (
    next_entry hashes engine0.book "e1"
      (order_registered
        (record { order_id = "o1"; client_order_id = "c1"; side = "buy"; quantity = number 5 }))
      1)

replayed : replay hashes (genesis start limits) (registration ∷ []) ≡ ok engine1.book
unfolding call plan plan_register event_time normalize_timestamp nonempty strip read_side decimal
    as_decimal leb_D record_event existing_event find_event record_new reduce reduce_event
    reduce_registration register_order add_order resubmission new_order expected_status validate
    check_amounts dec is_sha256 has_duplicates same_texts mem_text append_record write_line is_blank
    lower_codes same_codes genesis_hash side_text replay replay_record
replayed = refl

replay_none : replay hashes engine1.book [] ≡ ok engine1.book
unfolding replay
replay_none = refl

seq_one : engine1.journal_seq ≡ 1
unfolding call plan plan_register event_time normalize_timestamp nonempty strip read_side decimal
    as_decimal leb_D record_event existing_event find_event record_new reduce reduce_event
    reduce_registration register_order add_order resubmission new_order expected_status validate
    check_amounts dec is_sha256 has_duplicates same_texts mem_text append_record write_line is_blank
    lower_codes same_codes genesis_hash side_text
seq_one = refl

same_payload : payloads.same (saved engine1.book) (saved engine1.book) ≡ true
unfolding call plan plan_register event_time normalize_timestamp nonempty strip read_side decimal
    as_decimal leb_D record_event existing_event find_event record_new reduce reduce_event
    reduce_registration register_order add_order resubmission new_order expected_status validate
    check_amounts dec is_sha256 has_duplicates same_texts mem_text append_record write_line is_blank
    lower_codes same_codes genesis_hash side_text same_digest
same_payload = refl

replay_from-checkpoint_example :
    replay_from hashes payloads (saved engine1.book) start limits disk1 (registration ∷ [])
    ≡ ok (record { book = engine1.book; journal_size = disk1.size })
replay_from-checkpoint_example =
    replay_from-checkpoint hashes payloads engine1.book engine1.book start limits disk1
      (registration ∷ []) [] 0 seq_one refl replayed replay_none same_payload

first_line : disk1.lines ≡ some registration ∷ []
unfolding call plan plan_register event_time normalize_timestamp nonempty strip read_side decimal
    as_decimal leb_D record_event existing_event find_event record_new reduce reduce_event
    reduce_registration register_order add_order resubmission new_order expected_status validate
    check_amounts dec is_sha256 has_duplicates same_texts mem_text append_record write_line is_blank
    lower_codes same_codes genesis_hash side_text
first_line = refl

seq_of_same : (a b : Saved) → payloads.same a b ≡ true → a.journal_seq ≡ b.journal_seq
seq_of_same a b e = ground arith

recover-genesis_stuck_example :
    recover hashes payloads (some (envelope payloads engine0.book)) disk1 ones ones limits
    ≢ ok engine1
recover-genesis_stuck_example =
    recover-genesis_stuck hashes payloads (envelope payloads engine0.book) disk1 ones ones limits
      engine1 (some registration) [] seq_of_same refl first_line

Served-Inv_example : Inv engine1.state
Served-Inv_example = Served-Inv hashes (number 100) ones ones start limits start_ok served1

checkpointed : save_checkpoint payloads engine1.book true ≡ ok (envelope payloads engine1.book)
unfolding call plan plan_register event_time normalize_timestamp nonempty strip read_side decimal
    as_decimal leb_D record_event existing_event find_event record_new reduce reduce_event
    reduce_registration register_order add_order resubmission new_order expected_status validate
    check_amounts dec is_sha256 has_duplicates same_texts mem_text append_record write_line is_blank
    lower_codes same_codes genesis_hash side_text save_checkpoint
checkpointed = refl

recover-save_checkpoint_example :
    recover hashes payloads (some (envelope payloads engine1.book)) disk1 ones ones limits
    ≡ ok engine1
recover-save_checkpoint_example =
    recover-save_checkpoint hashes payloads (number 100) ones ones start limits start_ok
      (envelope payloads engine1.book) served1 (omega (arith, seq_one)) checkpointed opened
      same_payload
