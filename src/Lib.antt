-- ===== src/Lib.antt =====
-- The core of two parts of the repository. The replay lab, research/rea_engines: paper orders and
-- fills booked in decimal arithmetic; an engine that journals every event before it changes its state,
-- takes checkpoints and recovers from them; a ledger, and the replay of candles against a strategy on
-- it. And of the trading backend, senecio_polymarket/backend: the durable queue that carries sealed
-- predictions to the database, the settlement of predictions against historical prices, the hourly
-- cohort of the score, and the event bus.
--
-- How the parts work together. A caller uses the methods of `PaperExecutionEngine`
-- (paper_execution_contract.py). Each method checks its arguments and the guards of its operation,
-- builds an event with its payload, and hands it to `_record`, which looks for an earlier event under
-- the same ID, reduces the event to the state that would follow, appends the sealed record to the
-- journal file and only then takes the new state over. The reducer books registrations and fills
-- through `register_order` and `apply_fill` of execution_resilience.py, which work on an immutable
-- `PaperState`. `recover` reads the journal back, checks its hash chain and replays it. Apart from
-- the engine, `Replay.run` (replay.py) walks through candles, fills pending orders through the `Ledger`
-- of accounting.py and asks a strategy for new ones.
--
-- In the backend, a sealed prediction is enqueued in an append-only file of receipts and later marked
-- as failed or persisted; the states are rebuilt from the file at each call, and a torn last line is
-- repaired by a marker. A settled row counts only when its audit proves the outcome: the reconciler
-- builds price evidence from one-minute candles for rows that lack it, and the proof gate validates
-- that evidence again before a row reaches the score, whose cohort takes rows an hour apart.
--
-- Files.
--   Rea/Decimal: Python's `decimal` in its default context, 28 digits, ties to even, as far as the
--     code uses it: + - * / abs and comparisons. Signs of zero and the exponent of a result are
--     kept, exponent limits are not.
--   Rea/Contracts: contracts.py. `as_decimal` and `normalize_timestamp` take what `Decimal(str(x))`
--     and `datetime.fromisoformat` made of an argument (Value, TimeText); a normalized timestamp is
--     its microseconds, which sort as the texts do. Candles, intents, cost profiles.
--   Rea/Bracket: `resolve_long_bracket` of execution_resilience.py.
--   Rea/Accounting: accounting.py. The methods return the changed ledger with the operation.
--   Rea/Replay: replay.py. The local variables of `run` are the record Run; the report's metrics and
--     its JSON are left out.
--   Rea/Paper: execution_resilience.py. Order: `PaperOrder`. State: `PaperState`, its checks
--     (`validate` for `__post_init__`) and `initial`. Fill: `register_order`, `apply_fill`.
--     Snapshot: `reconcile_snapshot`. Checkpoint: `to_payload`, `from_payload`,
--     `save_checkpoint` and `load_checkpoint`; in a payload an amount is what `Decimal(str(x))`
--     reads of it. A constructor is a function from the arguments to the record
--     or the exception; `replace` runs it again, and so does the model.
--   Rea/Engine: paper_execution_contract.py. Event: payloads and records. Reduce: `_reduce`.
--     Journal: `_append_record`, `_record`, `_read_journal`. Commands: the public methods (`plan`
--     holds what a method does before `_record`, `call` the whole of it). Recover:
--     `save_checkpoint`, `__init__`, `recover`. An engine is a Book, which the journal determines,
--     and the size that it expects of its file; the file is a Disk.
--   Rea/Engine/Log and Rea/Engine/Durable relate the engine to its file; the files named Laws,
--     Inversion, Registration, Submitted, Accounted, Repeats, History, Origin and Genesis hold lemmas
--     and theorems about the file above them; the files named Tests run the code on concrete data.
--   Backend/Receipts: prediction_persistence.py. Lines: the file, `_read`, `_append`. Store: `_states`
--     and what `enqueue`, `mark_failed` and `mark_persisted` decide (`plan_call`). Queue: the public
--     methods. Recovery, Keeping, Events, History, Lasting, Again, Pending and
--     Stuck hold the proofs.
--   Backend/Settlement: Contract is settlement_contract.py, Proof is settlement_proof.py, Repair and
--     Batch are `_repair_row` and `reconcile_once` of settlement_reconciler.py. Causal, Qualified,
--     Repaired and the files under Repair hold the proofs.
--   Backend/Cohort: `independent_1h_cohort` of authoritative_score.py. Largest holds the proofs.
--   Backend/Bus: event_bus.py. Newest holds the proofs.
--   Common: shared names, Boolean tests, outcomes, texts and integers.
--
-- Taken as arguments: SHA-256 of a fill, of a record and of a checkpoint, and the length of a
-- record's line (Hashing, Payloads); the comparison of two payloads' canonical JSON; how the
-- operating system answers an append (Append), at any point from the lock to its release; a replay's
-- strategy, with a state of its own, and the names that the replay formats for its orders
-- (Strategy). For the backend: what the `json` library and SHA-256 make of a line (Json), for
-- predictions whose values JSON reads back as equal, so that `default=str` is not asked; prices as
-- floats (Prices), the float in `int(t.timestamp() * 1000)`, the answers of the exchange and the
-- database, an exception of the request included, and the clock. Letters are those of ASCII for
-- `upper` and `lower`; times and milliseconds count from 1970 on. An exception is a value, with one constructor for each message.
-- Dicts are association lists, newest first in the replay lab and in the order of insertion in the
-- backend. Nothing runs on fuel: every loop of the code is over a finite list.
--
-- Not modelled: threads within one process (each method holds the engine's lock throughout), the
-- bytes of the files (a line is a record or unreadable), the other files of research/rea_engines
-- (strategies, evaluation, market data, export, command line), the rest of the backend (network
-- services, the oracle's statistics on floating point), the user interface and the research programs.
pub mod Backend
pub mod Common
pub mod Rea
