-- ===== src/Backend/Receipts/Tests.antt =====
-- The durable queue on concrete files (senecio_polymarket/backend/prediction_persistence.py).
use mathlib.Core.List.{Perm}
use sene_x.Common.{
  ℕ, ◌+◌, ◌≤◌, String, ◌≡◌, refl, ◌==◌, if◌then◌else◌, List, [], ◌∷◌, ◌++◌, length, Option, none,
  some, ok, err,
}
use sene_x.Common.Int.{pos}
use sene_x.Common.Text.{text_length}
use sene_x.Backend.Receipts.Lines.{
  Parsed, recovery, receipt, Receipt, Json, File, invalid_json, recovery_marker, write_end,
  write_text, append, read_lines, read,
}
use sene_x.Backend.Receipts.Store.{
  State, Call, enqueue, mark_failed, mark_persisted, whole, find_state, put_state, next_state,
  find_state, add_event, states_from, states, failed, enqueued,
}
use sene_x.Backend.Receipts.Queue.{take, Summary, unresolved, summary, pending, call_store}
use sene_x.Backend.Receipts.Recovery.{IsJson, nothing, row}
use sene_x.Backend.Receipts.Keeping.{Kept, Later}
use sene_x.Backend.Receipts.History.{
  no_file, Reach, here, next, called, stopped, partly, Reach-states, Reach-Later,
}
use sene_x.Backend.Receipts.Lasting.{Recorded, IsPersistedAs, mark_persisted-lasts}
use sene_x.Backend.Receipts.Again.{enqueue-again}
use sene_x.Backend.Receipts.Pending.{IsOldestFirst, pending-IsOldestFirst, summary-unresolved}
use sene_x.Backend.Receipts.Stuck.{half_repair-stuck, unended_marker-stuck}

-- A stand-in for the bytes of a line: whole JSON texts and shards of them.
data Piece : Type 0 where
  text : Parsed ℕ → Piece
  shard : Piece

abbrev loads : List Piece → Option (Parsed ℕ)
loads (text p ∷ []) = some p
loads _ = none

abbrev json : Json (List Piece) ℕ
json = record {
  empty = [];
  join = λ a b. a ++ b;
  is_blank = λ a. length a == 0;
  loads = loads;
  dumps = λ p. text p ∷ [];
  sha = λ a. if length a == 1 then "one" else "more";
  size = length;
  prediction_sha = λ n. if n == 7 then "seven" else "other";
  same = λ a b. a == b;
  timestamp = λ n. "2026-10-06T18:00:00Z";
}

json-IsJson : IsJson json
json-IsJson = record { loads-dumps = λ p. refl; dumps_not_blank = λ p. refl }

-- 64 digits.
abbrev packet : String
packet = "0123456789abcdef0123456789abcdef0123456789abcdef0123456789abcdef"

abbrev enqueues : Call ℕ
enqueues = enqueue packet "p1" 7

abbrev fails : Call ℕ
fails = mark_failed packet "timeout"

abbrev persists : Call ℕ
persists = mark_persisted packet (whole (pos 12))

abbrev file0 : File (List Piece)
file0 = no_file json

abbrev file1 : File (List Piece)
file1 = (call_store json "t1" enqueues file0).1

abbrev queued7 : State ℕ
queued7 = record {
  source_packet_hash = packet;
  source_packet_id = some "p1";
  source_prediction_sha256 = some "seven";
  prediction = some 7;
  status = some "ENQUEUED";
  d1_prediction_id = none;
  last_reason = none;
  last_event_index = 1;
}

enqueued_ok : (call_store json "t1" enqueues file0).0 ≡ ok (some queued7)
unfolding call_store read read_lines states_from add_event next_state find_state put_state
    text_length
enqueued_ok = refl

told1 : (states json file1).0 ≡ ok (queued7 ∷ [])
unfolding call_store read read_lines states_from add_event next_state find_state put_state
    text_length
told1 = refl

-- The process is stopped while it appends the failure.
abbrev file2 : File (List Piece)
file2 = write_text json (shard ∷ []) (states json file1).1

Reach1 : Reach json file0 file1
Reach1 = next here (called "t1" enqueues)

Reach2 : Reach json file1 file2
unfolding find_state
Reach2 = next here (
    stopped "t2" fails (queued7 ∷ []) (failed "t2" queued7 packet "timeout") (shard ∷ []) refl told1
      refl (partly (refl, refl)))

Reach-states_example : (ss : List (State ℕ)) × ((states json file1).0 ≡ ok ss)
Reach-states_example = Reach-states json json-IsJson Reach1

Reach-Later_example :
    (ss' : List (State ℕ)) × ((states json file2).0 ≡ ok ss') × Later (queued7 ∷ []) ss'
Reach-Later_example = Reach-Later json json-IsJson (queued7 ∷ []) Reach1 Reach2 told1

persisted_ok : (call_store json "t3" persists file1).0 ≡ ok none
unfolding call_store read read_lines states_from add_event next_state find_state put_state
    text_length
persisted_ok = refl

abbrev file3 : File (List Piece)
file3 = (call_store json "t3" persists file1).1

mark_persisted-lasts_example :
    Recorded json json-IsJson
      (call_store json "t4" fails file3).1
      packet
      (IsPersistedAs json json-IsJson (pos 12))
mark_persisted-lasts_example =
    mark_persisted-lasts json json-IsJson "t3" packet (pos 12) Reach1 persisted_ok
      (next here (called "t4" fails))

enqueue-again_example :
    (ss : List (State ℕ)) × (s' : State ℕ) × ((states json file2).0 ≡ ok ss)
    × (find_state packet ss ≡ some s')
    × (call_store json "t5" (enqueue packet "p2" 7) file2 ≡ (ok (some s'), (states json file2).1))
    × Kept queued7 s'
enqueue-again_example =
    enqueue-again json json-IsJson "t1" packet "p1" 7 queued7 "t5" "p2" here refl enqueued_ok Reach2
      refl

pending-IsOldestFirst_example :
    (ss : List (State ℕ)) × (queue : List (State ℕ)) × ((states json file1).0 ≡ ok ss)
    × Perm (unresolved ss) queue
    × IsOldestFirst queue
    × ((pending json (whole (pos 4)) file1).0 ≡ ok (take 4 queue))
    × (length (take 4 queue) ≤ 4)
pending-IsOldestFirst_example = pending-IsOldestFirst json json-IsJson 4 Reach1 refl refl

summary-unresolved_example :
    (ss : List (State ℕ)) × (m : Summary) × ((states json file1).0 ≡ ok ss)
    × ((summary json file1).0 ≡ ok m)
    × (m.expected ≡ length ss)
    × (m.expected ≡ m.persisted + m.unresolved)
    × (m.unresolved ≡ length (unresolved ss))
summary-unresolved_example = summary-unresolved json json-IsJson Reach1

abbrev event7 : Receipt ℕ
event7 = enqueued json "t1" packet "p1" 7

abbrev halfway : File (List Piece)
halfway =
    write_end json (record { lines = (text (receipt event7) ∷ []) ∷ []; tail = some (shard ∷ []) })

half_repair-stuck_example : call_store json "t6" fails halfway ≡ (err (invalid_json 2), halfway)
half_repair-stuck_example =
    half_repair-stuck json json-IsJson ((text (receipt event7) ∷ []) ∷ []) (event7 ∷ [])
      (shard ∷ []) "t6" fails (row event7 nothing) (refl, refl) refl

abbrev marker2 : Parsed ℕ
marker2 = recovery (some (recovery_marker json (shard ∷ []) 2))

unended_marker-stuck_example :
    let f = write_text json (text marker2 ∷ []) halfway in
    let f' = append json event7 f in
    (read json f ≡ (ok (event7 ∷ []), f))
    × (call_store json "t6" fails f' ≡ (err (invalid_json 2), f'))
unended_marker-stuck_example =
    unended_marker-stuck json json-IsJson ((text (receipt event7) ∷ []) ∷ []) (event7 ∷ [])
      (shard ∷ []) event7 "t6" fails (row event7 nothing) (refl, refl) refl refl
