-- ===== src/Rea/Engine/Reduce.antt =====
-- `_make_reconciliation_report` and `_reduce`: what one journal record does to the engine.
pub mod Paper
use sene_x.Common.{
  ℕ, ◌+◌, String, Bool, true, false, not, ◌&&◌, ◌||◌, if◌then◌else◌, ◌==◌, List, [], ◌∷◌, ◌++◌,
  Option, none, some, is_some, any, Outcome, ok, err, ◌>>=◌, ◌>>◌, raise_if, map_err,
}
use sene_x.Common.Text.{text_eq, mem_text}
use sene_x.Rea.Decimal.{ltb_D, eqb_D, ◌+D◌}
use sene_x.Rea.Contracts.{finite, positive, non_negative, instant}
use sene_x.Rea.Paper.Order.{PaperOrder, read_side, status_eq, filled_up, remaining_qty, find_order}
use sene_x.Rea.Paper.State.{PaperState, Digest}
use sene_x.Rea.Paper.Fill.{
  FillEvent, FillApplication, new_fill, is_before, register_order, apply_fill,
}
use sene_x.Rea.Paper.Snapshot.{
  SnapshotOrder, new_snapshot_order, Discrepancy, same_discrepancies, amount_issues, order_issues,
  ReconciliationReport, is_empty,
}
use sene_x.Rea.Engine.Event.{
  EngineError, resilience, unknown_order_id, time_moved_back, over_fill_limit, terminal_order,
  over_inventory_limit, already_terminal, schema_mismatch, unsupported_event, blocked_event,
  registration_conflict, wrong_fill_seq, wrong_fill_timestamp, duplicate_fill_record,
  wrong_remaining, duplicate_snapshot_order, no_divergence, stale_discrepancies, decimal, nonempty,
  Registration, FillPayload, Termination, ObservedOrder, Observation, Resolution, Event,
  order_registered, fill_applied, order_cancelled, order_expired, snapshot_reconciled,
  divergence_resolved, mismatched, unsupported, EngineStatus, live, cancelled, expired, BlockReason,
  divergence, Book, FillReply, Reply, nothing, fill, report,
}

-- `statuses.get(key)`
unfoldable pub find_terminal : String → List (String × EngineStatus) → Option EngineStatus
find_terminal key [] = none
find_terminal key ((k, s) ∷ ts) = if text_eq k key then some s else find_terminal key ts

abbrev pub is_terminal : Book → String → Bool
is_terminal g key = is_some (find_terminal key g.terminal)

-- The loop that builds `theirs`.
unfoldable pub read_observed :
    List ObservedOrder → List String → Outcome EngineError (List SnapshotOrder)
unfolding read_side new_snapshot_order mem_text
read_observed [] seen = ok []
read_observed (o ∷ os) seen = do
  snap ← map_err resilience (new_snapshot_order o.order_id (read_side o.side) (finite o.remaining))
  raise_if (mem_text o.order_id seen) duplicate_snapshot_order
  rest ← read_observed os (o.order_id ∷ seen)
  ok (snap ∷ rest)

-- The open orders that are not terminal in the engine.
unfoldable pub live_orders : Book → List PaperOrder → List PaperOrder
unfolding find_terminal
live_orders g [] = []
live_orders g (o ∷ os) =
    let rest = live_orders g os in
    if status_eq o.status filled_up || is_terminal g o.order_id then rest else o ∷ rest

-- `_make_reconciliation_report`
unfoldable pub make_report : Book → Observation → Outcome EngineError ReconciliationReport
unfolding decimal
make_report g p = do
  tol ← decimal (finite p.tolerance) non_negative
  cash ← decimal (finite p.cash) non_negative
  inventory ← decimal (finite p.inventory) non_negative
  theirs ← read_observed p.open_orders []
  let issues =
      amount_issues tol g.state cash inventory p.last_event_seq
      ++ order_issues tol (live_orders g g.state.orders) theirs
  ok (record {
    matched = is_empty issues;
    discrepancies = issues;
    local_event_seq = g.state.last_event_seq;
    observed_event_seq = p.last_event_seq;
  })

-- The fields that `_reduce` returns.
pub record Candidate : Type 0 where
  pub state : PaperState
  pub terminal : List (String × EngineStatus)
  pub blocked : Option BlockReason
  pub discrepancies : List Discrepancy
  pub reply : Reply

-- The engine's own fields, unchanged.
abbrev pub unchanged : Book → Candidate
unchanged g = record {
  state = g.state;
  terminal = g.terminal;
  blocked = g.blocked;
  discrepancies = g.discrepancies;
  reply = nothing;
}

abbrev pub known_order : Option PaperOrder → Outcome EngineError PaperOrder
known_order none = err unknown_order_id
known_order (some o) = ok o

unfoldable pub reduce_registration : Book → Registration → Outcome EngineError Candidate
reduce_registration g p = do
  raise_if
      (any (λ o. text_eq o.order_id p.order_id || text_eq o.client_order_id p.client_order_id)
        g.state.orders)
      registration_conflict
  s ←
      map_err resilience
        (register_order g.state p.order_id p.client_order_id p.side (finite p.quantity))
  ok (record (unchanged g) { state = s })

-- `FillEvent(...)` from a payload.
abbrev pub fill_event : FillPayload → ℕ → Outcome EngineError FillEvent
fill_event p seq = map_err resilience (
    new_fill p.fill_id p.order_id (read_side p.side) (finite p.quantity) (finite p.price)
      (finite p.fee) (finite p.spread_cost) (finite p.slippage_cost) (instant p.timestamp) seq)

-- The guards of a fill record before the fill is applied.
unfoldable pub check_fill_record : Book → FillPayload → ℕ → ℕ → Outcome EngineError (Unit {0})
unfolding decimal find_terminal find_order
check_fill_record g p seq timestamp = do
  order ← known_order (find_order p.order_id g.state.orders)
  raise_if (is_terminal g p.order_id) terminal_order
  qty ← decimal (finite p.quantity) positive
  raise_if (ltb_D g.limits.max_fill_qty qty) over_fill_limit
  raise_if (text_eq p.side "buy" && ltb_D g.limits.max_inventory (g.state.inventory_qty +D qty))
      over_inventory_limit
  raise_if (not (seq == g.state.last_event_seq + 1)) wrong_fill_seq
  raise_if (not (p.timestamp == timestamp)) wrong_fill_timestamp

abbrev pub fill_reply : FillApplication → FillReply
fill_reply r = record {
  applied = r.applied;
  duplicate = r.duplicate;
  status = live r.status;
  remaining = r.remaining;
}

-- A cancellation or an expiry.
unfoldable pub reduce_termination :
    Book → Termination → EngineStatus → Outcome EngineError Candidate
unfolding decimal nonempty find_terminal
reduce_termination g p ending = do
  order ← known_order (find_order p.order_id g.state.orders)
  raise_if (status_eq order.status filled_up || is_terminal g order.order_id) already_terminal
  remaining ← decimal (finite p.remaining) non_negative
  raise_if (not (eqb_D remaining (remaining_qty order))) wrong_remaining
  reason ← nonempty p.reason
  ok (record (unchanged g) { terminal = (order.order_id, ending) ∷ g.terminal })

unfoldable pub reduce_observation : Book → Observation → ℕ → Outcome EngineError Candidate
reduce_observation g p seq = do
  r ← make_report g p
  ok (
      if r.matched then record (unchanged g) { reply = report r } else record (unchanged g) {
        blocked = some (divergence seq);
        discrepancies = r.discrepancies;
        reply = report r;
      })

unfoldable pub reduce_resolution : Book → Resolution → Outcome EngineError Candidate
unfolding nonempty
reduce_resolution g p = do
  raise_if (not (is_some g.blocked)) no_divergence
  approval ← nonempty p.approval_ref
  reason ← nonempty p.reason
  raise_if (not (same_discrepancies p.prior_discrepancies g.discrepancies)) stale_discrepancies
  ok (record (unchanged g) { blocked = none })

abbrev pub is_resolution : Event → Bool
is_resolution (divergence_resolved _) = true
is_resolution _ = false

module _ (digest : FillEvent → Digest) where
  unfoldable pub reduce_fill : Book → FillPayload → ℕ → ℕ → Outcome EngineError Candidate
  reduce_fill g p seq timestamp = do
    check_fill_record g p seq timestamp
    event ← fill_event p seq
    (s, r) ← map_err resilience (apply_fill digest g.state event)
    raise_if (not r.applied) duplicate_fill_record
    ok (record (unchanged g) { state = s; reply = fill (fill_reply r) })

  unfoldable pub reduce_event : Book → Event → ℕ → ℕ → Outcome EngineError Candidate
  reduce_event g (order_registered p) seq timestamp = reduce_registration g p
  reduce_event g (fill_applied p fill_seq) seq timestamp = reduce_fill g p fill_seq timestamp
  reduce_event g (order_cancelled p) seq timestamp = reduce_termination g p cancelled
  reduce_event g (order_expired p) seq timestamp = reduce_termination g p expired
  reduce_event g (snapshot_reconciled p) seq timestamp = reduce_observation g p seq
  reduce_event g (divergence_resolved p) seq timestamp = reduce_resolution g p
  reduce_event g mismatched seq timestamp = err schema_mismatch
  reduce_event g unsupported seq timestamp = err unsupported_event

  -- `_reduce`, of a record with this number, timestamp and event.
  unfoldable pub reduce : Book → Event → ℕ → ℕ → Outcome EngineError Candidate
  reduce g event seq timestamp = do
    raise_if (is_before timestamp g.last_timestamp) time_moved_back
    raise_if (is_some g.blocked && not (is_resolution event)) blocked_event
    reduce_event g event seq timestamp
