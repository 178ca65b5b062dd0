-- ===== src/Rea/Engine/Commands.antt =====
-- The public methods of the engine. The re-entrant lock around each makes it one step.
pub mod Runs
use sene_x.Common.{
  ℕ, ◌+◌, String, Bool, true, false, not, ◌&&◌, ◌||◌, if◌then◌else◌, List, [], ◌∷◌, map, Option,
  none, some, is_some, Outcome, ok, err, ◌>>=◌, ◌>>◌, raise_if,
}
use sene_x.Common.Text.{text_eq, text_lt}
use sene_x.Rea.Decimal.{ltb_D, ◌+D◌}
use sene_x.Rea.Contracts.{Value, positive, non_negative, TimeText}
use sene_x.Rea.Paper.Order.{
  Side, buy, sell, other_side, read_side, is_known, side_eq, status_eq, filled_up, remaining_qty,
}
use sene_x.Rea.Paper.Snapshot.{SnapshotOrder, ExecutionSnapshot}
use sene_x.Rea.Engine.Event.{
  EngineError, bad_order_side, bad_fill_side, over_fill_limit, terminal_order, over_inventory_limit,
  fill_id_conflict, already_terminal, not_blocked, engine_blocked, decimal, nonempty, event_time,
  FillPayload, same_fill, Termination, ObservedOrder, Event, order_registered, fill_applied,
  order_cancelled, order_expired, snapshot_reconciled, divergence_resolved, Record, Book, Engine,
  Reply, nothing, fill,
}
use sene_x.Rea.Engine.Reduce.{is_terminal}
use sene_x.Rea.Engine.Journal.{
  Hashing, Disk, Append, Done, existing_event, get_order, duplicate_reply, record_event,
}

-- A side as a payload spells it. An unknown text is kept as it came: it is compared with the sides
-- of recorded fills, which are known, and is never recorded.
unfoldable pub side_text : Side → String
side_text buy = "buy"
side_text sell = "sell"
side_text (other_side s) = s

-- The first part of a method reads the arguments and the book; a result of it ends the call, or
-- names the event to record.
pub data Plan : Type 0 where
  answer : Reply → Plan
  record_it : Bool → String → Event → ℕ → Plan

-- `register_order`
unfoldable pub plan_register :
    String → TimeText → String → String → String → Value → Outcome EngineError Plan
plan_register event_id ts order_id client_order_id side quantity = do
  t ← event_time ts
  oid ← nonempty order_id
  cid ← nonempty client_order_id
  let sd = read_side side
  raise_if (not (is_known sd)) bad_order_side
  qty ← decimal quantity positive
  key ← nonempty event_id
  ok (
      record_it false key
        (order_registered
          (record { order_id = oid; client_order_id = cid; side = side_text sd; quantity = qty }))
        t)

-- The arguments of `apply_fill` as its `base_payload`.
unfoldable pub read_fill :
    String
    → String
    → Side
    → Value
    → Value
    → Value
    → Value
    → Value
    → ℕ
    → Outcome EngineError FillPayload
read_fill fill_id order_id sd quantity price fee spread slippage t = do
  fid ← nonempty fill_id
  oid ← nonempty order_id
  q ← decimal quantity positive
  p ← decimal price positive
  f ← decimal fee non_negative
  sp ← decimal spread non_negative
  sl ← decimal slippage non_negative
  ok (record {
    fill_id = fid;
    order_id = oid;
    side = side_text sd;
    quantity = q;
    price = p;
    fee = f;
    spread_cost = sp;
    slippage_cost = sl;
    timestamp = t;
  })

-- `_fill_payloads.get(key)`
unfoldable pub find_fill : String → List FillPayload → Option FillPayload
find_fill key [] = none
find_fill key (p ∷ ps) = if text_eq p.fill_id key then some p else find_fill key ps

-- The guards of `apply_fill` for a fill that is not in the journal.
unfoldable pub guard_fill : Book → FillPayload → Side → Outcome EngineError (Unit {0})
guard_fill g p sd = do
  raise_if (is_some g.blocked) engine_blocked
  raise_if (not (is_known sd)) bad_fill_side
  raise_if (ltb_D g.limits.max_fill_qty p.quantity) over_fill_limit
  order ← get_order g p.order_id
  raise_if (is_terminal g order.order_id) terminal_order
  raise_if (side_eq sd buy && ltb_D g.limits.max_inventory (g.state.inventory_qty +D p.quantity))
      over_inventory_limit

-- The choice of `apply_fill` between a replay of the event, one of the fill, and a new fill.
unfoldable pub choose_fill :
    Book
    → String
    → FillPayload
    → Side
    → ℕ
    → Option Record
    → Option FillPayload
    → Outcome EngineError Plan
choose_fill g key p sd t (some prior) old = do
  r ← duplicate_reply g p.order_id
  ok (answer (fill r))
choose_fill g key p sd t none (some old) = do
  raise_if (not (same_fill old p)) fill_id_conflict
  r ← duplicate_reply g p.order_id
  ok (answer (fill r))
choose_fill g key p sd t none none = do
  guard_fill g p sd
  ok (record_it false key (fill_applied p (g.state.last_event_seq + 1)) t)

-- `apply_fill`
unfoldable pub plan_fill :
    Book
    → String
    → String
    → String
    → String
    → Value
    → Value
    → Value
    → Value
    → Value
    → TimeText
    → Outcome EngineError Plan
plan_fill g event_id fill_id order_id side quantity price fee spread slippage ts = do
  t ← event_time ts
  let sd = read_side side
  p ← read_fill fill_id order_id sd quantity price fee spread slippage t
  key ← nonempty event_id
  prior ← existing_event g key (fill_applied p 0) t
  choose_fill g key p sd t prior (find_fill p.fill_id g.fills)

-- `cancel_order` and `expire_order`: which of the two.
pub data Ending : Type 0 where
  cancel expire : Ending

abbrev pub ending_event : Ending → Termination → Event
ending_event cancel p = order_cancelled p
ending_event expire p = order_expired p

-- `_terminal_transition`
unfoldable pub plan_termination :
    Book → Ending → String → TimeText → String → String → Outcome EngineError Plan
plan_termination g ending event_id ts order_id reason = do
  t ← event_time ts
  order ← get_order g order_id
  why ← nonempty reason
  let event =
      ending_event ending
        (record { order_id = order.order_id; remaining = remaining_qty order; reason = why })
  key ← nonempty event_id
  prior ← existing_event g key event t
  if is_some prior then ok (answer nothing) else do
    raise_if (is_some g.blocked) engine_blocked
    raise_if (is_terminal g order.order_id || status_eq order.status filled_up) already_terminal
    ok (record_it false key event t)

-- `sorted(observed.open_orders, key=lambda item: item.order_id)`, which is stable.
insert_observed : SnapshotOrder → List SnapshotOrder → List SnapshotOrder
insert_observed o [] = o ∷ []
insert_observed o (p ∷ ps) =
    if text_lt p.order_id o.order_id then p ∷ insert_observed o ps else o ∷ p ∷ ps

unfoldable pub sorted_observed : List SnapshotOrder → List SnapshotOrder
unfolding insert_observed
sorted_observed [] = []
sorted_observed (o ∷ os) = insert_observed o (sorted_observed os)

abbrev pub observed_order : SnapshotOrder → ObservedOrder
observed_order o = record {
  order_id = o.order_id;
  side = side_text o.side;
  remaining = o.remaining;
}

-- `reconcile`
unfoldable pub plan_reconcile :
    ExecutionSnapshot → String → TimeText → Value → Outcome EngineError Plan
plan_reconcile observed event_id ts tolerance = do
  t ← event_time ts
  tol ← decimal tolerance non_negative
  key ← nonempty event_id
  ok (
      record_it false key
        (snapshot_reconciled (record {
          cash = observed.cash;
          inventory = observed.inventory_qty;
          open_orders = map observed_order (sorted_observed observed.open_orders);
          last_event_seq = observed.last_event_seq;
          tolerance = tol;
        }))
        t)

-- `resolve_divergence`
unfoldable pub plan_resolve : Book → String → TimeText → String → String → Outcome EngineError Plan
plan_resolve g event_id ts approval reason = do
  t ← event_time ts
  ref ← nonempty approval
  why ← nonempty reason
  let event =
      divergence_resolved
        (record { approval_ref = ref; reason = why; prior_discrepancies = g.discrepancies })
  key ← nonempty event_id
  prior ← existing_event g key event t
  if is_some prior
      then ok (answer nothing)
      else do raise_if (not (is_some g.blocked)) not_blocked; ok (record_it true key event t)

-- A call of a public method.
pub data Command : Type 0 where
  register : String → TimeText → String → String → String → Value → Command
  apply :
      String → String → String → String → Value → Value → Value → Value → Value → TimeText → Command
  terminate : Ending → String → TimeText → String → String → Command
  reconcile : ExecutionSnapshot → String → TimeText → Value → Command
  resolve : String → TimeText → String → String → Command

unfoldable pub plan : Book → Command → Outcome EngineError Plan
plan g (register key ts oid cid side q) = plan_register key ts oid cid side q
plan g (apply key fid oid side q p f sp sl ts) = plan_fill g key fid oid side q p f sp sl ts
plan g (terminate ending key ts oid why) = plan_termination g ending key ts oid why
plan g (reconcile observed key ts tol) = plan_reconcile observed key ts tol
plan g (resolve key ts ref why) = plan_resolve g key ts ref why

module _ (h : Hashing) where
  abbrev pub carry_out : Outcome EngineError Plan → Append → Engine → Disk → Done (Bool × Reply)
  carry_out (err e) a g d = (err e, g, d)
  carry_out (ok (answer r)) a g d = (ok (false, r), g, d)
  carry_out (ok (record_it allow key event t)) a g d = record_event h allow key event t a g d

  -- A method: its exception, or whether it recorded an event and what it answers.
  unfoldable pub call : Command → Append → Engine → Disk → Done (Bool × Reply)
  call c a g d = carry_out (plan g.book c) a g d
