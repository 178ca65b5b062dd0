-- ===== src/Rea/Paper/Fill.antt =====
-- `FillEvent`, `register_order` and `apply_fill`.
pub mod Repeats
pub mod Registration
pub mod Submitted
pub mod Accounted
pub mod History
pub mod Inversion
pub mod Origin
use sene_x.Common.{
  ℕ, ◌+◌, String, Bool, true, false, not, ◌&&◌, ◌||◌, if◌then◌else◌, ltb, ◌==◌, List, [], ◌∷◌, ◌++◌,
  Option, none, some, Outcome, ok, err, ◌>>=◌, ◌>>◌, raise_if, map_err,
}
use sene_x.Common.Text.{text_eq, strip, is_blank, mem_text}
use sene_x.Rea.Decimal.{Decimal, zero_D, ltb_D, eqb_D, ◌+D◌, ◌-D◌, ◌*D◌, ◌/D◌}
use sene_x.Rea.Contracts.{Value, finite, positive, non_negative, TimeText, normalize_timestamp}
use sene_x.Rea.Paper.Order.{
  PaperOrder, ResilienceError, bad_timestamp, blank_id, bad_side, submission_conflict,
  processed_fill_unknown_order, fill_conflict, unknown_order, sequence_gap, time_backwards,
  already_filled, side_differs, exceeds_remaining, insufficient_cash, short_position,
  costs_exceed_proceeds, bad_event_seq, dec, Side, buy, sell, other_side, side_eq, is_known,
  read_side, Status, opened, filled_up, partially_filled, status_eq, new_order, remaining_qty,
  find_order, replace_order,
}
use sene_x.Rea.Paper.State.{PaperState, Digest, validate}

pub record FillEvent : Type 0 where
  pub fill_id : String
  pub order_id : String
  pub side : Side
  pub quantity : Decimal
  pub price : Decimal
  pub fee : Decimal
  pub spread_cost : Decimal
  pub slippage_cost : Decimal
  pub timestamp : ℕ
  pub event_seq : ℕ

-- `FillEvent.__post_init__`
unfoldable pub new_fill :
    String
    → String
    → Side
    → Value
    → Value
    → Value
    → Value
    → Value
    → TimeText
    → ℕ
    → Outcome ResilienceError FillEvent
unfolding dec is_blank normalize_timestamp
new_fill fid oid side quantity price fee spread slippage ts seq = do
  raise_if (is_blank fid || is_blank oid) blank_id
  raise_if (not (is_known side)) bad_side
  q ← dec quantity positive
  p ← dec price positive
  f ← dec fee non_negative
  sp ← dec spread non_negative
  sl ← dec slippage non_negative
  raise_if (seq == 0) bad_event_seq
  t ← map_err bad_timestamp (normalize_timestamp ts)
  ok (record {
    fill_id = fid;
    order_id = oid;
    side = side;
    quantity = q;
    price = p;
    fee = f;
    spread_cost = sp;
    slippage_cost = sl;
    timestamp = t;
    event_seq = seq;
  })

pub record FillApplication : Type 0 where
  pub applied : Bool
  pub duplicate : Bool
  pub status : Status
  pub remaining : Decimal

-- The loop of `register_order` over the orders: `some true` is a resubmission, `some false` a
-- conflict, `none` an order that is new.
unfoldable pub resubmission : String → String → Side → Decimal → List PaperOrder → Option Bool
resubmission oid cid side q [] = none
resubmission oid cid side q (o ∷ os) =
    if text_eq o.order_id oid
      && text_eq o.client_order_id cid
      && side_eq o.side side
      && eqb_D o.requested_qty q
    then some true
    else if text_eq o.order_id oid || text_eq o.client_order_id cid
    then some false
    else resubmission oid cid side q os

unfoldable pub add_order :
    PaperState → String → String → Side → Decimal → Option Bool → Outcome ResilienceError PaperState
unfolding new_order validate
add_order s oid cid side q (some true) = ok s
add_order s oid cid side q (some false) = err submission_conflict
add_order s oid cid side q none = do
  order ← new_order oid cid side (finite q) (finite zero_D) opened
  validate (record s { orders = s.orders ++ order ∷ [] })

-- `register_order`
unfoldable pub register_order :
    PaperState → String → String → String → Value → Outcome ResilienceError PaperState
register_order s order_id client_order_id side quantity = do
  q ← dec quantity positive
  let sd = read_side side
  raise_if (not (is_known sd)) bad_side
  let oid = strip order_id
  let cid = strip client_order_id
  raise_if (text_eq oid "" || text_eq cid "") blank_id
  add_order s oid cid sd q (resubmission oid cid sd q s.orders)

-- `dict(fingerprints).get(key)`: the last entry of a key counts.
unfoldable pub last_print : String → List (String × Digest) → Option Digest
last_print key [] = none
last_print key ((k, d) ∷ ps) = elim (last_print key ps) [
  | some e ↦ some e
  | none ↦ if text_eq k key then some d else none
]

unfoldable pub same_digest : Digest → Digest → Bool
same_digest [] [] = true
same_digest [] (d ∷ ds) = false
same_digest (c ∷ cs) [] = false
same_digest (c ∷ cs) (d ∷ ds) = c == d && same_digest cs ds

abbrev pub print_matches : Option Digest → Digest → Bool
print_matches none d = false
print_matches (some e) d = same_digest e d

-- The four numbers that a fill changes, apart from the totals.
pub record Booking : Type 0 where
  pub cash : Decimal
  pub inventory : Decimal
  pub basis : Decimal
  pub realized : Decimal

abbrev pub notional : FillEvent → Decimal
notional e = e.quantity *D e.price

abbrev pub costs : FillEvent → Decimal
costs e = e.fee +D e.spread_cost +D e.slippage_cost

-- The branch of `apply_fill` for a buy.
unfoldable pub book_buy : PaperState → FillEvent → Outcome ResilienceError Booking
book_buy s e =
    let debit = notional e +D costs e in
    do
      raise_if (ltb_D s.cash debit) insufficient_cash
      ok (record {
        cash = s.cash -D debit;
        inventory = s.inventory_qty +D e.quantity;
        basis = s.inventory_cost_basis +D debit;
        realized = s.realized_pnl;
      })

-- The branch of `apply_fill` for a sale.
unfoldable pub book_sell : PaperState → FillEvent → Outcome ResilienceError Booking
book_sell s e =
    let proceeds = notional e -D costs e in
    let allocated =
      if eqb_D e.quantity s.inventory_qty
      then s.inventory_cost_basis
      else s.inventory_cost_basis *D e.quantity /D s.inventory_qty in
    let inventory = s.inventory_qty -D e.quantity in
    do
      raise_if (ltb_D s.inventory_qty e.quantity) short_position
      raise_if (ltb_D (notional e) (costs e)) costs_exceed_proceeds
      ok (record {
        cash = s.cash +D proceeds;
        inventory = inventory;
        basis = if eqb_D inventory zero_D then zero_D else s.inventory_cost_basis -D allocated;
        realized = s.realized_pnl +D proceeds -D allocated;
      })

-- `last_processed_timestamp is not None and event.timestamp < last_processed_timestamp`
abbrev pub is_before : ℕ → Option ℕ → Bool
is_before t none = false
is_before t (some last) = ltb t last

-- The guards of a fill that was not seen before.
unfoldable pub check_fill : PaperState → FillEvent → PaperOrder → Outcome ResilienceError (Unit {0})
check_fill s e order = do
  raise_if (not (e.event_seq == s.last_event_seq + 1)) sequence_gap
  raise_if (is_before e.timestamp s.last_processed_timestamp) time_backwards
  raise_if (status_eq order.status filled_up) already_filled
  raise_if (not (side_eq e.side order.side)) side_differs
  raise_if (ltb_D (remaining_qty order) e.quantity) exceeds_remaining

abbrev pub booking : PaperState → FillEvent → Outcome ResilienceError Booking
booking s e = if side_eq e.side buy then book_buy s e else book_sell s e

abbrev pub filled_after : PaperOrder → FillEvent → Decimal
filled_after o e = o.filled_qty +D e.quantity

abbrev pub status_after : PaperOrder → FillEvent → Status
status_after o e = if eqb_D (filled_after o e) o.requested_qty then filled_up else partially_filled

-- `replace(order, filled_qty=filled, status=status)`
abbrev pub refilled : PaperOrder → FillEvent → Outcome ResilienceError PaperOrder
refilled o e =
    new_order o.order_id o.client_order_id o.side (finite o.requested_qty)
      (finite (filled_after o e)) (status_after o e)

module _ (digest : FillEvent → Digest) where
  -- The state after a fill that was booked against an order.
  abbrev pub filled_state : PaperState → FillEvent → PaperOrder → Booking → PaperState
  filled_state s e changed b = record s {
    cash = b.cash;
    inventory_qty = b.inventory;
    inventory_cost_basis = b.basis;
    realized_pnl = b.realized;
    total_fees = s.total_fees +D e.fee;
    total_spread_cost = s.total_spread_cost +D e.spread_cost;
    total_slippage_cost = s.total_slippage_cost +D e.slippage_cost;
    turnover = s.turnover +D notional e;
    last_processed_timestamp = some e.timestamp;
    last_event_seq = e.event_seq;
    orders = replace_order changed s.orders;
    processed_fill_ids = s.processed_fill_ids ++ e.fill_id ∷ [];
    processed_fill_fingerprints = s.processed_fill_fingerprints ++ (e.fill_id, digest e) ∷ [];
  }

  unfoldable pub fresh_fill :
      PaperState → FillEvent → PaperOrder → Outcome ResilienceError (PaperState × FillApplication)
  fresh_fill s e order = do
    check_fill s e order
    b ← booking s e
    changed ← refilled order e
    s' ← validate (filled_state s e changed b)
    ok (
      s',
      record {
        applied = true;
        duplicate = false;
        status = status_after order e;
        remaining = remaining_qty changed;
      },
    )

  -- A fill whose ID was processed before.
  unfoldable pub repeated_fill :
      PaperState → FillEvent → PaperOrder → Outcome ResilienceError (PaperState × FillApplication)
  repeated_fill s e order = do
    raise_if (not (print_matches (last_print e.fill_id s.processed_fill_fingerprints) (digest e)))
        fill_conflict
    ok (
      s,
      record {
        applied = false;
        duplicate = true;
        status = order.status;
        remaining = remaining_qty order;
      },
    )

  abbrev pub or_raise : Option PaperOrder → ResilienceError → Outcome ResilienceError PaperOrder
  or_raise none e = err e
  or_raise (some o) e = ok o

  -- `apply_fill`
  unfoldable pub apply_fill :
      PaperState → FillEvent → Outcome ResilienceError (PaperState × FillApplication)
  unfolding fresh_fill repeated_fill
  apply_fill s e =
      let order = find_order e.order_id s.orders in
      if mem_text e.fill_id s.processed_fill_ids
      then (do o ← or_raise order processed_fill_unknown_order; repeated_fill s e o)
      else (do o ← or_raise order unknown_order; fresh_fill s e o)
