-- ===== src/Rea/Replay.antt =====
-- research/rea_engines/replay.py: the replay of candles against a strategy.
pub mod Ledgers
pub mod Tests
use sene_x.Common.{
  ℕ, ◌+◌, ◌-◌, ◌<◌, String, Bool, true, false, not, ◌&&◌, if◌then◌else◌, ltb, leb, ◌==◌, List, [],
  ◌∷◌, ◌++◌, Option, none, some, Outcome, ok, err, ◌>>=◌, ◌>>◌, raise_if, map_err, length,
}
use sene_x.Common.Text.{text_eq, is_blank}
use sene_x.Common.Int.{pos}
use sene_x.Rea.Decimal.{Decimal, zero_D, leb_D, ltb_D, ◌+D◌, ◌-D◌, ◌*D◌, ◌/D◌}
use sene_x.Rea.Contracts.{
  ContractError, Value, finite, positive, as_decimal, Candle, max_D, IntentSide, buying, selling,
  OrderType, market, limit, OrderIntent, CancelIntent, CostProfile, PortfolioSnapshot, PendingOrder,
  is_bad_ttl,
}
use sene_x.Rea.Accounting.{LedgerError, LedgerOperation, Ledger, new_ledger, buy, sell, snapshot}

pub data ReplayError : Type 0 where
  bad_number : ContractError → ReplayError
  ledger : LedgerError → ReplayError
  bad_ttl blank_config no_candles not_increasing strategy_failed : ReplayError

pub record ReplayConfig : Type 0 where
  pub starting_cash : Decimal
  pub max_inventory : Decimal
  pub max_fill_qty : Decimal
  pub costs : CostProfile
  pub default_order_ttl : Option ℕ
  pub config_id : String

abbrev pub config_number : Value → Outcome ReplayError Decimal
config_number v = map_err bad_number (as_decimal v positive)

-- `ReplayConfig.__post_init__`
unfoldable pub new_config :
    Value → Value → Value → CostProfile → Option ℕ → String → Outcome ReplayError ReplayConfig
unfolding as_decimal is_blank
new_config cash inventory fill costs ttl config_id = do
  c ← config_number cash
  i ← config_number inventory
  f ← config_number fill
  raise_if (is_bad_ttl ttl) bad_ttl
  raise_if (is_blank config_id) blank_config
  ok (record {
    starting_cash = c;
    max_inventory = i;
    max_fill_qty = f;
    costs = costs;
    default_order_ttl = ttl;
    config_id = config_id;
  })

-- The loop of `_validate_inputs`, after a candle of the given time.
unfoldable pub check_increasing : Option ℕ → List Candle → Outcome ReplayError (Unit {0})
check_increasing previous [] = ok tt
check_increasing none (c ∷ cs) = check_increasing (some c.timestamp) cs
check_increasing (some t) (c ∷ cs) =
    if leb c.timestamp t then err not_increasing else check_increasing (some c.timestamp) cs

-- `_validate_inputs`
unfoldable pub validate_inputs : List Candle → Outcome ReplayError (Unit {0})
unfolding check_increasing
validate_inputs [] = err no_candles
validate_inputs (c ∷ cs) = check_increasing none (c ∷ cs)

abbrev pub whole : ℕ → Decimal
whole n = record { negative = false; digits = n; exponent = pos 0 }

abbrev pub bps_denominator : Decimal
bps_denominator = whole 10000

-- A `Fill`: what the ledger booked, for which order and when.
pub record Fill : Type 0 where
  pub order : PendingOrder
  pub timestamp : ℕ
  pub operation : LedgerOperation

pub data Reason : Type 0 where
  refused : LedgerError → Reason
  cancel_target_not_open : Reason

-- A `Rejection`; the side of a cancellation is the word `cancel`, here none.
pub record Rejection : Type 0 where
  pub order_id : String
  pub timestamp : ℕ
  pub reason : Reason
  pub side : Option IntentSide
  pub quantity : Decimal
  pub tag : String

-- Spread and slippage, which a market order pays and a limit order does not.
abbrev pub market_costs : OrderType → Decimal → CostProfile → Decimal × Decimal
market_costs market notional c = (
  notional *D c.spread_bps /D bps_denominator /D whole 2,
  notional *D c.slippage_bps /D bps_denominator,
)
market_costs limit notional c = (zero_D, zero_D)

abbrev pub trade_on :
    IntentSide
    → Ledger
    → Value
    → Value
    → Value
    → Value
    → Value
    → Outcome LedgerError (Ledger × LedgerOperation)
trade_on buying = buy
trade_on selling = sell

-- `_execute_fill`, with the ledger that it changes.
unfoldable pub execute_fill :
    PendingOrder → Candle → Decimal → Ledger → CostProfile → Outcome LedgerError (Ledger × Fill)
execute_fill order candle price l costs =
    let notional = order.quantity *D price in
    let fee = notional *D costs.fee_bps /D bps_denominator in
    let extra = market_costs order.order_type notional costs in
    do
      done ←
          trade_on order.side l (finite order.quantity) (finite price) (finite fee) (finite extra.0)
            (finite extra.1)
      ok (done.0, record { order = order; timestamp = candle.timestamp; operation = done.1 })

-- The price at which a limit order fills in a candle, if it does.
abbrev pub limit_fill : IntentSide → Option Decimal → Candle → Option Decimal
limit_fill side none c = none
limit_fill buying (some p) c =
    if leb_D c.low p then some (if ltb_D c.opening p then c.opening else p) else none
limit_fill selling (some p) c =
    if leb_D p c.high then some (if ltb_D p c.opening then c.opening else p) else none

-- The `fill_price` of the loop over pending orders.
unfoldable pub fill_price : PendingOrder → Candle → Option Decimal
fill_price o c = elim o.order_type [
  | market ↦ some c.opening
  | limit ↦ limit_fill o.side o.limit_price c
]

-- An order that expired or was cancelled, as the report shows it.
pub record Closed : Type 0 where
  pub order : PendingOrder
  pub timestamp : ℕ
  pub tag : String

pub record EquityPoint : Type 0 where
  pub timestamp : ℕ
  pub close : Decimal
  pub cash : Decimal
  pub inventory_qty : Decimal
  pub equity : Decimal
  pub drawdown_pct : Decimal

-- The local variables of `run` that change from candle to candle.
pub record Run : Type 0 where
  pub ledger : Ledger
  pub pending : List PendingOrder
  pub fills : List Fill
  pub rejections : List Rejection
  pub expired_orders : List Closed
  pub cancelled_orders : List Closed
  pub equity_curve : List EquityPoint
  pub order_sequence : ℕ
  pub peak_equity : Decimal
  pub max_drawdown_pct : Decimal
  pub bars_in_market : ℕ

abbrev pub is_expired : Option ℕ → ℕ → Bool
is_expired none waited = false
is_expired (some ttl) waited = leb ttl waited

-- The result of a try at a fill: a `Rejection` in place of the exception.
abbrev pub book_fill : PendingOrder → Candle → Run → Outcome LedgerError (Ledger × Fill) → Run
book_fill o c r (ok (l, f)) = record r { ledger = l; fills = r.fills ++ f ∷ [] }
book_fill o c r (err e) = record r {
  rejections =
      r.rejections
      ++ record {
        order_id = o.order_id;
        timestamp = c.timestamp;
        reason = refused e;
        side = some o.side;
        quantity = o.quantity;
        tag = o.tag;
      }
        ∷ [];
}

-- One order of an earlier candle that does not fill in this one.
abbrev pub wait_on : ℕ → Candle → PendingOrder → Run → Run
wait_on index c o r =
    let waited = index - o.submitted_index in
    let updated = record o { bars_waited = waited } in
    if is_expired o.expires_after_bars waited
    then record r {
      expired_orders =
          r.expired_orders ++ record { order = updated; timestamp = c.timestamp; tag = o.tag } ∷ [];
    }
    else record r { pending = r.pending ++ updated ∷ [] }

-- One round of the loop over pending orders; `pending` is `still_pending`.
unfoldable pub visit : CostProfile → ℕ → Candle → PendingOrder → Run → Run
visit costs index c o r =
    if leb index o.submitted_index
    then record r { pending = r.pending ++ o ∷ [] }
    else elim (fill_price o c) [
      | some price ↦ book_fill o c r (execute_fill o c price r.ledger costs)
      | none ↦ wait_on index c o r
    ]

unfoldable pub visit_all : CostProfile → ℕ → Candle → List PendingOrder → Run → Run
visit_all costs index c [] r = r
visit_all costs index c (o ∷ os) r = visit_all costs index c os (visit costs index c o r)

-- `if peak_equity > ZERO`, else no drawdown.
abbrev pub drawdown : Decimal → Decimal → Decimal
drawdown peak worth = if ltb_D zero_D peak then (peak -D worth) /D peak *D whole 100 else zero_D

-- The part of a candle between the fills and the strategy.
abbrev pub mark : Candle → PortfolioSnapshot → Run → Run
mark c view r =
    let peak = max_D r.peak_equity view.equity in
    let down = drawdown peak view.equity in
    record r {
      peak_equity = peak;
      max_drawdown_pct = max_D r.max_drawdown_pct down;
      bars_in_market =
          if ltb_D zero_D view.inventory_qty then r.bars_in_market + 1 else r.bars_in_market;
      equity_curve =
          r.equity_curve
          ++ record {
            timestamp = c.timestamp;
            close = c.close;
            cash = view.cash;
            inventory_qty = view.inventory_qty;
            equity = view.equity;
            drawdown_pct = down;
          }
            ∷ [];
    }

pub data Intent : Type 0 where
  order_intent : OrderIntent → Intent
  cancel_intent : CancelIntent → Intent

unfoldable pub find_pending : String → List PendingOrder → Option PendingOrder
find_pending key [] = none
find_pending key (o ∷ os) = if text_eq o.order_id key then some o else find_pending key os

unfoldable pub without_pending : String → List PendingOrder → List PendingOrder
without_pending key [] = []
without_pending key (o ∷ os) =
    let rest = without_pending key os in if text_eq o.order_id key then rest else o ∷ rest

abbrev pub own_or : Option ℕ → Option ℕ → Option ℕ
own_or none default = default
own_or (some n) default = some n

-- `intent.tag or match.tag`
abbrev pub tag_or : String → String → String
tag_or tag other = if text_eq tag "" then other else tag

abbrev pub cancel : Candle → CancelIntent → Option PendingOrder → Run → Run
cancel c i none r = record r {
  rejections =
      r.rejections
      ++ record {
        order_id = i.order_id;
        timestamp = c.timestamp;
        reason = cancel_target_not_open;
        side = none;
        quantity = zero_D;
        tag = i.tag;
      }
        ∷ [];
}
cancel c i (some o) r = record r {
  pending = without_pending i.order_id r.pending;
  cancelled_orders =
      r.cancelled_orders
      ++ record { order = o; timestamp = c.timestamp; tag = tag_or i.tag o.tag } ∷ [];
}

-- A strategy, of which the replay only calls `on_candle`: its state, and its answer or exception;
-- and the name that the replay gives to the order of a number, the strategy's ID in front.
pub record Strategy (S : Type 0) : Type 0 where
  pub on_candle : S → Candle → PortfolioSnapshot → List PendingOrder → Option (S × List Intent)
  pub order_name : ℕ → String

module _ {S : Type 0} (strategy : Strategy S) (config : ReplayConfig) where
  -- The loop over the intents of a candle.
  unfoldable pub take_intents : ℕ → Candle → List Intent → Run → Run
  unfolding find_pending without_pending
  take_intents index c [] r = r
  take_intents index c (cancel_intent i ∷ is') r =
      take_intents index c is' (cancel c i (find_pending i.order_id r.pending) r)
  take_intents index c (order_intent i ∷ is') r = take_intents index c is' (record r {
    order_sequence = r.order_sequence + 1;
    pending =
        r.pending
        ++ record {
          order_id = strategy.order_name (r.order_sequence + 1);
          side = i.side;
          order_type = i.order_type;
          quantity = i.quantity;
          limit_price = i.limit_price;
          submitted_index = index;
          submitted_timestamp = c.timestamp;
          expires_after_bars = own_or i.expires_after_bars config.default_order_ttl;
          tag = i.tag;
          bars_waited = 0;
        }
          ∷ [];
  })

  abbrev pub answered : ℕ → Candle → Run → Option (S × List Intent) → Outcome ReplayError (S × Run)
  answered index c r none = err strategy_failed
  answered index c r (some (s, intents)) = ok (s, take_intents index c intents r)

  -- The fills of a candle.
  abbrev pub fill_bar : ℕ → Candle → Run → Run
  fill_bar index c r = visit_all config.costs index c r.pending (record r { pending = [] })

  -- One candle.
  unfoldable pub bar : ℕ → Candle → S → Run → Outcome ReplayError (S × Run)
  bar index c s r = do
    let filled = fill_bar index c r
    view ← map_err ledger (snapshot filled.ledger (finite c.close))
    let marked = mark c view filled
    answered index c marked (strategy.on_candle s c view marked.pending)

  unfoldable pub bars : ℕ → List Candle → S → Run → Outcome ReplayError (S × Run)
  bars index [] s r = ok (s, r)
  bars index (c ∷ cs) s r = do next ← bar index c s r; bars (index + 1) cs next.0 next.1

  abbrev pub first_run : Ledger → Run
  first_run l = record {
    ledger = l;
    pending = [];
    fills = [];
    rejections = [];
    expired_orders = [];
    cancelled_orders = [];
    equity_curve = [];
    order_sequence = 0;
    peak_equity = config.starting_cash;
    max_drawdown_pct = zero_D;
    bars_in_market = 0;
  }

  -- `Replay.run`, up to the report.
  unfoldable pub run : List Candle → S → Outcome ReplayError Run
  run candles s = do
    validate_inputs candles
    l ← map_err ledger (
        new_ledger (finite config.starting_cash) (finite config.max_inventory)
          (finite config.max_fill_qty))
    end ← bars 0 candles s (first_run l)
    ok end.1
