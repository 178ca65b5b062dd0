-- ===== src/Rea/Replay/Tests.antt =====
-- The ledger and the replay on concrete trades and candles.
use sene_x.Common.{
  ℕ, ◌≡◌, refl, inl, [], ◌∷◌, none, some, Outcome, ok, err, ◌+◌, ◌==◌, length, if◌then◌else◌,
}
use sene_x.Common.Int.{negsuc}
use sene_x.Rea.Decimal.{leb_D, ◌+D◌, ◌-D◌, ◌*D◌, ◌/D◌}
use sene_x.Rea.Contracts.{finite, as_decimal, Candle, buying, market, OrderIntent}
use sene_x.Rea.Paper.Tests.{number, start}
use sene_x.Rea.Paper.Order.{buy as purchase_side, sell as sale_side}
use sene_x.Rea.Paper.State.{PaperState}
use sene_x.Rea.Paper.Fill.{FillEvent, Booking, book_buy, book_sell}
use sene_x.Rea.Accounting.{
  Ledger, LedgerOperation, operation_values, book_purchase, book_sale, buy, sell, new_ledger, trade,
  snapshot, average_entry_price, equity, unrealized_pnl,
}
use sene_x.Rea.Accounting.Parity.{Agrees, Follows, buy-parity, sell-parity}
use sene_x.Rea.Accounting.Solvency.{IsSolvent, buy-IsSolvent, sell-IsSolvent}
use sene_x.Rea.Replay.{
  ReplayConfig, Strategy, Run, order_intent, first_run, run, bars, bar, validate_inputs,
  check_increasing, visit_all, visit, fill_price, execute_fill, take_intents,
}
use sene_x.Rea.Replay.Ledgers.{run-IsSolvent}

abbrev purchase : FillEvent
purchase = record {
  fill_id = "f1";
  order_id = "o1";
  side = purchase_side;
  quantity = number 2;
  price = number 10;
  fee = number 1;
  spread_cost = number 0;
  slippage_cost = number 0;
  timestamp = 7;
  event_seq = 1;
}

abbrev sale : FillEvent
sale = record purchase {
  fill_id = "f2";
  side = sale_side;
  quantity = number 1;
  price = number 12;
  event_seq = 2;
}

abbrev cash_ledger : Ledger
cash_ledger = record {
  starting_cash = number 100;
  max_inventory = number 9;
  max_fill_qty = number 9;
  cash = number 100;
  inventory_qty = number 0;
  inventory_cost_basis = number 0;
  realized_pnl = number 0;
  total_fees = number 0;
  total_spread_cost = number 0;
  total_slippage_cost = number 0;
  turnover = number 0;
}

abbrev trade_in : FillEvent → LedgerOperation
trade_in e = trade e.quantity e.price e.fee e.spread_cost e.slippage_cost

abbrev holding : Ledger
holding = record cash_ledger {
  cash = number 79;
  inventory_qty = number 2;
  inventory_cost_basis = number 21;
  total_fees = number 1;
  turnover = number 20;
}

buy_ok :
    buy cash_ledger
      (finite (number 2))
      (finite (number 10))
      (finite (number 1))
      (finite (number 0))
      (finite (number 0))
    ≡ ok (holding, trade_in purchase)
unfolding buy operation_values as_decimal leb_D book_purchase ◌+D◌ ◌-D◌ ◌*D◌ mathlib.Core.Bool.xor
buy_ok = refl

start-Agrees : Agrees cash_ledger start
start-Agrees = record {
  cash = refl;
  inventory = refl;
  basis = refl;
  fees = refl;
  spread = refl;
  slippage = refl;
  turnover = refl;
}

buy-parity_example :
    (b : Booking) × (book_buy start purchase ≡ ok b) × Follows start purchase b holding
buy-parity_example =
    buy-parity cash_ledger start purchase holding (trade_in purchase) start-Agrees buy_ok

abbrev half_sold : Ledger
half_sold = record holding {
  cash = number 90;
  inventory_qty = number 1;
  inventory_cost_basis = record (number 105) { exponent = negsuc 0 };
  realized_pnl = record (number 5) { exponent = negsuc 0 };
  total_fees = number 2;
  turnover = number 32;
}

abbrev sale_operation : LedgerOperation
sale_operation = record (trade_in sale) {
  allocated_cost_basis = record (number 105) { exponent = negsuc 0 };
  realized_pnl = record (number 5) { exponent = negsuc 0 };
}

sell_ok :
    sell holding
      (finite (number 1))
      (finite (number 12))
      (finite (number 1))
      (finite (number 0))
      (finite (number 0))
    ≡ ok (half_sold, sale_operation)
unfolding sell operation_values as_decimal leb_D book_sale ◌+D◌ ◌-D◌ ◌*D◌ ◌/D◌ mathlib.Core.Bool.xor
sell_ok = refl

-- The paper state with the same holding.
abbrev held : PaperState
held = record start {
  cash = number 79;
  inventory_qty = number 2;
  inventory_cost_basis = number 21;
  total_fees = number 1;
  turnover = number 20;
}

held-Agrees : Agrees holding held
held-Agrees = record {
  cash = refl;
  inventory = refl;
  basis = refl;
  fees = refl;
  spread = refl;
  slippage = refl;
  turnover = refl;
}

sell-parity_example : (b : Booking) × (book_sell held sale ≡ ok b) × Follows held sale b half_sold
sell-parity_example = sell-parity holding held sale half_sold sale_operation held-Agrees sell_ok

cash_ledger-IsSolvent : IsSolvent cash_ledger
cash_ledger-IsSolvent = record { cash = inl refl; inventory = inl refl }

holding-IsSolvent : IsSolvent holding
holding-IsSolvent = record { cash = inl refl; inventory = inl refl }

buy-IsSolvent_example : IsSolvent holding
buy-IsSolvent_example =
    buy-IsSolvent cash_ledger (finite (number 2)) (finite (number 10)) (finite (number 1))
      (finite (number 0)) (finite (number 0)) holding (trade_in purchase) cash_ledger-IsSolvent
      buy_ok

sell-IsSolvent_example : IsSolvent half_sold
sell-IsSolvent_example =
    sell-IsSolvent holding (finite (number 1)) (finite (number 12)) (finite (number 1))
      (finite (number 0)) (finite (number 0)) half_sold sale_operation holding-IsSolvent sell_ok

-- A strategy that buys one unit at the market on its first candle.
abbrev one_order : OrderIntent
one_order = record {
  side = buying;
  order_type = market;
  quantity = number 1;
  limit_price = none;
  expires_after_bars = none;
  tag = "";
}

abbrev buyer : Strategy ℕ
buyer = record {
  on_candle = λ n c view pending. some (n + 1, if n == 0 then order_intent one_order ∷ [] else []);
  order_name = λ n. if n == 1 then "buyer-000001" else "buyer";
}

abbrev config : ReplayConfig
config = record {
  starting_cash = number 100;
  max_inventory = number 9;
  max_fill_qty = number 9;
  costs = record {
    fee_bps = number 10;
    spread_bps = number 0;
    slippage_bps = number 0;
    profile_id = "p";
  };
  default_order_ttl = none;
  config_id = "c";
}

abbrev candle : ℕ → Candle
candle t = record {
  timestamp = t;
  opening = number 10;
  high = number 14;
  low = number 6;
  close = number 12;
  volume = number 1;
}

-- What an outcome holds, or a default.
abbrev result_or : {E A : Type 0} → A → Outcome E A → A
result_or a (ok b) = b
result_or a (err e) = a

abbrev final : Run
final =
    result_or (first_run buyer config cash_ledger) (run buyer config (candle 1 ∷ candle 2 ∷ []) 0)

run_ok : run buyer config (candle 1 ∷ candle 2 ∷ []) 0 ≡ ok final
unfolding run bars bar validate_inputs check_increasing visit_all visit fill_price execute_fill
    take_intents new_ledger snapshot average_entry_price equity unrealized_pnl buy operation_values
    as_decimal leb_D book_purchase ◌+D◌ ◌-D◌ ◌*D◌ ◌/D◌ mathlib.Core.Bool.xor
run_ok = refl

-- The order fills on the second candle, at its opening price and with the fee.
final_fills : length final.fills ≡ 1
unfolding run bars bar validate_inputs check_increasing visit_all visit fill_price execute_fill
    take_intents new_ledger snapshot average_entry_price equity unrealized_pnl buy operation_values
    as_decimal leb_D book_purchase ◌+D◌ ◌-D◌ ◌*D◌ ◌/D◌ mathlib.Core.Bool.xor
final_fills = refl

run-IsSolvent_example : IsSolvent final.ledger
run-IsSolvent_example = run-IsSolvent buyer config (candle 1 ∷ candle 2 ∷ []) 0 final run_ok
