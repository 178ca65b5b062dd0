-- ===== src/Rea/Accounting.antt =====
-- research/rea_engines/accounting.py: the cash-backed ledger of the replay lab.
pub mod Booked
pub mod Parity
pub mod Solvency
use sene_x.Common.{
  Bool, true, false, not, ◌&&◌, if◌then◌else◌, Outcome, ok, err, ◌>>=◌, ◌>>◌, raise_if, map_err,
}
use sene_x.Rea.Decimal.{Decimal, zero_D, leb_D, ltb_D, eqb_D, ◌+D◌, ◌-D◌, ◌*D◌, ◌/D◌}
use sene_x.Rea.Contracts.{
  ContractError, Value, positive, non_negative, as_decimal, PortfolioSnapshot,
}

pub data LedgerError : Type 0 where
  bad_value : ContractError → LedgerError
  over_max_fill over_max_inventory insufficient_cash : LedgerError
  short_position costs_exceed_proceeds negative_cash : LedgerError

pub record LedgerOperation : Type 0 where
  pub quantity : Decimal
  pub price : Decimal
  pub notional : Decimal
  pub fee : Decimal
  pub spread_cost : Decimal
  pub slippage_cost : Decimal
  pub allocated_cost_basis : Decimal
  pub realized_pnl : Decimal

-- `LedgerOperation.total_costs`
abbrev pub total_costs : LedgerOperation → Decimal
total_costs o = o.fee +D o.spread_cost +D o.slippage_cost

pub record Ledger : Type 0 where
  pub starting_cash : Decimal
  pub max_inventory : Decimal
  pub max_fill_qty : Decimal
  pub cash : Decimal
  pub inventory_qty : Decimal
  pub inventory_cost_basis : Decimal
  pub realized_pnl : Decimal
  pub total_fees : Decimal
  pub total_spread_cost : Decimal
  pub total_slippage_cost : Decimal
  pub turnover : Decimal

abbrev pub number_in : Value → Outcome LedgerError Decimal
number_in v = map_err bad_value (as_decimal v positive)

abbrev pub cost_in : Value → Outcome LedgerError Decimal
cost_in v = map_err bad_value (as_decimal v non_negative)

-- `Ledger.__init__`
unfoldable pub new_ledger : Value → Value → Value → Outcome LedgerError Ledger
unfolding as_decimal
new_ledger starting inventory fill = do
  cash ← number_in starting
  mi ← number_in inventory
  mf ← number_in fill
  ok (record {
    starting_cash = cash;
    max_inventory = mi;
    max_fill_qty = mf;
    cash = cash;
    inventory_qty = zero_D;
    inventory_cost_basis = zero_D;
    realized_pnl = zero_D;
    total_fees = zero_D;
    total_spread_cost = zero_D;
    total_slippage_cost = zero_D;
    turnover = zero_D;
  })

-- What a trade of some quantity at some price with its costs is, before it is booked.
abbrev pub trade : Decimal → Decimal → Decimal → Decimal → Decimal → LedgerOperation
trade q p f sp sl = record {
  quantity = q;
  price = p;
  notional = q *D p;
  fee = f;
  spread_cost = sp;
  slippage_cost = sl;
  allocated_cost_basis = zero_D;
  realized_pnl = zero_D;
}

-- `_operation_values`
unfoldable pub operation_values :
    Ledger → Value → Value → Value → Value → Value → Outcome LedgerError LedgerOperation
operation_values l quantity price fee spread slippage = do
  q ← number_in quantity
  p ← number_in price
  f ← cost_in fee
  sp ← cost_in spread
  sl ← cost_in slippage
  raise_if (ltb_D l.max_fill_qty q) over_max_fill
  ok (trade q p f sp sl)

-- The totals that every trade adds to.
abbrev pub with_totals : Ledger → LedgerOperation → Ledger
with_totals l o = record l {
  total_fees = l.total_fees +D o.fee;
  total_spread_cost = l.total_spread_cost +D o.spread_cost;
  total_slippage_cost = l.total_slippage_cost +D o.slippage_cost;
  turnover = l.turnover +D o.notional;
}

-- `buy`, of a trade whose values were read.
unfoldable pub book_purchase :
    Ledger → LedgerOperation → Outcome LedgerError (Ledger × LedgerOperation)
book_purchase l o =
    let debit = o.notional +D total_costs o in
    do
      raise_if (ltb_D l.max_inventory (l.inventory_qty +D o.quantity)) over_max_inventory
      raise_if (ltb_D l.cash debit) insufficient_cash
      ok (
        record (with_totals l o) {
          cash = l.cash -D debit;
          inventory_qty = l.inventory_qty +D o.quantity;
          inventory_cost_basis = l.inventory_cost_basis +D debit;
        },
        o,
      )

-- The part of the cost basis that a sale takes out.
abbrev pub allocated : Ledger → LedgerOperation → Decimal
allocated l o =
    if eqb_D o.quantity l.inventory_qty
    then l.inventory_cost_basis
    else l.inventory_cost_basis *D o.quantity /D l.inventory_qty

-- `sell`, of a trade whose values were read.
unfoldable pub book_sale : Ledger → LedgerOperation → Outcome LedgerError (Ledger × LedgerOperation)
book_sale l o =
    let net = o.notional -D total_costs o in
    let basis = allocated l o in
    let realized = net -D basis in
    let inventory = l.inventory_qty -D o.quantity in
    do
      raise_if (ltb_D l.inventory_qty o.quantity) short_position
      raise_if (ltb_D o.notional (total_costs o)) costs_exceed_proceeds
      raise_if (ltb_D (l.cash +D net) zero_D) negative_cash
      ok (
        record (with_totals l o) {
          cash = l.cash +D net;
          inventory_qty = inventory;
          inventory_cost_basis =
              if eqb_D inventory zero_D then zero_D else l.inventory_cost_basis -D basis;
          realized_pnl = l.realized_pnl +D realized;
        },
        record o { allocated_cost_basis = basis; realized_pnl = realized },
      )

-- `Ledger.buy`
unfoldable pub buy :
    Ledger → Value → Value → Value → Value → Value → Outcome LedgerError (Ledger × LedgerOperation)
buy l quantity price fee spread slippage = do
  o ← operation_values l quantity price fee spread slippage
  book_purchase l o

-- `Ledger.sell`
unfoldable pub sell :
    Ledger → Value → Value → Value → Value → Value → Outcome LedgerError (Ledger × LedgerOperation)
sell l quantity price fee spread slippage = do
  o ← operation_values l quantity price fee spread slippage
  book_sale l o

unfoldable pub average_entry_price : Ledger → Decimal
average_entry_price l =
    if eqb_D l.inventory_qty zero_D then zero_D else l.inventory_cost_basis /D l.inventory_qty

unfoldable pub equity : Ledger → Value → Outcome LedgerError Decimal
equity l mark = do m ← number_in mark; ok (l.cash +D l.inventory_qty *D m)

unfoldable pub unrealized_pnl : Ledger → Value → Outcome LedgerError Decimal
unrealized_pnl l mark = do m ← number_in mark; ok (l.inventory_qty *D m -D l.inventory_cost_basis)

-- `Ledger.snapshot`; its texts, and the profit against the starting cash, are `metrics_snapshot`.
unfoldable pub snapshot : Ledger → Value → Outcome LedgerError PortfolioSnapshot
unfolding average_entry_price equity unrealized_pnl
snapshot l mark = do
  open_profit ← unrealized_pnl l mark
  worth ← equity l mark
  ok (record {
    cash = l.cash;
    inventory_qty = l.inventory_qty;
    average_entry_price = average_entry_price l;
    realized_pnl = l.realized_pnl;
    unrealized_pnl = open_profit;
    equity = worth;
    total_fees = l.total_fees;
    total_spread_cost = l.total_spread_cost;
    total_slippage_cost = l.total_slippage_cost;
    turnover = l.turnover;
  })
