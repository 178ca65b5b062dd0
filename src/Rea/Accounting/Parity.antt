-- ===== src/Rea/Accounting/Parity.antt =====
-- The ledger of accounting.py against `apply_fill` of execution_resilience.py.
use sene_x.Common.{◌≡◌, false, if◌then◌else◌, ok, >>=-eq-ok, arith}
use sene_x.Rea.Decimal.{Decimal, zero_D, ltb_D, eqb_D, ◌+D◌, ◌-D◌, ◌*D◌, ◌/D◌}
use sene_x.Rea.Contracts.{finite, as_decimal}
use sene_x.Rea.Paper.Order.{PaperOrder}
use sene_x.Rea.Paper.State.{PaperState, Digest}
use sene_x.Rea.Paper.Fill.{FillEvent, Booking, notional, costs, book_buy, book_sell, filled_state}
use sene_x.Rea.Accounting.Booked.{purchase-eq, sale-eq}
use sene_x.Rea.Accounting.{
  LedgerOperation, Ledger, trade, operation_values, book_purchase, book_sale, buy, sell,
}

-- A ledger and a paper state with the same cash, inventory, cost basis and totals.
pub record Agrees (l : Ledger) (s : PaperState) : Type 0 where
  pub cash : l.cash ≡ s.cash
  pub inventory : l.inventory_qty ≡ s.inventory_qty
  pub basis : l.inventory_cost_basis ≡ s.inventory_cost_basis
  pub fees : l.total_fees ≡ s.total_fees
  pub spread : l.total_spread_cost ≡ s.total_spread_cost
  pub slippage : l.total_slippage_cost ≡ s.total_slippage_cost
  pub turnover : l.turnover ≡ s.turnover

-- The values of a trade of finite numbers are those numbers.
operation_values-eq :
    (l : Ledger) (q p f sp sl : Decimal) (o : LedgerOperation)
    → operation_values l (finite q) (finite p) (finite f) (finite sp) (finite sl) ≡ ok o
    → o ≡ trade q p f sp sl
unfolding operation_values as_decimal
operation_values-eq l q p f sp sl o h = ground arith

abbrev pub trade_of : FillEvent → LedgerOperation
trade_of e = trade e.quantity e.price e.fee e.spread_cost e.slippage_cost

-- A booking of the fill after which ledger and paper state still agree.
abbrev pub Follows : PaperState → FillEvent → Booking → Ledger → Type 0
Follows s e b l =
    (digest : FillEvent → Digest) (o : PaperOrder) → Agrees l (filled_state digest s e o b)

book_purchase-parity :
    (l : Ledger) (s : PaperState) (e : FillEvent) (l' : Ledger) (o' : LedgerOperation)
    → Agrees l s
    → book_purchase l (trade_of e) ≡ ok (l', o')
    → (b : Booking) × (book_buy s e ≡ ok b) × Follows s e b l'
unfolding book_buy
book_purchase-parity l s e l' o' a h =
    let (solvent, same) = purchase-eq l (trade_of e) l' o' h in
    let covered : ltb_D s.cash (notional e +D costs e) ≡ false = rw (a.cash) at solvent in
    (
      record {
        cash = s.cash -D (notional e +D costs e);
        inventory = s.inventory_qty +D e.quantity;
        basis = s.inventory_cost_basis +D (notional e +D costs e);
        realized = s.realized_pnl;
      },
      rw covered,
      λ digest o. rw same (record {
        cash = rw a.cash;
        inventory = rw a.inventory;
        basis = rw a.basis;
        fees = rw a.fees;
        spread = rw a.spread;
        slippage = rw a.slippage;
        turnover = rw a.turnover;
      }),
    )

book_sale-parity :
    (l : Ledger) (s : PaperState) (e : FillEvent) (l' : Ledger) (o' : LedgerOperation)
    → Agrees l s
    → book_sale l (trade_of e) ≡ ok (l', o')
    → (b : Booking) × (book_sell s e ≡ ok b) × Follows s e b l'
unfolding book_sell
book_sale-parity l s e l' o' a h =
    let (_, held, paid, same) = sale-eq l (trade_of e) l' o' h in
    let covered : ltb_D s.inventory_qty e.quantity ≡ false = rw a.inventory at held in
    let taken =
      if eqb_D e.quantity s.inventory_qty
      then s.inventory_cost_basis
      else s.inventory_cost_basis *D e.quantity /D s.inventory_qty in
    (
      record {
        cash = s.cash +D (notional e -D costs e);
        inventory = s.inventory_qty -D e.quantity;
        basis =
            if eqb_D (s.inventory_qty -D e.quantity) zero_D
            then zero_D
            else s.inventory_cost_basis -D taken;
        realized = s.realized_pnl +D (notional e -D costs e) -D taken;
      },
      rw (covered, paid),
      λ digest o. rw same (record {
        cash = rw a.cash;
        inventory = rw a.inventory;
        basis = rw (a.inventory, a.basis);
        fees = rw a.fees;
        spread = rw a.spread;
        slippage = rw a.slippage;
        turnover = rw a.turnover;
      }),
    )

-- Whenever the ledger accepts a purchase, the purchase branch of `apply_fill` accepts the same
-- numbers on an agreeing paper state, and cash, inventory, cost basis, totals and turnover agree
-- again afterwards, to the last digit.
pub buy-parity :
    (l : Ledger) (s : PaperState) (e : FillEvent) (l' : Ledger) (o' : LedgerOperation)
    → Agrees l s
    → buy l
        (finite e.quantity)
        (finite e.price)
        (finite e.fee)
        (finite e.spread_cost)
        (finite e.slippage_cost)
      ≡ ok (l', o')
    → (b : Booking) × (book_buy s e ≡ ok b) × Follows s e b l'
unfolding buy
buy-parity l s e l' o' a h =
    let (o, values, h₁) =
      >>=-eq-ok
        (operation_values l (finite e.quantity) (finite e.price) (finite e.fee)
          (finite e.spread_cost) (finite e.slippage_cost))
        (book_purchase l) h in
    let same = operation_values-eq l _ _ _ _ _ o values in
    book_purchase-parity l s e l' o' a (rw same at h₁)

-- Whenever the ledger accepts a sale, the sale branch of `apply_fill` accepts the same numbers on
-- an agreeing paper state, and cash, inventory, cost basis, totals and turnover agree again
-- afterwards, to the last digit.
pub sell-parity :
    (l : Ledger) (s : PaperState) (e : FillEvent) (l' : Ledger) (o' : LedgerOperation)
    → Agrees l s
    → sell l
        (finite e.quantity)
        (finite e.price)
        (finite e.fee)
        (finite e.spread_cost)
        (finite e.slippage_cost)
      ≡ ok (l', o')
    → (b : Booking) × (book_sell s e ≡ ok b) × Follows s e b l'
unfolding sell
sell-parity l s e l' o' a h =
    let (o, values, h₁) =
      >>=-eq-ok
        (operation_values l (finite e.quantity) (finite e.price) (finite e.fee)
          (finite e.spread_cost) (finite e.slippage_cost))
        (book_sale l) h in
    let same = operation_values-eq l _ _ _ _ _ o values in
    book_sale-parity l s e l' o' a (rw same at h₁)
