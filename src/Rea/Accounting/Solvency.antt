-- ===== src/Rea/Accounting/Solvency.antt =====
-- What the ledger never owes.
use sene_x.Common.{◌≡◌, refl, false, Outcome, ok, ◌>>=◌, ◌>>◌, raise_if, inl, >>=-eq-ok, arith}
use sene_x.Rea.Decimal.{Decimal, zero_D, leb_D, ltb_D}
use sene_x.Rea.Decimal.Order.{IsNonNegative, IsPositive, IsNonNegative-of_test, IsPositive-of_test}
use sene_x.Rea.Decimal.Sign.{minus-IsNonNegative, plus-IsNonNegative}
use sene_x.Rea.Contracts.{Value, boolean, unreadable, infinite, finite, positive, as_decimal}
use sene_x.Rea.Accounting.Booked.{purchase-eq, sale-eq}
use sene_x.Rea.Accounting.{
  LedgerOperation, Ledger, LedgerError, number_in, cost_in, trade, over_max_fill, operation_values,
  book_purchase, book_sale, new_ledger, buy, sell,
}

-- No debt, and nothing sold short.
pub record IsSolvent (l : Ledger) : Type 0 where
  pub cash : IsNonNegative l.cash
  pub inventory : IsNonNegative l.inventory_qty

as_decimal-IsPositive : (v : Value) (x : Decimal) → as_decimal v positive ≡ ok x → IsPositive x
unfolding as_decimal
as_decimal-IsPositive boolean x h = absurd (ground arith)
as_decimal-IsPositive unreadable x h = absurd (ground arith)
as_decimal-IsPositive infinite x h = absurd (ground arith)
as_decimal-IsPositive (finite y) x h =
    let above : leb_D y zero_D ≡ false = ground arith in
    let same : x ≡ y = ground arith in rw same (IsPositive-of_test y above)

number_in-IsPositive : (v : Value) (x : Decimal) → number_in v ≡ ok x → IsPositive x
number_in-IsPositive v x h = as_decimal-IsPositive v x (ground arith)

-- What `operation_values` does after reading the quantity.
abbrev read_rest :
    Ledger → Value → Value → Value → Value → Decimal → Outcome LedgerError LedgerOperation
read_rest l p f sp sl q = do
  p' ← number_in p
  f' ← cost_in f
  sp' ← cost_in sp
  sl' ← cost_in sl
  raise_if (ltb_D l.max_fill_qty q) over_max_fill
  ok (trade q p' f' sp' sl')

read_rest-quantity :
    (l : Ledger) (p f sp sl : Value) (q : Decimal) (o : LedgerOperation)
    → read_rest l p f sp sl q ≡ ok o
    → o.quantity ≡ q
read_rest-quantity l p f sp sl q o h = ground arith

-- A trade that was read is of a positive quantity.
operation_values-IsPositive :
    (l : Ledger) (q p f sp sl : Value) (o : LedgerOperation)
    → operation_values l q p f sp sl ≡ ok o
    → IsPositive o.quantity
unfolding operation_values
operation_values-IsPositive l q p f sp sl o h =
    let (x, read, h₁) = >>=-eq-ok (number_in q) (read_rest l p f sp sl) h in
    rw (read_rest-quantity l p f sp sl x o h₁) (number_in-IsPositive q x read)

-- What `__init__` does after reading the starting cash.
abbrev start_with : Value → Value → Decimal → Outcome LedgerError Ledger
start_with inventory fill cash = do
  mi ← number_in inventory
  mf ← number_in fill
  ok (record {
    starting_cash = cash;
    max_inventory = mi;
    max_fill_qty = mf;
    cash = cash;
    inventory_qty = zero_D;
    inventory_cost_basis = zero_D;
    realized_pnl = zero_D;
    total_fees = zero_D;
    total_spread_cost = zero_D;
    total_slippage_cost = zero_D;
    turnover = zero_D;
  })

start_with-eq :
    (inventory fill : Value) (cash : Decimal) (l : Ledger)
    → start_with inventory fill cash ≡ ok l
    → (l.cash ≡ cash) × (l.inventory_qty ≡ zero_D)
start_with-eq inventory fill cash l h = (ground arith, ground arith)

-- A new ledger is solvent.
pub new_ledger-IsSolvent :
    (starting inventory fill : Value) (l : Ledger)
    → new_ledger starting inventory fill ≡ ok l
    → IsSolvent l
unfolding new_ledger
new_ledger-IsSolvent starting inventory fill l h =
    let (cash, read, h₁) = >>=-eq-ok (number_in starting) (start_with inventory fill) h in
    let (same, flat) = start_with-eq inventory fill cash l h₁ in
    record {
      cash = rw same (inl (number_in-IsPositive starting cash read).0);
      inventory = rw flat (inl refl);
    }

-- Whatever purchases are accepted, cash and inventory stay at zero or above, rounding included.
pub buy-IsSolvent :
    (l : Ledger) (q p f sp sl : Value) (l' : Ledger) (o : LedgerOperation)
    → IsSolvent l
    → buy l q p f sp sl ≡ ok (l', o)
    → IsSolvent l'
unfolding buy
buy-IsSolvent l q p f sp sl l' o s h =
    let (t, values, h₁) = >>=-eq-ok (operation_values l q p f sp sl) (book_purchase l) h in
    let (covered, same) = purchase-eq l t l' o h₁ in
    rw same (record {
      cash = minus-IsNonNegative l.cash _ covered;
      inventory =
          plus-IsNonNegative l.inventory_qty t.quantity s.inventory
            (inl (operation_values-IsPositive l q p f sp sl t values).0);
    })

-- Whatever sales are accepted, cash and inventory stay at zero or above, rounding included.
pub sell-IsSolvent :
    (l : Ledger) (q p f sp sl : Value) (l' : Ledger) (o : LedgerOperation)
    → IsSolvent l
    → sell l q p f sp sl ≡ ok (l', o)
    → IsSolvent l'
unfolding sell
sell-IsSolvent l q p f sp sl l' o s h =
    let (t, values, h₁) = >>=-eq-ok (operation_values l q p f sp sl) (book_sale l) h in
    let (covered, held, _, same) = sale-eq l t l' o h₁ in
    rw same (record {
      cash = IsNonNegative-of_test _ covered;
      inventory = minus-IsNonNegative l.inventory_qty t.quantity held;
    })
