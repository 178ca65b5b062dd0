-- ===== src/Rea/Accounting/Booked.antt =====
-- The ledger after an accepted trade.
use sene_x.Common.{◌≡◌, false, if◌then◌else◌, ok, arith}
use sene_x.Rea.Decimal.{zero_D, ltb_D, eqb_D, ◌+D◌, ◌-D◌}
use sene_x.Rea.Accounting.{
  LedgerOperation, Ledger, book_purchase, book_sale, allocated, total_costs, with_totals,
}

-- The ledger after a purchase, and after a sale.
abbrev pub purchased : Ledger → LedgerOperation → Ledger
purchased l o = record (with_totals l o) {
  cash = l.cash -D (o.notional +D total_costs o);
  inventory_qty = l.inventory_qty +D o.quantity;
  inventory_cost_basis = l.inventory_cost_basis +D (o.notional +D total_costs o);
}

abbrev pub sold : Ledger → LedgerOperation → Ledger
sold l o = record (with_totals l o) {
  cash = l.cash +D (o.notional -D total_costs o);
  inventory_qty = l.inventory_qty -D o.quantity;
  inventory_cost_basis =
      if eqb_D (l.inventory_qty -D o.quantity) zero_D
      then zero_D
      else l.inventory_cost_basis -D allocated l o;
  realized_pnl = l.realized_pnl +D (o.notional -D total_costs o -D allocated l o);
}

pub purchase-eq :
    (l : Ledger) (o : LedgerOperation) (l' : Ledger) (o' : LedgerOperation)
    → book_purchase l o ≡ ok (l', o')
    → (ltb_D l.cash (o.notional +D total_costs o) ≡ false) × (l' ≡ purchased l o)
unfolding book_purchase
purchase-eq l o l' o' h = (ground arith, ground arith)

pub sale-eq :
    (l : Ledger) (o : LedgerOperation) (l' : Ledger) (o' : LedgerOperation)
    → book_sale l o ≡ ok (l', o')
    → (ltb_D (l.cash +D (o.notional -D total_costs o)) zero_D ≡ false)
      × (ltb_D l.inventory_qty o.quantity ≡ false)
      × (ltb_D o.notional (total_costs o) ≡ false)
      × (l' ≡ sold l o)
unfolding book_sale
sale-eq l o l' o' h = (ground arith, ground arith, ground arith, ground arith)
