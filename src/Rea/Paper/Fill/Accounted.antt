-- ===== src/Rea/Paper/Fill/Accounted.antt =====
-- `apply_fill` against the fill's values: the guards, the amounts, and the orders.
use sene_x.Common.{
  ℕ, ◌+◌, ◌≤◌, String, ◌≡◌, refl, ◌≢◌, ◌⊎◌, inl, inr, true, false, if◌then◌else◌, [], ◌∷◌, ◌++◌,
  Option, none, some, ok, Bool-cases, Option-cases, arith,
}
use sene_x.Common.Text.{text_eq, mem_text}
use sene_x.Rea.Decimal.{Decimal, zero_D, ltb_D, eqb_D, ◌+D◌, ◌-D◌, ◌*D◌, ◌/D◌}
use sene_x.Rea.Paper.Order.{
  PaperOrder, buy, side_eq, filled_up, partially_filled, remaining_qty, find_order,
}
use sene_x.Rea.Paper.Order.Laws.{find_order-id, find_order-replace_self, find_order-replace_ne}
use sene_x.Rea.Paper.State.{PaperState, Digest}
use sene_x.Rea.Paper.Fill.{
  FillEvent, FillApplication, Booking, book_buy, book_sell, booking, last_print, print_matches,
  check_fill, repeated_fill, apply_fill,
}
use sene_x.Rea.Paper.Fill.Inversion.{order_after, Applied, fresh_fill-Applied}
use sene_x.Rea.Paper.Fill.Repeats.{same_digest-eq}
use sene_x.Rea.Paper.Fill.Submitted.{side_eq-eq}

-- A fill that may be booked against an order.
pub record Allowed (s : PaperState) (e : FillEvent) (o : PaperOrder) : Type 0 where
  pub sequence : e.event_seq ≡ s.last_event_seq + 1
  pub later : (t : ℕ) → s.last_processed_timestamp ≡ some t → t ≤ e.timestamp
  pub unfilled : o.status ≢ filled_up
  pub side : e.side ≡ o.side
  pub within : ltb_D (remaining_qty o) e.quantity ≡ false

-- The purchase: its price and its three costs leave the cash and enter the cost basis.
pub record Bought (s : PaperState) (e : FillEvent) (s' : PaperState) : Type 0 where
  pub affordable :
      ltb_D s.cash (e.quantity *D e.price +D (e.fee +D e.spread_cost +D e.slippage_cost)) ≡ false
  pub cash :
      s'.cash ≡ s.cash -D (e.quantity *D e.price +D (e.fee +D e.spread_cost +D e.slippage_cost))
  pub inventory : s'.inventory_qty ≡ s.inventory_qty +D e.quantity
  pub basis :
      s'.inventory_cost_basis
      ≡ s.inventory_cost_basis
        +D (e.quantity *D e.price +D (e.fee +D e.spread_cost +D e.slippage_cost))
  pub realized : s'.realized_pnl ≡ s.realized_pnl

-- The part of the cost basis that a sale takes: all of it with the whole inventory.
abbrev pub basis_sold : PaperState → FillEvent → Decimal
basis_sold s e =
    if eqb_D e.quantity s.inventory_qty
    then s.inventory_cost_basis
    else s.inventory_cost_basis *D e.quantity /D s.inventory_qty

-- The sale: its price less its three costs enters the cash, and less its part of the cost basis it
-- is the profit. Nothing of the basis is left without inventory.
pub record Sold (s : PaperState) (e : FillEvent) (s' : PaperState) : Type 0 where
  pub held : ltb_D s.inventory_qty e.quantity ≡ false
  pub worth : ltb_D (e.quantity *D e.price) (e.fee +D e.spread_cost +D e.slippage_cost) ≡ false
  pub cash :
      s'.cash ≡ s.cash +D (e.quantity *D e.price -D (e.fee +D e.spread_cost +D e.slippage_cost))
  pub inventory : s'.inventory_qty ≡ s.inventory_qty -D e.quantity
  pub basis : s'.inventory_cost_basis ≡ (
      if eqb_D (s.inventory_qty -D e.quantity) zero_D
      then zero_D
      else s.inventory_cost_basis -D basis_sold s e)
  pub realized :
      s'.realized_pnl
      ≡ s.realized_pnl
        +D (e.quantity *D e.price -D (e.fee +D e.spread_cost +D e.slippage_cost))
        -D basis_sold s e

module _ (digest : FillEvent → Digest) (s : PaperState) (e : FillEvent) (s' : PaperState)
    (r : FillApplication) where
  -- The fill is a processed one, by its ID and its digest, and the state stays as it is.
  pub record Repeated : Type 0 where
    pub order : PaperOrder
    pub found : find_order e.order_id s.orders ≡ some order
    pub seen : mem_text e.fill_id s.processed_fill_ids ≡ true
    pub print : last_print e.fill_id s.processed_fill_fingerprints ≡ some (digest e)
    pub unchanged : s' ≡ s
    pub not_applied : r.applied ≡ false
    pub duplicate : r.duplicate ≡ true
    pub status : r.status ≡ order.status
    pub remaining : r.remaining ≡ remaining_qty order

  -- The order afterwards: filled by the fill's quantity, all else as before.
  abbrev pub grown : PaperOrder → PaperOrder
  grown o = record o {
    filled_qty = o.filled_qty +D e.quantity;
    status =
        if eqb_D (o.filled_qty +D e.quantity) o.requested_qty then filled_up else partially_filled;
  }

  -- The fill is a new one that may be booked, and is booked on its side, in the totals, on its order
  -- and on no other, and in the list of processed fills.
  pub record Accounted : Type 0 where
    pub order : PaperOrder
    pub found : find_order e.order_id s.orders ≡ some order
    pub unseen : mem_text e.fill_id s.processed_fill_ids ≡ false
    pub allowed : Allowed s e order
    pub booked : ((e.side ≡ buy) × Bought s e s') ⊎ ((e.side ≢ buy) × Sold s e s')
    pub fees : s'.total_fees ≡ s.total_fees +D e.fee
    pub spread : s'.total_spread_cost ≡ s.total_spread_cost +D e.spread_cost
    pub slippage : s'.total_slippage_cost ≡ s.total_slippage_cost +D e.slippage_cost
    pub turnover : s'.turnover ≡ s.turnover +D e.quantity *D e.price
    pub clock : s'.last_processed_timestamp ≡ some e.timestamp
    pub counted : s'.last_event_seq ≡ s.last_event_seq + 1
    pub ids : s'.processed_fill_ids ≡ s.processed_fill_ids ++ e.fill_id ∷ []
    pub own_order : find_order e.order_id s'.orders ≡ some (grown order)
    pub other_orders :
        (key : String)
        → text_eq order.order_id key ≡ false
        → find_order key s'.orders ≡ find_order key s.orders
    pub is_applied : r.applied ≡ true
    pub status : r.status ≡ (grown order).status
    pub remaining : r.remaining ≡ remaining_qty (grown order)

check_fill-Allowed :
    (s : PaperState) (e : FillEvent) (o : PaperOrder) → check_fill s e o ≡ ok tt → Allowed s e o
unfolding check_fill
check_fill-Allowed s e o h = record {
  sequence = ground (arith, h);
  later = λ t is. ground (arith, h, is);
  unfilled = λ is. absurd (ground (arith, h, is));
  side = side_eq-eq e.side o.side (ground (arith, h));
  within = ground (arith, h);
}

book_buy-Bought :
    (s : PaperState) (e : FillEvent) (b : Booking) (s' : PaperState)
    → book_buy s e ≡ ok b
    → s'.cash ≡ b.cash
    → s'.inventory_qty ≡ b.inventory
    → s'.inventory_cost_basis ≡ b.basis
    → s'.realized_pnl ≡ b.realized
    → Bought s e s'
unfolding book_buy
book_buy-Bought s e b s' h c i k p = ground arith

book_sell-Sold :
    (s : PaperState) (e : FillEvent) (b : Booking) (s' : PaperState)
    → book_sell s e ≡ ok b
    → s'.cash ≡ b.cash
    → s'.inventory_qty ≡ b.inventory
    → s'.inventory_cost_basis ≡ b.basis
    → s'.realized_pnl ≡ b.realized
    → Sold s e s'
unfolding book_sell
book_sell-Sold s e b s' h c i k p = ground arith

module _ (digest : FillEvent → Digest) (s : PaperState) (e : FillEvent) (s' : PaperState)
    (r : FillApplication) where
  booked-cases :
      (b : Booking)
      → booking s e ≡ ok b
      → s'.cash ≡ b.cash
      → s'.inventory_qty ≡ b.inventory
      → s'.inventory_cost_basis ≡ b.basis
      → s'.realized_pnl ≡ b.realized
      → ((e.side ≡ buy) × Bought s e s') ⊎ ((e.side ≢ buy) × Sold s e s')
  booked-cases b h c i k p = elim (Bool-cases (side_eq e.side buy)) [
    | inl is ↦ inl (side_eq-eq e.side buy is, book_buy-Bought s e b s' (rw is at h) c i k p)
    | inr other ↦
        inr (
          λ is. absurd (ground (arith, other, is)),
          book_sell-Sold s e b s' (rw other at h) c i k p,
        )
  ]

  Applied-Accounted : Applied digest s e s' r → Accounted digest s e s' r
  Applied-Accounted a =
      let own = find_order-id e.order_id s.orders a.order a.found in
      record {
        order = a.order;
        found = a.found;
        unseen = a.unseen;
        allowed = check_fill-Allowed s e a.order a.guarded;
        booked =
            booked-cases a.book a.booked (rw a.result refl) (rw a.result refl) (rw a.result refl)
              (rw a.result refl);
        fees = rw a.result refl;
        spread = rw a.result refl;
        slippage = rw a.result refl;
        turnover = rw a.result refl;
        clock = rw a.result refl;
        counted = rw a.result (check_fill-Allowed s e a.order a.guarded).sequence;
        ids = rw a.result refl;
        own_order = rw a.result (
            find_order-replace_self e.order_id (order_after a.order e) s.orders a.order own
              a.found);
        other_orders = λ key apart.
            rw a.result (find_order-replace_ne key (order_after a.order e) s.orders apart);
        is_applied = rw a.report refl;
        status = rw a.report refl;
        remaining = rw a.report refl;
      }

  print-eq : (p : Option Digest) (d : Digest) → print_matches p d ≡ true → p ≡ some d
  print-eq none d h = cc
  print-eq (some c) d h = ground (arith, same_digest-eq c d)

  repeated_fill-Repeated :
      (o : PaperOrder)
      → find_order e.order_id s.orders ≡ some o
      → mem_text e.fill_id s.processed_fill_ids ≡ true
      → repeated_fill digest s e o ≡ ok (s', r)
      → Repeated digest s e s' r
  unfolding repeated_fill
  repeated_fill-Repeated o found seen h =
      elim (Bool-cases
        (print_matches (last_print e.fill_id s.processed_fill_fingerprints) (digest e))) [
          | inr other ↦ absurd (ground (arith, rw other at h))
          | inl same ↦ record {
            order = o;
            found = found;
            seen = seen;
            print = print-eq _ (digest e) same;
            unchanged = ground (arith, rw same at h);
            not_applied = ground (arith, rw same at h);
            duplicate = ground (arith, rw same at h);
            status = ground (arith, rw same at h);
            remaining = ground (arith, rw same at h);
          }
        ]

  -- A fill call that returns has met one of two cases. Either the fill's ID was processed with the
  -- same digest, its order is known, and the state is returned as it is, with the order's status and
  -- remaining quantity, as a duplicate. Or the ID is new, the order is known and not filled up, the
  -- side is the order's, the sequence number is the next one, the time is not before the last one,
  -- and the quantity is no more than remains; then cash, inventory, cost basis and profit are those
  -- written out for a purchase that the cash pays for, or for a sale that the inventory covers and
  -- whose price covers its costs; the fees, the other two costs and the turnover have grown by the
  -- fill's, the order by its quantity, and no other order has changed.
  pub apply_fill-Accounted :
      apply_fill digest s e ≡ ok (s', r) → Repeated digest s e s' r ⊎ Accounted digest s e s' r
  unfolding apply_fill
  apply_fill-Accounted h = elim (Option-cases (find_order e.order_id s.orders)) [
    | inl lost ↦ absurd (ground (arith, h, lost))
    | inr (o, hit) ↦ elim (Bool-cases (mem_text e.fill_id s.processed_fill_ids)) [
      | inl seen ↦ inl (repeated_fill-Repeated o hit seen (rw (seen, hit) at h))
      | inr new ↦
          inr
            (Applied-Accounted (fresh_fill-Applied digest s e o s' r new hit (rw (new, hit) at h)))
    ]
  ]
