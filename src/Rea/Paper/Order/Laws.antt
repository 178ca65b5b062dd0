-- ===== src/Rea/Paper/Order/Laws.antt =====
-- What the constructor of an order and the lookup by ID return.
use sene_x.Common.{
  String, ◌≡◌, sym, subst, ap, ◌∙◌, refl, true, false, List, [], ◌∷◌, ◌++◌, some, ok, All,
  Bool-cases, inl, inr, arith,
}
use sene_x.Common.Text.{text_eq, eq_iff}
use sene_x.Rea.Decimal.{Decimal, zero_D, leb_D, ltb_D}
use sene_x.Rea.Decimal.Order.{IsNonNegative, IsPositive, IsNonNegative-of_test, IsPositive-of_test}
use sene_x.Rea.Contracts.{finite, Range, any_sign, positive, non_negative}
use sene_x.Rea.Paper.Order.{
  PaperOrder, Side, is_known, Status, status_eq, dec, expected_status, new_order, find_order,
  replace_order,
}

-- A finite number that is accepted is accepted as it stands.
pub dec-finite-eq : (x y : Decimal) (r : Range) → dec (finite x) r ≡ ok y → y ≡ x
unfolding dec
dec-finite-eq x y any_sign h = ground arith
dec-finite-eq x y positive h = ground arith
dec-finite-eq x y non_negative h = ground arith

abbrev pub order_of : String → String → Side → Decimal → Decimal → Status → PaperOrder
order_of oid cid side r f st = record {
  order_id = oid;
  client_order_id = cid;
  side = side;
  requested_qty = r;
  filled_qty = f;
  status = st;
}

pub new_order-eq :
    (oid cid : String) (side : Side) (r f : Decimal) (st : Status) (o : PaperOrder)
    → new_order oid cid side (finite r) (finite f) st ≡ ok o
    → o ≡ order_of oid cid side r f st
unfolding new_order
new_order-eq oid cid side r f st o h = ground arith

pub find_order-id :
    (key : String) (os : List PaperOrder) (o : PaperOrder)
    → find_order key os ≡ some o
    → o.order_id ≡ key
unfolding find_order
find_order-id key [] o h = cc
find_order-id key (x ∷ os) o h = ground (arith, eq_iff x.order_id key, find_order-id key os o)

-- After a replacement the changed order is found under its own ID.
pub find_order-replace_self :
    (key : String) (changed : PaperOrder) (os : List PaperOrder) (o : PaperOrder)
    → changed.order_id ≡ key
    → find_order key os ≡ some o
    → find_order key (replace_order changed os) ≡ some changed
unfolding find_order replace_order
find_order-replace_self key changed [] o e h = cc
find_order-replace_self key changed (x ∷ os) o e h = ground (
  arith,
  eq_iff x.order_id key,
  eq_iff x.order_id changed.order_id,
  eq_iff changed.order_id key,
  find_order-replace_self key changed os o e,
)

-- No other order is touched.
pub find_order-replace_ne :
    (key : String) (changed : PaperOrder) (os : List PaperOrder)
    → text_eq changed.order_id key ≡ false
    → find_order key (replace_order changed os) ≡ find_order key os
unfolding find_order replace_order
find_order-replace_ne key changed [] h = refl
find_order-replace_ne key changed (x ∷ os) h = ground (
  arith,
  eq_iff x.order_id key,
  eq_iff x.order_id changed.order_id,
  eq_iff changed.order_id key,
  find_order-replace_ne key changed os h,
)

-- An order that the constructor accepts: something is requested, no more than that is filled, and
-- the status tells how much.
pub record IsConsistent (o : PaperOrder) : Type 0 where
  pub requested : IsPositive o.requested_qty
  pub filled : IsNonNegative o.filled_qty
  pub within : leb_D o.filled_qty o.requested_qty ≡ true
  pub status : o.status ≡ expected_status o.requested_qty o.filled_qty
  pub known : is_known o.side ≡ true

pub status_eq-eq : (s t : Status) → status_eq s t ≡ true → s ≡ t
status_eq-eq s t h = ground arith

record Checked (r f : Decimal) (side : Side) (st : Status) : Type 0 where
  requested : leb_D r zero_D ≡ false
  filled : ltb_D f zero_D ≡ false
  within : leb_D f r ≡ true
  status : status_eq st (expected_status r f) ≡ true
  known : is_known side ≡ true

new_order-Checked :
    (oid cid : String) (side : Side) (r f : Decimal) (st : Status) (o : PaperOrder)
    → new_order oid cid side (finite r) (finite f) st ≡ ok o
    → Checked r f side st
unfolding new_order
new_order-Checked oid cid side r f st o h = ground arith

pub new_order-IsConsistent :
    (oid cid : String) (side : Side) (r f : Decimal) (st : Status) (o : PaperOrder)
    → new_order oid cid side (finite r) (finite f) st ≡ ok o
    → IsConsistent o
new_order-IsConsistent oid cid side r f st o h =
    let c = new_order-Checked oid cid side r f st o h in
    rw (new_order-eq oid cid side r f st o h) (record {
      requested = IsPositive-of_test r c.requested;
      filled = IsNonNegative-of_test f c.filled;
      within = c.within;
      status = status_eq-eq st (expected_status r f) c.status;
      known = c.known;
    })

-- The constructor, run again on the order's own fields, returns the order.
abbrev pub Rebuilds : PaperOrder → Type 0
Rebuilds o =
    new_order o.order_id o.client_order_id o.side (finite o.requested_qty) (finite o.filled_qty)
      o.status
    ≡ ok o

pub new_order-Rebuilds :
    (oid cid : String) (side : Side) (r f : Decimal) (st : Status) (o : PaperOrder)
    → new_order oid cid side (finite r) (finite f) st ≡ ok o
    → Rebuilds o
new_order-Rebuilds oid cid side r f st o h =
    let same = new_order-eq oid cid side r f st o h in subst Rebuilds (sym same) (h ∙ ap ok same)

pub All-replace_order :
    (P : PaperOrder → Type 0) (changed : PaperOrder) (os : List PaperOrder)
    → P changed
    → All P os
    → All P (replace_order changed os)
unfolding replace_order
All-replace_order P changed [] c h = tt
All-replace_order P changed (o ∷ os) c h = elim (Bool-cases (text_eq o.order_id changed.order_id)) [
  | inl same ↦ rw same (c, All-replace_order P changed os c h.1)
  | inr other ↦ rw other (h.0, All-replace_order P changed os c h.1)
]

pub All-snoc :
    (P : PaperOrder → Type 0) (os : List PaperOrder) (o : PaperOrder)
    → All P os
    → P o
    → All P (os ++ o ∷ [])
All-snoc P [] o h c = (c, tt)
All-snoc P (x ∷ os) o h c = (h.0, All-snoc P os o h.1 c)
