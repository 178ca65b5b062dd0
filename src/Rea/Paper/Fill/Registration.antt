-- ===== src/Rea/Paper/Fill/Registration.antt =====
-- What `register_order` returns.
use sene_x.Common.{
  String, ◌≡◌, ◌⊎◌, inl, inr, Bool, true, false, [], ◌∷◌, ◌++◌, Option, none, some, ok, >>=-eq-ok,
  Outcome-cases, arith,
}
use sene_x.Common.Text.{strip}
use sene_x.Rea.Decimal.{Decimal, zero_D}
use sene_x.Rea.Contracts.{Value, finite, positive}
use sene_x.Rea.Paper.Order.{PaperOrder, Side, read_side, dec, opened, new_order}
use sene_x.Rea.Paper.Order.Laws.{
  new_order-eq, IsConsistent, new_order-IsConsistent, Rebuilds, new_order-Rebuilds,
}
use sene_x.Rea.Paper.State.{PaperState, validate}
use sene_x.Rea.Paper.State.Laws.{validate-eq}
use sene_x.Rea.Paper.Fill.{register_order, add_order, resubmission}

abbrev pub with_order : PaperState → PaperOrder → PaperState
with_order s o = record s { orders = s.orders ++ o ∷ [] }

-- The order that a registration adds: open, and with nothing filled.
pub record Registered (s t : PaperState) : Type 0 where
  pub order : PaperOrder
  pub consistent : IsConsistent order
  pub rebuilds : Rebuilds order
  pub fresh : order.status ≡ opened
  pub empty : order.filled_qty ≡ zero_D
  pub result : t ≡ with_order s order
  pub accepted : validate t ≡ ok t

add_order_cases :
    (s : PaperState) (oid cid : String) (side : Side) (q : Decimal) (old : Option Bool)
    (t : PaperState)
    → add_order s oid cid side q old ≡ ok t
    → (t ≡ s) ⊎ Registered s t
unfolding add_order
add_order_cases s oid cid side q (some true) t h = inl (ground arith)
add_order_cases s oid cid side q (some false) t h = cc
add_order_cases s oid cid side q none t h =
    let (o, made, h₁) =
      >>=-eq-ok (new_order oid cid side (finite q) (finite zero_D) opened)
        (λ o. validate (with_order s o)) h in
    let same = new_order-eq oid cid side q zero_D opened o made in
    let t_eq = validate-eq (with_order s o) t h₁ in
    inr (record {
      order = o;
      consistent = new_order-IsConsistent oid cid side q zero_D opened o made;
      rebuilds = new_order-Rebuilds oid cid side q zero_D opened o made;
      fresh = rw same;
      empty = rw same;
      result = t_eq;
      accepted = cc;
    })

-- A registration that returns is a resubmission, which changes nothing, or appends one new order.
pub register_order_cases :
    (s : PaperState) (order_id client_order_id side : String) (quantity : Value) (t : PaperState)
    → register_order s order_id client_order_id side quantity ≡ ok t
    → (t ≡ s) ⊎ Registered s t
unfolding register_order
register_order_cases s order_id client_order_id side quantity t h =
    let sd = read_side side in
    let oid = strip order_id in
    let cid = strip client_order_id in
    elim (Outcome-cases (dec quantity positive)) [
      | inl (e, bad) ↦ absurd (ground (arith, bad))
      | inr (q, good) ↦
          ground
            (arith, good, add_order_cases s oid cid sd q (resubmission oid cid sd q s.orders) t)
    ]
