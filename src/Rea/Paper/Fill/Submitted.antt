-- ===== src/Rea/Paper/Fill/Submitted.antt =====
-- `register_order` against its arguments: a submission that is new, or one that was made before.
use mathlib.Core.List.{Mem, mem-cons_self, mem-cons_of_mem}
use sene_x.Common.{
  String, ◌≡◌, refl, ◌≢◌, ◌⊎◌, inl, inr, Bool, true, false, List, [], ◌∷◌, All, Option, none, some,
  ok, Bool-cases, Outcome-cases, &&_iff, ◌&&◌, ◌||◌, >>=-eq-ok, arith,
}
use sene_x.Common.Text.{text_eq, eq_iff, strip}
use sene_x.Rea.Decimal.{Decimal, zero_D, leb_D, eqb_D}
use sene_x.Rea.Decimal.Order.{IsPositive, IsPositive-of_test}
use sene_x.Rea.Contracts.{Value, boolean, unreadable, infinite, finite, positive, as_decimal}
use sene_x.Rea.Paper.Order.{
  PaperOrder, Side, buy, sell, other_side, side_eq, is_known, read_side, dec, opened, new_order,
}
use sene_x.Rea.Paper.Order.Laws.{order_of, new_order-eq}
use sene_x.Rea.Paper.State.{PaperState, validate}
use sene_x.Rea.Paper.State.Laws.{validate-eq}
use sene_x.Rea.Paper.Fill.{register_order, add_order, resubmission}
use sene_x.Rea.Paper.Fill.Registration.{with_order}

-- The state has an order of these IDs, this side and this quantity, and stays as it is.
pub record Resubmitted (s t : PaperState) (oid cid : String) (side : Side) (q : Decimal)
    : Type 0 where
  pub order : PaperOrder
  pub there : Mem order s.orders
  pub id : order.order_id ≡ oid
  pub client : order.client_order_id ≡ cid
  pub same_side : order.side ≡ side
  pub same_quantity : eqb_D order.requested_qty q ≡ true
  pub unchanged : t ≡ s

-- No order of the state has either ID, and an open order of these values comes after the others.
pub record Submitted (s t : PaperState) (oid cid : String) (side : Side) (q : Decimal)
    : Type 0 where
  pub unused : All (λ o. (o.order_id ≢ oid) × (o.client_order_id ≢ cid)) s.orders
  pub added : t ≡ with_order s (order_of oid cid side q zero_D opened)

pub side_eq-eq : (a b : Side) → side_eq a b ≡ true → a ≡ b
side_eq-eq buy buy h = refl
side_eq-eq sell sell h = refl
side_eq-eq (other_side a) (other_side b) h = ground (arith, eq_iff a b)
side_eq-eq buy sell h = cc
side_eq-eq buy (other_side b) h = cc
side_eq-eq sell buy h = cc
side_eq-eq sell (other_side b) h = cc
side_eq-eq (other_side a) buy h = cc
side_eq-eq (other_side a) sell h = cc

abbrev is_same : String → String → Side → Decimal → PaperOrder → Bool
is_same oid cid side q o =
    text_eq o.order_id oid
    && text_eq o.client_order_id cid
    && side_eq o.side side
    && eqb_D o.requested_qty q

module _ (oid cid : String) (side : Side) (q : Decimal) where
  -- A resubmission is found among the orders.
  resubmission-Mem :
      (os : List PaperOrder)
      → resubmission oid cid side q os ≡ some true
      → (o : PaperOrder) × Mem o os × (is_same oid cid side q o ≡ true)
  unfolding resubmission
  resubmission-Mem [] h = cc
  resubmission-Mem (o ∷ os) h = elim (Bool-cases (is_same oid cid side q o)) [
    | inl same ↦ (o, mem-cons_self, same)
    | inr other ↦ elim (Bool-cases (text_eq o.order_id oid || text_eq o.client_order_id cid)) [
      | inl clash ↦ absurd (ground (arith, rw (other, clash) at h))
      | inr apart ↦
          let (x, at, same) = resubmission-Mem os (rw (other, apart) at h) in
          (x, mem-cons_of_mem o at, same)
    ]
  ]

  -- Without one, and without a conflict, no order has either ID.
  resubmission-unused :
      (os : List PaperOrder)
      → resubmission oid cid side q os ≡ none
      → All (λ o. (o.order_id ≢ oid) × (o.client_order_id ≢ cid)) os
  unfolding resubmission
  resubmission-unused [] h = tt
  resubmission-unused (o ∷ os) h = elim (Bool-cases (is_same oid cid side q o)) [
    | inl same ↦ absurd (ground (arith, rw same at h))
    | inr other ↦ elim (Bool-cases (text_eq o.order_id oid || text_eq o.client_order_id cid)) [
      | inl clash ↦ absurd (ground (arith, rw (other, clash) at h))
      | inr apart ↦ (
        (
          λ same. absurd (ground (arith, apart, eq_iff o.order_id oid, same)),
          λ same. absurd (ground (arith, apart, eq_iff o.client_order_id cid, same)),
        ),
        resubmission-unused os (rw (other, apart) at h),
      )
    ]
  ]

  add_order-Submitted :
      (s t : PaperState)
      → add_order s oid cid side q (resubmission oid cid side q s.orders) ≡ ok t
      → Resubmitted s t oid cid side q ⊎ Submitted s t oid cid side q
  unfolding add_order
  add_order-Submitted s t h = by_answer (resubmission oid cid side q s.orders) refl h
    where
      by_answer :
          (m : Option Bool)
          → resubmission oid cid side q s.orders ≡ m
          → add_order s oid cid side q m ≡ ok t
          → Resubmitted s t oid cid side q ⊎ Submitted s t oid cid side q
      by_answer (some false) is k = cc
      by_answer (some true) is k =
          let (o, at, same) = resubmission-Mem s.orders is in
          let (rest, quantity) = (&&_iff _ _).0 same in
          let (named, sides) = (&&_iff _ _).0 rest in
          let (ids, client) = (&&_iff _ _).0 named in
          inl (record {
            order = o;
            there = at;
            id = (eq_iff o.order_id oid).0 ids;
            client = (eq_iff o.client_order_id cid).0 client;
            same_side = side_eq-eq o.side side sides;
            same_quantity = quantity;
            unchanged = ground (arith, k);
          })
      by_answer none is k =
          let (o, made, k₁) =
            >>=-eq-ok (new_order oid cid side (finite q) (finite zero_D) opened)
              (λ o. validate (with_order s o)) k in
          let order_is = new_order-eq oid cid side q zero_D opened o made in
          inr (record {
            unused = resubmission-unused s.orders is;
            added = rw order_is at (validate-eq (with_order s o) t k₁);
          })

-- A quantity that is accepted is a positive number.
dec-IsPositive : (v : Value) (q : Decimal) → dec v positive ≡ ok q → (v ≡ finite q) × IsPositive q
unfolding dec as_decimal
dec-IsPositive boolean q h = cc
dec-IsPositive unreadable q h = cc
dec-IsPositive infinite q h = cc
dec-IsPositive (finite x) q h = elim (Bool-cases (leb_D x zero_D)) [
  | inl low ↦ absurd (ground (arith, rw low at h))
  | inr high ↦
      let same : x ≡ q = ground (arith, rw high at h) in
      rw (← same) (refl, IsPositive-of_test x high)
]

-- A registration that returns was given a positive number as its quantity, one of the two sides,
-- and two IDs that are not blank. With the IDs stripped and the side read, either an order of the
-- same IDs, side and quantity is already there, and the state is returned as it is; or neither ID
-- is in use, and the state is returned with one more order at the end, of these values, open, and
-- with nothing filled.
pub register_order_submits :
    (s : PaperState) (order_id client_order_id side : String) (quantity : Value) (t : PaperState)
    → register_order s order_id client_order_id side quantity ≡ ok t
    → (q : Decimal) × (quantity ≡ finite q)
      × IsPositive q
      × (is_known (read_side side) ≡ true)
      × (strip order_id ≢ "")
      × (strip client_order_id ≢ "")
      × (Resubmitted s t (strip order_id) (strip client_order_id) (read_side side) q
          ⊎ Submitted s t (strip order_id) (strip client_order_id) (read_side side) q)
unfolding register_order
register_order_submits s order_id client_order_id side quantity t h =
    let sd = read_side side in
    let oid = strip order_id in
    let cid = strip client_order_id in
    elim (Outcome-cases (dec quantity positive)) [
      | inl (e, bad) ↦ absurd (ground (arith, bad))
      | inr (q, good) ↦
          let (is, pos) = dec-IsPositive quantity q good in
          elim (Bool-cases (is_known sd)) [
            | inr strange ↦ absurd (ground (arith, rw (good, strange) at h))
            | inl known ↦ elim (Bool-cases (text_eq oid "" || text_eq cid "")) [
              | inl blank ↦ absurd (ground (arith, rw (good, known, blank) at h))
              | inr named ↦ (
                q,
                is,
                pos,
                known,
                λ same. absurd (ground (arith, named, eq_iff oid "", same)),
                λ same. absurd (ground (arith, named, eq_iff cid "", same)),
                add_order-Submitted oid cid sd q s t (rw (good, known, named) at h),
              )
            ]
          ]
    ]
