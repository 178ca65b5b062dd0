-- ===== src/Rea/Paper/Fill/History.antt =====
-- Every state that registrations and fills lead to.
use sene_x.Common.{
  ◌+◌, String, ◌≡◌, inl, inr, true, false, [], ◌∷◌, length, length-append, All, ok, >>=-eq-ok,
  arith,
}
use sene_x.Rea.Decimal.{Decimal, ltb_D}
use sene_x.Rea.Contracts.{Value, finite, positive}
use sene_x.Rea.Paper.Order.{PaperOrder, dec, side_eq, filled_up, status_eq, remaining_qty}
use sene_x.Rea.Paper.Order.Laws.{IsConsistent, new_order-IsConsistent, All-replace_order, All-snoc}
use sene_x.Rea.Paper.State.{PaperState, Digest, fresh_state, initial, validate}
use sene_x.Rea.Paper.State.Laws.{IsValid, validate-IsValid, validate-eq}
use sene_x.Rea.Paper.Fill.{
  FillEvent, FillApplication, is_before, check_fill, register_order, apply_fill,
}
use sene_x.Rea.Paper.Fill.Inversion.{Applied, order_after, apply_fill_cases}
use sene_x.Rea.Paper.Fill.Registration.{Registered, register_order_cases}

-- The guards, as a fill that passed them shows.
pub record Guarded (s : PaperState) (e : FillEvent) (o : PaperOrder) : Type 0 where
  pub next : e.event_seq ≡ s.last_event_seq + 1
  pub later : is_before e.timestamp s.last_processed_timestamp ≡ false
  pub unfilled : status_eq o.status filled_up ≡ false
  pub same_side : side_eq e.side o.side ≡ true
  pub fits : ltb_D (remaining_qty o) e.quantity ≡ false

pub check_fill-Guarded :
    (s : PaperState) (e : FillEvent) (o : PaperOrder) → check_fill s e o ≡ ok tt → Guarded s e o
unfolding check_fill
check_fill-Guarded s e o h = ground arith

pub record Inv (s : PaperState) : Type 0 where
  pub valid : IsValid s
  pub counted : s.last_event_seq ≡ length s.processed_fill_ids
  pub orders : All IsConsistent s.orders

-- A call that returned.
pub data Step (digest : FillEvent → Digest) : PaperState → PaperState → Type 0 where
  registers :
      (s t : PaperState) (order_id client_order_id side : String) (quantity : Value)
      → register_order s order_id client_order_id side quantity ≡ ok t
      → Step digest s t
  fills :
      (s t : PaperState) (e : FillEvent) (r : FillApplication)
      → apply_fill digest s e ≡ ok (t, r)
      → Step digest s t

pub data Reach (digest : FillEvent → Digest) (s : PaperState) : PaperState → Type 0 where
  here : Reach digest s s
  next : {t u : PaperState} → Reach digest s t → Step digest t u → Reach digest s u

Registered-Inv : {s t : PaperState} → Registered s t → Inv s → Inv t
Registered-Inv {s} {t} g i = record {
  valid = validate-IsValid t t g.accepted;
  counted = rw g.result i.counted;
  orders = rw g.result (All-snoc IsConsistent s.orders g.order i.orders g.consistent);
}

module _ (digest : FillEvent → Digest) where
  Applied-Inv :
      {s : PaperState} {e : FillEvent} {t : PaperState} {r : FillApplication}
      → Applied digest s e t r
      → Inv s
      → Inv t
  Applied-Inv {s} {e} {t} a i = record {
    valid = validate-IsValid t t a.accepted;
    counted = rw a.result (
        omega (
          arith,
          (check_fill-Guarded s e a.order a.guarded).next,
          i.counted,
          length-append s.processed_fill_ids (e.fill_id ∷ []),
        ));
    orders = rw a.result (
        All-replace_order IsConsistent (order_after a.order e) s.orders
          (new_order-IsConsistent _ _ _ _ _ _ (order_after a.order e) a.rebuilt) i.orders);
  }

  Step-Inv : {s t : PaperState} → Step digest s t → Inv s → Inv t
  Step-Inv (registers s t oid cid side q h) i = elim (register_order_cases s oid cid side q t h) [
    | inl same ↦ rw same i
    | inr g ↦ Registered-Inv g i
  ]
  Step-Inv (fills s t e r h) i = elim (apply_fill_cases digest s e t r h) [
    | inl (same, _) ↦ rw same i
    | inr a ↦ Applied-Inv a i
  ]

  -- From a state that satisfies the invariant, whatever registrations and fills follow, cash,
  -- inventory and totals stay non-negative, no ID repeats, no order is filled beyond what it
  -- requested, and the event sequence counts the fills.
  pub Reach-Inv : {s t : PaperState} → Inv s → Reach digest s t → Inv t
  Reach-Inv i here = i
  Reach-Inv i (next r st) = Step-Inv st (Reach-Inv i r)

-- The initial state, where the constructor accepts its arguments, satisfies the invariant.
pub initial-Inv :
    (cash : Decimal) (source config : Digest) (s : PaperState)
    → initial cash source config ≡ ok s
    → Inv s
unfolding initial
initial-Inv cash source config s h =
    let (c, good, h₁) =
      >>=-eq-ok (dec (finite cash) positive) (λ c. validate (fresh_state c source config)) h in
    let same = validate-eq (fresh_state c source config) s h₁ in
    record {
      valid = rw same (validate-IsValid (fresh_state c source config) s h₁);
      counted = rw same;
      orders = rw same tt;
    }
