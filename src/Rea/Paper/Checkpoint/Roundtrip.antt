-- ===== src/Rea/Paper/Checkpoint/Roundtrip.antt =====
-- A checkpoint that was saved loads as it was.
use sene_x.Common.{
  ℕ, String, ◌≡◌, refl, sym, subst, inl, inr, true, false, not, ◌&&◌, ◌==◌, List, [], ◌∷◌, map, All,
  Option, ok, none, some, >>=-eq-ok, arith,
}
use sene_x.Rea.Decimal.{Decimal, zero_D, eqb_D}
use sene_x.Rea.Contracts.{finite, positive, non_negative, as_decimal, normalize_timestamp}
use sene_x.Rea.Paper.Order.{PaperOrder, dec}
use sene_x.Rea.Paper.Order.Laws.{Rebuilds, new_order-Rebuilds, All-replace_order, All-snoc}
use sene_x.Rea.Paper.State.{
  PaperState, Digest, checkpoint_schema_version, is_sha256, sha, check_amounts, validate,
  fresh_state, initial,
}
use sene_x.Rea.Paper.State.Laws.{validate-eq}
use sene_x.Rea.Paper.Fill.{FillEvent}
use sene_x.Rea.Paper.Fill.Inversion.{order_after, apply_fill_cases}
use sene_x.Rea.Paper.Fill.Registration.{register_order_cases}
use sene_x.Rea.Paper.Fill.Repeats.{same_digest_refl}
use sene_x.Rea.Paper.Fill.History.{Step, registers, fills, Reach, here, next}
use sene_x.Rea.Paper.Checkpoint.{
  StateValue, state_payload, order_payload, timestamp_payload, to_payload, read_orders,
  read_fingerprints, read_timestamp, read_state, from_payload, Checkpoint, checkpoint,
  checkpoint_of, save_checkpoint, open_checkpoint, load_checkpoint,
}

-- A state that its own constructors accept again.
pub record IsStored (s : PaperState) : Type 0 where
  pub orders : All Rebuilds s.orders
  pub accepted : validate s ≡ ok s

read_orders-eq :
    (os : List PaperOrder)
    → All Rebuilds os
    → read_orders (map (λ o. some (order_payload o)) os) ≡ ok os
unfolding read_orders
read_orders-eq [] h = refl
read_orders-eq (o ∷ os) h = rw (h.0, read_orders-eq os h.1)

read_fingerprints-eq :
    (fs : List (String × Digest)) → read_fingerprints (map (λ f. some f) fs) ≡ ok fs
unfolding read_fingerprints
read_fingerprints-eq [] = refl
read_fingerprints-eq (f ∷ fs) = rw (read_fingerprints-eq fs) refl

read_timestamp-eq : (o : Option ℕ) → read_timestamp (timestamp_payload o) ≡ ok o
unfolding read_timestamp normalize_timestamp
read_timestamp-eq none = refl
read_timestamp-eq (some t) = refl

-- What the constructor reads before it comes to the IDs, of an accepted state.
record Reads (s : PaperState) : Type 0 where
  schema : (s.schema_version == checkpoint_schema_version) ≡ true
  source : is_sha256 s.source_sha256 ≡ true
  config : is_sha256 s.config_sha256 ≡ true
  starting : dec (finite s.starting_cash) positive ≡ ok s.starting_cash
  cash : dec (finite s.cash) non_negative ≡ ok s.cash
  inventory : dec (finite s.inventory_qty) non_negative ≡ ok s.inventory_qty
  basis : dec (finite s.inventory_cost_basis) non_negative ≡ ok s.inventory_cost_basis
  fees : dec (finite s.total_fees) non_negative ≡ ok s.total_fees
  spread : dec (finite s.total_spread_cost) non_negative ≡ ok s.total_spread_cost
  slippage : dec (finite s.total_slippage_cost) non_negative ≡ ok s.total_slippage_cost
  turnover : dec (finite s.turnover) non_negative ≡ ok s.turnover
  flat : (eqb_D s.inventory_qty zero_D && not (eqb_D s.inventory_cost_basis zero_D)) ≡ false

validate-Reads : (s t : PaperState) → validate s ≡ ok t → Reads s
unfolding validate check_amounts dec as_decimal
validate-Reads s t h = ground arith

read_state-eq :
    (s : PaperState)
    → validate s ≡ ok s
    → read_state (to_payload s) s.orders s.processed_fill_fingerprints ≡ ok s
unfolding read_state
read_state-eq s h =
    let r = validate-Reads s s h in
    rw
      (
        r.schema,
        r.source,
        r.config,
        r.starting,
        r.cash,
        r.inventory,
        r.basis,
        r.fees,
        r.spread,
        r.slippage,
        r.turnover,
        r.flat,
        read_timestamp-eq s.last_processed_timestamp,
      )
      h

pub from_payload-eq :
    (s : PaperState) → IsStored s → from_payload (state_payload (to_payload s)) ≡ ok s
unfolding from_payload
from_payload-eq s h =
    rw (read_orders-eq s.orders h.orders, read_fingerprints-eq s.processed_fill_fingerprints)
      (read_state-eq s h.accepted)

module _ (digest : FillEvent → Digest) where
  Step-IsStored : {s t : PaperState} → Step digest s t → IsStored s → IsStored t
  Step-IsStored (registers s t oid cid side q h) i =
      elim (register_order_cases s oid cid side q t h) [
        | inl same ↦ rw same i
        | inr g ↦ record {
          orders = rw g.result (All-snoc Rebuilds s.orders g.order i.orders g.rebuilds);
          accepted = g.accepted;
        }
      ]
  Step-IsStored (fills s t e r h) i = elim (apply_fill_cases digest s e t r h) [
    | inl (same, _) ↦ rw same i
    | inr a ↦ record {
      orders = rw a.result (
          All-replace_order Rebuilds (order_after a.order e) s.orders
            (new_order-Rebuilds _ _ _ _ _ _ (order_after a.order e) a.rebuilt) i.orders);
      accepted = a.accepted;
    }
  ]

  pub Reach-IsStored : {s t : PaperState} → IsStored s → Reach digest s t → IsStored t
  Reach-IsStored i here = i
  Reach-IsStored i (next r st) = Step-IsStored st (Reach-IsStored i r)

pub initial-IsStored :
    (cash : Decimal) (source config : Digest) (s : PaperState)
    → initial cash source config ≡ ok s
    → IsStored s
unfolding initial
initial-IsStored cash source config s h =
    let (c, good, h₁) =
      >>=-eq-ok (dec (finite cash) positive) (λ c. validate (fresh_state c source config)) h in
    let same = validate-eq (fresh_state c source config) s h₁ in
    record { orders = rw same tt; accepted = subst (λ x. validate x ≡ ok s) (sym same) h₁ }

module _ (digest : FillEvent → Digest) (digest_payload : StateValue → Digest) where
  -- Whatever registrations and fills led from the initial state to a state, its checkpoint, once
  -- saved, loads as exactly that state: its payload is written from the state's fields and orders
  -- and read back by the constructors, the checksum being that of the payload. The expected hashes
  -- are texts that `_sha` reads as the state's source and config hashes.
  pub load-save_checkpoint :
      (cash : Decimal) (source config : Digest) (s t : PaperState) (e : Checkpoint)
      (expected_source expected_config : String)
      → initial cash source config ≡ ok s
      → Reach digest s t
      → save_checkpoint digest_payload t true true ≡ ok e
      → sha expected_source ≡ ok t.source_sha256
      → sha expected_config ≡ ok t.config_sha256
      → load_checkpoint digest_payload (checkpoint e) expected_source expected_config ≡ ok t
  unfolding save_checkpoint open_checkpoint load_checkpoint
  load-save_checkpoint cash source config s t e expected_source expected_config began reached saved
        src cfg =
      let stored = Reach-IsStored digest (initial-IsStored cash source config s began) reached in
      let same : checkpoint_of digest_payload t ≡ e = cc in
      rw (← same) (
        rw
          (
            src,
            cfg,
            same_digest_refl (digest_payload (state_payload (to_payload t))),
            from_payload-eq t stored,
            same_digest_refl t.source_sha256,
            same_digest_refl t.config_sha256,
          )
          refl)
