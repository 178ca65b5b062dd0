-- ===== src/Rea/Engine/Event.antt =====
-- The errors, the journal events and the state of `PaperExecutionEngine`.
use sene_x.Common.{
  ℕ, String, Bool, true, false, ◌&&◌, ◌==◌, List, [], ◌∷◌, Option, Outcome, ok, ◌>>=◌, ◌>>◌,
  raise_if, map_err,
}
use sene_x.Common.Text.{text_eq, strip}
use sene_x.Rea.Decimal.{Decimal, same_text}
use sene_x.Rea.Contracts.{
  ContractError, Value, Range, positive, as_decimal, TimeText, normalize_timestamp,
}
use sene_x.Rea.Paper.Order.{ResilienceError, Status}
use sene_x.Rea.Paper.State.{PaperState, Digest}
use sene_x.Rea.Paper.Snapshot.{Discrepancy, same_discrepancies, ReconciliationReport}

-- `ContractError` of this module, one constructor for each message.
pub data EngineError : Type 0 where
  bad_value : ContractError → EngineError
  resilience : ResilienceError → EngineError
  blank_text unknown_order_id engine_blocked time_moved_back event_conflict : EngineError
  lock_unavailable writer_active durability_failure writer_conflict : EngineError
  bad_order_side bad_fill_side over_fill_limit terminal_order over_inventory_limit : EngineError
  fill_id_conflict already_terminal not_blocked : EngineError
  schema_mismatch unsupported_event blocked_event registration_conflict : EngineError
  wrong_fill_seq wrong_fill_timestamp duplicate_fill_record wrong_remaining : EngineError
  bad_snapshot_seq duplicate_snapshot_order no_divergence stale_discrepancies : EngineError
  torn_journal malformed_record sequence_gap duplicate_event_id broken_chain wrong_hash :
      EngineError

-- `_decimal`
unfoldable pub decimal : Value → Range → Outcome EngineError Decimal
decimal v r = map_err bad_value (as_decimal v r)

-- `_nonempty`
unfoldable pub nonempty : String → Outcome EngineError String
nonempty s = let t = strip s in do raise_if (text_eq t "") blank_text; ok t

-- `_normalize_event_timestamp`
unfoldable pub event_time : TimeText → Outcome EngineError ℕ
event_time t = map_err bad_value (normalize_timestamp t)

pub record RiskLimits : Type 0 where
  pub max_inventory : Decimal
  pub max_fill_qty : Decimal

-- `RiskLimits.__post_init__`
unfoldable pub new_limits : Value → Value → Outcome EngineError RiskLimits
unfolding decimal
new_limits inventory fill = do
  i ← decimal inventory positive
  f ← decimal fill positive
  ok (record { max_inventory = i; max_fill_qty = f })

-- The payloads. A number stands for its `str`, which `Decimal` reads back.
pub record Registration : Type 0 where
  pub order_id : String
  pub client_order_id : String
  pub side : String
  pub quantity : Decimal

pub record FillPayload : Type 0 where
  pub fill_id : String
  pub order_id : String
  pub side : String
  pub quantity : Decimal
  pub price : Decimal
  pub fee : Decimal
  pub spread_cost : Decimal
  pub slippage_cost : Decimal
  pub timestamp : ℕ

pub record Termination : Type 0 where
  pub order_id : String
  pub remaining : Decimal
  pub reason : String

pub record ObservedOrder : Type 0 where
  pub order_id : String
  pub side : String
  pub remaining : Decimal

pub record Observation : Type 0 where
  pub cash : Decimal
  pub inventory : Decimal
  pub open_orders : List ObservedOrder
  pub last_event_seq : ℕ
  pub tolerance : Decimal

-- `action` is the constant that the engine writes and the reducer requires.
pub record Resolution : Type 0 where
  pub approval_ref : String
  pub reason : String
  pub prior_discrepancies : List Discrepancy

-- `event_type` with its payload. `mismatched` is a supported type whose payload does not have the
-- fields, or a value of them that can be read; `unsupported` is any other type.
pub data Event : Type 0 where
  order_registered : Registration → Event
  fill_applied : FillPayload → ℕ → Event
  order_cancelled order_expired : Termination → Event
  snapshot_reconciled : Observation → Event
  divergence_resolved : Resolution → Event
  mismatched unsupported : Event

abbrev pub same_registration : Registration → Registration → Bool
same_registration a b =
    text_eq a.order_id b.order_id
    && text_eq a.client_order_id b.client_order_id
    && text_eq a.side b.side
    && same_text a.quantity b.quantity

unfoldable pub same_fill : FillPayload → FillPayload → Bool
same_fill a b =
    text_eq a.fill_id b.fill_id
    && text_eq a.order_id b.order_id
    && text_eq a.side b.side
    && same_text a.quantity b.quantity
    && same_text a.price b.price
    && same_text a.fee b.fee
    && same_text a.spread_cost b.spread_cost
    && same_text a.slippage_cost b.slippage_cost
    && (a.timestamp == b.timestamp)

abbrev pub same_termination : Termination → Termination → Bool
same_termination a b =
    text_eq a.order_id b.order_id && same_text a.remaining b.remaining && text_eq a.reason b.reason

unfoldable pub same_observed : List ObservedOrder → List ObservedOrder → Bool
same_observed [] [] = true
same_observed [] (b ∷ bs) = false
same_observed (a ∷ as') [] = false
same_observed (a ∷ as') (b ∷ bs) =
    text_eq a.order_id b.order_id
    && text_eq a.side b.side
    && same_text a.remaining b.remaining
    && same_observed as' bs

abbrev pub same_observation : Observation → Observation → Bool
same_observation a b =
    same_text a.cash b.cash
    && same_text a.inventory b.inventory
    && same_observed a.open_orders b.open_orders
    && (a.last_event_seq == b.last_event_seq)
    && same_text a.tolerance b.tolerance

abbrev pub same_resolution : Resolution → Resolution → Bool
same_resolution a b =
    text_eq a.approval_ref b.approval_ref
    && text_eq a.reason b.reason
    && same_discrepancies a.prior_discrepancies b.prior_discrepancies

-- Equal types and equal canonical payloads, the sequence of a fill ignored: the test of
-- `_existing_event`, as every caller makes it.
unfoldable pub same_event : Event → Event → Bool
unfolding same_fill same_observed same_discrepancies
same_event (order_registered a) (order_registered b) = same_registration a b
same_event (fill_applied a _) (fill_applied b _) = same_fill a b
same_event (order_cancelled a) (order_cancelled b) = same_termination a b
same_event (order_expired a) (order_expired b) = same_termination a b
same_event (snapshot_reconciled a) (snapshot_reconciled b) = same_observation a b
same_event (divergence_resolved a) (divergence_resolved b) = same_resolution a b
same_event _ _ = false

-- A journal record without its hash, and with it.
pub record Entry : Type 0 where
  pub journal_seq : ℕ
  pub event_id : String
  pub timestamp : ℕ
  pub event : Event
  pub prev_sha256 : Digest

pub record Record : Type 0 where
  pub entry : Entry
  pub event_sha256 : Digest

-- `status`: that of the order, or the terminal one.
pub data EngineStatus : Type 0 where
  live : Status → EngineStatus
  cancelled expired : EngineStatus

-- `_blocked_reason`. All but `divergence` begin with "journal ".
pub data BlockReason : Type 0 where
  divergence : ℕ → BlockReason
  durability conflict on_close : BlockReason

-- `PaperExecutionEngine`, but for the size that it expects of its file. The dicts list their
-- entries newest first, so the first one of a key is the one that counts.
pub record Book : Type 0 where
  pub state : PaperState
  pub terminal : List (String × EngineStatus)
  pub journal_seq : ℕ
  pub journal_head : Digest
  pub last_timestamp : Option ℕ
  pub blocked : Option BlockReason
  pub discrepancies : List Discrepancy
  pub events : List Record
  pub fills : List FillPayload
  pub limits : RiskLimits

pub record Engine : Type 0 where
  pub book : Book
  pub open book use *
  pub journal_size : ℕ

-- What the engine's methods answer beside the state.
pub record FillReply : Type 0 where
  pub applied : Bool
  pub duplicate : Bool
  pub status : EngineStatus
  pub remaining : Decimal

pub data Reply : Type 0 where
  nothing : Reply
  fill : FillReply → Reply
  report : ReconciliationReport → Reply
