-- ===== src/Rea/Paper/Checkpoint.antt =====
-- research/rea_engines/execution_resilience.py: the payload of a paper state, and checkpoints of it.
pub mod Roundtrip
use sene_x.Common.{
  ◌∷◌, [], List, map, String, true, false, not, ◌==◌, ◌&&◌, ℕ, Bool, Option, none, some, Outcome,
  ok, err, ◌>>=◌, ◌>>◌, raise_if, map_err,
}
use sene_x.Rea.Decimal.{zero_D, eqb_D}
use sene_x.Rea.Contracts.{
  Value, finite, any_sign, positive, non_negative, TimeText, instant, normalize_timestamp,
}
use sene_x.Rea.Paper.Order.{
  PaperOrder, Side, Status, ResilienceError, bad_timestamp, bad_schema, bad_sha,
  basis_without_inventory, not_an_object, wrong_fields, invalid_payload, bad_last_event_seq, dec,
  new_order,
}
use sene_x.Rea.Paper.State.{PaperState, Digest, checkpoint_schema_version, is_sha256, sha, validate}
use sene_x.Rea.Paper.Fill.{same_digest}

-- An item of a payload's `orders`. An amount is what `Decimal(str(value))` reads of it, and the side
-- and the status are the words that they spell.
pub record OrderPayload : Type 0 where
  pub order_id : String
  pub client_order_id : String
  pub side : Side
  pub requested_qty : Value
  pub filled_qty : Value
  pub status : Status

-- An object with the fields of `required`, and their values in the same way. The digests are given
-- as `_sha` normalizes them. An item of a list that cannot be taken apart is `none`, and so is a
-- `last_event_seq` that is no integer or a negative one.
pub record StatePayload : Type 0 where
  pub schema_version : ℕ
  pub source_sha256 : Digest
  pub config_sha256 : Digest
  pub starting_cash : Value
  pub cash : Value
  pub inventory_qty : Value
  pub inventory_cost_basis : Value
  pub realized_pnl : Value
  pub total_fees : Value
  pub total_spread_cost : Value
  pub total_slippage_cost : Value
  pub turnover : Value
  pub last_processed_timestamp : Option TimeText
  pub last_event_seq : Option ℕ
  pub orders : List (Option OrderPayload)
  pub processed_fill_ids : List String
  pub processed_fill_fingerprints : List (Option (String × Digest))

-- A JSON value in the place of a state's payload.
pub data StateValue : Type 0 where
  no_object other_fields : StateValue
  state_payload : StatePayload → StateValue

abbrev pub order_payload : PaperOrder → OrderPayload
order_payload o = record {
  order_id = o.order_id;
  client_order_id = o.client_order_id;
  side = o.side;
  requested_qty = finite o.requested_qty;
  filled_qty = finite o.filled_qty;
  status = o.status;
}

abbrev pub timestamp_payload : Option ℕ → Option TimeText
timestamp_payload none = none
timestamp_payload (some t) = some (instant t)

-- `PaperState.to_payload`. The text of an amount reads as the amount.
abbrev pub to_payload : PaperState → StatePayload
to_payload s = record {
  schema_version = s.schema_version;
  source_sha256 = s.source_sha256;
  config_sha256 = s.config_sha256;
  starting_cash = finite s.starting_cash;
  cash = finite s.cash;
  inventory_qty = finite s.inventory_qty;
  inventory_cost_basis = finite s.inventory_cost_basis;
  realized_pnl = finite s.realized_pnl;
  total_fees = finite s.total_fees;
  total_spread_cost = finite s.total_spread_cost;
  total_slippage_cost = finite s.total_slippage_cost;
  turnover = finite s.turnover;
  last_processed_timestamp = timestamp_payload s.last_processed_timestamp;
  last_event_seq = some s.last_event_seq;
  orders = map (λ o. some (order_payload o)) s.orders;
  processed_fill_ids = s.processed_fill_ids;
  processed_fill_fingerprints = map (λ f. some f) s.processed_fill_fingerprints;
}

-- `tuple(PaperOrder(**order) for order in payload["orders"])`
unfoldable pub read_orders : List (Option OrderPayload) → Outcome ResilienceError (List PaperOrder)
unfolding new_order
read_orders [] = ok []
read_orders (none ∷ os) = err invalid_payload
read_orders (some o ∷ os) = do
  o' ← new_order o.order_id o.client_order_id o.side o.requested_qty o.filled_qty o.status
  rest ← read_orders os
  ok (o' ∷ rest)

unfoldable pub read_fingerprints :
    List (Option (String × Digest)) → Outcome ResilienceError (List (String × Digest))
read_fingerprints [] = ok []
read_fingerprints (none ∷ fs) = err invalid_payload
read_fingerprints (some f ∷ fs) = do rest ← read_fingerprints fs; ok (f ∷ rest)

abbrev pub read_event_seq : Option ℕ → Outcome ResilienceError ℕ
read_event_seq none = err bad_last_event_seq
read_event_seq (some n) = ok n

unfoldable pub read_timestamp : Option TimeText → Outcome ResilienceError (Option ℕ)
unfolding normalize_timestamp
read_timestamp none = ok none
read_timestamp (some x) = do t ← map_err bad_timestamp (normalize_timestamp x); ok (some t)

-- The call of the constructor with the payload's values: `__post_init__` reads them in this order,
-- and checks the rest as `validate` does, for which the checks made until then pass again.
unfoldable pub read_state :
    StatePayload → List PaperOrder → List (String × Digest) → Outcome ResilienceError PaperState
unfolding dec is_sha256 read_timestamp
read_state p orders fingerprints = do
  raise_if (not (p.schema_version == checkpoint_schema_version)) bad_schema
  raise_if (not (is_sha256 p.source_sha256)) bad_sha
  raise_if (not (is_sha256 p.config_sha256)) bad_sha
  starting ← dec p.starting_cash positive
  cash ← dec p.cash non_negative
  inventory ← dec p.inventory_qty non_negative
  basis ← dec p.inventory_cost_basis non_negative
  fees ← dec p.total_fees non_negative
  spread ← dec p.total_spread_cost non_negative
  slippage ← dec p.total_slippage_cost non_negative
  turnover ← dec p.turnover non_negative
  realized ← dec p.realized_pnl any_sign
  raise_if (eqb_D inventory zero_D && not (eqb_D basis zero_D)) basis_without_inventory
  seq ← read_event_seq p.last_event_seq
  timestamp ← read_timestamp p.last_processed_timestamp
  validate (record {
    schema_version = p.schema_version;
    source_sha256 = p.source_sha256;
    config_sha256 = p.config_sha256;
    starting_cash = starting;
    cash = cash;
    inventory_qty = inventory;
    inventory_cost_basis = basis;
    realized_pnl = realized;
    total_fees = fees;
    total_spread_cost = spread;
    total_slippage_cost = slippage;
    turnover = turnover;
    last_processed_timestamp = timestamp;
    last_event_seq = seq;
    orders = orders;
    processed_fill_ids = p.processed_fill_ids;
    processed_fill_fingerprints = fingerprints;
  })

-- `PaperState.from_payload`
unfoldable pub from_payload : StateValue → Outcome ResilienceError PaperState
unfolding read_orders read_fingerprints read_state
from_payload no_object = err not_an_object
from_payload other_fields = err wrong_fields
from_payload (state_payload p) = do
  orders ← read_orders p.orders
  fingerprints ← read_fingerprints p.processed_fill_fingerprints
  read_state p orders fingerprints

-- The envelope.
pub record Checkpoint : Type 0 where
  pub schema_version : ℕ
  pub state_sha256 : Digest
  pub state : StateValue

-- What the file at the path holds.
pub data CheckpointFile : Type 0 where
  unreadable_file other_json : CheckpointFile
  checkpoint : Checkpoint → CheckpointFile

-- The exceptions of `save_checkpoint` and `load_checkpoint`.
pub data CheckpointError : Type 0 where
  no_directory write_failed unreadable bad_envelope_fields : CheckpointError
  bad_envelope_schema state_not_object checksum_mismatch : CheckpointError
  source_mismatch config_mismatch : CheckpointError
  invalid_state : ResilienceError → CheckpointError

abbrev pub is_object : StateValue → Bool
is_object no_object = false
is_object other_fields = true
is_object (state_payload p) = true

module _ (digest_payload : StateValue → Digest) where
  abbrev pub checkpoint_of : PaperState → Checkpoint
  checkpoint_of s = record {
    schema_version = checkpoint_schema_version;
    state_sha256 = digest_payload (state_payload (to_payload s));
    state = state_payload (to_payload s);
  }

  -- `save_checkpoint`; the flags are whether the path has a directory, and the outcome of writing,
  -- syncing and renaming the file.
  unfoldable pub save_checkpoint : PaperState → Bool → Bool → Outcome CheckpointError Checkpoint
  save_checkpoint s has_directory written = do
    raise_if (not has_directory) no_directory
    raise_if (not written) write_failed
    ok (checkpoint_of s)

  -- The checks of an envelope against the expected hashes, normalized.
  unfoldable pub open_checkpoint :
      CheckpointFile → Digest → Digest → Outcome CheckpointError PaperState
  unfolding from_payload
  open_checkpoint unreadable_file source config = err unreadable
  open_checkpoint other_json source config = err bad_envelope_fields
  open_checkpoint (checkpoint e) source config = do
    raise_if (not (e.schema_version == checkpoint_schema_version)) bad_envelope_schema
    raise_if (not (is_object e.state)) state_not_object
    raise_if (not (same_digest e.state_sha256 (digest_payload e.state))) checksum_mismatch
    state ← map_err invalid_state (from_payload e.state)
    raise_if (not (same_digest state.source_sha256 source)) source_mismatch
    raise_if (not (same_digest state.config_sha256 config)) config_mismatch
    ok state

  -- `load_checkpoint`
  unfoldable pub load_checkpoint :
      CheckpointFile → String → String → Outcome CheckpointError PaperState
  unfolding sha open_checkpoint
  load_checkpoint file expected_source expected_config = do
    source ← map_err invalid_state (sha expected_source)
    config ← map_err invalid_state (sha expected_config)
    open_checkpoint file source config
