-- ===== src/Rea/Paper/Order.antt =====
-- `PaperOrder`, the errors of the module, and `_dec`.
pub mod Laws
use sene_x.Common.{
  ℕ, String, Bool, true, false, not, ◌&&◌, ◌||◌, if◌then◌else◌, List, [], ◌∷◌, Option, none, some,
  Outcome, ok, err, ◌>>=◌, ◌>>◌, raise_if, map_err,
}
use sene_x.Common.Text.{text_eq, strip, is_blank, lower_codes, same_codes}
use sene_x.Rea.Decimal.{Decimal, zero_D, leb_D, ltb_D, eqb_D, ◌-D◌}
use sene_x.Rea.Contracts.{ContractError, Value, finite, Range, positive, non_negative, as_decimal}

-- `ResilienceError`, one constructor for each message of this part.
pub data ResilienceError : Type 0 where
  bad_number : ContractError → ResilienceError
  bad_timestamp : ContractError → ResilienceError
  blank_id bad_side overfilled status_mismatch : ResilienceError
  bad_sha bad_schema basis_without_inventory : ResilienceError
  duplicate_order_ids duplicate_fill_ids blank_fill_id fingerprint_mismatch : ResilienceError
  submission_conflict : ResilienceError
  processed_fill_unknown_order fill_conflict unknown_order sequence_gap : ResilienceError
  time_backwards already_filled side_differs exceeds_remaining : ResilienceError
  insufficient_cash short_position costs_exceed_proceeds bad_event_seq : ResilienceError
  duplicate_snapshot_ids stop_not_below_target : ResilienceError
  not_an_object wrong_fields invalid_payload bad_last_event_seq : ResilienceError

-- `_dec`
unfoldable pub dec : Value → Range → Outcome ResilienceError Decimal
unfolding as_decimal
dec v r = map_err bad_number (as_decimal v r)

-- A side as the code holds it: one of the two words, or any other text.
pub data Side : Type 0 where
  buy sell : Side
  other_side : String → Side

-- `str(side).strip().lower()`
unfoldable pub read_side : String → Side
unfolding lower_codes same_codes strip
read_side s =
    let w = lower_codes (strip s) in
    if same_codes w (lower_codes "buy")
    then buy
    else if same_codes w (lower_codes "sell")
    then sell
    else other_side s

abbrev pub side_eq : Side → Side → Bool
side_eq buy buy = true
side_eq sell sell = true
side_eq (other_side s) (other_side t) = text_eq s t
side_eq _ _ = false

abbrev pub is_known : Side → Bool
is_known (other_side _) = false
is_known _ = true

-- The texts that `PaperOrder.status` takes.
pub data Status : Type 0 where
  opened filled_up partially_filled : Status

abbrev pub status_eq : Status → Status → Bool
status_eq opened opened = true
status_eq filled_up filled_up = true
status_eq partially_filled partially_filled = true
status_eq _ _ = false

pub record PaperOrder : Type 0 where
  pub order_id : String
  pub client_order_id : String
  pub side : Side
  pub requested_qty : Decimal
  pub filled_qty : Decimal
  pub status : Status

-- The status that fits the two quantities.
unfoldable pub expected_status : Decimal → Decimal → Status
expected_status requested filled =
    if eqb_D filled zero_D
    then opened
    else if eqb_D filled requested
    then filled_up
    else partially_filled

-- `PaperOrder.__post_init__`
unfoldable pub new_order :
    String → String → Side → Value → Value → Status → Outcome ResilienceError PaperOrder
unfolding dec expected_status is_blank
new_order oid cid side requested filled status = do
  raise_if (is_blank oid || is_blank cid) blank_id
  raise_if (not (is_known side)) bad_side
  r ← dec requested positive
  f ← dec filled non_negative
  raise_if (ltb_D r f) overfilled
  raise_if (not (status_eq status (expected_status r f))) status_mismatch
  ok (record {
    order_id = oid;
    client_order_id = cid;
    side = side;
    requested_qty = r;
    filled_qty = f;
    status = status;
  })

-- `PaperOrder.remaining_qty`
unfoldable pub remaining_qty : PaperOrder → Decimal
remaining_qty o = o.requested_qty -D o.filled_qty

-- `next((item for item in orders if item.order_id == key), None)`
unfoldable pub find_order : String → List PaperOrder → Option PaperOrder
find_order key [] = none
find_order key (o ∷ os) = if text_eq o.order_id key then some o else find_order key os

-- `tuple(changed if o.order_id == changed.order_id else o for o in orders)`
unfoldable pub replace_order : PaperOrder → List PaperOrder → List PaperOrder
replace_order changed [] = []
replace_order changed (o ∷ os) =
    (if text_eq o.order_id changed.order_id then changed else o) ∷ replace_order changed os
