-- ===== src/Rea/Contracts.antt =====
-- research/rea_engines/contracts.py: the coercion of numbers and timestamps, and candles.
use sene_x.Common.{
  ℕ, String, Bool, false, ◌==◌, if◌then◌else◌, Option, none, some, Outcome, ok, err, ◌>>=◌, ◌>>◌,
  raise_if,
}
use sene_x.Common.Text.{strip, is_blank, lower_codes, same_codes}
use sene_x.Rea.Decimal.{Decimal, zero_D, leb_D, ltb_D, ◌*D◌}

-- What `Decimal(str(value))` makes of an argument.
pub data Value : Type 0 where
  boolean : Value
  unreadable : Value
  infinite : Value
  finite : Decimal → Value

-- What `datetime.fromisoformat` makes of an argument: an instant is its microseconds in UTC, the
-- order and the equality of which are those of the normalized texts.
pub data TimeText : Type 0 where
  not_a_datetime : TimeText
  without_timezone : TimeText
  instant : ℕ → TimeText

-- `ContractError` of contracts.py, one constructor for each message.
pub data ContractError : Type 0 where
  is_boolean not_finite_decimal not_finite not_positive is_negative : ContractError
  bad_datetime no_timezone : ContractError
  high_too_low low_too_high high_below_low : ContractError
  bad_intent_side bad_order_type no_limit_price market_with_limit bad_ttl : ContractError
  blank_order_id blank_profile : ContractError

-- Which of the keyword flags of `as_decimal` is set.
pub data Range : Type 0 where
  any_sign positive non_negative : Range

abbrev pub in_range : Range → Decimal → Outcome ContractError Decimal
in_range any_sign x = ok x
in_range positive x = if leb_D x zero_D then err not_positive else ok x
in_range non_negative x = if ltb_D x zero_D then err is_negative else ok x

unfoldable pub as_decimal : Value → Range → Outcome ContractError Decimal
as_decimal boolean r = err is_boolean
as_decimal unreadable r = err not_finite_decimal
as_decimal infinite r = err not_finite
as_decimal (finite x) r = in_range r x

unfoldable pub normalize_timestamp : TimeText → Outcome ContractError ℕ
normalize_timestamp not_a_datetime = err bad_datetime
normalize_timestamp without_timezone = err no_timezone
normalize_timestamp (instant t) = ok t

pub record Candle : Type 0 where
  pub timestamp : ℕ
  pub opening : Decimal
  pub high : Decimal
  pub low : Decimal
  pub close : Decimal
  pub volume : Decimal

-- `max(x, y)` and `min(x, y)`, which keep the first of two equal numbers.
abbrev pub max_D : Decimal → Decimal → Decimal
max_D x y = if ltb_D x y then y else x

abbrev pub min_D : Decimal → Decimal → Decimal
min_D x y = if ltb_D y x then y else x

-- `Candle.__post_init__`
unfoldable pub new_candle :
    TimeText → Value → Value → Value → Value → Value → Outcome ContractError Candle
unfolding as_decimal normalize_timestamp
new_candle ts o h l c v = do
  t ← normalize_timestamp ts
  o' ← as_decimal o positive
  h' ← as_decimal h positive
  l' ← as_decimal l positive
  c' ← as_decimal c positive
  v' ← as_decimal v non_negative
  raise_if (ltb_D h' (max_D o' c')) high_too_low
  raise_if (ltb_D (min_D o' c') l') low_too_high
  raise_if (ltb_D h' l') high_below_low
  ok (record { timestamp = t; opening = o'; high = h'; low = l'; close = c'; volume = v' })

pub record PortfolioSnapshot : Type 0 where
  pub cash : Decimal
  pub inventory_qty : Decimal
  pub average_entry_price : Decimal
  pub realized_pnl : Decimal
  pub unrealized_pnl : Decimal
  pub equity : Decimal
  pub total_fees : Decimal
  pub total_spread_cost : Decimal
  pub total_slippage_cost : Decimal
  pub turnover : Decimal

-- `side` and `order_type`, once the constructor has accepted them.
pub data IntentSide : Type 0 where
  buying selling : IntentSide

pub data OrderType : Type 0 where
  market limit : OrderType

pub record OrderIntent : Type 0 where
  pub side : IntentSide
  pub order_type : OrderType
  pub quantity : Decimal
  pub limit_price : Option Decimal
  pub expires_after_bars : Option ℕ
  pub tag : String

abbrev pub read_intent_side : String → Outcome ContractError IntentSide
read_intent_side s =
    let w = lower_codes (strip s) in
    if same_codes w (lower_codes "buy")
    then ok buying
    else if same_codes w (lower_codes "sell")
    then ok selling
    else err bad_intent_side

abbrev pub read_order_type : String → Outcome ContractError OrderType
read_order_type s =
    let w = lower_codes (strip s) in
    if same_codes w (lower_codes "market")
    then ok market
    else if same_codes w (lower_codes "limit")
    then ok limit
    else err bad_order_type

-- A limit order has a price that reads as a positive number, a market order has none.
unfoldable pub read_limit : OrderType → Option Value → Outcome ContractError (Option Decimal)
read_limit limit none = err no_limit_price
read_limit limit (some v) = do p ← as_decimal v positive; ok (some p)
read_limit market none = ok none
read_limit market (some v) = err market_with_limit

-- `expires_after_bars` is an integer or `None`: zero stands for every integer below one.
abbrev pub is_bad_ttl : Option ℕ → Bool
is_bad_ttl none = false
is_bad_ttl (some n) = n == 0

-- `OrderIntent.__post_init__`
unfoldable pub new_intent :
    String → String → Value → Option Value → Option ℕ → String → Outcome ContractError OrderIntent
unfolding read_limit
new_intent side order_type quantity limit_price ttl tag = do
  sd ← read_intent_side side
  ty ← read_order_type order_type
  q ← as_decimal quantity positive
  p ← read_limit ty limit_price
  raise_if (is_bad_ttl ttl) bad_ttl
  ok (record {
    side = sd;
    order_type = ty;
    quantity = q;
    limit_price = p;
    expires_after_bars = ttl;
    tag = tag;
  })

pub record CancelIntent : Type 0 where
  pub order_id : String
  pub tag : String

-- `CancelIntent.__post_init__`
unfoldable pub new_cancel : String → String → Outcome ContractError CancelIntent
unfolding is_blank
new_cancel order_id tag = do
  raise_if (is_blank order_id) blank_order_id
  ok (record { order_id = order_id; tag = tag })

pub record CostProfile : Type 0 where
  pub fee_bps : Decimal
  pub spread_bps : Decimal
  pub slippage_bps : Decimal
  pub profile_id : String

-- `CostProfile.__post_init__`
unfoldable pub new_costs : Value → Value → Value → String → Outcome ContractError CostProfile
unfolding is_blank as_decimal
new_costs fee spread slippage profile_id = do
  f ← as_decimal fee non_negative
  sp ← as_decimal spread non_negative
  sl ← as_decimal slippage non_negative
  raise_if (is_blank profile_id) blank_profile
  ok (record { fee_bps = f; spread_bps = sp; slippage_bps = sl; profile_id = profile_id })

-- `CostProfile.scaled`; the last argument is the ID of the new profile, or of the default one.
unfoldable pub scaled : CostProfile → Value → String → Outcome ContractError CostProfile
unfolding new_costs as_decimal
scaled c factor profile_id = do
  m ← as_decimal factor positive
  new_costs (finite (c.fee_bps *D m)) (finite (c.spread_bps *D m)) (finite (c.slippage_bps *D m))
      profile_id

pub record PendingOrder : Type 0 where
  pub order_id : String
  pub side : IntentSide
  pub order_type : OrderType
  pub quantity : Decimal
  pub limit_price : Option Decimal
  pub submitted_index : ℕ
  pub submitted_timestamp : ℕ
  pub expires_after_bars : Option ℕ
  pub tag : String
  pub bars_waited : ℕ
