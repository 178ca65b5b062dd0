-- ===== src/Rea/Bracket.antt =====
-- research/rea_engines/execution_resilience.py: stop and target within one candle.
pub mod Policies
use sene_x.Common.{
  ℕ, Bool, true, false, not, ◌&&◌, if◌then◌else◌, Option, none, some, Outcome, ok, err, ◌>>=◌, ◌>>◌,
  raise_if,
}
use sene_x.Rea.Decimal.{Decimal, leb_D, ltb_D}
use sene_x.Rea.Contracts.{Value, positive, Candle}
use sene_x.Rea.Paper.Order.{ResilienceError, stop_not_below_target, dec}

pub data IntrabarPolicy : Type 0 where
  worst_case_stop_first best_case_target_first reject_ambiguous : IntrabarPolicy

-- `IntrabarDecision.trigger`
pub data Trigger : Type 0 where
  stopped targeted ambiguous_path untouched : Trigger

pub record IntrabarDecision : Type 0 where
  pub trigger : Trigger
  pub fill_price : Option Decimal
  pub ambiguous : Bool
  pub resolution_policy : IntrabarPolicy
  pub candle_timestamp : ℕ

abbrev pub decision : Candle → IntrabarPolicy → Trigger → Option Decimal → Bool → IntrabarDecision
decision c policy t price both = record {
  trigger = t;
  fill_price = price;
  ambiguous = both;
  resolution_policy = policy;
  candle_timestamp = c.timestamp;
}

-- The answer when the candle's range holds both prices.
abbrev pub choose : Candle → Decimal → Decimal → IntrabarPolicy → IntrabarDecision
choose c stop target worst_case_stop_first =
    decision c worst_case_stop_first stopped (some stop) true
choose c stop target best_case_target_first =
    decision c best_case_target_first targeted (some target) true
choose c stop target reject_ambiguous = decision c reject_ambiguous ambiguous_path none true

-- The decision, from the test of the opening price on.
unfoldable pub decide : Candle → Decimal → Decimal → IntrabarPolicy → IntrabarDecision
decide c stop target policy =
    if leb_D c.opening stop
    then decision c policy stopped (some c.opening) false
    else if leb_D target c.opening
    then decision c policy targeted (some c.opening) false
    else if leb_D c.low stop && leb_D target c.high
    then choose c stop target policy
    else if leb_D c.low stop
    then decision c policy stopped (some stop) false
    else if leb_D target c.high
    then decision c policy targeted (some target) false
    else decision c policy untouched none false

-- `resolve_long_bracket`
unfoldable pub resolve_long_bracket :
    Candle → Value → Value → IntrabarPolicy → Outcome ResilienceError IntrabarDecision
unfolding dec
resolve_long_bracket c stop_price target_price policy = do
  stop ← dec stop_price positive
  target ← dec target_price positive
  raise_if (leb_D target stop) stop_not_below_target
  ok (decide c stop target policy)
