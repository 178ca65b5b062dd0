-- ===== src/Rea/Paper/Tests.antt =====
-- The paper book and brackets on concrete orders, fills and candles (research/rea_engines/execution_resilience.py).
use sene_x.Common.{
  none, length, String, ℕ, ◌≡◌, refl, ◌⊎◌, ◌≢◌, ◌↔◌, true, false, [], ◌∷◌, some, zero, suc, ok, err,
  ◌==◌, if◌then◌else◌,
}
use sene_x.Common.Int.{pos}
use sene_x.Common.Text.{is_blank, strip, has_duplicates, lower_codes, same_codes, mem_text}
use sene_x.Rea.Decimal.{Decimal, leb_D, ◌+D◌, ◌-D◌, ◌*D◌}
use sene_x.Rea.Bracket.{
  IntrabarDecision, worst_case_stop_first, best_case_target_first, reject_ambiguous, stopped,
  targeted, decision, decide, resolve_long_bracket,
}
use sene_x.Rea.Bracket.Policies.{PriceBelow, worst_case_below, policies_agree}
use sene_x.Rea.Contracts.{Candle, Value, finite, non_negative, as_decimal}
use sene_x.Rea.Paper.Order.{
  is_known, processed_fill_unknown_order, PaperOrder, PaperOrder, buy, read_side, Status, opened,
  partially_filled, expected_status, remaining_qty, dec, new_order, find_order, replace_order,
  fill_conflict,
}
use sene_x.Rea.Paper.State.{
  sha, PaperState, Digest, is_sha256, check_amounts, validate, fresh_state, initial, same_texts,
}
use sene_x.Rea.Paper.State.Laws.{IsValid, validate-IsValid}
use sene_x.Rea.Paper.Fill.{
  FillEvent, FillApplication, add_order, resubmission, register_order, apply_fill, fresh_fill,
  repeated_fill, check_fill, book_buy,
}
use sene_x.Rea.Paper.Fill.Accounted.{Repeated, Accounted, apply_fill-Accounted}
use sene_x.Rea.Paper.Fill.Repeats.{apply_fill_again, apply_fill_conflict}
use sene_x.Rea.Paper.Fill.Submitted.{Resubmitted, Submitted, register_order_submits}
use sene_x.Rea.Decimal.Order.{IsPositive}
use sene_x.Rea.Paper.Checkpoint.{
  StateValue, state_payload, Checkpoint, checkpoint, checkpoint_of, save_checkpoint,
  load_checkpoint,
}
use sene_x.Rea.Paper.Checkpoint.Roundtrip.{load-save_checkpoint}
use sene_x.Rea.Paper.Snapshot.{ExecutionSnapshot, ReconciliationReport, reconcile_snapshot}
use sene_x.Rea.Paper.Snapshot.Agreement.{IsReconciled, reconcile_snapshot-matched}
use sene_x.Rea.Paper.Fill.History.{Reach, Inv, registers, fills, here, next, Reach-Inv, initial-Inv}

abbrev pub number : ℕ → Decimal
number n = record { negative = false; digits = n; exponent = pos 0 }

-- 64 times one digit.
abbrev pub repeated : ℕ → ℕ → Digest
repeated c n = elim n [ zero ↦ [] | suc (m → rest) ↦ c ∷ rest ]

abbrev pub ones : Digest
ones = repeated b'1' 64

-- A stand-in for the SHA-256 of a fill: it tells quantities of 2 from others.
abbrev print_of : FillEvent → Digest
print_of e = if e.quantity.digits == 2 then repeated b'2' 64 else repeated b'f' 64

abbrev pub start : PaperState
start = fresh_state (number 100) ones ones

pub start_ok : initial (number 100) ones ones ≡ ok start
unfolding initial validate check_amounts dec is_sha256 leb_D has_duplicates same_texts
start_ok = refl

start-Inv : Inv start
start-Inv = initial-Inv (number 100) ones ones start start_ok

-- The order of five units, as the two calls below leave it.
abbrev five : Decimal → Status → PaperOrder
five filled status = record {
  order_id = "o1";
  client_order_id = "c1";
  side = buy;
  requested_qty = number 5;
  filled_qty = filled;
  status = status;
}

abbrev ordered : PaperState
ordered = record start { orders = five (number 0) opened ∷ [] }

ordered_ok : register_order start " o1 " "c1" "buy" (finite (number 5)) ≡ ok ordered
unfolding register_order add_order resubmission new_order expected_status validate check_amounts dec
    is_sha256 strip is_blank read_side as_decimal leb_D has_duplicates lower_codes same_codes
    same_texts mem_text
ordered_ok = refl

validated : validate start ≡ ok start
unfolding validate check_amounts dec is_sha256 leb_D has_duplicates same_texts
validated = refl

validate-IsValid_example : IsValid start
validate-IsValid_example = validate-IsValid start start validated

register_order_submits_example :
    (q : Decimal) × (◌≡◌ {A = Value} (finite (number 5)) (finite q))
    × IsPositive q
    × (is_known (read_side "buy") ≡ true)
    × (strip " o1 " ≢ "")
    × (strip "c1" ≢ "")
    × (Resubmitted start ordered (strip " o1 ") (strip "c1") (read_side "buy") q
        ⊎ Submitted start ordered (strip " o1 ") (strip "c1") (read_side "buy") q)
register_order_submits_example =
    register_order_submits start " o1 " "c1" "buy" (finite (number 5)) ordered ordered_ok

-- A purchase of some units at ten each, with a fee of one.
abbrev purchase : ℕ → FillEvent
purchase n = record {
  fill_id = "f1";
  order_id = "o1";
  side = buy;
  quantity = number n;
  price = number 10;
  fee = number 1;
  spread_cost = number 0;
  slippage_cost = number 0;
  timestamp = 7;
  event_seq = 1;
}

abbrev bought : PaperState
bought = record ordered {
  cash = number 79;
  inventory_qty = number 2;
  inventory_cost_basis = number 21;
  total_fees = number 1;
  turnover = number 20;
  last_processed_timestamp = some 7;
  last_event_seq = 1;
  orders = five (number 2) partially_filled ∷ [];
  processed_fill_ids = "f1" ∷ [];
  processed_fill_fingerprints = ("f1", repeated b'2' 64) ∷ [];
}

abbrev first_reply : FillApplication
first_reply = record {
  applied = true;
  duplicate = false;
  status = partially_filled;
  remaining = number 3;
}

bought_ok : apply_fill print_of ordered (purchase 2) ≡ ok (bought, first_reply)
unfolding apply_fill fresh_fill repeated_fill check_fill book_buy new_order expected_status
    remaining_qty find_order replace_order validate check_amounts dec is_sha256 strip is_blank
    as_decimal leb_D has_duplicates same_texts mem_text ◌+D◌ ◌-D◌ ◌*D◌ mathlib.Core.Bool.xor
bought_ok = refl

apply_fill-Accounted_example :
    Repeated print_of ordered (purchase 2) bought first_reply
    ⊎ Accounted print_of ordered (purchase 2) bought first_reply
apply_fill-Accounted_example =
    apply_fill-Accounted print_of ordered (purchase 2) bought first_reply bought_ok

apply_fill_again_example :
    apply_fill print_of bought (purchase 2)
    ≡ ok (bought, record first_reply { applied = false; duplicate = true })
apply_fill_again_example =
    apply_fill_again print_of ordered (purchase 2) bought first_reply bought_ok refl

differing : print_of (purchase 3) ≢ print_of (purchase 2)
differing same = cc

apply_fill_conflict_example :
    ((o : PaperOrder) × (find_order (purchase 3).order_id bought.orders ≡ some o)
      × (apply_fill print_of bought (purchase 3) ≡ err fill_conflict))
    ⊎ ((find_order (purchase 3).order_id bought.orders ≡ none)
        × (apply_fill print_of bought (purchase 3) ≡ err processed_fill_unknown_order))
apply_fill_conflict_example =
    apply_fill_conflict print_of ordered (purchase 2) bought first_reply (purchase 3) bought_ok refl
      refl differing

bought-Reach : Reach print_of start bought
bought-Reach =
    next (next here (registers start ordered " o1 " "c1" "buy" (finite (number 5)) ordered_ok))
      (fills ordered bought (purchase 2) first_reply bought_ok)

Reach-Inv_example : Inv bought
Reach-Inv_example = Reach-Inv print_of start-Inv bought-Reach

-- A stand-in for the SHA-256 of a payload.
abbrev state_print : StateValue → Digest
state_print (state_payload p) = length p.processed_fill_ids ∷ ones
state_print _ = ones

abbrev stored : Checkpoint
stored = checkpoint_of state_print bought

saved : save_checkpoint state_print bought true true ≡ ok stored
unfolding save_checkpoint
saved = refl

-- The digest as a caller may write it.
abbrev ones_text : String
ones_text = " 1111111111111111111111111111111111111111111111111111111111111111 "

sha-ones : sha ones_text ≡ ok ones
unfolding sha is_sha256 lower_codes strip
sha-ones = refl

load-save_checkpoint_example :
    load_checkpoint state_print (checkpoint stored) ones_text ones_text ≡ ok bought
load-save_checkpoint_example =
    load-save_checkpoint print_of state_print (number 100) ones ones start bought stored ones_text
      ones_text start_ok bought-Reach saved sha-ones sha-ones

-- A candle whose range holds both prices of a bracket.
abbrev wide : Candle
wide = record {
  timestamp = 3;
  opening = number 10;
  high = number 14;
  low = number 6;
  close = number 9;
  volume = number 1;
}

abbrev narrow : Candle
narrow = record wide { high = number 11 }

abbrev stop_first : IntrabarDecision
stop_first = decision wide worst_case_stop_first stopped (some (number 8)) true

abbrev target_first : IntrabarDecision
target_first = decision wide best_case_target_first targeted (some (number 12)) true

abbrev stop_only : IntrabarDecision
stop_only = decision narrow worst_case_stop_first stopped (some (number 8)) false

stop_ok :
    resolve_long_bracket wide (finite (number 8)) (finite (number 12)) worst_case_stop_first
    ≡ ok stop_first
unfolding resolve_long_bracket decide dec as_decimal leb_D
stop_ok = refl

target_ok :
    resolve_long_bracket wide (finite (number 8)) (finite (number 12)) best_case_target_first
    ≡ ok target_first
unfolding resolve_long_bracket decide dec as_decimal leb_D
target_ok = refl

only_ok :
    resolve_long_bracket narrow (finite (number 8)) (finite (number 12)) worst_case_stop_first
    ≡ ok stop_only
unfolding resolve_long_bracket decide dec as_decimal leb_D
only_ok = refl

worst_case_below_example : PriceBelow (some (number 8)) (some (number 12))
worst_case_below_example =
    worst_case_below wide (finite (number 8)) (finite (number 12)) stop_first target_first stop_ok
      target_ok

policies_agree_example :
    resolve_long_bracket narrow (finite (number 8)) (finite (number 12)) reject_ambiguous
    ≡ ok (record stop_only { resolution_policy = reject_ambiguous })
policies_agree_example =
    policies_agree narrow (finite (number 8)) (finite (number 12)) worst_case_stop_first
      reject_ambiguous stop_only only_ok refl

-- The venue sees one unit of cash less than the state after the purchase.
abbrev observed : ExecutionSnapshot
observed = record {
  cash = number 78;
  inventory_qty = number 2;
  open_orders = record { order_id = "o1"; side = buy; remaining = number 3 } ∷ [];
  last_event_seq = 1;
}

one_off : dec (finite (number 1)) non_negative ≡ ok (number 1)
unfolding dec as_decimal leb_D
one_off = refl

reconcile_snapshot-matched_example :
    (report : ReconciliationReport) × (reconcile_snapshot bought observed (finite (number 1))
      ≡ ok report)
    × ((report.matched ≡ true) ↔ IsReconciled (number 1) bought observed)
reconcile_snapshot-matched_example =
    reconcile_snapshot-matched bought observed (finite (number 1)) (number 1) one_off
