-- ===== src/Backend/Settlement/Tests.antt =====
-- Settlement on a concrete row and candles (senecio_polymarket/backend).
use sene_x.Common.{
  ℕ, ◌+◌, ◌/◌, ◌≤◌, ◌<◌, ◌≡◌, refl, true, ◌==◌, ==_iff, ltb, List, [], ◌∷◌, length, Option, none,
  some, arith,
}
use sene_x.Common.Text.{strip, text_length, text_take, mem_text}
use sene_x.Common.Text.Case.{upper, lower, has_char, ends_with, text_drop, text_append, drop_last}
use sene_x.Backend.Settlement.Contract.{
  Prices, aware, parse_utc, Ohlcv, Evidence, after_seconds, normalize_symbol, normalize_exchange,
  target_epoch_ms, containing, latest, select_containing_candle, price_evidence_from_candles,
  fetch_historical_price_evidence, validate_price_evidence, win, long, directional_outcome,
}
use sene_x.Backend.Settlement.Causal.{
  validate-price_evidence_from_candles, validate_price_evidence-after_target,
}
use sene_x.Backend.Settlement.Proof.{
  Row, OriginProof, missing, object, is_proof_qualified, score_qualified_rows,
}
use sene_x.Backend.Settlement.Repair.{Answer, repaired, row_patched, dual_of, repair_row}
use sene_x.Backend.Settlement.Batch.{LocalRow, Reply}
use sene_x.Backend.Settlement.Repaired.{repair_row-is_proof_qualified}
use sene_x.Backend.Settlement.Qualified.{
  Earned, is_proof_qualified-Earned, score_qualified_rows-adds,
}

-- A stand-in for prices, in whole units.
abbrev prices : Prices ℕ
prices = record {
  le_zero = λ x. x == 0;
  is_finite = λ x. true;
  lt = λ x y. ltb x y;
  is_close = λ x y. x == y;
}

abbrev in_ms : ℕ → ℕ
in_ms t = t / 1000

in_ms_mono : (a b : ℕ) → a ≤ b → in_ms a ≤ in_ms b
in_ms_mono a b h = omega (arith, h)

close_self : (x : ℕ) → prices.is_finite x ≡ true → prices.is_close x x ≡ true
close_self x h = (==_iff x x).1 refl

abbrev origin : OriginProof ℕ
origin = record {
  version = some "origin-price-v1";
  timestamp = aware 0;
  source = some "OKX";
  price = some 100;
}

-- A row whose hour is over, without a dual outcome.
abbrev legacy : Row ℕ
legacy = record {
  outcome = some win;
  prediction = long;
  ts = aware 0;
  exchange_used = some " okx";
  symbol = some "btcusdt";
  price_now = some 100;
  origin_price_v1 = object origin;
  outcomes_dual = missing;
}

abbrev candles : List (Option (Ohlcv ℕ))
candles =
    none
    ∷ some (record { open_ms = 900000; close = 104 })
    ∷ some (record { open_ms = 3600000; close = 110 })
    ∷ []

abbrev answer : Answer ℕ
answer = record { candles = some candles; at = 4000000000 }

-- The evidence of the first quarter of an hour and of the hour.
abbrev seen15 : Evidence ℕ
seen15 = record {
  version = some "historical-price-evidence-v1";
  source = some "okx";
  symbol = some "BTC/USDT";
  window_seconds = some 900;
  target_epoch_ms = some 900000;
  candle_open_epoch_ms = some 900000;
  candle_close_epoch_ms = some 960000;
  candle_interval = some 60000;
  target_offset_ms = some 0;
  price = some 104;
  observed_at = aware 4000000000;
}

abbrev seen1h : Evidence ℕ
seen1h = record seen15 {
  window_seconds = some 3600;
  target_epoch_ms = some 3600000;
  candle_open_epoch_ms = some 3600000;
  candle_close_epoch_ms = some 3660000;
  price = some 110;
}

abbrev sent : Row ℕ
sent = record legacy {
  outcomes_dual = object (dual_of in_ms prices seen15 seen1h win win 4000000001);
}

built :
    price_evidence_from_candles in_ms prices candles
      (some "okx")
      (some "BTC/USDT")
      (aware 0)
      3600
      (aware 4000000000)
    ≡ some seen1h
unfolding price_evidence_from_candles normalize_symbol normalize_exchange target_epoch_ms
    select_containing_candle containing latest upper lower strip has_char ends_with text_drop
    text_append drop_last text_length text_take mem_text
built = refl

validate-price_evidence_from_candles_example :
    validate_price_evidence in_ms prices (some seen1h) (some "okx") (some "BTC/USDT") (aware 0) 3600
    ≡ true
validate-price_evidence_from_candles_example =
    validate-price_evidence_from_candles prices in_ms candles (some "okx") (some "BTC/USDT")
      (aware 0) 3600 (aware 4000000000) seen1h built

validate_price_evidence-after_target_example :
    (start seen : ℕ) × (parse_utc (aware 0) ≡ some start)
    × (parse_utc seen1h.observed_at ≡ some seen)
    × (after_seconds start 3600 < seen)
validate_price_evidence-after_target_example =
    validate_price_evidence-after_target prices in_ms seen1h (some "okx") (some "BTC/USDT")
      (aware 0) 3600 in_ms_mono validate-price_evidence_from_candles_example

repaired_ok :
    repair_row in_ms prices legacy answer answer 4000000001 row_patched ≡ (repaired, some sent)
unfolding repair_row fetch_historical_price_evidence directional_outcome price_evidence_from_candles
    normalize_symbol normalize_exchange target_epoch_ms select_containing_candle containing latest
    upper lower strip has_char ends_with text_drop text_append drop_last text_length text_take
    mem_text
repaired_ok = refl

canonical :
    normalize_symbol (some (normalize_symbol legacy.symbol)) ≡ normalize_symbol legacy.symbol
unfolding normalize_symbol upper strip has_char ends_with text_drop text_append drop_last
    text_length text_take
canonical = refl

repair_row-is_proof_qualified_example : is_proof_qualified in_ms prices sent ≡ true
repair_row-is_proof_qualified_example =
    repair_row-is_proof_qualified in_ms prices legacy sent origin answer answer 4000000001
      row_patched in_ms_mono close_self refl refl canonical (omega arith) repaired_ok

is_proof_qualified-Earned_example : Earned in_ms prices sent
is_proof_qualified-Earned_example =
    is_proof_qualified-Earned in_ms prices sent in_ms_mono repair_row-is_proof_qualified_example

score_qualified_rows-adds_example :
    let score = score_qualified_rows in_ms prices (sent ∷ legacy ∷ []) in
    (score.verified ≡ length score.rows) × (score.verified ≡ score.wins + score.losses)
score_qualified_rows-adds_example = score_qualified_rows-adds in_ms prices (sent ∷ legacy ∷ [])

abbrev local_row : LocalRow ℕ
local_row = record { id = some 4; row = legacy }

abbrev replies : LocalRow ℕ → Reply ℕ
replies x = record { a15 = answer; a1h = answer; now = 4000000001; patched = row_patched }
