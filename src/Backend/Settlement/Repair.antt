-- ===== src/Backend/Settlement/Repair.antt =====
-- The repair of a settled row without a dual outcome (senecio_polymarket/backend/settlement_reconciler.py).
pub mod Inversion
pub mod Fetched
use sene_x.Common.{
  ℕ, String, Bool, true, false, not, ◌&&◌, ◌||◌, ◌==◌, if◌then◌else◌, List, Option, none, some,
  is_some,
}
use sene_x.Backend.Settlement.Contract.{
  Prices, Moment, parse_utc, aware, window_15m_s, window_1h_s, normalize_symbol, normalize_exchange,
  Ohlcv, Evidence, is_text, fetch_historical_price_evidence, SettledOutcome, directional_outcome,
}
use sene_x.Backend.Settlement.Proof.{
  OriginProof, Observation, Dual, Field, missing, not_object, object, Row, same_outcome,
  is_directed, same_ms,
}

-- The result of `_repair_row`, or `raised`: an exception leaves it.
pub data RepairResult : Type 0 where
  repaired conflict skipped error raised : RepairResult

-- What becomes of `client.patch`: a status with a list that is not empty, another response, or an
-- exception of the request. The same exception stands for a row without the key `id`, for which the
-- request cannot be put together.
pub data PatchReply : Type 0 where
  row_patched row_refused patch_raises : PatchReply

-- What an exchange answers to one request, and the clock at the answer.
pub record Answer (W : Type 0) : Type 0 where
  pub candles : Option (List (Option (Ohlcv W)))
  pub at : ℕ

module _ (epoch_ms : ℕ → ℕ) {W : Type 0} (w : Prices W) where
  -- `merged["outcomes_dual"]`, as far as the proof gate reads it.
  abbrev pub dual_of : Evidence W → Evidence W → SettledOutcome → SettledOutcome → ℕ → Dual W
  dual_of e15 e1h o15 o1h now = record {
    outcome_15m = some o15;
    outcome_1h = some o1h;
    price_15m_later = e15.price;
    price_1h_later = e1h.price;
    primary_window = some "1h";
    settlement_contract_version = some "aud063-v1";
    evidence_15m = some e15;
    evidence_1h = some e1h;
    observation =
        some (record { version = some "settlement-observation-v1"; observed_at = aware now });
  }

  -- The row that the patch asks for, if it was patched.
  abbrev pub patch : Row W → Dual W → PatchReply → RepairResult × Option (Row W)
  patch r d row_patched = (repaired, some (record r { outcomes_dual = object d }))
  patch r d row_refused = (error, none)
  patch r d patch_raises = (raised, none)

  abbrev pub repair_outcomes :
      Row W
      → Evidence W
      → Evidence W
      → Option SettledOutcome
      → Option SettledOutcome
      → ℕ
      → PatchReply
      → RepairResult × Option (Row W)
  repair_outcomes r e15 e1h (some o15) (some o1h) now patched =
      if same_outcome r.outcome (some o1h)
      then patch r (dual_of e15 e1h o15 o1h now) patched
      else (conflict, none)
  repair_outcomes r e15 e1h _ _ now patched = (skipped, none)

  abbrev pub repair_evidence :
      Row W
      → W
      → Option (Evidence W)
      → Option (Evidence W)
      → ℕ
      → PatchReply
      → RepairResult × Option (Row W)
  repair_evidence r origin (some e15) (some e1h) now patched =
      repair_outcomes r e15 e1h (directional_outcome w r.prediction (some origin) e15.price)
        (directional_outcome w r.prediction (some origin) e1h.price) now patched
  repair_evidence r origin _ _ now patched = (error, none)

  abbrev pub repair_from :
      Row W
      → W
      → OriginProof W
      → Option String
      → Answer W
      → Answer W
      → ℕ
      → PatchReply
      → RepairResult × Option (Row W)
  repair_from r origin o none a15 a1h now patched = (skipped, none)
  repair_from r origin o (some source) a15 a1h now patched =
      if is_text o.version "origin-price-v1"
        && (is_text (normalize_exchange o.source) source
            && same_ms (parse_utc o.timestamp) (parse_utc r.ts))
      then repair_evidence r origin
          (fetch_historical_price_evidence epoch_ms w a15.candles a15.at (some source)
            (some (normalize_symbol r.symbol)) r.ts window_15m_s)
          (fetch_historical_price_evidence epoch_ms w a1h.candles a1h.at (some source)
            (some (normalize_symbol r.symbol)) r.ts window_1h_s)
          now patched
      else (skipped, none)

  abbrev pub repair_audit :
      Row W
      → W
      → Field (OriginProof W)
      → Field (Dual W)
      → Answer W
      → Answer W
      → ℕ
      → PatchReply
      → RepairResult × Option (Row W)
  repair_audit r origin (object o) missing a15 a1h now patched =
      repair_from r origin o (normalize_exchange r.exchange_used) a15 a1h now patched
  repair_audit r origin _ _ a15 a1h now patched = (skipped, none)

  abbrev pub repair_price :
      Row W → Option W → Answer W → Answer W → ℕ → PatchReply → RepairResult × Option (Row W)
  repair_price r none a15 a1h now patched = (skipped, none)
  repair_price r (some origin) a15 a1h now patched =
      if w.le_zero origin
      then (skipped, none)
      else repair_audit r origin r.origin_price_v1 r.outcomes_dual a15 a1h now patched

  -- `_repair_row`: the answers of the exchange for 15 minutes and for an hour, the clock before
  -- the patch, and what becomes of the patch. With the result, the row as patched.
  unfoldable pub repair_row :
      Row W → Answer W → Answer W → ℕ → PatchReply → RepairResult × Option (Row W)
  unfolding fetch_historical_price_evidence directional_outcome
  repair_row r a15 a1h now patched =
      if is_some r.outcome && is_directed r.prediction
      then repair_price r r.price_now a15 a1h now patched
      else (skipped, none)
