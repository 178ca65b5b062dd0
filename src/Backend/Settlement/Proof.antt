-- ===== src/Backend/Settlement/Proof.antt =====
-- The proof gate of a settled prediction, and the score of the rows that pass
-- (senecio_polymarket/backend/settlement_proof.py).
use sene_x.Common.{
  ℕ, suc, String, Bool, true, false, not, ◌&&◌, ◌==◌, ltb, if◌then◌else◌, List, [], ◌∷◌, length,
  Option, none, some, is_some,
}
use sene_x.Common.Text.{text_eq}
use sene_x.Backend.Settlement.Contract.{
  Prices, Moment, parse_utc, window_15m_s, window_1h_s, after_seconds, normalize_symbol,
  normalize_exchange, Evidence, is_text, target_epoch_ms, validate_price_evidence, SettledOutcome,
  win, loss, Direction, long, short, other_direction, directional_outcome,
}

-- `audit["origin_price_v1"]`
pub record OriginProof (W : Type 0) : Type 0 where
  pub version : Option String
  pub timestamp : Moment
  pub source : Option String
  pub price : Option W

-- `dual["settlement_observation_v1"]`
pub record Observation : Type 0 where
  pub version : Option String
  pub observed_at : Moment

-- `audit["outcomes_dual"]`. Outcomes are those two or nothing; evidence that is no object is
-- nothing.
pub record Dual (W : Type 0) : Type 0 where
  pub outcome_15m : Option SettledOutcome
  pub outcome_1h : Option SettledOutcome
  pub price_15m_later : Option W
  pub price_1h_later : Option W
  pub primary_window : Option String
  pub settlement_contract_version : Option String
  pub evidence_15m : Option (Evidence W)
  pub evidence_1h : Option (Evidence W)
  pub observation : Option Observation

-- A value that may be missing, of another type, or an object.
pub data Field (A : Type 0) : Type 0 where
  missing : Field A
  not_object : Field A
  object : A → Field A

-- A row of the predictions, with the parts of its `audit`.
pub record Row (W : Type 0) : Type 0 where
  pub outcome : Option SettledOutcome
  pub prediction : Direction
  pub ts : Moment
  pub exchange_used : Option String
  pub symbol : Option String
  pub price_now : Option W
  pub origin_price_v1 : Field (OriginProof W)
  pub outcomes_dual : Field (Dual W)

abbrev pub same_outcome : Option SettledOutcome → Option SettledOutcome → Bool
same_outcome (some win) (some win) = true
same_outcome (some loss) (some loss) = true
same_outcome none none = true
same_outcome _ _ = false

abbrev pub is_directed : Direction → Bool
is_directed long = true
is_directed short = true
is_directed other_direction = false

abbrev pub same_ms : Option ℕ → Option ℕ → Bool
same_ms (some a) (some b) = a == b
same_ms none none = true
same_ms _ _ = false

module _ {W : Type 0} (w : Prices W) where
  -- `_price_matches`
  abbrev pub price_matches : Option W → Option W → Bool
  price_matches (some a) (some b) = w.is_close a b
  price_matches _ _ = false

  abbrev pub min_price : W → W → W
  min_price a b = if w.lt b a then b else a

  -- `min(a, b, c, d) <= 0`
  abbrev pub has_no_price : W → W → W → W → Bool
  has_no_price a b c d = w.le_zero (min_price (min_price (min_price a b) c) d)

module _ (epoch_ms : ℕ → ℕ) {W : Type 0} (w : Prices W) where
  -- The observation is not before the 1h target of the row's time.
  abbrev pub is_late_enough : ℕ → Option ℕ → Bool
  is_late_enough t none = false
  is_late_enough t (some o) = not (ltb o (after_seconds t window_1h_s))

  abbrev pub is_observed : ℕ → Option Observation → Bool
  is_observed t none = false
  is_observed t (some o) =
      is_text o.version "settlement-observation-v1" && is_late_enough t (parse_utc o.observed_at)

  -- `evidence_1h["target_epoch_ms"]` is the row's target.
  abbrev pub is_on_target : Moment → Option (Evidence W) → Bool
  is_on_target ts none = false
  is_on_target ts (some e) = same_ms (target_epoch_ms epoch_ms ts window_1h_s) e.target_epoch_ms

  abbrev pub evidence_price : Option (Evidence W) → Option W
  evidence_price none = none
  evidence_price (some e) = e.price

  -- The dual outcomes are those of the prices.
  abbrev pub is_expected : Direction → W → Option W → Option SettledOutcome → Bool
  is_expected d origin later stored = agrees (directional_outcome w d (some origin) later) stored
    where
      agrees : Option SettledOutcome → Option SettledOutcome → Bool
      agrees none stored = false
      agrees (some x) stored = same_outcome stored (some x)

  abbrev pub dual_passes : Row W → Dual W → Bool
  dual_passes r d =
      (is_text d.primary_window "1h" && is_text d.settlement_contract_version "aud063-v1")
      && ((is_some d.outcome_15m && is_some d.outcome_1h) && same_outcome d.outcome_1h r.outcome)

  abbrev pub evidence_passes : Row W → Dual W → String → String → Bool
  evidence_passes r d source symbol =
      (validate_price_evidence epoch_ms w d.evidence_15m (some source) (some symbol) r.ts
          window_15m_s
        && validate_price_evidence epoch_ms w d.evidence_1h (some source) (some symbol) r.ts
            window_1h_s)
      && (price_matches w d.price_15m_later (evidence_price d.evidence_15m)
          && price_matches w d.price_1h_later (evidence_price d.evidence_1h))

  abbrev pub outcomes_pass : Row W → Dual W → W → Bool
  outcomes_pass r d origin =
      is_expected r.prediction origin d.price_15m_later d.outcome_15m
      && is_expected r.prediction origin d.price_1h_later d.outcome_1h

  abbrev pub prices_pass :
      Row W → Dual W → ℕ → String → String → Option W → Option W → Option W → Option W → Bool
  prices_pass r d t source symbol (some origin) (some now) (some p15) (some p1h) =
      (not (has_no_price w origin now p15 p1h) && w.is_close origin now)
      && ((dual_passes r d && evidence_passes r d source symbol)
          && ((is_observed t d.observation && is_on_target r.ts d.evidence_1h)
              && outcomes_pass r d origin))
  prices_pass r d t source symbol _ _ _ _ = false

  abbrev pub source_passes : Row W → OriginProof W → Dual W → ℕ → Option String → Bool
  source_passes r o d t none = false
  source_passes r o d t (some source) =
      is_text (normalize_exchange o.source) source
      && (not (text_eq (normalize_symbol r.symbol) "")
          && prices_pass r d t source (normalize_symbol r.symbol) o.price r.price_now
              d.price_15m_later d.price_1h_later)

  abbrev pub times_pass : Row W → OriginProof W → Dual W → Option ℕ → Option ℕ → Bool
  times_pass r o d (some a) (some b) =
      (a == b) && source_passes r o d b (normalize_exchange r.exchange_used)
  times_pass r o d _ _ = false

  abbrev pub proofs_pass : Row W → Field (OriginProof W) → Field (Dual W) → Bool
  proofs_pass r (object o) (object d) =
      is_text o.version "origin-price-v1"
      && times_pass r o d (parse_utc o.timestamp) (parse_utc r.ts)
  proofs_pass r _ _ = false

  -- `is_proof_qualified`
  unfoldable pub is_proof_qualified : Row W → Bool
  unfolding directional_outcome validate_price_evidence
  is_proof_qualified r =
      (is_some r.outcome && is_directed r.prediction)
      && proofs_pass r r.origin_price_v1 r.outcomes_dual

  -- `filter_proof_qualified`
  unfoldable pub filter_proof_qualified : List (Row W) → List (Row W)
  unfolding is_proof_qualified
  filter_proof_qualified [] = []
  filter_proof_qualified (r ∷ rs) =
      let rest = filter_proof_qualified rs in if is_proof_qualified r then r ∷ rest else rest

  unfoldable pub count_outcome : SettledOutcome → List (Row W) → ℕ
  count_outcome x [] = 0
  count_outcome x (r ∷ rs) =
      let rest = count_outcome x rs in if same_outcome r.outcome (some x) then suc rest else rest

  -- `score_qualified_rows` without its percentage
  pub record Score : Type 0 where
    pub rows : List (Row W)
    pub verified : ℕ
    pub wins : ℕ
    pub losses : ℕ

  unfoldable pub score_qualified_rows : List (Row W) → Score
  unfolding filter_proof_qualified count_outcome
  score_qualified_rows rs =
      let verified = filter_proof_qualified rs in
      record {
        rows = verified;
        verified = length verified;
        wins = count_outcome win verified;
        losses = count_outcome loss verified;
      }

  -- `proof_status`
  abbrev pub proof_status : Row W → String
  proof_status r = if is_proof_qualified r then "PROOF_QUALIFIED" else "RAW_UNVERIFIED"
