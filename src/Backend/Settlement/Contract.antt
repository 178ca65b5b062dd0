-- ===== src/Backend/Settlement/Contract.antt =====
-- Candles as price evidence, and its validation (senecio_polymarket/backend/settlement_contract.py).
use sene_x.Common.{
  ℕ, ◌+◌, ◌-◌, ◌*◌, String, Bool, true, false, not, ◌&&◌, ◌||◌, ◌==◌, ltb, leb, if◌then◌else◌, List,
  [], ◌∷◌, Option, none, some,
}
use sene_x.Common.Text.{text_eq, mem_text, strip, text_length}
use sene_x.Common.Text.Case.{upper, lower, has_char, ends_with, text_append, drop_last}

-- What the code does with a `float`: the test for zero or less and the finiteness of a price, its order, and
-- `math.isclose` with the tolerances of settlement_proof.py.
pub record Prices (W : Type 0) : Type 0 where
  pub le_zero : W → Bool
  pub is_finite : W → Bool
  pub lt : W → W → Bool
  pub is_close : W → W → Bool

-- What `datetime.fromisoformat` makes of a value: nothing, or the microseconds since 1970 that it
-- names, without a timezone or with one (then they are those in UTC).
pub data Moment : Type 0 where
  unreadable : Moment
  naive : ℕ → Moment
  aware : ℕ → Moment

-- `parse_utc`
abbrev pub parse_utc : Moment → Option ℕ
parse_utc unreadable = none
parse_utc (naive t) = some t
parse_utc (aware t) = some t

abbrev pub candle_interval_ms : ℕ
candle_interval_ms = 60000

abbrev pub window_15m_s : ℕ
window_15m_s = 900

abbrev pub window_1h_s : ℕ
window_1h_s = 3600

-- `t + timedelta(seconds=s)`
abbrev pub after_seconds : ℕ → ℕ → ℕ
after_seconds t s = t + s * 1000000

abbrev pub text_or_empty : Option String → String
text_or_empty none = ""
text_or_empty (some s) = s

-- `normalize_symbol` of a text or nothing
unfoldable pub normalize_symbol : Option String → String
unfolding upper has_char ends_with text_append drop_last
normalize_symbol value =
    let text = strip (upper (text_or_empty value)) in
    if has_char b'/' text
    then text
    else if ends_with 4 "USDT" text && ltb 4 (text_length text)
    then text_append (drop_last 4 text) "/USDT"
    else text

abbrev pub allowed_public_exchanges : List String
allowed_public_exchanges = "okx" ∷ "kraken" ∷ "gate" ∷ "mexc" ∷ "bitget" ∷ []

-- `normalize_exchange`
unfoldable pub normalize_exchange : Option String → Option String
unfolding lower strip mem_text
normalize_exchange value =
    let text = lower (strip (text_or_empty value)) in
    if mem_text text allowed_public_exchanges then some text else none

-- What `int(candle[0])` and `float(candle[4])` give.
pub record Ohlcv (W : Type 0) : Type 0 where
  pub open_ms : ℕ
  pub close : W

-- The dictionary of `price_evidence_from_candles`; for one that is read back, what `int` and
-- `float` make of a field. Milliseconds count from 1970 on.
pub record Evidence (W : Type 0) : Type 0 where
  pub version : Option String
  pub source : Option String
  pub symbol : Option String
  pub window_seconds : Option ℕ
  pub target_epoch_ms : Option ℕ
  pub candle_open_epoch_ms : Option ℕ
  pub candle_close_epoch_ms : Option ℕ
  pub candle_interval : Option ℕ
  pub target_offset_ms : Option ℕ
  pub price : Option W
  pub observed_at : Moment

abbrev pub is_text : Option String → String → Bool
is_text none t = false
is_text (some s) t = text_eq s t

-- The same-source price of a window: what both sides of the contract derive from their arguments.
pub record Target : Type 0 where
  pub source : String
  pub symbol : String
  pub target_ms : ℕ

module _ {W : Type 0} (w : Prices W) where
  abbrev pub is_price : W → Bool
  is_price x = not (w.le_zero x) && w.is_finite x

  -- The loop of `select_containing_candle`: a candle that does not read is skipped.
  unfoldable pub containing : ℕ → List (Option (Ohlcv W)) → List (Ohlcv W)
  containing target [] = []
  containing target (none ∷ cs) = containing target cs
  containing target (some c ∷ cs) =
      let rest = containing target cs in
      if is_price c.close && (leb c.open_ms target && ltb target (c.open_ms + candle_interval_ms))
      then c ∷ rest
      else rest

  -- `max(valid, key=...)`, the first of the latest.
  unfoldable pub latest : Ohlcv W → List (Ohlcv W) → Ohlcv W
  latest c [] = c
  latest c (d ∷ ds) = latest (if ltb c.open_ms d.open_ms then d else c) ds

  abbrev pub latest_of : List (Ohlcv W) → Option (Ohlcv W)
  latest_of [] = none
  latest_of (c ∷ cs) = some (latest c cs)

  -- `select_containing_candle`
  unfoldable pub select_containing_candle : ℕ → List (Option (Ohlcv W)) → Option (Ohlcv W)
  unfolding containing latest
  select_containing_candle target cs = latest_of (containing target cs)

-- `epoch_ms t` is `int(t.timestamp() * 1000)`, which goes through a float.
module _ (epoch_ms : ℕ → ℕ) where
  abbrev pub target_of : ℕ → Option ℕ → Option ℕ
  target_of window none = none
  target_of window (some t) = some (epoch_ms (after_seconds t window))

  -- `target_epoch_ms`
  unfoldable pub target_epoch_ms : Moment → ℕ → Option ℕ
  target_epoch_ms ts window =
      if (window == window_15m_s) || (window == window_1h_s)
      then target_of window (parse_utc ts)
      else none

  abbrev pub known_target : Option String → String → Option ℕ → Option Target
  known_target (some source) symbol (some ms) =
      if text_eq symbol ""
      then none
      else some (record { source = source; symbol = symbol; target_ms = ms })
  known_target _ symbol _ = none

  -- The first lines of the functions on evidence: the source, the symbol and the target, or nothing.
  abbrev pub target_for : Option String → Option String → Moment → ℕ → Option Target
  target_for exchange symbol ts window =
      known_target (normalize_exchange exchange) (normalize_symbol symbol)
        (target_epoch_ms ts window)

  module _ {W : Type 0} (w : Prices W) where
    abbrev pub evidence : ℕ → Moment → Target → Ohlcv W → Evidence W
    evidence window observed t c = record {
      version = some "historical-price-evidence-v1";
      source = some t.source;
      symbol = some t.symbol;
      window_seconds = some window;
      target_epoch_ms = some t.target_ms;
      candle_open_epoch_ms = some c.open_ms;
      candle_close_epoch_ms = some (c.open_ms + candle_interval_ms);
      candle_interval = some candle_interval_ms;
      target_offset_ms = some (t.target_ms - c.open_ms);
      price = some c.close;
      observed_at = observed;
    }

    -- The candle is provisional until its interval has closed.
    abbrev pub matured_evidence : ℕ → Target → Ohlcv W → Option ℕ → Option (Evidence W)
    matured_evidence window t c none = none
    matured_evidence window t c (some o) =
        if ltb (epoch_ms o) (c.open_ms + candle_interval_ms)
        then none
        else some (evidence window (aware o) t c)

    abbrev pub selected_evidence : ℕ → Moment → Target → Option (Ohlcv W) → Option (Evidence W)
    selected_evidence window observed t none = none
    selected_evidence window observed t (some c) = matured_evidence window t c (parse_utc observed)

    abbrev pub targeted_evidence :
        List (Option (Ohlcv W)) → ℕ → Moment → Option Target → Option (Evidence W)
    targeted_evidence candles window observed none = none
    targeted_evidence candles window observed (some t) =
        selected_evidence window observed t (select_containing_candle w t.target_ms candles)

    -- `price_evidence_from_candles`; without `observed_at` it is what the clock says.
    unfoldable pub price_evidence_from_candles :
        List (Option (Ohlcv W))
        → Option String
        → Option String
        → Moment
        → ℕ
        → Moment
        → Option (Evidence W)
    unfolding normalize_symbol normalize_exchange target_epoch_ms select_containing_candle
    price_evidence_from_candles candles exchange symbol ts window observed =
        targeted_evidence candles window observed (target_for exchange symbol ts window)

    -- `fetch_historical_price_evidence`, with the exchange's answer and the clock's: no candles
    -- when the request raises.
    unfoldable pub fetch_historical_price_evidence :
        Option (List (Option (Ohlcv W)))
        → ℕ
        → Option String
        → Option String
        → Moment
        → ℕ
        → Option (Evidence W)
    unfolding price_evidence_from_candles
    fetch_historical_price_evidence answer now exchange symbol ts window =
        fetched answer (target_for exchange symbol ts window)
      where
        fetched : Option (List (Option (Ohlcv W))) → Option Target → Option (Evidence W)
        fetched none t = none
        fetched (some cs) none = none
        fetched (some cs) (some t) =
            price_evidence_from_candles cs (some t.source) (some t.symbol) ts window (aware now)

    -- The numbers of an evidence that is read back, when all of them read.
    pub record Numbers : Type 0 where
      pub window : ℕ
      pub target : ℕ
      pub opens : ℕ
      pub closes : ℕ
      pub interval : ℕ
      pub price : W

    abbrev pub numbers :
        Option ℕ → Option ℕ → Option ℕ → Option ℕ → Option ℕ → Option W → Option Numbers
    numbers (some a) (some t) (some o) (some c) (some i) (some p) =
        some (record { window = a; target = t; opens = o; closes = c; interval = i; price = p })
    numbers _ _ _ _ _ _ = none

    abbrev pub numbers_of : Evidence W → Option Numbers
    numbers_of e =
        numbers e.window_seconds e.target_epoch_ms e.candle_open_epoch_ms e.candle_close_epoch_ms
          e.candle_interval e.price

    abbrev pub numbers_agree : ℕ → ℕ → Numbers → Bool
    numbers_agree window target n =
        ((n.window == window) && (n.target == target))
        && ((n.interval == candle_interval_ms)
            && ((n.closes == n.opens + n.interval)
                && ((leb n.opens target && ltb target n.closes) && is_price w n.price)))

    abbrev pub is_observed_after : ℕ → Option ℕ → Bool
    is_observed_after closes none = false
    is_observed_after closes (some o) = leb closes (epoch_ms o)

    abbrev pub matured_numbers : ℕ → ℕ → Option Numbers → Option ℕ → Bool
    matured_numbers window target none observed = false
    matured_numbers window target (some n) observed =
        numbers_agree window target n && is_observed_after n.closes observed

    abbrev pub validate_numbers : ℕ → ℕ → Moment → Option Numbers → Bool
    validate_numbers window target observed n = matured_numbers window target n (parse_utc observed)

    abbrev pub validate_for : Evidence W → ℕ → Option Target → Bool
    validate_for e window none = false
    validate_for e window (some t) =
        (is_text e.source t.source && is_text e.symbol t.symbol)
        && validate_numbers window t.target_ms e.observed_at (numbers_of e)

    -- `validate_price_evidence`
    unfoldable pub validate_price_evidence :
        Option (Evidence W) → Option String → Option String → Moment → ℕ → Bool
    unfolding normalize_symbol normalize_exchange target_epoch_ms
    validate_price_evidence none exchange symbol ts window = false
    validate_price_evidence (some e) exchange symbol ts window =
        is_text e.version "historical-price-evidence-v1"
        && validate_for e window (target_for exchange symbol ts window)

-- `"WIN"` and `"LOSS"`
pub data SettledOutcome : Type 0 where
  win loss : SettledOutcome

-- The upper-case text of a prediction, as far as the code tells it apart.
pub data Direction : Type 0 where
  long short other_direction : Direction

module _ {W : Type 0} (w : Prices W) where
  abbrev pub win_if : Bool → SettledOutcome
  win_if true = win
  win_if false = loss

  abbrev pub outcome_of : Direction → W → W → Option SettledOutcome
  outcome_of long origin later = some (win_if (w.lt origin later))
  outcome_of short origin later = some (win_if (w.lt later origin))
  outcome_of other_direction origin later = none

  -- `directional_outcome`, with what `float` makes of the prices.
  unfoldable pub directional_outcome : Direction → Option W → Option W → Option SettledOutcome
  directional_outcome d (some origin) (some later) =
      if is_price w origin && is_price w later then outcome_of d origin later else none
  directional_outcome d _ _ = none
