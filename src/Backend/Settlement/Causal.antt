-- ===== src/Backend/Settlement/Causal.antt =====
-- Price evidence that is built validates, and evidence that validates looks at no price before its
-- candle is complete.
use sene_x.Common.{
  ℕ, ◌+◌, ◌≤◌, ◌<◌, String, ◌≡◌, refl, inl, inr, Bool, true, false, ◌&&◌, ◌==◌, ◌||◌, if◌then◌else◌,
  ==_iff, ltb, leb, List, [], ◌∷◌, All, Option, none, some, Bool-cases, arith,
}
use sene_x.Common.Text.{eq_refl}
use sene_x.Backend.Settlement.Contract.{
  Prices, Moment, parse_utc, aware, candle_interval_ms, after_seconds, Ohlcv, Evidence, Target,
  is_text, is_price, containing, latest, latest_of, select_containing_candle, target_for, target_of,
  target_epoch_ms, known_target, normalize_exchange, normalize_symbol, evidence, matured_evidence,
  selected_evidence, targeted_evidence, price_evidence_from_candles, Numbers, numbers_of,
  matured_numbers, validate_for, validate_price_evidence,
}

module _ {W : Type 0} (w : Prices W) where
  -- A candle whose close is a price and whose minute holds the target.
  pub record Contains (target : ℕ) (c : Ohlcv W) : Type 0 where
    pub price : is_price w c.close ≡ true
    pub from_open : c.open_ms ≤ target
    pub to_close : target < c.open_ms + candle_interval_ms

  containing-All :
      (target : ℕ) (cs : List (Option (Ohlcv W))) → All (Contains target) (containing w target cs)
  unfolding containing
  containing-All target [] = tt
  containing-All target (none ∷ cs) = containing-All target cs
  containing-All target (some c ∷ cs) =
      elim (Bool-cases (
        is_price w c.close
        && (leb c.open_ms target && ltb target (c.open_ms + candle_interval_ms)))) [
          | inl good ↦ rw good (
            record {
              price = ground (arith, good);
              from_open = ground (arith, good);
              to_close = ground (arith, good);
            },
            containing-All target cs,
          )
          | inr bad ↦ rw bad (containing-All target cs)
        ]

  latest-Contains :
      (target : ℕ) (c : Ohlcv W) (cs : List (Ohlcv W))
      → Contains target c
      → All (Contains target) cs
      → Contains target (latest w c cs)
  unfolding latest
  latest-Contains target c [] k all = k
  latest-Contains target c (d ∷ ds) k (first, rest) = elim (Bool-cases (ltb c.open_ms d.open_ms)) [
    | inl newer ↦ rw newer (latest-Contains target d ds first rest)
    | inr older ↦ rw older (latest-Contains target c ds k rest)
  ]

  select-Contains :
      (target : ℕ) (cs : List (Option (Ohlcv W))) (c : Ohlcv W)
      → select_containing_candle w target cs ≡ some c
      → Contains target c
  unfolding select_containing_candle
  select-Contains target cs c h = from (containing w target cs) (containing-All target cs) h
    where
      from :
          (ds : List (Ohlcv W))
          → All (Contains target) ds
          → latest_of w ds ≡ some c
          → Contains target c
      from [] all h = cc
      from (d ∷ ds) (first, rest) h =
          let is : latest w d ds ≡ c = ground (arith, h) in
          rw (← is) (latest-Contains target d ds first rest)

module _ {W : Type 0} (w : Prices W) (epoch_ms : ℕ → ℕ) where
  -- Evidence of a candle that holds the target validates against that target.
  validate-evidence :
      (window o : ℕ) (t : Target) (c : Ohlcv W)
      → Contains w t.target_ms c
      → c.open_ms + candle_interval_ms ≤ epoch_ms o
      → validate_for epoch_ms w (evidence epoch_ms w window (aware o) t c) window (some t) ≡ true
  validate-evidence window o t c k late = ground (
    arith,
    eq_refl t.source,
    eq_refl t.symbol,
    ==_iff window window,
    ==_iff t.target_ms t.target_ms,
    k.price,
    k.from_open,
    k.to_close,
    ==_iff (c.open_ms + candle_interval_ms) (c.open_ms + candle_interval_ms),
  )

  -- What evidence has been built from.
  pub record Built (exchange symbol : Option String) (ts : Moment) (window : ℕ) (observed : Moment)
      (e : Evidence W) : Type 0 where
    pub target : Target
    pub candle : Ohlcv W
    pub seen : ℕ
    pub targets : target_for epoch_ms exchange symbol ts window ≡ some target
    pub contains : Contains w target.target_ms candle
    pub reads : parse_utc observed ≡ some seen
    pub matured : candle.open_ms + candle_interval_ms ≤ epoch_ms seen
    pub is : evidence epoch_ms w window (aware seen) target candle ≡ e

  pub price_evidence_from_candles-Built :
      (candles : List (Option (Ohlcv W))) (exchange symbol : Option String) (ts : Moment)
      (window : ℕ) (observed : Moment) (e : Evidence W)
      → price_evidence_from_candles epoch_ms w candles exchange symbol ts window observed ≡ some e
      → Built exchange symbol ts window observed e
  unfolding price_evidence_from_candles
  price_evidence_from_candles-Built candles exchange symbol ts window observed e h =
      with_target (target_for epoch_ms exchange symbol ts window) refl h
    where
      matured_by :
          (t : Target) (c : Ohlcv W)
          → target_for epoch_ms exchange symbol ts window ≡ some t
          → Contains w t.target_ms c
          → (o : Option ℕ) → parse_utc observed ≡ o
          → matured_evidence epoch_ms w window t c o ≡ some e
          → Built exchange symbol ts window observed e
      matured_by t c targets k none reads h = cc
      matured_by t c targets k (some o) reads h =
          elim (Bool-cases (ltb (epoch_ms o) (c.open_ms + candle_interval_ms))) [
            | inl early ↦ absurd (ground (arith, rw early at h))
            | inr late ↦ record {
              target = t;
              candle = c;
              seen = o;
              targets = targets;
              contains = k;
              reads = reads;
              matured = ground (arith, late);
              is = ground (arith, rw late at h);
            }
          ]

      selected :
          (t : Target) (c : Option (Ohlcv W))
          → target_for epoch_ms exchange symbol ts window ≡ some t
          → select_containing_candle w t.target_ms candles ≡ c
          → selected_evidence epoch_ms w window observed t c ≡ some e
          → Built exchange symbol ts window observed e
      selected t none targets is h = cc
      selected t (some c) targets is h =
          matured_by t c targets (select-Contains w t.target_ms candles c is) (parse_utc observed)
            refl h

      with_target :
          (t : Option Target)
          → target_for epoch_ms exchange symbol ts window ≡ t
          → targeted_evidence epoch_ms w candles window observed t ≡ some e
          → Built exchange symbol ts window observed e
      with_target none is h = cc
      with_target (some t) is h =
          selected t (select_containing_candle w t.target_ms candles) is refl h

  -- Evidence that `price_evidence_from_candles` builds, `validate_price_evidence` accepts under the
  -- same exchange, symbol, timestamp and window.
  pub validate-price_evidence_from_candles :
      (candles : List (Option (Ohlcv W))) (exchange symbol : Option String) (ts : Moment)
      (window : ℕ) (observed : Moment) (e : Evidence W)
      → price_evidence_from_candles epoch_ms w candles exchange symbol ts window observed ≡ some e
      → validate_price_evidence epoch_ms w (some e) exchange symbol ts window ≡ true
  unfolding validate_price_evidence
  validate-price_evidence_from_candles candles exchange symbol ts window observed e h =
      let b = price_evidence_from_candles-Built candles exchange symbol ts window observed e h in
      rw (← b.is, b.targets)
        (validate-evidence window b.seen b.target b.candle b.contains b.matured)

  pub target_for-ms :
      (exchange symbol : Option String) (ts : Moment) (window : ℕ) (t : Target)
      → target_for epoch_ms exchange symbol ts window ≡ some t
      → (origin : ℕ) × (parse_utc ts ≡ some origin)
        × (epoch_ms (after_seconds origin window) ≡ t.target_ms)
  unfolding target_epoch_ms
  target_for-ms exchange symbol ts window t h =
      from (normalize_exchange exchange) (normalize_symbol symbol) (parse_utc ts)
        ((window == 900) || (window == 3600)) refl h
    where
      from :
          (x : Option String) (s : String) (o : Option ℕ) (known : Bool)
          → parse_utc ts ≡ o
          → known_target epoch_ms x s (if known then target_of epoch_ms window o else none) ≡ some t
          → (origin : ℕ) × (parse_utc ts ≡ some origin)
            × (epoch_ms (after_seconds origin window) ≡ t.target_ms)
      from none s o known is h = cc
      from (some x) s o false is h = cc
      from (some x) s none true is h = cc
      from (some x) s (some o) true is h = (o, is, ground (arith, h))

  -- Price evidence that validates was observed after its target: after the row's time and the
  -- window together, when `int(t.timestamp() * 1000)` does not go down as `t` goes up.
  pub validate_price_evidence-after_target :
      (e : Evidence W) (exchange symbol : Option String) (ts : Moment) (window : ℕ)
      → ((a b : ℕ) → a ≤ b → epoch_ms a ≤ epoch_ms b)
      → validate_price_evidence epoch_ms w (some e) exchange symbol ts window ≡ true
      → (origin seen : ℕ) × (parse_utc ts ≡ some origin)
        × (parse_utc e.observed_at ≡ some seen)
        × (after_seconds origin window < seen)
  unfolding validate_price_evidence
  validate_price_evidence-after_target e exchange symbol ts window mono h =
      with_target (target_for epoch_ms exchange symbol ts window) refl h
    where
      After : Type 0
      After =
          (origin seen : ℕ) × (parse_utc ts ≡ some origin)
          × (parse_utc e.observed_at ≡ some seen)
          × (after_seconds origin window < seen)

      with_numbers :
          (t : Target)
          → target_for epoch_ms exchange symbol ts window ≡ some t
          → (n : Option (Numbers epoch_ms w)) (o : Option ℕ) → parse_utc e.observed_at ≡ o
          → matured_numbers epoch_ms w window t.target_ms n o ≡ true
          → After
      with_numbers t is none o seen good = absurd (ground (arith, good))
      with_numbers t is (some n) none seen good = absurd (ground (arith, good))
      with_numbers t is (some n) (some o) seen good =
          let (origin, reads, ms) = target_for-ms exchange symbol ts window t is in
          let late : t.target_ms < epoch_ms o = ground (arith, good) in
          (origin, o, reads, seen, ground (arith, late, ms, mono o (after_seconds origin window)))

      with_target :
          (t : Option Target)
          → target_for epoch_ms exchange symbol ts window ≡ t
          → (is_text e.version "historical-price-evidence-v1" && validate_for epoch_ms w e window t)
            ≡ true
          → After
      with_target none is good = absurd (ground (arith, good))
      with_target (some t) is good =
          with_numbers t is (numbers_of epoch_ms w e) (parse_utc e.observed_at) refl
            (ground (arith, good))
