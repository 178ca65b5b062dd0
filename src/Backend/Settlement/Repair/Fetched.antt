-- ===== src/Backend/Settlement/Repair/Fetched.antt =====
-- What `fetch_historical_price_evidence` returns for names that are normalized.
use sene_x.Common.{
  ℕ, String, ◌≡◌, refl, inl, inr, true, false, if◌then◌else◌, List, Option, none, some, Bool-cases,
  Option-cases, arith,
}
use sene_x.Common.Text.{text_eq, eq_iff, mem_text, strip}
use sene_x.Common.Text.Case.{lower}
use sene_x.Backend.Settlement.Contract.{
  Prices, Moment, aware, text_or_empty, allowed_public_exchanges, Ohlcv, Evidence, Target,
  target_for, known_target, target_epoch_ms, normalize_exchange, normalize_symbol,
  fetch_historical_price_evidence, validate_price_evidence,
}
use sene_x.Backend.Settlement.Causal.{
  Built, price_evidence_from_candles-Built, validate-price_evidence_from_candles,
}

module _ (epoch_ms : ℕ → ℕ) {W : Type 0} (w : Prices W) where
  pub normalize_exchange-again :
      (x : Option String) (s : String)
      → normalize_exchange x ≡ some s
      → normalize_exchange (some s) ≡ some s
  unfolding normalize_exchange
  normalize_exchange-again x s h = from (lower (strip (text_or_empty x))) h
    where
      five :
          (t : String)
          → mem_text t allowed_public_exchanges ≡ true
          → normalize_exchange (some t) ≡ some t
      five t m = elim (Bool-cases (text_eq "okx" t)) [
        | inl is ↦ rw (← (eq_iff "okx" t).0 is) refl
        | inr n1 ↦ elim (Bool-cases (text_eq "kraken" t)) [
          | inl is ↦ rw (← (eq_iff "kraken" t).0 is) refl
          | inr n2 ↦ elim (Bool-cases (text_eq "gate" t)) [
            | inl is ↦ rw (← (eq_iff "gate" t).0 is) refl
            | inr n3 ↦ elim (Bool-cases (text_eq "mexc" t)) [
              | inl is ↦ rw (← (eq_iff "mexc" t).0 is) refl
              | inr n4 ↦ elim (Bool-cases (text_eq "bitget" t)) [
                | inl is ↦ rw (← (eq_iff "bitget" t).0 is) refl
                | inr n5 ↦ absurd (ground (arith, m, n1, n2, n3, n4, n5))
              ]
            ]
          ]
        ]
      ]

      from :
          (t : String)
          → (if mem_text t allowed_public_exchanges then some t else none) ≡ some s
          → normalize_exchange (some s) ≡ some s
      from t k = elim (Bool-cases (mem_text t allowed_public_exchanges)) [
        | inl listed ↦
            let same : t ≡ s = ground (arith, rw listed at k) in rw (← same) (five t listed)
        | inr unlisted ↦ absurd (ground (arith, rw unlisted at k))
      ]

  -- The names of a target.
  pub target_for-names :
      (source symbol : String) (ts : Moment) (window : ℕ) (t : Target)
      → normalize_exchange (some source) ≡ some source
      → normalize_symbol (some symbol) ≡ symbol
      → target_for epoch_ms (some source) (some symbol) ts window ≡ some t
      → (t.source ≡ source)
        × (t.symbol ≡ symbol)
        × (target_epoch_ms epoch_ms ts window ≡ some t.target_ms)
        × (text_eq symbol "" ≡ false)
  target_for-names source symbol ts window t known canonical h =
      from (target_epoch_ms epoch_ms ts window) refl (rw (known, canonical) at h)
    where
      from :
          (m : Option ℕ)
          → target_epoch_ms epoch_ms ts window ≡ m
          → known_target epoch_ms (some source) symbol m ≡ some t
          → (t.source ≡ source)
            × (t.symbol ≡ symbol)
            × (target_epoch_ms epoch_ms ts window ≡ some t.target_ms)
            × (text_eq symbol "" ≡ false)
      from none is k = cc
      from (some m) is k = elim (Bool-cases (text_eq symbol "")) [
        | inl blank ↦ absurd (ground (arith, rw blank at k))
        | inr named ↦
            let same : record { source = source; symbol = symbol; target_ms = m } ≡ t =
              ground (arith, rw named at k) in
            rw (← same) (refl, refl, is, named)
      ]

  pub fetched-Built :
      (answer : Option (List (Option (Ohlcv W)))) (at : ℕ) (source symbol : String) (ts : Moment)
      (window : ℕ) (e : Evidence W)
      → normalize_exchange (some source) ≡ some source
      → normalize_symbol (some symbol) ≡ symbol
      → fetch_historical_price_evidence epoch_ms w answer at (some source) (some symbol) ts window
        ≡ some e
      → Built w epoch_ms (some source) (some symbol) ts window (aware at) e
        × (validate_price_evidence epoch_ms w (some e) (some source) (some symbol) ts window ≡ true)
  unfolding fetch_historical_price_evidence
  fetched-Built none at source symbol ts window e known canonical h = cc
  fetched-Built (some cs) at source symbol ts window e known canonical h =
      elim (Option-cases (target_for epoch_ms (some source) (some symbol) ts window)) [
        | inl lost ↦ absurd (ground (arith, rw lost at h))
        | inr (t, targets) ↦
            let (src, sym_is, ms, named) =
              target_for-names source symbol ts window t known canonical targets in
            let built = rw (src, sym_is) at (rw targets at h) in
            (
              price_evidence_from_candles-Built w epoch_ms cs (some source) (some symbol) ts window
                  (aware at) e built,
              validate-price_evidence_from_candles w epoch_ms cs (some source) (some symbol) ts
                  window (aware at) e built,
            )
      ]
