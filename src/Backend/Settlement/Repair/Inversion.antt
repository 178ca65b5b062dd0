-- ===== src/Backend/Settlement/Repair/Inversion.antt =====
-- What has held when `_repair_row` has patched a row.
use sene_x.Common.{
  ℕ, String, ◌≡◌, refl, sym, ap, ◌∙◌, inl, inr, Bool, true, ◌&&◌, Option, none, some, is_some,
  Bool-cases, Option-cases, arith,
}
use sene_x.Backend.Settlement.Contract.{
  Prices, parse_utc, window_15m_s, window_1h_s, Evidence, is_text, normalize_exchange,
  normalize_symbol, fetch_historical_price_evidence, SettledOutcome, directional_outcome,
}
use sene_x.Backend.Settlement.Proof.{
  OriginProof, Dual, Field, missing, not_object, object, Row, same_outcome, is_directed, same_ms,
}
use sene_x.Backend.Settlement.Repair.{
  repaired, PatchReply, row_patched, row_refused, patch_raises, Answer, dual_of, patch,
  repair_outcomes, repair_from, repair_audit, repair_price, repair_row,
}

module _ (epoch_ms : ℕ → ℕ) {W : Type 0} (w : Prices W) where
  -- What has to hold for a row to be patched.
  pub record Patched (r r' : Row W) (o : OriginProof W) (a15 a1h : Answer W) (now : ℕ)
      : Type 0 where
    pub origin : W
    pub source : String
    pub e15 : Evidence W
    pub e1h : Evidence W
    pub o15 : SettledOutcome
    pub o1h : SettledOutcome
    pub settled : is_some r.outcome ≡ true
    pub directed : is_directed r.prediction ≡ true
    pub price : r.price_now ≡ some origin
    pub from : normalize_exchange r.exchange_used ≡ some source
    pub version : is_text o.version "origin-price-v1" ≡ true
    pub same_source : is_text (normalize_exchange o.source) source ≡ true
    pub same_time : same_ms (parse_utc o.timestamp) (parse_utc r.ts) ≡ true
    pub got15 :
        fetch_historical_price_evidence epoch_ms w a15.candles a15.at
          (some source)
          (some (normalize_symbol r.symbol))
          r.ts
          window_15m_s
        ≡ some e15
    pub got1h :
        fetch_historical_price_evidence epoch_ms w a1h.candles a1h.at
          (some source)
          (some (normalize_symbol r.symbol))
          r.ts
          window_1h_s
        ≡ some e1h
    pub outcome15 : directional_outcome w r.prediction (some origin) e15.price ≡ some o15
    pub outcome1h : directional_outcome w r.prediction (some origin) e1h.price ≡ some o1h
    pub agrees : same_outcome r.outcome (some o1h) ≡ true
    pub is : record r { outcomes_dual = object (dual_of epoch_ms w e15 e1h o15 o1h now) } ≡ r'

  repair_outcomes-repaired :
      (r r' : Row W) (e15 e1h : Evidence W) (x15 x1h : Option SettledOutcome) (now : ℕ)
      (patched : PatchReply)
      → repair_outcomes epoch_ms w r e15 e1h x15 x1h now patched ≡ (repaired, some r')
      → (o15 o1h : SettledOutcome) × (x15 ≡ some o15)
        × (x1h ≡ some o1h)
        × (same_outcome r.outcome (some o1h) ≡ true)
        × (record r { outcomes_dual = object (dual_of epoch_ms w e15 e1h o15 o1h now) } ≡ r')
  repair_outcomes-repaired r r' e15 e1h none x1h now patched h = absurd (ground (arith, h))
  repair_outcomes-repaired r r' e15 e1h (some o15) none now patched h = absurd (ground (arith, h))
  repair_outcomes-repaired r r' e15 e1h (some o15) (some o1h) now patched h =
      elim (Bool-cases (same_outcome r.outcome (some o1h))) [
        | inr differs ↦ absurd (ground (arith, rw differs at h))
        | inl agrees ↦ (o15, o1h, refl, refl, agrees, done patched (rw agrees at h))
      ]
    where
      done :
          (b : PatchReply)
          → patch epoch_ms w r (dual_of epoch_ms w e15 e1h o15 o1h now) b ≡ (repaired, some r')
          → record r { outcomes_dual = object (dual_of epoch_ms w e15 e1h o15 o1h now) } ≡ r'
      done row_patched k = ground (arith, k)
      done row_refused k = absurd (ground (arith, k))
      done patch_raises k = absurd (ground (arith, k))

  pub repair_row-Patched :
      (r r' : Row W) (o : OriginProof W) (a15 a1h : Answer W) (now : ℕ) (patched : PatchReply)
      → r.origin_price_v1 ≡ object o
      → repair_row epoch_ms w r a15 a1h now patched ≡ (repaired, some r')
      → Patched r r' o a15 a1h now
  unfolding repair_row
  repair_row-Patched r r' o a15 a1h now patched origin_is h =
      elim (Bool-cases (is_some r.outcome && is_directed r.prediction)) [
        | inr not_settled ↦ absurd (ground (arith, rw not_settled at h))
        | inl ready ↦
            priced r.price_now refl (rw ready at h) (ground (arith, ready)) (ground (arith, ready))
      ]
    where
      sourced :
          (origin : W) (source : String)
          → r.price_now ≡ some origin
          → normalize_exchange r.exchange_used ≡ some source
          → is_some r.outcome ≡ true
          → is_directed r.prediction ≡ true
          → repair_from epoch_ms w r origin o (some source) a15 a1h now patched
            ≡ (repaired, some r')
          → Patched r r' o a15 a1h now
      sourced origin source price from settled directed k = elim (Bool-cases guard) [
        | inr refused ↦ absurd (ground (arith, rw refused at k))
        | inl passed ↦ elim (Option-cases fetched15) [
          | inl none15 ↦ absurd (ground (arith, rw (passed, none15) at k))
          | inr (e15, got15) ↦ elim (Option-cases fetched1h) [
            | inl none1h ↦ absurd (ground (arith, rw (passed, got15, none1h) at k))
            | inr (e1h, got1h) ↦
                let (o15, o1h, outcome15, outcome1h, agrees, is) =
                  repair_outcomes-repaired r r' e15 e1h _ _ now patched
                    (rw (passed, got15, got1h) at k) in
                record {
                  origin = origin;
                  source = source;
                  e15 = e15;
                  e1h = e1h;
                  o15 = o15;
                  o1h = o1h;
                  settled = settled;
                  directed = directed;
                  price = price;
                  from = from;
                  version = ground (arith, passed);
                  same_source = ground (arith, passed);
                  same_time = ground (arith, passed);
                  got15 = got15;
                  got1h = got1h;
                  outcome15 = outcome15;
                  outcome1h = outcome1h;
                  agrees = agrees;
                  is = is;
                }
          ]
        ]
      ]
        where
          guard : Bool
          guard =
              is_text o.version "origin-price-v1"
              && (is_text (normalize_exchange o.source) source
                  && same_ms (parse_utc o.timestamp) (parse_utc r.ts))

          fetched15 : Option (Evidence W)
          fetched15 =
              fetch_historical_price_evidence epoch_ms w a15.candles a15.at (some source)
                (some (normalize_symbol r.symbol)) r.ts window_15m_s

          fetched1h : Option (Evidence W)
          fetched1h =
              fetch_historical_price_evidence epoch_ms w a1h.candles a1h.at (some source)
                (some (normalize_symbol r.symbol)) r.ts window_1h_s

      audited :
          (origin : W) (d : Field (Dual W)) (x : Option String)
          → r.price_now ≡ some origin
          → normalize_exchange r.exchange_used ≡ x
          → is_some r.outcome ≡ true
          → is_directed r.prediction ≡ true
          → r.outcomes_dual ≡ d
          → repair_audit epoch_ms w r origin (object o) d a15 a1h now patched ≡ (repaired, some r')
          → Patched r r' o a15 a1h now
      audited origin (object d) x price from settled directed dual k = absurd (ground (arith, k))
      audited origin not_object x price from settled directed dual k = absurd (ground (arith, k))
      audited origin missing none price from settled directed dual k =
          absurd (ground (arith, rw from at k))
      audited origin missing (some source) price from settled directed dual k =
          sourced origin source price from settled directed (rw from at k)

      priced :
          (p : Option W)
          → r.price_now ≡ p
          → repair_price epoch_ms w r p a15 a1h now patched ≡ (repaired, some r')
          → is_some r.outcome ≡ true
          → is_directed r.prediction ≡ true
          → Patched r r' o a15 a1h now
      priced none price k settled directed = absurd (ground (arith, k))
      priced (some origin) price k settled directed = elim (Bool-cases (w.le_zero origin)) [
        | inl worthless ↦ absurd (ground (arith, rw worthless at k))
        | inr positive ↦
            audited origin r.outcomes_dual (normalize_exchange r.exchange_used) price refl settled
              directed refl
              (ap (λ x. repair_audit epoch_ms w r origin x r.outcomes_dual a15 a1h now patched)
                  (sym origin_is)
                ∙ rw positive at k)
      ]
