-- ===== src/Backend/Settlement/Qualified.antt =====
-- What a row that passes the proof gate has shown, and the counts of the score.
use sene_x.Common.{
  ℕ, ◌+◌, ◌≤◌, ◌<◌, String, ◌≡◌, refl, sym, inl, inr, true, &&_iff, List, [], ◌∷◌, length, Option,
  none, some, is_some, Bool-cases, Option-cases, arith,
}
use sene_x.Backend.Settlement.Contract.{
  Prices, parse_utc, after_seconds, window_15m_s, window_1h_s, Evidence, normalize_exchange,
  normalize_symbol, validate_price_evidence, SettledOutcome, win, loss, directional_outcome,
}
use sene_x.Backend.Settlement.Causal.{validate_price_evidence-after_target}
use sene_x.Backend.Settlement.Proof.{
  OriginProof, Dual, Field, missing, not_object, object, Row, same_outcome, price_matches,
  is_expected, evidence_price, prices_pass, source_passes, times_pass, proofs_pass,
  is_proof_qualified, filter_proof_qualified, count_outcome, score_qualified_rows,
}

module _ (epoch_ms : ℕ → ℕ) {W : Type 0} (w : Prices W) where
  -- What the proofs of a row show of one of its windows: the outcome stored for the window is that
  -- of LONG or SHORT against the origin price and the price stored for the window; that price is
  -- close to the one of the window's evidence; and the evidence was observed after the row's time
  -- and the window together.
  pub record Shown (r : Row W) (origin : W) (window : ℕ) (stored : Option SettledOutcome)
      (price : Option W) (proof : Option (Evidence W)) : Type 0 where
    pub later : W
    pub evidence : Evidence W
    pub seen_price : W
    pub row_time : ℕ
    pub seen : ℕ
    pub outcome : SettledOutcome
    pub price_is : price ≡ some later
    pub proof_is : proof ≡ some evidence
    pub seen_price_is : evidence.price ≡ some seen_price
    pub outcome_is : stored ≡ some outcome
    pub expected : directional_outcome w r.prediction (some origin) (some later) ≡ some outcome
    pub close : w.is_close later seen_price ≡ true
    pub reads : parse_utc r.ts ≡ some row_time
    pub observed : parse_utc evidence.observed_at ≡ some seen
    pub after : after_seconds row_time window < seen

  -- The origin price is that of the row's own origin proof, both windows of its own dual outcome
  -- are shown against it, and the row's outcome is the one stored for the hour.
  pub record Earned (r : Row W) : Type 0 where
    pub proof : OriginProof W
    pub dual : Dual W
    pub origin : W
    pub proof_is : r.origin_price_v1 ≡ object proof
    pub dual_is : r.outcomes_dual ≡ object dual
    pub origin_is : proof.price ≡ some origin
    pub settled : r.outcome ≡ dual.outcome_1h
    pub quarter :
        Shown r origin window_15m_s dual.outcome_15m dual.price_15m_later dual.evidence_15m
    pub hour : Shown r origin window_1h_s dual.outcome_1h dual.price_1h_later dual.evidence_1h

  same_outcome-eq : (a b : Option SettledOutcome) → same_outcome a b ≡ true → a ≡ b
  same_outcome-eq (some win) (some win) h = refl
  same_outcome-eq (some loss) (some loss) h = refl
  same_outcome-eq none none h = refl
  same_outcome-eq (some win) (some loss) h = cc
  same_outcome-eq (some loss) (some win) h = cc
  same_outcome-eq (some win) none h = cc
  same_outcome-eq (some loss) none h = cc
  same_outcome-eq none (some x) h = cc

  -- One window of a row that passes.
  window-Shown :
      (r : Row W) (origin : W) (window : ℕ) (stored : Option SettledOutcome) (price : Option W)
      (proof : Option (Evidence W)) (source symbol : String)
      → ((x y : ℕ) → x ≤ y → epoch_ms x ≤ epoch_ms y)
      → validate_price_evidence epoch_ms w proof (some source) (some symbol) r.ts window ≡ true
      → price_matches w price (evidence_price epoch_ms w proof) ≡ true
      → is_expected epoch_ms w r.prediction origin price stored ≡ true
      → Shown r origin window stored price proof
  window-Shown r origin window stored price none source symbol mono valid matches expected =
      absurd (ground (arith, valid))
  window-Shown r origin window stored none (some v) source symbol mono valid matches expected =
      absurd (ground (arith, matches))
  window-Shown r origin window stored (some l) (some v) source symbol mono valid matches expected =
      priced v.price refl matches
    where
      priced :
          (p : Option W)
          → v.price ≡ p
          → price_matches w (some l) p ≡ true
          → Shown r origin window stored (some l) (some v)
      priced none is close = absurd (ground (arith, close))
      priced (some p) is close =
          let (t, seen, reads, observed, after) =
            validate_price_evidence-after_target w epoch_ms v (some source) (some symbol) r.ts
              window mono valid in
          elim (Option-cases (directional_outcome w r.prediction (some origin) (some l))) [
            | inl no_outcome ↦ absurd (ground (arith, rw no_outcome at expected))
            | inr (o, outcome) ↦ record {
              later = l;
              evidence = v;
              seen_price = p;
              row_time = t;
              seen = seen;
              outcome = o;
              price_is = refl;
              proof_is = refl;
              seen_price_is = is;
              outcome_is = same_outcome-eq stored (some o) (rw outcome at expected);
              expected = outcome;
              close = close;
              reads = reads;
              observed = observed;
              after = after;
            }
          ]

  prices_pass-Earned :
      (r : Row W) (o : OriginProof W) (d : Dual W) (t : ℕ) (source symbol : String)
      (a b c e : Option W)
      → ((x y : ℕ) → x ≤ y → epoch_ms x ≤ epoch_ms y)
      → r.origin_price_v1 ≡ object o
      → r.outcomes_dual ≡ object d
      → o.price ≡ a
      → prices_pass epoch_ms w r d t source symbol a b c e ≡ true
      → Earned r
  prices_pass-Earned r o d t source symbol (some x) (some y) (some p) (some q) mono o_is d_is price
        h =
      let (priced, checks) = (&&_iff _ _).0 h in
      let (stored, settled) = (&&_iff _ _).0 checks in
      let (dual, proven) = (&&_iff _ _).0 stored in
      let (timely, outcomes) = (&&_iff _ _).0 settled in
      let (valid, matching) = (&&_iff _ _).0 proven in
      let own = ((&&_iff _ _).0 ((&&_iff _ _).0 dual).1).1 in
      record {
        proof = o;
        dual = d;
        origin = x;
        proof_is = o_is;
        dual_is = d_is;
        origin_is = price;
        settled = sym (same_outcome-eq d.outcome_1h r.outcome own);
        quarter =
            window-Shown r x window_15m_s d.outcome_15m d.price_15m_later d.evidence_15m source
              symbol mono ((&&_iff _ _).0 valid).0 ((&&_iff _ _).0 matching).0
              ((&&_iff _ _).0 outcomes).0;
        hour =
            window-Shown r x window_1h_s d.outcome_1h d.price_1h_later d.evidence_1h source symbol
              mono ((&&_iff _ _).0 valid).1 ((&&_iff _ _).0 matching).1 ((&&_iff _ _).0 outcomes).1;
      }
  prices_pass-Earned r o d t source symbol none b c e mono o_is d_is price h =
      absurd (ground (arith, h))
  prices_pass-Earned r o d t source symbol (some x) none c e mono o_is d_is price h =
      absurd (ground (arith, h))
  prices_pass-Earned r o d t source symbol (some x) (some y) none e mono o_is d_is price h =
      absurd (ground (arith, h))
  prices_pass-Earned r o d t source symbol (some x) (some y) (some p) none mono o_is d_is price h =
      absurd (ground (arith, h))

  -- A row that passes `is_proof_qualified` has earned its outcome, when milliseconds do not go
  -- down as time goes up. Its outcome is the one stored for the hour in its dual outcome. For 15
  -- minutes and for the hour, the stored outcome is what LONG or SHORT makes of the price of the
  -- row's origin proof and the stored price; the stored price is close to that of the stored
  -- evidence; and the evidence was observed after the row's time and the window together.
  pub is_proof_qualified-Earned :
      (r : Row W)
      → ((x y : ℕ) → x ≤ y → epoch_ms x ≤ epoch_ms y)
      → is_proof_qualified epoch_ms w r ≡ true
      → Earned r
  unfolding is_proof_qualified
  is_proof_qualified-Earned r mono h =
      proofs r.origin_price_v1 r.outcomes_dual refl refl ((&&_iff _ _).0 h).1
    where
      sourced :
          (o : OriginProof W) (d : Dual W) (t : ℕ) (s : Option String)
          → r.origin_price_v1 ≡ object o
          → r.outcomes_dual ≡ object d
          → source_passes epoch_ms w r o d t s ≡ true
          → Earned r
      sourced o d t none o_is d_is k = absurd (ground (arith, k))
      sourced o d t (some s) o_is d_is k =
          prices_pass-Earned r o d t s (normalize_symbol r.symbol) o.price r.price_now
            d.price_15m_later d.price_1h_later mono o_is d_is refl
            ((&&_iff _ _).0 ((&&_iff _ _).0 k).1).1

      timed :
          (o : OriginProof W) (d : Dual W) (a b : Option ℕ)
          → r.origin_price_v1 ≡ object o
          → r.outcomes_dual ≡ object d
          → times_pass epoch_ms w r o d a b ≡ true
          → Earned r
      timed o d none b o_is d_is k = absurd (ground (arith, k))
      timed o d (some a) none o_is d_is k = absurd (ground (arith, k))
      timed o d (some a) (some b) o_is d_is k =
          sourced o d b (normalize_exchange r.exchange_used) o_is d_is ((&&_iff _ _).0 k).1

      proofs :
          (o : Field (OriginProof W)) (d : Field (Dual W))
          → r.origin_price_v1 ≡ o
          → r.outcomes_dual ≡ d
          → proofs_pass epoch_ms w r o d ≡ true
          → Earned r
      proofs missing d o_is d_is k = absurd (ground (arith, k))
      proofs not_object d o_is d_is k = absurd (ground (arith, k))
      proofs (object o) missing o_is d_is k = absurd (ground (arith, k))
      proofs (object o) not_object o_is d_is k = absurd (ground (arith, k))
      proofs (object o) (object d) o_is d_is k =
          timed o d (parse_utc o.timestamp) (parse_utc r.ts) o_is d_is ((&&_iff _ _).0 k).1

  count-split :
      (rs : List (Row W))
      → let qualified = filter_proof_qualified epoch_ms w rs in
        length qualified
        ≡ count_outcome epoch_ms w win qualified + count_outcome epoch_ms w loss qualified
  unfolding filter_proof_qualified is_proof_qualified count_outcome
  count-split [] = omega arith
  count-split (r ∷ rs) = elim (Bool-cases (is_proof_qualified epoch_ms w r)) [
    | inr refused ↦ rw refused (count-split rs)
    | inl passed ↦
        let settled : is_some r.outcome ≡ true = ((&&_iff _ _).0 ((&&_iff _ _).0 passed).0).0 in
        rw passed (ground (arith, settled, count-split rs))
  ]

  -- Every row of the authoritative score is a win or a loss, and counted once.
  pub score_qualified_rows-adds :
      (rs : List (Row W))
      → let score = score_qualified_rows epoch_ms w rs in
        (score.verified ≡ length score.rows) × (score.verified ≡ score.wins + score.losses)
  unfolding score_qualified_rows
  score_qualified_rows-adds rs = (refl, count-split rs)
