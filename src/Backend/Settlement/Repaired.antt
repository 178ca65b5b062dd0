-- ===== src/Backend/Settlement/Repaired.antt =====
-- A repaired row passes the proof gate.
use sene_x.Common.{
  ℕ, ◌≤◌, String, ◌≡◌, refl, sym, ap, ◌∙◌, inl, inr, true, false, ◌&&◌, ◌==◌, ==_iff, Option, none,
  some, is_some, Bool-cases, arith,
}
use sene_x.Common.Text.{text_eq}
use sene_x.Backend.Settlement.Contract.{
  Prices, parse_utc, window_15m_s, window_1h_s, Evidence, is_text, is_price, normalize_exchange,
  normalize_symbol, SettledOutcome, win, loss, Direction, directional_outcome,
}
use sene_x.Backend.Settlement.Causal.{validate_price_evidence-after_target}
use sene_x.Backend.Settlement.Proof.{
  OriginProof, Dual, Field, object, Row, same_outcome, is_directed, same_ms, has_no_price,
  min_price, dual_passes, evidence_passes, outcomes_pass, is_observed, is_on_target, prices_pass,
  proofs_pass, is_proof_qualified,
}
use sene_x.Backend.Settlement.Repair.{repaired, PatchReply, Answer, dual_of, repair_row}
use sene_x.Backend.Settlement.Repair.Inversion.{repair_row-Patched}
use sene_x.Backend.Settlement.Repair.Fetched.{
  normalize_exchange-again, target_for-names, fetched-Built,
}

module _ (epoch_ms : ℕ → ℕ) {W : Type 0} (w : Prices W) where
  priced_outcome :
      (d : Direction) (origin : W) (p : Option W) (x : SettledOutcome)
      → directional_outcome w d (some origin) p ≡ some x
      → (later : W) × (p ≡ some later) × (is_price w origin ≡ true) × (is_price w later ≡ true)
  unfolding directional_outcome
  priced_outcome d origin none x h = cc
  priced_outcome d origin (some later) x h =
      elim (Bool-cases (is_price w origin && is_price w later)) [
        | inl both ↦ (later, refl, ground (arith, both), ground (arith, both))
        | inr no_price ↦ absurd (ground (arith, rw no_price at h))
      ]

  min_price-positive :
      (a b : W) → w.le_zero a ≡ false → w.le_zero b ≡ false → w.le_zero (min_price w a b) ≡ false
  min_price-positive a b ha hb = ground (arith, ha, hb)

  same_outcome_refl : (x : SettledOutcome) → same_outcome (some x) (some x) ≡ true
  same_outcome_refl win = refl
  same_outcome_refl loss = refl

  same_outcome-sym :
      (a b : Option SettledOutcome) → same_outcome a b ≡ true → same_outcome b a ≡ true
  same_outcome-sym a b h = ground (arith, h)

  same_ms-some : (a b : Option ℕ) (t : ℕ) → same_ms a b ≡ true → b ≡ some t → a ≡ some t
  same_ms-some none b t h is = absurd (ground (arith, rw is at h))
  same_ms-some (some a) b t h is =
      let equal : (a == t) ≡ true = rw is at h in ap some ((==_iff a t).0 equal)

  -- The last part of the gate, from its checks.
  prices_pass-from :
      (r : Row W) (d : Dual W) (t : ℕ) (source symbol : String) (a b c e : Option W) (x y p q : W)
      → a ≡ some x
      → b ≡ some y
      → c ≡ some p
      → e ≡ some q
      → has_no_price w x y p q ≡ false
      → w.is_close x y ≡ true
      → dual_passes epoch_ms w r d ≡ true
      → evidence_passes epoch_ms w r d source symbol ≡ true
      → is_observed epoch_ms w t d.observation ≡ true
      → is_on_target epoch_ms w r.ts d.evidence_1h ≡ true
      → outcomes_pass epoch_ms w r d x ≡ true
      → prices_pass epoch_ms w r d t source symbol a b c e ≡ true
  prices_pass-from r d t source symbol a b c e x y p q ia ib ic ie priced close dual proven observed
        target outcomes =
      rw (ia, ib, ic, ie, priced, close, dual, proven, observed, target, outcomes) refl

  -- The gate, from the checks of its parts.
  proofs_pass-from :
      (r : Row W) (o : OriginProof W) (d : Dual W) (t : ℕ) (source : String)
      → is_text o.version "origin-price-v1" ≡ true
      → parse_utc o.timestamp ≡ some t
      → parse_utc r.ts ≡ some t
      → normalize_exchange r.exchange_used ≡ some source
      → is_text (normalize_exchange o.source) source ≡ true
      → text_eq (normalize_symbol r.symbol) "" ≡ false
      → prices_pass epoch_ms w r d t source
          (normalize_symbol r.symbol)
          o.price
          r.price_now
          d.price_15m_later
          d.price_1h_later
        ≡ true
      → proofs_pass epoch_ms w r (object o) (object d) ≡ true
  proofs_pass-from r o d t source version time_o time_r exchange same_source named prices =
      let now : (t == t) ≡ true = (==_iff t t).1 refl in
      rw (version, time_o, time_r, now, exchange, same_source, named, prices) refl

  -- A row that `_repair_row` patches passes `is_proof_qualified` as it is patched. Conditions: the
  -- origin proof holds the row's own price; the row's symbol, normalized once, is normalized; the
  -- clock has not gone back between the second answer and the patch; and of the float operations,
  -- that milliseconds do not go down as time goes up, and that a finite price is close to itself.
  pub repair_row-is_proof_qualified :
      (r r' : Row W) (o : OriginProof W) (a15 a1h : Answer W) (now : ℕ) (patched : PatchReply)
      → ((a b : ℕ) → a ≤ b → epoch_ms a ≤ epoch_ms b)
      → ((x : W) → w.is_finite x ≡ true → w.is_close x x ≡ true)
      → r.origin_price_v1 ≡ object o
      → o.price ≡ r.price_now
      → normalize_symbol (some (normalize_symbol r.symbol)) ≡ normalize_symbol r.symbol
      → a1h.at ≤ now
      → repair_row epoch_ms w r a15 a1h now patched ≡ (repaired, some r')
      → is_proof_qualified epoch_ms w r' ≡ true
  unfolding is_proof_qualified
  repair_row-is_proof_qualified r r' o a15 a1h now patched mono close origin_is own canonical clock
        done =
      let f = repair_row-Patched epoch_ms w r r' o a15 a1h now patched origin_is done in
      let known = normalize_exchange-again epoch_ms w r.exchange_used f.source f.from in
      let (b15, v15) =
        fetched-Built epoch_ms w a15.candles a15.at f.source (normalize_symbol r.symbol) r.ts
          window_15m_s f.e15 known canonical f.got15 in
      let (b1h, v1h) =
        fetched-Built epoch_ms w a1h.candles a1h.at f.source (normalize_symbol r.symbol) r.ts
          window_1h_s f.e1h known canonical f.got1h in
      let (p15, price15, origin_good, good15) =
        priced_outcome r.prediction f.origin f.e15.price f.o15 f.outcome15 in
      let (p1h, price1h, origin_good', good1h) =
        priced_outcome r.prediction f.origin f.e1h.price f.o1h f.outcome1h in
      let (src, sym_is, ms, named) =
        target_for-names epoch_ms w f.source (normalize_symbol r.symbol) r.ts window_1h_s b1h.target
          known canonical b1h.targets in
      let (t, seen, reads, seen_is, after) =
        validate_price_evidence-after_target w epoch_ms f.e1h (some f.source)
          (some (normalize_symbol r.symbol)) r.ts window_1h_s mono v1h in
      let d = dual_of epoch_ms w f.e15 f.e1h f.o15 f.o1h now in
      let patched_row = record r { outcomes_dual = object d } in
      let positive : w.le_zero f.origin ≡ false = ground (arith, origin_good) in
      let finite : w.is_finite f.origin ≡ true = ground (arith, origin_good) in
      let close15 : w.is_close p15 p15 ≡ true = close p15 (ground (arith, good15)) in
      let close1h : w.is_close p1h p1h ≡ true = close p1h (ground (arith, good1h)) in
      let lowest =
        min_price-positive _ p1h
          (min_price-positive _ p15 (min_price-positive f.origin f.origin positive positive)
            (ground (arith, good15)))
          (ground (arith, good1h)) in
      let dual : dual_passes epoch_ms w patched_row d ≡ true =
        same_outcome-sym r.outcome (some f.o1h) f.agrees in
      let proven : evidence_passes epoch_ms w patched_row d f.source (normalize_symbol r.symbol)
          ≡ true =
        rw (v15, v1h, price15, close15, price1h, close1h) refl in
      let seen_at : seen ≡ a1h.at =
        ground
          (arith, seen_is, ap (λ (e : Evidence W). parse_utc e.observed_at) b1h.is, b1h.reads) in
      let observed : is_observed epoch_ms w t d.observation ≡ true =
        ground (arith, after, seen_at, clock) in
      let target : is_on_target epoch_ms w r.ts (some f.e1h) ≡ true = ground (
        arith,
        ms,
        ap (λ (e : Evidence W). e.target_epoch_ms) b1h.is,
        ==_iff b1h.target.target_ms b1h.target.target_ms,
      ) in
      let outcomes : outcomes_pass epoch_ms w patched_row d f.origin ≡ true =
        rw (f.outcome15, f.outcome1h, same_outcome_refl f.o15, same_outcome_refl f.o1h) refl in
      let prices =
        prices_pass-from patched_row d t f.source (normalize_symbol r.symbol) o.price r.price_now
          f.e15.price f.e1h.price f.origin f.origin p15 p1h (own ∙ f.price) f.price price15 price1h
          lowest (close f.origin finite) dual proven observed target outcomes in
      let proofs =
        proofs_pass-from patched_row o d t f.source f.version
          (same_ms-some (parse_utc o.timestamp) (parse_utc r.ts) t f.same_time reads) reads f.from
          f.same_source named prices in
      ap (is_proof_qualified epoch_ms w) (sym f.is)
      ∙ qualified (object d) f.settled f.directed
          (ap (λ x. proofs_pass epoch_ms w patched_row x (object d)) origin_is ∙ proofs)
    where
      qualified :
          (d : Field (Dual W))
          → is_some r.outcome ≡ true
          → is_directed r.prediction ≡ true
          → proofs_pass epoch_ms w (record r { outcomes_dual = d }) r.origin_price_v1 d ≡ true
          → is_proof_qualified epoch_ms w (record r { outcomes_dual = d }) ≡ true
      qualified d settled directed proofs = rw (settled, directed, proofs) refl
