-- ===== src/Rea/Engine/Durable/Restart.antt =====
-- A checkpoint, further calls, and a restart.
use mathlib.Core.List.{append-nil, append_assoc}
use sene_x.Common.{
  ℕ, zero, suc, ◌-◌, ◌<◌, ltb, ◌≡◌, refl, sym, subst, ap, ◌∙◌, true, false, List, [], ◌∷◌, ◌++◌,
  map, some, length, length-append, ok, >>=-eq-ok, arith,
}
use sene_x.Rea.Decimal.{Decimal, same_text}
use sene_x.Rea.Contracts.{finite, positive}
use sene_x.Rea.Paper.Order.{dec}
use sene_x.Rea.Paper.Order.Laws.{dec-finite-eq}
use sene_x.Rea.Paper.State.{PaperState, Digest, fresh_state, validate, initial}
use sene_x.Rea.Paper.State.Laws.{validate-eq}
use sene_x.Rea.Paper.Fill.Repeats.{same_digest_refl}
use sene_x.Rea.Paper.Fill.Origin.{Reach-SameOrigin}
use sene_x.Rea.Paper.Checkpoint.{state_payload, to_payload, from_payload}
use sene_x.Rea.Paper.Checkpoint.Roundtrip.{from_payload-eq, Reach-IsStored, initial-IsStored}
use sene_x.Rea.Engine.Event.{Record, RiskLimits, Book, Engine}
use sene_x.Rea.Engine.Journal.{Hashing, genesis_hash, Disk, read_journal}
use sene_x.Rea.Engine.Recover.{
  saved, Envelope, envelope, Payloads, save_checkpoint, genesis, same_limits, anchor,
  check_envelope, recover_journal, recover,
}
use sene_x.Rea.Engine.Recover.Genesis.{replay_from-checkpoint}
use sene_x.Rea.Engine.Log.{Logged, start, more, replay-Logged}
use sene_x.Rea.Engine.Log.Chain.{last_hash, Logged-Chained}
use sene_x.Rea.Engine.Durable.{fresh_engine, empty_disk, Served, Served-IsSynced}
use sene_x.Rea.Engine.Durable.States.{Logged-Reach, Logged-limits}

map-some-append : (xs ys : List Record) → map some xs ++ map some ys ≡ map some (xs ++ ys)
map-some-append [] ys = refl
map-some-append (x ∷ xs) ys = ap (λ t. some x ∷ t) (map-some-append xs ys)

Logged-append :
    (h : Hashing) {b0 b b' : Book} {xs ys : List Record}
    → Logged h b0 b xs
    → Logged h b b' ys
    → Logged h b0 b' (xs ++ ys)
Logged-append h {xs} l start = subst (Logged h _ _) (sym (append-nil xs)) l
Logged-append h {xs} l (more {b} {rs} m key event t c named new later reduced) =
    subst (Logged h _ _) (append_assoc xs rs _)
      (more (Logged-append h l m) key event t c named new later reduced)

same_text_refl : (x : Decimal) → same_text x x ≡ true
unfolding same_text mathlib.Core.Bool.xor
same_text_refl x = ground arith

same_limits_refl : (l : RiskLimits) → same_limits l l ≡ true
same_limits_refl l = rw (same_text_refl l.max_inventory, same_text_refl l.max_fill_qty)

initial-eq :
    (cash : Decimal) (source config : Digest) (s : PaperState)
    → initial cash source config ≡ ok s
    → s ≡ fresh_state cash source config
unfolding initial
initial-eq cash source config s h =
    let (c, good, h₁) =
      >>=-eq-ok (dec (finite cash) positive) (λ c. validate (fresh_state c source config)) h in
    validate-eq (fresh_state c source config) s h₁
    ∙ ap (λ x. fresh_state x source config) (dec-finite-eq cash c positive good)

module _ (h : Hashing) (p : Payloads) where
  anchor-append :
      (d : Digest) (n : ℕ) (xs ys : List Record)
      → suc n ≡ length xs
      → anchor h p (suc n) (xs ++ ys) ≡ last_hash d xs
  anchor-append d n [] ys e = absurd (omega (arith, e))
  anchor-append d zero (x ∷ []) ys e = refl
  anchor-append d zero (x ∷ y ∷ xs) ys e = absurd (omega (arith, e))
  anchor-append d (suc n) (x ∷ xs) ys e = anchor-append x.event_sha256 n xs ys (omega (arith, e))

  -- The parts of a checkpoint that `recover` checks before it reads the journal.
  envelope_passes :
      (g : Book) (source config : Digest) (limits : RiskLimits)
      → from_payload (state_payload (to_payload g.state)) ≡ ok g.state
      → g.state.source_sha256 ≡ source
      → g.state.config_sha256 ≡ config
      → g.limits ≡ limits
      → check_envelope h p (envelope p g) source config limits ≡ ok g.state
  unfolding check_envelope
  envelope_passes g source config limits stored src cfg lim =
      rw
        (
          same_digest_refl (p.sha (saved g)),
          stored,
          ← src,
          ← cfg,
          ← lim,
          same_digest_refl g.state.source_sha256,
          same_digest_refl g.state.config_sha256,
          same_limits_refl g.limits,
        )
        refl

  module _ (cash : Decimal) (source config : Digest) (s : PaperState) (limits : RiskLimits)
      (began : initial cash source config ≡ ok s) where
    -- What a checkpoint after some calls and a file after some more have in common.
    record Resumes (g g' : Engine) (d' : Disk) : Type 0 where
      before : List Record
      after : List Record
      first : Logged h (genesis s limits) g.book before
      then : Logged h g.book g'.book after
      counted : g.journal_seq ≡ length before
      headed : g.journal_head ≡ last_hash genesis_hash before
      readable : read_journal h d' ≡ ok (before ++ after)
      sized : d'.size ≡ g'.journal_size

    resumes :
        {g g' : Engine} {d d' : Disk}
        → Served h (fresh_engine s limits) empty_disk g d
        → Served h g d g' d'
        → Resumes g g' d'
    unfolding read_journal
    resumes {g} {g'} {d} {d'} a b =
        let m = Served-IsSynced h (fresh_engine s limits) empty_disk a in
        let n = Served-IsSynced h g d b in
        let chain = Logged-Chained h refl refl refl m.logged in
        let all = Logged-Chained h refl refl refl (Logged-append h m.logged n.logged) in
        let lines : d'.lines ≡ map some (m.records ++ n.records) =
          n.lines
          ∙ ap (λ ls. ls ++ map some n.records) m.lines
          ∙ map-some-append m.records n.records in
        let whole : d'.tail ≡ 0 = n.whole ∙ m.whole in
        record {
          before = m.records;
          after = n.records;
          first = m.logged;
          then = n.logged;
          counted = chain.numbered;
          headed = chain.headed;
          readable = rw (whole, lines) all.verified;
          sized = n.sized (m.sized refl);
        }

    journal-Resumes :
        {g g' : Engine} {d' : Disk}
        → Resumes g g' d'
        → 0 < g.journal_seq
        → g.state.starting_cash ≡ cash
        → p.same (saved g.book) (saved g.book) ≡ true
        → recover_journal h p (saved g.book) g.state d' source config limits ≡ ok g'
    unfolding recover_journal
    journal-Resumes {g} {g'} {d'} r pos money same =
        let n = g.journal_seq - 1 in
        let at : g.journal_seq ≡ suc n = omega (arith, pos) in
        let size : suc n ≡ length r.before = omega (arith, at, r.counted) in
        let long : ltb (length (r.before ++ r.after)) g.journal_seq ≡ false =
          ground (arith, length-append r.before r.after, r.counted) in
        let anchored : anchor h p g.journal_seq (r.before ++ r.after) ≡ g.journal_head =
          ap (λ k. anchor h p k (r.before ++ r.after)) at
          ∙ anchor-append genesis_hash n r.before r.after size
          ∙ sym r.headed in
        let back =
          replay_from-checkpoint h p g.book g'.book s limits d' r.before r.after n at size
            (replay-Logged h r.first) (replay-Logged h r.then) same in
        let again : initial g.state.starting_cash source config ≡ ok s =
          ap (λ x. initial x source config) money ∙ began in
        rw (r.readable, long, anchored, same_digest_refl g.journal_head, again, back, r.sized) refl

    -- An engine serves calls on an initial state, saves a checkpoint after at least one event, and
    -- serves further calls, none of which freezes it. `recover` with that checkpoint, the journal
    -- as it is by then, the source and configuration of the initial state and the same limits
    -- returns the engine as it is by then. The comparison of the replayed payload with the saved
    -- one, a parameter, has to take the saved payload for the same as itself.
    pub recover-save_checkpoint :
        {g g' : Engine} {d d' : Disk} (e : Envelope)
        → Served h (fresh_engine s limits) empty_disk g d
        → 0 < g.journal_seq
        → save_checkpoint p g.book true ≡ ok e
        → Served h g d g' d'
        → p.same (saved g.book) (saved g.book) ≡ true
        → recover h p (some e) d' source config limits ≡ ok g'
    unfolding recover recover_journal save_checkpoint
    recover-save_checkpoint {g} {g'} {d} {d'} e a pos saved_it b same =
        let r = resumes a b in
        let from = Logged-Reach h r.first in
        let stored =
          from_payload-eq g.state
            (Reach-IsStored h.digest (initial-IsStored cash source config s began) from) in
        let origin = Reach-SameOrigin h.digest from in
        let fresh = initial-eq cash source config s began in
        let envelope_eq : e ≡ envelope p g.book = ground (arith, saved_it) in
        let src : g.state.source_sha256 ≡ source =
          origin.source ∙ ap (λ (x : PaperState). x.source_sha256) fresh in
        let cfg : g.state.config_sha256 ≡ config =
          origin.config ∙ ap (λ (x : PaperState). x.config_sha256) fresh in
        let money : g.state.starting_cash ≡ cash =
          origin.cash ∙ ap (λ (x : PaperState). x.starting_cash) fresh in
        let passed =
          envelope_passes g.book source config limits stored src cfg (Logged-limits h r.first) in
        rw (envelope_eq, passed) (journal-Resumes r pos money same)
