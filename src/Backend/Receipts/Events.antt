-- ===== src/Backend/Receipts/Events.antt =====
-- The events that the store's calls write are accepted when the file is read again, and keep
-- what the states say.
use sene_x.Common.{
  ℕ, String, ◌≡◌, refl, sym, ap, ◌∙◌, inl, inr, false, not, ◌==◌, ==_iff, List, Option, none, some,
  Outcome, ok, ◌>>=◌, >>=-eq-ok, raise_if, raise_if-eq-ok, Option-cases, arith,
}
use sene_x.Common.Text.{eq_iff, eq_refl, text_length}
use sene_x.Backend.Receipts.Lines.{absent, Receipt, Json, StoreError, invalid_hash, hash_conflict}
use sene_x.Backend.Receipts.Store.{
  State, whole, other, is_persisted, conflicting, or_else, find_state, put_state, take_prediction,
  first_state, state_or_first, next_state, add_event, writes, Call, enqueue, mark_failed,
  mark_persisted, enqueued, failed, persisted, check_arguments, plan_call,
}
use sene_x.Backend.Receipts.Keeping.{
  Kept, Later, AllWhole, find_state-key, find_state-AllWhole, find-put_state, put_state-AllWhole,
  put_state-Later,
}

module _ {P : Type 0} where
  -- What an event makes of the states that it is added to.
  pub record Takes {Raw : Type 0} (j : Json Raw P) (n : ℕ) (e : Receipt P) (ss ss' : List (State P))
      : Type 0 where
    pub added : add_event j n e ss ≡ ok ss'
    pub long : AllWhole ss'
    pub later : Later ss ss'

module _ {Raw P : Type 0} (j : Json Raw P) where
  conflicting_self : (x : Option String) → conflicting x x ≡ false
  conflicting_self none = refl
  conflicting_self (some x) = ground (arith, eq_refl x)

  -- The state after the first event of a packet.
  abbrev queued : ℕ → String → String → String → P → State P
  queued n now hash id p = record (first_state (enqueued j now hash id p)) {
    prediction = some p;
    status = some "ENQUEUED";
    last_event_index = n;
  }

  Takes-enqueued :
      (n : ℕ) (now hash id : String) (p : P) (ss : List (State P))
      → text_length hash ≡ 64
      → AllWhole ss
      → find_state hash ss ≡ none
      → Takes j n (enqueued j now hash id p) ss (put_state (queued n now hash id p) ss)
  unfolding add_event next_state
  Takes-enqueued n now hash id p ss size long new = record {
    added =
        rw (size, new, conflicting_self (some (j.prediction_sha p)), eq_refl (j.prediction_sha p))
          refl;
    long = put_state-AllWhole (queued n now hash id p) ss (size, refl) long;
    later =
        put_state-Later (queued n now hash id p) ss
          (λ s found. absurd (ground (arith, new, found)));
  }

  -- The state after an event without a prediction.
  abbrev marked : ℕ → Receipt P → State P → State P
  marked n e s = record s {
    status = e.event;
    d1_prediction_id = or_else e.d1_prediction_id s.d1_prediction_id;
    last_reason = or_else e.reason s.last_reason;
    last_event_index = n;
  }

  Takes-marked :
      (n : ℕ) (e : Receipt P) (s : State P) (ss : List (State P))
      → AllWhole ss
      → e.prediction ≡ absent
      → e.source_prediction_sha256 ≡ s.source_prediction_sha256
      → find_state e.source_packet_hash ss ≡ some s
      → is_persisted s.status ≡ false
      → Takes j n e ss (put_state (marked n e s) ss)
  unfolding add_event next_state
  Takes-marked n e s ss long without same found unsettled =
      let key = find_state-key e.source_packet_hash ss s found in
      let (size, given) = find_state-AllWhole e.source_packet_hash ss s long found in
      let size_e = ap text_length (sym key) ∙ size in
      record {
        added = rw (size_e, found, same, conflicting_self s.source_prediction_sha256, without) refl;
        long = put_state-AllWhole (marked n e s) ss (size, given) long;
        later = put_state-Later (marked n e s) ss (λ t found'. kept t (again t key found'));
      }
    where
      again :
          (t : State P)
          → s.source_packet_hash ≡ e.source_packet_hash
          → find_state s.source_packet_hash ss ≡ some t
          → s ≡ t
      again t key found' = ground (arith, found, found', key)

      kept : (t : State P) → s ≡ t → Kept t (marked n e s)
      kept t is = rw (← is) (record {
        packet = refl;
        hash = refl;
        prediction = refl;
        settled = λ done. absurd (ground (arith, unsettled, done));
      })

  -- What the loop's body changes, and what it does not.
  pub next_state-fields :
      (n : ℕ) (e : Receipt P) (s s' : State P)
      → next_state j n e s ≡ ok s'
      → (take_prediction j e s ≡ ok s'.prediction)
        × (s'.status ≡ e.event)
        × (s'.d1_prediction_id ≡ or_else e.d1_prediction_id s.d1_prediction_id)
        × (s'.source_packet_hash ≡ s.source_packet_hash)
        × (s'.source_prediction_sha256 ≡ s.source_prediction_sha256)
  unfolding next_state
  next_state-fields n e s s' h =
      let (u, same, h₁) =
        >>=-eq-ok
          (raise_if (conflicting s.source_prediction_sha256 e.source_prediction_sha256)
            hash_conflict)
          (λ _. made) h in
      let (p, taken, h₂) = >>=-eq-ok (take_prediction j e s) with_prediction h₁ in
      ground (arith, taken, h₂)
    where
      with_prediction : Option P → Outcome StoreError (State P)
      with_prediction p = ok (record s {
        prediction = p;
        status = e.event;
        d1_prediction_id = or_else e.d1_prediction_id s.d1_prediction_id;
        last_reason = or_else e.reason s.last_reason;
        last_event_index = n;
      })

      made : Outcome StoreError (State P)
      made = take_prediction j e s >>= with_prediction

  -- An accepted event has made a state, which its hash finds.
  pub add_event-finds :
      (n : ℕ) (e : Receipt P) (ss ss' : List (State P))
      → add_event j n e ss ≡ ok ss'
      → (s : State P) × (find_state e.source_packet_hash ss' ≡ some s)
        × (next_state j n e (state_or_first e (find_state e.source_packet_hash ss)) ≡ ok s)
  unfolding add_event
  add_event-finds n e ss ss' h =
      let (u, long, h₁) =
        >>=-eq-ok (raise_if (not (text_length e.source_packet_hash == 64)) invalid_hash) (λ _. made)
          h in
      let (s, got, h₂) = >>=-eq-ok (next_state j n e old) (λ s. ok (put_state s ss)) h₁ in
      let is : put_state s ss ≡ ss' = ground (arith, h₂) in
      (
        s,
        ap (find_state e.source_packet_hash) (sym is)
            ∙ found s (named old s (old_key (find_state e.source_packet_hash ss) refl) got),
        got,
      )
    where
      old : State P
      old = state_or_first e (find_state e.source_packet_hash ss)

      made : Outcome StoreError (List (State P))
      made = next_state j n e old >>= λ s. ok (put_state s ss)

      old_key :
          (o : Option (State P))
          → find_state e.source_packet_hash ss ≡ o
          → (state_or_first e o).source_packet_hash ≡ e.source_packet_hash
      old_key none is = refl
      old_key (some s) is = find_state-key e.source_packet_hash ss s is

      found :
          (s : State P)
          → s.source_packet_hash ≡ e.source_packet_hash
          → find_state e.source_packet_hash (put_state s ss) ≡ some s
      found s key =
          rw
            (
              find-put_state e.source_packet_hash s ss,
              (eq_iff s.source_packet_hash e.source_packet_hash).1 key,
            )
            refl

      named :
          (s s' : State P)
          → s.source_packet_hash ≡ e.source_packet_hash
          → next_state j n e s ≡ ok s'
          → s'.source_packet_hash ≡ e.source_packet_hash
      named s s' key got = (next_state-fields n e s s' got).3 ∙ key

  -- An event that a call writes is accepted at any index, and keeps what the states say.
  pub plan_call-Takes :
      (n : ℕ) (now : String) (c : Call P) (ss : List (State P)) (e : Receipt P)
      → check_arguments j c ≡ ok tt
      → plan_call j now c ss ≡ ok (writes e)
      → AllWhole ss
      → (ss' : List (State P)) × Takes j n e ss ss'
  plan_call-Takes n now (enqueue hash id p) ss e args planned long =
      elim (Option-cases (find_state hash ss)) [
        | inl new ↦
            let written : enqueued j now hash id p ≡ e = ground (arith, rw new at planned) in
            let size : text_length hash ≡ 64 =
              ground (arith, raise_if-eq-ok _ _ args, ==_iff (text_length hash) 64) in
            rw (← written) (_, Takes-enqueued n now hash id p ss size long new)
        | inr (s, found) ↦ absurd (ground (arith, rw found at planned))
      ]
  plan_call-Takes n now (mark_failed hash reason) ss e args planned long =
      elim (Option-cases (find_state hash ss)) [
        | inl new ↦ absurd (ground (arith, rw new at planned))
        | inr (s, found) ↦
            let step = rw found at planned in
            let unsettled : is_persisted s.status ≡ false = ground (arith, step) in
            let written : failed now s hash reason ≡ e = ground (arith, step, unsettled) in
            rw (← written)
              (_, Takes-marked n (failed now s hash reason) s ss long refl refl found unsettled)
      ]
  plan_call-Takes n now (mark_persisted hash (whole id)) ss e args planned long =
      elim (Option-cases (find_state hash ss)) [
        | inl new ↦ absurd (ground (arith, rw new at planned))
        | inr (s, found) ↦
            let step = rw found at planned in
            let unsettled : is_persisted s.status ≡ false = ground (arith, step) in
            let written : persisted now s hash id ≡ e = ground (arith, step, unsettled) in
            rw (← written)
              (_, Takes-marked n (persisted now s hash id) s ss long refl refl found unsettled)
      ]
  plan_call-Takes n now (mark_persisted hash other) ss e args planned long =
      absurd (ground (arith, planned))
