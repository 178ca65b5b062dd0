-- ===== src/Backend/Receipts/Store.antt =====
-- `PredictionPersistenceStore`: the states that the file's rows stand for, and the operations.
use sene_x.Common.{
  ℕ, suc, String, Bool, true, false, not, ◌&&◌, ◌||◌, ◌==◌, ltb, if◌then◌else◌, List, [], ◌∷◌,
  Option, none, some, is_some, Outcome, ok, err, ◌>>=◌, ◌>>◌, raise_if,
}
use sene_x.Common.Int.{ℤ, pos, negsuc}
use sene_x.Common.Text.{text_eq, text_length, text_take}
use sene_x.Backend.Receipts.Lines.{
  absent, not_object, object, Receipt, Json, StoreError, invalid_hash, hash_conflict, not_an_object,
  hash_mismatch, payload_conflict, bad_identity, unknown_packet, bad_id, id_conflict, type_error,
  File, read,
}

-- A value of `_states`, under its `source_packet_hash`.
pub record State (P : Type 0) : Type 0 where
  pub source_packet_hash : String
  pub source_packet_id : Option String
  pub source_prediction_sha256 : Option String
  pub prediction : Option P
  pub status : Option String
  pub d1_prediction_id : Option ℤ
  pub last_reason : Option String
  pub last_event_index : ℕ

-- The argument `d1_prediction_id`: an integer, or a Boolean or any other value.
pub data IdArgument : Type 0 where
  whole : ℤ → IdArgument
  other : IdArgument

abbrev pub is_persisted : Option String → Bool
is_persisted none = false
is_persisted (some s) = text_eq s "PERSISTED"

-- `x and y and x != y`
abbrev pub conflicting : Option String → Option String → Bool
conflicting (some x) (some y) = not (text_eq x "") && (not (text_eq y "") && not (text_eq x y))
conflicting _ _ = false

abbrev pub is_digest : Option String → String → Bool
is_digest none x = false
is_digest (some y) x = text_eq y x

abbrev pub or_else {ℓ} : {A : Type ℓ} → Option A → Option A → Option A
or_else (some x) y = some x
or_else none y = y

-- `int(x) != y`
abbrev pub is_other_id : Option ℤ → ℤ → Outcome StoreError Bool
is_other_id none y = err type_error
is_other_id (some (pos m)) (pos n) = ok (not (m == n))
is_other_id (some (negsuc m)) (negsuc n) = ok (not (m == n))
is_other_id (some _) _ = ok true

abbrev pub is_positive : ℤ → Bool
is_positive (pos n) = ltb 0 n
is_positive (negsuc n) = false

-- What an operation does with the states: return without writing, or write an event.
pub data Move (P : Type 0) : Type 0 where
  returns : Option (State P) → Move P
  writes : Receipt P → Move P

-- The calls that can change the file: a packet's hash and ID, with its prediction; a packet's
-- hash and a reason; a packet's hash and the ID of the stored prediction.
pub data Call (P : Type 0) : Type 0 where
  enqueue : String → String → P → Call P
  mark_failed : String → String → Call P
  mark_persisted : String → IdArgument → Call P

module _ {P : Type 0} where
  -- `states.get(key)`
  unfoldable pub find_state : String → List (State P) → Option (State P)
  find_state key [] = none
  find_state key (s ∷ ss) = if text_eq s.source_packet_hash key then some s else find_state key ss

  -- The dictionary after a change of one value: an old key keeps its place, a new one comes last.
  unfoldable pub put_state : State P → List (State P) → List (State P)
  put_state new [] = new ∷ []
  put_state new (s ∷ ss) =
      let rest = put_state new ss in
      if text_eq s.source_packet_hash new.source_packet_hash then new ∷ ss else s ∷ rest

  -- The default of `states.setdefault`
  abbrev pub first_state : Receipt P → State P
  first_state e = record {
    source_packet_hash = e.source_packet_hash;
    source_packet_id = e.source_packet_id;
    source_prediction_sha256 = e.source_prediction_sha256;
    prediction = none;
    status = none;
    d1_prediction_id = none;
    last_reason = none;
    last_event_index = 0;
  }

  abbrev pub state_or_first : Receipt P → Option (State P) → State P
  state_or_first e none = first_state e
  state_or_first e (some s) = s

  abbrev pub failed : String → State P → String → String → Receipt P
  failed now s hash reason = record {
    event = some "FAILED";
    recorded_at = some now;
    source_packet_hash = hash;
    source_packet_id = s.source_packet_id;
    source_prediction_sha256 = s.source_prediction_sha256;
    prediction = absent;
    reason = some (text_take 240 reason);
    d1_prediction_id = none;
  }

  abbrev pub persisted : String → State P → String → ℤ → Receipt P
  persisted now s hash id = record {
    event = some "PERSISTED";
    recorded_at = some now;
    source_packet_hash = hash;
    source_packet_id = s.source_packet_id;
    source_prediction_sha256 = s.source_prediction_sha256;
    prediction = absent;
    reason = none;
    d1_prediction_id = some id;
  }

  -- `state is None or state.get("prediction") is None`
  abbrev pub known : Option (State P) → Outcome StoreError (State P)
  known none = err unknown_packet
  known (some s) = if is_some s.prediction then ok s else err unknown_packet

  abbrev pub plan_failed : String → String → String → Option (State P) → Outcome StoreError (Move P)
  plan_failed now hash reason found = known found >>= λ s.
      if is_persisted s.status then ok (returns none) else ok (writes (failed now s hash reason))

  abbrev pub plan_id : String → String → ℤ → State P → Bool → Outcome StoreError (Move P)
  plan_id now hash id s false = ok (writes (persisted now s hash id))
  plan_id now hash id s true = is_other_id s.d1_prediction_id id >>= λ differs.
      raise_if differs id_conflict >> ok (returns none)

  abbrev pub plan_persisted : String → String → ℤ → Option (State P) → Outcome StoreError (Move P)
  plan_persisted now hash id found =
      known found >>= λ s. plan_id now hash id s (is_persisted s.status)

module _ {Raw P : Type 0} (j : Json Raw P) where
  -- `state["prediction"] is not None and state["prediction"] != prediction`
  abbrev pub differs_from : Option P → P → Bool
  differs_from none p = false
  differs_from (some q) p = not (j.same q p)

  -- The event's prediction, checked against its hash and the state's prediction.
  abbrev pub take_prediction : Receipt P → State P → Outcome StoreError (Option P)
  take_prediction e s = elim e.prediction [
    | absent ↦ ok s.prediction
    | not_object ↦ err not_an_object
    | object p ↦ do
      raise_if (not (is_digest e.source_prediction_sha256 (j.prediction_sha p))) hash_mismatch
      raise_if (differs_from s.prediction p) payload_conflict
      ok (some p)
  ]

  -- The body of the loop of `_states`, for the event at an index.
  unfoldable pub next_state : ℕ → Receipt P → State P → Outcome StoreError (State P)
  next_state n e s = do
    raise_if (conflicting s.source_prediction_sha256 e.source_prediction_sha256) hash_conflict
    prediction ← take_prediction e s
    ok (record s {
      prediction = prediction;
      status = e.event;
      d1_prediction_id = or_else e.d1_prediction_id s.d1_prediction_id;
      last_reason = or_else e.reason s.last_reason;
      last_event_index = n;
    })

  unfoldable pub add_event : ℕ → Receipt P → List (State P) → Outcome StoreError (List (State P))
  unfolding next_state find_state put_state text_length
  add_event n e ss = do
    raise_if (not (text_length e.source_packet_hash == 64)) invalid_hash
    new ← next_state n e (state_or_first e (find_state e.source_packet_hash ss))
    ok (put_state new ss)

  -- The loop of `_states` from an index.
  unfoldable pub states_from :
      ℕ → List (Receipt P) → List (State P) → Outcome StoreError (List (State P))
  unfolding add_event
  states_from n [] ss = ok ss
  states_from n (e ∷ es) ss = add_event n e ss >>= λ ss'. states_from (suc n) es ss'

  abbrev pub states_of : List (Receipt P) → Outcome StoreError (List (State P))
  states_of es = states_from 1 es []

  -- `_states`
  abbrev pub states : File Raw → Outcome StoreError (List (State P)) × File Raw
  states f = let (rows, f') = read j f in (rows >>= states_of, f')

  abbrev pub enqueued : String → String → String → P → Receipt P
  enqueued now hash id p = record {
    event = some "ENQUEUED";
    recorded_at = some now;
    source_packet_hash = hash;
    source_packet_id = some id;
    source_prediction_sha256 = some (j.prediction_sha p);
    prediction = object p;
    reason = none;
    d1_prediction_id = none;
  }

  -- With what `states.get` finds.
  abbrev pub plan_enqueue :
      String → String → String → P → Option (State P) → Outcome StoreError (Move P)
  plan_enqueue now hash id p none = ok (writes (enqueued now hash id p))
  plan_enqueue now hash id p (some s) = do
    raise_if (not (is_digest s.source_prediction_sha256 (j.prediction_sha p))) payload_conflict
    raise_if (differs_from s.prediction p) payload_conflict
    ok (returns (some s))

  -- What is checked before the file is read.
  abbrev pub check_arguments : Call P → Outcome StoreError (Unit {0})
  check_arguments (enqueue hash id p) =
      raise_if (not (text_length hash == 64) || text_eq id "") bad_identity
  check_arguments (mark_failed hash reason) = ok tt
  check_arguments (mark_persisted hash (whole id)) = raise_if (not (is_positive id)) bad_id
  check_arguments (mark_persisted hash other) = err bad_id

  abbrev pub plan_call : String → Call P → List (State P) → Outcome StoreError (Move P)
  plan_call now (enqueue hash id p) ss = plan_enqueue now hash id p (find_state hash ss)
  plan_call now (mark_failed hash reason) ss = plan_failed now hash reason (find_state hash ss)
  plan_call now (mark_persisted hash (whole id)) ss =
      plan_persisted now hash id (find_state hash ss)
  plan_call now (mark_persisted hash other) ss = err bad_id
