-- ===== src/Backend/Receipts/Queue.antt =====
-- The public operations of `PredictionPersistenceStore` on the file.
use sene_x.Common.{
  ℕ, suc, ◌-◌, String, Bool, not, ◌&&◌, ◌||◌, ◌==◌, ltb, leb, if◌then◌else◌, List, [], ◌∷◌, length,
  Option, none, some, is_some, Outcome, ok, err, ◌>>=◌,
}
use sene_x.Common.Int.{pos}
use sene_x.Common.Text.{text_eq, text_lt}
use sene_x.Backend.Receipts.Lines.{Json, StoreError, key_error, value_error, File, append}
use sene_x.Backend.Receipts.Store.{
  State, IdArgument, whole, is_persisted, find_state, Move, returns, writes, Call, enqueue,
  mark_failed, mark_persisted, states, check_arguments, plan_call,
}

-- `xs[:n]`
abbrev pub take {ℓ} : {A : Type ℓ} → ℕ → List A → List A
take n [] = []
take n (x ∷ xs) = if n == 0 then [] else x ∷ take (n - 1) xs

-- The result of `summary`.
pub record Summary : Type 0 where
  pub expected : ℕ
  pub persisted : ℕ
  pub unresolved : ℕ

module _ {P : Type 0} where
  -- `sorted(states)` by the keys
  unfoldable pub insert_key : State P → List (State P) → List (State P)
  insert_key s [] = s ∷ []
  insert_key s (t ∷ ts) =
      let rest = insert_key s ts in
      if text_lt t.source_packet_hash s.source_packet_hash then t ∷ rest else s ∷ t ∷ ts

  unfoldable pub sort_by_key : List (State P) → List (State P)
  unfolding insert_key
  sort_by_key [] = []
  sort_by_key (s ∷ ss) = insert_key s (sort_by_key ss)

  unfoldable pub count_persisted : List (State P) → ℕ
  count_persisted [] = 0
  count_persisted (s ∷ ss) =
      let rest = count_persisted ss in if is_persisted s.status then suc rest else rest

  abbrev pub summary_of : List (State P) → Summary
  summary_of ss = record {
    expected = length ss;
    persisted = count_persisted ss;
    unresolved = length ss - count_persisted ss;
  }

  -- The comprehension of `pending`.
  abbrev pub is_pending : State P → Bool
  is_pending s = not (is_persisted s.status) && is_some s.prediction

  unfoldable pub unresolved : List (State P) → List (State P)
  unresolved [] = []
  unresolved (s ∷ ss) = let rest = unresolved ss in if is_pending s then s ∷ rest else rest

module _ {Raw P : Type 0} (j : Json Raw P) where
  abbrev pub the_state : Option (State P) → Outcome StoreError (Option (State P))
  the_state none = err key_error
  the_state (some s) = ok (some s)

  -- `self._states()[source_hash]` after the append of `enqueue`; the others return nothing.
  abbrev pub finish : Call P → File Raw → Outcome StoreError (Option (State P)) × File Raw
  finish (enqueue hash id p) f =
      let (ss, f') = states j f in (ss >>= λ ss. the_state (find_state hash ss), f')
  finish (mark_failed hash reason) f = (ok none, f)
  finish (mark_persisted hash id) f = (ok none, f)

  abbrev pub complete :
      Call P
      → Outcome StoreError (Move P)
      → File Raw
      → Outcome StoreError (Option (State P)) × File Raw
  complete c (err e) f = (err e, f)
  complete c (ok (returns s)) f = (ok s, f)
  complete c (ok (writes e)) f = finish c (append j e f)

  abbrev pub call_checked :
      String
      → Call P
      → Outcome StoreError (Unit {0})
      → File Raw
      → Outcome StoreError (Option (State P)) × File Raw
  call_checked now c (err e) f = (err e, f)
  call_checked now c (ok _) f =
      let (ss, f') = states j f in complete c (ss >>= plan_call j now c) f'

  -- `enqueue`, `mark_failed` and `mark_persisted`, at a time of the clock.
  unfoldable pub call_store :
      String → Call P → File Raw → Outcome StoreError (Option (State P)) × File Raw
  call_store now c f = call_checked now c (check_arguments j c) f

  -- `states`
  abbrev pub all_states : File Raw → Outcome StoreError (List (State P)) × File Raw
  all_states f = let (ss, f') = states j f in (ss >>= λ ss. ok (sort_by_key ss), f')

  -- `summary`
  unfoldable pub summary : File Raw → Outcome StoreError Summary × File Raw
  summary f = let (ss, f') = all_states f in (ss >>= λ ss. ok (summary_of ss), f')

  abbrev pub timestamp_of : State P → String
  timestamp_of s = elim s.prediction [ none ↦ "" | some p ↦ j.timestamp p ]

  -- The order of the keys by which `pending` sorts.
  abbrev pub comes_before : State P → State P → Bool
  comes_before a b =
      ltb a.last_event_index b.last_event_index
      || ((a.last_event_index == b.last_event_index)
          && (text_lt (timestamp_of a) (timestamp_of b)
              || (text_eq (timestamp_of a) (timestamp_of b)
                  && text_lt a.source_packet_hash b.source_packet_hash)))

  unfoldable pub insert_pending : State P → List (State P) → List (State P)
  insert_pending s [] = s ∷ []
  insert_pending s (t ∷ ts) =
      let rest = insert_pending s ts in if comes_before t s then t ∷ rest else s ∷ t ∷ ts

  unfoldable pub sort_pending : List (State P) → List (State P)
  unfolding insert_pending
  sort_pending [] = []
  sort_pending (s ∷ ss) = insert_pending s (sort_pending ss)

  abbrev pub is_limit : IdArgument → Option ℕ
  is_limit (whole (pos n)) = if leb 1 n && leb n 100 then some n else none
  is_limit _ = none

  abbrev pub pending_within : Option ℕ → File Raw → Outcome StoreError (List (State P)) × File Raw
  pending_within none f = (err value_error, f)
  pending_within (some n) f =
      let (ss, f') = states j f in (ss >>= λ ss. ok (take n (sort_pending (unresolved ss))), f')

  -- `pending`
  unfoldable pub pending : IdArgument → File Raw → Outcome StoreError (List (State P)) × File Raw
  unfolding unresolved sort_pending
  pending limit f = pending_within (is_limit limit) f
