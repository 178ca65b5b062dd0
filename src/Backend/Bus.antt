-- ===== src/Backend/Bus.antt =====
-- The event bus with its bounded queues (senecio_polymarket/backend/event_bus.py).
pub mod Newest
pub mod Tests
use sene_x.Common.{
  ℕ, suc, ◌-◌, String, Bool, true, false, not, ◌&&◌, ◌==◌, leb, if◌then◌else◌, List, [], ◌∷◌, ◌++◌,
  length, map,
}
use sene_x.Common.Text.{text_eq}

-- A queue of a subscriber, oldest event first. Its number stands for the object's identity.
pub record Queue (A : Type 0) : Type 0 where
  pub number : ℕ
  pub waiting : List A

-- The bus; `typed` is the dictionary of subscribers, `audit` the audit store.
pub record EventBus (A : Type 0) : Type 0 where
  pub audit : List A
  pub max_queue : ℕ
  pub typed : List (String × List (Queue A))
  pub global_subscribers : List (Queue A)
  pub created : ℕ
  pub counter : ℕ
  pub closed : Bool

-- `subscribe`'s argument: every event, or those of a type.
pub data Subject : Type 0 where
  everything : Subject
  of_type : String → Subject

module _ {A : Type 0} where
  -- `q.full()` of an `asyncio.Queue`, which has no bound when its size is 0.
  abbrev pub is_full : ℕ → List A → Bool
  is_full max xs = not (max == 0) && leb max (length xs)

  abbrev pub without_first : List A → List A
  without_first [] = []
  without_first (x ∷ xs) = xs

  -- `put_nowait`, or `get_nowait` and then `put_nowait` when the queue is full.
  unfoldable pub offer : ℕ → A → Queue A → Queue A
  offer max e q =
      if is_full max q.waiting
      then record q { waiting = without_first q.waiting ++ e ∷ [] }
      else record q { waiting = q.waiting ++ e ∷ [] }

  unfoldable pub offer_typed :
      ℕ → String → A → List (String × List (Queue A)) → List (String × List (Queue A))
  unfolding offer
  offer_typed max type e [] = []
  offer_typed max type e ((t, qs) ∷ rest) =
      let later = offer_typed max type e rest in
      if text_eq t type then (t, map (offer max e) qs) ∷ rest else (t, qs) ∷ later

  -- `self._subscribers[type].append(q)` on a `defaultdict`
  unfoldable pub add_typed :
      String → Queue A → List (String × List (Queue A)) → List (String × List (Queue A))
  add_typed type q [] = (type, q ∷ []) ∷ []
  add_typed type q ((t, qs) ∷ rest) =
      let later = add_typed type q rest in
      if text_eq t type then (t, qs ++ q ∷ []) ∷ rest else (t, qs) ∷ later

  -- `list.remove`
  unfoldable pub remove_queue : ℕ → List (Queue A) → List (Queue A)
  remove_queue n [] = []
  remove_queue n (q ∷ qs) = let rest = remove_queue n qs in if q.number == n then qs else q ∷ rest

  unfoldable pub remove_typed :
      String → ℕ → List (String × List (Queue A)) → List (String × List (Queue A))
  unfolding remove_queue
  remove_typed type n [] = []
  remove_typed type n ((t, qs) ∷ rest) =
      let later = remove_typed type n rest in
      if text_eq t type then (t, remove_queue n qs) ∷ rest else (t, qs) ∷ later

  abbrev pub fresh_queue : EventBus A → Queue A
  fresh_queue b = record { number = b.created; waiting = [] }

  -- `subscribe`
  abbrev pub subscribe : Subject → EventBus A → EventBus A
  subscribe everything b = record b {
    created = suc b.created;
    global_subscribers = b.global_subscribers ++ fresh_queue b ∷ [];
  }
  subscribe (of_type t) b = record b {
    created = suc b.created;
    typed = add_typed t (fresh_queue b) b.typed;
  }

  -- `unsubscribe`
  abbrev pub unsubscribe : ℕ → Subject → EventBus A → EventBus A
  unsubscribe n everything b = record b { global_subscribers = remove_queue n b.global_subscribers }
  unsubscribe n (of_type t) b = record b { typed = remove_typed t n b.typed }

  -- `close`; the audit store is flushed.
  abbrev pub close_bus : EventBus A → EventBus A
  close_bus b = record b { closed = true }

module _ {A : Type 0} (type_of : A → String) where
  -- `publish`, with whether the audit store took the event.
  unfoldable pub publish : A → Bool → EventBus A → EventBus A
  unfolding offer_typed offer
  publish e audited b = record b {
    counter = suc b.counter;
    audit = if audited then b.audit ++ e ∷ [] else b.audit;
    typed = offer_typed b.max_queue (type_of e) e b.typed;
    global_subscribers = map (offer b.max_queue e) b.global_subscribers;
  }

  -- Events published one after another.
  unfoldable pub publish_all : List (A × Bool) → EventBus A → EventBus A
  unfolding publish
  publish_all [] b = b
  publish_all ((e, audited) ∷ es) b = publish_all es (publish e audited b)
