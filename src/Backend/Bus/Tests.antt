-- ===== src/Backend/Bus/Tests.antt =====
-- A bus with two queues of two places (senecio_polymarket/backend/event_bus.py).
use sene_x.Common.{ℕ, ◌≡◌, refl, Bool, true, false, ◌==◌, if◌then◌else◌, String, List, [], ◌∷◌, map}
use sene_x.Backend.Bus.{EventBus, everything, of_type, subscribe, add_typed, publish_all}
use sene_x.Backend.Bus.Newest.{
  received, subscribers_of, events_of, typed_events, publish_all-newest,
}

abbrev empty_bus : EventBus ℕ
empty_bus = record {
  audit = [];
  max_queue = 2;
  typed = [];
  global_subscribers = [];
  created = 0;
  counter = 0;
  closed = false;
}

abbrev bus : EventBus ℕ
bus = subscribe (of_type "TICK") (subscribe everything empty_bus)

-- Ticks are 1 to 3, and 9 is a signal.
abbrev type_of : ℕ → String
type_of n = if n == 9 then "SIGNAL" else "TICK"

abbrev published : List (ℕ × Bool)
published = (1, true) ∷ (9, false) ∷ (2, true) ∷ (3, true) ∷ []

publish_all-newest_example :
    let b = publish_all type_of published bus in
    (b.global_subscribers ≡ map (received 2 (events_of type_of published)) bus.global_subscribers)
    × (subscribers_of "TICK" b.typed
        ≡ map
            (received 2 (typed_events type_of "TICK" published))
            (subscribers_of "TICK" bus.typed))
unfolding add_typed subscribers_of
publish_all-newest_example = publish_all-newest type_of published bus "TICK" (refl, tt) (refl, tt)
