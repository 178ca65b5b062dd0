-- ===== src/Backend/Bus/Newest.antt =====
-- A queue of the bus holds the newest events, up to its size.

use sene_x.Common.{
  ℕ, ◌+◌, ◌-◌, ◌≤◌, String, ◌≡◌, refl, sym, ap, subst, ◌∙◌, inl, inr, Bool, true, false, ◌||◌, ◌==◌,
  ==_iff, leb, if◌then◌else◌, List, [], ◌∷◌, ◌++◌, length, length-append, map, All, Bool-cases,
  arith,
}
use sene_x.Common.Text.{text_eq, eq_iff}
use mathlib.Core.List.{append-nil, append_assoc}
use sene_x.Backend.Bus.{
  Queue, EventBus, is_full, without_first, offer, offer_typed, publish, publish_all,
}

module _ {A : Type 0} where
  abbrev pub drop : ℕ → List A → List A
  drop n [] = []
  drop n (x ∷ xs) = if n == 0 then x ∷ xs else drop (n - 1) xs

  -- The last `max` of the list, or all of it for 0.
  abbrev pub newest : ℕ → List A → List A
  newest max xs = if max == 0 then xs else drop (length xs - max) xs

  drop-zero : (xs : List A) → drop 0 xs ≡ xs
  drop-zero [] = refl
  drop-zero (x ∷ xs) = refl

  length-drop : (n : ℕ) (xs : List A) → length (drop n xs) ≡ length xs - n
  length-drop n [] = omega arith
  length-drop n (x ∷ xs) = ground (arith, length-drop (n - 1) xs)

  drop-append : (n : ℕ) (xs ys : List A) → n ≤ length xs → drop n xs ++ ys ≡ drop n (xs ++ ys)
  drop-append n [] ys h =
      let none_left : n ≡ 0 = omega (arith, h) in rw none_left (sym (drop-zero ys))
  drop-append n (x ∷ xs) ys h = elim (Bool-cases (n == 0)) [
    | inl at ↦ rw at refl
    | inr more ↦ rw more (drop-append (n - 1) xs ys (ground (arith, h, more)))
  ]

  drop-drop : (n m : ℕ) (xs : List A) → drop n (drop m xs) ≡ drop (m + n) xs
  drop-drop n m [] = refl
  drop-drop n m (x ∷ xs) = elim (Bool-cases (m == 0)) [
    | inl at ↦
        let none_left : m ≡ 0 = (==_iff m 0).0 at in
        ap (λ i. drop n (drop i (x ∷ xs))) none_left
        ∙ ap (λ i. drop i (x ∷ xs)) (omega (arith, none_left))
    | inr more ↦
        let both : ((m + n) == 0) ≡ false = ground (arith, more) in
        let less : m - 1 + n ≡ m + n - 1 = ground (arith, more) in
        rw (more, both, ← less) (drop-drop n (m - 1) xs)
  ]

  -- Older events do not come back.
  newest-append :
      (max : ℕ) (xs ys : List A) → newest max (newest max xs ++ ys) ≡ newest max (xs ++ ys)
  newest-append max xs ys = elim (Bool-cases (max == 0)) [
    | inl unbounded ↦ rw unbounded refl
    | inr bounded ↦ rw bounded (
        ap (λ zs. drop (length zs - max) zs) (drop-append k xs ys (omega arith))
        ∙ drop-drop (length (drop k (xs ++ ys)) - max) k (xs ++ ys)
        ∙ ap (λ n. drop n (xs ++ ys)) sum)
  ]
    where
      k : ℕ
      k = length xs - max

      sum : k + (length (drop k (xs ++ ys)) - max) ≡ length (xs ++ ys) - max
      sum = omega (arith, length-drop k (xs ++ ys), length-append xs ys)

  -- The queue holds no more than its size.
  abbrev pub IsBounded : ℕ → Queue A → Type 0
  IsBounded max q = (max == 0 || leb (length q.waiting) max) ≡ true

  offered :
      (max : ℕ) (e : A) (xs : List A)
      → (max == 0 || leb (length xs) max) ≡ true
      → (if is_full max xs then without_first xs ++ e ∷ [] else xs ++ e ∷ [])
        ≡ newest max (xs ++ e ∷ [])
  offered max e xs fits = elim (Bool-cases (max == 0)) [
    | inl unbounded ↦ rw unbounded refl
    | inr bounded ↦ elim (Bool-cases (leb max (length xs))) [
      | inl full ↦
          rw (bounded, full)
            (dropped xs (ground (arith, fits, bounded, full)) (ground (arith, bounded)))
      | inr room ↦
          let none_old : length (xs ++ e ∷ []) - max ≡ 0 =
            ground (arith, length-append xs (e ∷ []), room) in
          rw (bounded, room)
            (sym (ap (λ n. drop n (xs ++ e ∷ [])) none_old ∙ drop-zero (xs ++ e ∷ [])))
    ]
  ]
    where
      dropped :
          (ys : List A)
          → length ys ≡ max
          → 1 ≤ max
          → without_first ys ++ e ∷ [] ≡ drop (length (ys ++ e ∷ []) - max) (ys ++ e ∷ [])
      dropped [] size positive = absurd (omega (arith, size, positive))
      dropped (y ∷ ys) size positive =
          let one : length (y ∷ ys ++ e ∷ []) - max ≡ 1 =
            omega (arith, length-append ys (e ∷ []), size) in
          sym (ap (λ n. drop n (y ∷ ys ++ e ∷ [])) one ∙ drop-zero (ys ++ e ∷ []))

  newest-fits : (max : ℕ) (xs : List A) → (max == 0 || leb (length (newest max xs)) max) ≡ true
  newest-fits max xs = ground (arith, length-drop (length xs - max) xs)

  -- What a queue is after a list of events.
  abbrev pub received : ℕ → List A → Queue A → Queue A
  received max es q = record q { waiting = newest max (q.waiting ++ es) }

  offer-received :
      (max : ℕ) (e : A) (q : Queue A) → IsBounded max q → offer max e q ≡ received max (e ∷ []) q
  unfolding offer
  offer-received max e q fits = from (is_full max q.waiting) (offered max e q.waiting fits)
    where
      from :
          (b : Bool)
          → (if b then without_first q.waiting ++ e ∷ [] else q.waiting ++ e ∷ [])
            ≡ newest max (q.waiting ++ e ∷ [])
          → (if b
              then record q { waiting = without_first q.waiting ++ e ∷ [] }
              else record q { waiting = q.waiting ++ e ∷ [] })
            ≡ received max (e ∷ []) q
      from true same = ap (λ xs. record q { waiting = xs }) same
      from false same = ap (λ xs. record q { waiting = xs }) same

  received-append :
      (max : ℕ) (es fs : List A) (q : Queue A)
      → received max fs (received max es q) ≡ received max (es ++ fs) q
  received-append max es fs q =
      ap (λ xs. record q { waiting = xs })
        (newest-append max (q.waiting ++ es) fs ∙ ap (newest max) (append_assoc q.waiting es fs))

  map-received :
      (max : ℕ) (es fs : List A) (qs : List (Queue A))
      → map (received max fs) (map (received max es) qs) ≡ map (received max (es ++ fs)) qs
  map-received max es fs [] = refl
  map-received max es fs (q ∷ qs) =
      ap (λ x. x ∷ map (received max fs) (map (received max es) qs)) (received-append max es fs q)
      ∙ ap (λ xs. received max (es ++ fs) q ∷ xs) (map-received max es fs qs)

  map-offer :
      (max : ℕ) (e : A) (qs : List (Queue A))
      → All (IsBounded max) qs
      → (map (offer max e) qs ≡ map (received max (e ∷ [])) qs)
        × All (IsBounded max) (map (offer max e) qs)
  map-offer max e [] all = (refl, tt)
  map-offer max e (q ∷ qs) (fits, all) =
      let (same, rest) = map-offer max e qs all in
      let is = offer-received max e q fits in
      (
        ap (λ x. x ∷ map (offer max e) qs) is ∙ ap (λ xs. received max (e ∷ []) q ∷ xs) same,
        (subst (IsBounded max) (sym is) (newest-fits max (q.waiting ++ e ∷ [])), rest),
      )

  -- `self._subscribers.get(type, [])`
  unfoldable pub subscribers_of : String → List (String × List (Queue A)) → List (Queue A)
  subscribers_of type [] = []
  subscribers_of type ((t, qs) ∷ rest) =
      let later = subscribers_of type rest in if text_eq t type then qs else later

  subscribers_of-offer_typed :
      (max : ℕ) (type key : String) (e : A) (typed : List (String × List (Queue A)))
      → subscribers_of key (offer_typed max type e typed) ≡ (
          if text_eq type key
          then map (offer max e) (subscribers_of key typed)
          else subscribers_of key typed)
  unfolding subscribers_of offer_typed
  subscribers_of-offer_typed max type key e [] = ground arith
  subscribers_of-offer_typed max type key e ((t, qs) ∷ rest) = ground (
    arith,
    subscribers_of-offer_typed max type key e rest,
    eq_iff t type,
    eq_iff type key,
    eq_iff t key,
  )

module _ {A : Type 0} (type_of : A → String) where
  abbrev pub events_of : List (A × Bool) → List A
  events_of [] = []
  events_of ((e, audited) ∷ es) = e ∷ events_of es

  -- The events of a type.
  abbrev pub typed_events : String → List (A × Bool) → List A
  typed_events key [] = []
  typed_events key ((e, audited) ∷ es) =
      if text_eq (type_of e) key then e ∷ typed_events key es else typed_events key es

  received_nil :
      (max : ℕ) (qs : List (Queue A)) → All (IsBounded max) qs → map (received max []) qs ≡ qs
  received_nil max [] all = refl
  received_nil max (q ∷ qs) (fits, all) =
      ap (λ xs. record q { waiting = xs } ∷ map (received max []) qs)
        (ap (newest max) (append-nil q.waiting) ∙ whole (max == 0) (ground (arith, fits)))
      ∙ ap (λ xs. q ∷ xs) (received_nil max qs all)
    where
      whole :
          (unbounded : Bool)
          → ((unbounded || leb (length q.waiting) max) ≡ true)
          → (if unbounded then q.waiting else drop (length q.waiting - max) q.waiting) ≡ q.waiting
      whole true h = refl
      whole false h =
          let none_old : length q.waiting - max ≡ 0 = ground (arith, h) in
          ap (λ n. drop n q.waiting) none_old ∙ drop-zero q.waiting

  -- After any events are published, with queues that held no more than their size: each queue for
  -- all events holds the newest of what it held and the events, up to its size; and each queue for
  -- a type does so with the events of that type. A size of 0 is no bound.
  pub publish_all-newest :
      (es : List (A × Bool)) (b : EventBus A) (key : String)
      → All (IsBounded b.max_queue) b.global_subscribers
      → All (IsBounded b.max_queue) (subscribers_of key b.typed)
      → let b' = publish_all type_of es b in
        (b'.global_subscribers ≡ map (received b.max_queue (events_of es)) b.global_subscribers)
        × (subscribers_of key b'.typed
            ≡ map (received b.max_queue (typed_events key es)) (subscribers_of key b.typed))
  unfolding publish_all publish
  publish_all-newest [] b key global typed = (
    sym (received_nil b.max_queue b.global_subscribers global),
    sym (received_nil b.max_queue (subscribers_of key b.typed) typed),
  )
  publish_all-newest ((e, audited) ∷ es) b key global typed =
      let max = b.max_queue in
      let (is, fits) = map-offer max e b.global_subscribers global in
      let (is_typed, fits_typed) = map-offer max e (subscribers_of key b.typed) typed in
      let at = subscribers_of-offer_typed max (type_of e) key e b.typed in
      elim (Bool-cases (text_eq (type_of e) key)) [
        | inl same ↦
            let here_typed = rw same at at in
            let (g, t) =
              publish_all-newest es (publish type_of e audited b) key fits
                (subst (All (IsBounded max)) (sym here_typed) fits_typed) in
            rw same (
              g
                  ∙ ap (map (received max (events_of es))) is
                  ∙ map-received max (e ∷ []) (events_of es) b.global_subscribers,
              t
                  ∙ ap (map (received max (typed_events key es))) (here_typed ∙ is_typed)
                  ∙ map-received max (e ∷ []) (typed_events key es) (subscribers_of key b.typed),
            )
        | inr other ↦
            let here_typed = rw other at at in
            let (g, t) =
              publish_all-newest es (publish type_of e audited b) key fits
                (subst (All (IsBounded max)) (sym here_typed) typed) in
            rw other (
              g
                  ∙ ap (map (received max (events_of es))) is
                  ∙ map-received max (e ∷ []) (events_of es) b.global_subscribers,
              t ∙ ap (map (received max (typed_events key es))) here_typed,
            )
      ]
