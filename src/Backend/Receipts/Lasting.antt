-- ===== src/Backend/Receipts/Lasting.antt =====
-- What `mark_persisted` and `enqueue` answer, and what stays of it.
use sene_x.Common.{
  String, ◌≡◌, refl, ◌∙◌, inl, inr, true, false, ==_iff, List, Option, none, some, is_some, ok,
  Outcome-cases, Option-cases, Bool-cases, arith,
}
use sene_x.Common.Int.{ℤ, pos, negsuc}
use sene_x.Backend.Receipts.Lines.{Receipt, Json, File, append}
use sene_x.Backend.Receipts.Store.{
  State, whole, is_persisted, is_other_id, find_state, states, returns, writes, Call,
  mark_persisted, persisted, plan_persisted, check_arguments, plan_call,
}
use sene_x.Backend.Receipts.Queue.{complete, call_store}
use sene_x.Backend.Receipts.Recovery.{IsJson}
use sene_x.Backend.Receipts.Events.{next_state-fields, add_event-finds}
use sene_x.Backend.Receipts.History.{
  no_file, Reach, next, called, Tells, states-Tells, closed-Tells, appended-Tells, reached,
  Reach-Later,
}

is_other_id-false : (x : Option ℤ) (y : ℤ) → is_other_id x y ≡ ok false → x ≡ some y
is_other_id-false none y h = cc
is_other_id-false (some (pos m)) (pos n) h = ground (arith, ==_iff m n)
is_other_id-false (some (negsuc m)) (negsuc n) h = ground (arith, ==_iff m n)
is_other_id-false (some (pos m)) (negsuc n) h = cc
is_other_id-false (some (negsuc m)) (pos n) h = cc

module _ {Raw P : Type 0} (j : Json Raw P) (law : IsJson j) where
  pub call_store-args :
      (now : String) (c : Call P) (f : File Raw) (r : Option (State P))
      → (call_store j now c f).0 ≡ ok r
      → check_arguments j c ≡ ok tt
  unfolding call_store
  call_store-args now c f r h = elim (Outcome-cases (check_arguments j c)) [
    | inl (e, bad) ↦ absurd (ground (arith, rw bad at h))
    | inr (u, args) ↦ args
  ]

  pub call_store-eq :
      (now : String) (c : Call P) (f : File Raw) (ss : List (State P))
      → Tells j f ss
      → check_arguments j c ≡ ok tt
      → call_store j now c f ≡ complete j c (plan_call j now c ss) (states j f).1
  unfolding call_store
  call_store-eq now c f ss t args = rw (args, (states-Tells j law f ss t).0) refl

  -- What a file tells of one packet.
  abbrev pub Recorded : File Raw → String → (State P → Type 0) → Type 0
  Recorded f hash Q =
      (ss : List (State P)) × (s : State P) × ((states j f).0 ≡ ok ss)
      × (find_state hash ss ≡ some s)
      × Q s

  abbrev pub IsPersistedAs : ℤ → State P → Type 0
  IsPersistedAs id s = (is_persisted s.status ≡ true) × (s.d1_prediction_id ≡ some id)

  -- After an append, the event's packet is found with a state that its event has made.
  appended-Recorded :
      (f : File Raw) (ss : List (State P)) (e : Receipt P) (now : String) (c : Call P)
      → Tells j f ss
      → check_arguments j c ≡ ok tt
      → plan_call j now c ss ≡ ok (writes e)
      → Recorded (append j e (states j f).1) e.source_packet_hash (λ s.
        (s.status ≡ e.event)
        × ((id : ℤ) → e.d1_prediction_id ≡ some id → s.d1_prediction_id ≡ some id))
  appended-Recorded f ss e now c t args planned =
      let (more, n, added) = appended-Tells j law f ss e now c t args planned in
      let (s, found, made) = add_event-finds j n e ss more.states' added in
      let (prediction, status, id, key, sha) = next_state-fields j n e _ s made in
      (
        more.states',
        s,
        (states-Tells j law _ more.states' more.tells).0,
        found,
        (status, λ i given. id ∙ ground (arith, given)),
      )

  persisted-Recorded :
      (f : File Raw) (ss : List (State P)) (now hash : String) (id : ℤ)
      → Tells j f ss
      → check_arguments j (mark_persisted hash (whole id)) ≡ ok tt
      → (call_store j now (mark_persisted hash (whole id)) f).0 ≡ ok none
      → Recorded (call_store j now (mark_persisted hash (whole id)) f).1 hash (IsPersistedAs id)
  persisted-Recorded f ss now hash id t args done =
      let c = mark_persisted hash (whole id) in
      rw (call_store-eq now c f ss t args) (elim (Option-cases (find_state hash ss)) [
        | inl new ↦ absurd (ground (arith, rw (call_store-eq now c f ss t args, new) at done))
        | inr (s, found) ↦ from s found (rw (call_store-eq now c f ss t args, found) at done)
      ])
    where
      from :
          (s : State P)
          → find_state hash ss ≡ some s
          → (complete j
              (mark_persisted hash (whole id))
              (plan_persisted now hash id (some s))
              (states j f).1).0
            ≡ ok none
          → Recorded
              (complete j
                (mark_persisted hash (whole id))
                (plan_call j now (mark_persisted hash (whole id)) ss)
                (states j f).1).1
              hash
              (IsPersistedAs id)
      from s found done = elim (Bool-cases (is_some s.prediction)) [
        | inr without ↦ absurd (ground (arith, rw without at done))
        | inl given ↦ elim (Bool-cases (is_persisted s.status)) [
          | inr unsettled ↦
              let is : plan_call j now (mark_persisted hash (whole id)) ss
                  ≡ ok (writes (persisted now s hash id)) =
                rw (found, given, unsettled) refl in
              let (ss', s', got, found', (status, ids)) =
                appended-Recorded f ss (persisted now s hash id) now
                  (mark_persisted hash (whole id)) t args is in
              rw is (ss', s', got, found', (rw status refl, ids id refl))
          | inl settled ↦ elim (Outcome-cases (is_other_id s.d1_prediction_id id)) [
            | inl (e, bad) ↦ absurd (ground (arith, rw (given, settled, bad) at done))
            | inr (true, differs) ↦ absurd (ground (arith, rw (given, settled, differs) at done))
            | inr (false, same) ↦
                let is : plan_call j now (mark_persisted hash (whole id)) ss ≡ ok (returns none) =
                  rw (found, given, settled, same) refl in
                rw is (
                  ss,
                  s,
                  (states-Tells j law _ ss (closed-Tells j law f ss t)).0,
                  found,
                  (settled, is_other_id-false s.d1_prediction_id id same),
                )
          ]
        ]
      ]

  -- Once `mark_persisted` has returned, after any calls on a file that was not there, the
  -- packet stays persisted under that ID, whatever calls follow and wherever they are stopped
  -- while they append. The `json` library has to read back what it has written, which is not
  -- blank.
  pub mark_persisted-lasts :
      {f g : File Raw} (now hash : String) (id : ℤ)
      → Reach j (no_file j) f
      → (call_store j now (mark_persisted hash (whole id)) f).0 ≡ ok none
      → Reach j (call_store j now (mark_persisted hash (whole id)) f).1 g
      → Recorded g hash (IsPersistedAs id)
  mark_persisted-lasts {f} {g} now hash id r done later =
      let c = mark_persisted hash (whole id) in
      let t = reached j law r in
      let (ss, s, got, found, (settled, same)) =
        persisted-Recorded f t.states' now hash id t.tells (call_store-args now c f none done)
          done in
      let (ss', got', keeps) = Reach-Later j law ss (next r (called now c)) later got in
      let (s', found', kept) = keeps hash s found in
      (ss', s', got', found', rw (kept.settled settled) (settled, same))
