-- ===== src/Backend/Receipts/Again.antt =====
-- A repeated `enqueue`.
use sene_x.Common.{
  ℕ, String, ◌≡◌, refl, ap, ◌∙◌, inl, inr, true, false, List, none, some, ok, raise_if-eq-ok,
  Option-cases, Bool-cases, arith,
}
use sene_x.Common.Text.{text_eq, eq_refl}
use sene_x.Backend.Receipts.Lines.{Json, File}
use sene_x.Backend.Receipts.Store.{
  State, is_digest, differs_from, find_state, first_state, next_state, states, returns, writes,
  enqueue, enqueued, plan_enqueue, check_arguments, plan_call,
}
use sene_x.Backend.Receipts.Queue.{complete, call_store}
use sene_x.Backend.Receipts.Recovery.{IsJson}
use sene_x.Backend.Receipts.Keeping.{Kept}
use sene_x.Backend.Receipts.Events.{next_state-fields, add_event-finds}
use sene_x.Backend.Receipts.History.{
  no_file, Reach, next, called, Tells, states-Tells, closed-Tells, appended-Tells, Reach-Tells,
  reached,
}
use sene_x.Backend.Receipts.Lasting.{call_store-args, call_store-eq, Recorded}

module _ {Raw P : Type 0} (j : Json Raw P) (law : IsJson j) where
  -- The state is of this prediction, by its hash and by comparison.
  abbrev IsOf : P → State P → Type 0
  IsOf p s =
      (is_digest s.source_prediction_sha256 (j.prediction_sha p) ≡ true)
      × (differs_from j s.prediction p ≡ false)

  -- The state that the first event of a packet makes is of its prediction.
  first-IsOf :
      (n : ℕ) (now hash id : String) (p : P) (s : State P)
      → j.same p p ≡ true
      → next_state j n (enqueued j now hash id p) (first_state (enqueued j now hash id p)) ≡ ok s
      → IsOf p s
  first-IsOf n now hash id p s same made =
      let e = enqueued j now hash id p in
      let (prediction, status, ids, key, sha) = next_state-fields j n e (first_state e) s made in
      let given : s.prediction ≡ some p =
        ground (arith, prediction, eq_refl (j.prediction_sha p)) in
      rw (sha, given, same, eq_refl (j.prediction_sha p)) (refl, refl)

  enqueued-Recorded :
      (f : File Raw) (ss : List (State P)) (now hash id : String) (p : P) (s : State P)
      → Tells j f ss
      → j.same p p ≡ true
      → check_arguments j (enqueue hash id p) ≡ ok tt
      → (call_store j now (enqueue hash id p) f).0 ≡ ok (some s)
      → Recorded j law (call_store j now (enqueue hash id p) f).1 hash (λ s'. (s' ≡ s) × IsOf p s')
  enqueued-Recorded f ss now hash id p s t same args done =
      let c = enqueue hash id p in
      rw (call_store-eq j law now c f ss t args) (elim (Option-cases (find_state hash ss)) [
        | inl new ↦ fresh new (rw (call_store-eq j law now c f ss t args, new) at done)
        | inr (s', found) ↦
            known_before s' found (rw (call_store-eq j law now c f ss t args, found) at done)
      ])
    where
      fresh :
          find_state hash ss ≡ none
          → (complete j
              (enqueue hash id p)
              (ok (writes (enqueued j now hash id p)))
              (states j f).1).0
            ≡ ok (some s)
          → Recorded j law
              (complete j
                (enqueue hash id p)
                (plan_call j now (enqueue hash id p) ss)
                (states j f).1).1
              hash
              (λ s'. (s' ≡ s) × IsOf p s')
      fresh new done =
          let e = enqueued j now hash id p in
          let is : plan_call j now (enqueue hash id p) ss ≡ ok (writes e) = rw new refl in
          let (more, n, added) = appended-Tells j law f ss e now (enqueue hash id p) t args is in
          let (s', found, made) = add_event-finds j n e ss more.states' added in
          let told = states-Tells j law _ more.states' more.tells in
          let again = closed-Tells j law _ more.states' more.tells in
          let answered : s' ≡ s = ground (arith, rw (told.0, found) at done) in
          rw is (
            more.states',
            s',
            (states-Tells j law _ more.states' again).0,
            found,
            (answered, first-IsOf n now hash id p s' same (rw new at made)),
          )

      known_before :
          (s' : State P)
          → find_state hash ss ≡ some s'
          → (complete j
              (enqueue hash id p)
              (plan_enqueue j now hash id p (some s'))
              (states j f).1).0
            ≡ ok (some s)
          → Recorded j law
              (complete j
                (enqueue hash id p)
                (plan_call j now (enqueue hash id p) ss)
                (states j f).1).1
              hash
              (λ s'. (s' ≡ s) × IsOf p s')
      known_before s' found done =
          elim (Bool-cases (is_digest s'.source_prediction_sha256 (j.prediction_sha p))) [
            | inr other_hash ↦ absurd (ground (arith, rw other_hash at done))
            | inl hashed ↦ elim (Bool-cases (differs_from j s'.prediction p)) [
              | inl other_payload ↦ absurd (ground (arith, rw (hashed, other_payload) at done))
              | inr equal ↦
                  let answered : s' ≡ s = ground (arith, rw (hashed, equal) at done) in
                  let is : plan_call j now (enqueue hash id p) ss ≡ ok (returns (some s')) =
                    rw (found, hashed, equal) refl in
                  rw is (
                    ss,
                    s',
                    (states-Tells j law _ ss (closed-Tells j law f ss t)).0,
                    found,
                    (answered, (hashed, equal)),
                  )
            ]
          ]

  -- Once `enqueue` has answered with a state, after any calls on a file that was not there,
  -- and after any calls since, a second `enqueue` of the packet's hash and the same
  -- prediction, with any packet ID that is not empty, answers with the state that the packet
  -- has by then: reading the file gives states, of which it is the packet's. It is of the same
  -- prediction, and the call writes no event. The prediction has to be equal to itself.
  -- The `json` library has to read back what it has written, which is not blank.
  pub enqueue-again :
      {f g : File Raw} (now hash id : String) (p : P) (s : State P) (now' id' : String)
      → Reach j (no_file j) f
      → j.same p p ≡ true
      → (call_store j now (enqueue hash id p) f).0 ≡ ok (some s)
      → Reach j (call_store j now (enqueue hash id p) f).1 g
      → text_eq id' "" ≡ false
      → (ss : List (State P)) × (s' : State P) × ((states j g).0 ≡ ok ss)
        × (find_state hash ss ≡ some s')
        × (call_store j now' (enqueue hash id' p) g ≡ (ok (some s'), (states j g).1))
        × Kept s s'
  enqueue-again {f} {g} now hash id p s now' id' r same done later named =
      let c = enqueue hash id p in
      let t = reached j law r in
      let args = call_store-args j law now c f (some s) done in
      let (ss, s₀, got, found, (is, is_of)) =
        enqueued-Recorded f t.states' now hash id p s t.tells same args done in
      let after = next r (called now c) in
      let a = reached j law after in
      let same_states : a.states' ≡ ss =
        ground (arith, got, (states-Tells j law _ a.states' a.tells).0) in
      let u = Reach-Tells j law a.states' a.tells later in
      let (s', found', kept) = u.later hash s (rw (same_states, found) (ap some is)) in
      let args' : check_arguments j (enqueue hash id' p) ≡ ok tt =
        ground (arith, raise_if-eq-ok _ _ args, named) in
      let (hashed, equal) = rw is at is_of in
      (
        u.states',
        s',
        (states-Tells j law _ u.states' u.tells).0,
        found',
        call_store-eq j law now' (enqueue hash id' p) g u.states' u.tells args'
            ∙ rw (found', kept.hash, hashed, kept.prediction, equal) refl,
        kept,
      )
