-- ===== src/Rea/Engine/Reduce/Paper.antt =====
-- The paper state under the reducer.
use sene_x.Common.{
  ℕ, ◌≡◌, inl, inr, not, Outcome, ok, ◌>>=◌, ◌>>◌, raise_if, map_err, >>=-eq-ok, Outcome-cases,
  arith,
}
use sene_x.Rea.Contracts.{finite}
use sene_x.Rea.Paper.State.{PaperState, Digest}
use sene_x.Rea.Paper.Fill.{FillEvent, FillApplication, register_order, apply_fill}
use sene_x.Rea.Paper.Fill.History.{Reach, here, next, registers, fills}
use sene_x.Rea.Engine.Event.{
  EngineError, resilience, duplicate_fill_record, fill, Registration, FillPayload, Termination,
  Observation, Resolution, Event, order_registered, fill_applied, order_cancelled, order_expired,
  snapshot_reconciled, divergence_resolved, EngineStatus, Book,
}
use sene_x.Rea.Engine.Reduce.{
  Candidate, reduce_registration, fill_event, check_fill_record, reduce_fill, reduce_termination,
  reduce_observation, reduce_resolution, reduce_event, reduce, unchanged, fill_reply,
}

registration-state :
    (g : Book) (p : Registration) (c : Candidate)
    → reduce_registration g p ≡ ok c
    → register_order g.state p.order_id p.client_order_id p.side (finite p.quantity) ≡ ok c.state
unfolding reduce_registration
registration-state g p c h =
    elim (Outcome-cases
      (register_order g.state p.order_id p.client_order_id p.side (finite p.quantity))) [
        | inl (e, bad) ↦ absurd (ground (arith, bad))
        | inr (s, good) ↦ ground (arith, good)
      ]

termination-state :
    (g : Book) (p : Termination) (ending : EngineStatus) (c : Candidate)
    → reduce_termination g p ending ≡ ok c
    → c.state ≡ g.state
unfolding reduce_termination
termination-state g p ending c h = ground arith

observation-state :
    (g : Book) (p : Observation) (seq : ℕ) (c : Candidate)
    → reduce_observation g p seq ≡ ok c
    → c.state ≡ g.state
unfolding reduce_observation
observation-state g p seq c h = ground arith

resolution-state :
    (g : Book) (p : Resolution) (c : Candidate) → reduce_resolution g p ≡ ok c → c.state ≡ g.state
unfolding reduce_resolution
resolution-state g p c h = ground arith

module _ (digest : FillEvent → Digest) where
  fill-state :
      (g : Book) (p : FillPayload) (seq t : ℕ) (c : Candidate)
      → reduce_fill digest g p seq t ≡ ok c
      → (e : FillEvent) × (r : FillApplication) × (apply_fill digest g.state e ≡ ok (c.state, r))
  unfolding reduce_fill
  fill-state g p seq t c h =
      let (u, guarded, h₁) =
        >>=-eq-ok (check_fill_record g p seq t) (λ _. fill_event p seq >>= applied) h in
      let (e, made, h₂) = >>=-eq-ok (fill_event p seq) applied h₁ in
      let (sr, good, h₃) = >>=-eq-ok (map_err resilience (apply_fill digest g.state e)) booked h₂ in
      elim (Outcome-cases (apply_fill digest g.state e)) [
        | inl (x, bad) ↦ absurd (ground (arith, bad, good))
        | inr (q, fine) ↦ (e, q.1, ground (arith, fine, good))
      ]
    where
      booked : PaperState × FillApplication → Outcome EngineError Candidate
      booked sr = do
        raise_if (not sr.1.applied) duplicate_fill_record
        ok (record (unchanged g) { state = sr.0; reply = fill (fill_reply sr.1) })

      applied : FillEvent → Outcome EngineError Candidate
      applied e = map_err resilience (apply_fill digest g.state e) >>= booked

  event-Reach :
      (g : Book) (event : Event) (seq t : ℕ) (c : Candidate)
      → reduce_event digest g event seq t ≡ ok c
      → Reach digest g.state c.state
  unfolding reduce_event
  event-Reach g (order_registered p) seq t c h =
      next here (registers _ _ _ _ _ _ (registration-state g p c h))
  event-Reach g (fill_applied p fill_seq) seq t c h =
      let (e, r, good) = fill-state g p fill_seq t c h in next here (fills _ _ e r good)
  event-Reach g (order_cancelled p) seq t c h = rw (termination-state g p _ c h) here
  event-Reach g (order_expired p) seq t c h = rw (termination-state g p _ c h) here
  event-Reach g (snapshot_reconciled p) seq t c h = rw (observation-state g p seq c h) here
  event-Reach g (divergence_resolved p) seq t c h = rw (resolution-state g p c h) here
  event-Reach g _ seq t c h = absurd (ground arith)

  -- Reducing an event is at most one registration or one fill of the paper state.
  pub reduce-Reach :
      (g : Book) (event : Event) (seq t : ℕ) (c : Candidate)
      → reduce digest g event seq t ≡ ok c
      → Reach digest g.state c.state
  unfolding reduce
  reduce-Reach g event seq t c h = event-Reach g event seq t c (ground arith)

  pub Reach-trans : {s t u : PaperState} → Reach digest s t → Reach digest t u → Reach digest s u
  Reach-trans r here = r
  Reach-trans r (next q st) = next (Reach-trans r q) st
