-- ===== src/Backend/Receipts/History.antt =====
-- Calls of the store, one after another, some of them cut short while they append, and what the
-- file says after them.
use sene_x.Common.{
  ℕ, suc, ◌+◌, String, ◌≡◌, refl, ap, ◌∙◌, inl, inr, List, [], ◌∷◌, ◌++◌, length, none, Outcome, ok,
  err, ◌>>=◌, Outcome-cases, arith,
}
use sene_x.Backend.Receipts.Lines.{receipt, Receipt, Json, StoreError, File, write_text, append}
use sene_x.Backend.Receipts.Store.{
  State, add_event, states_from, states_of, states, Move, returns, writes, Call, enqueue,
  mark_failed, mark_persisted, check_arguments, plan_call,
}
use sene_x.Backend.Receipts.Queue.{finish, complete, call_store}
use sene_x.Backend.Receipts.Recovery.{
  IsJson, IsTorn, IsReadable, IsClosed, nothing, read-IsReadable, IsReadable-closed,
  append-IsClosed, cut-IsReadable, unended-IsReadable,
}
use sene_x.Backend.Receipts.Keeping.{Later, Later-refl, Later-trans, AllWhole}
use sene_x.Backend.Receipts.Events.{Takes, plan_call-Takes}

module _ {Raw P : Type 0} (j : Json Raw P) where
  abbrev pub no_file : File Raw
  no_file = record { lines = []; tail = none }

  -- What a process that is stopped while it appends an event has written of it.
  pub data IsCut (e : Receipt P) : Raw → Type 0 where
    partly : {raw : Raw} → IsTorn j raw → IsCut e raw
    but_the_end : IsCut e (j.dumps (receipt e))

  -- A call that came to its end, a reading one, or one that was stopped while it appended.
  pub data Step : File Raw → File Raw → Type 0 where
    called : {f : File Raw} (now : String) (c : Call P) → Step f (call_store j now c f).1
    looked : {f : File Raw} → Step f (states j f).1
    stopped :
        {f : File Raw} (now : String) (c : Call P) (ss : List (State P)) (e : Receipt P) (raw : Raw)
        → check_arguments j c ≡ ok tt
        → (states j f).0 ≡ ok ss
        → plan_call j now c ss ≡ ok (writes e)
        → IsCut e raw
        → Step f (write_text j raw (states j f).1)

  pub data Reach : File Raw → File Raw → Type 0 where
    here : {f : File Raw} → Reach f f
    next : {f g h : File Raw} → Reach f g → Step g h → Reach f h

  -- The file is read without an error, and these are the states.
  pub record Tells (f : File Raw) (ss : List (State P)) : Type 0 where
    pub rows : List (Receipt P)
    pub readable : IsReadable j f rows
    pub meaning : states_of j rows ≡ ok ss
    pub long : AllWhole ss

  -- From one file to another with its states, all of them kept.
  pub record TellsLater (f : File Raw) (ss : List (State P)) : Type 0 where
    pub states' : List (State P)
    pub tells : Tells f states'
    pub later : Later ss states'

  states_from-snoc :
      (n : ℕ) (es : List (Receipt P)) (e : Receipt P) (ss : List (State P))
      → states_from j n (es ++ e ∷ []) ss
        ≡ (states_from j n es ss >>= add_event j (n + length es) e)
  unfolding states_from
  states_from-snoc n [] e ss =
      let at : n ≡ n + 0 = omega arith in
      last (add_event j n e ss) ∙ ap (λ k. add_event j k e ss) at
    where
      last : (m : Outcome StoreError (List (State P))) → (m >>= λ x. ok x) ≡ m
      last (ok x) = refl
      last (err x) = refl
  states_from-snoc n (q ∷ es) e ss =
      later (add_event j n q ss) (λ x. states_from-snoc (suc n) es e x)
    where
      at : suc n + length es ≡ n + length (q ∷ es)
      at = omega arith

      later :
          (m : Outcome StoreError (List (State P)))
          → ((x : List (State P))
              → states_from j (suc n) (es ++ e ∷ []) x
                ≡ (states_from j (suc n) es x >>= add_event j (suc n + length es) e))
          → (m >>= λ x. states_from j (suc n) (es ++ e ∷ []) x)
            ≡ ((m >>= λ x. states_from j (suc n) es x) >>= add_event j (n + length (q ∷ es)) e)
      later (err x) rest = refl
      later (ok x) rest = rest x ∙ ap (λ k. states_from j (suc n) es x >>= add_event j k e) at

  module _ (law : IsJson j) where
    no_file-Tells : Tells no_file []
    unfolding states_from
    no_file-Tells = record {
      rows = [];
      readable = IsReadable-closed j law no_file [] (nothing, refl);
      meaning = refl;
      long = tt;
    }

    -- `_states` returns the states and leaves a file that tells them with its lines ended.
    pub states-Tells :
        (f : File Raw) (ss : List (State P)) (t : Tells f ss)
        → ((states j f).0 ≡ ok ss) × IsClosed j (states j f).1 t.rows
    states-Tells f ss t =
        let (got, ends) = read-IsReadable j law f t.rows t.readable in (rw got t.meaning, ends)

    pub closed-Tells :
        (f : File Raw) (ss : List (State P)) (t : Tells f ss) → Tells (states j f).1 ss
    closed-Tells f ss t = record {
      rows = t.rows;
      readable = IsReadable-closed j law _ t.rows (states-Tells f ss t).1;
      meaning = t.meaning;
      long = t.long;
    }

    -- The states of the rows with one more, which the states so far take.
    more-rows :
        (ss : List (State P)) (rows : List (Receipt P)) (e : Receipt P) (now : String) (c : Call P)
        → states_of j rows ≡ ok ss
        → AllWhole ss
        → check_arguments j c ≡ ok tt
        → plan_call j now c ss ≡ ok (writes e)
        → (ss' : List (State P)) × (states_of j (rows ++ e ∷ []) ≡ ok ss')
          × Takes j (1 + length rows) e ss ss'
    more-rows ss rows e now c meaning long args planned =
        let (ss', taken) = plan_call-Takes j (1 + length rows) now c ss e args planned long in
        (ss', states_from-snoc 1 rows e [] ∙ rw meaning taken.added, taken)

    pub appended-Tells :
        (f : File Raw) (ss : List (State P)) (e : Receipt P) (now : String) (c : Call P)
        → Tells f ss
        → check_arguments j c ≡ ok tt
        → plan_call j now c ss ≡ ok (writes e)
        → (more : TellsLater (append j e (states j f).1) ss) × (n : ℕ) × (add_event j n e ss
            ≡ ok more.states')
    appended-Tells f ss e now c t args planned =
        let (ss', meaning, taken) = more-rows ss t.rows e now c t.meaning t.long args planned in
        (
          record {
            states' = ss';
            tells = record {
              rows = t.rows ++ e ∷ [];
              readable =
                  IsReadable-closed j law _ _
                    (append-IsClosed j law (states j f).1 t.rows e (states-Tells f ss t).1);
              meaning = meaning;
              long = taken.long;
            };
            later = taken.later;
          },
          1 + length t.rows,
          taken.added,
        )

    finish-Tells :
        (c : Call P) (f : File Raw) (ss : List (State P)) → Tells f ss → Tells (finish j c f).1 ss
    finish-Tells (enqueue hash id p) f ss t = closed-Tells f ss t
    finish-Tells (mark_failed hash reason) f ss t = t
    finish-Tells (mark_persisted hash id) f ss t = t

    call_store-Tells :
        (now : String) (c : Call P) (f : File Raw) (ss : List (State P))
        → Tells f ss
        → TellsLater (call_store j now c f).1 ss
    unfolding call_store
    call_store-Tells now c f ss t = elim (Outcome-cases (check_arguments j c)) [
      | inl (e, bad) ↦ rw bad (record { states' = ss; tells = t; later = Later-refl ss })
      | inr (u, args) ↦
          rw (args, (states-Tells f ss t).0) (planned args (plan_call j now c ss) refl)
    ]
      where
        planned :
            check_arguments j c ≡ ok tt
            → (m : Outcome StoreError (Move P)) → plan_call j now c ss ≡ m
            → TellsLater (complete j c m (states j f).1).1 ss
        planned args (err e) is = record {
          states' = ss;
          tells = closed-Tells f ss t;
          later = Later-refl ss;
        }
        planned args (ok (returns s)) is = record {
          states' = ss;
          tells = closed-Tells f ss t;
          later = Later-refl ss;
        }
        planned args (ok (writes e)) is =
            let (more, n, added) = appended-Tells f ss e now c t args is in
            record {
              states' = more.states';
              tells = finish-Tells c _ more.states' more.tells;
              later = more.later;
            }

    stopped-Tells :
        (f : File Raw) (ss : List (State P)) (e : Receipt P) (raw : Raw) (now : String) (c : Call P)
        → Tells f ss
        → check_arguments j c ≡ ok tt
        → plan_call j now c ss ≡ ok (writes e)
        → IsCut e raw
        → TellsLater (write_text j raw (states j f).1) ss
    stopped-Tells f ss e raw now c t args planned (partly bad) = record {
      states' = ss;
      tells = record {
        rows = t.rows;
        readable = cut-IsReadable j law (states j f).1 t.rows raw (states-Tells f ss t).1 bad;
        meaning = t.meaning;
        long = t.long;
      };
      later = Later-refl ss;
    }
    stopped-Tells f ss e raw now c t args planned but_the_end =
        let (ss', meaning, taken) = more-rows ss t.rows e now c t.meaning t.long args planned in
        record {
          states' = ss';
          tells = record {
            rows = t.rows ++ e ∷ [];
            readable = unended-IsReadable j law (states j f).1 t.rows e (states-Tells f ss t).1;
            meaning = meaning;
            long = taken.long;
          };
          later = taken.later;
        }

    Step-Tells : {f g : File Raw} (ss : List (State P)) → Tells f ss → Step f g → TellsLater g ss
    Step-Tells ss t (called {f} now c) = call_store-Tells now c f ss t
    Step-Tells ss t (looked {f}) = record {
      states' = ss;
      tells = closed-Tells f ss t;
      later = Later-refl ss;
    }
    Step-Tells ss t (stopped {f} now c ss' e raw args got planned is_cut) =
        let same : ss ≡ ss' = ground (arith, got, (states-Tells f ss t).0) in
        stopped-Tells f ss e raw now c t args (rw same planned) is_cut

    pub Reach-Tells :
        {f g : File Raw} (ss : List (State P)) → Tells f ss → Reach f g → TellsLater g ss
    Reach-Tells ss t here = record { states' = ss; tells = t; later = Later-refl ss }
    Reach-Tells ss t (next r step) =
        let a = Reach-Tells ss t r in
        let b = Step-Tells a.states' a.tells step in
        record {
          states' = b.states';
          tells = b.tells;
          later = Later-trans ss a.states' b.states' a.later b.later;
        }

    pub reached : {f : File Raw} → Reach no_file f → TellsLater f []
    reached r = Reach-Tells [] no_file-Tells r

    -- Whatever calls the store has served on a file that was not there, and wherever the
    -- process was stopped while it appended an event (with a part of it written that is no
    -- JSON value, or all of it but the line's end): the file is read without an error. The
    -- `json` library has to read back what it has written, which is not blank.
    pub Reach-states :
        {f : File Raw} → Reach no_file f → (ss : List (State P)) × ((states j f).0 ≡ ok ss)
    Reach-states {f} r = let t = reached r in (t.states', (states-Tells f t.states' t.tells).0)

    -- A packet that the store knows, after any calls on a file that was not there, is never
    -- lost, whatever calls follow and wherever they are stopped while they append: it keeps
    -- its packet ID, its prediction and the prediction's hash, and once it is persisted, its
    -- state as a whole. The `json` library has to read back what it has written, which is not
    -- blank.
    pub Reach-Later :
        {f g : File Raw} (ss : List (State P))
        → Reach no_file f
        → Reach f g
        → (states j f).0 ≡ ok ss
        → (ss' : List (State P)) × ((states j g).0 ≡ ok ss') × Later ss ss'
    Reach-Later {f} {g} ss r q got =
        let t = reached r in
        let same : t.states' ≡ ss = ground (arith, got, (states-Tells f t.states' t.tells).0) in
        let u = Reach-Tells ss (rw (← same) t.tells) q in
        (u.states', (states-Tells g u.states' u.tells).0, u.later)
