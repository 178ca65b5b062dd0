-- ===== src/Rea/Engine/Durable/Freeze.antt =====
-- What a call that raises leaves behind, what a blocked engine still does, and the resolution of a
-- block that the journal does not know of.
use sene_x.Common.{
  ℕ, ◌+◌, String, ◌≡◌, refl, sym, subst, ap, ◌∙◌, ◌≢◌, ◌⊎◌, inl, inr, Bool, true, false, List, [],
  ◌∷◌, ◌++◌, map, Option, none, some, Outcome, ok, err, ◌>>=◌, >>=-eq-ok, Outcome-cases, arith,
}
use sene_x.Rea.Paper.State.{PaperState, Digest}
use sene_x.Rea.Engine.Event.{
  EngineError, Event, order_registered, divergence_resolved, Record, RiskLimits, Book, Engine,
  BlockReason, durability, Reply,
}
use sene_x.Rea.Engine.Reduce.{
  Candidate, unchanged, is_resolution, reduce_resolution, reduce_event, reduce,
}
use sene_x.Rea.Engine.Journal.{
  Hashing, genesis_hash, Disk, Append, block, add_line, Done, check_line, check_lines, read_journal,
}
use sene_x.Rea.Engine.Journal.Runs.{
  written, Wrote, Ran, refused, answered, frozen, unreleased, recorded,
}
use sene_x.Rea.Engine.Commands.{Command, call}
use sene_x.Rea.Engine.Recover.{genesis, replay_record, replay}
use sene_x.Rea.Engine.Log.{replay-snoc, replay-Logged}
use sene_x.Rea.Engine.Commands.Runs.{call-Ran}
use sene_x.Rea.Engine.Durable.{map-some-snoc, fresh_engine, empty_disk, Served, Served-IsSynced}

module _ (h : Hashing) where
  -- The engine and the file after a call that raised. The block apart, the engine's book is the one
  -- from before; its size of the file as well, or the file has grown by one whole line, the engine
  -- counts the line's bytes, and it is blocked.
  pub record NotAdvanced (g : Engine) (d : Disk) (g' : Engine) (d' : Disk) : Type 0 where
    pub book : g'.book ≡ record g.book { blocked = g'.blocked }
    pub sized :
        (g'.journal_size ≡ g.journal_size)
        ⊎ ((r : Record) × (r.entry.journal_seq ≡ g.journal_seq + 1)
            × (d.size ≡ g.journal_size)
            × (d' ≡ add_line (h.line_size r) r d)
            × (g'.journal_size ≡ d'.size)
            × (g'.blocked ≡ some durability))

  Ran-error :
      {g : Engine} {d : Disk} {m : Done (Bool × Reply)} (e : EngineError)
      → Ran h g d m
      → m.0 ≡ err e
      → NotAdvanced g d m.1 m.2
  Ran-error e (refused e') same = record { book = refl; sized = inl refl }
  Ran-error e (answered r) same = record { book = refl; sized = inl refl }
  Ran-error e (frozen e' why d') same = record { book = refl; sized = inl refl }
  Ran-error e (unreleased e' r numbered sized) same = record {
    book = refl;
    sized = inr (r, numbered, sized, refl, ap (λ n. n + h.line_size r) (sym sized), refl);
  }
  Ran-error e (recorded q g' d' w) same = cc

  -- A call that raises, for whatever reason and at whatever point of its append, the release of the
  -- writer lock included, has not advanced the engine: state, terminal orders, journal position,
  -- clock, discrepancies and indexes are those from before, and at most the reason of a block is
  -- new. The size at which the engine expects the file is unchanged too, or one whole line of the
  -- next number was added to a file that had the expected size, the engine expects the size of that
  -- longer file, and it is blocked by the failure.
  pub call_raises :
      (c : Command) (a : Append) (g : Engine) (d : Disk) (e : EngineError)
      → (call h c a g d).0 ≡ err e
      → NotAdvanced g d (call h c a g d).1 (call h c a g d).2
  call_raises c a g d e = Ran-error e (call-Ran h c a g d)

  err_ne_ok :
      {A : Type 0} (e : EngineError) (a : A) → ¬ (◌≡◌ {A = Outcome EngineError A} (err e) (ok a))
  err_ne_ok e a same = cc

  answered_ne_recorded :
      (q r : Reply)
      → ¬ (◌≡◌ {A = Outcome EngineError (Bool × Reply)} (ok (false, q)) (ok (true, r)))
  answered_ne_recorded q r same = ground arith

  reply_eq :
      (q r : Reply)
      → ◌≡◌ {A = Outcome EngineError (Bool × Reply)} (ok (true, q)) (ok (true, r))
      → q ≡ r
  reply_eq q r same = ground arith

  pub Ran-Wrote :
      {g : Engine} {d : Disk} {m : Done (Bool × Reply)} (r : Reply)
      → Ran h g d m
      → m.0 ≡ ok (true, r)
      → Wrote h g d r m.1 m.2
  Ran-Wrote r (refused e) same = absurd (err_ne_ok e _ same)
  Ran-Wrote r (answered q) same = absurd (answered_ne_recorded q r same)
  Ran-Wrote r (frozen e why d') same = absurd (err_ne_ok e _ same)
  Ran-Wrote r (unreleased e x numbered sized) same = absurd (err_ne_ok e _ same)
  Ran-Wrote {g} {d} r (recorded q g' d' w) same =
      subst (λ x. Wrote h g d x g' d') (reply_eq q r same) w

  -- With a block, only a resolution reduces, and all that it changes is the block.
  reduce_blocked :
      (b : Book) (event : Event) (n t : ℕ) (c : Candidate) (why : BlockReason)
      → b.blocked ≡ some why
      → reduce h.digest b event n t ≡ ok c
      → (is_resolution event ≡ true) × (c ≡ record (unchanged b) { blocked = none })
  unfolding reduce reduce_event reduce_resolution
  reduce_blocked b (divergence_resolved p) n t c why held e = ground arith
  reduce_blocked b (order_registered p) n t c why held e = ground arith
  reduce_blocked b _ n t c why held e = ground arith

  -- While the engine is blocked, a call that records an event can only lift the block: the paper
  -- state, the terminal orders and the discrepancies stay as they are.
  pub blocked_records :
      (c : Command) (a : Append) (g : Engine) (d : Disk) (why : BlockReason) (r : Reply)
      → g.blocked ≡ some why
      → (call h c a g d).0 ≡ ok (true, r)
      → let g' = (call h c a g d).1 in
        (g'.blocked ≡ none)
        × (g'.state ≡ g.state)
        × (g'.terminal ≡ g.terminal)
        × (g'.discrepancies ≡ g.discrepancies)
  blocked_records c a g d why r held wrote =
      let w = Ran-Wrote r (call-Ran h c a g d) wrote in
      let (_, same) =
        reduce_blocked g.book w.event _ w.time w.candidate why held w.accepted.reduced in
      rw (w.engine, same) (refl, refl, refl, refl)

  -- Without a block, a resolution does not reduce.
  resolution_unblocked :
      (b : Book) (event : Event) (n t : ℕ) (c : Candidate)
      → b.blocked ≡ none
      → is_resolution event ≡ true
      → reduce h.digest b event n t ≢ ok c
  unfolding reduce reduce_event reduce_resolution
  resolution_unblocked b (divergence_resolved p) n t c free is e = ground arith
  resolution_unblocked b (order_registered p) n t c free is e = cc
  resolution_unblocked b _ n t c free is e = ground arith

  lines_of_records :
      (seq : ℕ) (previous : Digest) (ids : List String) (ls : List (Option Record))
      (rs : List Record)
      → check_lines h seq previous ids ls ≡ ok rs
      → ls ≡ map some rs
  unfolding check_lines
  lines_of_records seq previous ids [] [] e = refl
  lines_of_records seq previous ids [] (r ∷ rs) e = absurd (ground arith)
  lines_of_records seq previous ids (none ∷ ls) rs e = absurd (ground arith)
  lines_of_records seq previous ids (some r ∷ ls) rs e =
      let (u, first, e₁) =
        >>=-eq-ok (check_line h seq previous ids r)
          (λ _.
            check_lines h (seq + 1) r.event_sha256 (r.entry.event_id ∷ ids) ls >>= λ t. ok (r ∷ t))
          e in
      let (t, rest, e₂) =
        >>=-eq-ok (check_lines h (seq + 1) r.event_sha256 (r.entry.event_id ∷ ids) ls)
          (λ t. ok (r ∷ t)) e₁ in
      let same : rs ≡ r ∷ t = ground arith in
      rw same (
        ap (λ l. some r ∷ l)
          (lines_of_records (seq + 1) r.event_sha256 (r.entry.event_id ∷ ids) ls t rest))

  map-some-injective : (xs ys : List Record) → map some xs ≡ map some ys → xs ≡ ys
  map-some-injective [] [] e = refl
  map-some-injective [] (y ∷ ys) e = absurd (ground arith)
  map-some-injective (x ∷ xs) [] e = absurd (ground arith)
  map-some-injective (x ∷ xs) (y ∷ ys) e = ground (arith, map-some-injective xs ys)

  records_of_disk : (d : Disk) (rs : List Record) → read_journal h d ≡ ok rs → d.lines ≡ map some rs
  unfolding read_journal
  records_of_disk d rs e = lines_of_records 1 genesis_hash [] d.lines rs (ground arith)

  replay_one :
      (b b' : Book) (r : Record)
      → replay h b (r ∷ []) ≡ ok b'
      → (c : Candidate) × (reduce h.digest b r.entry.event r.entry.journal_seq r.entry.timestamp
          ≡ ok c)
  unfolding replay replay_record
  replay_one b b' r e =
      elim (Outcome-cases (reduce h.digest b r.entry.event r.entry.journal_seq r.entry.timestamp)) [
        | inl (x, bad) ↦ absurd (ground (arith, bad))
        | inr (c, good) ↦ (c, good)
      ]

  -- An engine that no divergence blocks and that a failed append freezes, its file unchanged, still
  -- takes a `resolve_divergence`. If that call records its event, the journal can no longer be
  -- replayed: whatever records the reader returns, the replay from the initial state fails.
  pub resolved_freeze_stuck :
      (s : PaperState) (limits : RiskLimits) (g : Engine) (d : Disk) (c : Command) (a : Append)
      (why : BlockReason) (r : Reply) (rs : List Record) (b : Book)
      → Served h (fresh_engine s limits) empty_disk g d
      → g.blocked ≡ none
      → (call h c a (block why g) d).0 ≡ ok (true, r)
      → read_journal h (call h c a (block why g) d).2 ≡ ok rs
      → replay h (genesis s limits) rs ≢ ok b
  resolved_freeze_stuck s limits g d c a why r rs b served free wrote readable replayed =
      let sync = Served-IsSynced h (fresh_engine s limits) empty_disk served in
      let w = Ran-Wrote r (call-Ran h c a (block why g) d) wrote in
      let x = written h (block why g) w.key w.event w.time in
      let (is, _) =
        reduce_blocked (block why g).book w.event _ w.time w.candidate why refl
          w.accepted.reduced in
      let held = records_of_disk _ rs readable in
      let lines : map some (sync.records ++ x ∷ []) ≡ map some rs =
        sym (map-some-snoc sync.records x)
        ∙ ap (λ ls. ls ++ some x ∷ []) (sym sync.lines)
        ∙ sym (ap (λ (y : Disk). y.lines) w.disk)
        ∙ held in
      let same = map-some-injective (sync.records ++ x ∷ []) rs lines in
      let one =
        sym (replay-snoc h (genesis s limits) sync.records x (replay-Logged h sync.logged))
        ∙ ap (λ l. replay h (genesis s limits) l) same
        ∙ replayed in
      let (e, reduced) = replay_one g.book b x one in
      resolution_unblocked g.book w.event _ w.time e free is reduced
